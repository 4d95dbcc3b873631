-- ===== src/Commands/DataSm.antt =====
-- common/commands/data_sm.rs, `data_sm`: its constructor, encoder and decoder.
pub mod Laws
pub mod Response
use smpp.Base.{
  ℕ, ◌+◌, ◌≡◌, [], ◌∷◌, ◌++◌, Bytes, List, cast_u8, cast_u32, length, drop, ltb, leb, if◌then◌else◌,
  Result, ok, err, panic, ◌>>=◌,
}
use smpp.Nom.{Nom}
use smpp.Common.Error.{SmppError, status_of, esme_rok, esme_rinvcmdlen}
use smpp.Common.Command.{CommandId, id_of}
use smpp.Common.Header.{CommandHeader}
use smpp.Common.Header
use smpp.Common.CString.{take_c_string, take_octet, take_octets}
use smpp.Common.Tlv.{Tlv, decode_tlvs, encode_tlvs, tlvs_encoded_len}

pub record DataSm : Type 0 where
  pub header : CommandHeader
  pub service_type : Bytes
  pub source_addr_ton : ℕ
  pub source_addr_npi : ℕ
  pub source_addr : Bytes
  pub dest_addr_ton : ℕ
  pub dest_addr_npi : ℕ
  pub destination_addr : Bytes
  pub esm_class : ℕ
  pub registered_delivery : ℕ
  pub data_coding : ℕ
  pub tlvs : List Tlv

-- `base_command_length`, before its cast to a `u32`.
abbrev pub base_command_length : Bytes → Bytes → Bytes → ℕ
base_command_length service_type source_addr destination_addr =
    16 + length service_type + length source_addr + length destination_addr + 10

-- `data_sm::new`
unfoldable pub new : ℕ → Bytes → ℕ → ℕ → Bytes → ℕ → ℕ → Bytes → ℕ → ℕ → ℕ → DataSm
new sequence_number service_type source_addr_ton source_addr_npi source_addr dest_addr_ton
      dest_addr_npi destination_addr esm_class registered_delivery data_coding =
    record {
      header = record {
        command_length = cast_u32 (base_command_length service_type source_addr destination_addr);
        command_id = id_of CommandId.data_sm;
        command_status = status_of esme_rok;
        sequence_number = sequence_number;
      };
      service_type = service_type;
      source_addr_ton = source_addr_ton;
      source_addr_npi = source_addr_npi;
      source_addr = source_addr;
      dest_addr_ton = dest_addr_ton;
      dest_addr_npi = dest_addr_npi;
      destination_addr = destination_addr;
      esm_class = esm_class;
      registered_delivery = registered_delivery;
      data_coding = data_coding;
      tlvs = [];
    }

-- `data_sm::with_tlvs` and `push_tlv`
unfoldable pub with_tlvs : DataSm → List Tlv → DataSm
with_tlvs p more = record p { tlvs = p.tlvs ++ more }

-- `data_sm::set_sequence_number`
unfoldable pub set_sequence_number : DataSm → ℕ → DataSm
set_sequence_number p n = let h = p.header in record p { header = record h { sequence_number = n } }

-- What `encode` writes behind the header.
unfoldable pub body : DataSm → Bytes
body p =
    (p.service_type
      ++ (0
          ∷ (p.source_addr_ton
              ∷ (p.source_addr_npi
                  ∷ (p.source_addr
                      ++ (0
                          ∷ (p.dest_addr_ton
                              ∷ (p.dest_addr_npi
                                  ∷ (p.destination_addr
                                      ++ (0
                                          ∷ (p.esm_class
                                              ∷ (p.registered_delivery
                                                  ∷ (p.data_coding
                                                      ∷ (encode_tlvs p.tlvs))))))))))))))

-- The header that `encode` writes: the length is computed anew.
unfoldable pub sent_header : DataSm → CommandHeader
sent_header p =
    let h = p.header in
    record h {
      command_length = cast_u32 (
          cast_u32 (base_command_length p.service_type p.source_addr p.destination_addr)
          + cast_u32 (tlvs_encoded_len p.tlvs));
    }

-- `data_sm::encode`
unfoldable pub encode : DataSm → Bytes
unfolding sent_header body
encode p = Header.encode (sent_header p) ++ body p

-- The part of `decode` behind its length check.
unfoldable pub read_body : Nom → CommandHeader → Bytes → Result SmppError DataSm
read_body nom header input = do
  (input, service_type) ← take_c_string nom input
  (input, source_addr_ton) ← take_octet nom input
  (input, source_addr_npi) ← take_octet nom input
  (input, source_addr) ← take_c_string nom input
  (input, dest_addr_ton) ← take_octet nom input
  (input, dest_addr_npi) ← take_octet nom input
  (input, destination_addr) ← take_c_string nom input
  (input, esm_class) ← take_octet nom input
  (input, registered_delivery) ← take_octet nom input
  (input, data_coding) ← take_octet nom input
  tlvs ← decode_tlvs nom input
  ok (record {
    header = header;
    service_type = service_type;
    source_addr_ton = source_addr_ton;
    source_addr_npi = source_addr_npi;
    source_addr = source_addr;
    dest_addr_ton = dest_addr_ton;
    dest_addr_npi = dest_addr_npi;
    destination_addr = destination_addr;
    esm_class = esm_class;
    registered_delivery = registered_delivery;
    data_coding = data_coding;
    tlvs = tlvs;
  })

-- `data_sm::decode`
unfoldable pub decode : Nom → CommandHeader → Bytes → Result SmppError DataSm
unfolding read_body
decode nom header pdu =
    if ltb (length pdu) 16 then err esme_rinvcmdlen else read_body nom header (drop 16 pdu)
