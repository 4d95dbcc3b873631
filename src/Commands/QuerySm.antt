-- ===== src/Commands/QuerySm.antt =====
-- common/commands/query_sm.rs, `query_sm`: its constructor, encoder and decoder.
pub mod Laws
pub mod Response
use smpp.Base.{
  ℕ, ◌+◌, ◌≡◌, [], ◌∷◌, ◌++◌, Bytes, List, cast_u8, cast_u32, length, drop, ltb, leb, if◌then◌else◌,
  Result, ok, err, panic, ◌>>=◌,
}
use smpp.Nom.{Nom}
use smpp.Common.Error.{SmppError, status_of, esme_rok, esme_rinvcmdlen}
use smpp.Common.Command.{CommandId, id_of}
use smpp.Common.Header.{CommandHeader}
use smpp.Common.Header
use smpp.Common.CString.{take_c_string, take_octet, take_octets}
use smpp.Common.Tlv.{Tlv, decode_tlvs, encode_tlvs, tlvs_encoded_len}

pub record QuerySm : Type 0 where
  pub header : CommandHeader
  pub message_id : Bytes
  pub source_addr_ton : ℕ
  pub source_addr_npi : ℕ
  pub source_addr : Bytes

-- The length that `new` computes, before its cast to a `u32`.
abbrev pub total_length : Bytes → Bytes → ℕ
total_length message_id source_addr = 16 + length message_id + length source_addr + 4

-- `query_sm::new`
unfoldable pub new : ℕ → Bytes → ℕ → ℕ → Bytes → QuerySm
new sequence_number message_id source_addr_ton source_addr_npi source_addr = record {
  header = record {
    command_length = cast_u32 (total_length message_id source_addr);
    command_id = id_of CommandId.query_sm;
    command_status = status_of esme_rok;
    sequence_number = sequence_number;
  };
  message_id = message_id;
  source_addr_ton = source_addr_ton;
  source_addr_npi = source_addr_npi;
  source_addr = source_addr;
}

-- What `encode` writes behind the header.
unfoldable pub body : QuerySm → Bytes
body p =
    (p.message_id ++ (0 ∷ (p.source_addr_ton ∷ (p.source_addr_npi ∷ (p.source_addr ++ (0 ∷ []))))))

-- `query_sm::encode`
unfoldable pub encode : QuerySm → Bytes
unfolding body
encode p = Header.encode p.header ++ body p

-- The part of `decode` behind its length check.
unfoldable pub read_body : Nom → CommandHeader → Bytes → Result SmppError QuerySm
read_body nom header input = do
  (input, message_id) ← take_c_string nom input
  (input, source_addr_ton) ← take_octet nom input
  (input, source_addr_npi) ← take_octet nom input
  (_, source_addr) ← take_c_string nom input
  ok (record {
    header = header;
    message_id = message_id;
    source_addr_ton = source_addr_ton;
    source_addr_npi = source_addr_npi;
    source_addr = source_addr;
  })

-- `query_sm::decode`
unfoldable pub decode : Nom → CommandHeader → Bytes → Result SmppError QuerySm
unfolding read_body
decode nom header pdu =
    if ltb (length pdu) 16 then err esme_rinvcmdlen else read_body nom header (drop 16 pdu)
