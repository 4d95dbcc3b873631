-- ===== src/Commands/SubmitSm.antt =====
-- common/commands/submit_sm.rs, `submit_sm`: its constructor, encoder and decoder.
pub mod Laws
pub mod Response
use smpp.Base.{
  ℕ, ◌+◌, ◌≡◌, [], ◌∷◌, ◌++◌, Bytes, List, cast_u8, cast_u32, length, drop, ltb, leb, if◌then◌else◌,
  Result, ok, err, panic, ◌>>=◌,
}
use smpp.Nom.{Nom}
use smpp.Common.Error.{SmppError, status_of, esme_rok, esme_rinvcmdlen}
use smpp.Common.Command.{CommandId, id_of}
use smpp.Common.Header.{CommandHeader}
use smpp.Common.Header
use smpp.Common.CString.{take_c_string, take_octet, take_octets}
use smpp.Common.Tlv.{Tlv, decode_tlvs, encode_tlvs, tlvs_encoded_len}

pub record SubmitSm : Type 0 where
  pub header : CommandHeader
  pub service_type : Bytes
  pub source_addr_ton : ℕ
  pub source_addr_npi : ℕ
  pub source_addr : Bytes
  pub dest_addr_ton : ℕ
  pub dest_addr_npi : ℕ
  pub destination_addr : Bytes
  pub esm_class : ℕ
  pub protocol_id : ℕ
  pub priority_flag : ℕ
  pub schedule_delivery_time : Bytes
  pub validity_period : Bytes
  pub registered_delivery : ℕ
  pub replace_if_present_flag : ℕ
  pub data_coding : ℕ
  pub sm_default_msg_id : ℕ
  pub sm_length : ℕ
  pub short_message : Bytes
  pub tlvs : List Tlv

-- `message_command_length`, before its cast to a `u32`.
abbrev pub message_command_length : Bytes → Bytes → Bytes → Bytes → Bytes → Bytes → ℕ
message_command_length service_type source_addr destination_addr schedule_delivery_time
      validity_period short_message =
    16
    + length service_type
    + length source_addr
    + length destination_addr
    + length schedule_delivery_time
    + length validity_period
    + length short_message
    + 17

-- `submit_sm::new`; a failed `assert!` panics.
unfoldable pub new :
    ℕ
    → Bytes
    → ℕ
    → ℕ
    → Bytes
    → ℕ
    → ℕ
    → Bytes
    → ℕ
    → ℕ
    → ℕ
    → Bytes
    → Bytes
    → ℕ
    → ℕ
    → ℕ
    → ℕ
    → Bytes
    → Result SmppError SubmitSm
new sequence_number service_type source_addr_ton source_addr_npi source_addr dest_addr_ton
      dest_addr_npi destination_addr esm_class protocol_id priority_flag schedule_delivery_time
      validity_period registered_delivery replace_if_present_flag data_coding sm_default_msg_id
      short_message =
    if leb (length short_message) 254
    then ok (record {
      header = record {
        command_length = cast_u32 (
            message_command_length service_type source_addr destination_addr schedule_delivery_time
              validity_period short_message);
        command_id = id_of CommandId.submit_sm;
        command_status = status_of esme_rok;
        sequence_number = sequence_number;
      };
      service_type = service_type;
      source_addr_ton = source_addr_ton;
      source_addr_npi = source_addr_npi;
      source_addr = source_addr;
      dest_addr_ton = dest_addr_ton;
      dest_addr_npi = dest_addr_npi;
      destination_addr = destination_addr;
      esm_class = esm_class;
      protocol_id = protocol_id;
      priority_flag = priority_flag;
      schedule_delivery_time = schedule_delivery_time;
      validity_period = validity_period;
      registered_delivery = registered_delivery;
      replace_if_present_flag = replace_if_present_flag;
      data_coding = data_coding;
      sm_default_msg_id = sm_default_msg_id;
      sm_length = cast_u8 (length short_message);
      short_message = short_message;
      tlvs = [];
    })
    else panic

-- `submit_sm::with_tlvs` and `push_tlv`
unfoldable pub with_tlvs : SubmitSm → List Tlv → SubmitSm
with_tlvs p more = record p { tlvs = p.tlvs ++ more }

-- `submit_sm::set_sequence_number`
unfoldable pub set_sequence_number : SubmitSm → ℕ → SubmitSm
set_sequence_number p n = let h = p.header in record p { header = record h { sequence_number = n } }

-- What `encode` writes behind the header.
unfoldable pub body : SubmitSm → Bytes
body p =
    (p.service_type
      ++ (0
          ∷ (p.source_addr_ton
              ∷ (p.source_addr_npi
                  ∷ (p.source_addr
                      ++ (0
                          ∷ (p.dest_addr_ton
                              ∷ (p.dest_addr_npi
                                  ∷ (p.destination_addr
                                      ++ (0
                                          ∷ (p.esm_class
                                              ∷ (p.protocol_id
                                                  ∷ (p.priority_flag
                                                      ∷ (p.schedule_delivery_time
                                                          ++ (0
                                                            ∷ (p.validity_period
                                                            ++ (0
                                                            ∷ (p.registered_delivery
                                                            ∷ (p.replace_if_present_flag
                                                            ∷ (p.data_coding
                                                            ∷ (p.sm_default_msg_id
                                                            ∷ (p.sm_length
                                                            ∷ (p.short_message
                                                            ++ encode_tlvs
                                                            p.tlvs)))))))))))))))))))))))

-- The header that `encode` writes: the length is computed anew.
unfoldable pub sent_header : SubmitSm → CommandHeader
sent_header p =
    let h = p.header in
    record h {
      command_length = cast_u32 (
          cast_u32 (
            message_command_length p.service_type p.source_addr p.destination_addr
              p.schedule_delivery_time p.validity_period p.short_message)
          + cast_u32 (tlvs_encoded_len p.tlvs));
    }

-- `submit_sm::encode`
unfoldable pub encode : SubmitSm → Bytes
unfolding sent_header body
encode p = Header.encode (sent_header p) ++ body p

-- The part of `decode` behind its length check.
unfoldable pub read_body : Nom → CommandHeader → Bytes → Result SmppError SubmitSm
read_body nom header input = do
  (input, service_type) ← take_c_string nom input
  (input, source_addr_ton) ← take_octet nom input
  (input, source_addr_npi) ← take_octet nom input
  (input, source_addr) ← take_c_string nom input
  (input, dest_addr_ton) ← take_octet nom input
  (input, dest_addr_npi) ← take_octet nom input
  (input, destination_addr) ← take_c_string nom input
  (input, esm_class) ← take_octet nom input
  (input, protocol_id) ← take_octet nom input
  (input, priority_flag) ← take_octet nom input
  (input, schedule_delivery_time) ← take_c_string nom input
  (input, validity_period) ← take_c_string nom input
  (input, registered_delivery) ← take_octet nom input
  (input, replace_if_present_flag) ← take_octet nom input
  (input, data_coding) ← take_octet nom input
  (input, sm_default_msg_id) ← take_octet nom input
  (input, sm_length) ← take_octet nom input
  (input, short_message) ← take_octets nom sm_length input
  tlvs ← decode_tlvs nom input
  ok (record {
    header = header;
    service_type = service_type;
    source_addr_ton = source_addr_ton;
    source_addr_npi = source_addr_npi;
    source_addr = source_addr;
    dest_addr_ton = dest_addr_ton;
    dest_addr_npi = dest_addr_npi;
    destination_addr = destination_addr;
    esm_class = esm_class;
    protocol_id = protocol_id;
    priority_flag = priority_flag;
    schedule_delivery_time = schedule_delivery_time;
    validity_period = validity_period;
    registered_delivery = registered_delivery;
    replace_if_present_flag = replace_if_present_flag;
    data_coding = data_coding;
    sm_default_msg_id = sm_default_msg_id;
    sm_length = sm_length;
    short_message = short_message;
    tlvs = tlvs;
  })

-- `submit_sm::decode`
unfoldable pub decode : Nom → CommandHeader → Bytes → Result SmppError SubmitSm
unfolding read_body
decode nom header pdu =
    if ltb (length pdu) 16 then err esme_rinvcmdlen else read_body nom header (drop 16 pdu)
