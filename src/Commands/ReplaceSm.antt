-- ===== src/Commands/ReplaceSm.antt =====
-- common/commands/replace_sm.rs, `replace_sm`: its constructor, encoder and decoder.
pub mod Laws
use smpp.Base.{
  ℕ, ◌+◌, ◌≡◌, [], ◌∷◌, ◌++◌, Bytes, List, cast_u8, cast_u32, length, drop, ltb, leb, if◌then◌else◌,
  Result, ok, err, panic, ◌>>=◌,
}
use smpp.Nom.{Nom}
use smpp.Common.Error.{SmppError, status_of, esme_rok, esme_rinvcmdlen}
use smpp.Common.Command.{CommandId, id_of}
use smpp.Common.Header.{CommandHeader}
use smpp.Common.Header
use smpp.Common.CString.{take_c_string, take_octet, take_octets}
use smpp.Common.Tlv.{Tlv, decode_tlvs, encode_tlvs, tlvs_encoded_len}

pub record ReplaceSm : Type 0 where
  pub header : CommandHeader
  pub message_id : Bytes
  pub source_addr_ton : ℕ
  pub source_addr_npi : ℕ
  pub source_addr : Bytes
  pub schedule_delivery_time : Bytes
  pub validity_period : Bytes
  pub registered_delivery : ℕ
  pub sm_default_msg_id : ℕ
  pub sm_length : ℕ
  pub short_message : Bytes

-- The length that `new` computes, before its cast to a `u32`.
abbrev pub total_length : Bytes → Bytes → Bytes → Bytes → Bytes → ℕ
total_length message_id source_addr schedule_delivery_time validity_period short_message =
    16
    + length message_id
    + length source_addr
    + length schedule_delivery_time
    + length validity_period
    + length short_message
    + 9

-- `replace_sm::new`; a failed `assert!` panics.
unfoldable pub new :
    ℕ → Bytes → ℕ → ℕ → Bytes → Bytes → Bytes → ℕ → ℕ → Bytes → Result SmppError ReplaceSm
new sequence_number message_id source_addr_ton source_addr_npi source_addr schedule_delivery_time
      validity_period registered_delivery sm_default_msg_id short_message =
    if leb (length short_message) 254
    then ok (record {
      header = record {
        command_length = cast_u32 (
            total_length message_id source_addr schedule_delivery_time validity_period
              short_message);
        command_id = id_of CommandId.replace_sm;
        command_status = status_of esme_rok;
        sequence_number = sequence_number;
      };
      message_id = message_id;
      source_addr_ton = source_addr_ton;
      source_addr_npi = source_addr_npi;
      source_addr = source_addr;
      schedule_delivery_time = schedule_delivery_time;
      validity_period = validity_period;
      registered_delivery = registered_delivery;
      sm_default_msg_id = sm_default_msg_id;
      sm_length = cast_u8 (length short_message);
      short_message = short_message;
    })
    else panic

-- What `encode` writes behind the header.
unfoldable pub body : ReplaceSm → Bytes
body p =
    (p.message_id
      ++ (0
          ∷ (p.source_addr_ton
              ∷ (p.source_addr_npi
                  ∷ (p.source_addr
                      ++ (0
                          ∷ (p.schedule_delivery_time
                              ++ (0
                                  ∷ (p.validity_period
                                      ++ (0
                                          ∷ (p.registered_delivery
                                              ∷ (p.sm_default_msg_id
                                                  ∷ (p.sm_length ∷ p.short_message)))))))))))))

-- `replace_sm::encode`
unfoldable pub encode : ReplaceSm → Bytes
unfolding body
encode p = Header.encode p.header ++ body p

-- The part of `decode` behind its length check.
unfoldable pub read_body : Nom → CommandHeader → Bytes → Result SmppError ReplaceSm
read_body nom header input = do
  (input, message_id) ← take_c_string nom input
  (input, source_addr_ton) ← take_octet nom input
  (input, source_addr_npi) ← take_octet nom input
  (input, source_addr) ← take_c_string nom input
  (input, schedule_delivery_time) ← take_c_string nom input
  (input, validity_period) ← take_c_string nom input
  (input, registered_delivery) ← take_octet nom input
  (input, sm_default_msg_id) ← take_octet nom input
  (input, sm_length) ← take_octet nom input
  (_, short_message) ← take_octets nom sm_length input
  ok (record {
    header = header;
    message_id = message_id;
    source_addr_ton = source_addr_ton;
    source_addr_npi = source_addr_npi;
    source_addr = source_addr;
    schedule_delivery_time = schedule_delivery_time;
    validity_period = validity_period;
    registered_delivery = registered_delivery;
    sm_default_msg_id = sm_default_msg_id;
    sm_length = sm_length;
    short_message = short_message;
  })

-- `replace_sm::decode`
unfoldable pub decode : Nom → CommandHeader → Bytes → Result SmppError ReplaceSm
unfolding read_body
decode nom header pdu =
    if ltb (length pdu) 16 then err esme_rinvcmdlen else read_body nom header (drop 16 pdu)
