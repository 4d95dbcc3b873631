-- ===== src/Commands/DeliverSm/Laws.antt =====
-- `deliver_sm` on the wire.
use smpp.Base.{
  ℕ, ◌+◌, ◌≤◌, ◌≡◌, sym, ◌∙◌, List, ap, true, [], arith, Bytes, IsU32, All, length, length-append,
  append-nil, ok, err,
}
use smpp.Nom.{Nom, NomLaws}
use smpp.Common.Error.{esme_rinvcmdlen}
use smpp.Common.CString.{is_c_string, take_c_string_some, take_octet_some, take_octets-append}
use smpp.Common.Header.{CommandHeader, IsHeader}
use smpp.Common.Wire.{Arrives, IsSendable, encode-Arrives, after_header, max_pdu_len}
use smpp.Common.Tlv.{Tlv, encode_tlvs, decode_tlvs, tlvs_encoded_len}
use smpp.Common.Tlv.Codec.{IsTlv, length-encode_tlvs, decode_tlvs-encode_tlvs}
use smpp.Commands.DeliverSm.{
  DeliverSm, message_command_length, new, body, encode, read_body, decode, with_tlvs,
  set_sequence_number, sent_header,
}

-- The text fields can be C-Octet-Strings, the length octet counts the message, the optional parameters fit
-- their fields, and the whole PDU is within the bound of the receiver.
pub record IsValid (p : DeliverSm) : Type 0 where
  pub header_valid : IsHeader p.header
  pub service_type_text : is_c_string p.service_type ≡ true
  pub source_addr_text : is_c_string p.source_addr ≡ true
  pub destination_addr_text : is_c_string p.destination_addr ≡ true
  pub schedule_delivery_time_text : is_c_string p.schedule_delivery_time ≡ true
  pub validity_period_text : is_c_string p.validity_period ≡ true
  pub sm_length_counts : p.sm_length ≡ length p.short_message
  pub tlvs_valid : All IsTlv p.tlvs
  pub within :
      message_command_length p.service_type p.source_addr p.destination_addr
          p.schedule_delivery_time p.validity_period p.short_message
        + tlvs_encoded_len p.tlvs
      ≤ max_pdu_len

length-body :
    (p : DeliverSm)
    → 16 + length (body p)
      ≡ message_command_length p.service_type p.source_addr p.destination_addr
          p.schedule_delivery_time p.validity_period p.short_message
        + tlvs_encoded_len p.tlvs
unfolding body
length-body p = simp length-append (omega (arith, length-encode_tlvs p.tlvs))

body-IsSendable : (p : DeliverSm) → IsValid p → IsSendable (sent_header p) (body p)
unfolding sent_header
body-IsSendable p v = ground (arith, length-body p)

module _ {nom : Nom} (laws : NomLaws nom) where
  read_tlvs : (tlvs : List Tlv) → All IsTlv tlvs → decode_tlvs nom (encode_tlvs tlvs) ≡ ok tlvs
  read_tlvs tlvs v =
      ap (decode_tlvs nom) (sym (append-nil (encode_tlvs tlvs)))
      ∙ decode_tlvs-encode_tlvs laws tlvs [] v tt

  read_body_lem :
      (p : DeliverSm) (h : CommandHeader)
      → IsValid p
      → read_body nom h (body p) ≡ ok (record p { header = h })
  unfolding read_body body
  read_body_lem p h v = simp (
    take_c_string_some laws p.service_type v.service_type_text,
    take_c_string_some laws p.source_addr v.source_addr_text,
    take_c_string_some laws p.destination_addr v.destination_addr_text,
    take_c_string_some laws p.schedule_delivery_time v.schedule_delivery_time_text,
    take_c_string_some laws p.validity_period v.validity_period_text,
    take_octet_some laws,
    v.sm_length_counts,
    take_octets-append laws,
    read_tlvs p.tlvs v.tlvs_valid,
  )

  -- A valid deliver_sm arrives with the header that its encoder writes, and is decoded to the PDU that
  -- was sent, the command_length of its header computed anew.
  pub deliver_sm-Arrives :
      (p : DeliverSm)
      → IsValid p
      → Arrives (encode p) (sent_header p)
        × (decode nom (sent_header p) (encode p) ≡ ok (record p { header = sent_header p }))
  unfolding encode decode
  deliver_sm-Arrives p v = (
    encode-Arrives (sent_header p) (body p) (body-IsSendable p v),
    after_header (sent_header p) (body p) (err esme_rinvcmdlen) (read_body nom (sent_header p))
        ∙ read_body_lem p (sent_header p) v,
  )

-- What `new` builds from such fields is valid, with any optional parameters attached and any
-- sequence number set afterwards.
pub new-IsValid :
    (sequence_number : ℕ) (service_type : Bytes) (source_addr_ton source_addr_npi : ℕ)
    (source_addr : Bytes) (dest_addr_ton dest_addr_npi : ℕ) (destination_addr : Bytes)
    (esm_class protocol_id priority_flag : ℕ) (schedule_delivery_time validity_period : Bytes)
    (registered_delivery replace_if_present_flag data_coding sm_default_msg_id : ℕ)
    (short_message : Bytes) (p : DeliverSm) (more : List Tlv) (n : ℕ)
    → IsU32 sequence_number
    → IsU32 n
    → All IsTlv more
    → is_c_string service_type ≡ true
    → is_c_string source_addr ≡ true
    → is_c_string destination_addr ≡ true
    → is_c_string schedule_delivery_time ≡ true
    → is_c_string validity_period ≡ true
    → message_command_length service_type source_addr destination_addr schedule_delivery_time
          validity_period short_message
        + tlvs_encoded_len more
      ≤ max_pdu_len
    → new sequence_number service_type source_addr_ton source_addr_npi source_addr dest_addr_ton
        dest_addr_npi destination_addr esm_class protocol_id priority_flag schedule_delivery_time
        validity_period registered_delivery replace_if_present_flag data_coding sm_default_msg_id
        short_message
      ≡ ok p
    → IsValid (set_sequence_number (with_tlvs p more) n)
unfolding new with_tlvs set_sequence_number
new-IsValid sequence_number service_type source_addr_ton source_addr_npi source_addr dest_addr_ton
      dest_addr_npi destination_addr esm_class protocol_id priority_flag schedule_delivery_time
      validity_period registered_delivery replace_if_present_flag data_coding sm_default_msg_id
      short_message p more n hs0 hs1 hs2 hs3 hs4 hs5 hs6 hs7 hs8 hs9 =
    ground arith
