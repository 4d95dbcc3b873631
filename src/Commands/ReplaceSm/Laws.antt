-- ===== src/Commands/ReplaceSm/Laws.antt =====
-- `replace_sm` on the wire.
use smpp.Base.{
  ℕ, ◌+◌, ◌≤◌, ◌≡◌, sym, ◌∙◌, ap, true, [], arith, Bytes, IsU32, length, length-append, append-nil,
  ok, err,
}
use smpp.Nom.{Nom, NomLaws}
use smpp.Common.Error.{esme_rinvcmdlen}
use smpp.Common.CString.{
  is_c_string, take_c_string_some, take_octet_some, take_octets-append, take_octets,
}
use smpp.Common.Header.{CommandHeader, IsHeader}
use smpp.Common.Wire.{Arrives, IsSendable, encode-Arrives, after_header, max_pdu_len}
use smpp.Commands.ReplaceSm.{ReplaceSm, total_length, new, body, encode, read_body, decode}

-- The text fields can be C-Octet-Strings, the length octet counts the message, and the whole PDU is within the bound of the receiver.
pub record IsValid (p : ReplaceSm) : Type 0 where
  pub header_valid : IsHeader p.header
  pub message_id_text : is_c_string p.message_id ≡ true
  pub source_addr_text : is_c_string p.source_addr ≡ true
  pub schedule_delivery_time_text : is_c_string p.schedule_delivery_time ≡ true
  pub validity_period_text : is_c_string p.validity_period ≡ true
  pub sm_length_counts : p.sm_length ≡ length p.short_message
  pub within :
      total_length p.message_id p.source_addr p.schedule_delivery_time p.validity_period
        p.short_message
      ≤ max_pdu_len
  pub states_length :
      p.header.command_length
      ≡ total_length p.message_id p.source_addr p.schedule_delivery_time p.validity_period
          p.short_message

length-body :
    (p : ReplaceSm)
    → 16 + length (body p)
      ≡ total_length p.message_id p.source_addr p.schedule_delivery_time p.validity_period
          p.short_message
unfolding body
length-body p = simp length-append (omega (arith))

body-IsSendable : (p : ReplaceSm) → IsValid p → IsSendable p.header (body p)
body-IsSendable p v = ground (arith, length-body p)

module _ {nom : Nom} (laws : NomLaws nom) where
  take_octets_all : (s : Bytes) → take_octets nom (length s) s ≡ ok ([], s)
  take_octets_all s =
      ap (take_octets nom (length s)) (sym (append-nil s)) ∙ take_octets-append laws s []

  read_body_lem :
      (p : ReplaceSm) (h : CommandHeader)
      → IsValid p
      → read_body nom h (body p) ≡ ok (record p { header = h })
  unfolding read_body body
  read_body_lem p h v = simp (
    take_c_string_some laws p.message_id v.message_id_text,
    take_c_string_some laws p.source_addr v.source_addr_text,
    take_c_string_some laws p.schedule_delivery_time v.schedule_delivery_time_text,
    take_c_string_some laws p.validity_period v.validity_period_text,
    take_octet_some laws,
    v.sm_length_counts,
    take_octets_all,
  )

  -- A valid replace_sm arrives with the header that its encoder writes, and is decoded to the PDU that
  -- was sent.
  pub replace_sm-Arrives :
      (p : ReplaceSm)
      → IsValid p
      → Arrives (encode p) p.header × (decode nom p.header (encode p) ≡ ok p)
  unfolding encode decode
  replace_sm-Arrives p v = (
    encode-Arrives p.header (body p) (body-IsSendable p v),
    after_header p.header (body p) (err esme_rinvcmdlen) (read_body nom p.header)
        ∙ read_body_lem p p.header v,
  )

-- What `new` builds from such fields is valid.
pub new-IsValid :
    (sequence_number : ℕ) (message_id : Bytes) (source_addr_ton source_addr_npi : ℕ)
    (source_addr schedule_delivery_time validity_period : Bytes)
    (registered_delivery sm_default_msg_id : ℕ) (short_message : Bytes) (p : ReplaceSm)
    → IsU32 sequence_number
    → is_c_string message_id ≡ true
    → is_c_string source_addr ≡ true
    → is_c_string schedule_delivery_time ≡ true
    → is_c_string validity_period ≡ true
    → total_length message_id source_addr schedule_delivery_time validity_period short_message
      ≤ max_pdu_len
    → new sequence_number message_id source_addr_ton source_addr_npi source_addr
        schedule_delivery_time validity_period registered_delivery sm_default_msg_id short_message
      ≡ ok p
    → IsValid p
unfolding new
new-IsValid sequence_number message_id source_addr_ton source_addr_npi source_addr
      schedule_delivery_time validity_period registered_delivery sm_default_msg_id short_message p
      hs0 hs1 hs2 hs3 hs4 hs5 hs6 =
    ground arith
