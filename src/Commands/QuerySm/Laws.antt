-- ===== src/Commands/QuerySm/Laws.antt =====
-- `query_sm` on the wire.
use smpp.Base.{ℕ, ◌+◌, ◌≤◌, ◌≡◌, ◌∙◌, true, arith, Bytes, IsU32, length, length-append, ok, err}
use smpp.Nom.{Nom, NomLaws}
use smpp.Common.Error.{esme_rinvcmdlen}
use smpp.Common.CString.{is_c_string, take_c_string_some, take_octet_some}
use smpp.Common.Header.{CommandHeader, IsHeader}
use smpp.Common.Wire.{Arrives, IsSendable, encode-Arrives, after_header, max_pdu_len}
use smpp.Commands.QuerySm.{QuerySm, total_length, new, body, encode, read_body, decode}

-- The text fields can be C-Octet-Strings, and the whole PDU is within the bound of the receiver.
pub record IsValid (p : QuerySm) : Type 0 where
  pub header_valid : IsHeader p.header
  pub message_id_text : is_c_string p.message_id ≡ true
  pub source_addr_text : is_c_string p.source_addr ≡ true
  pub within : total_length p.message_id p.source_addr ≤ max_pdu_len
  pub states_length : p.header.command_length ≡ total_length p.message_id p.source_addr

length-body : (p : QuerySm) → 16 + length (body p) ≡ total_length p.message_id p.source_addr
unfolding body
length-body p = simp length-append (omega (arith))

body-IsSendable : (p : QuerySm) → IsValid p → IsSendable p.header (body p)
body-IsSendable p v = ground (arith, length-body p)

module _ {nom : Nom} (laws : NomLaws nom) where
  read_body_lem :
      (p : QuerySm) (h : CommandHeader)
      → IsValid p
      → read_body nom h (body p) ≡ ok (record p { header = h })
  unfolding read_body body
  read_body_lem p h v = simp (
    take_c_string_some laws p.message_id v.message_id_text,
    take_c_string_some laws p.source_addr v.source_addr_text,
    take_octet_some laws,
  )

  -- A valid query_sm arrives with the header that its encoder writes, and is decoded to the PDU that
  -- was sent.
  pub query_sm-Arrives :
      (p : QuerySm)
      → IsValid p
      → Arrives (encode p) p.header × (decode nom p.header (encode p) ≡ ok p)
  unfolding encode decode
  query_sm-Arrives p v = (
    encode-Arrives p.header (body p) (body-IsSendable p v),
    after_header p.header (body p) (err esme_rinvcmdlen) (read_body nom p.header)
        ∙ read_body_lem p p.header v,
  )

-- What `new` builds from such fields is valid.
pub new-IsValid :
    (sequence_number : ℕ) (message_id : Bytes) (source_addr_ton source_addr_npi : ℕ)
    (source_addr : Bytes)
    → IsU32 sequence_number
    → is_c_string message_id ≡ true
    → is_c_string source_addr ≡ true
    → total_length message_id source_addr ≤ max_pdu_len
    → IsValid (new sequence_number message_id source_addr_ton source_addr_npi source_addr)
unfolding new
new-IsValid sequence_number message_id source_addr_ton source_addr_npi source_addr hs0 hs1 hs2 hs3 =
    ground arith
