-- ===== src/Commands/HeaderOnly.antt =====
-- The PDUs that are a bare header: enquire_link, unbind and their responses, generic_nack, and the
-- responses cancel_sm_resp and replace_sm_resp. Their Rust types hold one field, the header.
use smpp.Base.{
  ℕ, ◌≡◌, ◌≢◌, refl, Bool, [], arith, Bytes, IsU32, length, ◌==◌, if◌then◌else◌, Result, ok, err,
}
use smpp.Common.Error.{
  SmppError, FromPrimitive, FromPrimitiveLaws, from_command_status, from_command_status-status_of,
  status_of, esme_rok, esme_rinvcmdid, esme_roptparnotallwd, status_of-lt,
}
use smpp.Common.Command.{CommandId, id_of, id_of-IsU32}
use smpp.Common.Header.{CommandHeader}
use smpp.Common.Header
use smpp.Common.Wire.{Arrives, IsSendable, encode-Arrives}

pub record HeaderOnly : Type 0 where
  pub header : CommandHeader

-- A header of sixteen bytes.
abbrev pub bare : CommandId → SmppError → ℕ → HeaderOnly
bare id error sequence_number = record {
  header = record {
    command_length = 16;
    command_id = id_of id;
    command_status = status_of error;
    sequence_number = sequence_number;
  };
}

-- The `decode` of enquire_link, unbind, unbind_resp and generic_nack.
unfoldable pub decode : CommandId → CommandHeader → Bytes → Result SmppError HeaderOnly
decode id header pdu =
    if header.command_id == id_of id
    then (if length pdu == 16 then ok (record { header = header }) else err esme_roptparnotallwd)
    else err esme_rinvcmdid

-- The `encode` of all of them.
unfoldable pub encode : HeaderOnly → Bytes
encode p = Header.encode p.header

-- `cancel_sm_resp::decode` and `replace_sm_resp::decode`, which look at nothing.
unfoldable pub decode_any : CommandHeader → Bytes → Result SmppError HeaderOnly
decode_any header pdu = ok (record { header = header })

-- `is_success` of the responses.
unfoldable pub is_success : HeaderOnly → Bool
is_success p = p.header.command_status == status_of esme_rok

-- `get_error` of the responses and of generic_nack.
unfoldable pub get_error : FromPrimitive → HeaderOnly → SmppError
get_error derived p = from_command_status derived p.header.command_status

abbrev pub enquire_link_new : ℕ → HeaderOnly
enquire_link_new = bare CommandId.enquire_link esme_rok

abbrev pub enquire_link_accept : HeaderOnly → HeaderOnly
enquire_link_accept p = bare CommandId.enquire_link_resp esme_rok p.header.sequence_number

abbrev pub enquire_link_reject : HeaderOnly → SmppError → HeaderOnly
enquire_link_reject p e = bare CommandId.enquire_link_resp e p.header.sequence_number

abbrev pub unbind_with_sequence_number : ℕ → HeaderOnly
unbind_with_sequence_number = bare CommandId.unbind esme_rok

abbrev pub unbind_accept : HeaderOnly → HeaderOnly
unbind_accept p = bare CommandId.unbind_resp esme_rok p.header.sequence_number

abbrev pub unbind_reject : HeaderOnly → SmppError → HeaderOnly
unbind_reject p e = bare CommandId.unbind_resp e p.header.sequence_number

abbrev pub unbind_generic_reject : ℕ → SmppError → HeaderOnly
unbind_generic_reject n e = bare CommandId.unbind_resp e n

abbrev pub generic_nack_new : SmppError → ℕ → HeaderOnly
generic_nack_new e n = bare CommandId.generic_nack e n

abbrev pub replace_sm_generic_reject : ℕ → SmppError → HeaderOnly
replace_sm_generic_reject n e = bare CommandId.replace_sm_resp e n

abbrev pub cancel_sm_generic_reject : ℕ → SmppError → HeaderOnly
cancel_sm_generic_reject n e = bare CommandId.cancel_sm_resp e n

-- `accept` and `reject` of cancel_sm and replace_sm, by the header of the request.
abbrev pub cancel_sm_accept : CommandHeader → HeaderOnly
cancel_sm_accept h = bare CommandId.cancel_sm_resp esme_rok h.sequence_number

abbrev pub cancel_sm_reject : CommandHeader → SmppError → HeaderOnly
cancel_sm_reject h e = bare CommandId.cancel_sm_resp e h.sequence_number

abbrev pub replace_sm_accept : CommandHeader → HeaderOnly
replace_sm_accept h = bare CommandId.replace_sm_resp esme_rok h.sequence_number

abbrev pub replace_sm_reject : CommandHeader → SmppError → HeaderOnly
replace_sm_reject h e = bare CommandId.replace_sm_resp e h.sequence_number

bare-IsSendable :
    (id : CommandId) (e : SmppError) (n : ℕ) → IsU32 n → IsSendable (bare id e n).header []
bare-IsSendable id e n h = ground (arith, status_of-lt e, id_of-IsU32 id)

length-encode : (p : HeaderOnly) → length (encode p) ≡ 16
unfolding encode Header.encode
length-encode p = refl

pub bare_sent :
    (id : CommandId) (e : SmppError) (n : ℕ)
    → IsU32 n
    → Arrives (encode (bare id e n)) (bare id e n).header
unfolding encode Header.encode
bare_sent id e n h = encode-Arrives (bare id e n).header [] (bare-IsSendable id e n h)

pub bare_decoded :
    (id : CommandId) (e : SmppError) (n : ℕ)
    → decode id (bare id e n).header (encode (bare id e n)) ≡ ok (bare id e n)
unfolding decode
bare_decoded id e n = ground (arith, length-encode (bare id e n))

-- A bare header arrives, is decoded by the decoder of its own command, and gives its error back.
pub bare-Arrives :
    {derived : FromPrimitive} (laws : FromPrimitiveLaws derived) (id : CommandId) (e : SmppError)
    (n : ℕ)
    → IsU32 n
    → let p = bare id e n in
      Arrives (encode p) p.header
      × (decode id p.header (encode p) ≡ ok p)
      × (get_error derived p ≡ e)
unfolding get_error
bare-Arrives laws id e n h =
    (bare_sent id e n h, bare_decoded id e n, from_command_status-status_of laws e)

-- A decoder of these refuses a header of another command, and any body.
pub decode_refuses :
    (id : CommandId) (h : CommandHeader) (pdu : Bytes)
    → ((h.command_id ≢ id_of id) → decode id h pdu ≡ err esme_rinvcmdid)
      × ((h.command_id ≡ id_of id) → (length pdu ≢ 16) → decode id h pdu ≡ err esme_roptparnotallwd)
unfolding decode
decode_refuses id h pdu = (λ n. ground arith, λ e n. ground arith)
