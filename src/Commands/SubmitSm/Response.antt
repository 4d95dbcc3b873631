-- ===== src/Commands/SubmitSm/Response.antt =====
-- common/commands/submit_sm.rs, `submit_sm_resp`: how a submit_sm is answered.
use smpp.Base.{
  ℕ, ◌+◌, ◌≡◌, ◌≢◌, Bool, true, false, Option, none, some, [], ◌∷◌, ◌++◌, arith, Bytes, IsU32,
  cast_u32, length, length-append, drop, ltb, ◌==◌, if◌then◌else◌, Result, ok, panic, ◌>>=◌,
}
use smpp.Nom.{Nom, NomLaws}
use smpp.Common.Error.{SmppError, status_of, esme_rok, status_of-lt, status_of-eq_zero}
use smpp.Common.Command.{CommandId, id_of}
use smpp.Common.Header.{CommandHeader}
use smpp.Common.Header
use smpp.Common.CString.{is_c_string, take_c_string, take_c_string_some}
use smpp.Common.Wire.{Arrives, IsSendable, encode-Arrives, after_header}
use smpp.Commands.SubmitSm.{SubmitSm}

pub record SubmitSmResp : Type 0 where
  pub header : CommandHeader
  pub message_id : Option Bytes

-- `submit_sm::accept`; an id of more than 65 bytes panics.
unfoldable pub accept : SubmitSm → Bytes → Result SmppError SubmitSmResp
accept p message_id =
    if ltb 65 (length message_id)
    then panic
    else ok (record {
      header = record {
        command_length = cast_u32 (16 + length message_id + 1);
        command_id = id_of CommandId.submit_sm_resp;
        command_status = status_of esme_rok;
        sequence_number = p.header.sequence_number;
      };
      message_id = some message_id;
    })

-- `submit_sm::generic_reject`
unfoldable pub generic_reject : ℕ → SmppError → SubmitSmResp
generic_reject sequence_number error = record {
  header = record {
    command_length = 16;
    command_id = id_of CommandId.submit_sm_resp;
    command_status = status_of error;
    sequence_number = sequence_number;
  };
  message_id = none;
}

-- `submit_sm::reject`
unfoldable pub reject : SubmitSm → SmppError → SubmitSmResp
reject p error = record {
  header = record {
    command_length = 16;
    command_id = id_of CommandId.submit_sm_resp;
    command_status = status_of error;
    sequence_number = p.header.sequence_number;
  };
  message_id = none;
}

-- What `encode` writes behind the header.
abbrev pub body : Option Bytes → Bytes
body none = []
body (some message_id) = message_id ++ (0 ∷ [])

-- `submit_sm_resp::encode`
unfoldable pub encode : SubmitSmResp → Bytes
encode r = Header.encode r.header ++ body r.message_id

unfoldable pub read_body : Nom → CommandHeader → Bytes → Result SmppError SubmitSmResp
read_body nom header input = do
  (_, message_id) ← take_c_string nom input
  ok (record { header = header; message_id = some message_id })

-- `submit_sm_resp::decode`; the slice `&pdu[16..]` panics on a shorter `pdu`.
unfoldable pub decode : Nom → CommandHeader → Bytes → Result SmppError SubmitSmResp
unfolding read_body
decode nom header pdu =
    if header.command_status == status_of esme_rok
    then (if ltb (length pdu) 16 then panic else read_body nom header (drop 16 pdu))
    else ok (record { header = header; message_id = none })

-- `submit_sm_resp::is_success`
unfoldable pub is_success : SubmitSmResp → Bool
is_success r = r.header.command_status == status_of esme_rok

accept-IsSendable :
    (p : SubmitSm) (message_id : Bytes) (r : SubmitSmResp)
    → IsU32 p.header.sequence_number
    → accept p message_id ≡ ok r
    → IsSendable r.header (body r.message_id)
unfolding accept
accept-IsSendable p message_id r h e = ground (arith, length-append message_id (0 ∷ []))

reject-IsSendable : (n : ℕ) (e : SmppError) → IsU32 n → IsSendable (generic_reject n e).header []
unfolding generic_reject
reject-IsSendable n e h = ground (arith, status_of-lt e)

module _ {nom : Nom} (laws : NomLaws nom) where
  -- An accepted submit_sm is answered under its own sequence number by a response that arrives
  -- with its header, is a success, and is decoded to the message_id that was given.
  pub submit_sm_accept-Arrives :
      (p : SubmitSm) (message_id : Bytes) (r : SubmitSmResp)
      → IsU32 p.header.sequence_number
      → is_c_string message_id ≡ true
      → accept p message_id ≡ ok r
      → (r.header.sequence_number ≡ p.header.sequence_number)
        × (r.message_id ≡ some message_id)
        × (is_success r ≡ true)
        × Arrives (encode r) r.header
        × (decode nom r.header (encode r) ≡ ok r)
  unfolding accept encode decode is_success
  submit_sm_accept-Arrives p message_id r h t e = (
    ground arith,
    ground arith,
    ground arith,
    encode-Arrives r.header (body r.message_id) (accept-IsSendable p message_id r h e),
    ground (
      arith,
      after_header r.header (body r.message_id) panic (read_body nom r.header),
      take_c_string_some laws message_id t [],
    ),
  )

-- A rejection with any error but ESME_ROK arrives as a bare header, and is decoded to the status
-- and the sequence number that it was built with, without a message_id.
pub submit_sm_reject-Arrives :
    (nom : Nom) (n : ℕ) (e : SmppError)
    → IsU32 n
    → e ≢ esme_rok
    → let r = generic_reject n e in
      Arrives (encode r) r.header × (decode nom r.header (encode r) ≡ ok r) × (is_success r ≡ false)
unfolding generic_reject encode decode is_success
submit_sm_reject-Arrives nom n e h ne = (
  encode-Arrives _ _ (reject-IsSendable n e h),
  ground (arith, status_of-eq_zero e),
  ground (arith, status_of-eq_zero e),
)
