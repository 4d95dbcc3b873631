-- ===== src/Commands/Outbind.antt =====
-- common/commands/outbind.rs, `outbind`: the one PDU that is parsed by hand, with bounds.
use smpp.Base.{
  ℕ, suc, ◌+◌, ◌≤◌, ◌≡◌, refl, true, some, [], ◌∷◌, ◌++◌, arith, Bytes, IsU32, cast_u32, length,
  length-append, drop, take-length_append, ltb, ◌==◌, if◌then◌else◌, Result, ok, err, panic, ◌>>=◌,
}
use native.Mathlib.Numerals.{add-one}
use smpp.Utf8.{from_utf8}
use smpp.Nom.{nul_free}
use smpp.Common.Error.{SmppError, status_of, esme_rok, esme_rinvparlen, esme_rinvcmdid}
use smpp.Common.Command.{CommandId, id_of}
use smpp.Common.Header.{CommandHeader}
use smpp.Common.Header
use smpp.Common.CString.{is_c_string, nul_position, parse_c_octet_string}
use smpp.Common.Wire.{Arrives, encode-Arrives, drop-encode, length-header}

pub record Outbind : Type 0 where
  pub header : CommandHeader
  pub system_id : Bytes
  pub password : Bytes

-- `outbind::new`
unfoldable pub new : ℕ → Bytes → Bytes → Outbind
new seq_no system_id password = record {
  header = record {
    command_length = cast_u32 (16 + length system_id + length password + 2);
    command_id = id_of CommandId.outbind;
    command_status = status_of esme_rok;
    sequence_number = seq_no;
  };
  system_id = system_id;
  password = password;
}

-- `outbind::decode`. A `system_id` was found with its NUL, so the second slice lies in the PDU.
unfoldable pub decode : CommandHeader → Bytes → Result SmppError Outbind
decode header pdu =
    if header.command_id == id_of CommandId.outbind
    then (if ltb (length pdu) 18 then err esme_rinvparlen else do
      system_id ← parse_c_octet_string (drop 16 pdu) 16
      password ← parse_c_octet_string (drop (length system_id + 1) (drop 16 pdu)) 9
      ok (record { header = header; system_id = system_id; password = password }))
    else err esme_rinvcmdid

-- What `encode` writes behind the header.
abbrev pub body : Outbind → Bytes
body p = p.system_id ++ (0 ∷ (p.password ++ (0 ∷ [])))

-- `outbind::encode`; a field that is too long panics.
unfoldable pub encode : Outbind → Result SmppError Bytes
encode p =
    if ltb 16 (length p.system_id)
    then panic
    else if ltb 9 (length p.password)
    then panic
    else ok (Header.encode p.header ++ body p)

nul_position-append :
    (s rest : Bytes) → nul_free s ≡ true → nul_position (s ++ (0 ∷ rest)) ≡ some (length s)
nul_position-append [] rest h = refl
nul_position-append (b ∷ bs) rest h = ground (arith, nul_position-append bs rest)

parse_c_octet_string-append :
    (s rest : Bytes) (bound : ℕ)
    → is_c_string s ≡ true
    → length s ≤ bound
    → parse_c_octet_string (s ++ (0 ∷ rest)) bound ≡ ok s
unfolding parse_c_octet_string from_utf8
parse_c_octet_string-append s rest bound h l =
    ground (arith, nul_position-append s rest, take-length_append s (0 ∷ rest))

drop-field_suc : (s rest : Bytes) → drop (suc (length s)) (s ++ (0 ∷ rest)) ≡ rest
drop-field_suc [] rest = refl
drop-field_suc (b ∷ bs) rest = drop-field_suc bs rest

drop-field : (s rest : Bytes) → drop (length s + 1) (s ++ (0 ∷ rest)) ≡ rest
drop-field s rest = rw add-one (drop-field_suc s rest)

-- An outbind within its bounds is encoded, arrives with its header, and is decoded to what was sent.
pub outbind-Arrives :
    (seq_no : ℕ) (system_id password : Bytes)
    → IsU32 seq_no
    → length system_id ≤ 16
    → length password ≤ 9
    → is_c_string system_id ≡ true
    → is_c_string password ≡ true
    → let p = new seq_no system_id password in
      (pdu : Bytes) × (encode p ≡ ok pdu) × Arrives pdu p.header × (decode p.header pdu ≡ ok p)
unfolding new encode decode
outbind-Arrives n sid pw h ls lp ts tp =
    let p = new n sid pw in
    (
      Header.encode p.header ++ body p,
      ground arith,
      encode-Arrives p.header (body p)
          (ground (arith, length-append sid (0 ∷ (pw ++ (0 ∷ []))), length-append pw (0 ∷ []))),
      ground (
        arith,
        length-header p.header (body p),
        drop-encode p.header (body p),
        length-append sid (0 ∷ (pw ++ (0 ∷ []))),
        length-append pw (0 ∷ []),
        parse_c_octet_string-append sid (pw ++ (0 ∷ [])) 16,
        drop-field sid (pw ++ (0 ∷ [])),
        parse_c_octet_string-append pw [] 9,
      ),
    )
