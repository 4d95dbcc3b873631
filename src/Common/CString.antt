-- ===== src/Common/CString.antt =====
-- common/mod.rs: C-Octet-Strings, read by nom and by hand.
use smpp.Base.{
  ℕ, suc, ◌≡◌, Bool, true, ◌&&◌, Option, none, some, [], ◌∷◌, ◌++◌, arith, Bytes, length, take, leb,
  ◌==◌, if◌then◌else◌, Result, ok, err, panic, map_err, ◌>>=◌,
}
use smpp.Utf8.{from_utf8_lossy, from_utf8_lossy-is_utf8, from_utf8, is_utf8}
use smpp.Nom.{Nom, NomLaws, IResult, nul_free, take_bytes-one, take_bytes-append}
use smpp.Common.Error.{SmppError, esme_rinvparlen}

-- `parse_c_octet_string_nom`
unfoldable pub parse_c_octet_string_nom : Nom → Bytes → IResult Bytes
parse_c_octet_string_nom nom input = do
  (input, result) ← nom.take_until_nul input
  (input, _) ← nom.take_bytes 1 input
  ok (input, from_utf8_lossy result)

-- `bytes[0]`
abbrev pub first_byte {ℓ} : {E : Type ℓ} → Bytes → Result E ℕ
first_byte [] = panic
first_byte (b ∷ _) = ok b

-- `.map_err(|_| SmppError::ESME_RINVPARLEN)`
abbrev pub or_rinvparlen {ℓ} : {A : Type ℓ} → Result (Unit {0}) A → Result SmppError A
or_rinvparlen = map_err (λ _. esme_rinvparlen)

-- `parse_c_octet_string_nom(input).map_err(..)?` as the decoders use it.
unfoldable pub take_c_string : Nom → Bytes → Result SmppError (Bytes × Bytes)
take_c_string nom input = or_rinvparlen (parse_c_octet_string_nom nom input)

-- `take(1usize)(input).map_err(..)?`, and the `[0]` by which the decoders read the byte.
unfoldable pub take_octet : Nom → Bytes → Result SmppError (Bytes × ℕ)
take_octet nom input = do
  (input, bytes) ← or_rinvparlen (nom.take_bytes 1 input)
  b ← first_byte bytes
  ok (input, b)

-- `take(n as usize)(input).map_err(..)?`
unfoldable pub take_octets : Nom → ℕ → Bytes → Result SmppError (Bytes × Bytes)
take_octets nom n input = or_rinvparlen (nom.take_bytes n input)

-- What a C-Octet-String can carry: the text of a `String` with no NUL inside.
abbrev pub is_c_string : Bytes → Bool
is_c_string s = nul_free s && is_utf8 s

-- `bytes.iter().position(|&r| r == 0x00)`
abbrev pub nul_position : Bytes → Option ℕ
nul_position [] = none
nul_position (b ∷ bs) =
    if b == 0 then some 0 else elim (nul_position bs) [ some i ↦ some (suc i) | none ↦ none ]

-- `parse_c_octet_string`
unfoldable pub parse_c_octet_string : Bytes → ℕ → Result SmppError Bytes
parse_c_octet_string bytes maximum_length = elim (nul_position bytes) [
  | some index ↦
      if leb index maximum_length
      then or_rinvparlen (from_utf8 (take index bytes))
      else err esme_rinvparlen
  | none ↦ err esme_rinvparlen
]

module _ {nom : Nom} (laws : NomLaws nom) where
  pub parse_c_octet_string_nom_some :
      (s : Bytes)
      → is_c_string s ≡ true
      → (rest : Bytes) → parse_c_octet_string_nom nom (s ++ (0 ∷ rest)) ≡ ok (rest, s)
  unfolding parse_c_octet_string_nom
  parse_c_octet_string_nom_some s h rest =
      ground
        (arith, laws.take_until_found s rest, take_bytes-one laws 0 rest, from_utf8_lossy-is_utf8 s)

  -- Each field is read back from in front of what follows it.
  pub take_c_string_some :
      (s : Bytes)
      → is_c_string s ≡ true
      → (rest : Bytes) → take_c_string nom (s ++ (0 ∷ rest)) ≡ ok (rest, s)
  unfolding take_c_string
  take_c_string_some s h rest = rw (parse_c_octet_string_nom_some s h rest)

  pub take_octet_some : (b : ℕ) (rest : Bytes) → take_octet nom (b ∷ rest) ≡ ok (rest, b)
  unfolding take_octet
  take_octet_some b rest = rw (take_bytes-one laws b rest)

  -- A field with no terminator left in the input is refused.
  pub take_c_string_absent :
      (i : Bytes) → nul_free i ≡ true → take_c_string nom i ≡ err esme_rinvparlen
  unfolding take_c_string parse_c_octet_string_nom
  take_c_string_absent i h = rw (laws.take_until_absent i h)

  pub take_octets-append : (s rest : Bytes) → take_octets nom (length s) (s ++ rest) ≡ ok (rest, s)
  unfolding take_octets
  take_octets-append s rest = rw (take_bytes-append laws s rest)
