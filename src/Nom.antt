-- ===== src/Nom.antt =====
-- The parsers that the code takes from the crate nom (`bytes::complete` and `number::complete`), as
-- an interface: the operations, and their documented behaviour as laws.
use smpp.Base.{
  ℕ, ◌+◌, ◌*◌, ◌≤◌, ◌<◌, ◌≡◌, Bool, true, ◌&&◌, not, [], ◌∷◌, ◌++◌, ap, arith, Bytes, length, take,
  drop, ◌==◌, Result, ok, err, length-append, take-length_append, drop-length_append, ◌∙◌,
}

-- nom's `IResult<&[u8], A>`: the rest of the input, then the value. No caller looks at the error.
abbrev pub IResult {ℓ} : Type ℓ → Type ℓ
IResult A = Result (Unit {0}) (Bytes × A)

pub record Nom : Type 0 where
  -- `take(n)`
  pub take_bytes : ℕ → Bytes → IResult Bytes
  -- `take_until("\0")`
  pub take_until_nul : Bytes → IResult Bytes
  pub be_u8 : Bytes → IResult ℕ
  pub be_u32 : Bytes → IResult ℕ

abbrev pub nul_free : Bytes → Bool
nul_free [] = true
nul_free (b ∷ bs) = not (b == 0) && nul_free bs

-- What nom documents: `take` gives the first `n` bytes or fails, `take_until` stops in front of the
-- first match or fails, and the numbers are big-endian and fail on a short input.
pub record NomLaws (nom : Nom) : Type 0 where
  pub take_enough :
      (n : ℕ) (i : Bytes) → n ≤ length i → nom.take_bytes n i ≡ ok (drop n i, take n i)
  pub take_short : (n : ℕ) (i : Bytes) → length i < n → nom.take_bytes n i ≡ err tt
  pub take_until_found :
      (s rest : Bytes) → nul_free s ≡ true → nom.take_until_nul (s ++ (0 ∷ rest)) ≡ ok (0 ∷ rest, s)
  pub take_until_absent : (i : Bytes) → nul_free i ≡ true → nom.take_until_nul i ≡ err tt
  pub be_u8_some : (b : ℕ) (rest : Bytes) → nom.be_u8 (b ∷ rest) ≡ ok (rest, b)
  pub be_u8_empty : nom.be_u8 [] ≡ err tt
  pub be_u32_some :
      (a b c d : ℕ) (rest : Bytes)
      → nom.be_u32 (a ∷ b ∷ c ∷ d ∷ rest) ≡ ok (rest, ((a * 256 + b) * 256 + c) * 256 + d)
  pub be_u32_short : (i : Bytes) → length i < 4 → nom.be_u32 i ≡ err tt

pair : {i i' s s' : Bytes} → i ≡ i' → s ≡ s' → ◌≡◌ {A = Bytes × Bytes} (i, s) (i', s')
pair p q = λ k. (p k, q k)

module _ {nom : Nom} (laws : NomLaws nom) where
  pub take_bytes-append : (s rest : Bytes) → nom.take_bytes (length s) (s ++ rest) ≡ ok (rest, s)
  take_bytes-append s rest =
      laws.take_enough (length s) (s ++ rest) (omega (arith, length-append s rest))
      ∙ ap ok (pair (drop-length_append s rest) (take-length_append s rest))

  pub take_bytes-one : (b : ℕ) (rest : Bytes) → nom.take_bytes 1 (b ∷ rest) ≡ ok (rest, b ∷ [])
  take_bytes-one b rest = laws.take_enough 1 (b ∷ rest) (omega arith)
