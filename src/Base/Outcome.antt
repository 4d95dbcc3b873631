-- ===== src/Base/Outcome.antt =====
-- Rust's `Result`, with a third outcome for a panic.
pub data Result {ℓ κ} (E : Type ℓ) (A : Type κ) : Type (ℓ ⊔ κ) where
  ok : A → Result E A
  err : E → Result E A
  panic : Result E A

module _ {ℓ κ ι} {E : Type ℓ} {A : Type κ} {B : Type ι} where
  infixl 5 ◌>>=◌
  -- The operator `?`, and a `match` that only passes an error on; a panic is passed on too.
  abbrev pub ◌>>=◌ : Result E A → (A → Result E B) → Result E B
  panic >>= next = panic
  err e >>= next = err e
  ok value >>= next = next value

  -- `Result::map_err`
  abbrev pub map_err : (E → B) → Result E A → Result B A
  map_err convert panic = panic
  map_err convert (err e) = err (convert e)
  map_err convert (ok value) = ok value
