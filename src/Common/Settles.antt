-- ===== src/Common/Settles.antt =====
-- The parsing steps of common/mod.rs and common/tlv.rs on bytes of any kind: which results are no panic.
use smpp.Base.{
  map_err, ℕ, zero, suc, ◌<◌, ◌≤◌, ◌≡◌, ◌⊎◌, inl, inr, refl, ap, Bool, true, false, [], ◌∷◌, ◌++◌,
  arith, Bytes, List, length, take, drop, ltb, ◌==◌, Result, ok, err, ◌>>=◌, if◌then◌else◌,
  Bool-cases, length-drop,
}
use mathlib.Core.Path.{subst, sym}
use smpp.Nom.{Nom, NomLaws, nul_free}
use smpp.Common.CString.{
  parse_c_octet_string_nom, or_rinvparlen, take_c_string, take_octet, take_octets,
}
use smpp.Common.Tlv.{Tlv, parse_single_tlv, u16_from, decode_loop, decode_tlvs}
use smpp.Common.Words.{u16_of}
use smpp.Common.Tlv

-- A value or an error, and no panic.
pub data Settles {ℓ κ} {E : Type ℓ} {A : Type κ} : Result E A → Type (ℓ ⊔ κ) where
  gives : (a : A) → Settles (ok a)
  refuses : (e : E) → Settles (err e)

module _ {ℓ κ ι} {E : Type ℓ} {A : Type κ} {B : Type ι} where
  pub bind-Settles :
      (r : Result E A) (f : A → Result E B)
      → Settles r
      → ((a : A) → Settles (f a))
      → Settles (r >>= f)
  bind-Settles r f (gives a) h = h a
  bind-Settles r f (refuses e) h = refuses e

pub or_rinvparlen-Settles {ℓ} :
    {A : Type ℓ} (r : Result (Unit {0}) A) → Settles r → Settles (or_rinvparlen r)
or_rinvparlen-Settles r (gives a) = gives a
or_rinvparlen-Settles r (refuses e) = refuses _

pub map_err-Settles {ℓ κ ι} :
    {E : Type ℓ} {F : Type κ} {A : Type ι} (f : E → F) (r : Result E A)
    → Settles r
    → Settles (map_err f r)
map_err-Settles f r (gives a) = gives a
map_err-Settles f r (refuses e) = refuses (f e)

pub if-Settles {ℓ κ} :
    {E : Type ℓ} {A : Type κ} (b : Bool) (x y : Result E A)
    → Settles x
    → Settles y
    → Settles (if b then x else y)
if-Settles true x y s t = s
if-Settles false x y s t = t

pub guarded-Settles {ℓ κ} :
    {E : Type ℓ} {A : Type κ} (b : Bool) (x y : Result E A)
    → b ≡ false
    → Settles y
    → Settles (if b then x else y)
guarded-Settles true x y e t = absurd (ground arith)
guarded-Settles false x y e t = t

-- Bytes without a NUL, or with a first one.
NulSplit : Bytes → Type 0
NulSplit i =
    (nul_free i ≡ true)
    ⊎ ((s : Bytes) × ((rest : Bytes) × ((nul_free s ≡ true) × (i ≡ s ++ (0 ∷ rest)))))

nul_split : (i : Bytes) → NulSplit i
unfolding NulSplit
nul_split [] = inl refl
nul_split (b ∷ bs) = elim (Bool-cases (b == 0)) [
  | inl e ↦ let z : b ≡ 0 = ground arith in inr ([], (bs, (refl, ap (λ k. k ∷ bs) z)))
  | inr e ↦ elim (nul_split bs) [
    | inl h ↦ inl (simp (e, h))
    | inr (s, (rest, (h, q))) ↦ inr (b ∷ s, (rest, (simp (e, h), ap (◌∷◌ b) q)))
  ]
]

module _ {nom : Nom} (laws : NomLaws nom) where
  pub take_bytes-Settles : (n : ℕ) (i : Bytes) → Settles (nom.take_bytes n i)
  take_bytes-Settles n i = elim (Bool-cases (ltb (length i) n)) [
    | inl h ↦ rw (laws.take_short n i (ground arith)) (refuses tt)
    | inr h ↦ rw (laws.take_enough n i (ground arith)) (gives _)
  ]

  pub take_until_nul-Settles : (i : Bytes) → Settles (nom.take_until_nul i)
  unfolding NulSplit
  take_until_nul-Settles i = elim (nul_split i) [
    | inl h ↦ rw (laws.take_until_absent i h) (refuses tt)
    | inr (s, (rest, (h, q))) ↦ rw (q, laws.take_until_found s rest h) (gives _)
  ]

  pub be_u8-Settles : (i : Bytes) → Settles (nom.be_u8 i)
  be_u8-Settles [] = rw (laws.be_u8_empty) (refuses tt)
  be_u8-Settles (b ∷ bs) = rw (laws.be_u8_some b bs) (gives _)

  pub be_u32-Settles : (i : Bytes) → Settles (nom.be_u32 i)
  be_u32-Settles (a ∷ b ∷ c ∷ d ∷ bs) = rw (laws.be_u32_some a b c d bs) (gives _)
  be_u32-Settles [] = rw (laws.be_u32_short [] (omega arith)) (refuses tt)
  be_u32-Settles (a ∷ []) = rw (laws.be_u32_short (a ∷ []) (omega arith)) (refuses tt)
  be_u32-Settles (a ∷ b ∷ []) = rw (laws.be_u32_short (a ∷ b ∷ []) (omega arith)) (refuses tt)
  be_u32-Settles (a ∷ b ∷ c ∷ []) =
      rw (laws.be_u32_short (a ∷ b ∷ c ∷ []) (omega arith)) (refuses tt)

  pub parse_c_octet_string_nom-Settles : (i : Bytes) → Settles (parse_c_octet_string_nom nom i)
  unfolding parse_c_octet_string_nom
  parse_c_octet_string_nom-Settles i =
      bind-Settles _ _ (take_until_nul-Settles i)
        (λ p. bind-Settles _ _ (take_bytes-Settles 1 p.0) (λ q. gives _))

  pub take_c_string-Settles : (i : Bytes) → Settles (take_c_string nom i)
  unfolding take_c_string
  take_c_string-Settles i = or_rinvparlen-Settles _ (parse_c_octet_string_nom-Settles i)

  pub take_octets-Settles : (n : ℕ) (i : Bytes) → Settles (take_octets nom n i)
  unfolding take_octets
  take_octets-Settles n i = or_rinvparlen-Settles _ (take_bytes-Settles n i)

  pub take_octet-Settles : (i : Bytes) → Settles (take_octet nom i)
  unfolding take_octet
  take_octet-Settles [] = rw (laws.take_short 1 [] (omega arith)) (refuses _)
  take_octet-Settles (b ∷ bs) = rw (laws.take_enough 1 (b ∷ bs) (omega arith)) (gives _)

  -- One optional parameter of four bytes or more: refused, or read off the front.
  parse_single_tlv-cases :
      (a b c d : ℕ) (bs : Bytes)
      → let i = a ∷ b ∷ c ∷ d ∷ bs in
        (parse_single_tlv nom i ≡ err tt)
        ⊎ ((rest : Bytes) × ((tlv : Tlv) × ((parse_single_tlv nom i ≡ ok (rest, tlv))
                × (length rest ≤ length bs))))
  unfolding parse_single_tlv
  parse_single_tlv-cases a b c d bs =
      let i = a ∷ b ∷ c ∷ d ∷ bs in
      let n = u16_of c d in
      let e = laws.take_enough 2 i (omega arith) in
      let f = laws.take_enough 2 (c ∷ d ∷ bs) (omega arith) in
      elim (Bool-cases (ltb (length bs) n)) [
        | inl h ↦ inl (rw (e, f, laws.take_short n bs (ground arith)) refl)
        | inr h ↦ inr (
          drop n bs,
          (
            Tlv.new (u16_of a b) (take n bs),
            (rw (e, f, laws.take_enough n bs (ground arith)) refl, omega (arith, length-drop n bs)),
          ),
        )
      ]

  decode_loop_stop :
      (fuel : ℕ) (i : Bytes) (tlvs : List Tlv)
      → 4 ≤ length i
      → parse_single_tlv nom i ≡ err tt
      → decode_loop nom (suc fuel) i tlvs ≡ ok tlvs
  unfolding decode_loop
  decode_loop_stop fuel i tlvs h e = ground arith

  decode_loop_next :
      (fuel : ℕ) (i rest : Bytes) (tlv : Tlv) (tlvs : List Tlv)
      → 4 ≤ length i
      → parse_single_tlv nom i ≡ ok (rest, tlv)
      → decode_loop nom (suc fuel) i tlvs ≡ decode_loop nom fuel rest (tlvs ++ (tlv ∷ []))
  unfolding decode_loop
  decode_loop_next fuel i rest tlv tlvs h e = ground arith

  decode_loop-Settles :
      (fuel : ℕ) (i : Bytes) (tlvs : List Tlv)
      → length i < fuel
      → Settles (decode_loop nom fuel i tlvs)
  unfolding decode_loop
  decode_loop-Settles zero i tlvs h = absurd (omega arith)
  decode_loop-Settles (suc fuel) [] tlvs h = gives tlvs
  decode_loop-Settles (suc fuel) (a ∷ []) tlvs h = gives tlvs
  decode_loop-Settles (suc fuel) (a ∷ b ∷ []) tlvs h = gives tlvs
  decode_loop-Settles (suc fuel) (a ∷ b ∷ c ∷ []) tlvs h = gives tlvs
  decode_loop-Settles (suc fuel) (a ∷ b ∷ c ∷ d ∷ bs) tlvs h =
      let i = a ∷ b ∷ c ∷ d ∷ bs in
      elim (parse_single_tlv-cases a b c d bs) [
        | inl e ↦ subst Settles (sym (decode_loop_stop fuel i tlvs (omega arith) e)) (gives tlvs)
        | inr (rest, (tlv, (e, l))) ↦
            subst Settles (sym (decode_loop_next fuel i rest tlv tlvs (omega arith) e))
              (decode_loop-Settles fuel rest (tlvs ++ (tlv ∷ [])) (omega arith))
      ]

  pub decode_tlvs-Settles : (i : Bytes) → Settles (decode_tlvs nom i)
  unfolding decode_tlvs
  decode_tlvs-Settles i = decode_loop-Settles (suc (length i)) i [] (omega arith)
