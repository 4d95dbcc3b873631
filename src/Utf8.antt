-- ===== src/Utf8.antt =====
-- The standard library's `String::from_utf8_lossy` and `String::from_utf8`. A Rust `String` is
-- modelled by the bytes of its UTF-8 encoding, so both work on bytes.
use smpp.Base.{
  ℕ, zero, suc, ◌≡◌, refl, sym, ◌∙◌, Bool, true, false, ◌&&◌, Option, none, some, [], ◌∷◌, ◌++◌, ap,
  append_assoc, append-nil, arith, Bytes, ltb, leb, if◌then◌else◌, Result, ok, err,
}

-- Inside a character: the bytes read of it, the bounds of the next byte, and how many bytes with
-- the plain continuation bounds follow that one.
pub data Decoder : Type 0 where
  start : Decoder
  inside : Bytes → ℕ → ℕ → ℕ → Decoder

-- U+FFFD
abbrev replacement : Bytes
replacement = 0xef ∷ 0xbf ∷ 0xbd ∷ []

-- The first byte of a character; `none` if no character begins with it.
first : ℕ → Option (Decoder × Bytes)
first b =
    if ltb b 0x80
    then some (start, b ∷ [])
    else if ltb b 0xc2
    then none
    else if ltb b 0xe0
    then some (inside (b ∷ []) 0x80 0xbf 0, [])
    else if leb b 0xe0
    then some (inside (b ∷ []) 0xa0 0xbf 1, [])
    else if ltb b 0xed
    then some (inside (b ∷ []) 0x80 0xbf 1, [])
    else if leb b 0xed
    then some (inside (b ∷ []) 0x80 0x9f 1, [])
    else if ltb b 0xf0
    then some (inside (b ∷ []) 0x80 0xbf 1, [])
    else if leb b 0xf0
    then some (inside (b ∷ []) 0x90 0xbf 2, [])
    else if ltb b 0xf4
    then some (inside (b ∷ []) 0x80 0xbf 2, [])
    else if leb b 0xf4
    then some (inside (b ∷ []) 0x80 0x8f 2, [])
    else none

-- A further byte of a character, in its bounds.
further : Bytes → ℕ → Decoder × Bytes
further seen zero = (start, seen)
further seen (suc more) = (inside seen 0x80 0xbf more, [])

-- `none` if the byte cannot stand here.
accept : Decoder → ℕ → Option (Decoder × Bytes)
accept start b = first b
accept (inside seen lo hi more) b =
    if leb lo b && leb b hi then some (further (seen ++ (b ∷ [])) more) else none

or_replace : Option (Decoder × Bytes) → Decoder × Bytes
or_replace none = (start, replacement)
or_replace (some p) = p

-- A maximal broken piece becomes one U+FFFD, and the byte that broke it is read anew.
refuse : Decoder → ℕ → Decoder × Bytes
refuse start b = (start, replacement)
refuse (inside _ _ _ _) b = let (d, out) = or_replace (first b) in (d, replacement ++ out)

step : Decoder → ℕ → Decoder × Bytes
step d b = elim (accept d b) [ none ↦ refuse d b | some p ↦ p ]

lossy_from : Decoder → Bytes → Bytes
lossy_from start [] = []
lossy_from (inside _ _ _ _) [] = replacement
lossy_from d (b ∷ bs) = (step d b).1 ++ lossy_from (step d b).0 bs

unfoldable pub from_utf8_lossy : Bytes → Bytes
unfolding lossy_from step accept first further refuse or_replace
from_utf8_lossy = lossy_from start

valid_from : Decoder → Bytes → Bool
valid_from start [] = true
valid_from (inside _ _ _ _) [] = false
valid_from d (b ∷ bs) = elim (accept d b) [ none ↦ false | some p ↦ valid_from p.0 bs ]

-- The invariant of the type `String`.
unfoldable pub is_utf8 : Bytes → Bool
unfolding valid_from accept first further
is_utf8 = valid_from start

unfoldable pub from_utf8 : Bytes → Result (Unit {0}) Bytes
from_utf8 bytes = if is_utf8 bytes then ok bytes else err tt

abbrev seen_of : Decoder → Bytes
seen_of start = []
seen_of (inside seen _ _ _) = seen

accept_keeps :
    (d : Decoder) (b : ℕ) (p : Decoder × Bytes)
    → accept d b ≡ some p
    → p.1 ++ seen_of p.0 ≡ seen_of d ++ (b ∷ [])
unfolding accept first further
accept_keeps start b p h = ground arith
accept_keeps (inside seen lo hi zero) b p h = ground (arith, append-nil (seen ++ (b ∷ [])))
accept_keeps (inside seen lo hi (suc more)) b p h = ground arith

step-accept : (d : Decoder) (b : ℕ) (p : Decoder × Bytes) → accept d b ≡ some p → step d b ≡ p
unfolding step
step-accept d b p e = rw (e, step)

after_step :
    (d : Decoder) (b : ℕ) (bs : Bytes)
    → ((c : Decoder) → valid_from c bs ≡ true → lossy_from c bs ≡ seen_of c ++ bs)
    → (r : Option (Decoder × Bytes)) → accept d b ≡ r
    → elim r [ none ↦ false | some p ↦ valid_from p.0 bs ] ≡ true
    → (step d b).1 ++ lossy_from (step d b).0 bs ≡ seen_of d ++ (b ∷ bs)
after_step d b bs ih none e v = cc
after_step d b bs ih (some p) e v = rw (step-accept d b p e) (
    ap (◌++◌ p.1) (ih p.0 v)
    ∙ sym (append_assoc p.1 (seen_of p.0) bs)
    ∙ ap (λ t. t ++ bs) (accept_keeps d b p e)
    ∙ append_assoc (seen_of d) (b ∷ []) bs)

lossy_from-valid :
    (d : Decoder) (bs : Bytes) → valid_from d bs ≡ true → lossy_from d bs ≡ seen_of d ++ bs
unfolding lossy_from valid_from
lossy_from-valid start [] h = refl
lossy_from-valid (inside _ _ _ _) [] h = cc
lossy_from-valid start (b ∷ bs) h =
    after_step start b bs (λ c. lossy_from-valid c bs) (accept start b) refl h
lossy_from-valid (inside seen lo hi more) (b ∷ bs) h =
    after_step (inside seen lo hi more) b bs (λ c. lossy_from-valid c bs)
      (accept (inside seen lo hi more) b) refl h

-- The lossy reading of a valid text is the text itself.
pub from_utf8_lossy-is_utf8 : (bs : Bytes) → is_utf8 bs ≡ true → from_utf8_lossy bs ≡ bs
unfolding from_utf8_lossy is_utf8
from_utf8_lossy-is_utf8 = lossy_from-valid start

lossy_run :
    from_utf8_lossy (b'a' ∷ 0xc3 ∷ 0xa9 ∷ 0xe2 ∷ 0x82 ∷ b'b' ∷ [])
    ≡ b'a' ∷ 0xc3 ∷ 0xa9 ∷ 0xef ∷ 0xbf ∷ 0xbd ∷ b'b' ∷ []
unfolding from_utf8_lossy
lossy_run = refl
