-- ===== src/Common/Tlv/Codec.antt =====
-- `encode_tlvs` and `decode_tlvs` are inverse to one another, and the decoder ends on every input.
use smpp.Base.{
  ℕ, zero, suc, ◌/◌, ◌%◌, ◌≤◌, ◌<◌, ◌≡◌, refl, sym, ap, ◌∙◌, List, [], ◌∷◌, ◌++◌, append_assoc,
  append-nil, arith, Bytes, IsU8, IsU16, All, length, length-append, length-take, length-drop, take,
  drop, take-append-drop, take-length_append, drop-length_append, leb, if◌then◌else◌, ok, err,
}
use native.Mathlib.Decide.{dec_le}
use smpp.Nom.{Nom, NomLaws}
use smpp.Common.Words.{u16_bytes, u16_of, u16_of-u16_bytes}
use smpp.Common.Tlv.{
  Tlv, new, encode, parse_single_tlv, decode_loop, decode_tlvs, encode_tlvs, encoded_len,
  tlvs_encoded_len,
}

-- A tag is a `u16`, and the value is short enough for the `u16` length field.
pub record IsTlv (tlv : Tlv) : Type 0 where
  pub tag_u16 : IsU16 tlv.tag
  pub length_u16 : IsU16 (length tlv.value)

-- The decoder stops here: fewer than four bytes, or a value that is not all there.
abbrev pub Unreadable : Bytes → Type 0
Unreadable (a ∷ b ∷ c ∷ d ∷ more) = length more < u16_of c d
Unreadable _ = Unit {0}

pub length-encode : (tlv : Tlv) → length (encode tlv) ≡ encoded_len tlv
unfolding encode
length-encode tlv = omega arith

-- `tlvs_encoded_len` is the number of bytes that `encode_tlvs` writes.
pub length-encode_tlvs : (tlvs : List Tlv) → length (encode_tlvs tlvs) ≡ tlvs_encoded_len tlvs
unfolding encode_tlvs tlvs_encoded_len
length-encode_tlvs [] = refl
length-encode_tlvs (t ∷ ts) =
    omega (arith, length-append (encode t) (encode_tlvs ts), length-encode t, length-encode_tlvs ts)

module _ {nom : Nom} (laws : NomLaws nom) where
  -- One optional parameter, by the length field.
  parse_single_tlv_lem :
      (a b c d : ℕ) (more : Bytes)
      → parse_single_tlv nom (a ∷ b ∷ c ∷ d ∷ more) ≡ (
          if leb (u16_of c d) (length more)
          then ok (drop (u16_of c d) more, new (u16_of a b) (take (u16_of c d) more))
          else err tt)
  unfolding parse_single_tlv
  parse_single_tlv_lem a b c d more = ground (
    arith,
    laws.take_enough 2 (a ∷ b ∷ c ∷ d ∷ more),
    laws.take_enough 2 (c ∷ d ∷ more),
    laws.take_enough (u16_of c d) more,
    laws.take_short (u16_of c d) more,
  )

  parse_single_tlv-encode :
      (tlv : Tlv) (rest : Bytes)
      → IsTlv tlv
      → parse_single_tlv nom (encode tlv ++ rest) ≡ ok (rest, tlv)
  unfolding encode
  parse_single_tlv-encode tlv rest v = ground (
    arith,
    parse_single_tlv_lem (tlv.tag / 256 % 256) (tlv.tag % 256)
        (length tlv.value % 65536 / 256 % 256) (length tlv.value % 65536 % 256) (tlv.value ++ rest),
    u16_of-u16_bytes tlv.tag,
    u16_of-u16_bytes (length tlv.value % 65536),
    length-append tlv.value rest,
    take-length_append tlv.value rest,
    drop-length_append tlv.value rest,
  )

  decode_loop_step :
      (fuel : ℕ) (input rest : Bytes) (tlv : Tlv) (acc : List Tlv)
      → 4 ≤ length input
      → parse_single_tlv nom input ≡ ok (rest, tlv)
      → decode_loop nom (suc fuel) input acc ≡ decode_loop nom fuel rest (acc ++ (tlv ∷ []))
  unfolding decode_loop
  decode_loop_step fuel input rest tlv acc h e = ground arith

  decode_loop-Unreadable :
      (fuel : ℕ) (rest : Bytes) (acc : List Tlv)
      → Unreadable rest
      → decode_loop nom (suc fuel) rest acc ≡ ok acc
  unfolding decode_loop
  decode_loop-Unreadable fuel (a ∷ b ∷ c ∷ d ∷ more) acc h =
      ground (arith, parse_single_tlv_lem a b c d more)
  decode_loop-Unreadable fuel [] acc h = refl
  decode_loop-Unreadable fuel (a ∷ []) acc h = refl
  decode_loop-Unreadable fuel (a ∷ b ∷ []) acc h = refl
  decode_loop-Unreadable fuel (a ∷ b ∷ c ∷ []) acc h = refl

  decode_loop-encode_tlvs :
      (tlvs : List Tlv) (fuel : ℕ) (rest : Bytes) (acc : List Tlv)
      → All IsTlv tlvs
      → Unreadable rest
      → length (encode_tlvs tlvs ++ rest) < fuel
      → decode_loop nom fuel (encode_tlvs tlvs ++ rest) acc ≡ ok (acc ++ tlvs)
  unfolding encode_tlvs
  decode_loop-encode_tlvs tlvs zero rest acc v u h = absurd (omega arith)
  decode_loop-encode_tlvs [] (suc fuel) rest acc v u h =
      decode_loop-Unreadable fuel rest acc u ∙ ap ok (sym (append-nil acc))
  decode_loop-encode_tlvs (t ∷ ts) (suc fuel) rest acc v u h =
      let size = length-append (encode t) (encode_tlvs ts ++ rest) in
      let shape = append_assoc (encode t) (encode_tlvs ts) rest in
      rw shape (
        decode_loop_step fuel (encode t ++ (encode_tlvs ts ++ rest)) (encode_tlvs ts ++ rest) t acc
          (omega (arith, size, length-encode t))
          (parse_single_tlv-encode t (encode_tlvs ts ++ rest) v.0)
        ∙ decode_loop-encode_tlvs ts fuel rest (acc ++ (t ∷ [])) v.1 u
            (omega (arith, size, length-encode t, ap length shape))
        ∙ ap ok (append_assoc acc (t ∷ []) ts))

  -- Whatever optional parameters were encoded are decoded again, in order, also when bytes follow
  -- that are no whole parameter.
  pub decode_tlvs-encode_tlvs :
      (tlvs : List Tlv) (rest : Bytes)
      → All IsTlv tlvs
      → Unreadable rest
      → decode_tlvs nom (encode_tlvs tlvs ++ rest) ≡ ok tlvs
  unfolding decode_tlvs
  decode_tlvs-encode_tlvs tlvs rest v u = decode_loop-encode_tlvs tlvs _ rest [] v u (omega arith)

-- What the decoder makes of an input: the parameters, and the bytes that it leaves.
pub record Decoded (input : Bytes) : Type 0 where
  pub tlvs : List Tlv
  pub rest : Bytes
  pub splits : input ≡ encode_tlvs tlvs ++ rest
  pub valid : All IsTlv tlvs
  pub stops : Unreadable rest

Decoded-nil : (input : Bytes) → Unreadable input → Decoded input
unfolding encode_tlvs
Decoded-nil input u = record { tlvs = []; rest = input; splits = refl; valid = tt; stops = u }

All-take : (n : ℕ) (bs : Bytes) → All IsU8 bs → All IsU8 (take n bs)
All-take zero bs h = tt
All-take (suc n) [] h = tt
All-take (suc n) (b ∷ bs) h = (h.0, All-take n bs h.1)

All-drop : (n : ℕ) (bs : Bytes) → All IsU8 bs → All IsU8 (drop n bs)
All-drop zero bs h = h
All-drop (suc n) [] h = tt
All-drop (suc n) (b ∷ bs) h = All-drop n bs h.1

bytes_of_u16 : (a b : ℕ) → IsU8 a → IsU8 b → u16_bytes (u16_of a b) ≡ a ∷ b ∷ []
bytes_of_u16 a b ha hb = ground arith

abbrev head_tlv : ℕ → ℕ → ℕ → ℕ → Bytes → Tlv
head_tlv a b c d more = new (u16_of a b) (take (u16_of c d) more)

Decoded-cons :
    (a b c d : ℕ) (more : Bytes)
    → All IsU8 (a ∷ b ∷ c ∷ d ∷ more)
    → u16_of c d ≤ length more
    → Decoded (drop (u16_of c d) more)
    → Decoded (a ∷ b ∷ c ∷ d ∷ more)
unfolding encode_tlvs encode
Decoded-cons a b c d more h fits rec = record {
  tlvs = head_tlv a b c d more ∷ rec.tlvs;
  rest = rec.rest;
  splits = ground (
    arith,
    length-take (u16_of c d) more,
    take-append-drop (u16_of c d) more,
    rec.splits,
    append_assoc (take (u16_of c d) more) (encode_tlvs rec.tlvs) rec.rest,
  );
  valid = (
    record {
      tag_u16 = omega (arith, h);
      length_u16 = omega (arith, h, length-take (u16_of c d) more);
    },
    rec.valid,
  );
  stops = rec.stops;
}

Decoded-of : (fuel : ℕ) (input : Bytes) → All IsU8 input → length input < fuel → Decoded input
Decoded-of zero input h f = absurd (omega arith)
Decoded-of (suc fuel) [] h f = Decoded-nil [] tt
Decoded-of (suc fuel) (a ∷ []) h f = Decoded-nil _ tt
Decoded-of (suc fuel) (a ∷ b ∷ []) h f = Decoded-nil _ tt
Decoded-of (suc fuel) (a ∷ b ∷ c ∷ []) h f = Decoded-nil _ tt
Decoded-of (suc fuel) (a ∷ b ∷ c ∷ d ∷ more) h f = elim (dec_le (u16_of c d) (length more)) [
  | yes p ↦ Decoded-cons a b c d more h p (
      Decoded-of fuel (drop (u16_of c d) more) (All-drop (u16_of c d) more h.1.1.1.1)
        (omega (arith, length-drop (u16_of c d) more)))
  | no p ↦ Decoded-nil _ (omega arith)
]

-- On every input the decoder ends with a list of parameters: the input is their encoding followed
-- by bytes that are no whole parameter, and those bytes are dropped.
pub decode_tlvs_total :
    {nom : Nom} (laws : NomLaws nom) (input : Bytes)
    → All IsU8 input
    → (d : Decoded input) × (decode_tlvs nom input ≡ ok d.tlvs)
decode_tlvs_total {nom} laws input h =
    let d = Decoded-of (suc (length input)) input h (omega arith) in
    (d, ap (decode_tlvs nom) d.splits ∙ decode_tlvs-encode_tlvs laws d.tlvs d.rest d.valid d.stops)
