-- ===== src/Common/Tlv.antt =====
-- common/tlv.rs: optional parameters, their encoding, and the accessors over a list of them.
pub mod Tag
pub mod Codec
pub mod Access
use smpp.Base.{
  ℕ, zero, suc, ◌+◌, ◌-◌, ◌%◌, ◌≡◌, Bool, true, false, Option, none, some, List, [], ◌∷◌, ◌++◌,
  Bytes, length, cast_u16, take, ltb, ◌==◌, if◌then◌else◌, Result, ok, err, panic, ◌>>=◌,
}
use smpp.Utf8.{from_utf8}
use smpp.Nom.{Nom, IResult}
use smpp.Common.Error.{SmppError}
use smpp.Common.Words.{u16_bytes, u32_bytes, u16_of, u32_of}
use Tag.{TlvTag, tag_of}

pub record Tlv : Type 0 where
  pub tag : ℕ
  pub value : Bytes

-- `Tlv::new`, `from_tag` and the typed constructors.
abbrev pub new : ℕ → Bytes → Tlv
new tag value = record { tag = tag; value = value }

abbrev pub from_tag : TlvTag → Bytes → Tlv
from_tag tag value = record { tag = tag_of tag; value = value }

unfoldable pub from_u8 : TlvTag → ℕ → Tlv
from_u8 tag value = from_tag tag (value ∷ [])

unfoldable pub from_u16 : TlvTag → ℕ → Tlv
from_u16 tag value = from_tag tag (u16_bytes value)

unfoldable pub from_u32 : TlvTag → ℕ → Tlv
from_u32 tag value = from_tag tag (u32_bytes value)

unfoldable pub from_c_string : TlvTag → Bytes → Tlv
from_c_string tag value = from_tag tag (value ++ (0 ∷ []))

-- `Tlv::encode`; the length is cut to a `u16`.
unfoldable pub encode : Tlv → Bytes
encode tlv = u16_bytes tlv.tag ++ (u16_bytes (cast_u16 (length tlv.value)) ++ tlv.value)

abbrev pub encoded_len : Tlv → ℕ
encoded_len tlv = 4 + length tlv.value

-- `as_u8`, `as_u16` and `as_u32`, by the length of the value.
abbrev one_byte : Bytes → Option ℕ
one_byte (a ∷ []) = some a
one_byte _ = none

abbrev two_bytes : Bytes → Option ℕ
two_bytes (a ∷ b ∷ []) = some (u16_of a b)
two_bytes _ = none

abbrev four_bytes : Bytes → Option ℕ
four_bytes (a ∷ b ∷ c ∷ d ∷ []) = some (u32_of a b c d)
four_bytes _ = none

unfoldable pub as_u8 : Tlv → Option ℕ
as_u8 tlv = one_byte tlv.value

unfoldable pub as_u16 : Tlv → Option ℕ
as_u16 tlv = two_bytes tlv.value

unfoldable pub as_u32 : Tlv → Option ℕ
as_u32 tlv = four_bytes tlv.value

-- `self.value.last() == Some(&0x00)`
abbrev ends_in_nul : Bytes → Bool
ends_in_nul [] = false
ends_in_nul (b ∷ []) = b == 0
ends_in_nul (_ ∷ b ∷ bs) = ends_in_nul (b ∷ bs)

abbrev to_option {ℓ κ} : {E : Type ℓ} {A : Type κ} → Result E A → Option A
to_option (ok a) = some a
to_option _ = none

unfoldable pub as_string : Tlv → Option Bytes
as_string tlv =
    let bytes =
      if ends_in_nul tlv.value then take (length tlv.value - 1) tlv.value else tlv.value in
    to_option (from_utf8 bytes)

-- `[bytes[0], bytes[1]]` of two bytes taken, as a `u16`.
abbrev pub u16_from : Bytes → Result (Unit {0}) ℕ
u16_from (a ∷ b ∷ _) = ok (u16_of a b)
u16_from _ = panic

unfoldable pub parse_single_tlv : Nom → Bytes → IResult Tlv
parse_single_tlv nom input = do
  (input, tag_bytes) ← nom.take_bytes 2 input
  (input, length_bytes) ← nom.take_bytes 2 input
  tag ← u16_from tag_bytes
  value_len ← u16_from length_bytes
  (input, value) ← nom.take_bytes value_len input
  ok (input, new tag value)

-- The loop of `decode_tlvs`, on fuel. Its body cannot fail, so an exhausted fuel is shown as `panic`.
unfoldable pub decode_loop : Nom → ℕ → Bytes → List Tlv → Result SmppError (List Tlv)
decode_loop nom zero input tlvs = panic
decode_loop nom (suc fuel) input tlvs = elim (ltb (length input) 4) [
  | true ↦ ok tlvs
  | false ↦ elim (parse_single_tlv nom input) [
    | ok (remaining, tlv) ↦ decode_loop nom fuel remaining (tlvs ++ (tlv ∷ []))
    | err _ ↦ ok tlvs
    | panic ↦ panic
  ]
]

-- Each round takes four bytes at least, so one round more than there are bytes is enough.
unfoldable pub decode_tlvs : Nom → Bytes → Result SmppError (List Tlv)
decode_tlvs nom input = decode_loop nom (suc (length input)) input []

unfoldable pub encode_tlvs : List Tlv → Bytes
encode_tlvs [] = []
encode_tlvs (tlv ∷ tlvs) = encode tlv ++ encode_tlvs tlvs

unfoldable pub tlvs_encoded_len : List Tlv → ℕ
tlvs_encoded_len [] = 0
tlvs_encoded_len (tlv ∷ tlvs) = encoded_len tlv + tlvs_encoded_len tlvs
