-- ===== src/Common/Tlv/Access.antt =====
-- common/tlv.rs, the trait `TlvList` on `Vec<Tlv>`: the typed accessors.
use smpp.Base.{
  ℕ, ◌≡◌, refl, Option, none, some, List, [], ◌∷◌, ◌++◌, arith, Bytes, IsU16, IsU32, ◌==◌,
  if◌then◌else◌, true, length-append, ap, take-length_append, ◌≢◌,
}
use smpp.Utf8.{is_utf8, from_utf8}
use smpp.Common.Words.{u16_of, u32_of-u32_bytes, u16_of-u16_bytes}
use smpp.Common.Tlv.Tag.{TlvTag, tag_of, tag_of-injective}
use smpp.Common.Tlv.{
  Tlv, from_tag, from_u8, from_u16, from_u32, from_c_string, as_u8, as_u16, as_u32, as_string,
  ends_in_nul,
}

-- `self.iter().find(|t| t.tag == tag)`
unfoldable pub get_tlv_raw : List Tlv → ℕ → Option Tlv
get_tlv_raw [] tag = none
get_tlv_raw (t ∷ ts) tag = if t.tag == tag then some t else get_tlv_raw ts tag

unfoldable pub get_tlv : List Tlv → TlvTag → Option Tlv
get_tlv tlvs tag = get_tlv_raw tlvs (tag_of tag)

-- `self.get_tlv(tag)?.f()`
abbrev typed {ℓ} : {A : Type ℓ} → TlvTag → (Tlv → Option A) → List Tlv → Option A
typed tag f tlvs = elim (get_tlv tlvs tag) [ none ↦ none | some t ↦ f t ]

-- The body of `network_error_code` on the value of the parameter.
abbrev code_of : Bytes → Option (ℕ × ℕ)
code_of (a ∷ b ∷ c ∷ []) = some (a, u16_of b c)
code_of _ = none

unfoldable pub receipted_message_id : List Tlv → Option Bytes
receipted_message_id = typed TlvTag.receipted_message_id as_string

unfoldable pub message_state : List Tlv → Option ℕ
message_state = typed TlvTag.message_state_tlv as_u8

unfoldable pub network_error_code : List Tlv → Option (ℕ × ℕ)
network_error_code = typed TlvTag.network_error_code (λ t. code_of t.value)

unfoldable pub user_message_reference : List Tlv → Option ℕ
user_message_reference = typed TlvTag.user_message_reference as_u16

unfoldable pub sar_msg_ref_num : List Tlv → Option ℕ
sar_msg_ref_num = typed TlvTag.sar_msg_ref_num as_u16

unfoldable pub sar_total_segments : List Tlv → Option ℕ
sar_total_segments = typed TlvTag.sar_total_segments as_u8

unfoldable pub sar_segment_seqnum : List Tlv → Option ℕ
sar_segment_seqnum = typed TlvTag.sar_segment_seqnum as_u8

unfoldable pub message_payload : List Tlv → Option Bytes
message_payload = typed TlvTag.message_payload (λ t. some t.value)

unfoldable pub source_port : List Tlv → Option ℕ
source_port = typed TlvTag.source_port as_u16

unfoldable pub destination_port : List Tlv → Option ℕ
destination_port = typed TlvTag.destination_port as_u16

unfoldable pub sc_interface_version : List Tlv → Option ℕ
sc_interface_version = typed TlvTag.sc_interface_version as_u8

unfoldable pub more_messages_to_send : List Tlv → Option ℕ
more_messages_to_send = typed TlvTag.more_messages_to_send as_u8

unfoldable pub delivery_failure_reason : List Tlv → Option ℕ
delivery_failure_reason = typed TlvTag.delivery_failure_reason as_u8

-- A search goes on behind a list that lacks the tag, and stops in one that has it.
pub get_tlv_raw-append :
    (a b : List Tlv) (tag : ℕ)
    → get_tlv_raw (a ++ b) tag
      ≡ elim (get_tlv_raw a tag) [ some t ↦ some t | none ↦ get_tlv_raw b tag ]
unfolding get_tlv_raw
get_tlv_raw-append [] b tag = refl
get_tlv_raw-append (t ∷ ts) b tag = ground (arith, get_tlv_raw-append ts b tag)

-- What a search finds carries the tag that was asked for.
pub get_tlv-tag_of :
    (tlvs : List Tlv) (tag : TlvTag) (t : Tlv) → get_tlv tlvs tag ≡ some t → t.tag ≡ tag_of tag
unfolding get_tlv get_tlv_raw
get_tlv-tag_of [] tag t h = cc
get_tlv-tag_of (u ∷ us) tag t h = ground (arith, get_tlv-tag_of us tag t)

-- A parameter built for another tag is never found in place of the one asked for.
pub get_tlv-from_tag_ne :
    (tag other : TlvTag) (value : Bytes) (tlvs : List Tlv)
    → other ≢ tag
    → get_tlv (from_tag other value ∷ tlvs) tag ≡ get_tlv tlvs tag
unfolding get_tlv get_tlv_raw
get_tlv-from_tag_ne tag other value tlvs h =
    ground (arith, λ (e : tag_of other ≡ tag_of tag). h (tag_of-injective other tag e))

-- The typed constructors and the typed readers are inverse to one another.
pub as_u8-from_u8 : (tag : TlvTag) (n : ℕ) → as_u8 (from_u8 tag n) ≡ some n
unfolding as_u8 from_u8
as_u8-from_u8 tag n = refl

pub as_u16-from_u16 : (tag : TlvTag) (n : ℕ) → IsU16 n → as_u16 (from_u16 tag n) ≡ some n
unfolding as_u16 from_u16
as_u16-from_u16 tag n h = ap some (u16_of-u16_bytes n h)

pub as_u32-from_u32 : (tag : TlvTag) (n : ℕ) → IsU32 n → as_u32 (from_u32 tag n) ≡ some n
unfolding as_u32 from_u32
as_u32-from_u32 tag n h = ap some (u32_of-u32_bytes n h)

ends_in_nul-append_nul : (s : Bytes) → ends_in_nul (s ++ (0 ∷ [])) ≡ true
ends_in_nul-append_nul [] = refl
ends_in_nul-append_nul (a ∷ []) = refl
ends_in_nul-append_nul (a ∷ b ∷ bs) = ends_in_nul-append_nul (b ∷ bs)

-- `as_string` gives back the text that `from_c_string` was given, NULs at its end included.
pub as_string-from_c_string :
    (tag : TlvTag) (s : Bytes) → is_utf8 s ≡ true → as_string (from_c_string tag s) ≡ some s
unfolding as_string from_c_string from_utf8
as_string-from_c_string tag s h =
    ground
      (arith, ends_in_nul-append_nul s, length-append s (0 ∷ []), take-length_append s (0 ∷ []))
