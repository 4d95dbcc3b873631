-- ===== src/Common/Words.antt =====
-- `to_be_bytes` and `from_be_bytes` of the standard library, and `be_u32_at` of common/mod.rs.
use smpp.Base.{
  ℕ, ◌+◌, ◌*◌, ◌/◌, ◌%◌, ◌≤◌, ◌≡◌, Option, none, some, [], ◌∷◌, ◌++◌, arith, Bytes, IsU16,
  length-append, IsU32, IsU8, All, length, length-drop, take, drop, leb, if◌then◌else◌, take-append,
  drop-append,
}

-- `u16::to_be_bytes` and `u32::to_be_bytes`.
abbrev pub u16_bytes : ℕ → Bytes
u16_bytes n = (n / 256 % 256) ∷ (n % 256) ∷ []

abbrev pub u32_bytes : ℕ → Bytes
u32_bytes n = (n / 16777216 % 256) ∷ (n / 65536 % 256) ∷ (n / 256 % 256) ∷ (n % 256) ∷ []

-- `u16::from_be_bytes` and `u32::from_be_bytes`.
abbrev pub u16_of : ℕ → ℕ → ℕ
u16_of a b = a * 256 + b

abbrev pub u32_of : ℕ → ℕ → ℕ → ℕ → ℕ
u32_of a b c d = ((a * 256 + b) * 256 + c) * 256 + d

-- `<[u8; 4]>::try_from(slice)` followed by `u32::from_be_bytes`; `none` if the slice has not
-- exactly four bytes.
abbrev pub u32_from : Bytes → Option ℕ
u32_from (a ∷ b ∷ c ∷ d ∷ []) = some (u32_of a b c d)
u32_from _ = none

-- `bytes.get(lo..hi)`: `none` if the range does not lie in the slice.
abbrev pub get_range : Bytes → ℕ → ℕ → Option Bytes
get_range bytes lo len =
    if leb (lo + len) (length bytes) then some (take len (drop lo bytes)) else none

abbrev or_zero : Option ℕ → ℕ
or_zero none = 0
or_zero (some n) = n

abbrev and_then : Option Bytes → Option ℕ
and_then none = none
and_then (some slice) = u32_from slice

-- The offset is a `usize`; where `offset + 4` would saturate, it is past the end of any slice, so
-- the sum over ℕ gives the same answer.
unfoldable pub be_u32_at : Bytes → ℕ → ℕ
be_u32_at bytes offset = or_zero (and_then (get_range bytes offset 4))

pub u16_of-u16_bytes : (n : ℕ) → IsU16 n → u16_of (n / 256 % 256) (n % 256) ≡ n
u16_of-u16_bytes n h = omega arith

pub u32_of-u32_bytes :
    (n : ℕ) → IsU32 n → u32_of (n / 16777216 % 256) (n / 65536 % 256) (n / 256 % 256) (n % 256) ≡ n
u32_of-u32_bytes n h = omega arith

pub u32_bytes-IsU8 : (n : ℕ) → All IsU8 (u32_bytes n)
u32_bytes-IsU8 n = omega arith

-- What follows a read range does not change the read.
pub be_u32_at-append :
    (bytes more : Bytes) (offset : ℕ)
    → offset + 4 ≤ length bytes
    → be_u32_at (bytes ++ more) offset ≡ be_u32_at bytes offset
unfolding be_u32_at
be_u32_at-append bytes more offset h = ground (
  arith,
  length-append bytes more,
  drop-append offset bytes more,
  take-append 4 (drop offset bytes) more,
  length-drop offset bytes,
)
