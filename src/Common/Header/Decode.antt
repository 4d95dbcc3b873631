-- ===== src/Common/Header/Decode.antt =====
-- What `CommandHeader::decode` answers on every input.
use smpp.Base.{
  ℕ, ◌+◌, ◌≤◌, ◌<◌, ◌≡◌, refl, some, [], ◌∷◌, arith, Bytes, length, length-take, length-drop, take,
  drop, ◌==◌, if◌then◌else◌, ok, err,
}
use smpp.Common.Error.{esme_rinvcmdlen, esme_rinvmsglen}
use smpp.Common.Words.{u32_from, be_u32_at}
use smpp.Common.Header.{CommandHeader, decode}

u32_from_four : (l : Bytes) → length l ≡ 4 → (n : ℕ) × (u32_from l ≡ some n)
u32_from_four (a ∷ b ∷ c ∷ d ∷ []) h = (_, refl)
u32_from_four _ h = absurd (omega arith)

field_at :
    (pdu : Bytes) (lo : ℕ)
    → lo + 4 ≤ length pdu
    → u32_from (take 4 (drop lo pdu)) ≡ some (be_u32_at pdu lo)
unfolding be_u32_at
field_at pdu lo h =
    ground
      (arith, u32_from_four (take 4 (drop lo pdu)), length-take 4 (drop lo pdu), length-drop lo pdu)

abbrev pub header_at : Bytes → CommandHeader
header_at pdu = record {
  command_length = be_u32_at pdu 0;
  command_id = be_u32_at pdu 4;
  command_status = be_u32_at pdu 8;
  sequence_number = be_u32_at pdu 12;
}

-- Fewer than sixteen bytes are refused with ESME_RINVCMDLEN; of sixteen or more the four fields are
-- the big-endian words at 0, 4, 8 and 12, and the header is accepted exactly when command_length
-- is the length of the whole PDU, else refused with ESME_RINVMSGLEN.
pub decode_lem :
    (pdu : Bytes)
    → ((length pdu < 16) → decode pdu ≡ err esme_rinvcmdlen)
      × ((16 ≤ length pdu)
          → decode pdu
            ≡ (if length pdu == be_u32_at pdu 0 then ok (header_at pdu) else err esme_rinvmsglen))
unfolding decode
decode_lem pdu = (
  λ h. ground arith,
  λ h. ground (arith, field_at pdu 0, field_at pdu 4, field_at pdu 8, field_at pdu 12),
)
