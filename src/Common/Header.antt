-- ===== src/Common/Header.antt =====
-- common/mod.rs, `CommandHeader`: the sixteen bytes in front of every PDU.
pub mod Decode
use smpp.Base.{
  ℕ, ◌+◌, ◌≡◌, none, some, ◌++◌, arith, Bytes, IsU32, length, take, drop, ltb, ◌==◌, if◌then◌else◌,
  Result, ok, err, ◌>>=◌,
}
use smpp.Common.Error.{SmppError, esme_rinvcmdlen, esme_rinvmsglen}
use smpp.Common.Words.{u32_bytes, u32_from, u32_of-u32_bytes}

pub record CommandHeader : Type 0 where
  pub command_length : ℕ
  pub command_id : ℕ
  pub command_status : ℕ
  pub sequence_number : ℕ

-- Each field is a `u32`.
pub record IsHeader (h : CommandHeader) : Type 0 where
  pub length_u32 : IsU32 h.command_length
  pub id_u32 : IsU32 h.command_id
  pub status_u32 : IsU32 h.command_status
  pub sequence_u32 : IsU32 h.sequence_number

-- `pdu[lo..lo + 4].try_into().map_err(|_| ESME_RINVCMDLEN)?` of a long enough `pdu`.
abbrev header_field : Bytes → ℕ → Result SmppError ℕ
header_field pdu lo = elim (u32_from (take 4 (drop lo pdu))) [
  | some n ↦ ok n
  | none ↦ err esme_rinvcmdlen
]

unfoldable pub decode : Bytes → Result SmppError CommandHeader
decode pdu = if ltb (length pdu) 16 then err esme_rinvcmdlen else do
  command_length ← header_field pdu 0
  command_id ← header_field pdu 4
  command_status ← header_field pdu 8
  sequence_number ← header_field pdu 12
  let header : CommandHeader = record {
    command_length = command_length;
    command_id = command_id;
    command_status = command_status;
    sequence_number = sequence_number;
  }
  if length pdu == header.command_length then ok header else err esme_rinvmsglen

unfoldable pub encode : CommandHeader → Bytes
encode header =
    u32_bytes header.command_length
    ++ (u32_bytes header.command_id
        ++ (u32_bytes header.command_status ++ u32_bytes header.sequence_number))

-- A header is read back from its encoding, with any body behind it of the length that it states.
pub decode-encode :
    (h : CommandHeader) (body : Bytes)
    → IsHeader h
    → h.command_length ≡ 16 + length body
    → decode (encode h ++ body) ≡ ok h
unfolding decode encode
decode-encode h body v e = ground (
  arith,
  u32_of-u32_bytes h.command_length,
  u32_of-u32_bytes h.command_id,
  u32_of-u32_bytes h.command_status,
  u32_of-u32_bytes h.sequence_number,
)
