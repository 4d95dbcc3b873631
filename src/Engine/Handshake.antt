-- ===== src/Engine/Handshake.antt =====
-- The handshake loop of server/mod.rs and client/mod.rs: chunks are read until the first PDU is framed; what
-- stands behind it stays for the session's read loop.
pub mod Chunks
use smpp.Base.{ℕ, List, [], ◌∷◌, ◌++◌, Bytes, take, drop}
use smpp.Common.Framing.{Framing, frame_first_pdu, incomplete, complete, invalid}
use smpp.Common.Wire.{max_pdu_len}

-- What a read under the session_init_timer gives.
pub data Read : Type 0 where
  -- The bytes of it; none at the end of the stream.
  chunk : Bytes → Read
  failed : Read
  timed_out : Read

pub data Handshake : Type 0 where
  -- The first PDU, what was read behind it, and the reads that are still to come. The PDU is empty where
  -- the stream ended or the length is out of bounds.
  first : Bytes → Bytes → List Read → Handshake
  -- No PDU: the read failed or timed out.
  nothing : Handshake
  -- More reads are needed.
  still_reading : Bytes → Handshake

-- `Framing::Incomplete`: what the next read gives.
abbrev pub after_read : (Bytes → Handshake) → Bytes → List Read → Read → Handshake
after_read next buffer reads (chunk []) = first [] buffer reads
after_read next buffer reads (chunk (b ∷ bs)) = next (buffer ++ (b ∷ bs))
after_read next buffer reads failed = nothing
after_read next buffer reads timed_out = nothing

-- A turn of the loop; `more` is what becomes of an incomplete PDU.
abbrev pub turn : Bytes → List Read → Handshake → Framing → Handshake
turn buffer reads more (complete n) = first (take n buffer) (drop n buffer) reads
turn buffer reads more (invalid n) = first [] buffer reads
turn buffer reads more incomplete = more

unfoldable pub first_pdu : Bytes → List Read → Handshake
first_pdu buffer [] = turn buffer [] (still_reading buffer) (frame_first_pdu buffer max_pdu_len)
first_pdu buffer (r ∷ rs) =
    let next = λ (b : Bytes). first_pdu b rs in
    turn buffer (r ∷ rs) (after_read next buffer rs r) (frame_first_pdu buffer max_pdu_len)
