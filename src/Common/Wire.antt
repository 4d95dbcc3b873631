-- ===== src/Common/Wire.antt =====
-- How an encoded PDU arrives at the peer: it is framed off the byte stream and its header is read.
use smpp.Base.{ℕ, ◌+◌, ◌≤◌, ◌≡◌, ◌++◌, arith, Bytes, length, drop, ok, refl, ltb, if◌then◌else◌}
use smpp.Common.Header.{CommandHeader, IsHeader, encode, decode, decode-encode}
use smpp.Common.Framing.{frame_first_pdu, complete, frame_first_pdu-encode}

-- `MAX_PDU_LEN` of server/mod.rs, server/state.rs and client/mod.rs.
abbrev pub max_pdu_len : ℕ
max_pdu_len = 1048576

-- The bytes are framed exactly, whatever follows them, and `h` is their header.
pub record Arrives (pdu : Bytes) (h : CommandHeader) : Type 0 where
  pub framed : (rest : Bytes) → frame_first_pdu (pdu ++ rest) max_pdu_len ≡ complete (length pdu)
  pub header_read : decode pdu ≡ ok h

-- The header fits its fields, states the length of the whole PDU, and is within the bound.
pub record IsSendable (h : CommandHeader) (body : Bytes) : Type 0 where
  pub valid : IsHeader h
  pub states_length : h.command_length ≡ 16 + length body
  pub fits : h.command_length ≤ max_pdu_len

pub encode-Arrives :
    (h : CommandHeader) (body : Bytes) → IsSendable h body → Arrives (encode h ++ body) h
encode-Arrives h body s = record {
  framed = frame_first_pdu-encode h body max_pdu_len s.valid s.states_length s.fits;
  header_read = decode-encode h body s.valid s.states_length;
}

-- The decoders' `&pdu[16..]`.
pub drop-encode : (h : CommandHeader) (body : Bytes) → drop 16 (encode h ++ body) ≡ body
unfolding encode
drop-encode h body = refl

pub length-header :
    (h : CommandHeader) (body : Bytes) → length (encode h ++ body) ≡ 16 + length body
unfolding encode
length-header h body = omega arith

-- The decoders' check for a header, and their step past it.
pub after_header {ℓ} :
    {A : Type ℓ} (h : CommandHeader) (body : Bytes) (short : A) (k : Bytes → A)
    → (if ltb (length (encode h ++ body)) 16 then short else k (drop 16 (encode h ++ body)))
      ≡ k body
unfolding encode
after_header h body short k = ground arith
