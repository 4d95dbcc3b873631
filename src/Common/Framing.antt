-- ===== src/Common/Framing.antt =====
-- common/mod.rs, `frame_first_pdu`: where the first PDU of a read buffer ends.
use smpp.Base.{
  ℕ, ◌+◌, ◌≤◌, ◌≡◌, ◌∷◌, ◌++◌, arith, Bytes, length, length-append, ltb, ◌||◌, if◌then◌else◌, ap,
}
use smpp.Common.Words.{be_u32_at, be_u32_at-append, u32_of-u32_bytes}
use smpp.Common.Header.{CommandHeader, IsHeader, encode}

pub data Framing : Type 0 where
  incomplete : Framing
  complete : ℕ → Framing
  invalid : ℕ → Framing

unfoldable pub frame_first_pdu : Bytes → ℕ → Framing
frame_first_pdu buffer max_len =
    if ltb (length buffer) 16
    then incomplete
    else let command_length = be_u32_at buffer 0 in
      if ltb command_length 16 || ltb max_len command_length
      then invalid command_length
      else if ltb (length buffer) command_length
      then incomplete
      else complete command_length

-- A frame is at least a header, within the bound, wholly in the buffer, and as long as its header
-- says.
pub record IsFrame (buffer : Bytes) (max_len n : ℕ) : Type 0 where
  pub holds_header : 16 ≤ n
  pub bounded : n ≤ max_len
  pub present : n ≤ length buffer
  pub stated : be_u32_at buffer 0 ≡ n

pub frame_first_pdu-IsFrame :
    (buffer : Bytes) (max_len n : ℕ)
    → frame_first_pdu buffer max_len ≡ complete n
    → IsFrame buffer max_len n
unfolding frame_first_pdu
frame_first_pdu-IsFrame buffer max_len n h = ground arith

pub frame_first_pdu-complete :
    (buffer : Bytes) (max_len n : ℕ)
    → IsFrame buffer max_len n
    → frame_first_pdu buffer max_len ≡ complete n
unfolding frame_first_pdu
frame_first_pdu-complete buffer max_len n f = ground arith

-- Once the first frame is there, later bytes do not change it.
pub frame_first_pdu-append_complete :
    (buffer more : Bytes) (max_len n : ℕ)
    → frame_first_pdu buffer max_len ≡ complete n
    → frame_first_pdu (buffer ++ more) max_len ≡ complete n
unfolding frame_first_pdu
frame_first_pdu-append_complete buffer more max_len n h =
    ground (arith, length-append buffer more, be_u32_at-append buffer more 0)

-- Once the length field is out of bounds, later bytes do not mend it.
pub frame_first_pdu-append_invalid :
    (buffer more : Bytes) (max_len n : ℕ)
    → frame_first_pdu buffer max_len ≡ invalid n
    → frame_first_pdu (buffer ++ more) max_len ≡ invalid n
unfolding frame_first_pdu
frame_first_pdu-append_invalid buffer more max_len n h =
    ground (arith, length-append buffer more, be_u32_at-append buffer more 0)

pub be_u32_at-encode :
    (h : CommandHeader) (body : Bytes)
    → IsHeader h
    → be_u32_at (encode h ++ body) 0 ≡ h.command_length
unfolding be_u32_at encode
be_u32_at-encode h body v = ground (arith, u32_of-u32_bytes h.command_length)

length-encode : (h : CommandHeader) (body : Bytes) → length (encode h ++ body) ≡ 16 + length body
unfolding encode
length-encode h body = omega arith

module _ (h : CommandHeader) (body : Bytes) (max_len : ℕ) (v : IsHeader h)
    (states : h.command_length ≡ 16 + length body) (fits : h.command_length ≤ max_len) where
  -- An encoded PDU is framed exactly, whatever stands behind it in the buffer.
  pub frame_first_pdu-encode :
      (rest : Bytes)
      → frame_first_pdu ((encode h ++ body) ++ rest) max_len ≡ complete (length (encode h ++ body))
  frame_first_pdu-encode rest =
      frame_first_pdu-append_complete (encode h ++ body) rest max_len (length (encode h ++ body)) (
        frame_first_pdu-complete _ _ _
          (ground (arith, be_u32_at-encode h body v, length-encode h body)))

  -- A proper prefix of an encoded PDU is never framed and never refused.
  pub frame_first_pdu_prefix :
      (front back : Bytes) (x : ℕ)
      → encode h ++ body ≡ front ++ (x ∷ back)
      → frame_first_pdu front max_len ≡ incomplete
  unfolding frame_first_pdu
  frame_first_pdu_prefix front back x e = ground (
    arith,
    be_u32_at-append front (x ∷ back) 0,
    be_u32_at-encode h body v,
    length-encode h body,
    length-append front (x ∷ back),
    ap (λ t. be_u32_at t 0) e,
    ap length e,
  )
