-- ===== src/Engine/Handshake/Chunks.antt =====
-- The handshake of server/mod.rs and client/mod.rs over a TCP stream: how the bytes are cut into reads.
use smpp.Base.{
  ℕ, ◌≤◌, ◌≡◌, sym, ap, ◌∙◌, List, [], ◌∷◌, ◌++◌, arith, Bytes, length, take, drop, inl, inr,
  append_assoc, append-nil, take-append, drop-append, take-length_append, drop-length_append,
}
use smpp.Common.Framing.{
  frame_first_pdu, complete, invalid, frame_first_pdu-IsFrame, frame_first_pdu-append_complete,
  frame_first_pdu-append_invalid,
}
use smpp.Common.Wire.{max_pdu_len}
use smpp.Server.ReadLoop.Framed.{Framing-cases}
use smpp.Server.ReadLoop.Chunks.{IsFramed}
use smpp.Engine.Handshake.{Read, chunk, first, first_pdu}

-- A chunk that was read: a byte, and those behind it.
pub record Chunk : Type 0 where
  pub head : ℕ
  pub tail : Bytes

abbrev pub bytes_of : Chunk → Bytes
bytes_of c = c.head ∷ c.tail

abbrev pub all_bytes : List Chunk → Bytes
all_bytes [] = []
all_bytes (c ∷ cs) = bytes_of c ++ all_bytes cs

abbrev pub reads_of : List Chunk → List Read
reads_of [] = []
reads_of (c ∷ cs) = chunk (bytes_of c) ∷ reads_of cs

-- How the buffer of a turn is framed, if the whole stream starts with the framed `pdu`.
whole_stream :
    (buffer later pdu rest : Bytes)
    → IsFramed pdu
    → buffer ++ later ≡ pdu ++ rest
    → frame_first_pdu (buffer ++ later) max_pdu_len ≡ complete (length pdu)
whole_stream buffer later pdu rest framed e = rw (e) (framed rest)

module _ (buffer later pdu rest : Bytes) (framed : IsFramed pdu)
    (stream : buffer ++ later ≡ pdu ++ rest) where
  -- A frame at the front of what was read is the PDU.
  front_complete :
      (n : ℕ)
      → frame_first_pdu buffer max_pdu_len ≡ complete n
      → (n ≡ length pdu) × (n ≤ length buffer)
  front_complete n e =
      let i = frame_first_pdu-IsFrame buffer max_pdu_len n e in
      (
        ground (
          arith,
          frame_first_pdu-append_complete buffer later max_pdu_len n e,
          whole_stream buffer later pdu rest framed stream,
        ),
        i.present,
      )

  front_take : length pdu ≤ length buffer → take (length pdu) buffer ≡ pdu
  front_take h =
      sym (take-append (length pdu) buffer later h)
      ∙ ap (take (length pdu)) stream
      ∙ take-length_append pdu rest

  front_drop : length pdu ≤ length buffer → drop (length pdu) buffer ++ later ≡ rest
  front_drop h =
      sym (drop-append (length pdu) buffer later h)
      ∙ ap (drop (length pdu)) stream
      ∙ drop-length_append pdu rest

  never_invalid : (n : ℕ) → ¬ (frame_first_pdu buffer max_pdu_len ≡ invalid n)
  never_invalid n e = ground (
    arith,
    frame_first_pdu-append_invalid buffer later max_pdu_len n e,
    whole_stream buffer later pdu rest framed stream,
  )

  front_is :
      (n : ℕ)
      → frame_first_pdu buffer max_pdu_len ≡ complete n
      → (take n buffer ≡ pdu) × (drop n buffer ++ later ≡ rest)
  front_is n e =
      let (m, h) = front_complete n e in
      (
        ap (λ k. take k buffer) m ∙ front_take (omega (arith, m, h)),
        ap (λ k. drop k buffer ++ later) m ∙ front_drop (omega (arith, m, h)),
      )

-- However the bytes of a stream are cut into reads of at least a byte each, if they start with a framed
-- PDU then the handshake gives that PDU, and what it has in its buffer together with what it has not read
-- are the bytes behind it: none is lost, and none is read twice.
pub first_pdu-reads_of :
    (cs : List Chunk) (buffer pdu rest : Bytes)
    → IsFramed pdu
    → buffer ++ all_bytes cs ≡ pdu ++ rest
    → (left : Bytes) × ((ds : List Chunk) × ((first_pdu buffer (reads_of cs)
            ≡ first pdu left (reads_of ds))
          × (left ++ all_bytes ds ≡ rest)))
unfolding first_pdu
first_pdu-reads_of [] buffer pdu rest framed stream =
    elim (Framing-cases (frame_first_pdu buffer max_pdu_len)) [
      | inl e ↦
          absurd
            (ground (arith, append-nil buffer, whole_stream buffer [] pdu rest framed stream, e))
      | inr (inl (n, e)) ↦ absurd (never_invalid buffer [] pdu rest framed stream n e)
      | inr (inr (n, e)) ↦
          let (t, d) = front_is buffer [] pdu rest framed stream n e in
          (drop n buffer, ([], (rw (e) (ap (λ x. first x (drop n buffer) []) t), d)))
    ]
first_pdu-reads_of (c ∷ cs) buffer pdu rest framed stream =
    elim (Framing-cases (frame_first_pdu buffer max_pdu_len)) [
      | inl e ↦
          let (left, (ds, (r, l))) =
            first_pdu-reads_of cs (buffer ++ bytes_of c) pdu rest framed
              (append_assoc buffer (bytes_of c) (all_bytes cs) ∙ stream) in
          (left, (ds, (rw (e) r, l)))
      | inr (inl (n, e)) ↦
          absurd (never_invalid buffer (all_bytes (c ∷ cs)) pdu rest framed stream n e)
      | inr (inr (n, e)) ↦
          let (t, d) = front_is buffer (all_bytes (c ∷ cs)) pdu rest framed stream n e in
          (
            drop n buffer,
            (c ∷ cs, (rw (e) (ap (λ x. first x (drop n buffer) (reads_of (c ∷ cs))) t), d)),
          )
    ]
