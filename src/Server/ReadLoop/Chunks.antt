-- ===== src/Server/ReadLoop/Chunks.antt =====
-- The read loop of server/state.rs over a TCP stream: how the bytes are cut into reads does not matter.
use smpp.Base.{
  ◌≡◌, sym, ◌∙◌, ◌++◌, List, [], ◌∷◌, Bytes, length, All, take-length_append, drop-length_append,
  drop-append, take-append,
}
use smpp.Common.Framing.{
  frame_first_pdu, incomplete, complete, frame_first_pdu-IsFrame, frame_first_pdu-append_complete,
  frame_first_pdu-append_invalid,
}
use smpp.Common.Wire.{max_pdu_len}
use smpp.Server.State.{Flow, go_on}
use smpp.Server.ReadLoop.{drain_buffer}
use smpp.Server.ReadLoop.Framed.{
  Ends, Drains, waits, refuses, goes_on, stops, drain_buffer-Drains, drain_buffer_total,
  Drains-result,
}

module _ {ℓ} {S : Type ℓ} (handle : S → Bytes → S × Flow) where
  -- The loop over a longer buffer is the loop over its front, then over what stayed and the new bytes.
  Drains-append :
      (b : Bytes) {s t u : S} {a rest rest' : Bytes} {f : Flow}
      → Drains handle s a t rest go_on
      → Drains handle t (rest ++ b) u rest' f
      → Drains handle s (a ++ b) u rest' f
  Drains-append b (waits e) d' = d'
  Drains-append b {a = a} (goes_on {t = v} n e g d) d' =
      let i = frame_first_pdu-IsFrame a max_pdu_len n e in
      goes_on {t = v} n (frame_first_pdu-append_complete a b max_pdu_len n e)
        (rw (take-append n a b i.present, g))
        (rw (drop-append n a b i.present) (Drains-append b d d'))
  Drains-append b (stops n e g x) d' = elim x [ ]

  Drains-append-Ends :
      (b : Bytes) {s t : S} {a rest : Bytes} {f : Flow}
      → Drains handle s a t rest f
      → Ends f
      → Drains handle s (a ++ b) t (rest ++ b) f
  Drains-append-Ends b (waits e) x = elim x [ ]
  Drains-append-Ends b {a = a} (refuses n e) x =
      refuses n (frame_first_pdu-append_invalid a b max_pdu_len n e)
  Drains-append-Ends b {a = a} (goes_on {t = v} n e g d) x =
      let i = frame_first_pdu-IsFrame a max_pdu_len n e in
      goes_on {t = v} n (frame_first_pdu-append_complete a b max_pdu_len n e)
        (rw (take-append n a b i.present, g))
        (rw (drop-append n a b i.present) (Drains-append-Ends b d x))
  Drains-append-Ends b {a = a} (stops n e g y) x =
      let i = frame_first_pdu-IsFrame a max_pdu_len n e in
      stops n (frame_first_pdu-append_complete a b max_pdu_len n e)
        (rw (take-append n a b i.present, g)) y

  -- How a stream is cut into reads does not matter: if the bytes so far left the loop going on, then
  -- reading more bytes into what stayed ends as reading them all at once would.
  pub drain_buffer-append :
      (s : S) (a b : Bytes) (t : S) (rest : Bytes)
      → drain_buffer handle s a ≡ (t, (rest, go_on))
      → drain_buffer handle s (a ++ b) ≡ drain_buffer handle t (rest ++ b)
  drain_buffer-append s a b t rest e =
      let (u, (rest', (f, (d, e')))) = drain_buffer_total handle t (rest ++ b) in
      drain_buffer-Drains handle (Drains-append b (Drains-result handle s a _ e) d) ∙ sym e'

  -- If the bytes so far ended the loop, they end it in the same state with any bytes behind them.
  pub drain_buffer-append-Ends :
      (s : S) (a b : Bytes) (t : S) (rest : Bytes) (f : Flow)
      → drain_buffer handle s a ≡ (t, (rest, f))
      → Ends f
      → drain_buffer handle s (a ++ b) ≡ (t, (rest ++ b, f))
  drain_buffer-append-Ends s a b t rest f e x =
      drain_buffer-Drains handle (Drains-append-Ends b (Drains-result handle s a _ e) x)

-- The bytes of PDUs that are sent one after another, and what handling them in that order gives.
abbrev pub in_a_row : List Bytes → Bytes → Bytes
in_a_row [] tail = tail
in_a_row (p ∷ ps) tail = p ++ in_a_row ps tail

-- `Handles handle s ps t`: every PDU of `ps` is handled in order, and the loop goes on after each.
pub data Handles {ℓ} {S : Type ℓ} (handle : S → Bytes → S × Flow)
    : S → List Bytes → S → Type ℓ where
  handled_all : {s : S} → Handles handle s [] s
  handled :
      {s t u : S} {p : Bytes} {ps : List Bytes}
      → handle s p ≡ (t, go_on)
      → Handles handle t ps u
      → Handles handle s (p ∷ ps) u

abbrev pub IsFramed : Bytes → Type 0
IsFramed p = (rest : Bytes) → frame_first_pdu (p ++ rest) max_pdu_len ≡ complete (length p)

module _ {ℓ} {S : Type ℓ} (handle : S → Bytes → S × Flow) where
  in_a_row-Drains :
      (tail : Bytes) {s t : S} {ps : List Bytes}
      → Handles handle s ps t
      → All IsFramed ps
      → frame_first_pdu tail max_pdu_len ≡ incomplete
      → Drains handle s (in_a_row ps tail) t tail go_on
  in_a_row-Drains tail handled_all fs e = waits e
  in_a_row-Drains tail (handled {t = v} {p = p} {ps = ps} g d) (f, fs) e =
      goes_on {t = v} (length p) (f (in_a_row ps tail))
        (rw (take-length_append p (in_a_row ps tail), g))
        (rw (drop-length_append p (in_a_row ps tail)) (in_a_row-Drains tail d fs e))

  -- PDUs that were sent in a row, each framed as itself, are handled one by one in that order; the bytes
  -- of an unfinished PDU behind them stay in the buffer.
  pub drain_buffer-in_a_row :
      (s t : S) (ps : List Bytes) (tail : Bytes)
      → All IsFramed ps
      → frame_first_pdu tail max_pdu_len ≡ incomplete
      → Handles handle s ps t
      → drain_buffer handle s (in_a_row ps tail) ≡ (t, (tail, go_on))
  drain_buffer-in_a_row s t ps tail fs e d =
      drain_buffer-Drains handle (in_a_row-Drains tail d fs e)
