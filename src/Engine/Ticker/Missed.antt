-- ===== src/Engine/Ticker/Missed.antt =====
-- The enquire_link ticker of server/state.rs and client/mod.rs, over all of its rounds.
use smpp.Base.{
  Bool-cases, inl, inr, ℕ, zero, suc, ◌+◌, ◌%◌, ◌≡◌, ◌≢◌, refl, sym, ap, ◌∙◌, true, false, none,
  List, [], ◌∷◌, ◌++◌, append_assoc, append-nil, arith, IsU32, ◌==◌,
}
use smpp.Commands.HeaderOnly
use smpp.Engine.Sequence.{fetch_add}
use smpp.Engine.Frame.{WriteFrame, request_frame}
use smpp.Engine.Request.{Peer}
use smpp.Engine.Ticker.{Forwarded, forwarded, closed, late, is_alive, tick_all}

-- The number of the k-th round of a ticker whose counter stands at `start`.
abbrev pub number_of : ℕ → ℕ → ℕ
number_of start k = (start + k) % 4294967296

-- The responses to the enquire_links of `count` rounds from the k-th on, in order.
abbrev pub all_answered : ℕ → ℕ → ℕ → List Forwarded
all_answered start k zero = []
all_answered start k (suc count) = forwarded (number_of start k) ∷ all_answered start (suc k) count

-- The frame of a round.
abbrev pub enquiry_frame : ℕ → WriteFrame
enquiry_frame n = request_frame n (HeaderOnly.encode (HeaderOnly.enquire_link_new n)) none

-- The frames of those rounds.
abbrev pub enquiries : ℕ → ℕ → ℕ → List WriteFrame
enquiries start k zero = []
enquiries start k (suc count) = enquiry_frame (number_of start k) ∷ enquiries start (suc k) count

-- The ticker's side with an open channel, these frames in it, and its counter at the k-th round.
abbrev pub at_round : Peer → List WriteFrame → ℕ → Peer
at_round peer frames n = record peer { channel_open = true; frames = frames; sequence_number = n }

next_number : (start k : ℕ) → fetch_add (number_of start k) ≡ number_of start (suc k)
unfolding fetch_add
next_number start k = omega arith

missed : (n : ℕ) (r : Forwarded) → r ≢ forwarded n → is_alive n r ≡ false
missed n (forwarded m) ne = elim (Bool-cases (m == n)) [
  | inl e ↦ absurd (ne (ap forwarded (ground arith)))
  | inr e ↦ e
]
missed n closed ne = refl
missed n late ne = refl

tick_missed :
    (peer : Peer) (frames : List WriteFrame) (n : ℕ) (r : Forwarded) (rest : List Forwarded)
    → r ≢ forwarded n
    → tick_all (at_round peer frames n) (r ∷ rest)
      ≡ (at_round peer (frames ++ (enquiry_frame n ∷ [])) (fetch_add n), false)
unfolding tick_all
tick_missed peer frames n r rest ne = rw (missed n r ne) refl

tick_answered :
    (peer : Peer) (frames : List WriteFrame) (n : ℕ) (rest : List Forwarded)
    → tick_all (at_round peer frames n) (forwarded n ∷ rest)
      ≡ tick_all (at_round peer (frames ++ (enquiry_frame n ∷ [])) (fetch_add n)) rest
unfolding tick_all
tick_answered peer frames n rest = let e : (n == n) ≡ true = ground arith in rw (e) refl

rounds_from :
    (count start k : ℕ) (peer : Peer) (frames : List WriteFrame) (rest : List Forwarded)
    → tick_all (at_round peer frames (number_of start k)) (all_answered start k count ++ rest)
      ≡ tick_all
          (at_round peer (frames ++ enquiries start k count) (number_of start (k + count)))
          rest
rounds_from zero start k peer frames rest =
    let e : number_of start k ≡ number_of start (k + 0) = omega arith in
    ap (λ fs. tick_all (at_round peer fs (number_of start k)) rest) (sym (append-nil frames))
    ∙ ap (λ n. tick_all (at_round peer (frames ++ []) n) rest) e
rounds_from (suc count) start k peer frames rest =
    let n = number_of start k in
    let e : number_of start (suc k + count) ≡ number_of start (k + suc count) = omega arith in
    let sent = frames ++ (enquiry_frame n ∷ []) in
    tick_answered peer frames n (all_answered start (suc k) count ++ rest)
    ∙ ap (λ m. tick_all (at_round peer sent m) (all_answered start (suc k) count ++ rest))
        (next_number start k)
    ∙ rounds_from count start (suc k) peer sent rest
    ∙ ap (λ m. tick_all (at_round peer (sent ++ enquiries start (suc k) count) m) rest) e
    ∙ ap (λ fs. tick_all (at_round peer fs (number_of start (k + suc count))) rest)
        (append_assoc frames (enquiry_frame n ∷ []) (enquiries start (suc k) count))

rounds_on :
    (count : ℕ) (peer : Peer) (rest : List Forwarded)
    → peer.channel_open ≡ true
    → IsU32 peer.sequence_number
    → let n = peer.sequence_number in
      tick_all peer (all_answered n 0 count ++ rest)
      ≡ tick_all (at_round peer (peer.frames ++ enquiries n 0 count) (number_of n count)) rest
rounds_on count peer rest channel small =
    let n = peer.sequence_number in
    let e : n ≡ number_of n 0 = omega arith in
    let last : number_of n (0 + count) ≡ number_of n count = omega arith in
    ap (λ p. tick_all p (all_answered n 0 count ++ rest))
      (λ i. record peer { channel_open = channel i; sequence_number = e i })
    ∙ rounds_from count n 0 peer peer.frames rest
    ∙ ap (λ m. tick_all (at_round peer (peer.frames ++ enquiries n 0 count) m) rest) last

-- On an open channel, from a counter that is a `u32`, for any number of rounds: as long as each round is
-- forwarded the number of its own enquire_link, the ticker runs on, and has sent one enquire_link a round,
-- under the numbers from the counter on modulo 2^32. The first round that is forwarded anything else, a
-- number of another round, a time-out or the end of its channel, is the last: its own enquire_link is the
-- last that is sent, and whatever came behind it is not looked at.
pub ticks_until_missed :
    (peer : Peer) (count : ℕ) (r : Forwarded) (rest : List Forwarded)
    → peer.channel_open ≡ true
    → IsU32 peer.sequence_number
    → r ≢ forwarded (number_of peer.sequence_number count)
    → let n = peer.sequence_number in
      let sent = peer.frames ++ enquiries n 0 count in
      (tick_all peer (all_answered n 0 count) ≡ (at_round peer sent (number_of n count), true))
      × (tick_all peer (all_answered n 0 count ++ (r ∷ rest)) ≡ (
        at_round peer (sent ++ (enquiry_frame (number_of n count) ∷ [])) (number_of n (suc count)),
        false,
      ))
unfolding tick_all
ticks_until_missed peer count r rest channel small ne =
    let n = peer.sequence_number in
    let rounds = all_answered n 0 count in
    let sent = peer.frames ++ enquiries n 0 count in
    (
      ap (tick_all peer) (sym (append-nil rounds)) ∙ rounds_on count peer [] channel small,
      rounds_on count peer (r ∷ rest) channel small
          ∙ tick_missed peer sent (number_of n count) r rest ne
          ∙ ap (λ m. (at_round peer (sent ++ (enquiry_frame (number_of n count) ∷ [])) m, false))
              (next_number n count),
    )
