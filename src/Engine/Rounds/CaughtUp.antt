-- ===== src/Engine/Rounds/CaughtUp.antt =====
-- The outer loop of server/state.rs and client/mod.rs behind a read: what it leaves for the next turn.
use smpp.Base.{
  ℕ, ◌≡◌, ◌≢◌, refl, sym, ap, ◌∙◌, Bool, true, false, inl, inr, Bool-cases, if◌then◌else◌, List, [],
  ◌∷◌, ◌++◌, Bytes, All,
}
use mathlib.Core.Path.{subst}
use smpp.Common.Framing.{frame_first_pdu, incomplete}
use smpp.Common.Wire.{max_pdu_len}
use smpp.Server.Pending.{Entry, lapsed, retain}
use smpp.Server.State.{Session, Flow, go_on, writer_dead, unbound, panicked}
use smpp.Server.ReadLoop.{drain_buffer, sweep}
use smpp.Server.ReadLoop.Framed.{
  Drains, Ends, ends_dead, ends_unbound, ends_panicked, drain_buffer_total,
}
use smpp.Engine.Rounds.{
  got, Turn, Loop, after_writes, after_drain, check_timers, on_read, turn, run,
}

-- No whole PDU, and none with a bad length, is left in the buffer; no pending request is older than the
-- response timer allows; and the inactivity timer starts anew.
pub record IsCaughtUp (now : ℕ) (l : Loop) : Type 0 where
  pub unfinished : frame_first_pdu l.buffer max_pdu_len ≡ incomplete
  pub fresh : All (λ e. lapsed now l.session.response_timer e ≡ false) l.session.pending
  pub read_now : l.last_read ≡ now

Ends-flow : {f : Flow} → Ends f → f ≢ go_on
Ends-flow ends_dead = λ q. cc
Ends-flow ends_unbound = λ q. cc
Ends-flow ends_panicked = λ q. cc

Drains-rest {ℓ} :
    {S : Type ℓ} {handle : S → Bytes → S × Flow} {s t : S} {b rest : Bytes} {f : Flow}
    → Drains handle s b t rest f
    → f ≡ go_on
    → frame_first_pdu rest max_pdu_len ≡ incomplete
Drains-rest (Drains.waits e) q = e
Drains-rest (Drains.refuses n e) q = cc
Drains-rest (Drains.goes_on n e g d) q = Drains-rest d q
Drains-rest (Drains.stops n e g x) q = absurd (Ends-flow x q)

drain_buffer-rest {ℓ} :
    {S : Type ℓ} (handle : S → Bytes → S × Flow) (s : S) (b : Bytes)
    → (drain_buffer handle s b).1.1 ≡ go_on
    → frame_first_pdu (drain_buffer handle s b).1.0 max_pdu_len ≡ incomplete
drain_buffer-rest handle s b q =
    let (t, (rest, (f, (d, e)))) = drain_buffer_total handle s b in
    let same : f ≡ go_on = ap (λ r. r.1.1) (sym e) ∙ q in
    ap (λ r. frame_first_pdu r.1.0 max_pdu_len) e ∙ Drains-rest d same

retain-fresh :
    (now timer : ℕ) (es : List Entry) → All (λ e. lapsed now timer e ≡ false) (retain now timer es)
unfolding retain
retain-fresh now timer [] = tt
retain-fresh now timer (e ∷ es) = elim (Bool-cases (lapsed now timer e)) [
  | inl l ↦ simp (l) (retain-fresh now timer es)
  | inr l ↦ simp (l) ((refl, retain-fresh now timer es))
]

after_drain-IsCaughtUp :
    (now : ℕ) (l : Loop) (x : Session × (Bytes × Flow))
    → (x.1.1 ≡ go_on → frame_first_pdu x.1.0 max_pdu_len ≡ incomplete)
    → (after_drain now l x).1 ≡ true
    → IsCaughtUp now (after_drain now l x).0
unfolding sweep
after_drain-IsCaughtUp now l (s, (rest, go_on)) h q = record {
  unfinished = h refl;
  fresh = retain-fresh now s.response_timer s.pending;
  read_now = refl;
}
after_drain-IsCaughtUp now l (s, (rest, writer_dead)) h q = cc
after_drain-IsCaughtUp now l (s, (rest, unbound)) h q = cc
after_drain-IsCaughtUp now l (s, (rest, panicked)) h q = cc

-- What went on has taken the branch that can go on.
went_on :
    (b : Bool) (x : Loop × Bool) (l : Loop)
    → (if b then x else (l, false)).1 ≡ true
    → (b ≡ true) × ((x.1 ≡ true) × ((if b then x else (l, false)).0 ≡ x.0))
went_on true x l q = (refl, (q, refl))
went_on false x l q = cc

either_way :
    (b c : Bool) (l : Loop)
    → let stop : Loop × Bool = (l, false) in
      let go : Loop × Bool = (l, true) in (if b then stop else if c then stop else go).0 ≡ l
either_way true c l = refl
either_way false true l = refl
either_way false false l = refl

-- A loop that goes on behind the timers went on in front of them.
check_timers_lem :
    (inactivity_timer : ℕ) (t : Turn) (x : Loop × Bool)
    → (check_timers inactivity_timer t x).1 ≡ true
    → (x.1 ≡ true) × ((check_timers inactivity_timer t x).0 ≡ x.0)
check_timers_lem inactivity_timer t (l, false) q = cc
check_timers_lem inactivity_timer t (l, true) q = (refl, either_way _ _ l)

module _ (handle : ℕ → Session → Bytes → Session × Flow) (inactivity_timer : ℕ) where
  turn-IsCaughtUp :
      (l : Loop) (t : Turn) (b : ℕ) (bs : Bytes)
      → t.read ≡ got (b ∷ bs)
      → (turn handle inactivity_timer l t).1 ≡ true
      → IsCaughtUp t.now (turn handle inactivity_timer l t).0
  unfolding turn
  turn-IsCaughtUp l t b bs r q =
      let l' = after_writes l t.writes in
      let read = on_read handle l' t.now t.read in
      let drained = drain_buffer (handle t.now) l'.session (l'.buffer ++ (b ∷ bs)) in
      let (_, (q', e)) = went_on t.alive (check_timers inactivity_timer t read) l' q in
      let (q'', e') = check_timers_lem inactivity_timer t read q' in
      let e'' = ap (on_read handle l' t.now) r in
      subst (IsCaughtUp t.now) (sym (e ∙ e' ∙ ap (λ x. x.0) e'')) (
        after_drain-IsCaughtUp t.now l' drained
          (drain_buffer-rest (handle t.now) l'.session (l'.buffer ++ (b ∷ bs)))
          (sym (ap (λ x. x.1) e'') ∙ q''))

  -- A loop of a session that is still going behind a turn that read bytes, whatever the turns before it
  -- were, has caught up: it has no PDU left in its buffer that it could handle, no request pending for
  -- longer than the response timer, and its inactivity timer starts anew.
  pub run-IsCaughtUp :
      (ts : List Turn) (l : Loop) (t : Turn) (b : ℕ) (bs : Bytes)
      → t.read ≡ got (b ∷ bs)
      → (run handle inactivity_timer l (ts ++ (t ∷ []))).1 ≡ true
      → IsCaughtUp t.now (run handle inactivity_timer l (ts ++ (t ∷ []))).0
  unfolding run
  run-IsCaughtUp [] l t b bs r q =
      let (l', running) = turn handle inactivity_timer l t in
      let (q', (_, e)) = went_on running (l', true) l' q in
      subst (IsCaughtUp t.now) (sym e) (turn-IsCaughtUp l t b bs r q')
  run-IsCaughtUp (u ∷ ts) l t b bs r q =
      let (l', running) = turn handle inactivity_timer l u in
      let (_, (q', e)) = went_on running (run handle inactivity_timer l' (ts ++ (t ∷ []))) l' q in
      subst (IsCaughtUp t.now) (sym e) (run-IsCaughtUp ts l' t b bs r q')
