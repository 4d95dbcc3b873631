-- ===== src/Engine/Rounds/Silence.antt =====
-- The inactivity timer of server/state.rs and client/mod.rs.
use smpp.Base.{
  Bool-cases, inl, inr, ℕ, ◌-◌, ◌<◌, ◌≡◌, Bool, true, false, List, [], ◌∷◌, ◌++◌, arith, Bytes, ltb,
  All, if◌then◌else◌,
}
use smpp.Server.State.{Session, Flow}
use smpp.Engine.Rounds.{after_writes, timed_out, Turn, Loop, run, turn}

-- Turns in which nothing is read.
abbrev pub IsSilent : Turn → Type 0
IsSilent t = t.read ≡ timed_out

module _ (handle : ℕ → Session → Bytes → Session × Flow) (inactivity_timer : ℕ) where
  -- Whether the loop goes on behind a turn in which nothing is read.
  abbrev stays : Loop → Turn → Bool
  stays l t =
      if t.alive
      then (if t.ticker_finished
          then false
          else if ltb inactivity_timer (t.now - l.last_read)
          then false
          else true)
      else false

  turn-IsSilent :
      (l : Loop) (t : Turn)
      → IsSilent t
      → turn handle inactivity_timer l t ≡ (after_writes l t.writes, stays l t)
  unfolding turn
  turn-IsSilent l t quiet = elim (Bool-cases t.alive) [
    | inr a ↦ simp (a, quiet)
    | inl a ↦ elim (Bool-cases t.ticker_finished) [
      | inl f ↦ simp (a, f, quiet)
      | inr f ↦ elim (Bool-cases (ltb inactivity_timer (t.now - l.last_read))) [
        | inl b ↦ simp (a, f, quiet, b)
        | inr b ↦ simp (a, f, quiet, b)
      ]
    ]
  ]

  too_late : (l : Loop) (t : Turn) → inactivity_timer < t.now - l.last_read → stays l t ≡ false
  too_late l t h = ground arith

  -- If nothing is read, the loop has ended after the first turn that comes later than the inactivity
  -- timer allows, whatever the turns before it were.
  pub run-IsSilent :
      (ts : List Turn) (l : Loop) (t : Turn)
      → All IsSilent ts
      → IsSilent t
      → inactivity_timer < t.now - l.last_read
      → (run handle inactivity_timer l (ts ++ (t ∷ []))).1 ≡ false
  unfolding run
  run-IsSilent [] l t quiet q late = rw (turn-IsSilent l t q, too_late l t late)
  run-IsSilent (u ∷ ts) l t (v, quiet) q late = elim (Bool-cases (stays l u)) [
    | inl b ↦ rw (turn-IsSilent l u v, b) (run-IsSilent ts (after_writes l u.writes) t quiet q late)
    | inr b ↦ rw (turn-IsSilent l u v, b)
  ]
