-- ===== src/Server/ReadLoop/Sweep.antt =====
-- The time-out detection of server/state.rs: what it takes off the map, and whom it tells.
use smpp.Base.{
  ℕ, ◌≡◌, refl, Bool, true, false, none, some, List, [], ◌∷◌, ◌++◌, arith, ◌||◌, ◌==◌,
  if◌then◌else◌, Bool-cases, inl, inr,
}
use smpp.Server.Pending.{Entry, find, lapsed, retain, timed_out}
use smpp.Server.State.{Session}
use smpp.Server.ReadLoop.{sweep}

-- A map has an entry at most for each number.
abbrev pub IsMap : List Entry → Type 0
IsMap [] = Unit
IsMap (e ∷ es) = (find e.sequence_number es ≡ none) × IsMap es

-- Being on the list of timed-out numbers.
unfoldable pub told : ℕ → List ℕ → Bool
told n [] = false
told n (m ∷ ms) = m == n || told n ms

told-append : (n : ℕ) (ms ms' : List ℕ) → told n (ms ++ ms') ≡ (told n ms || told n ms')
unfolding told
told-append n [] ms' = refl
told-append n (m ∷ ms) ms' = ground (arith, told-append n ms ms')

module _ (now timer : ℕ) where
  find-retain-none :
      (n : ℕ) (es : List Entry) → find n es ≡ none → find n (retain now timer es) ≡ none
  unfolding find retain
  find-retain-none n [] h = refl
  find-retain-none n (e ∷ es) h = ground (arith, find-retain-none n es)

  find-retain_kept :
      (n : ℕ) (es : List Entry) (e : Entry)
      → find n es ≡ some e
      → lapsed now timer e ≡ false
      → find n (retain now timer es) ≡ some e
  unfolding find retain
  find-retain_kept n [] e h l = h
  find-retain_kept n (d ∷ es) e h l = ground (arith, find-retain_kept n es e)

  find-retain-lapsed :
      (n : ℕ) (es : List Entry) (e : Entry)
      → IsMap es
      → find n es ≡ some e
      → lapsed now timer e ≡ true
      → find n (retain now timer es) ≡ none
  unfolding find retain
  find-retain-lapsed n [] e m h l = refl
  find-retain-lapsed n (d ∷ es) e (m, ms) h l =
      ground (arith, find-retain-lapsed n es e ms, find-retain-none n es)

  told-timed_out :
      (n : ℕ) (es : List Entry) (e : Entry)
      → find n es ≡ some e
      → lapsed now timer e ≡ true
      → told n (timed_out now timer es) ≡ true
  unfolding find timed_out told
  told-timed_out n [] e h l = cc
  told-timed_out n (d ∷ es) e h l = ground (arith, told-timed_out n es e)

  told-timed_out-none :
      (n : ℕ) (es : List Entry) → find n es ≡ none → told n (timed_out now timer es) ≡ false
  unfolding find timed_out told
  told-timed_out-none n [] h = refl
  told-timed_out-none n (d ∷ es) h = ground (arith, told-timed_out-none n es)

  told-timed_out_kept :
      (n : ℕ) (es : List Entry) (e : Entry)
      → IsMap es
      → find n es ≡ some e
      → lapsed now timer e ≡ false
      → told n (timed_out now timer es) ≡ false
  unfolding find timed_out told
  told-timed_out_kept n [] e m h l = refl
  told-timed_out_kept n (d ∷ es) e (m, ms) h l =
      ground (arith, told-timed_out_kept n es e ms, told-timed_out-none n es)

-- After the sweep, a pending request that had lapsed is no longer pending and is reported to
-- `on_timeout`; one that had not is still pending, and is not reported anew.
pub sweep_reports :
    (now : ℕ) (s : Session) (n : ℕ) (e : Entry)
    → IsMap s.pending
    → find n s.pending ≡ some e
    → let late = lapsed now s.response_timer e in
      (find n (sweep now s).pending ≡ (if late then none else some e))
      × (told n (sweep now s).timeouts ≡ (late || told n s.timeouts))
unfolding sweep
sweep_reports now s n e m h = elim (Bool-cases (lapsed now s.response_timer e)) [
  | inl l ↦ simp (l) (
    find-retain-lapsed now s.response_timer n s.pending e m h l,
    ground (
      arith,
      told-append n s.timeouts (timed_out now s.response_timer s.pending),
      told-timed_out now s.response_timer n s.pending e h l,
    ),
  )
  | inr l ↦ simp (l) (
    find-retain_kept now s.response_timer n s.pending e h l,
    ground (
      arith,
      told-append n s.timeouts (timed_out now s.response_timer s.pending),
      told-timed_out_kept now s.response_timer n s.pending e m h l,
    ),
  )
]
