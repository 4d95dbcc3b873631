-- ===== src/Server/Pending.antt =====
-- The map `pending_requests` of server/state.rs: the requests that were sent to the peer and wait for
-- a response, by sequence number. A `HashMap` is a list of entries with no key twice; its order is
-- not looked at.
use smpp.Base.{
  ℕ, ◌-◌, ◌≡◌, Bool, Option, none, some, List, [], ◌∷◌, arith, ltb, ◌==◌, if◌then◌else◌,
}

pub record Entry : Type 0 where
  pub sequence_number : ℕ
  -- The `Instant`, in milliseconds of one clock.
  pub since : ℕ
  -- The oneshot channel of the caller, by a name that is used once.
  pub reply_to : Option ℕ

-- `guard.remove(&n)`: the entry, and the map without it.
unfoldable pub find : ℕ → List Entry → Option Entry
find n [] = none
find n (e ∷ es) = if e.sequence_number == n then some e else find n es

unfoldable pub erase : ℕ → List Entry → List Entry
erase n [] = []
erase n (e ∷ es) = if e.sequence_number == n then erase n es else e ∷ erase n es

-- `insert`, which replaces the entry of that key.
unfoldable pub insert : Entry → List Entry → List Entry
unfolding erase
insert e es = e ∷ erase e.sequence_number es

-- `time.elapsed() > response_timer`; `elapsed` is 0 where the clock stands before `since`.
abbrev pub lapsed : ℕ → ℕ → Entry → Bool
lapsed now response_timer e = ltb response_timer (now - e.since)

-- `retain`: what stays, and the sequence numbers that timed out.
unfoldable pub retain : ℕ → ℕ → List Entry → List Entry
retain now timer [] = []
retain now timer (e ∷ es) =
    if lapsed now timer e then retain now timer es else e ∷ retain now timer es

unfoldable pub timed_out : ℕ → ℕ → List Entry → List ℕ
timed_out now timer [] = []
timed_out now timer (e ∷ es) =
    if lapsed now timer e
    then e.sequence_number ∷ timed_out now timer es
    else timed_out now timer es

pub find-erase :
    (n m : ℕ) (es : List Entry) → find m (erase n es) ≡ (if n == m then none else find m es)
unfolding find erase
find-erase n m [] = ground arith
find-erase n m (e ∷ es) = ground (arith, find-erase n m es)

pub find-insert :
    (e : Entry) (m : ℕ) (es : List Entry)
    → find m (insert e es) ≡ (if e.sequence_number == m then some e else find m es)
unfolding insert find
find-insert e m es = ground (arith, find-erase e.sequence_number m es)

-- What is found has the number that was asked for.
pub find_number : (n : ℕ) (es : List Entry) (e : Entry) → find n es ≡ some e → e.sequence_number ≡ n
unfolding find
find_number n [] e h = cc
find_number n (d ∷ es) e h = ground (arith, find_number n es e)
