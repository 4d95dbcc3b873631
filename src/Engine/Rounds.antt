-- ===== src/Engine/Rounds.antt =====
-- The outer loop of `read_loop` in server/state.rs and of `start` in client/mod.rs: reads under a short
-- timeout, and the timers that end a session. It is over the handler of one PDU of either side.
pub mod Silence
pub mod CaughtUp
use smpp.Base.{ℕ, ◌-◌, Bool, true, false, List, [], ◌∷◌, ◌++◌, Bytes, ltb, if◌then◌else◌}
use smpp.Server.State.{Session, Flow, go_on}
use smpp.Engine.Writer
use smpp.Engine.Writer.{write_all}
use smpp.Server.ReadLoop.{drain_buffer, sweep}

-- What `timeout(read_timeout, reader.read_buf(&mut buffer))` gives.
pub data Read : Type 0 where
  -- The bytes of it; none at the end of the stream.
  got : Bytes → Read
  failed : Read
  timed_out : Read

-- One turn of the loop: what the writer task did since the turn before, the read, the time, and what the loop sees of its surroundings.
pub record Turn : Type 0 where
  pub writes : List Writer.Turn
  pub read : Read
  pub now : ℕ
  -- The client's `while alive`; the server's loop has no such test.
  pub alive : Bool
  -- `enquire_link_ticker.is_finished()`
  pub ticker_finished : Bool

pub record Loop : Type 0 where
  pub session : Session
  pub buffer : Bytes
  pub last_read : ℕ

-- The writer task shares the map of pending requests.
abbrev pub after_writes : Loop → List Writer.Turn → Loop
after_writes l writes = record l { session = (write_all l.session writes).0 }

-- The buffer was gone through: a loop that goes on has read, and sweeps.
abbrev pub after_drain : ℕ → Loop → Session × (Bytes × Flow) → Loop × Bool
after_drain now l (s, (rest, go_on)) =
    (record { session = sweep now s; buffer = rest; last_read = now }, true)
after_drain now l (s, (rest, f)) =
    (record { session = s; buffer = rest; last_read = l.last_read }, false)

-- The tests behind a read that did not end the loop.
abbrev pub check_timers : ℕ → Turn → Loop × Bool → Loop × Bool
check_timers inactivity_timer t (l, false) = (l, false)
check_timers inactivity_timer t (l, true) =
    if t.ticker_finished
    then (l, false)
    else if ltb inactivity_timer (t.now - l.last_read)
    then (l, false)
    else (l, true)

module _ (handle : ℕ → Session → Bytes → Session × Flow) where
  abbrev pub on_read : Loop → ℕ → Read → Loop × Bool
  on_read l now (got []) = (l, false)
  on_read l now (got (b ∷ bs)) =
      after_drain now l (drain_buffer (handle now) l.session (l.buffer ++ (b ∷ bs)))
  on_read l now failed = (l, false)
  on_read l now timed_out = (l, true)

  -- One turn, and whether there is another.
  unfoldable pub turn : ℕ → Loop → Turn → Loop × Bool
  unfolding sweep drain_buffer write_all
  turn inactivity_timer l t =
      let l' = after_writes l t.writes in
      if t.alive then check_timers inactivity_timer t (on_read l' t.now t.read) else (l', false)

  -- The turns of a session, until one ends it, and whether it is still running.
  unfoldable pub run : ℕ → Loop → List Turn → Loop × Bool
  unfolding turn
  run inactivity_timer l [] = (l, true)
  run inactivity_timer l (t ∷ ts) =
      let (l', running) = turn inactivity_timer l t in
      let rest = run inactivity_timer l' ts in if running then rest else (l', false)
