-- ===== src/Server/ReadLoop.antt =====
-- server/state.rs, `read_loop`: the loop that frames PDUs off the read buffer and handles them, and the
-- sweep of timed-out requests behind it. The loop is over any handler of one PDU; `Session.handle_pdu`
-- is the server's. The buffer is given from `cursor` on, and every round moves on by sixteen bytes at
-- least, so one round more than there are bytes is enough fuel.
pub mod Framed
pub mod Chunks
pub mod Sweep
use smpp.Base.{ℕ, zero, suc, ◌++◌, List, Bytes, length, take, drop, ltb, ◌||◌, if◌then◌else◌}
use smpp.Nom.{Nom}
use smpp.Common.Words.{be_u32_at}
use smpp.Common.Framing.{Framing, incomplete, complete, invalid}
use smpp.Common.Wire.{max_pdu_len}
use smpp.Commands.HeaderOnly.{HeaderOnly}
use smpp.Server.Pending.{retain, timed_out}
use smpp.Server.State.{Session, Flow, go_on, writer_dead, unbound, panicked}
use smpp.Server.Session.{handle_pdu}

-- The tests in front of the handler: the loop's own condition, the bounds on the length, and the
-- whole PDU being there.
unfoldable pub next_pdu : Bytes → Framing
next_pdu buffer =
    if ltb (length buffer) 16
    then incomplete
    else let pdu_length = be_u32_at buffer 0 in
      if ltb pdu_length 16 || ltb max_pdu_len pdu_length
      then invalid pdu_length
      else if ltb (length buffer) pdu_length
      then incomplete
      else complete pdu_length

-- `break` leaves the PDU in the buffer; otherwise the loop goes on behind it.
abbrev pub proceed {ℓ} :
    {S : Type ℓ} → (S → S × (Bytes × Flow)) → Bytes → S × Flow → S × (Bytes × Flow)
proceed next buffer (s, go_on) = next s
proceed next buffer (s, writer_dead) = (s, (buffer, writer_dead))
proceed next buffer (s, unbound) = (s, (buffer, unbound))
proceed next buffer (s, panicked) = (s, (buffer, panicked))

-- What a round does, by how the front of the buffer was framed.
abbrev pub round {ℓ} :
    {S : Type ℓ}
    → (S → Bytes → S × Flow)
    → (S → Bytes → S × (Bytes × Flow))
    → S
    → Bytes
    → Framing
    → S × (Bytes × Flow)
round handle next s buffer incomplete = (s, (buffer, go_on))
round handle next s buffer (invalid _) = (s, (buffer, writer_dead))
round handle next s buffer (complete n) =
    proceed (λ t. next t (drop n buffer)) buffer (handle s (take n buffer))

unfoldable pub drain {ℓ} :
    {S : Type ℓ} → (S → Bytes → S × Flow) → ℕ → S → Bytes → S × (Bytes × Flow)
drain handle zero s buffer = (s, (buffer, go_on))
drain handle (suc fuel) s buffer = round handle (drain handle fuel) s buffer (next_pdu buffer)

-- What one read's loop makes of the buffer.
unfoldable pub drain_buffer {ℓ} :
    {S : Type ℓ} → (S → Bytes → S × Flow) → S → Bytes → S × (Bytes × Flow)
unfolding drain
drain_buffer handle s buffer = drain handle (suc (length buffer)) s buffer

-- "Last thing to do is general time-out detection".
unfoldable pub sweep : ℕ → Session → Session
sweep now s = record s {
  pending = retain now s.response_timer s.pending;
  timeouts = s.timeouts ++ timed_out now s.response_timer s.pending;
}

abbrev pub sweep_after : ℕ → Session × (Bytes × Flow) → Session × (Bytes × Flow)
sweep_after now (s, (rest, go_on)) = (sweep now s, (rest, go_on))
sweep_after now (s, (rest, f)) = (s, (rest, f))

-- One read of the socket that gave bytes.
unfoldable pub on_read :
    Nom → (HeaderOnly → HeaderOnly) → ℕ → Session → Bytes → Bytes → Session × (Bytes × Flow)
unfolding sweep drain_buffer
on_read nom on_unbind now s buffer more =
    sweep_after now (drain_buffer (handle_pdu nom on_unbind now) s (buffer ++ more))
