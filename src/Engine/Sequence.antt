-- ===== src/Engine/Sequence.antt =====
-- The `AtomicU32` of a session, from which server/mod.rs, server/state.rs and client/mod.rs take their
-- sequence numbers. A server starts at 1, a client at 2, its bind having taken 1.
use smpp.Base.{ℕ, ◌+◌, ◌%◌}

-- What `fetch_add(1)` leaves behind; what it gives is the number before.
unfoldable pub fetch_add : ℕ → ℕ
fetch_add n = (n + 1) % 4294967296
