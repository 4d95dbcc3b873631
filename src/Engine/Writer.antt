-- ===== src/Engine/Writer.antt =====
-- The writer task of server/state.rs and client/mod.rs: a request is registered before its PDU goes on
-- the wire, and taken off again if it could not be written.
use smpp.Base.{
  take-length, ℕ, ◌≡◌, Option, none, some, List, [], ◌∷◌, ◌++◌, arith, Bytes, length, take,
}
use smpp.Server.Pending.{Entry, find, erase, insert, find-insert}
use smpp.Server.State.{Session}
use smpp.Engine.Frame.{WriteFrame, request_frame}

abbrev pub register : Option ℕ → ℕ → Option ℕ → List Entry → List Entry
register none now oneshot pending = pending
register (some n) now oneshot pending =
    insert (record { sequence_number = n; since = now; reply_to = oneshot }) pending

abbrev pub unregister : Option ℕ → List Entry → List Entry
unregister none pending = pending
unregister (some n) pending = erase n pending

-- What `writer.write(&frame.pdu)` gave: the number of bytes that were written, or an error. The number is
-- not looked at.
abbrev pub after_write : Session → WriteFrame → Option ℕ → Session × Bytes
after_write s frame (some count) = (s, take count frame.pdu)
after_write s frame none =
    (record s { pending = unregister frame.our_sequence_number s.pending }, [])

-- One frame: the session, and the bytes that went on the wire.
unfoldable pub write_frame : ℕ → Option ℕ → Session → WriteFrame → Session × Bytes
write_frame now written s frame =
    let s' = record s {
      pending = register frame.our_sequence_number now frame.oneshot s.pending;
    } in
    after_write s' frame written

-- A frame with the time that the writer takes it and what its write gives.
pub record Turn : Type 0 where
  pub frame : WriteFrame
  pub now : ℕ
  pub written : Option ℕ

-- The task's loop over the frames that it receives while the session is alive.
unfoldable pub write_all : Session → List Turn → Session × Bytes
unfolding write_frame
write_all s [] = (s, [])
write_all s (t ∷ ts) =
    let (s', bytes) = write_frame t.now t.written s t.frame in
    let (s'', more) = write_all s' ts in (s'', bytes ++ more)

-- The session in which a request is pending.
abbrev pub with_pending : ℕ → ℕ → Option ℕ → Session → Session
with_pending now n oneshot s = record s { pending = register (some n) now oneshot s.pending }

module _ (now n : ℕ) (s : Session) (pdu : Bytes) (oneshot : Option ℕ) where
  pub write_frame_whole :
      write_frame now (some (length pdu)) s (request_frame n pdu oneshot)
      ≡ (with_pending now n oneshot s, pdu)
  unfolding write_frame
  write_frame_whole = rw (take-length pdu)

  pub find-with_pending :
      find n (with_pending now n oneshot s).pending
      ≡ some (record { sequence_number = n; since = now; reply_to = oneshot })
  find-with_pending =
      let entry : Entry = record { sequence_number = n; since = now; reply_to = oneshot } in
      ground (arith, find-insert entry n s.pending)
