-- ===== src/Server/Handle/Answers.antt =====
-- The response of a pending request (server/state.rs and client/mod.rs): in time, late, and unknown.
use smpp.Base.{ℕ, ◌≡◌, true, false, none, some, arith, Result, ok}
use smpp.Common.Error.{SmppError}
use smpp.Server.Pending.{Entry, find, erase, lapsed}
use smpp.Server.State.{Session, Reply, Flow, go_on}
use smpp.Server.Handle.{handle_response, time_out, deliver}

module _ (now n : ℕ) (refused : SmppError → Session → Session × Flow) (s : Session) where
  -- In time: the reply goes to the caller of that entry, and the entry is gone.
  pub handle_response_in_time :
      (entry : Entry) (reply : Reply)
      → find n s.pending ≡ some entry
      → lapsed now s.response_timer entry ≡ false
      → handle_response now n refused (ok reply) s
        ≡ (deliver entry.reply_to reply (record s { pending = erase n s.pending }), go_on)
  unfolding handle_response
  handle_response_in_time entry reply f l = ground arith

  pub handle_response_late :
      (decoded : Result SmppError Reply) (entry : Entry)
      → find n s.pending ≡ some entry
      → lapsed now s.response_timer entry ≡ true
      → handle_response now n refused decoded s
        ≡ (time_out (record s { pending = erase n s.pending }) n, go_on)
  unfolding handle_response
  handle_response_late decoded entry f l = ground arith

  pub handle_response_unknown :
      (decoded : Result SmppError Reply)
      → find n s.pending ≡ none
      → handle_response now n refused decoded s ≡ (s, go_on)
  unfolding handle_response
  handle_response_unknown decoded f = ground arith
