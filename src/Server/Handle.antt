-- ===== src/Server/Handle.antt =====
-- What a bound session does with a PDU once its branch is taken: the shapes that the branches of
-- `read_loop` in server/state.rs and of the read loop in client/mod.rs share.
pub mod Steps
pub mod Answers
pub mod Survives
use smpp.Base.{
  ℕ, true, Option, none, some, [], ◌∷◌, ◌++◌, Bytes, length, leb, if◌then◌else◌, Result, ok, err,
  panic,
}
use smpp.Common.Error.{SmppError}
use smpp.Common.Words.{be_u32_at}
use smpp.Commands.HeaderOnly
use smpp.Commands.HeaderOnly.{HeaderOnly}
use smpp.Commands.SubmitSm.Response as SubmitResp
use smpp.Server.Pending.{Entry, find, erase, lapsed}
use smpp.Server.State.{
  Reply, Task, Session, Flow, go_on, unbound, panicked, send, send_or_stop, spawn,
}

-- A decoded request goes to a new task; one that cannot be decoded is answered with `reject`.
unfoldable pub handle_request {ℓ} :
    {A : Type ℓ} → (A → Task) → (SmppError → Bytes) → Result SmppError A → Session → Session × Flow
unfolding spawn send_or_stop
handle_request task reject (ok request) s = (spawn s (task request), go_on)
handle_request task reject (err error) s = send_or_stop s (reject error)
handle_request task reject panic s = (s, panicked)

abbrev pub deliver : Option ℕ → Reply → Session → Session
deliver none reply s = s
deliver (some channel) reply s = record s { replies = s.replies ++ ((channel, reply) ∷ []) }

unfoldable pub time_out : Session → ℕ → Session
time_out s n = record s { timeouts = s.timeouts ++ (n ∷ []) }

-- A response in time: what its decoder gave goes to the caller; what it refused is answered by
-- `refused`.
abbrev pub complete :
    Option ℕ
    → (SmppError → Session → Session × Flow)
    → Result SmppError Reply
    → Session
    → Session × Flow
complete channel refused (ok reply) s = (deliver channel reply s, go_on)
complete channel refused (err error) s = refused error s
complete channel refused panic s = (s, panicked)

-- What becomes of a response, by the entry that was found for its number.
abbrev pub answer_entry :
    ℕ
    → ℕ
    → (SmppError → Session → Session × Flow)
    → Result SmppError Reply
    → Session
    → Option Entry
    → Session × Flow
answer_entry now n refused decoded s none = (s, go_on)
answer_entry now n refused decoded s (some entry) =
    let s' = record s { pending = erase n s.pending } in
    if lapsed now s.response_timer entry
    then (time_out s' n, go_on)
    else complete entry.reply_to refused decoded s'

-- The shape of the branches for deliver_sm_resp, data_sm_resp and generic_nack.
unfoldable pub handle_response :
    ℕ
    → ℕ
    → (SmppError → Session → Session × Flow)
    → Result SmppError Reply
    → Session
    → Session × Flow
unfolding time_out
handle_response now n refused decoded s = answer_entry now n refused decoded s (find n s.pending)

abbrev pub as_reply {ℓ} : {A : Type ℓ} → (A → Reply) → Result SmppError A → Result SmppError Reply
as_reply f (ok a) = ok (f a)
as_reply f (err e) = err e
as_reply f panic = panic

abbrev pub close_enquiry : ℕ → ℕ → Session → Option Entry → Session × Flow
close_enquiry now n s none = (s, go_on)
close_enquiry now n s (some entry) =
    let s' = record s { pending = erase n s.pending } in
    (if lapsed now s.response_timer entry then time_out s' n else s', go_on)

-- The branch for enquire_link_resp: the ticker is told, and the entry is taken off.
unfoldable pub handle_enquire_link_resp : ℕ → ℕ → Session → Session × Flow
unfolding time_out
handle_enquire_link_resp now n s =
    close_enquiry now n (record s { enquire_link_resps = s.enquire_link_resps ++ (n ∷ []) })
      (find n s.pending)

-- The branch for enquire_link.
unfoldable pub handle_enquire_link : ℕ → Result SmppError HeaderOnly → Session → Session × Flow
unfolding send_or_stop
handle_enquire_link n (ok p) s =
    send_or_stop s (HeaderOnly.encode (HeaderOnly.enquire_link_accept p))
handle_enquire_link n (err error) s =
    send_or_stop s (SubmitResp.encode (SubmitResp.generic_reject n error))
handle_enquire_link n panic s = (s, panicked)

-- The branch for unbind, with the listener's `on_unbind`.
unfoldable pub handle_unbind :
    (HeaderOnly → HeaderOnly) → ℕ → Result SmppError HeaderOnly → Session → Session × Flow
unfolding send
handle_unbind on_unbind n decoded s =
    let s' = record s { ticker_aborted = true } in
    elim decoded [
      | ok p ↦ (send s' (HeaderOnly.encode (on_unbind p)), unbound)
      | err error ↦
          (send s' (HeaderOnly.encode (HeaderOnly.unbind_generic_reject n error)), unbound)
      | panic ↦ (s', panicked)
    ]

-- `potential_seq_no`
abbrev pub potential_seq_no : Bytes → ℕ
potential_seq_no pdu = if leb 16 (length pdu) then be_u32_at pdu 12 else 0

abbrev pub submit_reject : ℕ → SmppError → Bytes
submit_reject n error = SubmitResp.encode (SubmitResp.generic_reject n error)

abbrev pub refuse_by_submit : ℕ → SmppError → Session → Session × Flow
refuse_by_submit n error s = send_or_stop s (submit_reject n error)
