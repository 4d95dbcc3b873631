-- ===== src/Engine/Request.antt =====
-- The requests that a caller sends on a session: the part that the `send_*` functions of `ESME`
-- (server/mod.rs) and `SMSC` (client/mod.rs) share.
use smpp.Base.{
  ℕ, ◌+◌, Bool, Option, none, some, List, [], ◌∷◌, ◌++◌, Bytes, if◌then◌else◌, Result, ok, err,
  panic,
}
use smpp.Common.Error.{SmppError, FromPrimitive, esme_rsyserr}
use smpp.Commands.HeaderOnly.{get_error}
use smpp.Server.State.{Reply, nack_reply}
use smpp.Engine.Sequence.{fetch_add}
use smpp.Engine.Frame.{WriteFrame, request_frame}

-- What `ESME` and `SMSC` hold of their session.
pub record Peer : Type 0 where
  -- `can_receive` and `can_send`.
  pub allowed : Bool
  -- Whether `tx_channel` has its receiver.
  pub channel_open : Bool
  -- The frames that were sent into `tx_channel`, in order.
  pub frames : List WriteFrame
  -- The session's `AtomicU32`.
  pub sequence_number : ℕ
  -- The name of the next oneshot channel.
  pub next_channel : ℕ

-- How far a call comes before it waits for its response.
pub data Call : Type 0 where
  -- A panic, on a binding of the wrong direction or by an assertion.
  refused : Peer → Call
  -- `tx_channel` is closed.
  not_sent : Peer → Call
  -- It waits on that channel.
  waiting : Peer → ℕ → Call

-- The number is taken, and the frame is sent, if its PDU could be built. No `new` returns an error: what it refuses, it panics on.
abbrev pub send_frame : Peer → Result SmppError Bytes → Call
send_frame peer (ok pdu) =
    let n = peer.sequence_number in
    let taken = record peer {
      sequence_number = fetch_add n;
      next_channel = peer.next_channel + 1;
    } in
    if peer.channel_open
    then waiting
        (record taken {
          frames = peer.frames ++ (request_frame n pdu (some peer.next_channel) ∷ []);
        })
        peer.next_channel
    else not_sent taken
send_frame peer (err e) = refused (record peer { sequence_number = fetch_add peer.sequence_number })
send_frame peer panic = refused (record peer { sequence_number = fetch_add peer.sequence_number })

-- A request: `pdu` is what is sent under a sequence number.
unfoldable pub request : Peer → (ℕ → Result SmppError Bytes) → Call
request peer pdu = send_frame peer (pdu peer.sequence_number)

-- A request that the binding must allow.
unfoldable pub guarded_request : Peer → (ℕ → Result SmppError Bytes) → Call
unfolding request
guarded_request peer pdu = if peer.allowed then request peer pdu else refused peer

-- What `new` built is sent on; what it refuses is a panic.
abbrev pub with_built {ℓ} : {A : Type ℓ} → Peer → Result SmppError A → (A → Call) → Call
with_built peer (ok a) k = k a
with_built peer (err e) k = refused peer
with_built peer panic k = refused peer

-- What `timeout(response_timer, rx)` gives, whose time runs from before the writer takes the frame.
pub data Answer : Type 0 where
  answered : Reply → Answer
  -- The sender of the oneshot channel was dropped.
  dropped : Answer
  elapsed : Answer

-- A response of the type that is asked for, a generic_nack, or any other.
abbrev pub take_reply {ℓ} : {A : Type ℓ} → FromPrimitive → Option A → Reply → Result SmppError A
take_reply derived (some a) reply = ok a
take_reply derived none (nack_reply p) = err (get_error derived p)
take_reply derived none reply = err esme_rsyserr

abbrev pub await_reply {ℓ} :
    {A : Type ℓ} → FromPrimitive → (Reply → Option A) → Answer → Result SmppError A
await_reply derived downcast (answered reply) = take_reply derived (downcast reply) reply
await_reply derived downcast dropped = err esme_rsyserr
await_reply derived downcast elapsed = err esme_rsyserr

-- What the caller gets in the end.
abbrev pub finish {ℓ} :
    {A : Type ℓ} → FromPrimitive → (Reply → Option A) → Call → Answer → Result SmppError A
finish derived downcast (refused peer) answer = panic
finish derived downcast (not_sent peer) answer = err esme_rsyserr
finish derived downcast (waiting peer channel) answer = await_reply derived downcast answer
