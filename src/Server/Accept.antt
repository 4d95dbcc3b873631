-- ===== src/Server/Accept.antt =====
-- server/mod.rs, the task of one connection: what the first PDU of a peer leads to. The listener's
-- `on_bind_receiver`, `on_bind_transmitter` and `on_bind_transceiver` are the user's.
use smpp.Base.{
  ℕ, Bool, true, false, Option, none, some, List, [], ◌∷◌, Bytes, ◌==◌, if◌then◌else◌, Result, ok,
  err, panic,
}
use smpp.Nom.{Nom}
use smpp.Common.Error.{SmppError, FromPrimitive, esme_rinvbndsts}
use smpp.Common.Command.{CommandId, id_of}
use smpp.Common.Header.{CommandHeader}
use smpp.Common.Header
use smpp.Commands.HeaderOnly
use smpp.Commands.Bind.{
  BindKind, receiver, transmitter, transceiver, BindRequest, BindResponse, decode_bind_request,
  encode_bind_response, generic_reject,
}
use smpp.Server.State.{BoundType, Session}
use smpp.Server.Handle.{potential_seq_no}
use smpp.Server.Open.{Bound, Opened, open_bind}

-- What the peer is sent, and the bound state if there is one: then the read loop starts.
pub record Greeting : Type 0 where
  pub sent : List Bytes
  pub bound : Option Bound

-- `stream.write_all(..)`, the last thing that is done.
abbrev pub dismiss : Bool → Bytes → Greeting
dismiss written pdu = record { sent = if written then pdu ∷ [] else []; bound = none }

abbrev pub bound_of : Result SmppError Bound → Option Bound
bound_of (ok b) = some b
bound_of (err e) = none
bound_of panic = none

abbrev pub greeting_of : Opened → Greeting
greeting_of o = record { sent = o.sent; bound = bound_of o.outcome }

module _ (nom : Nom) (derived : FromPrimitive) (on_bind : BindKind → BindRequest → BindResponse)
    (written : Bool) where
  -- A branch for a bind. A panic of the decoder ends the task.
  abbrev pub greet : BindKind → ℕ → Result SmppError BindRequest → Greeting
  greet kind n (ok p) = greeting_of (open_bind derived kind p (on_bind kind p) written)
  greet kind n (err e) = dismiss written (encode_bind_response (generic_reject kind n e))
  greet kind n panic = record { sent = []; bound = none }

  -- The branches on command_id: before it is bound, a peer may only bind.
  unfoldable pub accept_header : CommandHeader → Bytes → Greeting
  unfolding open_bind
  accept_header header pdu =
      let n = potential_seq_no pdu in
      let request = decode_bind_request nom header pdu in
      if header.command_id == id_of CommandId.bind_receiver
      then greet receiver n request
      else if header.command_id == id_of CommandId.bind_transmitter
      then greet transmitter n request
      else if header.command_id == id_of CommandId.bind_transceiver
      then greet transceiver n request
      else dismiss written (HeaderOnly.encode (HeaderOnly.generic_nack_new esme_rinvbndsts n))

  abbrev pub accept_decoded : Bytes → Result SmppError CommandHeader → Greeting
  accept_decoded pdu (ok header) = accept_header header pdu
  accept_decoded pdu (err e) =
      dismiss written (HeaderOnly.encode (HeaderOnly.generic_nack_new e (potential_seq_no pdu)))
  accept_decoded pdu panic = record { sent = []; bound = none }

  -- The first PDU, as the handshake framed it.
  unfoldable pub accept_pdu : Bytes → Greeting
  unfolding accept_header
  accept_pdu pdu = accept_decoded pdu (Header.decode pdu)

-- The state that `read_loop` starts from.
abbrev pub start_session : BoundType → ℕ → Session
start_session bound_type response_timer = record {
  bound_type = bound_type;
  response_timer = response_timer;
  pending = [];
  writer_open = true;
  sent = [];
  spawned = [];
  timeouts = [];
  replies = [];
  enquire_link_resps = [];
  ticker_aborted = false;
}
