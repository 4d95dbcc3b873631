-- ===== src/Server/State.antt =====
-- server/state.rs and client/mod.rs: the state of a bound session, what its read loop hands to the writer, to callers and
-- to spawned tasks. Sockets, timers and channels are tokio's, and are seen through these fields.
use smpp.Base.{ℕ, Bool, true, false, List, [], ◌∷◌, ◌++◌, Bytes, if◌then◌else◌}
use smpp.Commands.HeaderOnly.{HeaderOnly}
use smpp.Commands.SubmitSm.{SubmitSm}
use smpp.Commands.SubmitSm.Response as SubmitResp
use smpp.Commands.SubmitSmMulti.Response as MultiResp
use smpp.Commands.QuerySm.Response as QueryResp
use smpp.Commands.DeliverSm.{DeliverSm}
use smpp.Commands.AlertNotification.{AlertNotification}
use smpp.Commands.SubmitSmMulti.{SubmitSmMulti}
use smpp.Commands.DataSm.{DataSm}
use smpp.Commands.DataSm.Response as DataResp
use smpp.Commands.QuerySm.{QuerySm}
use smpp.Commands.ReplaceSm.{ReplaceSm}
use smpp.Commands.CancelSm.{CancelSm}
use smpp.Commands.DeliverSm.Response as DeliverResp
use smpp.Server.Pending.{Entry}

pub data BoundType : Type 0 where
  bound_rx bound_tx bound_trx : BoundType

-- `bound_type == BOUND_TX || bound_type == BOUND_TRX`
abbrev pub may_transmit : BoundType → Bool
may_transmit bound_rx = false
may_transmit bound_tx = true
may_transmit bound_trx = true

-- `bound_type == BOUND_RX || bound_type == BOUND_TRX`, the `can_receive` of `ESME`.
abbrev pub may_receive : BoundType → Bool
may_receive bound_rx = true
may_receive bound_tx = false
may_receive bound_trx = true

-- A `Box<dyn SmppReply>` that the read loop sends to a caller.
pub data Reply : Type 0 where
  submit_reply : SubmitResp.SubmitSmResp → Reply
  submit_multi_reply : MultiResp.SubmitSmMultiResp → Reply
  deliver_reply : DeliverResp.DeliverSmResp → Reply
  data_reply : DataResp.DataSmResp → Reply
  query_reply : QueryResp.QuerySmResp → Reply
  cancel_reply : HeaderOnly → Reply
  replace_reply : HeaderOnly → Reply
  unbind_reply : HeaderOnly → Reply
  nack_reply : HeaderOnly → Reply

-- A call of a handler, in a task of its own or awaited on the spot, with its argument.
pub data Task : Type 0 where
  on_deliver_sm : DeliverSm → Task
  on_submit_sm : SubmitSm → Task
  on_submit_sm_multi : SubmitSmMulti → Task
  on_data_sm : DataSm → Task
  on_cancel_sm : CancelSm → Task
  on_query_sm : QuerySm → Task
  on_replace_sm : ReplaceSm → Task
  on_alert_notification : AlertNotification → Task

pub record Session : Type 0 where
  pub bound_type : BoundType
  pub response_timer : ℕ
  pub pending : List Entry
  -- Whether the writer task still takes frames.
  pub writer_open : Bool
  -- The PDUs handed to the writer, in order.
  pub sent : List Bytes
  pub spawned : List Task
  -- The sequence numbers given to `on_timeout`.
  pub timeouts : List ℕ
  -- The values sent into oneshot channels.
  pub replies : List (ℕ × Reply)
  -- The sequence numbers handed to the channel of the enquire_link task.
  pub enquire_link_resps : List ℕ
  pub ticker_aborted : Bool

-- How the loop over the buffer goes on after a PDU.
pub data Flow : Type 0 where
  go_on : Flow
  writer_dead : Flow
  unbound : Flow
  panicked : Flow

-- `tx.send(..)`; a closed channel drops the frame.
unfoldable pub send : Session → Bytes → Session
send s pdu = if s.writer_open then record s { sent = s.sent ++ (pdu ∷ []) } else s

-- `if tx.send(..).await.is_err() { writer_dead = true; break; }`
unfoldable pub send_or_stop : Session → Bytes → Session × Flow
unfolding send
send_or_stop s pdu = (send s pdu, if s.writer_open then go_on else writer_dead)

unfoldable pub spawn : Session → Task → Session
spawn s t = record s { spawned = s.spawned ++ (t ∷ []) }
