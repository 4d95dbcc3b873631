-- ===== src/Client/Session.antt =====
-- client/mod.rs, the read loop of `SmppClient::start`: what the client's session does with one PDU. Its
-- state is that of the server's session: RX, TX and TRX of `BIND_TYPE` are `bound_rx`, `bound_tx` and
-- `bound_trx`. The listener is the user's, and runs in a spawned task for all but `on_unbind` and
-- `on_alert_notification`, which are awaited.
pub mod Branches
pub mod Answers
pub mod Preserves
pub mod Survives
use smpp.Base.{
  ℕ, true, false, ◌&&◌, Option, none, some, Bytes, ◌==◌, if◌then◌else◌, Result, ok, err, panic,
}
use smpp.Nom.{Nom}
use smpp.Common.Error.{SmppError}
use smpp.Common.Command.{CommandId, id_of}
use smpp.Common.Header.{CommandHeader}
use smpp.Common.Header
use smpp.Commands.HeaderOnly
use smpp.Commands.HeaderOnly.{HeaderOnly}
use smpp.Commands.AlertNotification
use smpp.Commands.AlertNotification.{AlertNotification}
use smpp.Commands.DeliverSm
use smpp.Commands.SubmitSm.Response as SubmitResp
use smpp.Commands.SubmitSmMulti.Response as MultiResp
use smpp.Commands.DataSm.Response as DataResp
use smpp.Commands.QuerySm.Response as QueryResp
use smpp.Server.Pending.{Entry, find, erase, lapsed}
use smpp.Server.State.{
  Reply, submit_reply, submit_multi_reply, data_reply, query_reply, cancel_reply, replace_reply,
  unbind_reply, Task, on_deliver_sm, on_alert_notification, may_transmit, may_receive, Session,
  Flow, go_on, unbound, panicked, send_or_stop, spawn,
}
use smpp.Server.Handle.{
  handle_request, handle_response, handle_enquire_link, handle_enquire_link_resp, handle_unbind,
  deliver, time_out, as_reply, potential_seq_no, submit_reject,
}
use smpp.Server.Session.{data_sm_branch, generic_nack_branch, unsupported_branch, refuse_header}

-- The generic_nack that answers what cannot be decoded.
abbrev pub nack : Bytes → SmppError → Bytes
nack pdu error = HeaderOnly.encode (HeaderOnly.generic_nack_new error (potential_seq_no pdu))

abbrev pub refuse_by_nack : Bytes → SmppError → Session → Session × Flow
refuse_by_nack pdu error s = send_or_stop s (nack pdu error)

-- An unbind_resp in time ends the loop, whether or not a caller waits for it.
abbrev pub complete_unbind :
    Option ℕ
    → (SmppError → Session → Session × Flow)
    → Result SmppError Reply
    → Session
    → Session × Flow
complete_unbind channel refused (ok reply) s = (deliver channel reply s, unbound)
complete_unbind channel refused (err error) s = refused error s
complete_unbind channel refused panic s = (s, panicked)

abbrev pub answer_unbind :
    ℕ
    → ℕ
    → (SmppError → Session → Session × Flow)
    → Result SmppError Reply
    → Session
    → Option Entry
    → Session × Flow
answer_unbind now n refused decoded s none = (s, go_on)
answer_unbind now n refused decoded s (some entry) =
    let s' = record s { pending = erase n s.pending } in
    if lapsed now s.response_timer entry
    then (time_out s' n, go_on)
    else complete_unbind entry.reply_to refused decoded s'

-- `on_alert_notification` is called, and its end awaited.
abbrev pub notify : Bytes → Result SmppError AlertNotification → Session → Session × Flow
notify pdu (ok notification) s = (spawn s (on_alert_notification notification), go_on)
notify pdu (err error) s = refuse_by_nack pdu error s
notify pdu panic s = (s, panicked)

module _ (nom : Nom) (header : CommandHeader) (pdu : Bytes) where
  -- Undecodable, it is answered by a submit_sm_resp.
  abbrev pub deliver_sm_branch : Session → Session × Flow
  deliver_sm_branch =
      handle_request on_deliver_sm (submit_reject (potential_seq_no pdu))
        (DeliverSm.decode nom header pdu)

  abbrev pub submit_sm_resp_branch : ℕ → Session → Session × Flow
  submit_sm_resp_branch now =
      handle_response now header.sequence_number (refuse_by_nack pdu)
        (as_reply submit_reply (SubmitResp.decode nom header pdu))

  abbrev pub submit_multi_resp_branch : ℕ → Session → Session × Flow
  submit_multi_resp_branch now =
      handle_response now header.sequence_number (refuse_by_nack pdu)
        (as_reply submit_multi_reply (MultiResp.decode nom header pdu))

  abbrev pub data_sm_resp_branch : ℕ → Session → Session × Flow
  data_sm_resp_branch now =
      handle_response now header.sequence_number (refuse_by_nack pdu)
        (as_reply data_reply (DataResp.decode nom header pdu))

  abbrev pub query_sm_resp_branch : ℕ → Session → Session × Flow
  query_sm_resp_branch now =
      handle_response now header.sequence_number (refuse_by_nack pdu)
        (as_reply query_reply (QueryResp.decode nom header pdu))

  abbrev pub alert_notification_branch : Session → Session × Flow
  alert_notification_branch = notify pdu (AlertNotification.decode nom header pdu)

module _ (header : CommandHeader) (pdu : Bytes) where
  abbrev pub cancel_sm_resp_branch : ℕ → Session → Session × Flow
  cancel_sm_resp_branch now =
      handle_response now header.sequence_number (refuse_by_nack pdu)
        (as_reply cancel_reply (HeaderOnly.decode_any header pdu))

  abbrev pub replace_sm_resp_branch : ℕ → Session → Session × Flow
  replace_sm_resp_branch now =
      handle_response now header.sequence_number (refuse_by_nack pdu)
        (as_reply replace_reply (HeaderOnly.decode_any header pdu))

  unfoldable pub handle_unbind_resp : ℕ → Session → Session × Flow
  unfolding time_out
  handle_unbind_resp now s =
      answer_unbind now header.sequence_number (refuse_by_nack pdu)
        (as_reply unbind_reply (HeaderOnly.decode CommandId.unbind_resp header pdu)) s
        (find header.sequence_number s.pending)

module _ (nom : Nom) (on_unbind : HeaderOnly → HeaderOnly) (now : ℕ) where
  -- The chain of branches on command_id and bind_type, for a PDU whose header was decoded.
  unfoldable pub dispatch : CommandHeader → Bytes → Session → Session × Flow
  unfolding handle_request handle_response handle_enquire_link_resp handle_enquire_link
      handle_unbind handle_unbind_resp send_or_stop
  dispatch header pdu s =
      let transmits = may_transmit s.bound_type in
      if header.command_id == id_of CommandId.deliver_sm && may_receive s.bound_type
      then deliver_sm_branch nom header pdu s
      else if header.command_id == id_of CommandId.data_sm
      then data_sm_branch nom header pdu s
      else if header.command_id == id_of CommandId.submit_sm_resp && transmits
      then submit_sm_resp_branch nom header pdu now s
      else if header.command_id == id_of CommandId.submit_multi_resp && transmits
      then submit_multi_resp_branch nom header pdu now s
      else if header.command_id == id_of CommandId.data_sm_resp && transmits
      then data_sm_resp_branch nom header pdu now s
      else if header.command_id == id_of CommandId.cancel_sm_resp
      then cancel_sm_resp_branch header pdu now s
      else if header.command_id == id_of CommandId.query_sm_resp
      then query_sm_resp_branch nom header pdu now s
      else if header.command_id == id_of CommandId.replace_sm_resp
      then replace_sm_resp_branch header pdu now s
      else if header.command_id == id_of CommandId.alert_notification
      then alert_notification_branch nom header pdu s
      else if header.command_id == id_of CommandId.enquire_link
      then handle_enquire_link (potential_seq_no pdu)
          (HeaderOnly.decode CommandId.enquire_link header pdu) s
      else if header.command_id == id_of CommandId.enquire_link_resp
      then handle_enquire_link_resp now header.sequence_number s
      else if header.command_id == id_of CommandId.unbind
      then handle_unbind on_unbind (potential_seq_no pdu)
          (HeaderOnly.decode CommandId.unbind header pdu) s
      else if header.command_id == id_of CommandId.unbind_resp
      then handle_unbind_resp header pdu now s
      else if header.command_id == id_of CommandId.generic_nack
      then generic_nack_branch header pdu now s
      else unsupported_branch pdu s

  abbrev pub on_header : Bytes → Result SmppError CommandHeader → Session → Session × Flow
  on_header pdu (ok header) s = dispatch header pdu s
  on_header pdu (err error) s = refuse_header pdu error s
  on_header pdu panic s = (s, panicked)

  -- One PDU, framed off the buffer.
  unfoldable pub handle_pdu : Session → Bytes → Session × Flow
  unfolding dispatch
  handle_pdu s pdu = on_header pdu (Header.decode pdu) s
