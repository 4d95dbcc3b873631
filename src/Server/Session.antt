-- ===== src/Server/Session.antt =====
-- server/state.rs, `read_loop`: what the session does with one PDU. The listener is the user's, and
-- runs in a spawned task for all but `on_unbind`; sockets, timers and channels are tokio's, and are
-- seen through the session's fields.
pub mod Branches
pub mod Responses
pub mod Requests
pub mod Preserves
pub mod Survives
use smpp.Base.{
  ℕ, ◌+◌, ◌≡◌, Bool, true, false, ◌&&◌, ◌||◌, Option, none, some, List, [], ◌∷◌, ◌++◌, Bytes,
  length, leb, ◌==◌, if◌then◌else◌, Result, ok, err, panic,
}
use smpp.Nom.{Nom}
use smpp.Common.Error.{SmppError, esme_rinvcmdid, status_of}
use smpp.Common.Command.{CommandId, id_of}
use smpp.Common.Words.{be_u32_at}
use smpp.Common.Header.{CommandHeader}
use smpp.Common.Header
use smpp.Commands.HeaderOnly
use smpp.Commands.HeaderOnly.{HeaderOnly}
use smpp.Commands.SubmitSm
use smpp.Commands.SubmitSm.{SubmitSm}
use smpp.Commands.SubmitSm.Response as SubmitResp
use smpp.Commands.SubmitSmMulti
use smpp.Commands.SubmitSmMulti.{SubmitSmMulti}
use smpp.Commands.SubmitSmMulti.Response as MultiResp
use smpp.Commands.DataSm
use smpp.Commands.DataSm.{DataSm}
use smpp.Commands.DataSm.Response as DataResp
use smpp.Commands.QuerySm
use smpp.Commands.QuerySm.{QuerySm}
use smpp.Commands.QuerySm.Response as QueryResp
use smpp.Commands.ReplaceSm
use smpp.Commands.ReplaceSm.{ReplaceSm}
use smpp.Commands.CancelSm
use smpp.Commands.CancelSm.{CancelSm}
use smpp.Commands.DeliverSm.Response as DeliverResp
use smpp.Server.Pending.{Entry, find, erase, lapsed}
use smpp.Server.State.{
  BoundType, may_transmit, Reply, deliver_reply, data_reply, nack_reply, Task, on_submit_sm,
  on_submit_sm_multi, on_data_sm, on_cancel_sm, on_query_sm, on_replace_sm, Session, Flow, go_on,
  writer_dead, unbound, panicked, send, send_or_stop, spawn,
}
use smpp.Server.Handle.{
  handle_request, deliver, time_out, complete, answer_entry, handle_response, as_reply,
  close_enquiry, handle_enquire_link_resp, handle_enquire_link, handle_unbind, potential_seq_no,
  submit_reject, refuse_by_submit,
}

module _ (nom : Nom) (header : CommandHeader) (pdu : Bytes) where
  abbrev pub submit_sm_branch : Session → Session × Flow
  submit_sm_branch =
      handle_request on_submit_sm (submit_reject (potential_seq_no pdu))
        (SubmitSm.decode nom header pdu)

  abbrev pub submit_multi_branch : Session → Session × Flow
  submit_multi_branch =
      handle_request on_submit_sm_multi
        (λ e. MultiResp.encode (MultiResp.generic_reject (potential_seq_no pdu) e))
        (SubmitSmMulti.decode nom header pdu)

  -- The client has the same branch.
  abbrev pub data_sm_branch : Session → Session × Flow
  data_sm_branch =
      handle_request on_data_sm
        (λ e. DataResp.encode (DataResp.generic_reject (potential_seq_no pdu) e))
        (DataSm.decode nom header pdu)

  abbrev pub cancel_sm_branch : Session → Session × Flow
  cancel_sm_branch =
      handle_request on_cancel_sm (submit_reject (potential_seq_no pdu))
        (CancelSm.decode nom header pdu)

  abbrev pub query_sm_branch : Session → Session × Flow
  query_sm_branch =
      handle_request on_query_sm
        (λ e. QueryResp.encode (QueryResp.generic_reject (potential_seq_no pdu) e))
        (QuerySm.decode nom header pdu)

  abbrev pub replace_sm_branch : Session → Session × Flow
  replace_sm_branch =
      handle_request on_replace_sm
        (λ e. HeaderOnly.encode (HeaderOnly.replace_sm_generic_reject (potential_seq_no pdu) e))
        (ReplaceSm.decode nom header pdu)

  abbrev pub deliver_sm_resp_branch : ℕ → Session → Session × Flow
  deliver_sm_resp_branch now =
      handle_response now header.sequence_number (refuse_by_submit (potential_seq_no pdu))
        (as_reply deliver_reply (DeliverResp.decode nom header pdu))

  abbrev pub data_sm_resp_branch : ℕ → Session → Session × Flow
  data_sm_resp_branch now =
      handle_response now header.sequence_number (refuse_by_submit (potential_seq_no pdu))
        (as_reply data_reply (DataResp.decode nom header pdu))

-- The branch for generic_nack, of both sides: one that cannot be decoded is not answered.
abbrev pub generic_nack_branch : CommandHeader → Bytes → ℕ → Session → Session × Flow
generic_nack_branch header pdu now =
    handle_response now header.sequence_number (λ e t. (t, go_on))
      (as_reply nack_reply (HeaderOnly.decode CommandId.generic_nack header pdu))

-- The last `else`, of both sides.
abbrev pub unsupported_branch : Bytes → Session → Session × Flow
unsupported_branch pdu s =
    send_or_stop s
      (HeaderOnly.encode (HeaderOnly.generic_nack_new esme_rinvcmdid (potential_seq_no pdu)))

-- A header that cannot be decoded is nacked, and ends the session, on both sides.
abbrev pub refuse_header : Bytes → SmppError → Session → Session × Flow
refuse_header pdu error s =
    let s' =
      send s (HeaderOnly.encode (HeaderOnly.generic_nack_new error (potential_seq_no pdu))) in
    (record s' { ticker_aborted = true }, writer_dead)

module _ (nom : Nom) (on_unbind : HeaderOnly → HeaderOnly) (now : ℕ) where
  -- The chain of branches on command_id and bound_type, for a PDU whose header was decoded.
  unfoldable pub dispatch : CommandHeader → Bytes → Session → Session × Flow
  unfolding handle_request handle_response handle_enquire_link_resp handle_enquire_link
      handle_unbind send_or_stop
  dispatch header pdu s =
      let transmits = may_transmit s.bound_type in
      if header.command_id == id_of CommandId.submit_sm && transmits
      then submit_sm_branch nom header pdu s
      else if header.command_id == id_of CommandId.submit_multi && transmits
      then submit_multi_branch nom header pdu s
      else if header.command_id == id_of CommandId.data_sm
      then data_sm_branch nom header pdu s
      else if header.command_id == id_of CommandId.cancel_sm && transmits
      then cancel_sm_branch nom header pdu s
      else if header.command_id == id_of CommandId.query_sm && transmits
      then query_sm_branch nom header pdu s
      else if header.command_id == id_of CommandId.replace_sm && transmits
      then replace_sm_branch nom header pdu s
      else if header.command_id == id_of CommandId.enquire_link
      then handle_enquire_link (potential_seq_no pdu)
          (HeaderOnly.decode CommandId.enquire_link header pdu) s
      else if header.command_id == id_of CommandId.enquire_link_resp
      then handle_enquire_link_resp now header.sequence_number s
      else if header.command_id == id_of CommandId.unbind
      then handle_unbind on_unbind (potential_seq_no pdu)
          (HeaderOnly.decode CommandId.unbind header pdu) s
      else if header.command_id == id_of CommandId.deliver_sm_resp && transmits
      then deliver_sm_resp_branch nom header pdu now s
      else if header.command_id == id_of CommandId.data_sm_resp
      then data_sm_resp_branch nom header pdu now s
      else if header.command_id == id_of CommandId.generic_nack
      then generic_nack_branch header pdu now s
      else unsupported_branch pdu s

  abbrev pub on_header : Bytes → Result SmppError CommandHeader → Session → Session × Flow
  on_header pdu (ok header) s = dispatch header pdu s
  on_header pdu (err error) s = refuse_header pdu error s
  on_header pdu panic s = (s, panicked)

  -- One PDU, framed off the buffer.
  unfoldable pub handle_pdu : Session → Bytes → Session × Flow
  unfolding dispatch
  handle_pdu s pdu = on_header pdu (Header.decode pdu) s
