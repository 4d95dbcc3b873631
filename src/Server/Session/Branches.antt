-- ===== src/Server/Session/Branches.antt =====
-- server/state.rs, `read_loop`: the branch that each command takes.
use smpp.Base.{ℕ, ◌≡◌, true, false, Bytes, ok}
use smpp.Nom.{Nom}
use smpp.Common.Error.{esme_rinvcmdid}
use smpp.Common.Command.{CommandId, id_of}
use smpp.Common.Header.{CommandHeader}
use smpp.Common.Header
use smpp.Commands.HeaderOnly.{HeaderOnly}
use smpp.Commands.HeaderOnly
use smpp.Commands.SubmitSm
use smpp.Commands.SubmitSmMulti
use smpp.Commands.SubmitSmMulti.Response as MultiResp
use smpp.Commands.DataSm
use smpp.Commands.DataSm.Response as DataResp
use smpp.Commands.QuerySm
use smpp.Commands.QuerySm.Response as QueryResp
use smpp.Commands.ReplaceSm
use smpp.Commands.CancelSm
use smpp.Commands.DeliverSm.Response as DeliverResp
use smpp.Server.State.{
  Session, may_transmit, on_submit_sm, on_submit_sm_multi, on_data_sm, on_cancel_sm, on_query_sm,
  on_replace_sm, send_or_stop, deliver_reply, data_reply, nack_reply, go_on,
}
use smpp.Server.Handle.{
  submit_reject, refuse_by_submit, as_reply, handle_request, handle_response, handle_enquire_link,
  handle_enquire_link_resp, handle_unbind, potential_seq_no,
}
use smpp.Server.Session.{handle_pdu, dispatch}

-- The branches that ask for BOUND_TX or BOUND_TRX.
pub data IsForTransmitter : CommandId → Type 0 where
  for_submit_sm : IsForTransmitter CommandId.submit_sm
  for_submit_multi : IsForTransmitter CommandId.submit_multi
  for_cancel_sm : IsForTransmitter CommandId.cancel_sm
  for_query_sm : IsForTransmitter CommandId.query_sm
  for_replace_sm : IsForTransmitter CommandId.replace_sm
  for_deliver_sm_resp : IsForTransmitter CommandId.deliver_sm_resp

-- The PDU is handled by its header.
pub handle_pdu-header :
    (nom : Nom) (on_unbind : HeaderOnly → HeaderOnly) (now : ℕ) (s : Session) (pdu : Bytes)
    (h : CommandHeader)
    → Header.decode pdu ≡ ok h
    → handle_pdu nom on_unbind now s pdu ≡ dispatch nom on_unbind now h pdu s
unfolding handle_pdu
handle_pdu-header nom on_unbind now s pdu h e = rw (e)

module _ (nom : Nom) (on_unbind : HeaderOnly → HeaderOnly) (now : ℕ) (s : Session) (pdu : Bytes)
    (h : CommandHeader) where
  pub dispatch-submit_sm :
      may_transmit s.bound_type ≡ true
      → h.command_id ≡ id_of CommandId.submit_sm
      → dispatch nom on_unbind now h pdu s
        ≡ handle_request on_submit_sm
            (submit_reject (potential_seq_no pdu))
            (SubmitSm.decode nom h pdu)
            s
  unfolding dispatch
  dispatch-submit_sm t e = simp (t, e)

  pub dispatch-submit_multi :
      may_transmit s.bound_type ≡ true
      → h.command_id ≡ id_of CommandId.submit_multi
      → dispatch nom on_unbind now h pdu s
        ≡ handle_request on_submit_sm_multi
            (λ e. MultiResp.encode (MultiResp.generic_reject (potential_seq_no pdu) e))
            (SubmitSmMulti.decode nom h pdu)
            s
  unfolding dispatch
  dispatch-submit_multi t e = simp (t, e)

  pub dispatch-data_sm :
      h.command_id ≡ id_of CommandId.data_sm
      → dispatch nom on_unbind now h pdu s
        ≡ handle_request on_data_sm
            (λ e. DataResp.encode (DataResp.generic_reject (potential_seq_no pdu) e))
            (DataSm.decode nom h pdu)
            s
  unfolding dispatch
  dispatch-data_sm e = simp (e)

  pub dispatch-cancel_sm :
      may_transmit s.bound_type ≡ true
      → h.command_id ≡ id_of CommandId.cancel_sm
      → dispatch nom on_unbind now h pdu s
        ≡ handle_request on_cancel_sm
            (submit_reject (potential_seq_no pdu))
            (CancelSm.decode nom h pdu)
            s
  unfolding dispatch
  dispatch-cancel_sm t e = simp (t, e)

  pub dispatch-query_sm :
      may_transmit s.bound_type ≡ true
      → h.command_id ≡ id_of CommandId.query_sm
      → dispatch nom on_unbind now h pdu s
        ≡ handle_request on_query_sm
            (λ e. QueryResp.encode (QueryResp.generic_reject (potential_seq_no pdu) e))
            (QuerySm.decode nom h pdu)
            s
  unfolding dispatch
  dispatch-query_sm t e = simp (t, e)

  pub dispatch-replace_sm :
      may_transmit s.bound_type ≡ true
      → h.command_id ≡ id_of CommandId.replace_sm
      → dispatch nom on_unbind now h pdu s
        ≡ handle_request on_replace_sm
            (λ e. HeaderOnly.encode (HeaderOnly.replace_sm_generic_reject (potential_seq_no pdu) e))
            (ReplaceSm.decode nom h pdu)
            s
  unfolding dispatch
  dispatch-replace_sm t e = simp (t, e)

  pub dispatch-enquire_link :
      h.command_id ≡ id_of CommandId.enquire_link
      → dispatch nom on_unbind now h pdu s
        ≡ handle_enquire_link
            (potential_seq_no pdu)
            (HeaderOnly.decode CommandId.enquire_link h pdu)
            s
  unfolding dispatch
  dispatch-enquire_link e = simp (e)

  pub dispatch-enquire_link_resp :
      h.command_id ≡ id_of CommandId.enquire_link_resp
      → dispatch nom on_unbind now h pdu s ≡ handle_enquire_link_resp now h.sequence_number s
  unfolding dispatch
  dispatch-enquire_link_resp e = simp (e)

  pub dispatch-unbind :
      h.command_id ≡ id_of CommandId.unbind
      → dispatch nom on_unbind now h pdu s
        ≡ handle_unbind on_unbind
            (potential_seq_no pdu)
            (HeaderOnly.decode CommandId.unbind h pdu)
            s
  unfolding dispatch
  dispatch-unbind e = simp (e)

  pub dispatch-deliver_sm_resp :
      may_transmit s.bound_type ≡ true
      → h.command_id ≡ id_of CommandId.deliver_sm_resp
      → dispatch nom on_unbind now h pdu s
        ≡ handle_response now h.sequence_number
            (refuse_by_submit (potential_seq_no pdu))
            (as_reply deliver_reply (DeliverResp.decode nom h pdu))
            s
  unfolding dispatch
  dispatch-deliver_sm_resp t e = simp (t, e)

  pub dispatch-data_sm_resp :
      h.command_id ≡ id_of CommandId.data_sm_resp
      → dispatch nom on_unbind now h pdu s
        ≡ handle_response now h.sequence_number
            (refuse_by_submit (potential_seq_no pdu))
            (as_reply data_reply (DataResp.decode nom h pdu))
            s
  unfolding dispatch
  dispatch-data_sm_resp e = simp (e)

  pub dispatch-generic_nack :
      h.command_id ≡ id_of CommandId.generic_nack
      → dispatch nom on_unbind now h pdu s
        ≡ handle_response now h.sequence_number
            (λ e t. (t, go_on))
            (as_reply nack_reply (HeaderOnly.decode CommandId.generic_nack h pdu))
            s
  unfolding dispatch
  dispatch-generic_nack e = simp (e)

  -- There is no branch for unbind_resp.
  pub dispatch-unbind_resp :
      h.command_id ≡ id_of CommandId.unbind_resp
      → dispatch nom on_unbind now h pdu s
        ≡ send_or_stop s
            (HeaderOnly.encode (HeaderOnly.generic_nack_new esme_rinvcmdid (potential_seq_no pdu)))
  unfolding dispatch
  dispatch-unbind_resp e = simp (e)

  -- The commands that a receiver's session does not take, and how they are answered.
  pub dispatch-refused :
      {id : CommandId}
      → IsForTransmitter id
      → h.command_id ≡ id_of id
      → may_transmit s.bound_type ≡ false
      → dispatch nom on_unbind now h pdu s
        ≡ send_or_stop s
            (HeaderOnly.encode (HeaderOnly.generic_nack_new esme_rinvcmdid (potential_seq_no pdu)))
  unfolding dispatch
  dispatch-refused for_submit_sm e t = simp (t, e)
  dispatch-refused for_submit_multi e t = simp (t, e)
  dispatch-refused for_cancel_sm e t = simp (t, e)
  dispatch-refused for_query_sm e t = simp (t, e)
  dispatch-refused for_replace_sm e t = simp (t, e)
  dispatch-refused for_deliver_sm_resp e t = simp (t, e)
