-- ===== src/Client/Session/Branches.antt =====
-- client/mod.rs, the read loop: the branch that each command takes.
use smpp.Base.{ℕ, ◌≡◌, true, false, Bytes, ok, Result}
use smpp.Nom.{Nom}
use smpp.Common.Error.{SmppError}
use smpp.Common.Command.{CommandId, id_of}
use smpp.Common.Header.{CommandHeader}
use smpp.Common.Header
use smpp.Commands.HeaderOnly.{HeaderOnly}
use smpp.Server.State.{Session, Reply, Flow, may_transmit, may_receive}
use smpp.Server.Handle.{handle_response, handle_enquire_link_resp}
use smpp.Server.Session.{generic_nack_branch, unsupported_branch}
use smpp.Client.Session.{
  handle_pdu, dispatch, deliver_sm_branch, submit_sm_resp_branch, submit_multi_resp_branch,
  data_sm_resp_branch, query_sm_resp_branch, cancel_sm_resp_branch, replace_sm_resp_branch,
  alert_notification_branch, handle_unbind_resp,
}

-- The commands whose PDUs answer a request of this side, but for unbind_resp and enquire_link_resp.
pub data IsAnswer : CommandId → Type 0 where
  answers_submit_sm : IsAnswer CommandId.submit_sm_resp
  answers_submit_multi : IsAnswer CommandId.submit_multi_resp
  answers_data_sm : IsAnswer CommandId.data_sm_resp
  answers_cancel_sm : IsAnswer CommandId.cancel_sm_resp
  answers_query_sm : IsAnswer CommandId.query_sm_resp
  answers_replace_sm : IsAnswer CommandId.replace_sm_resp
  answers_any : IsAnswer CommandId.generic_nack

-- The branches that ask for TX or TRX.
pub data IsForTransmitter : CommandId → Type 0 where
  for_submit_sm_resp : IsForTransmitter CommandId.submit_sm_resp
  for_submit_multi_resp : IsForTransmitter CommandId.submit_multi_resp
  for_data_sm_resp : IsForTransmitter CommandId.data_sm_resp

-- The PDU is handled by its header.
pub handle_pdu-header :
    (nom : Nom) (on_unbind : HeaderOnly → HeaderOnly) (now : ℕ) (s : Session) (pdu : Bytes)
    (h : CommandHeader)
    → Header.decode pdu ≡ ok h
    → handle_pdu nom on_unbind now s pdu ≡ dispatch nom on_unbind now h pdu s
unfolding handle_pdu
handle_pdu-header nom on_unbind now s pdu h e = rw (e)

module _ (nom : Nom) (on_unbind : HeaderOnly → HeaderOnly) (now : ℕ) (s : Session) (pdu : Bytes)
    (h : CommandHeader) where
  pub dispatch-deliver_sm :
      may_receive s.bound_type ≡ true
      → h.command_id ≡ id_of CommandId.deliver_sm
      → dispatch nom on_unbind now h pdu s ≡ deliver_sm_branch nom h pdu s
  unfolding dispatch
  dispatch-deliver_sm t e = simp (t, e)

  pub dispatch-submit_sm_resp :
      may_transmit s.bound_type ≡ true
      → h.command_id ≡ id_of CommandId.submit_sm_resp
      → dispatch nom on_unbind now h pdu s ≡ submit_sm_resp_branch nom h pdu now s
  unfolding dispatch
  dispatch-submit_sm_resp t e = simp (t, e)

  pub dispatch-submit_multi_resp :
      may_transmit s.bound_type ≡ true
      → h.command_id ≡ id_of CommandId.submit_multi_resp
      → dispatch nom on_unbind now h pdu s ≡ submit_multi_resp_branch nom h pdu now s
  unfolding dispatch
  dispatch-submit_multi_resp t e = simp (t, e)

  pub dispatch-data_sm_resp :
      may_transmit s.bound_type ≡ true
      → h.command_id ≡ id_of CommandId.data_sm_resp
      → dispatch nom on_unbind now h pdu s ≡ data_sm_resp_branch nom h pdu now s
  unfolding dispatch
  dispatch-data_sm_resp t e = simp (t, e)

  pub dispatch-cancel_sm_resp :
      h.command_id ≡ id_of CommandId.cancel_sm_resp
      → dispatch nom on_unbind now h pdu s ≡ cancel_sm_resp_branch h pdu now s
  unfolding dispatch
  dispatch-cancel_sm_resp e = simp (e)

  pub dispatch-query_sm_resp :
      h.command_id ≡ id_of CommandId.query_sm_resp
      → dispatch nom on_unbind now h pdu s ≡ query_sm_resp_branch nom h pdu now s
  unfolding dispatch
  dispatch-query_sm_resp e = simp (e)

  pub dispatch-replace_sm_resp :
      h.command_id ≡ id_of CommandId.replace_sm_resp
      → dispatch nom on_unbind now h pdu s ≡ replace_sm_resp_branch h pdu now s
  unfolding dispatch
  dispatch-replace_sm_resp e = simp (e)

  pub dispatch-alert_notification :
      h.command_id ≡ id_of CommandId.alert_notification
      → dispatch nom on_unbind now h pdu s ≡ alert_notification_branch nom h pdu s
  unfolding dispatch
  dispatch-alert_notification e = simp (e)

  pub dispatch-enquire_link_resp :
      h.command_id ≡ id_of CommandId.enquire_link_resp
      → dispatch nom on_unbind now h pdu s ≡ handle_enquire_link_resp now h.sequence_number s
  unfolding dispatch
  dispatch-enquire_link_resp e = simp (e)

  pub dispatch-unbind_resp :
      h.command_id ≡ id_of CommandId.unbind_resp
      → dispatch nom on_unbind now h pdu s ≡ handle_unbind_resp h pdu now s
  unfolding dispatch
  dispatch-unbind_resp e = simp (e)

  pub dispatch-generic_nack :
      h.command_id ≡ id_of CommandId.generic_nack
      → dispatch nom on_unbind now h pdu s ≡ generic_nack_branch h pdu now s
  unfolding dispatch
  dispatch-generic_nack e = simp (e)

  -- Whatever it answers, an answer is matched by its sequence number; how it is decoded, and how what
  -- cannot be decoded is refused, differ.
  pub dispatch-IsAnswer :
      {id : CommandId}
      → IsAnswer id
      → h.command_id ≡ id_of id
      → may_transmit s.bound_type ≡ true
      → (refused : SmppError → Session → Session × Flow) × ((decoded : Result SmppError Reply)
          × (dispatch nom on_unbind now h pdu s
              ≡ handle_response now h.sequence_number refused decoded s))
  dispatch-IsAnswer answers_submit_sm e t = (_, (_, dispatch-submit_sm_resp t e))
  dispatch-IsAnswer answers_submit_multi e t = (_, (_, dispatch-submit_multi_resp t e))
  dispatch-IsAnswer answers_data_sm e t = (_, (_, dispatch-data_sm_resp t e))
  dispatch-IsAnswer answers_cancel_sm e t = (_, (_, dispatch-cancel_sm_resp e))
  dispatch-IsAnswer answers_query_sm e t = (_, (_, dispatch-query_sm_resp e))
  dispatch-IsAnswer answers_replace_sm e t = (_, (_, dispatch-replace_sm_resp e))
  dispatch-IsAnswer answers_any e t = (_, (_, dispatch-generic_nack e))

  -- The commands that a receiver's session does not take.
  pub dispatch-refused :
      {id : CommandId}
      → IsForTransmitter id
      → h.command_id ≡ id_of id
      → may_transmit s.bound_type ≡ false
      → dispatch nom on_unbind now h pdu s ≡ unsupported_branch pdu s
  unfolding dispatch
  dispatch-refused for_submit_sm_resp e t = simp (t, e)
  dispatch-refused for_submit_multi_resp e t = simp (t, e)
  dispatch-refused for_data_sm_resp e t = simp (t, e)

  -- A transmitter's session takes no deliver_sm.
  pub dispatch-deliver_sm_refused :
      may_receive s.bound_type ≡ false
      → h.command_id ≡ id_of CommandId.deliver_sm
      → dispatch nom on_unbind now h pdu s ≡ unsupported_branch pdu s
  unfolding dispatch
  dispatch-deliver_sm_refused t e = simp (t, e)
