-- ===== src/Server/Session/Preserves.antt =====
-- server/state.rs, `read_loop`: what no PDU changes, whichever branch it takes.
use smpp.Base.{ℕ, refl, Bytes, Result, ok, err, panic, ◌==◌, ◌&&◌}
use smpp.Nom.{Nom}
use smpp.Common.Error.{SmppError}
use smpp.Common.Command.{CommandId, id_of}
use smpp.Common.Header.{CommandHeader}
use smpp.Common.Header
use smpp.Commands.HeaderOnly.{HeaderOnly}
use smpp.Server.State.{may_transmit, Session}
use smpp.Server.Session.{handle_pdu, dispatch, on_header}
use smpp.Server.Handle.Steps.{
  IsStep, After, number_in, stays-IsStep, send-IsStep, send_or_stop-IsStep,
  handle_enquire_link_resp-IsStep, handle_enquire_link-IsStep, abort-IsStep, handle_unbind-IsStep,
  refuse_by_submit-IsPolite, branch-After, request-After, response-After,
}

module _ (nom : Nom) (on_unbind : HeaderOnly → HeaderOnly) (now : ℕ) where
  dispatch-After :
      (h : CommandHeader) (pdu : Bytes) (s : Session)
      → After h.sequence_number s (dispatch nom on_unbind now h pdu s)
  unfolding dispatch
  dispatch-After h pdu s =
      let n = h.sequence_number in
      let transmits = may_transmit s.bound_type in
      branch-After n s (h.command_id == id_of CommandId.submit_sm && transmits) _ _
        (request-After n _ _ _ s)
        (branch-After n s (h.command_id == id_of CommandId.submit_multi && transmits) _ _
          (request-After n _ _ _ s)
          (branch-After n s (h.command_id == id_of CommandId.data_sm) _ _ (request-After n _ _ _ s)
            (branch-After n s (h.command_id == id_of CommandId.cancel_sm && transmits) _ _
              (request-After n _ _ _ s)
              (branch-After n s (h.command_id == id_of CommandId.query_sm && transmits) _ _
                (request-After n _ _ _ s)
                (branch-After n s (h.command_id == id_of CommandId.replace_sm && transmits) _ _
                  (request-After n _ _ _ s)
                  (branch-After n s (h.command_id == id_of CommandId.enquire_link) _ _
                    (record { step = handle_enquire_link-IsStep n _ _ s })
                    (branch-After n s (h.command_id == id_of CommandId.enquire_link_resp) _ _
                      (record { step = handle_enquire_link_resp-IsStep now n s })
                      (branch-After n s (h.command_id == id_of CommandId.unbind) _ _
                        (record { step = handle_unbind-IsStep on_unbind n _ _ s })
                        (branch-After n s
                          (h.command_id == id_of CommandId.deliver_sm_resp && transmits) _ _
                          (response-After now n _ _ s (refuse_by_submit-IsPolite _))
                          (branch-After n s (h.command_id == id_of CommandId.data_sm_resp) _ _
                            (response-After now n _ _ s (refuse_by_submit-IsPolite _))
                            (branch-After n s (h.command_id == id_of CommandId.generic_nack) _ _
                              (response-After now n _ _ s (λ m e t. (stays-IsStep m t, refl)))
                              (record { step = send_or_stop-IsStep n s _ }))))))))))))

  handled_by_header :
      (s : Session) (pdu : Bytes) (d : Result SmppError CommandHeader)
      → IsStep (number_in d) s (on_header nom on_unbind now pdu d s).0
  handled_by_header s pdu (ok h) = (dispatch-After h pdu s).step
  handled_by_header s pdu (err e) = abort-IsStep 0 s _ (send-IsStep 0 s _)
  handled_by_header s pdu panic = stays-IsStep 0 s

  -- Whatever bytes a PDU has, handling it sends at most one PDU, takes at most one entry off the pending
  -- map, the one of its header's sequence number, and leaves the binding, the timer and the writer as
  -- they are.
  pub handle_pdu-IsStep :
      (s : Session) (pdu : Bytes)
      → IsStep (number_in (Header.decode pdu)) s (handle_pdu nom on_unbind now s pdu).0
  unfolding handle_pdu
  handle_pdu-IsStep s pdu = handled_by_header s pdu (Header.decode pdu)
