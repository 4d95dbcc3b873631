-- ===== src/Client/Session/Preserves.antt =====
-- client/mod.rs, the read loop: what no PDU changes, whichever branch it takes.
use smpp.Base.{ℕ, refl, Option, none, some, Bytes, Result, ok, err, panic, ◌==◌, ◌&&◌}
use smpp.Nom.{Nom}
use smpp.Common.Error.{SmppError}
use smpp.Common.Command.{CommandId, id_of}
use smpp.Common.Header.{CommandHeader}
use smpp.Common.Header
use smpp.Commands.HeaderOnly.{HeaderOnly}
use smpp.Commands.AlertNotification.{AlertNotification}
use smpp.Server.Pending.{Entry, find, erase, lapsed}
use smpp.Server.State.{may_transmit, may_receive, Session, Reply, Flow, send_or_stop}
use smpp.Server.Handle.Steps.{
  IsStep, After, number_in, stays-IsStep, send-IsStep, send_or_stop-IsStep, spawn-IsStep,
  send-pending, after_erase, IsPolite, deliver-IsStep, time_out-IsStep, branch-IsStep, branch-After,
  request-After, response-After, handle_enquire_link-IsStep, handle_enquire_link_resp-IsStep,
  handle_unbind-IsStep, abort-IsStep,
}
use smpp.Client.Session.{
  nack, refuse_by_nack, notify, complete_unbind, answer_unbind, handle_unbind_resp, dispatch,
  on_header, handle_pdu,
}

refuse_by_nack-IsPolite : (pdu : Bytes) → IsPolite (refuse_by_nack pdu)
unfolding send_or_stop
refuse_by_nack-IsPolite pdu m e t = (send-IsStep m t (nack pdu e), send-pending t (nack pdu e))

complete_unbind-IsStep :
    (n : ℕ) (channel : Option ℕ) (refused : SmppError → Session → Session × Flow)
    (decoded : Result SmppError Reply) (s : Session)
    → IsPolite refused
    → IsStep n s
        (complete_unbind channel refused decoded (record s { pending = erase n s.pending })).0
complete_unbind-IsStep n channel refused (ok reply) s polite = deliver-IsStep n channel reply s
complete_unbind-IsStep n channel refused (err e) s polite =
    let (i, same) = polite n e (record s { pending = erase n s.pending }) in
    after_erase n s _ i same
complete_unbind-IsStep n channel refused panic s polite = after_erase n s _ (stays-IsStep n _) refl

answer_unbind-IsStep :
    (now n : ℕ) (refused : SmppError → Session → Session × Flow) (decoded : Result SmppError Reply)
    (s : Session) (found : Option Entry)
    → IsPolite refused
    → IsStep n s (answer_unbind now n refused decoded s found).0
answer_unbind-IsStep now n refused decoded s none polite = stays-IsStep n s
answer_unbind-IsStep now n refused decoded s (some entry) polite =
    branch-IsStep n s (lapsed now s.response_timer entry) _ _ (time_out-IsStep n s)
      (complete_unbind-IsStep n entry.reply_to refused decoded s polite)

handle_unbind_resp-IsStep :
    (h : CommandHeader) (pdu : Bytes) (now : ℕ) (s : Session)
    → IsStep h.sequence_number s (handle_unbind_resp h pdu now s).0
unfolding handle_unbind_resp
handle_unbind_resp-IsStep h pdu now s =
    answer_unbind-IsStep now h.sequence_number _ _ s (find h.sequence_number s.pending)
      (refuse_by_nack-IsPolite pdu)

notify-IsStep :
    (n : ℕ) (pdu : Bytes) (r : Result SmppError AlertNotification) (s : Session)
    → IsStep n s (notify pdu r s).0
notify-IsStep n pdu (ok p) s = spawn-IsStep n s _
notify-IsStep n pdu (err e) s = send_or_stop-IsStep n s _
notify-IsStep n pdu panic s = stays-IsStep n s

module _ (nom : Nom) (on_unbind : HeaderOnly → HeaderOnly) (now : ℕ) where
  dispatch-After :
      (h : CommandHeader) (pdu : Bytes) (s : Session)
      → After h.sequence_number s (dispatch nom on_unbind now h pdu s)
  unfolding dispatch
  dispatch-After h pdu s =
      let n = h.sequence_number in
      let transmits = may_transmit s.bound_type in
      let polite = refuse_by_nack-IsPolite pdu in
      branch-After n s (h.command_id == id_of CommandId.deliver_sm && may_receive s.bound_type) _ _
        (request-After n _ _ _ s)
        (branch-After n s (h.command_id == id_of CommandId.data_sm) _ _ (request-After n _ _ _ s) (
          branch-After n s (h.command_id == id_of CommandId.submit_sm_resp && transmits) _ _
            (response-After now n _ _ s polite)
            (branch-After n s (h.command_id == id_of CommandId.submit_multi_resp && transmits) _ _
              (response-After now n _ _ s polite)
              (branch-After n s (h.command_id == id_of CommandId.data_sm_resp && transmits) _ _
                (response-After now n _ _ s polite)
                (branch-After n s (h.command_id == id_of CommandId.cancel_sm_resp) _ _
                  (response-After now n _ _ s polite)
                  (branch-After n s (h.command_id == id_of CommandId.query_sm_resp) _ _
                    (response-After now n _ _ s polite)
                    (branch-After n s (h.command_id == id_of CommandId.replace_sm_resp) _ _
                      (response-After now n _ _ s polite)
                      (branch-After n s (h.command_id == id_of CommandId.alert_notification) _ _
                        (record { step = notify-IsStep n pdu _ s })
                        (branch-After n s (h.command_id == id_of CommandId.enquire_link) _ _
                          (record { step = handle_enquire_link-IsStep n _ _ s })
                          (branch-After n s (h.command_id == id_of CommandId.enquire_link_resp) _ _
                            (record { step = handle_enquire_link_resp-IsStep now n s })
                            (branch-After n s (h.command_id == id_of CommandId.unbind) _ _
                              (record { step = handle_unbind-IsStep on_unbind n _ _ s })
                              (branch-After n s (h.command_id == id_of CommandId.unbind_resp) _ _
                                (record { step = handle_unbind_resp-IsStep h pdu now s })
                                (branch-After n s (h.command_id == id_of CommandId.generic_nack) _ _
                                  (response-After now n _ _ s (λ m e t. (stays-IsStep m t, refl)))
                                  (record { step = send_or_stop-IsStep n s _ }))))))))))))))

  handled_by_header :
      (s : Session) (pdu : Bytes) (d : Result SmppError CommandHeader)
      → IsStep (number_in d) s (on_header nom on_unbind now pdu d s).0
  handled_by_header s pdu (ok h) = (dispatch-After h pdu s).step
  handled_by_header s pdu (err e) = abort-IsStep 0 s _ (send-IsStep 0 s _)
  handled_by_header s pdu panic = stays-IsStep 0 s

  -- Whatever bytes a PDU has, the client's handling of it sends at most one PDU, takes at most one entry
  -- off the pending map, the one of its header's sequence number, and leaves the binding, the timer and
  -- the writer as they are.
  pub client_handle_pdu-IsStep :
      (s : Session) (pdu : Bytes)
      → IsStep (number_in (Header.decode pdu)) s (handle_pdu nom on_unbind now s pdu).0
  unfolding handle_pdu
  client_handle_pdu-IsStep s pdu = handled_by_header s pdu (Header.decode pdu)
