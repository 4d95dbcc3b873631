-- ===== src/Client/Session/Survives.antt =====
-- client/mod.rs, the read loop: bytes of any kind, and panics.
use smpp.Base.{ℕ, ◌≢◌, ◌≤◌, Option, none, some, Bytes, length, Result, ◌==◌, ◌&&◌}
use smpp.Nom.{Nom, NomLaws}
use smpp.Common.Error.{SmppError}
use smpp.Common.Command.{CommandId, id_of}
use smpp.Common.Header.{CommandHeader}
use smpp.Common.Header
use smpp.Common.Settles.{Settles, gives, refuses}
use smpp.Commands.AlertNotification.{AlertNotification}
use smpp.Commands.Settles as Commands
use smpp.Commands.Settles.Answers
use smpp.Commands.HeaderOnly.{HeaderOnly}
use smpp.Server.Pending.{Entry, find, lapsed}
use smpp.Server.State.{Session, Reply, Flow, panicked, may_transmit, may_receive}
use smpp.Server.Handle.Survives.{
  Survives, alive, dead, over, if-Survives, send_or_stop-Survives, handle_request-Survives,
  as_reply-Settles, handle_response-Survives, handle_enquire_link_resp-Survives,
  handle_enquire_link-Survives, handle_unbind-Survives,
}
use smpp.Server.Session.Survives.{header-Settles, drains_calmly}
use smpp.Server.ReadLoop.{drain_buffer}
use smpp.Client.Session.{
  handle_pdu, dispatch, on_header, notify, complete_unbind, answer_unbind, handle_unbind_resp,
}

notify-Survives :
    (pdu : Bytes) (r : Result SmppError AlertNotification) (s : Session)
    → Settles r
    → Survives (notify pdu r s)
notify-Survives pdu r s (gives p) = alive _
notify-Survives pdu r s (refuses e) = send_or_stop-Survives s _

complete_unbind-Survives :
    (channel : Option ℕ) (refused : SmppError → Session → Session × Flow)
    (decoded : Result SmppError Reply) (s : Session)
    → ((e : SmppError) (t : Session) → Survives (refused e t))
    → Settles decoded
    → Survives (complete_unbind channel refused decoded s)
complete_unbind-Survives channel refused decoded s polite (gives reply) = over _
complete_unbind-Survives channel refused decoded s polite (refuses e) = polite e s

answer_unbind-Survives :
    (now n : ℕ) (refused : SmppError → Session → Session × Flow) (decoded : Result SmppError Reply)
    (s : Session) (found : Option Entry)
    → ((e : SmppError) (t : Session) → Survives (refused e t))
    → Settles decoded
    → Survives (answer_unbind now n refused decoded s found)
answer_unbind-Survives now n refused decoded s none polite d = alive s
answer_unbind-Survives now n refused decoded s (some entry) polite d =
    if-Survives (lapsed now s.response_timer entry) _ _ (alive _)
      (complete_unbind-Survives entry.reply_to refused decoded _ polite d)

handle_unbind_resp-Survives :
    (h : CommandHeader) (pdu : Bytes) (now : ℕ) (s : Session)
    → Survives (handle_unbind_resp h pdu now s)
unfolding handle_unbind_resp
handle_unbind_resp-Survives h pdu now s =
    answer_unbind-Survives now h.sequence_number _ _ s (find h.sequence_number s.pending)
      (λ e t. send_or_stop-Survives t _)
      (as_reply-Settles _ _ (Commands.header_only-Settles CommandId.unbind_resp h pdu))

module _ {nom : Nom} (laws : NomLaws nom) (on_unbind : HeaderOnly → HeaderOnly) (now : ℕ) where
  dispatch-Survives :
      (h : CommandHeader) (pdu : Bytes) (s : Session)
      → 16 ≤ length pdu
      → Survives (dispatch nom on_unbind now h pdu s)
  unfolding dispatch
  dispatch-Survives h pdu s enough =
      let transmits = may_transmit s.bound_type in
      (if-Survives (h.command_id == id_of CommandId.deliver_sm && may_receive s.bound_type) _ _
        (handle_request-Survives _ _ _ s (Commands.deliver_sm-Settles laws h pdu))
        (if-Survives (h.command_id == id_of CommandId.data_sm) _ _
          (handle_request-Survives _ _ _ s (Commands.data_sm-Settles laws h pdu))
          (if-Survives (h.command_id == id_of CommandId.submit_sm_resp && transmits) _ _
            (handle_response-Survives now _ _ _ s (λ e t. send_or_stop-Survives t _)
              (as_reply-Settles _ _ (Answers.submit_sm_resp-Settles laws h pdu enough)))
            (if-Survives (h.command_id == id_of CommandId.submit_multi_resp && transmits) _ _
              (handle_response-Survives now _ _ _ s (λ e t. send_or_stop-Survives t _)
                (as_reply-Settles _ _ (Answers.submit_multi_resp-Settles laws h pdu enough)))
              (if-Survives (h.command_id == id_of CommandId.data_sm_resp && transmits) _ _
                (handle_response-Survives now _ _ _ s (λ e t. send_or_stop-Survives t _)
                  (as_reply-Settles _ _ (Commands.data_sm_resp-Settles laws h pdu)))
                (if-Survives (h.command_id == id_of CommandId.cancel_sm_resp) _ _
                  (handle_response-Survives now _ _ _ s (λ e t. send_or_stop-Survives t _)
                    (as_reply-Settles _ _ (Answers.any-Settles h pdu)))
                  (if-Survives (h.command_id == id_of CommandId.query_sm_resp) _ _
                    (handle_response-Survives now _ _ _ s (λ e t. send_or_stop-Survives t _)
                      (as_reply-Settles _ _ (Answers.query_sm_resp-Settles laws h pdu)))
                    (if-Survives (h.command_id == id_of CommandId.replace_sm_resp) _ _
                      (handle_response-Survives now _ _ _ s (λ e t. send_or_stop-Survives t _)
                        (as_reply-Settles _ _ (Answers.any-Settles h pdu)))
                      (if-Survives (h.command_id == id_of CommandId.alert_notification) _ _
                        (notify-Survives pdu _ s (Answers.alert_notification-Settles laws h pdu))
                        (if-Survives (h.command_id == id_of CommandId.enquire_link) _ _
                          (handle_enquire_link-Survives _ _ s
                            (Commands.header_only-Settles CommandId.enquire_link h pdu))
                          (if-Survives (h.command_id == id_of CommandId.enquire_link_resp) _ _
                            (handle_enquire_link_resp-Survives now h.sequence_number s)
                            (if-Survives (h.command_id == id_of CommandId.unbind) _ _
                              (handle_unbind-Survives on_unbind _ _ s
                                (Commands.header_only-Settles CommandId.unbind h pdu))
                              (if-Survives (h.command_id == id_of CommandId.unbind_resp) _ _
                                (handle_unbind_resp-Survives h pdu now s)
                                (if-Survives (h.command_id == id_of CommandId.generic_nack) _ _
                                  (handle_response-Survives now _ _ _ s (λ e t. alive t)
                                    (as_reply-Settles _ _
                                      (Commands.header_only-Settles CommandId.generic_nack h pdu)))
                                  (send_or_stop-Survives s _)))))))))))))))

  on_header-Survives :
      (pdu : Bytes) (s : Session) (d : Result SmppError CommandHeader)
      → 16 ≤ length pdu
      → Settles d
      → Survives (on_header nom on_unbind now pdu d s)
  on_header-Survives pdu s d enough (gives h) = dispatch-Survives h pdu s enough
  on_header-Survives pdu s d enough (refuses e) = dead _

  handle_pdu-Survives :
      (s : Session) (pdu : Bytes) → 16 ≤ length pdu → Survives (handle_pdu nom on_unbind now s pdu)
  unfolding handle_pdu
  handle_pdu-Survives s pdu enough =
      on_header-Survives pdu s (Header.decode pdu) enough (header-Settles pdu enough)

  -- Whatever bytes a peer has sent to a bound session of the client, whatever its binding and its pending
  -- requests are: the loop over the buffer does not panic.
  pub client_drain-Survives :
      (s : Session) (buffer : Bytes)
      → (drain_buffer (handle_pdu nom on_unbind now) s buffer).1.1 ≢ panicked
  client_drain-Survives = drains_calmly (handle_pdu nom on_unbind now) handle_pdu-Survives
