-- ===== src/Server/Session/Survives.antt =====
-- server/state.rs, `read_loop`: bytes of any kind, and panics.
use smpp.Base.{ℕ, ◌≢◌, ◌≤◌, sym, arith, Bytes, length, take, length-take, Result, ◌==◌, ◌&&◌}
use mathlib.Core.Path.{subst}
use smpp.Nom.{Nom, NomLaws}
use smpp.Common.Error.{SmppError}
use smpp.Common.Command.{CommandId, id_of}
use smpp.Common.Header.{CommandHeader}
use smpp.Common.Header
use smpp.Common.Header.Decode.{decode_lem}
use smpp.Common.Framing.{frame_first_pdu-IsFrame}
use smpp.Common.Wire.{max_pdu_len}
use smpp.Common.Settles.{Settles, gives, refuses, if-Settles}
use smpp.Commands.Settles as Commands
use smpp.Commands.HeaderOnly.{HeaderOnly}
use smpp.Server.State.{may_transmit, Session, Flow, panicked}
use smpp.Server.Session.{handle_pdu, dispatch, on_header}
use smpp.Server.Handle.Survives.{
  Survives, alive, dead, Survives-flow, if-Survives, send_or_stop-Survives, handle_request-Survives,
  as_reply-Settles, handle_response-Survives, handle_enquire_link_resp-Survives,
  handle_enquire_link-Survives, handle_unbind-Survives,
}
use smpp.Server.ReadLoop.{drain_buffer}
use smpp.Server.ReadLoop.Framed.{Drains, refuses, drain_buffer_total}

pub header-Settles : (pdu : Bytes) → 16 ≤ length pdu → Settles (Header.decode pdu)
header-Settles pdu enough =
    subst Settles (sym ((decode_lem pdu).1 enough)) (if-Settles _ _ _ (gives _) (refuses _))

-- A loop over a handler that survives every PDU that holds a header.
module _ (handle : Session → Bytes → Session × Flow)
    (h : (s : Session) (pdu : Bytes) → 16 ≤ length pdu → Survives (handle s pdu)) where
  Drains-flow :
      {s t : Session} {b rest : Bytes} {f : Flow} → Drains handle s b t rest f → f ≢ panicked
  Drains-flow (Drains.waits e) = λ q. cc
  Drains-flow (Drains.refuses n e) = λ q. cc
  Drains-flow (Drains.goes_on n e g d) = Drains-flow d
  Drains-flow (Drains.stops {s = s} {b = b} n e g x) =
      let i = frame_first_pdu-IsFrame b max_pdu_len n e in
      let enough : 16 ≤ length (take n b) =
        omega (arith, length-take n b, i.holds_header, i.present) in
      subst (λ y. y.1 ≢ panicked) g (Survives-flow (h s (take n b) enough))

  pub drains_calmly : (s : Session) (buffer : Bytes) → (drain_buffer handle s buffer).1.1 ≢ panicked
  drains_calmly s buffer =
      let (t, (rest, (f, (d, e)))) = drain_buffer_total handle s buffer in
      subst (λ r. r.1.1 ≢ panicked) (sym e) (Drains-flow d)

module _ {nom : Nom} (laws : NomLaws nom) (on_unbind : HeaderOnly → HeaderOnly) (now : ℕ) where
  dispatch-Survives :
      (h : CommandHeader) (pdu : Bytes) (s : Session)
      → 16 ≤ length pdu
      → Survives (dispatch nom on_unbind now h pdu s)
  unfolding dispatch
  dispatch-Survives h pdu s enough =
      let transmits = may_transmit s.bound_type in
      if-Survives (h.command_id == id_of CommandId.submit_sm && transmits) _ _
        (handle_request-Survives _ _ _ s (Commands.submit_sm-Settles laws h pdu))
        (if-Survives (h.command_id == id_of CommandId.submit_multi && transmits) _ _
          (handle_request-Survives _ _ _ s (Commands.submit_multi-Settles laws h pdu enough))
          (if-Survives (h.command_id == id_of CommandId.data_sm) _ _
            (handle_request-Survives _ _ _ s (Commands.data_sm-Settles laws h pdu))
            (if-Survives (h.command_id == id_of CommandId.cancel_sm && transmits) _ _
              (handle_request-Survives _ _ _ s (Commands.cancel_sm-Settles laws h pdu))
              (if-Survives (h.command_id == id_of CommandId.query_sm && transmits) _ _
                (handle_request-Survives _ _ _ s (Commands.query_sm-Settles laws h pdu))
                (if-Survives (h.command_id == id_of CommandId.replace_sm && transmits) _ _
                  (handle_request-Survives _ _ _ s (Commands.replace_sm-Settles laws h pdu))
                  (if-Survives (h.command_id == id_of CommandId.enquire_link) _ _
                    (handle_enquire_link-Survives _ _ s
                      (Commands.header_only-Settles CommandId.enquire_link h pdu))
                    (if-Survives (h.command_id == id_of CommandId.enquire_link_resp) _ _
                      (handle_enquire_link_resp-Survives now h.sequence_number s)
                      (if-Survives (h.command_id == id_of CommandId.unbind) _ _
                        (handle_unbind-Survives on_unbind _ _ s
                          (Commands.header_only-Settles CommandId.unbind h pdu))
                        (if-Survives (h.command_id == id_of CommandId.deliver_sm_resp && transmits)
                          _ _
                          (handle_response-Survives now _ _ _ s (λ e t. send_or_stop-Survives t _)
                            (as_reply-Settles _ _ (Commands.deliver_sm_resp-Settles laws h pdu)))
                          (if-Survives (h.command_id == id_of CommandId.data_sm_resp) _ _
                            (handle_response-Survives now _ _ _ s (λ e t. send_or_stop-Survives t _)
                              (as_reply-Settles _ _ (Commands.data_sm_resp-Settles laws h pdu)))
                            (if-Survives (h.command_id == id_of CommandId.generic_nack) _ _
                              (handle_response-Survives now _ _ _ s (λ e t. alive t)
                                (as_reply-Settles _ _
                                  (Commands.header_only-Settles CommandId.generic_nack h pdu)))
                              (send_or_stop-Survives s _))))))))))))

  on_header-Survives :
      (pdu : Bytes) (s : Session) (d : Result SmppError CommandHeader)
      → 16 ≤ length pdu
      → Settles d
      → Survives (on_header nom on_unbind now pdu d s)
  on_header-Survives pdu s d enough (gives h) = dispatch-Survives h pdu s enough
  on_header-Survives pdu s d enough (refuses e) = dead _

  handle_pdu-Survives :
      (s : Session) (pdu : Bytes) → 16 ≤ length pdu → Survives (handle_pdu nom on_unbind now s pdu)
  unfolding handle_pdu
  handle_pdu-Survives s pdu enough =
      on_header-Survives pdu s (Header.decode pdu) enough (header-Settles pdu enough)

  -- Whatever bytes a peer has sent to a bound session of the server, whatever its binding and its pending
  -- requests are: the loop over the buffer does not panic.
  pub drain_buffer-Survives :
      (s : Session) (buffer : Bytes)
      → (drain_buffer (handle_pdu nom on_unbind now) s buffer).1.1 ≢ panicked
  drain_buffer-Survives = drains_calmly (handle_pdu nom on_unbind now) handle_pdu-Survives
