-- ===== src/Examples/Links.antt =====
-- The theorems on the two sides of a connection at concrete sessions.
use smpp.Base.{◌≡◌, refl, [], ◌∷◌, arith, true, false, none, some, ok}
use smpp.Common.Error.{esme_rinvcmdid, esme_rok, esme_rinvpaswd}
use smpp.Common.Command.{CommandId}
use smpp.Common.Framing.{frame_first_pdu}
use smpp.Commands.HeaderOnly
use smpp.Commands.HeaderOnly.{HeaderOnly}
use smpp.Commands.Bind.{
  BindKind, transceiver, BindRequest, BindResponse, accept, reject, encode_bind_request,
  encode_bind_response,
}
use smpp.Server.State.{bound_rx, bound_tx, bound_trx, send_or_stop, go_on}
use smpp.Server.Session as Server
use smpp.Server.ReadLoop.{drain_buffer}
use smpp.Server.ReadLoop.Chunks.{in_a_row}
use smpp.Server.Accept.{accept_pdu}
use smpp.Client.Bind.{bind_pdu, is_bound}
use smpp.Link.Submit.{submit_sm-IsRoundTrip}
use smpp.Link.Submit
use smpp.Link.Deliver.{deliver_sm-IsRoundTrip}
use smpp.Link.Deliver
use smpp.Link.Receiver.{deliver_sm-IsUnanswered}
use smpp.Link.Receiver
use smpp.Link.Bind.{bind_agreed, bind_refused}
use smpp.Link.Unbind.{unbind_resp_nacked, unbind-IsRoundTrip}
use smpp.Link.Unbind
use smpp.Link.Enquiry.{enquiry-IsRoundTrip}
use smpp.Link.Enquiry
use smpp.Commands.SubmitSm
use smpp.Link.Window.Pipelined.{IsPipelined, submissions-IsPipelined}
use mathlib.Core.List.{Permᴰ}
use smpp.Link.Pipeline.{IsSubmission, submissions_in_order, spawn_all, encode_all}
use smpp.Examples.Crates.{std_nom, std_nom_laws, std_from_primitive, std_from_primitive_laws}
use smpp.Examples.Messages.{alice, bob, submission, submission-IsValid, delivery, delivery-IsValid}
use smpp.Examples.Sides.{
  session, on_unbind, peer, login, login-new, login-IsText, bob-text, alice-text, accepted,
  accepted-accept, exchange, exchange-IsAccepted, exchange-IsSubmission,
}

submit_sm-IsRoundTrip_example :
    Submit.IsRoundTrip std_nom std_from_primitive on_unbind peer
      (session bound_trx)
      (session bound_tx)
      1400
      1500
      submission
      accepted
submit_sm-IsRoundTrip_example =
    submit_sm-IsRoundTrip std_nom_laws std_from_primitive on_unbind peer (session bound_trx)
      (session bound_tx) 1400 1500 submission bob accepted refl refl (omega arith) refl refl
      submission-IsValid refl bob-text accepted-accept (omega arith)

deliver_sm-IsRoundTrip_example :
    Deliver.IsRoundTrip std_nom std_from_primitive on_unbind peer
      (session bound_trx)
      (session bound_rx)
      1400
      1500
      delivery
deliver_sm-IsRoundTrip_example =
    deliver_sm-IsRoundTrip std_nom_laws std_from_primitive on_unbind peer (session bound_trx)
      (session bound_rx) 1400 1500 delivery refl refl (omega arith) refl refl delivery-IsValid refl
      (omega arith)

deliver_sm-IsUnanswered_example :
    Receiver.IsUnanswered std_nom std_from_primitive on_unbind peer
      (session bound_rx)
      (session bound_rx)
      1400
      1500
      delivery
deliver_sm-IsUnanswered_example =
    deliver_sm-IsUnanswered std_nom_laws std_from_primitive on_unbind peer (session bound_rx)
      (session bound_rx) 1400 1500 delivery refl refl refl (omega arith) refl refl delivery-IsValid
      refl

-- A listener that takes every bind, and one that takes none.
abbrev welcome : BindKind → BindRequest → BindResponse
welcome kind p = accept kind p alice (some 0x34)

abbrev unwelcome : BindKind → BindRequest → BindResponse
unwelcome kind p = reject kind p esme_rinvpaswd

bind_agreed_example :
    (bind_pdu transceiver bob alice [] 1 1 [] ≡ ok (encode_bind_request login))
    × (accept_pdu std_nom std_from_primitive welcome true (encode_bind_request login) ≡ record {
      sent = encode_bind_response (accept transceiver login alice (some 0x34)) ∷ [];
      bound = some (record { bound_type = bound_trx; system_id = bob });
    })
    × (is_bound transceiver (encode_bind_response (accept transceiver login alice (some 0x34)))
        ≡ true)
bind_agreed_example =
    bind_agreed std_nom_laws std_from_primitive_laws welcome transceiver bob alice [] 1 1 [] login
      login-new login-IsText alice (some 0x34) refl alice-text (omega arith)

bind_refused_example :
    (accept_pdu std_nom std_from_primitive unwelcome true (encode_bind_request login) ≡ record {
      sent = encode_bind_response (reject transceiver login esme_rinvpaswd) ∷ [];
      bound = none;
    })
    × (is_bound transceiver (encode_bind_response (reject transceiver login esme_rinvpaswd))
        ≡ false)
bind_refused_example =
    bind_refused std_nom_laws std_from_primitive_laws unwelcome transceiver bob alice [] 1 1 []
      login login-new login-IsText esme_rinvpaswd true (λ q. cc) refl

unbind_resp_nacked_example :
    Server.handle_pdu std_nom on_unbind 1500
      (session bound_trx)
      (HeaderOnly.encode (HeaderOnly.bare CommandId.unbind_resp esme_rok 7))
    ≡ send_or_stop
        (session bound_trx)
        (HeaderOnly.encode (HeaderOnly.generic_nack_new esme_rinvcmdid 7))
unbind_resp_nacked_example =
    unbind_resp_nacked std_nom on_unbind 1500 (session bound_trx) esme_rok 7 (omega arith)

unbind-IsRoundTrip_example :
    Unbind.IsRoundTrip std_nom std_from_primitive peer
      (session bound_rx)
      (session bound_rx)
      1400
      1500
unbind-IsRoundTrip_example =
    unbind-IsRoundTrip std_nom std_from_primitive peer (session bound_rx) (session bound_rx) 1400
      1500 refl refl (omega arith) (omega arith)

enquiry-IsRoundTrip_example :
    Enquiry.IsRoundTrip std_nom on_unbind peer (session bound_tx) (session bound_tx) 1400 1500
enquiry-IsRoundTrip_example =
    enquiry-IsRoundTrip std_nom on_unbind peer (session bound_tx) (session bound_tx) 1400 1500 refl
      refl (omega arith) (omega arith)

submissions_in_order_example :
    drain_buffer
      (Server.handle_pdu std_nom on_unbind 1500)
      (session bound_tx)
      (in_a_row (encode_all (submission ∷ submission ∷ [])) (0 ∷ []))
    ≡ (spawn_all (session bound_tx) (submission ∷ submission ∷ []), (0 ∷ [], go_on))
unfolding frame_first_pdu
submissions_in_order_example =
    let v : IsSubmission submission = record { valid = submission-IsValid; own_id = refl } in
    submissions_in_order std_nom_laws on_unbind 1500 (submission ∷ submission ∷ [])
      (session bound_tx) (0 ∷ []) refl (v, (v, tt)) refl

submissions-IsPipelined_example :
    IsPipelined std_nom on_unbind
      (session bound_tx)
      (session bound_trx)
      1500
      (exchange 8 3 ∷ exchange 9 4 ∷ [])
      (exchange 9 4 ∷ exchange 8 3 ∷ [])
unfolding SubmitSm.set_sequence_number
submissions-IsPipelined_example =
    submissions-IsPipelined std_nom_laws on_unbind (session bound_tx) (session bound_trx) 1500
      (exchange 8 3 ∷ exchange 9 4 ∷ []) (exchange 9 4 ∷ exchange 8 3 ∷ []) refl refl
      (exchange-IsSubmission 8 3 (omega arith), (exchange-IsSubmission 9 4 (omega arith), tt))
      (exchange-IsAccepted 8 3 (omega arith), (exchange-IsAccepted 9 4 (omega arith), tt))
      (((λ q. omega arith), tt), (tt, tt)) (refl, (refl, tt)) (Permᴰ.swap refl refl)
