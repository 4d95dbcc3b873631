-- ===== src/Client/Session/Answers.antt =====
-- client/mod.rs, the read loop: requests of the server, and its answers to the requests of this side.
use smpp.Base.{
  [], ◌∷◌, ap, ℕ, ◌+◌, ◌≡◌, ◌≤◌, refl, ◌∙◌, true, false, none, some, ◌++◌, ◌<◌, List, All, Bytes,
  IsU32, length, ok, Option, arith,
}
use smpp.Nom.{Nom, NomLaws}
use smpp.Common.Error.{SmppError}
use smpp.Common.Command.{CommandId, id_of}
use smpp.Common.CString.{is_c_string}
use smpp.Common.Header.{CommandHeader, IsHeader, decode-encode}
use smpp.Common.Header
use smpp.Commands.HeaderOnly.{HeaderOnly}
use smpp.Commands.HeaderOnly
use smpp.Commands.DeliverSm.{DeliverSm}
use smpp.Commands.DeliverSm
use smpp.Commands.DeliverSm.Laws as DeliverSmLaws
use smpp.Commands.SubmitSm.{SubmitSm}
use smpp.Commands.SubmitSm.Response as SubmitResp
use smpp.Commands.SubmitSmMulti.{SubmitSmMulti}
use smpp.Commands.SubmitSmMulti.Response as MultiResp
use smpp.Commands.QuerySm.{QuerySm}
use smpp.Commands.QuerySm.Response as QueryResp
use smpp.Commands.AlertNotification.{AlertNotification}
use smpp.Commands.AlertNotification
use smpp.Server.Pending.{Entry, find, erase, lapsed}
use smpp.Server.State.{
  Session, may_transmit, may_receive, spawn, on_deliver_sm, on_alert_notification, submit_reply,
  submit_multi_reply, query_reply, unbind_reply, Reply, Flow, go_on, unbound,
}
use smpp.Server.Handle.{handle_enquire_link_resp, deliver, time_out, handle_request}
use smpp.Server.Handle.Answers.{
  handle_response_in_time, handle_response_late, handle_response_unknown,
}
use smpp.Client.Session.{handle_pdu, handle_unbind_resp}
use smpp.Client.Session.Branches.{handle_pdu-header, IsAnswer}
use smpp.Client.Session.Branches

-- The reply is handed to the caller of the entry, which is taken off the map, and nothing else of the
-- session changes.
abbrev pub delivered : ℕ → Entry → Reply → Session → Session × Flow
delivered n entry reply s =
    (deliver entry.reply_to reply (record s { pending = erase n s.pending }), go_on)

accept_id :
    (p : SubmitSm) (message_id : Bytes) (r : SubmitResp.SubmitSmResp)
    → SubmitResp.accept p message_id ≡ ok r
    → r.header.command_id ≡ id_of CommandId.submit_sm_resp
unfolding SubmitResp.accept
accept_id p message_id r e = ground arith

notification_id :
    (n ton npi : ℕ) (sa : Bytes) (eton enpi : ℕ) (ea : Bytes) (status : Option ℕ)
    (p : AlertNotification)
    → AlertNotification.new n ton npi sa eton enpi ea status ≡ ok p
    → p.header.command_id ≡ id_of CommandId.alert_notification
unfolding AlertNotification.new
notification_id n ton npi sa eton enpi ea status p e = ground arith

module _ {nom : Nom} (laws : NomLaws nom) (on_unbind : HeaderOnly → HeaderOnly) (now : ℕ)
    (s : Session) where
  -- A valid deliver_sm with its own command_id, at a client that is bound as a receiver or transceiver,
  -- is handed to `on_deliver_sm` as it was sent, and nothing else of the session changes.
  pub deliver_sm_spawned :
      (p : DeliverSm)
      → may_receive s.bound_type ≡ true
      → p.header.command_id ≡ id_of CommandId.deliver_sm
      → DeliverSmLaws.IsValid p
      → handle_pdu nom on_unbind now s (DeliverSm.encode p)
        ≡ (spawn s (on_deliver_sm (record p { header = DeliverSm.sent_header p })), go_on)
  unfolding handle_request DeliverSm.sent_header
  deliver_sm_spawned p t e v =
      let (a, d) = DeliverSmLaws.deliver_sm-Arrives laws p v in
      handle_pdu-header nom on_unbind now s (DeliverSm.encode p) (DeliverSm.sent_header p)
        a.header_read
      ∙ Branches.dispatch-deliver_sm nom on_unbind now s (DeliverSm.encode p)
          (DeliverSm.sent_header p) t e
      ∙ rw (d)

  -- An alert_notification that `new` built is handed to `on_alert_notification` as it was sent.
  pub alert_notification_notified :
      (sequence_number source_addr_ton source_addr_npi : ℕ) (source_addr : Bytes)
      (esme_addr_ton esme_addr_npi : ℕ) (esme_addr : Bytes) (status : Option ℕ)
      (p : AlertNotification)
      → IsU32 sequence_number
      → AlertNotification.new sequence_number source_addr_ton source_addr_npi source_addr
          esme_addr_ton esme_addr_npi esme_addr status
        ≡ ok p
      → is_c_string p.source_addr ≡ true
      → is_c_string p.esme_addr ≡ true
      → handle_pdu nom on_unbind now s (AlertNotification.encode p)
        ≡ (spawn s (on_alert_notification p), go_on)
  alert_notification_notified n ton npi sa eton enpi ea status p small e hs he =
      let (a, d) =
        AlertNotification.alert_notification-Arrives laws n ton npi sa eton enpi ea status p small e
          hs he in
      handle_pdu-header nom on_unbind now s _ p.header a.header_read
      ∙ Branches.dispatch-alert_notification nom on_unbind now s _ p.header
          (notification_id n ton npi sa eton enpi ea status p e)
      ∙ rw (d)

  -- At a client that may transmit, the submit_sm_resp that accepts a pending submit_sm under a
  -- message_id goes to the caller that waits for its sequence number, if it comes in time, and that
  -- entry is removed.
  pub submit_sm_resp_delivered :
      (p : SubmitSm) (message_id : Bytes) (r : SubmitResp.SubmitSmResp) (entry : Entry)
      → may_transmit s.bound_type ≡ true
      → IsU32 p.header.sequence_number
      → is_c_string message_id ≡ true
      → SubmitResp.accept p message_id ≡ ok r
      → find p.header.sequence_number s.pending ≡ some entry
      → lapsed now s.response_timer entry ≡ false
      → handle_pdu nom on_unbind now s (SubmitResp.encode r)
        ≡ delivered p.header.sequence_number entry (submit_reply r) s
  submit_sm_resp_delivered p message_id r entry t small text e f l =
      let (n, _, _, a, d) = SubmitResp.submit_sm_accept-Arrives laws p message_id r small text e in
      handle_pdu-header nom on_unbind now s _ r.header a.header_read
      ∙ Branches.dispatch-submit_sm_resp nom on_unbind now s _ r.header t
          (accept_id p message_id r e)
      ∙ rw (d) (
          handle_response_in_time now r.header.sequence_number _ s entry (submit_reply r)
            (rw (n, f)) l)
      ∙ ap (λ k. delivered k entry (submit_reply r) s) n

  -- The same of submit_multi, for a list of fewer than 256 refused destinations.
  pub submit_multi_resp_delivered :
      (p : SubmitSmMulti) (message_id : Bytes) (us : List MultiResp.UnsuccessSme) (entry : Entry)
      → may_transmit s.bound_type ≡ true
      → IsU32 p.header.sequence_number
      → is_c_string message_id ≡ true
      → All MultiResp.IsUnsuccess us
      → length us < 256
      → length message_id + MultiResp.all_len us ≤ 1000000
      → find p.header.sequence_number s.pending ≡ some entry
      → lapsed now s.response_timer entry ≡ false
      → handle_pdu nom on_unbind now s (MultiResp.encode (MultiResp.accept p message_id us))
        ≡ delivered p.header.sequence_number entry
            (submit_multi_reply (MultiResp.accept p message_id us))
            s
  unfolding MultiResp.accept
  submit_multi_resp_delivered p message_id us entry t small text v few fits f l =
      let r = MultiResp.accept p message_id us in
      let (a, d) =
        MultiResp.submit_sm_multi_accept-Arrives laws p message_id us small text v few fits in
      handle_pdu-header nom on_unbind now s _ r.header a.header_read
      ∙ Branches.dispatch-submit_multi_resp nom on_unbind now s _ r.header t refl
      ∙ rw (d) (
          handle_response_in_time now p.header.sequence_number _ s entry (submit_multi_reply r) f l)

  -- The same of query_sm, at a client of any binding.
  pub query_sm_resp_delivered :
      (p : QuerySm) (message_id final_date : Bytes) (message_state error_code : ℕ) (entry : Entry)
      → IsU32 p.header.sequence_number
      → is_c_string message_id ≡ true
      → is_c_string final_date ≡ true
      → length message_id + length final_date ≤ 65536
      → find p.header.sequence_number s.pending ≡ some entry
      → lapsed now s.response_timer entry ≡ false
      → handle_pdu nom on_unbind now s
          (QueryResp.encode (QueryResp.accept p message_id final_date message_state error_code))
        ≡ delivered p.header.sequence_number entry
            (query_reply (QueryResp.accept p message_id final_date message_state error_code))
            s
  unfolding QueryResp.accept
  query_sm_resp_delivered p message_id final_date state code entry small mt ft fits f l =
      let r = QueryResp.accept p message_id final_date state code in
      let (_, a, d) =
        QueryResp.query_sm_accept-Arrives laws p message_id final_date state code small mt ft
          fits in
      handle_pdu-header nom on_unbind now s _ r.header a.header_read
      ∙ Branches.dispatch-query_sm_resp nom on_unbind now s _ r.header refl
      ∙ rw (d) (handle_response_in_time now p.header.sequence_number _ s entry (query_reply r) f l)

module _ (nom : Nom) (on_unbind : HeaderOnly → HeaderOnly) (now : ℕ) (s : Session) where
  -- The unbind_resp to a pending unbind, if it comes in time, goes to the caller if one waits, its
  -- entry is removed, and it ends the read loop, with any status.
  pub unbind_resp_ends :
      (error : SmppError) (n : ℕ) (entry : Entry)
      → IsU32 n
      → find n s.pending ≡ some entry
      → lapsed now s.response_timer entry ≡ false
      → let r = HeaderOnly.bare CommandId.unbind_resp error n in
        handle_pdu nom on_unbind now s (HeaderOnly.encode r) ≡ (
          deliver entry.reply_to (unbind_reply r) (record s { pending = erase n s.pending }),
          unbound,
        )
  unfolding handle_unbind_resp
  unbind_resp_ends error n entry small f l =
      handle_pdu-header nom on_unbind now s _ (HeaderOnly.bare CommandId.unbind_resp error n).header
        (HeaderOnly.bare_sent CommandId.unbind_resp error n small).header_read
      ∙ Branches.dispatch-unbind_resp nom on_unbind now s _
          (HeaderOnly.bare CommandId.unbind_resp error n).header refl
      ∙ rw (HeaderOnly.bare_decoded CommandId.unbind_resp error n) (ground arith)

  -- The enquire_link_resp to a pending enquire_link, if it comes in time, is forwarded to the ticker, and
  -- its entry is removed.
  pub enquire_link_resp_forwarded :
      (error : SmppError) (n : ℕ) (entry : Entry)
      → IsU32 n
      → find n s.pending ≡ some entry
      → lapsed now s.response_timer entry ≡ false
      → handle_pdu nom on_unbind now s
          (HeaderOnly.encode (HeaderOnly.bare CommandId.enquire_link_resp error n))
        ≡ (
          record s {
            pending = erase n s.pending;
            enquire_link_resps = s.enquire_link_resps ++ (n ∷ []);
          },
          go_on,
        )
  unfolding handle_enquire_link_resp
  enquire_link_resp_forwarded error n entry small f l =
      let h = (HeaderOnly.bare CommandId.enquire_link_resp error n).header in
      handle_pdu-header nom on_unbind now s _ h
        (HeaderOnly.bare_sent CommandId.enquire_link_resp error n small).header_read
      ∙ Branches.dispatch-enquire_link_resp nom on_unbind now s _ h refl
      ∙ ground arith

  module _ {id : CommandId} (answer : IsAnswer id) (h : CommandHeader) (body : Bytes)
      (transmits : may_transmit s.bound_type ≡ true) (v : IsHeader h)
      (states : h.command_length ≡ 16 + length body) (e : h.command_id ≡ id_of id) where
    -- At a client that may transmit, an answer of any kind whose sequence number is not pending changes
    -- nothing and is not answered, whatever its body is, if its header fits and states its length.
    pub answer_unknown :
        find h.sequence_number s.pending ≡ none
        → handle_pdu nom on_unbind now s (Header.encode h ++ body) ≡ (s, go_on)
    answer_unknown f =
        let pdu = Header.encode h ++ body in
        let (refused, (decoded, d)) =
          Branches.dispatch-IsAnswer nom on_unbind now s pdu h answer e transmits in
        handle_pdu-header nom on_unbind now s pdu h (decode-encode h body v states)
        ∙ d
        ∙ handle_response_unknown now h.sequence_number refused s decoded f

    -- At a client that may transmit, an answer of any kind that comes in later than the response timer
    -- allows is not delivered, whatever its body is, if its header fits and states its length: its
    -- sequence number is reported to `on_timeout`, and its entry is removed.
    pub answer_late :
        (entry : Entry)
        → find h.sequence_number s.pending ≡ some entry
        → lapsed now s.response_timer entry ≡ true
        → handle_pdu nom on_unbind now s (Header.encode h ++ body) ≡ (
          time_out (record s { pending = erase h.sequence_number s.pending }) h.sequence_number,
          go_on,
        )
    answer_late entry f l =
        let pdu = Header.encode h ++ body in
        let (refused, (decoded, d)) =
          Branches.dispatch-IsAnswer nom on_unbind now s pdu h answer e transmits in
        handle_pdu-header nom on_unbind now s pdu h (decode-encode h body v states)
        ∙ d
        ∙ handle_response_late now h.sequence_number refused s decoded entry f l
