-- ===== src/Server/Session/Responses.antt =====
-- server/state.rs, `read_loop`: responses of the peer, and the callers that wait for them.
use smpp.Base.{
  ℕ, ◌+◌, ◌≡◌, refl, ◌∙◌, true, false, none, some, [], ◌∷◌, ◌++◌, arith, Bytes, IsU32, length,
}
use smpp.Nom.{Nom, NomLaws}
use smpp.Common.Error.{SmppError, esme_rinvcmdid}
use smpp.Common.Command.{CommandId, id_of}
use smpp.Common.Header.{CommandHeader, IsHeader, decode-encode}
use smpp.Common.Header
use smpp.Commands.HeaderOnly.{HeaderOnly}
use smpp.Commands.HeaderOnly
use smpp.Commands.DeliverSm.{DeliverSm}
use smpp.Commands.DeliverSm.Response as DeliverResp
use smpp.Commands.DeliverSm.Response.{deliver_sm_accept-Arrives}
use smpp.Commands.DataSm.Response as DataResp
use smpp.Commands.DataSm.Response.{data_sm_resp-Arrives}
use smpp.Server.Pending.{Entry, find, erase, lapsed}
use smpp.Server.State.{
  BoundType, may_transmit, Session, deliver_reply, data_reply, nack_reply, go_on, send_or_stop,
}
use smpp.Server.Handle.{
  refuse_by_submit, as_reply, potential_seq_no, handle_response, time_out, deliver,
}
use smpp.Server.Session.{handle_pdu}
use smpp.Server.Session.Requests.{refused_on_receiver}
use smpp.Server.Session.Branches
use smpp.Server.Session.Branches.{handle_pdu-header, for_deliver_sm_resp}
use smpp.Server.Handle.Answers.{
  handle_response_in_time, handle_response_late, handle_response_unknown,
}

module _ {nom : Nom} (laws : NomLaws nom) (on_unbind : HeaderOnly → HeaderOnly) (now : ℕ)
    (s : Session) where
  -- On a session that may transmit, the deliver_sm_resp that accepts a pending deliver_sm goes to the
  -- caller that waits for its sequence number, if it comes in time, and that entry is removed.
  pub deliver_sm_resp_delivered :
      (p : DeliverSm) (entry : Entry)
      → may_transmit s.bound_type ≡ true
      → IsU32 p.header.sequence_number
      → find p.header.sequence_number s.pending ≡ some entry
      → lapsed now s.response_timer entry ≡ false
      → handle_pdu nom on_unbind now s (DeliverResp.encode (DeliverResp.accept p)) ≡ (
        deliver entry.reply_to
            (deliver_reply (DeliverResp.accept p))
            (record s { pending = erase p.header.sequence_number s.pending }),
        go_on,
      )
  unfolding DeliverResp.accept
  deliver_sm_resp_delivered p entry t small f l =
      let (a, d) = deliver_sm_accept-Arrives laws p small in
      handle_pdu-header nom on_unbind now s _ (DeliverResp.accept p).header a.header_read
      ∙ Branches.dispatch-deliver_sm_resp nom on_unbind now s _ (DeliverResp.accept p).header t refl
      ∙ rw (d) (
          handle_response_in_time now p.header.sequence_number _ s entry
            (deliver_reply (DeliverResp.accept p)) f l)

  -- A valid data_sm_resp to a pending request goes to the caller that waits for its sequence number, if
  -- it comes in time, and that entry is removed.
  pub data_sm_resp_delivered :
      (r : DataResp.DataSmResp) (entry : Entry)
      → DataResp.IsValid r
      → r.header.command_id ≡ id_of CommandId.data_sm_resp
      → find r.header.sequence_number s.pending ≡ some entry
      → lapsed now s.response_timer entry ≡ false
      → handle_pdu nom on_unbind now s (DataResp.encode r) ≡ (
        deliver entry.reply_to
            (data_reply (record r { header = DataResp.sent_header r }))
            (record s { pending = erase r.header.sequence_number s.pending }),
        go_on,
      )
  unfolding DataResp.sent_header
  data_sm_resp_delivered r entry v e f l =
      let (a, d) = data_sm_resp-Arrives laws r v in
      handle_pdu-header nom on_unbind now s _ (DataResp.sent_header r) a.header_read
      ∙ Branches.dispatch-data_sm_resp nom on_unbind now s _ (DataResp.sent_header r) e
      ∙ rw (d) (
          handle_response_in_time now r.header.sequence_number _ s entry
            (data_reply (record r { header = DataResp.sent_header r })) f l)

module _ (nom : Nom) (on_unbind : HeaderOnly → HeaderOnly) (now : ℕ) (s : Session) where
  -- A generic_nack of a pending request goes to the caller that waits for its sequence number, if it
  -- comes in time, and that entry is removed.
  pub generic_nack_delivered :
      (error : SmppError) (n : ℕ) (entry : Entry)
      → IsU32 n
      → find n s.pending ≡ some entry
      → lapsed now s.response_timer entry ≡ false
      → handle_pdu nom on_unbind now s (HeaderOnly.encode (HeaderOnly.generic_nack_new error n)) ≡ (
        deliver entry.reply_to
            (nack_reply (HeaderOnly.generic_nack_new error n))
            (record s { pending = erase n s.pending }),
        go_on,
      )
  generic_nack_delivered error n entry small f l =
      handle_pdu-header nom on_unbind now s _ (HeaderOnly.generic_nack_new error n).header
        (HeaderOnly.bare_sent CommandId.generic_nack error n small).header_read
      ∙ Branches.dispatch-generic_nack nom on_unbind now s _
          (HeaderOnly.generic_nack_new error n).header refl
      ∙ rw (HeaderOnly.bare_decoded CommandId.generic_nack error n) (
          handle_response_in_time now n _ s entry (nack_reply (HeaderOnly.generic_nack_new error n))
            f l)

  dispatched :
      (h : CommandHeader) (body : Bytes)
      → IsHeader h
      → h.command_length ≡ 16 + length body
      → h.command_id ≡ id_of CommandId.data_sm_resp
      → handle_pdu nom on_unbind now s (Header.encode h ++ body)
        ≡ handle_response now h.sequence_number
            (refuse_by_submit (potential_seq_no (Header.encode h ++ body)))
            (as_reply data_reply (DataResp.decode nom h (Header.encode h ++ body)))
            s
  dispatched h body v states e =
      handle_pdu-header nom on_unbind now s (Header.encode h ++ body) h
        (decode-encode h body v states)
      ∙ Branches.dispatch-data_sm_resp nom on_unbind now s (Header.encode h ++ body) h e

  -- A data_sm_resp whose sequence number is not pending changes nothing and is not answered, whatever its
  -- body is.
  pub data_sm_resp_unknown :
      (h : CommandHeader) (body : Bytes)
      → IsHeader h
      → h.command_length ≡ 16 + length body
      → h.command_id ≡ id_of CommandId.data_sm_resp
      → find h.sequence_number s.pending ≡ none
      → handle_pdu nom on_unbind now s (Header.encode h ++ body) ≡ (s, go_on)
  data_sm_resp_unknown h body v states e f =
      dispatched h body v states e ∙ handle_response_unknown now h.sequence_number _ s _ f

  -- A data_sm_resp that comes in later than the response timer allows is not delivered, whatever its body
  -- is: its sequence number is reported to `on_timeout`, and its entry is removed.
  pub data_sm_resp_late :
      (h : CommandHeader) (body : Bytes) (entry : Entry)
      → IsHeader h
      → h.command_length ≡ 16 + length body
      → h.command_id ≡ id_of CommandId.data_sm_resp
      → find h.sequence_number s.pending ≡ some entry
      → lapsed now s.response_timer entry ≡ true
      → handle_pdu nom on_unbind now s (Header.encode h ++ body) ≡ (
        time_out (record s { pending = erase h.sequence_number s.pending }) h.sequence_number,
        go_on,
      )
  data_sm_resp_late h body entry v states e f l =
      dispatched h body v states e ∙ handle_response_late now h.sequence_number _ s _ entry f l

  -- At a session bound as a receiver, the deliver_sm_resp that accepts a deliver_sm is answered by a
  -- generic_nack with ESME_RINVCMDID.
  pub deliver_sm_resp_refused :
      (p : DeliverSm)
      → s.bound_type ≡ BoundType.bound_rx
      → IsU32 p.header.sequence_number
      → handle_pdu nom on_unbind now s (DeliverResp.encode (DeliverResp.accept p))
        ≡ send_or_stop s (
            HeaderOnly.encode (HeaderOnly.generic_nack_new esme_rinvcmdid p.header.sequence_number))
  unfolding DeliverResp.accept DeliverResp.encode
  deliver_sm_resp_refused p rx small =
      refused_on_receiver nom on_unbind now s CommandId.deliver_sm_resp
        (DeliverResp.accept p).header (0 ∷ []) for_deliver_sm_resp refl (ground arith) refl rx
