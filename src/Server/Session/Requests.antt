-- ===== src/Server/Session/Requests.antt =====
-- server/state.rs, `read_loop`: requests of the peer, as the session handles them.
use smpp.Base.{ℕ, ◌≡◌, ◌<◌, refl, ◌∙◌, true, ◌++◌, ◌+◌, IsU32, arith, Bytes, length}
use smpp.Nom.{Nom, NomLaws}
use smpp.Common.Error.{esme_rinvcmdid, esme_rok}
use smpp.Common.Command.{CommandId, id_of}
use smpp.Common.Words.{be_u32_at, u32_of-u32_bytes}
use smpp.Common.Header.{CommandHeader, IsHeader, decode-encode}
use smpp.Common.Header
use smpp.Commands.HeaderOnly.{HeaderOnly}
use smpp.Commands.HeaderOnly
use smpp.Commands.SubmitSm.{SubmitSm}
use smpp.Commands.SubmitSm
use smpp.Commands.SubmitSm.Laws as SubmitSmLaws
use smpp.Commands.SubmitSmMulti.{SubmitSmMulti}
use smpp.Commands.SubmitSmMulti
use smpp.Commands.SubmitSmMulti.Laws as SubmitSmMultiLaws
use smpp.Commands.DataSm.{DataSm}
use smpp.Commands.DataSm
use smpp.Commands.DataSm.Laws as DataSmLaws
use smpp.Commands.QuerySm.{QuerySm}
use smpp.Commands.QuerySm
use smpp.Commands.QuerySm.Laws as QuerySmLaws
use smpp.Commands.ReplaceSm.{ReplaceSm}
use smpp.Commands.ReplaceSm
use smpp.Commands.ReplaceSm.Laws as ReplaceSmLaws
use smpp.Server.State.{
  BoundType, Session, may_transmit, spawn, on_cancel_sm, on_submit_sm, on_submit_sm_multi,
  on_data_sm, on_query_sm, on_replace_sm, go_on, unbound, send_or_stop, send,
}
use smpp.Commands.CancelSm.Laws.{misread, cancel_sm_misread}
use smpp.Server.Session.Branches
use smpp.Server.Session.Branches.{handle_pdu-header, IsForTransmitter}
use smpp.Server.Handle.{handle_unbind, handle_enquire_link, handle_request, potential_seq_no}
use smpp.Server.Session.{handle_pdu}

module _ {nom : Nom} (laws : NomLaws nom) (on_unbind : HeaderOnly → HeaderOnly) (now : ℕ) where
  -- A valid submit_sm with its own command_id, on a session that may transmit, is handed
  -- to `on_submit_sm` as it was sent, and nothing else of the session changes.
  pub submit_sm_spawned :
      (s : Session) (p : SubmitSm)
      → may_transmit s.bound_type ≡ true
      → p.header.command_id ≡ id_of CommandId.submit_sm
      → SubmitSmLaws.IsValid p
      → handle_pdu nom on_unbind now s (SubmitSm.encode p)
        ≡ (spawn s (on_submit_sm (record p { header = SubmitSm.sent_header p })), go_on)
  unfolding handle_request SubmitSm.sent_header
  submit_sm_spawned s p t e v =
      let (a, d) = SubmitSmLaws.submit_sm-Arrives laws p v in
      handle_pdu-header nom on_unbind now s (SubmitSm.encode p) (SubmitSm.sent_header p)
        a.header_read
      ∙ Branches.dispatch-submit_sm nom on_unbind now s (SubmitSm.encode p) (SubmitSm.sent_header p)
          t e
      ∙ rw (d)

  -- A valid submit_multi with its own command_id, on a session that may transmit, is handed
  -- to `on_submit_sm_multi` as it was sent, and nothing else of the session changes.
  pub submit_multi_spawned :
      (s : Session) (p : SubmitSmMulti)
      → may_transmit s.bound_type ≡ true
      → p.header.command_id ≡ id_of CommandId.submit_multi
      → SubmitSmMultiLaws.IsValid p
      → handle_pdu nom on_unbind now s (SubmitSmMulti.encode p)
        ≡ (spawn s (on_submit_sm_multi (record p { header = SubmitSmMulti.sent_header p })), go_on)
  unfolding handle_request SubmitSmMulti.sent_header
  submit_multi_spawned s p t e v =
      let (a, d) = SubmitSmMultiLaws.submit_sm_multi-Arrives laws p v in
      handle_pdu-header nom on_unbind now s (SubmitSmMulti.encode p) (SubmitSmMulti.sent_header p)
        a.header_read
      ∙ Branches.dispatch-submit_multi nom on_unbind now s (SubmitSmMulti.encode p)
          (SubmitSmMulti.sent_header p) t e
      ∙ rw (d)

  -- A valid data_sm with its own command_id is handed
  -- to `on_data_sm` as it was sent, and nothing else of the session changes.
  pub data_sm_spawned :
      (s : Session) (p : DataSm)
      → p.header.command_id ≡ id_of CommandId.data_sm
      → DataSmLaws.IsValid p
      → handle_pdu nom on_unbind now s (DataSm.encode p)
        ≡ (spawn s (on_data_sm (record p { header = DataSm.sent_header p })), go_on)
  unfolding handle_request DataSm.sent_header
  data_sm_spawned s p e v =
      let (a, d) = DataSmLaws.data_sm-Arrives laws p v in
      handle_pdu-header nom on_unbind now s (DataSm.encode p) (DataSm.sent_header p) a.header_read
      ∙ Branches.dispatch-data_sm nom on_unbind now s (DataSm.encode p) (DataSm.sent_header p) e
      ∙ rw (d)

  -- A valid query_sm with its own command_id, on a session that may transmit, is handed
  -- to `on_query_sm` as it was sent, and nothing else of the session changes.
  pub query_sm_spawned :
      (s : Session) (p : QuerySm)
      → may_transmit s.bound_type ≡ true
      → p.header.command_id ≡ id_of CommandId.query_sm
      → QuerySmLaws.IsValid p
      → handle_pdu nom on_unbind now s (QuerySm.encode p) ≡ (spawn s (on_query_sm p), go_on)
  unfolding handle_request
  query_sm_spawned s p t e v =
      let (a, d) = QuerySmLaws.query_sm-Arrives laws p v in
      handle_pdu-header nom on_unbind now s (QuerySm.encode p) p.header a.header_read
      ∙ Branches.dispatch-query_sm nom on_unbind now s (QuerySm.encode p) p.header t e
      ∙ rw (d)

  -- A valid replace_sm with its own command_id, on a session that may transmit, is handed
  -- to `on_replace_sm` as it was sent, and nothing else of the session changes.
  pub replace_sm_spawned :
      (s : Session) (p : ReplaceSm)
      → may_transmit s.bound_type ≡ true
      → p.header.command_id ≡ id_of CommandId.replace_sm
      → ReplaceSmLaws.IsValid p
      → handle_pdu nom on_unbind now s (ReplaceSm.encode p) ≡ (spawn s (on_replace_sm p), go_on)
  unfolding handle_request
  replace_sm_spawned s p t e v =
      let (a, d) = ReplaceSmLaws.replace_sm-Arrives laws p v in
      handle_pdu-header nom on_unbind now s (ReplaceSm.encode p) p.header a.header_read
      ∙ Branches.dispatch-replace_sm nom on_unbind now s (ReplaceSm.encode p) p.header t e
      ∙ rw (d)

-- The sequence number of a nack is the one of the header.
pub potential_seq_no_lem :
    (h : CommandHeader) (body : Bytes)
    → IsU32 h.sequence_number
    → potential_seq_no (Header.encode h ++ body) ≡ h.sequence_number
unfolding be_u32_at Header.encode
potential_seq_no_lem h body v = ground (arith, u32_of-u32_bytes h.sequence_number)

module _ (nom : Nom) (on_unbind : HeaderOnly → HeaderOnly) (now : ℕ) (s : Session) (n : ℕ)
    (small : IsU32 n) where
  -- On a session whose writer is open, an enquire_link is answered by an enquire_link_resp with its
  -- sequence number, whatever the session is bound as.
  pub enquire_link_answered :
      s.writer_open ≡ true
      → handle_pdu nom on_unbind now s (HeaderOnly.encode (HeaderOnly.enquire_link_new n)) ≡ (
        send s (HeaderOnly.encode (HeaderOnly.bare CommandId.enquire_link_resp esme_rok n)),
        go_on,
      )
  unfolding handle_enquire_link send_or_stop
  enquire_link_answered w =
      handle_pdu-header nom on_unbind now s _ (HeaderOnly.enquire_link_new n).header
        (HeaderOnly.bare_sent CommandId.enquire_link esme_rok n small).header_read
      ∙ Branches.dispatch-enquire_link nom on_unbind now s _ (HeaderOnly.enquire_link_new n).header
          refl
      ∙ rw (HeaderOnly.bare_decoded CommandId.enquire_link esme_rok n, w)

  -- An unbind is answered by what `on_unbind` gives, the enquire_link ticker is stopped, and the loop
  -- ends.
  pub unbind_ends :
      let p = HeaderOnly.unbind_with_sequence_number n in
      handle_pdu nom on_unbind now s (HeaderOnly.encode p)
      ≡ (send (record s { ticker_aborted = true }) (HeaderOnly.encode (on_unbind p)), unbound)
  unfolding handle_unbind
  unbind_ends =
      handle_pdu-header nom on_unbind now s _ (HeaderOnly.unbind_with_sequence_number n).header
        (HeaderOnly.bare_sent CommandId.unbind esme_rok n small).header_read
      ∙ Branches.dispatch-unbind nom on_unbind now s _
          (HeaderOnly.unbind_with_sequence_number n).header refl
      ∙ rw (HeaderOnly.bare_decoded CommandId.unbind esme_rok n)

-- On a session bound as a receiver, a PDU of a command whose branch asks for a transmitter, with a header
-- that fits its fields and states its length, is answered by a generic_nack with ESME_RINVCMDID and its
-- sequence number; no handler is called.
pub refused_on_receiver :
    (nom : Nom) (on_unbind : HeaderOnly → HeaderOnly) (now : ℕ) (s : Session) (id : CommandId)
    (h : CommandHeader) (body : Bytes)
    → IsForTransmitter id
    → h.command_id ≡ id_of id
    → IsHeader h
    → h.command_length ≡ 16 + length body
    → s.bound_type ≡ BoundType.bound_rx
    → handle_pdu nom on_unbind now s (Header.encode h ++ body)
      ≡ send_or_stop s
          (HeaderOnly.encode (HeaderOnly.generic_nack_new esme_rinvcmdid h.sequence_number))
refused_on_receiver nom on_unbind now s id h body i e v states rx =
    handle_pdu-header nom on_unbind now s (Header.encode h ++ body) h
      (decode-encode h body v states)
    ∙ Branches.dispatch-refused nom on_unbind now s (Header.encode h ++ body) h i e (rw (rx))
    ∙ rw (potential_seq_no_lem h body v.sequence_u32)

-- On a session that may transmit, and whatever ids it carries, for a cancel_sm of fewer than 65536 bytes
-- with status 0 that states its length, `on_cancel_sm` is called with empty ids,
-- the length as the TON and NPI of the source and "\x08" as the destination.
pub cancel_sm_spawned_misread :
    {nom : Nom} (laws : NomLaws nom) (on_unbind : HeaderOnly → HeaderOnly) (now : ℕ) (s : Session)
    (h : CommandHeader) (body : Bytes)
    → may_transmit s.bound_type ≡ true
    → IsHeader h
    → h.command_length ≡ 16 + length body
    → h.command_length < 65536
    → h.command_id ≡ id_of CommandId.cancel_sm
    → h.command_status ≡ 0
    → handle_pdu nom on_unbind now s (Header.encode h ++ body)
      ≡ (spawn s (on_cancel_sm (misread h)), go_on)
unfolding handle_request
cancel_sm_spawned_misread {nom} laws on_unbind now s h body t v states small e ok_status =
    handle_pdu-header nom on_unbind now s (Header.encode h ++ body) h
      (decode-encode h body v states)
    ∙ Branches.dispatch-cancel_sm nom on_unbind now s (Header.encode h ++ body) h t e
    ∙ rw (cancel_sm_misread laws h body small e ok_status)
