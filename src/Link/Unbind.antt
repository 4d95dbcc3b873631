-- ===== src/Link/Unbind.antt =====
-- `SMSC::send_unbind` of client/mod.rs and `ESME::send_unbind` of server/mod.rs: what the other side makes
-- of the unbind, and what becomes of its unbind_resp.
use smpp.Base.{
  Bytes, ◌+◌, ℕ, ◌-◌, ◌≤◌, ◌≡◌, refl, ◌∙◌, true, some, [], ◌∷◌, ◌++◌, arith, IsU32, length, ok,
}
use smpp.Nom.{Nom}
use smpp.Common.Error.{SmppError, FromPrimitive, esme_rok, esme_rinvcmdid}
use smpp.Common.Command.{CommandId}
use smpp.Common.Header
use smpp.Commands.HeaderOnly.{HeaderOnly}
use smpp.Commands.HeaderOnly
use smpp.Server.Pending.{erase}
use smpp.Server.State.{Session, unbind_reply, unbound, send, send_or_stop}
use smpp.Server.Handle.{deliver}
use smpp.Server.Session as Server
use smpp.Server.Session.Branches.{handle_pdu-header, dispatch-unbind_resp}
use smpp.Server.Session.Requests.{unbind_ends, potential_seq_no_lem}
use smpp.Client.Session as Client
use smpp.Client.Session.Answers.{unbind_resp_ends}
use smpp.Client.Smsc.{send_unbind, unbind_outcome}
use smpp.Engine.Frame.{WriteFrame, request_frame}
use smpp.Engine.Sequence.{fetch_add}
use smpp.Engine.Writer.{write_frame, write_frame_whole, with_pending, find-with_pending}
use smpp.Engine.Request.{Peer, waiting, answered}

-- A server's session has no branch for unbind_resp: whatever its status, and on every binding, the
-- answer to an unbind of the server is answered by a generic_nack with ESME_RINVCMDID and its sequence
-- number, and no caller gets it.
pub unbind_resp_nacked :
    (nom : Nom) (on_unbind : HeaderOnly → HeaderOnly) (now : ℕ) (s : Session) (error : SmppError)
    (n : ℕ)
    → IsU32 n
    → Server.handle_pdu nom on_unbind now s
        (HeaderOnly.encode (HeaderOnly.bare CommandId.unbind_resp error n))
      ≡ send_or_stop s (HeaderOnly.encode (HeaderOnly.generic_nack_new esme_rinvcmdid n))
unfolding HeaderOnly.encode send_or_stop Header.encode
unbind_resp_nacked nom on_unbind now s error n small =
    let h = (HeaderOnly.bare CommandId.unbind_resp error n).header in
    handle_pdu-header nom on_unbind now s _ h
      (HeaderOnly.bare_sent CommandId.unbind_resp error n small).header_read
    ∙ dispatch-unbind_resp nom on_unbind now s _ h refl
    ∙ rw (potential_seq_no_lem h [] small)

-- An unbind of the client goes all the way, every step on what the one before it gave: the caller's frame
-- goes to the writer; what the writer puts on the wire ends the server's read loop, which sends one PDU; that
-- PDU goes into the channel on which the caller waits, and ends the client's read loop.
pub record IsRoundTrip (nom : Nom) (derived : FromPrimitive) (peer : Peer) (client server : Session)
    (written_at now : ℕ) : Type 0 where
  pub sender : Peer
  pub channel : ℕ
  pub frame : WriteFrame
  pub registered : Session
  pub wire : Bytes
  pub ended : Session
  pub answer : Bytes
  pub received : Session
  pub response : HeaderOnly
  pub sends :
      (send_unbind peer ≡ waiting sender channel)
      × (sender.frames ≡ peer.frames ++ (frame ∷ []))
      × (write_frame written_at (some (length frame.pdu)) client frame ≡ (registered, wire))
      × (wire ≡ frame.pdu)
  pub ends_server :
      (Server.handle_pdu nom HeaderOnly.unbind_accept now server wire ≡ (ended, unbound))
      × (ended.sent ≡ server.sent ++ (answer ∷ []))
      × (ended.ticker_aborted ≡ true)
  pub ends_client :
      (Client.handle_pdu nom HeaderOnly.unbind_accept now registered answer ≡ (received, unbound))
      × (received.replies ≡ client.replies ++ ((channel, unbind_reply response) ∷ []))
      × (received.pending ≡ erase peer.sequence_number registered.pending)
  pub returns :
      (unbind_outcome derived (waiting sender channel) (answered (unbind_reply response))
        ≡ ok response)
      × (HeaderOnly.is_success response ≡ true)
      × (response.header.sequence_number ≡ peer.sequence_number)

-- An unbind that a client sends with its own writer channel open and the server's open, with its number in a
-- `u32`, and that is written in full, makes the whole round trip if `on_unbind` accepts and the answer is
-- read within the response timer.
pub unbind-IsRoundTrip :
    (nom : Nom) (derived : FromPrimitive) (peer : Peer) (client server : Session)
    (written_at now : ℕ)
    → peer.channel_open ≡ true
    → server.writer_open ≡ true
    → IsU32 peer.sequence_number
    → now - written_at ≤ client.response_timer
    → IsRoundTrip nom derived peer client server written_at now
unfolding send_unbind send HeaderOnly.is_success
unbind-IsRoundTrip nom derived peer client server written_at now channel writer small fresh =
    let n = peer.sequence_number in
    let name = some peer.next_channel in
    let unbind = HeaderOnly.unbind_with_sequence_number n in
    let pdu = HeaderOnly.encode unbind in
    let waits = with_pending written_at n name client in
    let closing = record server { ticker_aborted = true } in
    let accepted = HeaderOnly.unbind_accept unbind in
    record {
      sender = record peer {
        frames = peer.frames ++ (request_frame n pdu name ∷ []);
        sequence_number = fetch_add n;
        next_channel = peer.next_channel + 1;
      };
      channel = peer.next_channel;
      frame = request_frame n pdu name;
      registered = waits;
      wire = pdu;
      ended = send closing (HeaderOnly.encode accepted);
      answer = HeaderOnly.encode accepted;
      received =
          deliver name (unbind_reply accepted) (record waits { pending = erase n waits.pending });
      response = accepted;
      sends = (simp (channel), refl, write_frame_whole written_at n client pdu name, refl);
      ends_server = (
        unbind_ends nom HeaderOnly.unbind_accept now server n small,
        simp (writer),
        simp (writer),
      );
      ends_client = (
        unbind_resp_ends nom HeaderOnly.unbind_accept now waits esme_rok n
            (record { sequence_number = n; since = written_at; reply_to = name }) small
            (find-with_pending written_at n client pdu name) (ground arith),
        refl,
        refl,
      );
      returns = (refl, refl, refl);
    }
