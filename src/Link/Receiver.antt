-- ===== src/Link/Receiver.antt =====
-- A deliver_sm of server/mod.rs to a client of client/mod.rs on a connection that is bound as a receiver, and
-- what becomes of the response.
use smpp.Base.{ℕ, ◌+◌, ◌≡◌, ◌∙◌, refl, true, some, [], ◌∷◌, ◌++◌, Bytes, IsU32, length, err}
use smpp.Nom.{Nom, NomLaws}
use smpp.Common.Error.{FromPrimitive, esme_rinvcmdid, esme_rsyserr}
use smpp.Common.Command.{CommandId, id_of}
use smpp.Commands.HeaderOnly
use smpp.Commands.HeaderOnly.{HeaderOnly}
use smpp.Commands.DeliverSm.{DeliverSm, set_sequence_number, sent_header, encode}
use smpp.Commands.DeliverSm.Laws.{IsValid}
use smpp.Commands.DeliverSm.Response as DeliverResp
use smpp.Server.Pending.{find}
use smpp.Server.State.{
  Session, bound_rx, may_receive, spawn, on_deliver_sm, send, send_or_stop, go_on,
}
use smpp.Server.Session as Server
use smpp.Server.Session.Responses.{deliver_sm_resp_refused}
use smpp.Server.Esme.{send_deliver_sm_pdu, deliver_sm_outcome}
use smpp.Client.Session as Client
use smpp.Client.Session.Answers.{deliver_sm_spawned}
use smpp.Client.Listener.{minimal_client, response_of}
use smpp.Engine.Sequence.{fetch_add}
use smpp.Engine.Frame.{WriteFrame, request_frame}
use smpp.Engine.Writer.{write_frame, write_frame_whole, with_pending, find-with_pending}
use smpp.Engine.Request.{Peer, waiting, elapsed, dropped}
use smpp.Link.Deliver.{numbered-IsValid, on_wire}

-- The deliver_sm reaches the client's `on_deliver_sm`, whose task accepts it; but the server answers the
-- acceptance by a generic_nack, puts nothing into a caller's channel, and keeps the request pending. The
-- caller, whose wait elapses or whose channel is dropped with the entry, gets ESME_RSYSERR.
pub record IsUnanswered (nom : Nom) (derived : FromPrimitive) (on_unbind : HeaderOnly → HeaderOnly)
    (peer : Peer) (server client : Session) (written_at now : ℕ) (p : DeliverSm) : Type 0 where
  pub sender : Peer
  pub channel : ℕ
  pub frame : WriteFrame
  pub registered : Session
  pub wire : Bytes
  pub answer : Bytes
  pub refused : Session
  pub sends :
      (send_deliver_sm_pdu peer p ≡ waiting sender channel)
      × (sender.frames ≡ peer.frames ++ (frame ∷ []))
      × (write_frame written_at (some (length frame.pdu)) server frame ≡ (registered, wire))
      × (wire ≡ frame.pdu)
  pub accepts :
      (Client.handle_pdu nom on_unbind now client wire
        ≡ (spawn client (on_deliver_sm (on_wire peer p)), go_on))
      × (response_of minimal_client (on_deliver_sm (on_wire peer p)) ≡ some answer)
  pub refuses :
      let n = peer.sequence_number in
      (Server.handle_pdu nom on_unbind now registered answer ≡ (refused, go_on))
      × (refused.sent
          ≡ server.sent ++ (HeaderOnly.encode (HeaderOnly.generic_nack_new esme_rinvcmdid n) ∷ []))
      × (refused.replies ≡ server.replies)
      × (find n refused.pending
          ≡ some (record { sequence_number = n; since = written_at; reply_to = some channel }))
  pub gives_up :
      (deliver_sm_outcome derived (waiting sender channel) elapsed ≡ err esme_rsyserr)
      × (deliver_sm_outcome derived (waiting sender channel) dropped ≡ err esme_rsyserr)

-- On a session of the server that is bound as a receiver, with open channels, a valid deliver_sm with a
-- number in a `u32` that is written in full, to a client that is bound as a receiver or transceiver and
-- keeps the default `on_deliver_sm`, is accepted by the client and still stays unanswered, however soon
-- the response is read.
pub deliver_sm-IsUnanswered :
    {nom : Nom} (laws : NomLaws nom) (derived : FromPrimitive) (on_unbind : HeaderOnly → HeaderOnly)
    (peer : Peer) (server client : Session) (written_at now : ℕ) (p : DeliverSm)
    → peer.allowed ≡ true
    → peer.channel_open ≡ true
    → server.writer_open ≡ true
    → IsU32 peer.sequence_number
    → server.bound_type ≡ bound_rx
    → may_receive client.bound_type ≡ true
    → IsValid p
    → p.header.command_id ≡ id_of CommandId.deliver_sm
    → IsUnanswered nom derived on_unbind peer server client written_at now p
unfolding send_deliver_sm_pdu set_sequence_number sent_header DeliverResp.accept send_or_stop send
deliver_sm-IsUnanswered {nom} laws derived on_unbind peer server client written_at now p may channel
      writer small rx ct v id =
    let n = peer.sequence_number in
    let name = some peer.next_channel in
    let q = set_sequence_number p n in
    let waits = with_pending written_at n name server in
    let nack = HeaderOnly.encode (HeaderOnly.generic_nack_new esme_rinvcmdid n) in
    record {
      sender = record peer {
        frames = peer.frames ++ (request_frame n (encode q) name ∷ []);
        sequence_number = fetch_add n;
        next_channel = peer.next_channel + 1;
      };
      channel = peer.next_channel;
      frame = request_frame n (encode q) name;
      registered = waits;
      wire = encode q;
      answer = DeliverResp.encode (DeliverResp.accept (on_wire peer p));
      refused = record waits { sent = server.sent ++ (nack ∷ []) };
      sends =
          (simp (may, channel), refl, write_frame_whole written_at n server (encode q) name, refl);
      accepts = (
        deliver_sm_spawned laws on_unbind now client q ct id (numbered-IsValid p n small v),
        refl,
      );
      refuses = (
        deliver_sm_resp_refused nom on_unbind now waits (on_wire peer p) rx small ∙ simp (writer),
        refl,
        refl,
        find-with_pending written_at n server (encode q) name,
      );
      gives_up = (refl, refl);
    }
