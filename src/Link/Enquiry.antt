-- ===== src/Link/Enquiry.antt =====
-- The enquire_link of one side's ticker, and how the other side's session keeps it going.
use smpp.Base.{refl, ℕ, ◌-◌, ◌≤◌, ◌≡◌, true, none, some, [], ◌∷◌, ◌++◌, arith, Bytes, IsU32, length}
use smpp.Nom.{Nom}
use smpp.Common.Error.{esme_rok}
use smpp.Common.Command.{CommandId}
use smpp.Commands.HeaderOnly.{HeaderOnly}
use smpp.Commands.HeaderOnly
use smpp.Server.Pending.{erase}
use smpp.Server.State.{Session, go_on, send}
use smpp.Server.Session as Server
use smpp.Server.Session.Requests.{enquire_link_answered}
use smpp.Client.Session as Client
use smpp.Client.Session.Answers.{enquire_link_resp_forwarded}
use smpp.Engine.Frame.{WriteFrame, request_frame}
use smpp.Engine.Writer.{write_frame, write_frame_whole, with_pending, find-with_pending}
use smpp.Engine.Request.{Peer}
use smpp.Engine.Ticker.{tick, forwarded}

-- A round of the client's ticker, every step on what the one before it gave: the frame that the round sends
-- goes to the writer; what the writer puts on the wire is answered by the server with one PDU; the client
-- forwards the number of that PDU to the ticker and takes the entry off; and with that number the round
-- keeps the ticker running.
pub record IsRoundTrip (nom : Nom) (on_unbind : HeaderOnly → HeaderOnly) (ticker : Peer)
    (client server : Session) (written_at now : ℕ) : Type 0 where
  pub frame : WriteFrame
  pub registered : Session
  pub wire : Bytes
  pub served : Session
  pub answer : Bytes
  pub received : Session
  pub number : ℕ
  pub sends :
      ((tick ticker (forwarded number)).0.frames ≡ ticker.frames ++ (frame ∷ []))
      × (write_frame written_at (some (length frame.pdu)) client frame ≡ (registered, wire))
      × (wire ≡ frame.pdu)
  pub answers :
      (Server.handle_pdu nom on_unbind now server wire ≡ (served, go_on))
      × (served.sent ≡ server.sent ++ (answer ∷ []))
  pub forwards :
      (Client.handle_pdu nom on_unbind now registered answer ≡ (received, go_on))
      × (received.enquire_link_resps ≡ client.enquire_link_resps ++ (number ∷ []))
      × (received.pending ≡ erase ticker.sequence_number registered.pending)
  pub goes_on : (tick ticker (forwarded number)).1 ≡ true

-- With open channels on both sides and a number in a `u32`, a round of a client's ticker whose frame is
-- written in full, and whose answer is read within the response timer, goes all the way and keeps the
-- ticker running.
pub enquiry-IsRoundTrip :
    (nom : Nom) (on_unbind : HeaderOnly → HeaderOnly) (ticker : Peer) (client server : Session)
    (written_at now : ℕ)
    → ticker.channel_open ≡ true
    → server.writer_open ≡ true
    → IsU32 ticker.sequence_number
    → now - written_at ≤ client.response_timer
    → IsRoundTrip nom on_unbind ticker client server written_at now
unfolding tick send
enquiry-IsRoundTrip nom on_unbind ticker client server written_at now tc sc small fresh =
    let n = ticker.sequence_number in
    let pdu = HeaderOnly.encode (HeaderOnly.enquire_link_new n) in
    let response = HeaderOnly.encode (HeaderOnly.bare CommandId.enquire_link_resp esme_rok n) in
    let waits = with_pending written_at n none client in
    record {
      frame = request_frame n pdu none;
      registered = waits;
      wire = pdu;
      served = send server response;
      answer = response;
      received = record waits {
        pending = erase n waits.pending;
        enquire_link_resps = client.enquire_link_resps ++ (n ∷ []);
      };
      number = n;
      sends = (simp (tc), write_frame_whole written_at n client pdu none, refl);
      answers = (enquire_link_answered nom on_unbind now server n small sc, simp (sc));
      forwards = (
        enquire_link_resp_forwarded nom on_unbind now waits esme_rok n
            (record { sequence_number = n; since = written_at; reply_to = none }) small
            (find-with_pending written_at n client pdu none) (ground arith),
        refl,
        refl,
      );
      goes_on = simp (tc) (ground arith);
    }
