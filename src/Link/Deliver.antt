-- ===== src/Link/Deliver.antt =====
-- A deliver_sm of server/mod.rs on its way to the listener of client/mod.rs, and the response on its way
-- back.
use smpp.Base.{ℕ, ◌+◌, ◌-◌, ◌≤◌, ◌≡◌, refl, true, some, [], ◌∷◌, ◌++◌, arith, IsU32, length, ok}
use smpp.Nom.{Nom, NomLaws}
use smpp.Common.Error.{FromPrimitive}
use smpp.Common.Command.{CommandId, id_of}
use smpp.Commands.HeaderOnly.{HeaderOnly}
use smpp.Commands.DeliverSm.{DeliverSm, set_sequence_number, sent_header, encode}
use smpp.Commands.DeliverSm.Laws.{IsValid}
use smpp.Commands.DeliverSm.Response as DeliverResp
use smpp.Server.Pending.{erase}
use smpp.Server.State.{
  Session, may_receive, may_transmit, spawn, on_deliver_sm, deliver_reply, go_on,
}
use smpp.Server.Handle.{deliver}
use smpp.Server.Session as Server
use smpp.Server.Session.Responses.{deliver_sm_resp_delivered}
use smpp.Server.Esme.{send_deliver_sm_pdu, deliver_sm_outcome}
use smpp.Client.Session as Client
use smpp.Client.Session.Answers.{deliver_sm_spawned}
use smpp.Client.Listener.{minimal_client, response_of}
use smpp.Engine.Sequence.{fetch_add}
use smpp.Engine.Frame.{request_frame}
use smpp.Engine.Writer.{write_frame, write_frame_whole, with_pending, find-with_pending}
use smpp.Engine.Request.{Peer, Call, waiting, answered}

pub numbered-IsValid :
    (p : DeliverSm) (n : ℕ) → IsU32 n → IsValid p → IsValid (set_sequence_number p n)
unfolding set_sequence_number
numbered-IsValid p n small v = record {
  header_valid = ground (arith, v.header_valid);
  service_type_text = v.service_type_text;
  source_addr_text = v.source_addr_text;
  destination_addr_text = v.destination_addr_text;
  schedule_delivery_time_text = v.schedule_delivery_time_text;
  validity_period_text = v.validity_period_text;
  sm_length_counts = v.sm_length_counts;
  tlvs_valid = v.tlvs_valid;
  within = v.within;
}

-- The deliver_sm under its sequence number, as it is on the wire.
abbrev pub on_wire : Peer → DeliverSm → DeliverSm
on_wire peer p =
    let q = set_sequence_number p peer.sequence_number in record q { header = sent_header q }

-- A deliver_sm goes all the way to a client with the default listener, and its answer comes back: the
-- caller waits on a fresh channel; the writer registers the request and writes it; the client hands it to
-- `on_deliver_sm`, whose task accepts it; the response goes into the caller's channel, and nothing else is
-- replied; the caller gets the response.
pub record IsRoundTrip (nom : Nom) (derived : FromPrimitive) (on_unbind : HeaderOnly → HeaderOnly)
    (peer : Peer) (server client : Session) (written_at now : ℕ) (p : DeliverSm) : Type 0 where
  pub call : Call
  pub registered : Session
  pub received : Session
  pub sends :
      let n = peer.sequence_number in
      let pdu = encode (set_sequence_number p n) in
      (send_deliver_sm_pdu peer p ≡ call)
      × (call
          ≡ waiting
              (record peer {
                frames = peer.frames ++ (request_frame n pdu (some peer.next_channel) ∷ []);
                sequence_number = fetch_add n;
                next_channel = peer.next_channel + 1;
              })
              peer.next_channel)
      × (write_frame written_at
            (some (length pdu))
            server
            (request_frame n pdu (some peer.next_channel))
          ≡ (registered, pdu))
  pub spawns :
      (Client.handle_pdu nom on_unbind now client
          (encode (set_sequence_number p peer.sequence_number))
        ≡ (spawn client (on_deliver_sm (on_wire peer p)), go_on))
      × (response_of minimal_client (on_deliver_sm (on_wire peer p))
          ≡ some (DeliverResp.encode (DeliverResp.accept (on_wire peer p))))
  pub replies :
      let r = DeliverResp.accept (on_wire peer p) in
      (Server.handle_pdu nom on_unbind now registered (DeliverResp.encode r) ≡ (received, go_on))
      × (received.replies ≡ server.replies ++ ((peer.next_channel, deliver_reply r) ∷ []))
      × (received.pending ≡ erase peer.sequence_number registered.pending)
  pub returns :
      let r = DeliverResp.accept (on_wire peer p) in
      deliver_sm_outcome derived call (answered (deliver_reply r)) ≡ ok r

-- A valid deliver_sm that a server sends on a session bound as a transceiver, to a client that is bound as
-- a receiver or transceiver and keeps the default `on_deliver_sm`, with its number not out of a `u32`, an
-- open writer channel, and a write that takes all of it, makes the whole round trip, if the response is
-- read within the response timer.
pub deliver_sm-IsRoundTrip :
    {nom : Nom} (laws : NomLaws nom) (derived : FromPrimitive) (on_unbind : HeaderOnly → HeaderOnly)
    (peer : Peer) (server client : Session) (written_at now : ℕ) (p : DeliverSm)
    → peer.allowed ≡ true
    → peer.channel_open ≡ true
    → IsU32 peer.sequence_number
    → may_transmit server.bound_type ≡ true
    → may_receive client.bound_type ≡ true
    → IsValid p
    → p.header.command_id ≡ id_of CommandId.deliver_sm
    → now - written_at ≤ server.response_timer
    → IsRoundTrip nom derived on_unbind peer server client written_at now p
unfolding send_deliver_sm_pdu set_sequence_number sent_header DeliverResp.accept
deliver_sm-IsRoundTrip {nom} laws derived on_unbind peer server client written_at now p may channel
      small st ct v id fresh =
    let n = peer.sequence_number in
    let channel_name = some peer.next_channel in
    let q = set_sequence_number p n in
    let waits = with_pending written_at n channel_name server in
    record {
      call = send_deliver_sm_pdu peer p;
      registered = waits;
      received =
          deliver channel_name (deliver_reply (DeliverResp.accept (on_wire peer p)))
            (record waits { pending = erase n waits.pending });
      sends = (
        refl,
        simp (may, channel),
        write_frame_whole written_at n server (encode q) channel_name,
      );
      spawns = (
        deliver_sm_spawned laws on_unbind now client q ct id (numbered-IsValid p n small v),
        refl,
      );
      replies = (
        deliver_sm_resp_delivered laws on_unbind now waits (on_wire peer p)
            (record { sequence_number = n; since = written_at; reply_to = channel_name }) st small
            (find-with_pending written_at n server (encode q) channel_name) (ground arith),
        refl,
        refl,
      );
      returns = simp (may, channel);
    }
