-- ===== src/Link/Submit.antt =====
-- A submit_sm of client/mod.rs on its way to the listener of server/state.rs, and the response on its way
-- back.
use smpp.Base.{
  ℕ, ◌+◌, ◌-◌, ◌≤◌, ◌≡◌, refl, true, some, [], ◌∷◌, ◌++◌, arith, Bytes, IsU32, length, ok,
}
use smpp.Nom.{Nom, NomLaws}
use smpp.Common.Error.{FromPrimitive}
use smpp.Common.Command.{CommandId, id_of}
use smpp.Common.CString.{is_c_string}
use smpp.Commands.HeaderOnly.{HeaderOnly}
use smpp.Commands.SubmitSm.{SubmitSm, set_sequence_number, sent_header, encode}
use smpp.Commands.SubmitSm.Laws.{IsValid}
use smpp.Commands.SubmitSm.Response as SubmitResp
use smpp.Server.Pending.{erase}
use smpp.Server.State.{Session, may_transmit, spawn, on_submit_sm, submit_reply, go_on}
use smpp.Server.Handle.{deliver}
use smpp.Server.Session as Server
use smpp.Server.Session.Requests.{submit_sm_spawned}
use smpp.Client.Session as Client
use smpp.Client.Session.Answers.{submit_sm_resp_delivered}
use smpp.Client.Smsc.{send_submit_sm_pdu, submit_sm_outcome}
use smpp.Engine.Sequence.{fetch_add}
use smpp.Engine.Frame.{request_frame}
use smpp.Engine.Writer.{write_frame, write_frame_whole, with_pending, find-with_pending}
use smpp.Engine.Request.{Peer, Call, waiting, answered}

pub numbered-IsValid :
    (p : SubmitSm) (n : ℕ) → IsU32 n → IsValid p → IsValid (set_sequence_number p n)
unfolding set_sequence_number
numbered-IsValid p n small v = record {
  header_valid = ground (arith, v.header_valid);
  service_type_text = v.service_type_text;
  source_addr_text = v.source_addr_text;
  destination_addr_text = v.destination_addr_text;
  schedule_delivery_time_text = v.schedule_delivery_time_text;
  validity_period_text = v.validity_period_text;
  sm_length_counts = v.sm_length_counts;
  tlvs_valid = v.tlvs_valid;
  within = v.within;
}

-- The submit_sm under its sequence number, as it is on the wire.
abbrev pub on_wire : Peer → SubmitSm → SubmitSm
on_wire peer p =
    let q = set_sequence_number p peer.sequence_number in record q { header = sent_header q }

-- A submit_sm goes all the way and its answer comes back: the caller waits on a fresh channel; the writer
-- registers the request and writes it; the server hands it to `on_submit_sm`; the response goes into the
-- caller's channel, and nothing is pending under its number; the caller gets the response.
pub record IsRoundTrip (nom : Nom) (derived : FromPrimitive) (on_unbind : HeaderOnly → HeaderOnly)
    (peer : Peer) (client server : Session) (written_at now : ℕ) (p : SubmitSm)
    (r : SubmitResp.SubmitSmResp) : Type 0 where
  pub call : Call
  pub registered : Session
  pub received : Session
  pub sends :
      let n = peer.sequence_number in
      let pdu = encode (set_sequence_number p n) in
      (send_submit_sm_pdu peer p ≡ call)
      × (call
          ≡ waiting
              (record peer {
                frames = peer.frames ++ (request_frame n pdu (some peer.next_channel) ∷ []);
                sequence_number = fetch_add n;
                next_channel = peer.next_channel + 1;
              })
              peer.next_channel)
      × (write_frame written_at
            (some (length pdu))
            client
            (request_frame n pdu (some peer.next_channel))
          ≡ (registered, pdu))
  pub spawns :
      Server.handle_pdu nom on_unbind now server
        (encode (set_sequence_number p peer.sequence_number))
      ≡ (spawn server (on_submit_sm (on_wire peer p)), go_on)
  pub replies :
      (Client.handle_pdu nom on_unbind now registered (SubmitResp.encode r) ≡ (received, go_on))
      × (received.replies ≡ client.replies ++ ((peer.next_channel, submit_reply r) ∷ []))
      × (received.pending ≡ erase peer.sequence_number registered.pending)
  pub returns : submit_sm_outcome derived call (answered (submit_reply r)) ≡ ok r

-- A valid submit_sm that a client bound as a transmitter or transceiver sends, to a server session that is
-- bound so, with its number not out of a `u32`, an open writer channel, and a write that takes all of it,
-- makes the whole round trip, if `on_submit_sm` accepts it under a message_id and the response is read
-- within the response timer.
pub submit_sm-IsRoundTrip :
    {nom : Nom} (laws : NomLaws nom) (derived : FromPrimitive) (on_unbind : HeaderOnly → HeaderOnly)
    (peer : Peer) (client server : Session) (written_at now : ℕ) (p : SubmitSm) (message_id : Bytes)
    (r : SubmitResp.SubmitSmResp)
    → peer.allowed ≡ true
    → peer.channel_open ≡ true
    → IsU32 peer.sequence_number
    → may_transmit client.bound_type ≡ true
    → may_transmit server.bound_type ≡ true
    → IsValid p
    → p.header.command_id ≡ id_of CommandId.submit_sm
    → is_c_string message_id ≡ true
    → SubmitResp.accept (on_wire peer p) message_id ≡ ok r
    → now - written_at ≤ client.response_timer
    → IsRoundTrip nom derived on_unbind peer client server written_at now p r
unfolding send_submit_sm_pdu set_sequence_number sent_header
submit_sm-IsRoundTrip {nom} laws derived on_unbind peer client server written_at now p message_id r
      may channel small ct st v id text e fresh =
    let n = peer.sequence_number in
    let channel_name = some peer.next_channel in
    let q = set_sequence_number p n in
    let waits = with_pending written_at n channel_name client in
    record {
      call = send_submit_sm_pdu peer p;
      registered = waits;
      received =
          deliver channel_name (submit_reply r) (record waits { pending = erase n waits.pending });
      sends = (
        refl,
        simp (may, channel),
        write_frame_whole written_at n client (encode q) channel_name,
      );
      spawns = submit_sm_spawned laws on_unbind now server q st id (numbered-IsValid p n small v);
      replies = (
        submit_sm_resp_delivered laws on_unbind now waits (on_wire peer p) message_id r
            (record { sequence_number = n; since = written_at; reply_to = channel_name }) ct small
            text e (find-with_pending written_at n client (encode q) channel_name) (ground arith),
        refl,
        refl,
      );
      returns = simp (may, channel);
    }
