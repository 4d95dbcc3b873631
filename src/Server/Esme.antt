-- ===== src/Server/Esme.antt =====
-- server/mod.rs, `ESME`: the requests of a server's session.
pub mod Fluent
use smpp.Base.{
  ℕ, Option, none, some, [], ◌∷◌, ◌++◌, Bytes, Result, ok, err, panic, ◌>>=◌, if◌then◌else◌,
}
use smpp.Common.Error.{SmppError, FromPrimitive}
use smpp.Commands.HeaderOnly.{HeaderOnly}
use smpp.Commands.HeaderOnly
use smpp.Commands.DeliverSm.{DeliverSm}
use smpp.Commands.DeliverSm
use smpp.Commands.DeliverSm.Response as DeliverResp
use smpp.Commands.DataSm.{DataSm}
use smpp.Commands.DataSm
use smpp.Commands.AlertNotification.{AlertNotification}
use smpp.Commands.AlertNotification
use smpp.Server.State.{Reply, deliver_reply}
use smpp.Engine.Sequence.{fetch_add}
use smpp.Engine.Frame.{request_frame}
use smpp.Engine.Request.{Peer, Call, request, guarded_request, with_built, Answer, finish}
use smpp.Engine.Builder.{Builder}

abbrev pub as_deliver_sm_resp : Reply → Option DeliverResp.DeliverSmResp
as_deliver_sm_resp (deliver_reply r) = some r
as_deliver_sm_resp _ = none

unfoldable pub send_deliver_sm_pdu : Peer → DeliverSm → Call
unfolding guarded_request
send_deliver_sm_pdu peer p =
    guarded_request peer (λ n. ok (DeliverSm.encode (DeliverSm.set_sequence_number p n)))

-- The sequence number 0 is overwritten.
unfoldable pub send_deliver_sm :
    Peer
    → Bytes
    → ℕ
    → ℕ
    → Bytes
    → ℕ
    → ℕ
    → Bytes
    → ℕ
    → ℕ
    → ℕ
    → Bytes
    → Bytes
    → ℕ
    → ℕ
    → ℕ
    → ℕ
    → Bytes
    → Call
unfolding send_deliver_sm_pdu
send_deliver_sm peer service_type source_addr_ton source_addr_npi source_addr dest_addr_ton
      dest_addr_npi destination_addr esm_class protocol_id priority_flag schedule_delivery_time
      validity_period registered_delivery replace_if_present_flag data_coding sm_default_msg_id
      short_message =
    with_built peer
      (DeliverSm.new 0 service_type source_addr_ton source_addr_npi source_addr dest_addr_ton
        dest_addr_npi destination_addr esm_class protocol_id priority_flag schedule_delivery_time
        validity_period registered_delivery replace_if_present_flag data_coding sm_default_msg_id
        short_message)
      (send_deliver_sm_pdu peer)

-- `DeliverSmBuilder::send`
unfoldable pub send_deliver_sm_builder : Peer → Builder → Call
unfolding send_deliver_sm_pdu
send_deliver_sm_builder peer b =
    with_built peer
      (do
        p ←
            DeliverSm.new 0 b.service_type b.source_addr_ton b.source_addr_npi b.source_addr
              b.dest_addr_ton b.dest_addr_npi b.destination_addr b.esm_class b.protocol_id
              b.priority_flag b.schedule_delivery_time b.validity_period b.registered_delivery
              b.replace_if_present_flag b.data_coding b.sm_default_msg_id b.short_message
        ok (DeliverSm.with_tlvs p b.tlvs))
      (send_deliver_sm_pdu peer)

-- What `send_deliver_sm` and the like end with.
abbrev pub deliver_sm_outcome :
    FromPrimitive → Call → Answer → Result SmppError DeliverResp.DeliverSmResp
deliver_sm_outcome derived = finish derived as_deliver_sm_resp

-- On any binding.
unfoldable pub send_data_sm_pdu : Peer → DataSm → Call
unfolding request
send_data_sm_pdu peer p = request peer (λ n. ok (DataSm.encode (DataSm.set_sequence_number p n)))

unfoldable pub send_data_sm : Peer → Bytes → ℕ → ℕ → Bytes → ℕ → ℕ → Bytes → ℕ → ℕ → ℕ → Call
unfolding send_data_sm_pdu
send_data_sm peer service_type source_addr_ton source_addr_npi source_addr dest_addr_ton
      dest_addr_npi destination_addr esm_class registered_delivery data_coding =
    send_data_sm_pdu peer (
      DataSm.new 0 service_type source_addr_ton source_addr_npi source_addr dest_addr_ton
        dest_addr_npi destination_addr esm_class registered_delivery data_coding)

-- On any binding.
unfoldable pub send_unbind : Peer → Call
unfolding request
send_unbind peer =
    request peer (λ n. ok (HeaderOnly.encode (HeaderOnly.unbind_with_sequence_number n)))

-- An alert_notification is registered like a request, with no channel; a closed `tx_channel` is only
-- logged.
abbrev pub send_notification :
    Peer → Result SmppError AlertNotification → Result SmppError (Peer × ℕ)
send_notification peer (ok p) =
    let n = peer.sequence_number in
    let taken = record peer { sequence_number = fetch_add n } in
    ok (
      if peer.channel_open
          then record taken {
            frames = peer.frames ++ (request_frame n (AlertNotification.encode p) none ∷ []);
          }
          else taken,
      n,
    )
send_notification peer (err e) = err e
send_notification peer panic = panic

unfoldable pub send_alert_notification :
    Peer → ℕ → ℕ → Bytes → ℕ → ℕ → Bytes → Option ℕ → Result SmppError (Peer × ℕ)
send_alert_notification peer source_addr_ton source_addr_npi source_addr esme_addr_ton esme_addr_npi
      esme_addr ms_availability_status =
    if peer.allowed
    then send_notification peer (
        AlertNotification.new peer.sequence_number source_addr_ton source_addr_npi source_addr
          esme_addr_ton esme_addr_npi esme_addr ms_availability_status)
    else panic
