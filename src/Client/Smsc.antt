-- ===== src/Client/Smsc.antt =====
-- client/mod.rs, `SMSC`: the requests of a bound client. Each one is what is sent, and what the reply may
-- be; the rest is shared.
pub mod Fluent
use smpp.Base.{ℕ, Option, none, some, List, Bytes, Result, ok, ◌>>=◌}
use smpp.Common.Error.{SmppError, FromPrimitive}
use smpp.Commands.HeaderOnly.{HeaderOnly}
use smpp.Commands.HeaderOnly
use smpp.Commands.SubmitSm.{SubmitSm}
use smpp.Commands.SubmitSm
use smpp.Commands.SubmitSm.Response as SubmitResp
use smpp.Commands.SubmitSmMulti.{SubmitSmMulti, DestAddress}
use smpp.Commands.SubmitSmMulti
use smpp.Commands.SubmitSmMulti.Response as MultiResp
use smpp.Commands.DataSm.{DataSm}
use smpp.Commands.DataSm
use smpp.Commands.DataSm.Response as DataResp
use smpp.Commands.CancelSm
use smpp.Commands.QuerySm
use smpp.Commands.QuerySm.Response as QueryResp
use smpp.Commands.ReplaceSm
use smpp.Server.State.{
  Reply, submit_reply, submit_multi_reply, data_reply, query_reply, cancel_reply, replace_reply,
  unbind_reply,
}
use smpp.Engine.Request.{Peer, Call, request, guarded_request, with_built, Answer, finish}
use smpp.Engine.Builder.{Builder}

-- The downcasts of `response.as_any()`.
abbrev pub as_submit_sm_resp : Reply → Option SubmitResp.SubmitSmResp
as_submit_sm_resp (submit_reply r) = some r
as_submit_sm_resp _ = none

abbrev pub as_submit_sm_multi_resp : Reply → Option MultiResp.SubmitSmMultiResp
as_submit_sm_multi_resp (submit_multi_reply r) = some r
as_submit_sm_multi_resp _ = none

abbrev pub as_data_sm_resp : Reply → Option DataResp.DataSmResp
as_data_sm_resp (data_reply r) = some r
as_data_sm_resp _ = none

abbrev pub as_query_sm_resp : Reply → Option QueryResp.QuerySmResp
as_query_sm_resp (query_reply r) = some r
as_query_sm_resp _ = none

abbrev pub as_cancel_sm_resp : Reply → Option HeaderOnly
as_cancel_sm_resp (cancel_reply r) = some r
as_cancel_sm_resp _ = none

abbrev pub as_replace_sm_resp : Reply → Option HeaderOnly
as_replace_sm_resp (replace_reply r) = some r
as_replace_sm_resp _ = none

abbrev pub as_unbind_resp : Reply → Option HeaderOnly
as_unbind_resp (unbind_reply r) = some r
as_unbind_resp _ = none

unfoldable pub send_submit_sm_pdu : Peer → SubmitSm → Call
unfolding guarded_request
send_submit_sm_pdu peer p =
    guarded_request peer (λ n. ok (SubmitSm.encode (SubmitSm.set_sequence_number p n)))

-- The sequence number 0 is overwritten.
unfoldable pub send_submit_sm :
    Peer
    → Bytes
    → ℕ
    → ℕ
    → Bytes
    → ℕ
    → ℕ
    → Bytes
    → ℕ
    → ℕ
    → ℕ
    → Bytes
    → Bytes
    → ℕ
    → ℕ
    → ℕ
    → ℕ
    → Bytes
    → Call
unfolding send_submit_sm_pdu
send_submit_sm peer service_type source_addr_ton source_addr_npi source_addr dest_addr_ton
      dest_addr_npi destination_addr esm_class protocol_id priority_flag schedule_delivery_time
      validity_period registered_delivery replace_if_present_flag data_coding sm_default_msg_id
      short_message =
    with_built peer
      (SubmitSm.new 0 service_type source_addr_ton source_addr_npi source_addr dest_addr_ton
        dest_addr_npi destination_addr esm_class protocol_id priority_flag schedule_delivery_time
        validity_period registered_delivery replace_if_present_flag data_coding sm_default_msg_id
        short_message)
      (send_submit_sm_pdu peer)

-- `SubmitSmBuilder::send`
unfoldable pub send_submit_sm_builder : Peer → Builder → Call
unfolding send_submit_sm_pdu
send_submit_sm_builder peer b =
    with_built peer
      (do
        p ←
            SubmitSm.new 0 b.service_type b.source_addr_ton b.source_addr_npi b.source_addr
              b.dest_addr_ton b.dest_addr_npi b.destination_addr b.esm_class b.protocol_id
              b.priority_flag b.schedule_delivery_time b.validity_period b.registered_delivery
              b.replace_if_present_flag b.data_coding b.sm_default_msg_id b.short_message
        ok (SubmitSm.with_tlvs p b.tlvs))
      (send_submit_sm_pdu peer)

-- What `send_submit_sm` and the like end with.
abbrev pub submit_sm_outcome :
    FromPrimitive → Call → Answer → Result SmppError SubmitResp.SubmitSmResp
submit_sm_outcome derived = finish derived as_submit_sm_resp

unfoldable pub send_data_sm_pdu : Peer → DataSm → Call
unfolding guarded_request
send_data_sm_pdu peer p =
    guarded_request peer (λ n. ok (DataSm.encode (DataSm.set_sequence_number p n)))

unfoldable pub send_data_sm : Peer → Bytes → ℕ → ℕ → Bytes → ℕ → ℕ → Bytes → ℕ → ℕ → ℕ → Call
unfolding send_data_sm_pdu
send_data_sm peer service_type source_addr_ton source_addr_npi source_addr dest_addr_ton
      dest_addr_npi destination_addr esm_class registered_delivery data_coding =
    send_data_sm_pdu peer (
      DataSm.new 0 service_type source_addr_ton source_addr_npi source_addr dest_addr_ton
        dest_addr_npi destination_addr esm_class registered_delivery data_coding)

abbrev pub data_sm_outcome : FromPrimitive → Call → Answer → Result SmppError DataResp.DataSmResp
data_sm_outcome derived = finish derived as_data_sm_resp

unfoldable pub send_cancel_sm : Peer → Bytes → Bytes → ℕ → ℕ → Bytes → ℕ → ℕ → Bytes → Call
unfolding guarded_request
send_cancel_sm peer service_type message_id source_addr_ton source_addr_npi source_addr
      dest_addr_ton dest_addr_npi destination_addr =
    guarded_request peer (λ n.
      CancelSm.new n service_type message_id source_addr_ton source_addr_npi source_addr
        dest_addr_ton dest_addr_npi destination_addr
      >>= λ p. ok (CancelSm.encode p))

unfoldable pub send_query_sm : Peer → Bytes → ℕ → ℕ → Bytes → Call
unfolding guarded_request
send_query_sm peer message_id source_addr_ton source_addr_npi source_addr =
    guarded_request peer (λ n.
      ok (QuerySm.encode (QuerySm.new n message_id source_addr_ton source_addr_npi source_addr)))

unfoldable pub send_replace_sm : Peer → Bytes → ℕ → ℕ → Bytes → Bytes → Bytes → ℕ → ℕ → Bytes → Call
unfolding guarded_request
send_replace_sm peer message_id source_addr_ton source_addr_npi source_addr schedule_delivery_time
      validity_period registered_delivery sm_default_msg_id short_message =
    guarded_request peer (λ n.
      ReplaceSm.new n message_id source_addr_ton source_addr_npi source_addr schedule_delivery_time
        validity_period registered_delivery sm_default_msg_id short_message
      >>= λ p. ok (ReplaceSm.encode p))

unfoldable pub send_submit_sm_multi_pdu : Peer → SubmitSmMulti → Call
unfolding guarded_request
send_submit_sm_multi_pdu peer p =
    guarded_request peer (λ n. ok (SubmitSmMulti.encode (SubmitSmMulti.set_sequence_number p n)))

unfoldable pub send_submit_sm_multi :
    Peer
    → Bytes
    → ℕ
    → ℕ
    → Bytes
    → List DestAddress
    → ℕ
    → ℕ
    → ℕ
    → Bytes
    → Bytes
    → ℕ
    → ℕ
    → ℕ
    → ℕ
    → Bytes
    → Call
unfolding send_submit_sm_multi_pdu
send_submit_sm_multi peer service_type source_addr_ton source_addr_npi source_addr dest_addresses
      esm_class protocol_id priority_flag schedule_delivery_time validity_period registered_delivery
      replace_if_present_flag data_coding sm_default_msg_id short_message =
    with_built peer
      (SubmitSmMulti.new 0 service_type source_addr_ton source_addr_npi source_addr dest_addresses
        esm_class protocol_id priority_flag schedule_delivery_time validity_period
        registered_delivery replace_if_present_flag data_coding sm_default_msg_id short_message)
      (send_submit_sm_multi_pdu peer)

-- On any binding.
unfoldable pub send_unbind : Peer → Call
unfolding request
send_unbind peer =
    request peer (λ n. ok (HeaderOnly.encode (HeaderOnly.unbind_with_sequence_number n)))

abbrev pub unbind_outcome : FromPrimitive → Call → Answer → Result SmppError HeaderOnly
unbind_outcome derived = finish derived as_unbind_resp
