-- ===== src/Examples/Wire.antt =====
-- The theorems on the wire format at concrete PDUs.
use smpp.Base.{◌≡◌, refl, [], ◌∷◌, ◌++◌, ◌+◌, arith, Bytes, length, some, ok, drop}
use smpp.Common.Error.{esme_rsyserr}
use smpp.Common.Command.{CommandId, id_of}
use smpp.Common.Header
use smpp.Common.Header.{CommandHeader, IsHeader}
use smpp.Common.Framing.{frame_first_pdu, complete, invalid}
use smpp.Common.Wire.{max_pdu_len, Arrives}
use smpp.Common.Tlv.{decode_tlvs}
use smpp.Common.Tlv.Codec.{decode_tlvs_total, Decoded}
use smpp.Commands.SubmitSm
use smpp.Commands.SubmitSm.Laws.{submit_sm-Arrives}
use smpp.Commands.SubmitSmMulti
use smpp.Commands.SubmitSmMulti.Laws.{submit_sm_multi-Arrives}
use smpp.Commands.SubmitSmMulti.Response as MultiResp
use smpp.Commands.SubmitSmMulti.Response.{submit_sm_multi_accept-Arrives, UnsuccessSme}
use smpp.Commands.DeliverSm
use smpp.Commands.DeliverSm.Laws.{deliver_sm-Arrives}
use smpp.Commands.DeliverSm.Response as DeliverResp
use smpp.Commands.DeliverSm.Response.{deliver_sm_reject_desyncs}
use smpp.Commands.DataSm
use smpp.Commands.DataSm.Laws.{data_sm-Arrives}
use smpp.Commands.DataSm.Response as DataResp
use smpp.Commands.DataSm.Response.{data_sm_resp-Arrives}
use smpp.Commands.QuerySm
use smpp.Commands.QuerySm.Laws.{query_sm-Arrives}
use smpp.Commands.ReplaceSm
use smpp.Commands.ReplaceSm.Laws.{replace_sm-Arrives}
use smpp.Commands.CancelSm.{CancelSm}
use smpp.Commands.CancelSm
use smpp.Commands.CancelSm.Laws.{cancel_sm_misframed}
use smpp.Commands.AlertNotification.{AlertNotification, alert_notification-Arrives}
use smpp.Commands.AlertNotification
use smpp.Commands.Outbind.{outbind-Arrives}
use smpp.Commands.Outbind
use smpp.Examples.Crates.{std_nom, std_nom_laws}
use smpp.Examples.Sides.{alice-text, bob-text}
use smpp.Examples.Messages.{
  cmt, alice, bob, submission, submission-IsValid, broadcast, broadcast-IsValid, delivery,
  delivery-IsValid, datagram, datagram-IsValid, data_response, data_response-IsValid, header_of,
  query, query-IsValid, replacement, replacement-IsValid,
}

submit_sm-Arrives_example :
    Arrives (SubmitSm.encode submission) (SubmitSm.sent_header submission)
    × (SubmitSm.decode std_nom (SubmitSm.sent_header submission) (SubmitSm.encode submission)
        ≡ ok (record submission { header = SubmitSm.sent_header submission }))
submit_sm-Arrives_example = submit_sm-Arrives std_nom_laws submission submission-IsValid

submit_sm_multi-Arrives_example :
    Arrives (SubmitSmMulti.encode broadcast) (SubmitSmMulti.sent_header broadcast)
    × (SubmitSmMulti.decode std_nom
          (SubmitSmMulti.sent_header broadcast)
          (SubmitSmMulti.encode broadcast)
        ≡ ok (record broadcast { header = SubmitSmMulti.sent_header broadcast }))
submit_sm_multi-Arrives_example = submit_sm_multi-Arrives std_nom_laws broadcast broadcast-IsValid

deliver_sm-Arrives_example :
    Arrives (DeliverSm.encode delivery) (DeliverSm.sent_header delivery)
    × (DeliverSm.decode std_nom (DeliverSm.sent_header delivery) (DeliverSm.encode delivery)
        ≡ ok (record delivery { header = DeliverSm.sent_header delivery }))
deliver_sm-Arrives_example = deliver_sm-Arrives std_nom_laws delivery delivery-IsValid

data_sm-Arrives_example :
    Arrives (DataSm.encode datagram) (DataSm.sent_header datagram)
    × (DataSm.decode std_nom (DataSm.sent_header datagram) (DataSm.encode datagram)
        ≡ ok (record datagram { header = DataSm.sent_header datagram }))
data_sm-Arrives_example = data_sm-Arrives std_nom_laws datagram datagram-IsValid

data_sm_resp-Arrives_example :
    Arrives (DataResp.encode data_response) (DataResp.sent_header data_response)
    × (DataResp.decode std_nom (DataResp.sent_header data_response) (DataResp.encode data_response)
        ≡ ok (record data_response { header = DataResp.sent_header data_response }))
data_sm_resp-Arrives_example = data_sm_resp-Arrives std_nom_laws data_response data_response-IsValid

abbrev refused : UnsuccessSme
refused = record {
  dest_addr_ton = 1;
  dest_addr_npi = 1;
  destination_addr = bob;
  error_status_code = 0xb;
}

submit_sm_multi_accept-Arrives_example :
    let r = MultiResp.accept broadcast alice (refused ∷ []) in
    Arrives (MultiResp.encode r) r.header
    × (MultiResp.decode std_nom r.header (MultiResp.encode r) ≡ ok r)
unfolding MultiResp.all_len
submit_sm_multi_accept-Arrives_example =
    submit_sm_multi_accept-Arrives std_nom_laws broadcast alice (refused ∷ []) (omega arith)
      alice-text (record { destination_addr_text = bob-text; code_u32 = omega arith }, tt)
      (omega arith) (omega arith)

decode_tlvs_total_example :
    (d : Decoded (2 ∷ 4 ∷ 0 ∷ 1 ∷ 7 ∷ 5 ∷ [])) × (decode_tlvs std_nom (2 ∷ 4 ∷ 0 ∷ 1 ∷ 7 ∷ 5 ∷ [])
      ≡ ok d.tlvs)
decode_tlvs_total_example =
    decode_tlvs_total std_nom_laws (2 ∷ 4 ∷ 0 ∷ 1 ∷ 7 ∷ 5 ∷ [])
      (omega arith, (omega arith, (omega arith, (omega arith, (omega arith, (omega arith, tt))))))

-- What `new` gives for a cancel_sm.
abbrev cancelled : CancelSm
cancelled = record {
  header = record {
    command_length = 34;
    command_id = id_of CommandId.cancel_sm;
    command_status = 0;
    sequence_number = 7;
  };
  service_type = cmt;
  message_id = bob;
  source_addr_ton = 1;
  source_addr_npi = 1;
  source_addr = alice;
  dest_addr_ton = 1;
  dest_addr_npi = 1;
  destination_addr = bob;
}

cancelled-new : CancelSm.new 7 cmt bob 1 1 alice 1 1 bob ≡ ok cancelled
unfolding CancelSm.new
cancelled-new = refl

cancel_sm_misframed_example :
    (frame_first_pdu (CancelSm.encode cancelled) max_pdu_len ≡ complete 34)
    × (length (CancelSm.encode cancelled) ≡ 34 + length bob + 1)
cancel_sm_misframed_example =
    cancel_sm_misframed 7 cmt bob 1 1 alice 1 1 bob cancelled (omega arith) cancelled-new

-- What `new` gives for an alert_notification.
abbrev alert : AlertNotification
alert = record {
  header = record {
    command_length = 35;
    command_id = id_of CommandId.alert_notification;
    command_status = 0;
    sequence_number = 7;
  };
  source_addr_ton = 1;
  source_addr_npi = 1;
  source_addr = alice;
  esme_addr_ton = 1;
  esme_addr_npi = 1;
  esme_addr = bob;
  ms_availability_status = some 0;
}

alert-new : AlertNotification.new 7 1 1 alice 1 1 bob (some 0) ≡ ok alert
unfolding AlertNotification.new
alert-new = refl

outbind-Arrives_example :
    let p = Outbind.new 7 bob alice in
    (pdu : Bytes) × (Outbind.encode p ≡ ok pdu)
    × Arrives pdu p.header
    × (Outbind.decode p.header pdu ≡ ok p)
outbind-Arrives_example =
    outbind-Arrives 7 bob alice (omega arith) (omega arith) (omega arith) bob-text alice-text

-- An enquire_link sent behind the rejection.
deliver_sm_reject_desyncs_example :
    let sent =
      DeliverResp.encode (DeliverResp.reject delivery esme_rsyserr)
      ++ (Header.encode (header_of CommandId.enquire_link) ++ ([] ++ [])) in
    (frame_first_pdu sent max_pdu_len ≡ complete 16)
    × (length (DeliverResp.encode (DeliverResp.reject delivery esme_rsyserr)) ≡ 17)
    × (frame_first_pdu (drop 16 sent) max_pdu_len ≡ invalid 0)
deliver_sm_reject_desyncs_example =
    deliver_sm_reject_desyncs delivery esme_rsyserr (header_of CommandId.enquire_link) [] []
      (omega arith)
      (record {
        length_u32 = omega arith;
        id_u32 = omega arith;
        status_u32 = omega arith;
        sequence_u32 = omega arith;
      })
      (omega arith)

query_sm-Arrives_example :
    Arrives (QuerySm.encode query) query.header
    × (QuerySm.decode std_nom query.header (QuerySm.encode query) ≡ ok query)
query_sm-Arrives_example = query_sm-Arrives std_nom_laws query query-IsValid

replace_sm-Arrives_example :
    Arrives (ReplaceSm.encode replacement) replacement.header
    × (ReplaceSm.decode std_nom replacement.header (ReplaceSm.encode replacement) ≡ ok replacement)
replace_sm-Arrives_example = replace_sm-Arrives std_nom_laws replacement replacement-IsValid

alert_notification-Arrives_example :
    Arrives (AlertNotification.encode alert) alert.header
    × (AlertNotification.decode std_nom alert.header (AlertNotification.encode alert) ≡ ok alert)
alert_notification-Arrives_example =
    alert_notification-Arrives std_nom_laws 7 1 1 alice 1 1 bob (some 0) alert (omega arith)
      alert-new alice-text bob-text
