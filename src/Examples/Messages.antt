-- ===== src/Examples/Messages.antt =====
-- Test data: PDUs of each kind, and that they are valid.
use smpp.Base.{inr, refl, [], ◌∷◌, arith, Bytes, some}
use smpp.Common.Command.{CommandId, id_of}
use smpp.Common.Header.{CommandHeader}
use smpp.Common.Tlv.{Tlv, tlvs_encoded_len}
use smpp.Utf8.{is_utf8}
use smpp.Commands.SubmitSm.{SubmitSm}
use smpp.Commands.SubmitSm.Laws as SubmitSmLaws
use smpp.Commands.SubmitSmMulti.{SubmitSmMulti, sme, distribution_list, dests_len}
use smpp.Commands.SubmitSmMulti.Laws as SubmitSmMultiLaws
use smpp.Commands.DeliverSm.{DeliverSm}
use smpp.Commands.DeliverSm.Laws as DeliverSmLaws
use smpp.Commands.DataSm.{DataSm}
use smpp.Commands.DataSm.Laws as DataSmLaws
use smpp.Commands.DataSm.Response as DataResp
use smpp.Commands.QuerySm.{QuerySm}
use smpp.Commands.QuerySm.Laws as QuerySmLaws
use smpp.Commands.ReplaceSm.{ReplaceSm}
use smpp.Commands.ReplaceSm.Laws as ReplaceSmLaws

-- "CMT", "alice" and "bob".
abbrev pub cmt : Bytes
cmt = 67 ∷ 77 ∷ 84 ∷ []

abbrev pub alice : Bytes
alice = 97 ∷ 108 ∷ 105 ∷ 99 ∷ 101 ∷ []

abbrev pub bob : Bytes
bob = 98 ∷ 111 ∷ 98 ∷ []

-- user_message_reference with the value 258.
abbrev pub reference : Tlv
reference = record { tag = 0x204; value = 1 ∷ 2 ∷ [] }

abbrev pub header_of : CommandId → CommandHeader
header_of id = record {
  command_length = 16;
  command_id = id_of id;
  command_status = 0;
  sequence_number = 7;
}

abbrev pub submission : SubmitSm
submission = record {
  header = header_of CommandId.submit_sm;
  service_type = cmt;
  source_addr_ton = 1;
  source_addr_npi = 1;
  source_addr = alice;
  dest_addr_ton = 5;
  dest_addr_npi = 0;
  destination_addr = bob;
  esm_class = 0;
  protocol_id = 0;
  priority_flag = 1;
  schedule_delivery_time = [];
  validity_period = [];
  registered_delivery = 1;
  replace_if_present_flag = 0;
  data_coding = 0;
  sm_default_msg_id = 0;
  sm_length = 2;
  short_message = 104 ∷ 105 ∷ [];
  tlvs = reference ∷ [];
}

abbrev pub delivery : DeliverSm
delivery = record {
  header = header_of CommandId.deliver_sm;
  service_type = cmt;
  source_addr_ton = 1;
  source_addr_npi = 1;
  source_addr = alice;
  dest_addr_ton = 5;
  dest_addr_npi = 0;
  destination_addr = bob;
  esm_class = 0;
  protocol_id = 0;
  priority_flag = 1;
  schedule_delivery_time = [];
  validity_period = [];
  registered_delivery = 1;
  replace_if_present_flag = 0;
  data_coding = 0;
  sm_default_msg_id = 0;
  sm_length = 2;
  short_message = 104 ∷ 105 ∷ [];
  tlvs = reference ∷ [];
}

abbrev pub broadcast : SubmitSmMulti
broadcast = record {
  header = header_of CommandId.submit_multi;
  service_type = cmt;
  source_addr_ton = 1;
  source_addr_npi = 1;
  source_addr = alice;
  number_of_dests = 2;
  dest_addresses = sme 1 1 bob ∷ distribution_list cmt ∷ [];
  esm_class = 0;
  protocol_id = 0;
  priority_flag = 1;
  schedule_delivery_time = [];
  validity_period = [];
  registered_delivery = 1;
  replace_if_present_flag = 0;
  data_coding = 0;
  sm_default_msg_id = 0;
  sm_length = 2;
  short_message = 104 ∷ 105 ∷ [];
  tlvs = reference ∷ [];
}

abbrev pub datagram : DataSm
datagram = record {
  header = header_of CommandId.data_sm;
  service_type = cmt;
  source_addr_ton = 1;
  source_addr_npi = 1;
  source_addr = alice;
  dest_addr_ton = 5;
  dest_addr_npi = 0;
  destination_addr = bob;
  esm_class = 0;
  registered_delivery = 1;
  data_coding = 0;
  tlvs = reference ∷ [];
}

abbrev pub query : QuerySm
query = record {
  header = record {
    command_length = 28;
    command_id = id_of CommandId.query_sm;
    command_status = 0;
    sequence_number = 7;
  };
  message_id = bob;
  source_addr_ton = 1;
  source_addr_npi = 1;
  source_addr = alice;
}

abbrev pub replacement : ReplaceSm
replacement = record {
  header = record {
    command_length = 35;
    command_id = id_of CommandId.replace_sm;
    command_status = 0;
    sequence_number = 7;
  };
  message_id = bob;
  source_addr_ton = 1;
  source_addr_npi = 1;
  source_addr = alice;
  schedule_delivery_time = [];
  validity_period = [];
  registered_delivery = 1;
  sm_default_msg_id = 0;
  sm_length = 2;
  short_message = 104 ∷ 105 ∷ [];
}

abbrev pub data_response : DataResp.DataSmResp
data_response = record {
  header = header_of CommandId.data_sm_resp;
  message_id = some bob;
  tlvs = reference ∷ [];
}

pub submission-IsValid : SubmitSmLaws.IsValid submission
unfolding is_utf8 tlvs_encoded_len
submission-IsValid = record {
  header_valid = record {
    length_u32 = omega arith;
    id_u32 = omega arith;
    status_u32 = omega arith;
    sequence_u32 = omega arith;
  };
  service_type_text = refl;
  source_addr_text = refl;
  destination_addr_text = refl;
  schedule_delivery_time_text = refl;
  validity_period_text = refl;
  sm_length_counts = refl;
  tlvs_valid = (record { tag_u16 = omega arith; length_u16 = omega arith }, tt);
  within = omega arith;
}

pub delivery-IsValid : DeliverSmLaws.IsValid delivery
unfolding is_utf8 tlvs_encoded_len
delivery-IsValid = record {
  header_valid = record {
    length_u32 = omega arith;
    id_u32 = omega arith;
    status_u32 = omega arith;
    sequence_u32 = omega arith;
  };
  service_type_text = refl;
  source_addr_text = refl;
  destination_addr_text = refl;
  schedule_delivery_time_text = refl;
  validity_period_text = refl;
  sm_length_counts = refl;
  tlvs_valid = (record { tag_u16 = omega arith; length_u16 = omega arith }, tt);
  within = omega arith;
}

pub broadcast-IsValid : SubmitSmMultiLaws.IsValid broadcast
unfolding is_utf8 tlvs_encoded_len dests_len
broadcast-IsValid = record {
  header_valid = record {
    length_u32 = omega arith;
    id_u32 = omega arith;
    status_u32 = omega arith;
    sequence_u32 = omega arith;
  };
  service_type_text = refl;
  source_addr_text = refl;
  schedule_delivery_time_text = refl;
  validity_period_text = refl;
  number_of_dests_counts = refl;
  dests_valid = (refl, (refl, tt));
  sm_length_counts = refl;
  tlvs_valid = (record { tag_u16 = omega arith; length_u16 = omega arith }, tt);
  within = omega arith;
}

pub datagram-IsValid : DataSmLaws.IsValid datagram
unfolding is_utf8 tlvs_encoded_len
datagram-IsValid = record {
  header_valid = record {
    length_u32 = omega arith;
    id_u32 = omega arith;
    status_u32 = omega arith;
    sequence_u32 = omega arith;
  };
  service_type_text = refl;
  source_addr_text = refl;
  destination_addr_text = refl;
  tlvs_valid = (record { tag_u16 = omega arith; length_u16 = omega arith }, tt);
  within = omega arith;
}

pub query-IsValid : QuerySmLaws.IsValid query
unfolding is_utf8
query-IsValid = record {
  header_valid = record {
    length_u32 = omega arith;
    id_u32 = omega arith;
    status_u32 = omega arith;
    sequence_u32 = omega arith;
  };
  message_id_text = refl;
  source_addr_text = refl;
  within = omega arith;
  states_length = refl;
}

pub replacement-IsValid : ReplaceSmLaws.IsValid replacement
unfolding is_utf8
replacement-IsValid = record {
  header_valid = record {
    length_u32 = omega arith;
    id_u32 = omega arith;
    status_u32 = omega arith;
    sequence_u32 = omega arith;
  };
  message_id_text = refl;
  source_addr_text = refl;
  schedule_delivery_time_text = refl;
  validity_period_text = refl;
  sm_length_counts = refl;
  within = omega arith;
  states_length = refl;
}

pub data_response-IsValid : DataResp.IsValid data_response
unfolding is_utf8 tlvs_encoded_len
data_response-IsValid = record {
  header_valid = record {
    length_u32 = omega arith;
    id_u32 = omega arith;
    status_u32 = omega arith;
    sequence_u32 = omega arith;
  };
  tlvs_valid = (record { tag_u16 = omega arith; length_u16 = omega arith }, tt);
  within = omega arith;
  shape = inr (bob, refl, refl, refl);
}
