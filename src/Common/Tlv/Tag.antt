-- ===== src/Common/Tlv/Tag.antt =====
-- common/tlv.rs, `TlvTag`: the optional-parameter tags of SMPP 3.4, and the table `TlvTag::ALL`.
use Prim.Native.String.{String}
use smpp.Base.{ℕ, ◌≡◌, refl, sym, ap, ◌∙◌, Option, none, some, List, [], ◌∷◌, ◌==◌, if◌then◌else◌}

pub data TlvTag : Type 0 where
  dest_addr_subunit dest_network_type dest_bearer_type dest_telematics_id : TlvTag
  source_addr_subunit source_network_type source_bearer_type source_telematics_id : TlvTag
  qos_time_to_live payload_type additional_status_info_text receipted_message_id : TlvTag
  ms_msg_wait_facilities privacy_indicator source_subaddress dest_subaddress : TlvTag
  user_message_reference user_response_code source_port destination_port : TlvTag
  sar_msg_ref_num language_indicator sar_total_segments sar_segment_seqnum : TlvTag
  sc_interface_version callback_num_pres_ind callback_num_atag number_of_messages : TlvTag
  callback_num dpf_result set_dpf ms_availability_status network_error_code : TlvTag
  message_payload delivery_failure_reason more_messages_to_send message_state_tlv : TlvTag
  ussd_service_op display_time sms_signal ms_validity alert_on_message_delivery : TlvTag
  its_reply_type its_session_info : TlvTag

-- `tag as u16`
abbrev pub tag_of : TlvTag → ℕ
tag_of dest_addr_subunit = 0x5
tag_of dest_network_type = 0x6
tag_of dest_bearer_type = 0x7
tag_of dest_telematics_id = 0x8
tag_of source_addr_subunit = 0xd
tag_of source_network_type = 0xe
tag_of source_bearer_type = 0xf
tag_of source_telematics_id = 0x10
tag_of qos_time_to_live = 0x17
tag_of payload_type = 0x19
tag_of additional_status_info_text = 0x1d
tag_of receipted_message_id = 0x1e
tag_of ms_msg_wait_facilities = 0x30
tag_of privacy_indicator = 0x201
tag_of source_subaddress = 0x202
tag_of dest_subaddress = 0x203
tag_of user_message_reference = 0x204
tag_of user_response_code = 0x205
tag_of source_port = 0x20a
tag_of destination_port = 0x20b
tag_of sar_msg_ref_num = 0x20c
tag_of language_indicator = 0x20d
tag_of sar_total_segments = 0x20e
tag_of sar_segment_seqnum = 0x20f
tag_of sc_interface_version = 0x210
tag_of callback_num_pres_ind = 0x302
tag_of callback_num_atag = 0x303
tag_of number_of_messages = 0x304
tag_of callback_num = 0x381
tag_of dpf_result = 0x420
tag_of set_dpf = 0x421
tag_of ms_availability_status = 0x422
tag_of network_error_code = 0x423
tag_of message_payload = 0x424
tag_of delivery_failure_reason = 0x425
tag_of more_messages_to_send = 0x426
tag_of message_state_tlv = 0x427
tag_of ussd_service_op = 0x501
tag_of display_time = 0x1201
tag_of sms_signal = 0x1203
tag_of ms_validity = 0x1204
tag_of alert_on_message_delivery = 0x130c
tag_of its_reply_type = 0x1380
tag_of its_session_info = 0x1383

-- `TlvTag::ALL`
unfoldable pub all_tags : List (String × TlvTag)
all_tags =
    ("DEST_ADDR_SUBUNIT", dest_addr_subunit)
    ∷ ("DEST_NETWORK_TYPE", dest_network_type)
    ∷ ("DEST_BEARER_TYPE", dest_bearer_type)
    ∷ ("DEST_TELEMATICS_ID", dest_telematics_id)
    ∷ ("SOURCE_ADDR_SUBUNIT", source_addr_subunit)
    ∷ ("SOURCE_NETWORK_TYPE", source_network_type)
    ∷ ("SOURCE_BEARER_TYPE", source_bearer_type)
    ∷ ("SOURCE_TELEMATICS_ID", source_telematics_id)
    ∷ ("QOS_TIME_TO_LIVE", qos_time_to_live)
    ∷ ("PAYLOAD_TYPE", payload_type)
    ∷ ("ADDITIONAL_STATUS_INFO_TEXT", additional_status_info_text)
    ∷ ("RECEIPTED_MESSAGE_ID", receipted_message_id)
    ∷ ("MS_MSG_WAIT_FACILITIES", ms_msg_wait_facilities)
    ∷ ("PRIVACY_INDICATOR", privacy_indicator)
    ∷ ("SOURCE_SUBADDRESS", source_subaddress)
    ∷ ("DEST_SUBADDRESS", dest_subaddress)
    ∷ ("USER_MESSAGE_REFERENCE", user_message_reference)
    ∷ ("USER_RESPONSE_CODE", user_response_code)
    ∷ ("SOURCE_PORT", source_port)
    ∷ ("DESTINATION_PORT", destination_port)
    ∷ ("SAR_MSG_REF_NUM", sar_msg_ref_num)
    ∷ ("LANGUAGE_INDICATOR", language_indicator)
    ∷ ("SAR_TOTAL_SEGMENTS", sar_total_segments)
    ∷ ("SAR_SEGMENT_SEQNUM", sar_segment_seqnum)
    ∷ ("SC_INTERFACE_VERSION", sc_interface_version)
    ∷ ("CALLBACK_NUM_PRES_IND", callback_num_pres_ind)
    ∷ ("CALLBACK_NUM_ATAG", callback_num_atag)
    ∷ ("NUMBER_OF_MESSAGES", number_of_messages)
    ∷ ("CALLBACK_NUM", callback_num)
    ∷ ("DPF_RESULT", dpf_result)
    ∷ ("SET_DPF", set_dpf)
    ∷ ("MS_AVAILABILITY_STATUS", ms_availability_status)
    ∷ ("NETWORK_ERROR_CODE", network_error_code)
    ∷ ("MESSAGE_PAYLOAD", message_payload)
    ∷ ("DELIVERY_FAILURE_REASON", delivery_failure_reason)
    ∷ ("MORE_MESSAGES_TO_SEND", more_messages_to_send)
    ∷ ("MESSAGE_STATE", message_state_tlv)
    ∷ ("USSD_SERVICE_OP", ussd_service_op)
    ∷ ("DISPLAY_TIME", display_time)
    ∷ ("SMS_SIGNAL", sms_signal)
    ∷ ("MS_VALIDITY", ms_validity)
    ∷ ("ALERT_ON_MESSAGE_DELIVERY", alert_on_message_delivery)
    ∷ ("ITS_REPLY_TYPE", its_reply_type)
    ∷ ("ITS_SESSION_INFO", its_session_info)
    ∷ []

-- The first entry of a table with the given number.
abbrev pub find_tag : ℕ → List (String × TlvTag) → Option TlvTag
find_tag n [] = none
find_tag n ((name, t) ∷ rest) = if tag_of t == n then some t else find_tag n rest

-- Every tag stands in `TlvTag::ALL`, and is the only one there with its number.
pub find_tag-all_tags : (t : TlvTag) → find_tag (tag_of t) all_tags ≡ some t
unfolding all_tags
find_tag-all_tags dest_addr_subunit = refl
find_tag-all_tags dest_network_type = refl
find_tag-all_tags dest_bearer_type = refl
find_tag-all_tags dest_telematics_id = refl
find_tag-all_tags source_addr_subunit = refl
find_tag-all_tags source_network_type = refl
find_tag-all_tags source_bearer_type = refl
find_tag-all_tags source_telematics_id = refl
find_tag-all_tags qos_time_to_live = refl
find_tag-all_tags payload_type = refl
find_tag-all_tags additional_status_info_text = refl
find_tag-all_tags receipted_message_id = refl
find_tag-all_tags ms_msg_wait_facilities = refl
find_tag-all_tags privacy_indicator = refl
find_tag-all_tags source_subaddress = refl
find_tag-all_tags dest_subaddress = refl
find_tag-all_tags user_message_reference = refl
find_tag-all_tags user_response_code = refl
find_tag-all_tags source_port = refl
find_tag-all_tags destination_port = refl
find_tag-all_tags sar_msg_ref_num = refl
find_tag-all_tags language_indicator = refl
find_tag-all_tags sar_total_segments = refl
find_tag-all_tags sar_segment_seqnum = refl
find_tag-all_tags sc_interface_version = refl
find_tag-all_tags callback_num_pres_ind = refl
find_tag-all_tags callback_num_atag = refl
find_tag-all_tags number_of_messages = refl
find_tag-all_tags callback_num = refl
find_tag-all_tags dpf_result = refl
find_tag-all_tags set_dpf = refl
find_tag-all_tags ms_availability_status = refl
find_tag-all_tags network_error_code = refl
find_tag-all_tags message_payload = refl
find_tag-all_tags delivery_failure_reason = refl
find_tag-all_tags more_messages_to_send = refl
find_tag-all_tags message_state_tlv = refl
find_tag-all_tags ussd_service_op = refl
find_tag-all_tags display_time = refl
find_tag-all_tags sms_signal = refl
find_tag-all_tags ms_validity = refl
find_tag-all_tags alert_on_message_delivery = refl
find_tag-all_tags its_reply_type = refl
find_tag-all_tags its_session_info = refl

-- No two tags share a number.
pub tag_of-injective : (s t : TlvTag) → tag_of s ≡ tag_of t → s ≡ t
tag_of-injective s t h =
    some_eq (sym (find_tag-all_tags s) ∙ ap (λ n. find_tag n all_tags) h ∙ find_tag-all_tags t)
  where
    some_eq : some s ≡ some t → s ≡ t
    some_eq e = cc
