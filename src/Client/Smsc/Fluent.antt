-- ===== src/Client/Smsc/Fluent.antt =====
-- client/mod.rs: `SubmitSmBuilder::send` against `SMSC::send_submit_sm`.
use smpp.Base.{ℕ, ◌≡◌, Bytes, leb, length, Bool-cases, inl, inr}
use smpp.Commands.SubmitSm
use smpp.Engine.Request.{Peer}
use smpp.Engine.Builder.{
  builder, with_service_type, with_source_addr_ton, with_source_addr_npi, with_source_addr,
  with_dest_addr_ton, with_dest_addr_npi, with_destination_addr, with_esm_class, with_protocol_id,
  with_priority_flag, with_schedule_delivery_time, with_validity_period, with_registered_delivery,
  with_replace_if_present_flag, with_data_coding, with_sm_default_msg_id, with_short_message,
}
use smpp.Client.Smsc.{send_submit_sm, send_submit_sm_builder}

-- A builder on which every field is set and no optional parameter added sends what the function of
-- seventeen arguments sends, in every state of the session.
pub send_submit_sm_builder_lem :
    (peer : Peer) (service_type : Bytes) (source_addr_ton source_addr_npi : ℕ) (source_addr : Bytes)
    (dest_addr_ton dest_addr_npi : ℕ) (destination_addr : Bytes)
    (esm_class protocol_id priority_flag : ℕ) (schedule_delivery_time validity_period : Bytes)
    (registered_delivery replace_if_present_flag data_coding sm_default_msg_id : ℕ)
    (short_message : Bytes)
    → send_submit_sm_builder peer (
        with_short_message short_message (
          with_sm_default_msg_id sm_default_msg_id (
            with_data_coding data_coding (
              with_replace_if_present_flag replace_if_present_flag (
                with_registered_delivery registered_delivery (
                  with_validity_period validity_period (
                    with_schedule_delivery_time schedule_delivery_time (
                      with_priority_flag priority_flag (
                        with_protocol_id protocol_id (
                          with_esm_class esm_class (
                            with_destination_addr destination_addr (
                              with_dest_addr_npi dest_addr_npi (
                                with_dest_addr_ton dest_addr_ton (
                                  with_source_addr source_addr (
                                    with_source_addr_npi source_addr_npi (
                                      with_source_addr_ton source_addr_ton
                                        (with_service_type service_type builder)))))))))))))))))
      ≡ send_submit_sm peer service_type source_addr_ton source_addr_npi source_addr dest_addr_ton
          dest_addr_npi destination_addr esm_class protocol_id priority_flag schedule_delivery_time
          validity_period registered_delivery replace_if_present_flag data_coding sm_default_msg_id
          short_message
unfolding send_submit_sm_builder send_submit_sm SubmitSm.new SubmitSm.with_tlvs with_service_type
    with_source_addr_ton with_source_addr_npi with_source_addr with_dest_addr_ton with_dest_addr_npi
    with_destination_addr with_esm_class with_protocol_id with_priority_flag
    with_schedule_delivery_time with_validity_period with_registered_delivery
    with_replace_if_present_flag with_data_coding with_sm_default_msg_id with_short_message
send_submit_sm_builder_lem peer service_type source_addr_ton source_addr_npi source_addr
      dest_addr_ton dest_addr_npi destination_addr esm_class protocol_id priority_flag
      schedule_delivery_time validity_period registered_delivery replace_if_present_flag data_coding
      sm_default_msg_id short_message =
    elim (Bool-cases (leb (length short_message) 254)) [ inl b ↦ simp (b) | inr b ↦ simp (b) ]
