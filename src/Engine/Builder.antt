-- ===== src/Engine/Builder.antt =====
-- `SubmitSmBuilder` of client/mod.rs and `DeliverSmBuilder` of server/mod.rs, which have the same fields
-- and setters: a message that starts out empty, and is built field by field.
use smpp.Base.{ℕ, List, [], ◌∷◌, ◌++◌, Bytes}
use smpp.Common.Tlv.{Tlv, from_tag}
use smpp.Common.Tlv
use smpp.Common.Tlv.Tag.{TlvTag}

pub record Builder : Type 0 where
  pub service_type : Bytes
  pub source_addr_ton : ℕ
  pub source_addr_npi : ℕ
  pub source_addr : Bytes
  pub dest_addr_ton : ℕ
  pub dest_addr_npi : ℕ
  pub destination_addr : Bytes
  pub esm_class : ℕ
  pub protocol_id : ℕ
  pub priority_flag : ℕ
  pub schedule_delivery_time : Bytes
  pub validity_period : Bytes
  pub registered_delivery : ℕ
  pub replace_if_present_flag : ℕ
  pub data_coding : ℕ
  pub sm_default_msg_id : ℕ
  pub short_message : Bytes
  pub tlvs : List Tlv

-- `new`
abbrev pub builder : Builder
builder = record {
  service_type = [];
  source_addr_ton = 0;
  source_addr_npi = 0;
  source_addr = [];
  dest_addr_ton = 0;
  dest_addr_npi = 0;
  destination_addr = [];
  esm_class = 0;
  protocol_id = 0;
  priority_flag = 0;
  schedule_delivery_time = [];
  validity_period = [];
  registered_delivery = 0;
  replace_if_present_flag = 0;
  data_coding = 0;
  sm_default_msg_id = 0;
  short_message = [];
  tlvs = [];
}

unfoldable pub with_service_type : Bytes → Builder → Builder
with_service_type v b = record b { service_type = v }

unfoldable pub with_source_addr_ton : ℕ → Builder → Builder
with_source_addr_ton v b = record b { source_addr_ton = v }

unfoldable pub with_source_addr_npi : ℕ → Builder → Builder
with_source_addr_npi v b = record b { source_addr_npi = v }

unfoldable pub with_source_addr : Bytes → Builder → Builder
with_source_addr v b = record b { source_addr = v }

unfoldable pub with_dest_addr_ton : ℕ → Builder → Builder
with_dest_addr_ton v b = record b { dest_addr_ton = v }

unfoldable pub with_dest_addr_npi : ℕ → Builder → Builder
with_dest_addr_npi v b = record b { dest_addr_npi = v }

unfoldable pub with_destination_addr : Bytes → Builder → Builder
with_destination_addr v b = record b { destination_addr = v }

unfoldable pub with_esm_class : ℕ → Builder → Builder
with_esm_class v b = record b { esm_class = v }

unfoldable pub with_protocol_id : ℕ → Builder → Builder
with_protocol_id v b = record b { protocol_id = v }

unfoldable pub with_priority_flag : ℕ → Builder → Builder
with_priority_flag v b = record b { priority_flag = v }

unfoldable pub with_schedule_delivery_time : Bytes → Builder → Builder
with_schedule_delivery_time v b = record b { schedule_delivery_time = v }

unfoldable pub with_validity_period : Bytes → Builder → Builder
with_validity_period v b = record b { validity_period = v }

unfoldable pub with_registered_delivery : ℕ → Builder → Builder
with_registered_delivery v b = record b { registered_delivery = v }

unfoldable pub with_replace_if_present_flag : ℕ → Builder → Builder
with_replace_if_present_flag v b = record b { replace_if_present_flag = v }

unfoldable pub with_data_coding : ℕ → Builder → Builder
with_data_coding v b = record b { data_coding = v }

unfoldable pub with_sm_default_msg_id : ℕ → Builder → Builder
with_sm_default_msg_id v b = record b { sm_default_msg_id = v }

unfoldable pub with_short_message : Bytes → Builder → Builder
with_short_message v b = record b { short_message = v }

unfoldable pub with_tlv : TlvTag → Bytes → Builder → Builder
with_tlv tag value b = record b { tlvs = b.tlvs ++ (from_tag tag value ∷ []) }

unfoldable pub with_tlv_raw : ℕ → Bytes → Builder → Builder
with_tlv_raw tag value b = record b { tlvs = b.tlvs ++ (Tlv.new tag value ∷ []) }

unfoldable pub with_more_tlvs : List Tlv → Builder → Builder
with_more_tlvs more b = record b { tlvs = b.tlvs ++ more }
