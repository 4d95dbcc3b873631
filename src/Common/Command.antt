-- ===== src/Common/Command.antt =====
-- common/mod.rs, `CommandId`: the command identifiers of SMPP 3.4.
use smpp.Base.{ℕ, arith, IsU32}

pub data CommandId : Type 0 where
  generic_nack bind_receiver bind_receiver_resp bind_transmitter bind_transmitter_resp : CommandId
  query_sm query_sm_resp submit_sm submit_sm_resp deliver_sm deliver_sm_resp unbind : CommandId
  unbind_resp replace_sm replace_sm_resp cancel_sm cancel_sm_resp bind_transceiver : CommandId
  bind_transceiver_resp outbind enquire_link enquire_link_resp submit_multi : CommandId
  submit_multi_resp alert_notification data_sm data_sm_resp : CommandId

-- `id as u32`
abbrev pub id_of : CommandId → ℕ
id_of generic_nack = 0x80000000
id_of bind_receiver = 0x1
id_of bind_receiver_resp = 0x80000001
id_of bind_transmitter = 0x2
id_of bind_transmitter_resp = 0x80000002
id_of query_sm = 0x3
id_of query_sm_resp = 0x80000003
id_of submit_sm = 0x4
id_of submit_sm_resp = 0x80000004
id_of deliver_sm = 0x5
id_of deliver_sm_resp = 0x80000005
id_of unbind = 0x6
id_of unbind_resp = 0x80000006
id_of replace_sm = 0x7
id_of replace_sm_resp = 0x80000007
id_of cancel_sm = 0x8
id_of cancel_sm_resp = 0x80000008
id_of bind_transceiver = 0x9
id_of bind_transceiver_resp = 0x80000009
id_of outbind = 0xb
id_of enquire_link = 0x15
id_of enquire_link_resp = 0x80000015
id_of submit_multi = 0x21
id_of submit_multi_resp = 0x80000021
id_of alert_notification = 0x102
id_of data_sm = 0x103
id_of data_sm_resp = 0x80000103

pub id_of-IsU32 : (id : CommandId) → IsU32 (id_of id)
id_of-IsU32 generic_nack = omega arith
id_of-IsU32 _ = omega arith
