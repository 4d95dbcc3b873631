-- ===== src/Commands/SubmitSmMulti.antt =====
-- common/commands/submit_sm_multi.rs, `submit_sm_multi`: one message to a list of destinations.
pub mod Laws
pub mod Response
use smpp.Base.{
  ℕ, zero, suc, ◌+◌, ◌&&◌, List, [], ◌∷◌, ◌++◌, Bytes, cast_u8, cast_u32, length, drop, ltb, leb,
  ◌==◌, if◌then◌else◌, Result, ok, err, panic, map_err, ◌>>=◌,
}
use smpp.Nom.{Nom, IResult}
use smpp.Common.Error.{SmppError, status_of, esme_rok, esme_rinvparlen}
use smpp.Common.Command.{CommandId, id_of}
use smpp.Common.Header.{CommandHeader}
use smpp.Common.Header
use smpp.Common.CString.{parse_c_octet_string_nom, or_rinvparlen}
use smpp.Common.Tlv.{Tlv, decode_tlvs, encode_tlvs, tlvs_encoded_len}

pub data DestAddress : Type 0 where
  sme : ℕ → ℕ → Bytes → DestAddress
  distribution_list : Bytes → DestAddress

-- `DestAddress::encoded_len`
abbrev pub encoded_len : DestAddress → ℕ
encoded_len (sme ton npi addr) = 1 + 1 + 1 + length addr + 1
encoded_len (distribution_list name) = 1 + length name + 1

-- `DestAddress::encode_into`
abbrev pub encode_dest : DestAddress → Bytes
encode_dest (sme ton npi addr) = 1 ∷ ton ∷ npi ∷ (addr ++ (0 ∷ []))
encode_dest (distribution_list name) = 2 ∷ (name ++ (0 ∷ []))

-- The rest of an SME address behind its flag.
abbrev parse_sme : Nom → Bytes → IResult DestAddress
parse_sme nom input = do
  (input, ton) ← nom.be_u8 input
  (input, npi) ← nom.be_u8 input
  (input, addr) ← parse_c_octet_string_nom nom input
  ok (input, sme ton npi addr)

abbrev parse_list_name : Nom → Bytes → IResult DestAddress
parse_list_name nom input = do
  (input, name) ← parse_c_octet_string_nom nom input
  ok (input, distribution_list name)

-- `parse_dest_address`
unfoldable pub parse_dest_address : Nom → Bytes → IResult DestAddress
parse_dest_address nom input = do
  (input, dest_flag) ← nom.be_u8 input
  if dest_flag == 2 then parse_list_name nom input else parse_sme nom input

-- `for _ in 0..number_of_dests`
unfoldable pub parse_dests : Nom → ℕ → Bytes → IResult (List DestAddress)
parse_dests nom zero input = ok (input, [])
parse_dests nom (suc n) input = do
  (input, dest) ← parse_dest_address nom input
  (input, dests) ← parse_dests nom n input
  ok (input, dest ∷ dests)

unfoldable pub encode_dests : List DestAddress → Bytes
encode_dests [] = []
encode_dests (d ∷ ds) = encode_dest d ++ encode_dests ds

unfoldable pub dests_len : List DestAddress → ℕ
dests_len [] = 0
dests_len (d ∷ ds) = encoded_len d + dests_len ds

pub record SubmitSmMulti : Type 0 where
  pub header : CommandHeader
  pub service_type : Bytes
  pub source_addr_ton : ℕ
  pub source_addr_npi : ℕ
  pub source_addr : Bytes
  pub number_of_dests : ℕ
  pub dest_addresses : List DestAddress
  pub esm_class : ℕ
  pub protocol_id : ℕ
  pub priority_flag : ℕ
  pub schedule_delivery_time : Bytes
  pub validity_period : Bytes
  pub registered_delivery : ℕ
  pub replace_if_present_flag : ℕ
  pub data_coding : ℕ
  pub sm_default_msg_id : ℕ
  pub sm_length : ℕ
  pub short_message : Bytes
  pub tlvs : List Tlv

-- `base_len`, before its cast to a `u32`.
abbrev pub base_len : SubmitSmMulti → ℕ
base_len p =
    16
    + length p.service_type
    + 1
    + 1
    + 1
    + length p.source_addr
    + 1
    + 1
    + dests_len p.dest_addresses
    + 3
    + length p.schedule_delivery_time
    + 1
    + length p.validity_period
    + 1
    + 5
    + length p.short_message

-- `submit_sm_multi::new`; a failed `assert!` panics. The length is filled in last.
unfoldable pub new :
    ℕ
    → Bytes
    → ℕ
    → ℕ
    → Bytes
    → List DestAddress
    → ℕ
    → ℕ
    → ℕ
    → Bytes
    → Bytes
    → ℕ
    → ℕ
    → ℕ
    → ℕ
    → Bytes
    → Result SmppError SubmitSmMulti
new sequence_number service_type source_addr_ton source_addr_npi source_addr dest_addresses
      esm_class protocol_id priority_flag schedule_delivery_time validity_period registered_delivery
      replace_if_present_flag data_coding sm_default_msg_id short_message =
    if leb (length short_message) 254 && leb (length dest_addresses) 254
    then (let header : CommandHeader = record {
      command_length = 0;
      command_id = id_of CommandId.submit_multi;
      command_status = status_of esme_rok;
      sequence_number = sequence_number;
    } in
        let pdu : SubmitSmMulti = record {
          header = header;
          service_type = service_type;
          source_addr_ton = source_addr_ton;
          source_addr_npi = source_addr_npi;
          source_addr = source_addr;
          number_of_dests = cast_u8 (length dest_addresses);
          dest_addresses = dest_addresses;
          esm_class = esm_class;
          protocol_id = protocol_id;
          priority_flag = priority_flag;
          schedule_delivery_time = schedule_delivery_time;
          validity_period = validity_period;
          registered_delivery = registered_delivery;
          replace_if_present_flag = replace_if_present_flag;
          data_coding = data_coding;
          sm_default_msg_id = sm_default_msg_id;
          sm_length = cast_u8 (length short_message);
          short_message = short_message;
          tlvs = [];
        } in
        ok (record pdu { header = record header { command_length = cast_u32 (base_len pdu) } }))
    else panic

-- `with_tlvs` and `push_tlv`
unfoldable pub with_tlvs : SubmitSmMulti → List Tlv → SubmitSmMulti
with_tlvs p more = record p { tlvs = p.tlvs ++ more }

-- `set_sequence_number`
unfoldable pub set_sequence_number : SubmitSmMulti → ℕ → SubmitSmMulti
set_sequence_number p n = let h = p.header in record p { header = record h { sequence_number = n } }

-- What `encode` writes behind the header: the fields in front of the destinations, and those after.
unfoldable pub tail_body : SubmitSmMulti → Bytes
tail_body p =
    p.esm_class
    ∷ p.protocol_id
    ∷ p.priority_flag
    ∷ (p.schedule_delivery_time
        ++ (0
            ∷ (p.validity_period
                ++ (0
                    ∷ p.registered_delivery
                    ∷ p.replace_if_present_flag
                    ∷ p.data_coding
                    ∷ p.sm_default_msg_id
                    ∷ p.sm_length
                    ∷ (p.short_message ++ encode_tlvs p.tlvs)))))

unfoldable pub body : SubmitSmMulti → Bytes
unfolding tail_body
body p =
    p.service_type
    ++ (0
        ∷ p.source_addr_ton
        ∷ p.source_addr_npi
        ∷ (p.source_addr
            ++ (0 ∷ p.number_of_dests ∷ (encode_dests p.dest_addresses ++ tail_body p))))

-- The header that `encode` writes: the length is computed anew.
unfoldable pub sent_header : SubmitSmMulti → CommandHeader
sent_header p =
    let h = p.header in
    record h {
      command_length = cast_u32 (cast_u32 (base_len p) + cast_u32 (tlvs_encoded_len p.tlvs));
    }

-- `submit_sm_multi::encode`
unfoldable pub encode : SubmitSmMulti → Bytes
unfolding sent_header body
encode p = Header.encode (sent_header p) ++ body p

-- `parse_submit_sm_multi` behind its slice `&pdu[16..]`. What `decode_tlvs` returns is no `IResult`;
-- its error type is changed, not its value.
unfoldable pub read_body : Nom → CommandHeader → Bytes → IResult SubmitSmMulti
read_body nom header input = do
  (input, service_type) ← parse_c_octet_string_nom nom input
  (input, source_addr_ton) ← nom.be_u8 input
  (input, source_addr_npi) ← nom.be_u8 input
  (input, source_addr) ← parse_c_octet_string_nom nom input
  (input, number_of_dests) ← nom.be_u8 input
  (input, dest_addresses) ← parse_dests nom number_of_dests input
  (input, esm_class) ← nom.be_u8 input
  (input, protocol_id) ← nom.be_u8 input
  (input, priority_flag) ← nom.be_u8 input
  (input, schedule_delivery_time) ← parse_c_octet_string_nom nom input
  (input, validity_period) ← parse_c_octet_string_nom nom input
  (input, registered_delivery) ← nom.be_u8 input
  (input, replace_if_present_flag) ← nom.be_u8 input
  (input, data_coding) ← nom.be_u8 input
  (input, sm_default_msg_id) ← nom.be_u8 input
  (input, sm_length) ← nom.be_u8 input
  (input, short_message) ← nom.take_bytes sm_length input
  tlvs ← map_err (λ _. tt) (decode_tlvs nom input)
  ok (
    input,
    record {
      header = header;
      service_type = service_type;
      source_addr_ton = source_addr_ton;
      source_addr_npi = source_addr_npi;
      source_addr = source_addr;
      number_of_dests = number_of_dests;
      dest_addresses = dest_addresses;
      esm_class = esm_class;
      protocol_id = protocol_id;
      priority_flag = priority_flag;
      schedule_delivery_time = schedule_delivery_time;
      validity_period = validity_period;
      registered_delivery = registered_delivery;
      replace_if_present_flag = replace_if_present_flag;
      data_coding = data_coding;
      sm_default_msg_id = sm_default_msg_id;
      sm_length = sm_length;
      short_message = short_message;
      tlvs = tlvs;
    },
  )

-- `submit_sm_multi::decode`; the slice panics on a `pdu` shorter than a header.
unfoldable pub decode : Nom → CommandHeader → Bytes → Result SmppError SubmitSmMulti
unfolding read_body
decode nom header pdu =
    if ltb (length pdu) 16
    then panic
    else do (_, p) ← or_rinvparlen (read_body nom header (drop 16 pdu)); ok p
