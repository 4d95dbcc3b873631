-- ===== src/Commands/Bind.antt =====
-- The bind requests and responses: the shared code of common/mod.rs, and the three commands
-- bind_receiver, bind_transmitter and bind_transceiver, whose files differ in the command ids only.
pub mod Laws
use smpp.Base.{
  ℕ, ◌+◌, ◌≡◌, Bool, true, false, ◌&&◌, Option, none, some, [], ◌∷◌, ◌++◌, Bytes, cast_u32, length,
  drop, ltb, leb, ◌==◌, if◌then◌else◌, Result, ok, err, panic, ◌>>=◌,
}
use smpp.Nom.{Nom}
use smpp.Common.Error.{SmppError, status_of, esme_rok, esme_rinvcmdlen, esme_rinvparlen}
use smpp.Common.Command.{CommandId, id_of}
use smpp.Common.Header.{CommandHeader, encode}
use smpp.Common.CString.{take_c_string, take_octet}
use smpp.Common.Tlv.{from_tag, decode_tlvs}
use smpp.Common.Tlv as Tlv
use smpp.Common.Tlv.Access.{sc_interface_version}
use smpp.Common.Tlv.Tag.{TlvTag}

-- Which of the three commands.
pub data BindKind : Type 0 where
  receiver transmitter transceiver : BindKind

abbrev pub request_id : BindKind → CommandId
request_id receiver = CommandId.bind_receiver
request_id transmitter = CommandId.bind_transmitter
request_id transceiver = CommandId.bind_transceiver

abbrev pub response_id : BindKind → CommandId
response_id receiver = CommandId.bind_receiver_resp
response_id transmitter = CommandId.bind_transmitter_resp
response_id transceiver = CommandId.bind_transceiver_resp

-- `CommonBindRequestParameters`, and the fields of the three requests.
pub record BindRequest : Type 0 where
  pub header : CommandHeader
  pub system_id : Bytes
  pub password : Bytes
  pub system_type : Bytes
  pub interface_version : ℕ
  pub addr_ton : ℕ
  pub addr_npi : ℕ
  pub address_range : Bytes

pub record BindResponse : Type 0 where
  pub header : CommandHeader
  pub system_id : Option Bytes
  pub sc_interface_version : Option ℕ

-- What `encode_bind_request` writes behind the header.
unfoldable pub request_body : BindRequest → Bytes
request_body p =
    p.system_id
    ++ (0
        ∷ (p.password
            ++ (0
                ∷ (p.system_type
                    ++ (0
                        ∷ p.interface_version
                        ∷ p.addr_ton
                        ∷ p.addr_npi
                        ∷ (p.address_range ++ (0 ∷ [])))))))

unfoldable pub encode_bind_request : BindRequest → Bytes
encode_bind_request p = encode p.header ++ request_body p

-- The part of `decode_bind_request` behind its length check.
unfoldable pub read_request : Nom → CommandHeader → Bytes → Result SmppError BindRequest
read_request nom header input = do
  (input, system_id) ← take_c_string nom input
  (input, password) ← take_c_string nom input
  (input, system_type) ← take_c_string nom input
  (input, interface_version) ← take_octet nom input
  (input, addr_ton) ← take_octet nom input
  (input, addr_npi) ← take_octet nom input
  (_, address_range) ← take_c_string nom input
  ok (record {
    header = header;
    system_id = system_id;
    password = password;
    system_type = system_type;
    interface_version = interface_version;
    addr_ton = addr_ton;
    addr_npi = addr_npi;
    address_range = address_range;
  })

unfoldable pub decode_bind_request : Nom → CommandHeader → Bytes → Result SmppError BindRequest
decode_bind_request nom header pdu =
    if ltb (length pdu) 16 then err esme_rinvcmdlen else read_request nom header (drop 16 pdu)

-- What `encode_bind_response` writes behind the header.
abbrev pub or_empty : Option Bytes → Bytes
or_empty none = []
or_empty (some id) = id

abbrev pub version_tlv : Option ℕ → Bytes
version_tlv none = []
version_tlv (some version) = Tlv.encode (from_tag TlvTag.sc_interface_version (version ∷ []))

unfoldable pub response_body : BindResponse → Bytes
response_body r =
    (if r.header.command_status == status_of esme_rok then or_empty r.system_id ++ (0 ∷ []) else [])
    ++ version_tlv r.sc_interface_version

unfoldable pub encode_bind_response : BindResponse → Bytes
encode_bind_response r = encode r.header ++ response_body r

-- `bind_*_resp::decode`
abbrev pub read_version : Nom → Bytes → Result SmppError (Option ℕ)
read_version nom [] = ok none
read_version nom (b ∷ bs) = do tlvs ← decode_tlvs nom (b ∷ bs); ok (sc_interface_version tlvs)

unfoldable pub decode_bind_response : Nom → CommandHeader → Bytes → Result SmppError BindResponse
decode_bind_response nom header pdu =
    if header.command_status == status_of esme_rok
    then (if leb (length pdu) 16 then err esme_rinvparlen else do
      let input = drop 16 pdu
      (input, system_id) ← take_c_string nom input
      version ← read_version nom input
      ok (record { header = header; system_id = some system_id; sc_interface_version = version }))
    else ok (record { header = header; system_id = none; sc_interface_version = none })

-- `bind_*::new`; a failed `assert!` panics.
unfoldable pub new :
    BindKind → ℕ → Bytes → Bytes → Bytes → ℕ → ℕ → Bytes → Result SmppError BindRequest
new kind sequence_number system_id password system_type addr_ton addr_npi address_range =
    if ltb (length system_id) 16
      && (ltb (length password) 9 && (ltb (length system_type) 13 && ltb (length address_range) 41))
    then ok (record {
      header = record {
        command_length = cast_u32 (
            16
            + length system_id
            + 1
            + length password
            + 1
            + length system_type
            + 1
            + 3
            + length address_range
            + 1);
        command_id = id_of (request_id kind);
        command_status = status_of esme_rok;
        sequence_number = sequence_number;
      };
      system_id = system_id;
      password = password;
      system_type = system_type;
      interface_version = 0x34;
      addr_ton = addr_ton;
      addr_npi = addr_npi;
      address_range = address_range;
    })
    else panic

abbrev pub version_len : Option ℕ → ℕ
version_len none = 0
version_len (some _) = 5

-- `bind_*::accept`
unfoldable pub accept : BindKind → BindRequest → Bytes → Option ℕ → BindResponse
accept kind p system_id version = record {
  header = record {
    command_length = cast_u32 (16 + length system_id + 1 + version_len version);
    command_id = id_of (response_id kind);
    command_status = status_of esme_rok;
    sequence_number = p.header.sequence_number;
  };
  system_id = some system_id;
  sc_interface_version = version;
}

-- `bind_*::generic_reject`
unfoldable pub generic_reject : BindKind → ℕ → SmppError → BindResponse
generic_reject kind sequence_number error = record {
  header = record {
    command_length = 16;
    command_id = id_of (response_id kind);
    command_status = status_of error;
    sequence_number = sequence_number;
  };
  system_id = none;
  sc_interface_version = none;
}

-- `bind_*::reject`
unfoldable pub reject : BindKind → BindRequest → SmppError → BindResponse
reject kind p error = record {
  header = record {
    command_length = 16;
    command_id = id_of (response_id kind);
    command_status = status_of error;
    sequence_number = p.header.sequence_number;
  };
  system_id = none;
  sc_interface_version = none;
}

-- `bind_*_resp::is_success`
unfoldable pub is_success : BindResponse → Bool
is_success r = r.header.command_status == status_of esme_rok
