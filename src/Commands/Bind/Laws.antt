-- ===== src/Commands/Bind/Laws.antt =====
-- The bind requests and responses on the wire.
use smpp.Base.{
  ℕ, ◌+◌, ◌≤◌, ◌≡◌, refl, ◌∙◌, true, Option, none, some, [], ◌∷◌, ◌++◌, arith, Bytes, IsU32, length,
  length-append, ok, err, append_assoc,
}
use smpp.Common.Error.{esme_rinvcmdlen}
use smpp.Nom.{Nom, NomLaws}
use smpp.Common.CString.{is_c_string, take_c_string_some, take_octet_some}
use smpp.Common.Wire.{Arrives, IsSendable, encode-Arrives, after_header, drop-encode, length-header}
use smpp.Common.Command.{id_of-IsU32}
use smpp.Common.Tlv
use smpp.Common.Tlv.{from_tag, encode_tlvs, as_u8}
use smpp.Common.Tlv.Access.{sc_interface_version, get_tlv, get_tlv_raw}
use smpp.Common.Tlv.Tag.{TlvTag}
use smpp.Common.Tlv.Codec.{length-encode, decode_tlvs-encode_tlvs}
use smpp.Commands.Bind.{
  BindKind, response_id, read_version, version_tlv, version_len, receiver, transmitter, transceiver,
  BindRequest, request_body, encode_bind_request, read_request, decode_bind_request, response_body,
  encode_bind_response, decode_bind_response, new, accept,
}

-- The text fields can be C-Octet-Strings.
pub record IsText (p : BindRequest) : Type 0 where
  pub system_id_text : is_c_string p.system_id ≡ true
  pub password_text : is_c_string p.password ≡ true
  pub system_type_text : is_c_string p.system_type ≡ true
  pub address_range_text : is_c_string p.address_range ≡ true

length-request_body :
    (p : BindRequest)
    → length (request_body p)
      ≡ length p.system_id + length p.password + length p.system_type + length p.address_range + 7
unfolding request_body
length-request_body p = simp length-append (omega arith)

new-IsSendable :
    (kind : BindKind) (n : ℕ) (system_id password system_type : Bytes) (ton npi : ℕ) (range : Bytes)
    (p : BindRequest)
    → IsU32 n
    → new kind n system_id password system_type ton npi range ≡ ok p
    → IsSendable p.header (request_body p)
unfolding new
new-IsSendable receiver n system_id password system_type ton npi range p h e =
    ground (arith, length-request_body p)
new-IsSendable transmitter n system_id password system_type ton npi range p h e =
    ground (arith, length-request_body p)
new-IsSendable transceiver n system_id password system_type ton npi range p h e =
    ground (arith, length-request_body p)

length-version_tlv : (v : Option ℕ) → length (version_tlv v) ≡ version_len v
length-version_tlv none = refl
length-version_tlv (some v) = length-encode (from_tag TlvTag.sc_interface_version (v ∷ []))

accept-IsSendable :
    (kind : BindKind) (p : BindRequest) (system_id : Bytes) (v : Option ℕ)
    → IsU32 p.header.sequence_number
    → length system_id ≤ 65536
    → IsSendable (accept kind p system_id v).header (response_body (accept kind p system_id v))
unfolding accept response_body
accept-IsSendable kind p system_id v h l = ground (
  arith,
  id_of-IsU32 (response_id kind),
  length-append (system_id ++ (0 ∷ [])) (version_tlv v),
  length-append system_id (0 ∷ []),
  length-version_tlv v,
)

module _ {nom : Nom} (laws : NomLaws nom) where
  pub decode_bind_request-encode_bind_request :
      (p : BindRequest) → IsText p → decode_bind_request nom p.header (encode_bind_request p) ≡ ok p
  unfolding decode_bind_request encode_bind_request read_request request_body
  decode_bind_request-encode_bind_request p t =
      after_header p.header (request_body p) (err esme_rinvcmdlen) (read_request nom p.header)
      ∙ simp (
        take_c_string_some laws p.system_id t.system_id_text,
        take_c_string_some laws p.password t.password_text,
        take_c_string_some laws p.system_type t.system_type_text,
        take_c_string_some laws p.address_range t.address_range_text,
        take_octet_some laws,
      )

  -- A bind request that `new` built arrives at the peer with its own header, and is decoded to the
  -- request that was sent.
  pub bind_request-Arrives :
      (kind : BindKind) (sequence_number : ℕ) (system_id password system_type : Bytes)
      (addr_ton addr_npi : ℕ) (address_range : Bytes) (p : BindRequest)
      → IsU32 sequence_number
      → new kind sequence_number system_id password system_type addr_ton addr_npi address_range
        ≡ ok p
      → IsText p
      → Arrives (encode_bind_request p) p.header
        × (decode_bind_request nom p.header (encode_bind_request p) ≡ ok p)
  unfolding encode_bind_request
  bind_request-Arrives kind n system_id password system_type ton npi range p h e t = (
    encode-Arrives p.header (request_body p)
        (new-IsSendable kind n system_id password system_type ton npi range p h e),
    decode_bind_request-encode_bind_request p t,
  )

  read_version_lem : (v : Option ℕ) → read_version nom (version_tlv v) ≡ ok v
  unfolding encode_tlvs Tlv.encode sc_interface_version get_tlv get_tlv_raw as_u8
  read_version_lem none = refl
  read_version_lem (some v) = ground (
    arith,
    decode_tlvs-encode_tlvs laws (from_tag TlvTag.sc_interface_version (v ∷ []) ∷ []) []
        (omega arith) tt,
  )

  -- An accepted bind is answered by a response that arrives with its own header and is decoded to
  -- the system_id and the interface version that were given.
  pub bind_response-Arrives :
      (kind : BindKind) (p : BindRequest) (system_id : Bytes) (v : Option ℕ)
      → IsU32 p.header.sequence_number
      → length system_id ≤ 65536
      → is_c_string system_id ≡ true
      → let r = accept kind p system_id v in
        Arrives (encode_bind_response r) r.header
        × (decode_bind_response nom r.header (encode_bind_response r) ≡ ok r)
  unfolding encode_bind_response decode_bind_response accept response_body
  bind_response-Arrives kind p system_id v h l t = (
    encode-Arrives _ _ (accept-IsSendable kind p system_id v h l),
    ground (
      arith,
      length-header (accept kind p system_id v).header (response_body (accept kind p system_id v)),
      drop-encode (accept kind p system_id v).header (response_body (accept kind p system_id v)),
      length-append system_id (0 ∷ version_tlv v),
      append_assoc system_id (0 ∷ []) (version_tlv v),
      take_c_string_some laws system_id t (version_tlv v),
      read_version_lem v,
    ),
  )
