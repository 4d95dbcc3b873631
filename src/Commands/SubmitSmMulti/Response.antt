-- ===== src/Commands/SubmitSmMulti/Response.antt =====
-- common/commands/submit_sm_multi.rs, `submit_sm_multi_resp`: the answer, with the destinations that
-- could not be accepted.
use smpp.Base.{
  ℕ, zero, suc, ◌+◌, ◌≤◌, ◌<◌, ◌≡◌, refl, sym, ap, ◌∙◌, true, Option, none, some, List, [], ◌∷◌,
  ◌++◌, arith, Bytes, IsU32, All, cast_u8, cast_u32, length, length-append, append-nil,
  append_assoc, drop, ltb, ◌==◌, if◌then◌else◌, Result, ok, panic, ◌>>=◌,
}
use smpp.Nom.{Nom, NomLaws, IResult}
use smpp.Common.Error.{SmppError, status_of, esme_rok}
use smpp.Common.Command.{CommandId, id_of}
use smpp.Common.Words.{u32_bytes, u32_of-u32_bytes}
use smpp.Common.Header.{CommandHeader}
use smpp.Common.Header
use smpp.Common.CString.{
  is_c_string, parse_c_octet_string_nom, parse_c_octet_string_nom_some, take_c_string,
  take_c_string_some, or_rinvparlen,
}
use smpp.Common.Wire.{Arrives, encode-Arrives, after_header}
use smpp.Commands.SubmitSmMulti.{SubmitSmMulti}

pub record UnsuccessSme : Type 0 where
  pub dest_addr_ton : ℕ
  pub dest_addr_npi : ℕ
  pub destination_addr : Bytes
  pub error_status_code : ℕ

-- `UnsuccessSme::encoded_len`
abbrev pub encoded_len : UnsuccessSme → ℕ
encoded_len u = 1 + 1 + length u.destination_addr + 1 + 4

-- `UnsuccessSme::encode_into`
unfoldable pub encode_unsuccess : UnsuccessSme → Bytes
encode_unsuccess u =
    u.dest_addr_ton ∷ u.dest_addr_npi ∷ (u.destination_addr ++ (0 ∷ u32_bytes u.error_status_code))

-- `parse_unsuccess_sme`
unfoldable pub parse_unsuccess_sme : Nom → Bytes → IResult UnsuccessSme
parse_unsuccess_sme nom input = do
  (input, dest_addr_ton) ← nom.be_u8 input
  (input, dest_addr_npi) ← nom.be_u8 input
  (input, destination_addr) ← parse_c_octet_string_nom nom input
  (input, error_status_code) ← nom.be_u32 input
  ok (
    input,
    record {
      dest_addr_ton = dest_addr_ton;
      dest_addr_npi = dest_addr_npi;
      destination_addr = destination_addr;
      error_status_code = error_status_code;
    },
  )

pub record SubmitSmMultiResp : Type 0 where
  pub header : CommandHeader
  pub message_id : Option Bytes
  pub no_unsuccess : ℕ
  pub unsuccess_sme : List UnsuccessSme

unfoldable pub encode_all : List UnsuccessSme → Bytes
encode_all [] = []
encode_all (u ∷ us) = encode_unsuccess u ++ encode_all us

unfoldable pub all_len : List UnsuccessSme → ℕ
all_len [] = 0
all_len (u ∷ us) = encoded_len u + all_len us

-- `submit_sm_multi::accept`
unfoldable pub accept : SubmitSmMulti → Bytes → List UnsuccessSme → SubmitSmMultiResp
accept p message_id unsuccess_sme = record {
  header = record {
    command_length = cast_u32 (16 + length message_id + 1 + 1 + all_len unsuccess_sme);
    command_id = id_of CommandId.submit_multi_resp;
    command_status = status_of esme_rok;
    sequence_number = p.header.sequence_number;
  };
  message_id = some message_id;
  no_unsuccess = cast_u8 (length unsuccess_sme);
  unsuccess_sme = unsuccess_sme;
}

-- `submit_sm_multi::generic_reject`
unfoldable pub generic_reject : ℕ → SmppError → SubmitSmMultiResp
generic_reject sequence_number error = record {
  header = record {
    command_length = 16;
    command_id = id_of CommandId.submit_multi_resp;
    command_status = status_of error;
    sequence_number = sequence_number;
  };
  message_id = none;
  no_unsuccess = 0;
  unsuccess_sme = [];
}

-- `submit_sm_multi::reject`
unfoldable pub reject : SubmitSmMulti → SmppError → SubmitSmMultiResp
unfolding generic_reject
reject p error = generic_reject p.header.sequence_number error

abbrev id_or_empty : Option Bytes → Bytes
id_or_empty none = []
id_or_empty (some message_id) = message_id

-- What `encode` writes behind the header of a success.
unfoldable pub body : SubmitSmMultiResp → Bytes
body r = id_or_empty r.message_id ++ (0 ∷ r.no_unsuccess ∷ encode_all r.unsuccess_sme)

-- `submit_sm_multi_resp::encode`
unfoldable pub encode : SubmitSmMultiResp → Bytes
unfolding body
encode r =
    Header.encode r.header ++ (if r.header.command_status == status_of esme_rok then body r else [])

-- `for _ in 0..no_unsuccess`
unfoldable pub parse_all : Nom → ℕ → Bytes → Result SmppError (Bytes × List UnsuccessSme)
parse_all nom zero input = ok (input, [])
parse_all nom (suc n) input = do
  (input, entry) ← or_rinvparlen (parse_unsuccess_sme nom input)
  (input, entries) ← parse_all nom n input
  ok (input, entry ∷ entries)

-- The part of `decode` behind its slice.
unfoldable pub read_body : Nom → CommandHeader → Bytes → Result SmppError SubmitSmMultiResp
read_body nom header input = do
  (input, message_id) ← take_c_string nom input
  (input, no_unsuccess) ← or_rinvparlen (nom.be_u8 input)
  (_, unsuccess_sme) ← parse_all nom no_unsuccess input
  ok (record {
    header = header;
    message_id = some message_id;
    no_unsuccess = no_unsuccess;
    unsuccess_sme = unsuccess_sme;
  })

-- `submit_sm_multi_resp::decode`; the slice panics on a `pdu` shorter than a header.
unfoldable pub decode : Nom → CommandHeader → Bytes → Result SmppError SubmitSmMultiResp
unfolding read_body
decode nom header pdu =
    if header.command_status == status_of esme_rok
    then (if ltb (length pdu) 16 then panic else read_body nom header (drop 16 pdu))
    else ok (record { header = header; message_id = none; no_unsuccess = 0; unsuccess_sme = [] })

-- The address is a C-Octet-String and the code a `u32`.
pub record IsUnsuccess (u : UnsuccessSme) : Type 0 where
  pub destination_addr_text : is_c_string u.destination_addr ≡ true
  pub code_u32 : IsU32 u.error_status_code

length-encode_all : (us : List UnsuccessSme) → length (encode_all us) ≡ all_len us
unfolding encode_all all_len encode_unsuccess
length-encode_all [] = refl
length-encode_all (u ∷ us) = omega (
  arith,
  length-append (encode_unsuccess u) (encode_all us),
  length-append u.destination_addr (0 ∷ u32_bytes u.error_status_code),
  length-encode_all us,
)

module _ {nom : Nom} (laws : NomLaws nom) where
  parse_unsuccess_lem :
      (u : UnsuccessSme) (rest : Bytes)
      → IsUnsuccess u
      → parse_unsuccess_sme nom (encode_unsuccess u ++ rest) ≡ ok (rest, u)
  unfolding parse_unsuccess_sme encode_unsuccess
  parse_unsuccess_lem u rest v = simp (
    append_assoc,
    laws.be_u8_some,
    laws.be_u32_some,
    parse_c_octet_string_nom_some laws u.destination_addr v.destination_addr_text,
    u32_of-u32_bytes u.error_status_code v.code_u32,
  )

  parse_all-encode_all :
      (us : List UnsuccessSme) (rest : Bytes)
      → All IsUnsuccess us
      → parse_all nom (length us) (encode_all us ++ rest) ≡ ok (rest, us)
  unfolding parse_all encode_all
  parse_all-encode_all [] rest v = refl
  parse_all-encode_all (u ∷ us) rest v = simp (
    append_assoc (encode_unsuccess u) (encode_all us) rest,
    parse_unsuccess_lem u (encode_all us ++ rest) v.0,
    parse_all-encode_all us rest v.1,
  )

  parse_all_whole :
      (us : List UnsuccessSme)
      → All IsUnsuccess us
      → parse_all nom (length us) (encode_all us) ≡ ok ([], us)
  parse_all_whole us v =
      ap (parse_all nom (length us)) (sym (append-nil (encode_all us)))
      ∙ parse_all-encode_all us [] v

  read_body_lem :
      (p : SubmitSmMulti) (message_id : Bytes) (us : List UnsuccessSme)
      → is_c_string message_id ≡ true
      → All IsUnsuccess us
      → length us < 256
      → let r = accept p message_id us in read_body nom r.header (body r) ≡ ok r
  unfolding read_body body accept
  read_body_lem p message_id us t v l =
      let count : cast_u8 (length us) ≡ length us = omega arith in
      simp (take_c_string_some laws message_id t, laws.be_u8_some, count, parse_all_whole us v)

  -- The response that accepts a submit_multi with a number in a `u32`, under a message_id that can be a
  -- C-Octet-String, with fewer than 256 refused destinations whose addresses can be C-Octet-Strings and whose
  -- codes fit a `u32`, and whose encodings are with the message_id at most 1000000 bytes long (none of which
  -- `accept` tests), arrives with its header and is decoded to the same message_id and list.
  pub submit_sm_multi_accept-Arrives :
      (p : SubmitSmMulti) (message_id : Bytes) (us : List UnsuccessSme)
      → IsU32 p.header.sequence_number
      → is_c_string message_id ≡ true
      → All IsUnsuccess us
      → length us < 256
      → length message_id + all_len us ≤ 1000000
      → let r = accept p message_id us in
        Arrives (encode r) r.header × (decode nom r.header (encode r) ≡ ok r)
  unfolding encode decode
  submit_sm_multi_accept-Arrives p message_id us h t v l fits =
      let r = accept p message_id us in
      (
        unfold accept in
            encode-Arrives r.header (body r) (
              ground (
                arith,
                length-append message_id (0 ∷ cast_u8 (length us) ∷ encode_all us),
                length-encode_all us,
              )),
        unfold accept in
            (after_header r.header (body r) panic (read_body nom r.header)
              ∙ read_body_lem p message_id us t v l),
      )
