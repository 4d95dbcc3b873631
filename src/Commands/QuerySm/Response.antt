-- ===== src/Commands/QuerySm/Response.antt =====
-- common/commands/query_sm.rs, `query_sm_resp`: how a query_sm is answered.
use smpp.Base.{
  ℕ, ◌+◌, ◌≤◌, ◌≡◌, ◌≢◌, refl, true, [], ◌∷◌, ◌++◌, arith, Bytes, IsU32, cast_u32, length,
  length-append, drop, leb, ◌==◌, if◌then◌else◌, Result, ok, err, ◌>>=◌,
}
use smpp.Nom.{Nom, NomLaws}
use smpp.Common.Error.{
  SmppError, status_of, esme_rok, esme_rinvparlen, status_of-lt, status_of-eq_zero,
}
use smpp.Common.Command.{CommandId, id_of}
use smpp.Common.Header.{CommandHeader}
use smpp.Common.Header
use smpp.Common.CString.{
  is_c_string, take_c_string, take_c_string_some, take_octet, take_octet_some,
}
use smpp.Common.Wire.{Arrives, encode-Arrives, length-header, drop-encode}
use smpp.Commands.QuerySm.{QuerySm}

pub record QuerySmResp : Type 0 where
  pub header : CommandHeader
  pub message_id : Bytes
  pub final_date : Bytes
  pub message_state : ℕ
  pub error_code : ℕ

-- `query_sm::accept`
unfoldable pub accept : QuerySm → Bytes → Bytes → ℕ → ℕ → QuerySmResp
accept p message_id final_date message_state error_code = record {
  header = record {
    command_length = cast_u32 (16 + length message_id + 1 + length final_date + 1 + 1 + 1);
    command_id = id_of CommandId.query_sm_resp;
    command_status = status_of esme_rok;
    sequence_number = p.header.sequence_number;
  };
  message_id = message_id;
  final_date = final_date;
  message_state = message_state;
  error_code = error_code;
}

-- The response with no body, of the decoder and of both rejections.
abbrev pub bodiless : CommandHeader → QuerySmResp
bodiless header = record {
  header = header;
  message_id = [];
  final_date = [];
  message_state = 0;
  error_code = 0;
}

-- `query_sm::generic_reject`
unfoldable pub generic_reject : ℕ → SmppError → QuerySmResp
generic_reject sequence_number error = bodiless (record {
  command_length = 16;
  command_id = id_of CommandId.query_sm_resp;
  command_status = status_of error;
  sequence_number = sequence_number;
})

-- `query_sm::reject`
unfoldable pub reject : QuerySm → SmppError → QuerySmResp
reject p error = bodiless (record {
  command_length = 16;
  command_id = id_of CommandId.query_sm_resp;
  command_status = status_of error;
  sequence_number = p.header.sequence_number;
})

-- What `encode` writes behind the header of a success.
abbrev pub body : QuerySmResp → Bytes
body r = r.message_id ++ (0 ∷ (r.final_date ++ (0 ∷ r.message_state ∷ r.error_code ∷ [])))

-- `query_sm_resp::encode`
unfoldable pub encode : QuerySmResp → Bytes
encode r =
    Header.encode r.header ++ (if r.header.command_status == status_of esme_rok then body r else [])

-- The part of `decode` behind its checks.
unfoldable pub read_body : Nom → CommandHeader → Bytes → Result SmppError QuerySmResp
read_body nom header input = do
  (input, message_id) ← take_c_string nom input
  (input, final_date) ← take_c_string nom input
  (input, message_state) ← take_octet nom input
  (_, error_code) ← take_octet nom input
  ok (record {
    header = header;
    message_id = message_id;
    final_date = final_date;
    message_state = message_state;
    error_code = error_code;
  })

-- `query_sm_resp::decode`
unfoldable pub decode : Nom → CommandHeader → Bytes → Result SmppError QuerySmResp
unfolding read_body
decode nom header pdu =
    if header.command_status == status_of esme_rok
    then (if leb (length pdu) 16 then err esme_rinvparlen else read_body nom header (drop 16 pdu))
    else ok (bodiless header)

length-body : (r : QuerySmResp) → length (body r) ≡ length r.message_id + length r.final_date + 4
length-body r = simp length-append (omega arith)

module _ {nom : Nom} (laws : NomLaws nom) where
  read_body_lem :
      (r : QuerySmResp)
      → is_c_string r.message_id ≡ true
      → is_c_string r.final_date ≡ true
      → read_body nom r.header (body r) ≡ ok r
  unfolding read_body
  read_body_lem r hm hf = simp (
    take_c_string_some laws r.message_id hm,
    take_c_string_some laws r.final_date hf,
    take_octet_some laws,
  )

  -- The answer to a query arrives with its header, under the sequence number of the query, and is
  -- decoded to the message_id, date, state and error code that were given.
  pub query_sm_accept-Arrives :
      (p : QuerySm) (message_id final_date : Bytes) (message_state error_code : ℕ)
      → IsU32 p.header.sequence_number
      → is_c_string message_id ≡ true
      → is_c_string final_date ≡ true
      → length message_id + length final_date ≤ 65536
      → let r = accept p message_id final_date message_state error_code in
        (r.header.sequence_number ≡ p.header.sequence_number)
        × Arrives (encode r) r.header
        × (decode nom r.header (encode r) ≡ ok r)
  unfolding accept encode decode
  query_sm_accept-Arrives p message_id final_date message_state error_code h hm hf hl =
      let r = accept p message_id final_date message_state error_code in
      (
        refl,
        encode-Arrives r.header (body r) (ground (arith, length-body r)),
        ground (
          arith,
          length-header r.header (body r),
          length-body r,
          drop-encode r.header (body r),
          read_body_lem r hm hf,
        ),
      )

-- A rejected query is answered by a bare header that arrives and is decoded to the same rejection.
pub query_sm_reject-Arrives :
    (nom : Nom) (n : ℕ) (e : SmppError)
    → IsU32 n
    → e ≢ esme_rok
    → let r = generic_reject n e in
      Arrives (encode r) r.header × (decode nom r.header (encode r) ≡ ok r)
unfolding generic_reject encode decode
query_sm_reject-Arrives nom n e h ne = (
  ground (
    arith,
    status_of-eq_zero e,
    encode-Arrives (generic_reject n e).header [] (ground (arith, status_of-lt e)),
  ),
  ground (arith, status_of-eq_zero e),
)
