-- ===== src/Link/Bind.antt =====
-- The bind of client/mod.rs at the server of server/mod.rs, and its response at the client.
use smpp.Base.{
  ap, if◌then◌else◌, ℕ, ◌≤◌, ◌≡◌, ◌≢◌, refl, ◌∙◌, Bool, true, false, Option, none, some, [], ◌∷◌,
  arith, Bytes, IsU32, length, ok,
}
use smpp.Nom.{Nom, NomLaws}
use smpp.Common.Error.{
  SmppError, FromPrimitive, FromPrimitiveLaws, esme_rok, esme_rsyserr, status_of-lt,
  status_of-eq_zero,
}
use smpp.Common.Command.{id_of, id_of-IsU32}
use smpp.Common.CString.{is_c_string}
use smpp.Common.Header.{CommandHeader, decode-encode}
use smpp.Common.Header
use smpp.Commands.Bind.{
  response_id, response_body, BindKind, receiver, transmitter, transceiver, request_id, BindRequest,
  BindResponse, new, encode_bind_request, encode_bind_response, decode_bind_request, accept, reject,
}
use smpp.Commands.Bind.Laws.{IsText, bind_request-Arrives, bind_response-Arrives}
use smpp.Server.Open.{bound_type_of, open_bind, open_bind_lem}
use smpp.Server.Handle.{potential_seq_no}
use smpp.Server.Session.Requests.{potential_seq_no_lem}
use smpp.Server.Accept.{greeting_of, greet, accept_pdu, accept_header}
use smpp.Client.Bind.{bind_pdu, is_bound, confirms}

module _ (nom : Nom) (derived : FromPrimitive) (on_bind : BindKind → BindRequest → BindResponse)
    (written : Bool) (pdu : Bytes) (h : CommandHeader) where
  accept_header-bind :
      (kind : BindKind)
      → h.command_id ≡ id_of (request_id kind)
      → accept_header nom derived on_bind written h pdu
        ≡ greet nom derived on_bind written kind
            (potential_seq_no pdu)
            (decode_bind_request nom h pdu)
  unfolding accept_header
  accept_header-bind receiver e = simp (e)
  accept_header-bind transmitter e = simp (e)
  accept_header-bind transceiver e = simp (e)

new_header :
    (kind : BindKind) (n : ℕ) (system_id password system_type : Bytes) (ton npi : ℕ) (range : Bytes)
    (p : BindRequest)
    → new kind n system_id password system_type ton npi range ≡ ok p
    → (p.header.command_id ≡ id_of (request_id kind))
      × (p.header.sequence_number ≡ n)
      × (p.system_id ≡ system_id)
unfolding new
new_header kind n system_id password system_type ton npi range p e =
    (ground arith, ground arith, ground arith)

response_number :
    (r : BindResponse)
    → IsU32 r.header.sequence_number
    → potential_seq_no (encode_bind_response r) ≡ r.header.sequence_number
unfolding encode_bind_response
response_number r small = potential_seq_no_lem r.header (response_body r) small

-- The client takes an acceptance of its own bind for a success.
accept-confirms :
    (kind : BindKind) (p : BindRequest) (system_id : Bytes) (version : Option ℕ)
    → p.header.sequence_number ≡ 1
    → let r = accept kind p system_id version in
      confirms kind (encode_bind_response r) (ok r.header) ≡ true
unfolding accept
accept-confirms kind p system_id version numbered =
    ground (arith, response_number (accept kind p system_id version))

-- A rejection arrives with its own header.
reject_read :
    (kind : BindKind) (p : BindRequest) (e : SmppError)
    → IsU32 p.header.sequence_number
    → e ≢ esme_rok
    → Header.decode (encode_bind_response (reject kind p e)) ≡ ok (reject kind p e).header
unfolding reject encode_bind_response response_body
reject_read kind p e small ne =
    let r = reject kind p e in
    decode-encode r.header (response_body r)
      (ground (arith, status_of-lt e, id_of-IsU32 (response_id kind)))
      (ground (arith, status_of-eq_zero e))

reject-denies :
    (kind : BindKind) (p : BindRequest) (e : SmppError) (pdu : Bytes)
    → e ≢ esme_rok
    → confirms kind pdu (ok (reject kind p e).header) ≡ false
unfolding reject
reject-denies kind p e pdu ne = ground (arith, status_of-eq_zero e)

module _ {nom : Nom} (laws : NomLaws nom) {derived : FromPrimitive}
    (derived_laws : FromPrimitiveLaws derived) (on_bind : BindKind → BindRequest → BindResponse)
    (kind : BindKind) (system_id password system_type : Bytes) (ton npi : ℕ) (range : Bytes)
    (p : BindRequest) (built : new kind 1 system_id password system_type ton npi range ≡ ok p)
    (text : IsText p) where
  -- The server's answer to the bind is that of its listener.
  bind_greeted :
      (written : Bool)
      → accept_pdu nom derived on_bind written (encode_bind_request p)
        ≡ greet nom derived on_bind written kind (potential_seq_no (encode_bind_request p)) (ok p)
  unfolding accept_pdu
  bind_greeted written =
      let (a, d) =
        bind_request-Arrives laws kind 1 system_id password system_type ton npi range p
          (omega arith) built text in
      rw (a.header_read) (
        accept_header-bind nom derived on_bind written (encode_bind_request p) p.header kind
          (new_header kind 1 system_id password system_type ton npi range p built).0
        ∙ ap (greet nom derived on_bind written kind (potential_seq_no (encode_bind_request p))) d)

  -- For a bind that the client's `new` builds under the sequence number 1, whose text fields can be
  -- C-Octet-Strings (UTF-8 with no NUL inside, which `new` does not test): if the listener accepts it under a
  -- system_id that can be a C-Octet-String of at most 65536 bytes, and the stream takes the response, then
  -- both sides are bound, in the direction that the client asked for: the server's state is that of the kind
  -- of bind, under the client's system_id, and the client takes the response for a success.
  pub bind_agreed :
      (answer_id : Bytes) (version : Option ℕ)
      → on_bind kind p ≡ accept kind p answer_id version
      → is_c_string answer_id ≡ true
      → length answer_id ≤ 65536
      → (bind_pdu kind system_id password system_type ton npi range ≡ ok (encode_bind_request p))
        × (accept_pdu nom derived on_bind true (encode_bind_request p) ≡ record {
          sent = encode_bind_response (accept kind p answer_id version) ∷ [];
          bound = some (record { bound_type = bound_type_of kind; system_id = p.system_id });
        })
        × (is_bound kind (encode_bind_response (accept kind p answer_id version)) ≡ true)
  unfolding is_bound bind_pdu
  bind_agreed answer_id version answers answer_text short =
      let numbered = (new_header kind 1 system_id password system_type ton npi range p built).1 in
      let (a, _) =
        bind_response-Arrives laws kind p answer_id version (omega (arith, numbered)) short
          answer_text in
      (
        rw (built) refl,
        bind_greeted true
            ∙ ap (λ r. greeting_of (open_bind derived kind p r true)) answers
            ∙ ap greeting_of
                (open_bind_lem derived_laws kind p answer_id version esme_rsyserr true (λ q. cc)).0,
        rw (a.header_read) (accept-confirms kind p answer_id version numbered),
      )

  -- For a bind that the client's `new` builds under the sequence number 1, whose text fields can be
  -- C-Octet-Strings: if the listener rejects it, with any error but ESME_ROK, then neither side is bound: the
  -- server sends the rejection, if the stream takes it, and has no state; the client does not take it for a
  -- success.
  pub bind_refused :
      (e : SmppError) (written : Bool)
      → e ≢ esme_rok
      → on_bind kind p ≡ reject kind p e
      → (accept_pdu nom derived on_bind written (encode_bind_request p) ≡ record {
        sent = if written then encode_bind_response (reject kind p e) ∷ [] else [];
        bound = none;
      })
        × (is_bound kind (encode_bind_response (reject kind p e)) ≡ false)
  unfolding is_bound
  bind_refused e written ne answers =
      let numbered = (new_header kind 1 system_id password system_type ton npi range p built).1 in
      (
        bind_greeted written
            ∙ ap (λ r. greeting_of (open_bind derived kind p r written)) answers
            ∙ ap greeting_of (open_bind_lem derived_laws kind p [] none e written ne).1,
        rw (reject_read kind p e (omega (arith, numbered)) ne)
            (reject-denies kind p e (encode_bind_response (reject kind p e)) ne),
      )
