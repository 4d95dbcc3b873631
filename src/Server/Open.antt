-- ===== src/Server/Open.antt =====
-- server/state.rs, `OPEN`: what `bind_transmitter`, `bind_receiver` and `bind_transceiver` make of the
-- listener's answer to a bind. The three differ in the state they lead to.
use smpp.Base.{
  ℕ, ◌≡◌, ◌≢◌, refl, Bool, true, false, List, [], ◌∷◌, arith, Bytes, Option, ◌==◌, if◌then◌else◌,
  Result, ok, err,
}
use smpp.Common.Error.{
  SmppError, FromPrimitive, FromPrimitiveLaws, from_command_status, from_command_status-status_of,
  status_of, status_of-eq_zero, esme_rok, esme_rsyserr,
}
use smpp.Commands.Bind.{
  BindKind, receiver, transmitter, transceiver, BindRequest, BindResponse, is_success,
  encode_bind_response, accept, reject,
}
use smpp.Server.State.{BoundType, bound_rx, bound_tx, bound_trx}

-- The states BOUND_TX, BOUND_RX and BOUND_TRX, less the stream and the listener that they take over.
pub record Bound : Type 0 where
  pub bound_type : BoundType
  pub system_id : Bytes

-- What the peer was sent, and the state or the error.
pub record Opened : Type 0 where
  pub sent : List Bytes
  pub outcome : Result SmppError Bound

abbrev pub bound_type_of : BindKind → BoundType
bound_type_of receiver = bound_rx
bound_type_of transmitter = bound_tx
bound_type_of transceiver = bound_trx

-- `OPEN::bind_*`; `written` is whether the stream takes the response.
unfoldable pub open_bind : FromPrimitive → BindKind → BindRequest → BindResponse → Bool → Opened
open_bind derived kind request response written =
    let sent = if written then encode_bind_response response ∷ [] else [] in
    if is_success response
    then (if written
        then record {
          sent = sent;
          outcome = ok (record { bound_type = bound_type_of kind; system_id = request.system_id });
        }
        else record { sent = sent; outcome = err esme_rsyserr })
    else record {
      sent = sent;
      outcome = err (from_command_status derived response.header.command_status);
    }

status-nonzero : (e : SmppError) → e ≢ esme_rok → (status_of e == 0) ≡ false
status-nonzero e ne = ground (arith, status_of-eq_zero e)

-- An accepted bind that could be answered leads to the state of its kind, under the system_id that the
-- peer gave. A rejected one, with any error but ESME_ROK, leads to no bound state: the outcome is that
-- error, and the response that says so is sent if the stream takes it.
pub open_bind_lem :
    {derived : FromPrimitive} (laws : FromPrimitiveLaws derived) (kind : BindKind) (p : BindRequest)
    (system_id : Bytes) (version : Option ℕ) (e : SmppError) (written : Bool)
    → e ≢ esme_rok
    → (open_bind derived kind p (accept kind p system_id version) true ≡ record {
      sent = encode_bind_response (accept kind p system_id version) ∷ [];
      outcome = ok (record { bound_type = bound_type_of kind; system_id = p.system_id });
    })
      × (open_bind derived kind p (reject kind p e) written ≡ record {
        sent = if written then encode_bind_response (reject kind p e) ∷ [] else [];
        outcome = err e;
      })
unfolding open_bind is_success accept reject
open_bind_lem laws kind p system_id version e written ne =
    (refl, simp (status-nonzero e ne, from_command_status-status_of laws e))
