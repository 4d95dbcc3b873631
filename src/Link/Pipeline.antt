-- ===== src/Link/Pipeline.antt =====
-- Many submit_sm on one connection: what the read loop of server/state.rs makes of a stream of them.
use smpp.Base.{ℕ, ◌≡◌, true, List, [], ◌∷◌, Bytes, All}
use smpp.Nom.{Nom, NomLaws}
use smpp.Common.Command.{CommandId, id_of}
use smpp.Common.Framing.{frame_first_pdu, incomplete}
use smpp.Common.Wire.{max_pdu_len}
use smpp.Commands.HeaderOnly.{HeaderOnly}
use smpp.Commands.SubmitSm.{SubmitSm, sent_header, encode}
use smpp.Commands.SubmitSm.Laws.{IsValid, submit_sm-Arrives}
use smpp.Server.State.{Session, may_transmit, spawn, on_submit_sm, go_on}
use smpp.Server.Session.{handle_pdu}
use smpp.Server.Session.Requests.{submit_sm_spawned}
use smpp.Server.ReadLoop.{drain_buffer}
use smpp.Server.ReadLoop.Chunks.{
  Handles, handled, handled_all, in_a_row, IsFramed, drain_buffer-in_a_row,
}

-- A valid submit_sm with its own command_id.
pub record IsSubmission (p : SubmitSm) : Type 0 where
  pub valid : IsValid p
  pub own_id : p.header.command_id ≡ id_of CommandId.submit_sm

-- The session with a task for each of them, in order.
abbrev pub spawn_all : Session → List SubmitSm → Session
spawn_all s [] = s
spawn_all s (p ∷ ps) = spawn_all (spawn s (on_submit_sm (record p { header = sent_header p }))) ps

abbrev pub encode_all : List SubmitSm → List Bytes
encode_all [] = []
encode_all (p ∷ ps) = encode p ∷ encode_all ps

module _ {nom : Nom} (laws : NomLaws nom) (on_unbind : HeaderOnly → HeaderOnly) (now : ℕ) where
  submissions_handled :
      (ps : List SubmitSm) (s : Session)
      → may_transmit s.bound_type ≡ true
      → All IsSubmission ps
      → Handles (handle_pdu nom on_unbind now) s (encode_all ps) (spawn_all s ps)
  unfolding spawn
  submissions_handled [] s t vs = handled_all
  submissions_handled (p ∷ ps) s t (v, vs) =
      handled (submit_sm_spawned laws on_unbind now s p t v.own_id v.valid)
        (submissions_handled ps (spawn s (on_submit_sm (record p { header = sent_header p }))) t vs)

  submissions-IsFramed : (ps : List SubmitSm) → All IsSubmission ps → All IsFramed (encode_all ps)
  submissions-IsFramed [] vs = tt
  submissions-IsFramed (p ∷ ps) (v, vs) =
      ((submit_sm-Arrives laws p v.valid).0.framed, submissions-IsFramed ps vs)

  -- Valid submit_sm PDUs that a peer sends one behind the other, on a session that may transmit, are all
  -- handed to `on_submit_sm`, each once, in the order in which they were sent and as they were sent,
  -- however many there are; the bytes of an unfinished PDU behind them stay in the buffer.
  pub submissions_in_order :
      (ps : List SubmitSm) (s : Session) (tail : Bytes)
      → may_transmit s.bound_type ≡ true
      → All IsSubmission ps
      → frame_first_pdu tail max_pdu_len ≡ incomplete
      → drain_buffer (handle_pdu nom on_unbind now) s (in_a_row (encode_all ps) tail)
        ≡ (spawn_all s ps, (tail, go_on))
  submissions_in_order ps s tail t vs e =
      drain_buffer-in_a_row (handle_pdu nom on_unbind now) s (spawn_all s ps) (encode_all ps) tail
        (submissions-IsFramed ps vs) e (submissions_handled ps s t vs)
