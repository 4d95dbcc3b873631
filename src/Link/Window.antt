-- ===== src/Link/Window.antt =====
-- Many submit_sm that wait for their responses at once: what the read loop of client/mod.rs makes of the
-- responses, in whatever order the peer sends them.
pub mod Pipelined
use smpp.Base.{
  ℕ, ◌≡◌, ◌≢◌, sym, true, false, some, List, [], ◌∷◌, ◌++◌, append_assoc, append-nil, arith, Bytes,
  All, IsU32, ok,
}
use mathlib.Core.Path.{subst}
use smpp.Nom.{Nom, NomLaws}
use smpp.Common.CString.{is_c_string}
use smpp.Common.Framing.{frame_first_pdu, incomplete}
use smpp.Common.Wire.{max_pdu_len}
use smpp.Commands.HeaderOnly.{HeaderOnly}
use smpp.Commands.SubmitSm.{SubmitSm, sent_header}
use smpp.Commands.SubmitSm.Response as SubmitResp
use smpp.Server.Pending.{Entry, find, erase, lapsed, find-erase}
use smpp.Server.State.{Session, Reply, may_transmit, submit_reply, go_on}
use smpp.Client.Session.{handle_pdu}
use smpp.Client.Session.Answers.{submit_sm_resp_delivered, delivered}
use smpp.Server.ReadLoop.{drain_buffer}
use smpp.Server.ReadLoop.Chunks.{
  Handles, handled, handled_all, in_a_row, IsFramed, drain_buffer-in_a_row,
}

-- A request that was written at `since` for the caller behind `channel`, and the response that accepts what
-- arrives of it.
pub record Exchange : Type 0 where
  pub submitted : SubmitSm
  pub message_id : Bytes
  pub response : SubmitResp.SubmitSmResp
  pub since : ℕ
  pub channel : ℕ

-- The submit_sm as it is on the wire.
abbrev pub as_sent : SubmitSm → SubmitSm
as_sent p = record p { header = sent_header p }

abbrev pub number : Exchange → ℕ
number x = x.submitted.header.sequence_number

abbrev pub entry_of : Exchange → Entry
entry_of x = record { sequence_number = number x; since = x.since; reply_to = some x.channel }

-- The response is one that `accept` built under a message_id.
pub record IsAccepted (x : Exchange) : Type 0 where
  pub small : IsU32 (number x)
  pub text : is_c_string x.message_id ≡ true
  pub accepted : SubmitResp.accept (as_sent x.submitted) x.message_id ≡ ok x.response

-- The request is pending, and its time is not up.
abbrev pub IsDue : ℕ → ℕ → List Entry → Exchange → Type 0
IsDue now timer pending x =
    (find (number x) pending ≡ some (entry_of x)) × (lapsed now timer (entry_of x) ≡ false)

abbrev pub IsDistinct : List Exchange → Type 0
IsDistinct [] = Unit
IsDistinct (x ∷ xs) = All (λ y. number x ≢ number y) xs × IsDistinct xs

abbrev pub responses : List Exchange → List Bytes
responses [] = []
responses (x ∷ xs) = SubmitResp.encode x.response ∷ responses xs

-- The response of each exchange in the channel of its own caller.
abbrev pub replies_to : List Exchange → List (ℕ × Reply)
replies_to [] = []
replies_to (x ∷ xs) = (x.channel, submit_reply x.response) ∷ replies_to xs

abbrev pub erase_all : List Exchange → List Entry → List Entry
erase_all [] es = es
erase_all (x ∷ xs) es = erase_all xs (erase (number x) es)

-- The session with every response in the channel of its caller, and no request of them pending.
abbrev pub answered_all : List Exchange → Session → Session
answered_all xs s = record s {
  replies = s.replies ++ replies_to xs;
  pending = erase_all xs s.pending;
}

-- What is due stays so when a request of another number is taken off.
erase-IsDue :
    (now timer n : ℕ) (es : List Entry) (xs : List Exchange)
    → All (λ y. n ≢ number y) xs
    → All (IsDue now timer es) xs
    → All (IsDue now timer (erase n es)) xs
erase-IsDue now timer n es [] ns ds = tt
erase-IsDue now timer n es (x ∷ xs) (other, ns) ((found, fresh), ds) =
    ((ground (arith, find-erase n (number x) es), fresh), erase-IsDue now timer n es xs ns ds)

module _ {nom : Nom} (laws : NomLaws nom) (on_unbind : HeaderOnly → HeaderOnly) (now : ℕ) where
  answers_handled :
      (xs : List Exchange) (s : Session)
      → may_transmit s.bound_type ≡ true
      → All IsAccepted xs
      → IsDistinct xs
      → All (IsDue now s.response_timer s.pending) xs
      → Handles (handle_pdu nom on_unbind now) s (responses xs) (answered_all xs s)
  unfolding sent_header
  answers_handled [] s t bs ns ds =
      subst (λ rs. Handles (handle_pdu nom on_unbind now) s [] (record s { replies = rs }))
        (sym (append-nil s.replies)) handled_all
  answers_handled (x ∷ xs) s t (a, bs) (other, ns) ((found, fresh), ds) =
      let n = number x in
      let (s', _) = delivered n (entry_of x) (submit_reply x.response) s in
      subst
        (λ rs.
          Handles (handle_pdu nom on_unbind now) s (responses (x ∷ xs))
            (record s { replies = rs; pending = erase_all (x ∷ xs) s.pending }))
        (append_assoc s.replies ((x.channel, submit_reply x.response) ∷ []) (replies_to xs))
        (handled
          (submit_sm_resp_delivered laws on_unbind now s (as_sent x.submitted) x.message_id
            x.response (entry_of x) t a.small a.text a.accepted found fresh)
          (answers_handled xs s' t bs ns
            (erase-IsDue now s.response_timer n s.pending xs other ds)))

  responses-IsFramed : (xs : List Exchange) → All IsAccepted xs → All IsFramed (responses xs)
  unfolding sent_header
  responses-IsFramed [] bs = tt
  responses-IsFramed (x ∷ xs) (a, bs) =
      let (_, _, _, arrives, _) =
        SubmitResp.submit_sm_accept-Arrives laws (as_sent x.submitted) x.message_id x.response
          a.small a.text a.accepted in
      (arrives.framed, responses-IsFramed xs bs)

  -- At a client that may transmit, with any number of submit_sm pending under distinct sequence numbers,
  -- none of them later than the response timer allows, the responses that accept them, sent one behind the
  -- other in any order, go each into the channel of its own caller, in the order in which they came, and
  -- their entries are removed; nothing else of the session changes, and the bytes of an unfinished PDU
  -- behind them stay in the buffer.
  pub answers_in_any_order :
      (xs : List Exchange) (s : Session) (tail : Bytes)
      → may_transmit s.bound_type ≡ true
      → All IsAccepted xs
      → IsDistinct xs
      → All (IsDue now s.response_timer s.pending) xs
      → frame_first_pdu tail max_pdu_len ≡ incomplete
      → drain_buffer (handle_pdu nom on_unbind now) s (in_a_row (responses xs) tail)
        ≡ (answered_all xs s, (tail, go_on))
  answers_in_any_order xs s tail t bs ns ds e =
      drain_buffer-in_a_row (handle_pdu nom on_unbind now) s (answered_all xs s) (responses xs) tail
        (responses-IsFramed xs bs) e (answers_handled xs s t bs ns ds)
