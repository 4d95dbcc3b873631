-- ===== src/Link/Window/Pipelined.antt =====
-- Many submit_sm that are written before any response is read: from the writer task of client/mod.rs through
-- the read loop of server/state.rs, and the responses back in another order.
use smpp.Base.{
  ℕ, ◌≡◌, ◌≢◌, ◌∙◌, refl, sym, ap, true, false, some, List, [], ◌∷◌, arith, Bytes, All, length,
  take-length,
}
use mathlib.Core.Path.{subst}
use mathlib.Core.List.{Permᴰ}
use smpp.Nom.{Nom, NomLaws}
use smpp.Common.Framing.{frame_first_pdu}
use smpp.Commands.HeaderOnly.{HeaderOnly}
use smpp.Commands.SubmitSm.{SubmitSm, encode}
use smpp.Server.Pending.{Entry, find, insert, lapsed, find-insert}
use smpp.Server.State.{Session, may_transmit, go_on}
use smpp.Server.Session as Server
use smpp.Client.Session as Client
use smpp.Server.ReadLoop.{drain_buffer}
use smpp.Server.ReadLoop.Chunks.{in_a_row}
use smpp.Engine.Frame.{request_frame}
use smpp.Engine.Writer as Writer
use smpp.Engine.Writer.{write_all}
use smpp.Link.Pipeline.{IsSubmission, spawn_all, encode_all, submissions_in_order}
use smpp.Link.Window.{
  Exchange, number, entry_of, IsAccepted, IsDue, IsDistinct, responses, answered_all,
  answers_in_any_order,
}

-- The frame of the request, and a write that takes all of it.
abbrev pub writing : Exchange → Writer.Turn
writing x = record {
  frame = request_frame (number x) (encode x.submitted) (some x.channel);
  now = x.since;
  written = some (length (encode x.submitted));
}

abbrev pub writings : List Exchange → List Writer.Turn
writings [] = []
writings (x ∷ xs) = writing x ∷ writings xs

abbrev pub requests : List Exchange → List SubmitSm
requests [] = []
requests (x ∷ xs) = x.submitted ∷ requests xs

abbrev pub register_all : List Exchange → List Entry → List Entry
register_all [] es = es
register_all (x ∷ xs) es = register_all xs (insert (entry_of x) es)

all_written :
    (xs : List Exchange) (s : Session)
    → write_all s (writings xs)
      ≡ (record s { pending = register_all xs s.pending }, in_a_row (encode_all (requests xs)) [])
unfolding write_all
all_written [] s = refl
all_written (x ∷ xs) s =
    rw
      (
        take-length (encode x.submitted),
        all_written xs (record s { pending = insert (entry_of x) s.pending }),
      )
      refl

-- What was pending stays so while requests of other numbers are registered.
find-register_all :
    (xs : List Exchange) (n : ℕ) (es : List Entry)
    → All (λ y. n ≢ number y) xs
    → find n (register_all xs es) ≡ find n es
find-register_all [] n es ns = refl
find-register_all (x ∷ xs) n es (other, ns) =
    find-register_all xs n (insert (entry_of x) es) ns
    ∙ ground (arith, find-insert (entry_of x) n es)

register_all-IsDue :
    (now timer : ℕ) (xs : List Exchange) (es : List Entry)
    → IsDistinct xs
    → All (λ x. lapsed now timer (entry_of x) ≡ false) xs
    → All (IsDue now timer (register_all xs es)) xs
register_all-IsDue now timer [] es ns fs = tt
register_all-IsDue now timer (x ∷ xs) es (n, ns) (fresh, fs) = (
  (
    find-register_all xs (number x) (insert (entry_of x) es) n
        ∙ ground (arith, find-insert (entry_of x) (number x) es),
    fresh,
  ),
  register_all-IsDue now timer xs (insert (entry_of x) es) ns fs,
)

Permᴰ-All {ℓ κ} : {A : Type ℓ} (P : A → Type κ) {xs ys : List A} → Permᴰ xs ys → All P xs → All P ys
Permᴰ-All P Permᴰ.nil ps = tt
Permᴰ-All P (Permᴰ.cons e d) (p, ps) = (subst P e p, Permᴰ-All P d ps)
Permᴰ-All P (Permᴰ.swap e e') (p, (q, ps)) = (subst P e' q, (subst P e p, ps))
Permᴰ-All P (Permᴰ.trans d d') ps = Permᴰ-All P d' (Permᴰ-All P d ps)

IsDistinct-Permᴰ : {xs ys : List Exchange} → Permᴰ xs ys → IsDistinct xs → IsDistinct ys
IsDistinct-Permᴰ Permᴰ.nil ns = tt
IsDistinct-Permᴰ (Permᴰ.cons {l₂ = l} e d) (n, ns) =
    (subst (λ z. All (λ y. number z ≢ number y) l) e (Permᴰ-All _ d n), IsDistinct-Permᴰ d ns)
IsDistinct-Permᴰ (Permᴰ.swap {l = l} e e') ((other, n), (m, ns)) = (
  (
    (λ q. other (ap number e ∙ sym q ∙ ap number (sym e'))),
    subst (λ z. All (λ y. number z ≢ number y) l) e' m,
  ),
  (subst (λ z. All (λ y. number z ≢ number y) l) e n, ns),
)
IsDistinct-Permᴰ (Permᴰ.trans d d') ns = IsDistinct-Permᴰ d' (IsDistinct-Permᴰ d ns)

-- Every request is written and registered; the server hands each to `on_submit_sm`, in the order in which
-- they were written; the responses `ys` go each into the channel of its own caller.
pub record IsPipelined (nom : Nom) (on_unbind : HeaderOnly → HeaderOnly) (client server : Session)
    (now : ℕ) (xs ys : List Exchange) : Type 0 where
  pub registered : Session
  pub wire : Bytes
  pub writes : write_all client (writings xs) ≡ (registered, wire)
  pub spawns :
      drain_buffer (Server.handle_pdu nom on_unbind now) server wire
      ≡ (spawn_all server (requests xs), ([], go_on))
  pub returns :
      drain_buffer (Client.handle_pdu nom on_unbind now) registered (in_a_row (responses ys) [])
      ≡ (answered_all ys registered, ([], go_on))

-- Any number of valid submit_sm with distinct sequence numbers that are written in full, before any
-- response is read, by a client to a server that both may transmit: each is handed to `on_submit_sm` as it
-- was sent, in that order. If all are accepted under a message_id, and the responses are sent in any other
-- order and are read while no request's response timer is up, each goes into the channel of its own caller.
pub submissions-IsPipelined :
    {nom : Nom} (laws : NomLaws nom) (on_unbind : HeaderOnly → HeaderOnly) (client server : Session)
    (now : ℕ) (xs ys : List Exchange)
    → may_transmit client.bound_type ≡ true
    → may_transmit server.bound_type ≡ true
    → All IsSubmission (requests xs)
    → All IsAccepted xs
    → IsDistinct xs
    → All (λ x. lapsed now client.response_timer (entry_of x) ≡ false) xs
    → Permᴰ xs ys
    → IsPipelined nom on_unbind client server now xs ys
unfolding frame_first_pdu
submissions-IsPipelined {nom} laws on_unbind client server now xs ys ct st vs bs ns fs d =
    let waits = record client { pending = register_all xs client.pending } in
    record {
      registered = waits;
      wire = in_a_row (encode_all (requests xs)) [];
      writes = all_written xs client;
      spawns = submissions_in_order laws on_unbind now (requests xs) server [] st vs refl;
      returns =
          answers_in_any_order laws on_unbind now ys waits [] ct (Permᴰ-All IsAccepted d bs)
            (IsDistinct-Permᴰ d ns)
            (Permᴰ-All _ d (register_all-IsDue now client.response_timer xs client.pending ns fs))
            refl;
    }
