-- ===== src/Server/ReadLoop/Framed.antt =====
-- The loop of server/state.rs against what it should do: a relation that frames with `frame_first_pdu`
-- of common/mod.rs, and is stated without fuel.
use smpp.Base.{
  ℕ, zero, suc, ◌<◌, ◌≡◌, ◌⊎◌, inl, inr, refl, sym, ◌∙◌, arith, Bytes, length, take, drop,
  length-drop,
}
use mathlib.Core.Path.{subst}
use smpp.Common.Framing.{
  Framing, frame_first_pdu, incomplete, complete, invalid, frame_first_pdu-IsFrame,
}
use smpp.Common.Wire.{max_pdu_len}
use smpp.Server.State.{Flow, go_on, writer_dead, unbound, panicked}
use smpp.Server.ReadLoop.{next_pdu, proceed, drain, drain_buffer}

-- The tests of the loop are those of `frame_first_pdu`.
pub next_pdu-frame_first_pdu :
    (buffer : Bytes) → next_pdu buffer ≡ frame_first_pdu buffer max_pdu_len
unfolding next_pdu frame_first_pdu
next_pdu-frame_first_pdu buffer = refl

-- Flows that end the loop.
pub data Ends : Flow → Type 0 where
  ends_dead : Ends writer_dead
  ends_unbound : Ends unbound
  ends_panicked : Ends panicked

-- `Drains handle s buffer t rest flow`: from `s`, the complete PDUs at the front of `buffer` are handled
-- in order up to `t`; `rest` is what stays, and `flow` how the loop ended.
pub data Drains {ℓ} {S : Type ℓ} (handle : S → Bytes → S × Flow)
    : S → Bytes → S → Bytes → Flow → Type ℓ where
  waits :
      {s : S} {b : Bytes} → frame_first_pdu b max_pdu_len ≡ incomplete → Drains handle s b s b go_on
  refuses :
      {s : S} {b : Bytes} (n : ℕ)
      → frame_first_pdu b max_pdu_len ≡ invalid n
      → Drains handle s b s b writer_dead
  goes_on :
      {s t u : S} {b rest : Bytes} {f : Flow} (n : ℕ)
      → frame_first_pdu b max_pdu_len ≡ complete n
      → handle s (take n b) ≡ (t, go_on)
      → Drains handle t (drop n b) u rest f
      → Drains handle s b u rest f
  stops :
      {s t : S} {b : Bytes} {f : Flow} (n : ℕ)
      → frame_first_pdu b max_pdu_len ≡ complete n
      → handle s (take n b) ≡ (t, f)
      → Ends f
      → Drains handle s b t b f

shorter :
    (fuel : ℕ) (b : Bytes) (n : ℕ)
    → frame_first_pdu b max_pdu_len ≡ complete n
    → length b < suc fuel
    → length (drop n b) < fuel
shorter fuel b n e h =
    let i = frame_first_pdu-IsFrame b max_pdu_len n e in
    omega (arith, length-drop n b, i.holds_header, i.present)

pub Framing-cases :
    (x : Framing) → (x ≡ incomplete) ⊎ (((n : ℕ) × (x ≡ invalid n)) ⊎ ((n : ℕ) × (x ≡ complete n)))
Framing-cases incomplete = inl refl
Framing-cases (invalid n) = inr (inl (n, refl))
Framing-cases (complete n) = inr (inr (n, refl))

Flow-cases {ℓ} :
    {S : Type ℓ} (x : S × Flow)
    → ((t : S) × (x ≡ (t, go_on))) ⊎ ((t : S) × ((f : Flow) × ((x ≡ (t, f)) × Ends f)))
Flow-cases (t, go_on) = inl (t, refl)
Flow-cases (t, writer_dead) = inr (t, (writer_dead, (refl, ends_dead)))
Flow-cases (t, unbound) = inr (t, (unbound, (refl, ends_unbound)))
Flow-cases (t, panicked) = inr (t, (panicked, (refl, ends_panicked)))

module _ {ℓ} {S : Type ℓ} (handle : S → Bytes → S × Flow) where
  proceed-Ends :
      (next : S → S × (Bytes × Flow)) (b : Bytes) (t : S) {f : Flow}
      → Ends f
      → proceed next b (t, f) ≡ (t, (b, f))
  proceed-Ends next b t ends_dead = refl
  proceed-Ends next b t ends_unbound = refl
  proceed-Ends next b t ends_panicked = refl

  -- With a round more than there are bytes, the loop computes what the relation says.
  drain-Drains :
      (fuel : ℕ) {s t : S} {b rest : Bytes} {f : Flow}
      → length b < fuel
      → Drains handle s b t rest f
      → drain handle fuel s b ≡ (t, (rest, f))
  unfolding drain
  drain-Drains zero h d = absurd (omega arith)
  drain-Drains (suc fuel) {b = b} h (waits e) = rw (next_pdu-frame_first_pdu b, e)
  drain-Drains (suc fuel) {b = b} h (refuses n e) = rw (next_pdu-frame_first_pdu b, e)
  drain-Drains (suc fuel) {b = b} h (goes_on n e g d) =
      rw (next_pdu-frame_first_pdu b, e, g) (drain-Drains fuel (shorter fuel b n e h) d)
  drain-Drains (suc fuel) {b = b} h (stops {t = t} n e g x) =
      rw (next_pdu-frame_first_pdu b, e, g)
        (proceed-Ends (λ x'. drain handle fuel x' (drop n b)) b t x)

  -- The relation holds of some end of the loop on every buffer.
  Drains-of :
      (fuel : ℕ) (s : S) (b : Bytes)
      → length b < fuel
      → (t : S) × ((rest : Bytes) × ((f : Flow) × Drains handle s b t rest f))
  Drains-of zero s b h = absurd (omega arith)
  Drains-of (suc fuel) s b h = elim (Framing-cases (frame_first_pdu b max_pdu_len)) [
    | inl e ↦ (s, (b, (go_on, waits e)))
    | inr (inl (n, e)) ↦ (s, (b, (writer_dead, refuses n e)))
    | inr (inr (n, e)) ↦ elim (Flow-cases (handle s (take n b))) [
      | inl (t, g) ↦
          let (u, (rest, (f, d))) = Drains-of fuel t (drop n b) (shorter fuel b n e h) in
          (u, (rest, (f, goes_on n e g d)))
      | inr (t, (f, (g, x))) ↦ (t, (b, (f, stops n e g x)))
    ]
  ]

  pub drain_buffer-Drains :
      {s t : S} {b rest : Bytes} {f : Flow}
      → Drains handle s b t rest f
      → drain_buffer handle s b ≡ (t, (rest, f))
  unfolding drain_buffer
  drain_buffer-Drains {b = b} d = drain-Drains (suc (length b)) (omega arith) d

  -- On every buffer the loop ends, and as the relation says: its fuel never runs out.
  pub drain_buffer_total :
      (s : S) (b : Bytes)
      → (t : S) × ((rest : Bytes) × ((f : Flow) × (Drains handle s b t rest f
              × (drain_buffer handle s b ≡ (t, (rest, f))))))
  drain_buffer_total s b =
      let (t, (rest, (f, d))) = Drains-of (suc (length b)) s b (omega arith) in
      (t, (rest, (f, (d, drain_buffer-Drains d))))

  -- What the loop computes, the relation says.
  pub Drains-result :
      (s : S) (b : Bytes) (r : S × (Bytes × Flow))
      → drain_buffer handle s b ≡ r
      → Drains handle s b r.0 r.1.0 r.1.1
  Drains-result s b r e =
      let (t, (rest, (f, (d, e')))) = drain_buffer_total s b in
      subst (λ x. Drains handle s b x.0 x.1.0 x.1.1) (sym e' ∙ e) d
