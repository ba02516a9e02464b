-- ===== src/Client/Streaming.antt =====
-- client/internal/requestbuffer/requestbuffer.go: what holds of the goroutine that supplies a replica
-- with requests, and the changes of the buffer that it does not make itself.
use minbft.Base.{
  ℕ, suc, ◌≤◌, ◌<◌, ◌≡◌, refl, sym, ap, ◌∙◌, ◌⊎◌, inl, inr, true, Option, none, some, List, [], ◌∷◌,
  arith, leb, ◌==◌, Bool-cases, All, map-All, Occurs,
}
use mathlib.Core.Option.{some-injective}
use minbft.Messages.{Request}
use minbft.Client.RequestBuffer.{Buffer, Held, rejected, added, add_request, remove_request}
use minbft.Client.RequestStream.{
  starting, notified, Phase, reading, offering, waiting, stopped, Stream,
}

-- The sequence numbers fall, from below the bound on.
abbrev pub Descending : ℕ → List Request → Type 0
Descending b [] = Unit
Descending b (q ∷ l) = (q.sequence < b) × Descending q.sequence l

-- What each phase says.
abbrev pub PhaseInv : Stream → Phase → Type 0
PhaseInv s starting = Unit
PhaseInv s reading = Unit
PhaseInv s (offering q) =
    (s.last < q.sequence)
    × (q.sequence ≤ s.buffer.last_seq)
    × ((h : Held) → s.buffer.held ≡ some h → q.sequence ≡ h.request.sequence → h.request ≡ q)
    × Occurs q s.accepted
    × ((s.token ≡ true) ⊎ ((h : Held) → s.buffer.held ≡ some h → h.request.sequence ≤ q.sequence))
PhaseInv s waiting =
    (s.token ≡ true) ⊎ ((h : Held) → s.buffer.held ≡ some h → h.request.sequence ≤ s.last)
PhaseInv s stopped = Unit

pub record Inv (s : Stream) : Type 0 where
  pub low : s.last ≤ s.buffer.last_seq
  pub newest : (h : Held) → s.buffer.held ≡ some h → h.request.sequence ≡ s.buffer.last_seq
  pub got :
      (h : Held) → s.buffer.held ≡ some h → h.request.sequence ≤ s.last → Occurs h.request s.sent
  pub was_added : (h : Held) → s.buffer.held ≡ some h → Occurs h.request s.accepted
  pub phase : PhaseInv s s.phase
  pub order : Descending (suc s.last) s.sent
  pub members : All (λ q. Occurs q s.accepted) s.sent

pub record AddsTo (b b' : Buffer) (q : Request) : Type 0 where
  pub newer : b.last_seq < q.sequence
  pub last_now : b'.last_seq ≡ q.sequence
  pub held_now : (h : Held) → b'.held ≡ some h → h.request ≡ q

pub add_request-AddsTo :
    (n : ℕ) (o : Option Held) (q : Request)
    → (add_request (record { last_seq = n; held = o }) q).1 ≡ added
    → AddsTo
        (record { last_seq = n; held = o })
        (add_request (record { last_seq = n; held = o }) q).0
        q
unfolding add_request
add_request-AddsTo n (some h) q e = cc
add_request-AddsTo n none q e = elim (Bool-cases (leb q.sequence n)) [
  | inl old ↦ let no_way : rejected ≡ added = rw old at e in cc
  | inr new ↦ rw new (record {
    newer = ground (arith, new);
    last_now = refl;
    held_now = λ h f. ap (λ (x : Held). x.request) (sym (some-injective _ _ f));
  })
]

pub remove_request_last :
    (n : ℕ) (o : Option Held) (seq : ℕ)
    → (remove_request (record { last_seq = n; held = o }) seq).last_seq ≡ n
unfolding remove_request
remove_request_last n none seq = refl
remove_request_last n (some h) seq = ground arith

pub remove_request_held :
    (n : ℕ) (o : Option Held) (seq : ℕ) (h : Held)
    → (remove_request (record { last_seq = n; held = o }) seq).held ≡ some h
    → o ≡ some h
unfolding remove_request
remove_request_held n none seq h e = e
remove_request_held n (some k) seq h e = elim (Bool-cases (k.request.sequence == seq)) [
  | inl same ↦ let gone : none ≡ some h = rw same at e in cc
  | inr other ↦ rw other at e
]

adds-PhaseInv :
    (s : Stream) (q : Request) (b : Buffer) (p : Phase)
    → AddsTo s.buffer b q
    → PhaseInv s p
    → PhaseInv (record s { buffer = b; token = notified p; accepted = q ∷ s.accepted }) p
unfolding notified
adds-PhaseInv s q b starting a f = tt
adds-PhaseInv s q b reading a f = tt
adds-PhaseInv s q b (offering p) a (low, known, same, was, seen) = (
  low,
  omega (arith, a.newer, a.last_now),
  λ h e n. absurd (omega (arith, a.newer, ap (λ (x : Request). x.sequence) (a.held_now h e))),
  inr was,
  inl refl,
)
adds-PhaseInv s q b waiting a f = inl refl
adds-PhaseInv s q b stopped a f = tt

pub adds-Inv :
    (s : Stream) (q : Request) (b : Buffer)
    → AddsTo s.buffer b q
    → Inv s
    → Inv (record s { buffer = b; token = notified s.phase; accepted = q ∷ s.accepted })
adds-Inv s q b a h = record {
  low = omega (arith, h.low, a.newer, a.last_now);
  newest = λ x e. ap (λ (r : Request). r.sequence) (a.held_now x e) ∙ sym a.last_now;
  got = λ x e l.
      absurd (omega (arith, h.low, a.newer, ap (λ (r : Request). r.sequence) (a.held_now x e)));
  was_added = λ x e. inl (a.held_now x e);
  phase = adds-PhaseInv s q b s.phase a h.phase;
  order = h.order;
  members = map-All _ _ s.sent (λ x o. inr o) h.members;
}

removes-PhaseInv :
    (s : Stream) (b : Buffer) (p : Phase)
    → b.last_seq ≡ s.buffer.last_seq
    → ((h : Held) → b.held ≡ some h → s.buffer.held ≡ some h)
    → PhaseInv s p
    → PhaseInv (record s { buffer = b }) p
removes-PhaseInv s b starting e f h = tt
removes-PhaseInv s b reading e f h = tt
removes-PhaseInv s b (offering q) e f (low, known, same, was, inl t) =
    (low, omega (arith, e, known), λ h g n. same h (f h g) n, was, inl t)
removes-PhaseInv s b (offering q) e f (low, known, same, was, inr h) =
    (low, omega (arith, e, known), λ x g n. same x (f x g) n, was, inr (λ x g. h x (f x g)))
removes-PhaseInv s b waiting e f (inl t) = inl t
removes-PhaseInv s b waiting e f (inr h) = inr (λ x g. h x (f x g))
removes-PhaseInv s b stopped e f h = tt

pub removes-Inv :
    (s : Stream) (b : Buffer)
    → b.last_seq ≡ s.buffer.last_seq
    → ((h : Held) → b.held ≡ some h → s.buffer.held ≡ some h)
    → Inv s
    → Inv (record s { buffer = b })
removes-Inv s b e f h = record {
  low = omega (arith, e, h.low);
  newest = λ x g. h.newest x (f x g) ∙ sym e;
  got = λ x g l. h.got x (f x g) l;
  was_added = λ x g. h.was_added x (f x g);
  phase = removes-PhaseInv s b s.phase e f h.phase;
  order = h.order;
  members = h.members;
}
