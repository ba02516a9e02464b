-- ===== src/Client/Streamed.antt =====
-- client/internal/requestbuffer/requestbuffer.go: which requests a replica gets.
use minbft.Base.{
  ℕ, suc, ◌≤◌, ◌<◌, ◌≡◌, refl, sym, ap, subst, ◌∙◌, ◌⊎◌, inl, inr, true, false, Option, none, some,
  List, [], ◌∷◌, arith, ltb, Bool-cases, All, Occurs,
}
use mathlib.Core.Option.{some-injective}
use minbft.Messages.{Request}
use minbft.Client.RequestBuffer.{Held, add_request, remove_request}
use minbft.Client.RequestStream.{
  starting, registers, Phase, reading, offering, waiting, stopped, Stream, after_reading, Step,
  adds, removes, reads, sends, gives_up, wakes, stops, Reach, begin,
}
use minbft.Client.Streaming.{
  Descending, PhaseInv, Inv, add_request-AddsTo, remove_request_last, remove_request_held, adds-Inv,
  removes-Inv,
}

after_reading-PhaseInv :
    (s : Stream) (o : Option Held) → s.buffer.held ≡ o → Inv s → PhaseInv s (after_reading s.last o)
unfolding after_reading
after_reading-PhaseInv s none e h = inr (λ x g. let no_way : none ≡ some x = sym e ∙ g in cc)
after_reading-PhaseInv s (some k) e h = elim (Bool-cases (ltb s.last k.request.sequence)) [
  | inl new ↦ rw new (
    ground (arith, new),
    omega (arith, h.newest k e),
    λ x g n. ap (λ (y : Held). y.request) (some-injective _ _ (sym g ∙ e)),
    h.was_added k e,
    inr (λ x g.
        let same : x ≡ k = some-injective _ _ (sym g ∙ e) in
        omega (arith, ap (λ (y : Held). y.request.sequence) same)),
  )
  | inr old ↦ rw old (
      inr
        (λ x g. let same : x ≡ k = some-injective _ _ (sym g ∙ e) in rw same (ground (arith, old))))
]

phase-Inv : (s : Stream) (p : Phase) → PhaseInv s p → Inv s → Inv (record s { phase = p })
phase-Inv s p f h = record {
  low = h.low;
  newest = h.newest;
  got = h.got;
  was_added = h.was_added;
  phase = move p f;
  order = h.order;
  members = h.members;
}
  where
    move : (p : Phase) → PhaseInv s p → PhaseInv (record s { phase = p }) p
    move starting g = tt
    move reading g = tt
    move (offering q) g = g
    move waiting g = g
    move stopped g = tt

Descending-weaken : (a b : ℕ) (l : List Request) → a ≤ b → Descending a l → Descending b l
Descending-weaken a b [] le d = tt
Descending-weaken a b (q ∷ l) le d = (omega (arith, d.0), d.1)

sends-Inv :
    (s : Stream) (q : Request)
    → PhaseInv s (offering q)
    → Inv s
    → Inv (record s { phase = waiting; last = q.sequence; sent = q ∷ s.sent })
sends-Inv s q (low, known, same, was, seen) h = record {
  low = known;
  newest = h.newest;
  got = λ x e l. inl (same x e (omega (arith, h.newest x e)));
  was_added = h.was_added;
  phase = seen;
  order = (omega arith, Descending-weaken (suc s.last) q.sequence s.sent (omega arith) h.order);
  members = (was, h.members);
}

given_up :
    (s : Stream) (q : Request)
    → PhaseInv s (offering q)
    → ((h : Held) → s.buffer.held ≡ some h → q.sequence < h.request.sequence)
    → PhaseInv s waiting
given_up s q (low, known, same, was, inl t) gone = inl t
given_up s q (low, known, same, was, inr seen) gone =
    inr (λ h e. absurd (omega (arith, seen h e, gone h e)))

wakes-Inv : (s : Stream) → Inv s → Inv (record s { token = false; phase = reading })
wakes-Inv s h = record {
  low = h.low;
  newest = h.newest;
  got = h.got;
  was_added = h.was_added;
  phase = tt;
  order = h.order;
  members = h.members;
}

Step-Inv : (s t : Stream) → Step s t → Inv s → Inv t
Step-Inv s t (adds q a e) h = subst Inv (sym e) (
    adds-Inv s q (add_request s.buffer q).0 (add_request-AddsTo s.buffer.last_seq s.buffer.held q a)
      h)
Step-Inv s t (removes seq e) h = subst Inv (sym e) (
    removes-Inv s (remove_request s.buffer seq)
      (remove_request_last s.buffer.last_seq s.buffer.held seq)
      (remove_request_held s.buffer.last_seq s.buffer.held seq) h)
Step-Inv s t (registers p e) h = subst Inv (sym e) (phase-Inv s reading tt h)
Step-Inv s t (reads p e) h = subst Inv (sym e) (
    phase-Inv s (after_reading s.last s.buffer.held) (after_reading-PhaseInv s s.buffer.held refl h)
      h)
Step-Inv s t (sends q p e) h = subst Inv (sym e) (sends-Inv s q (subst (PhaseInv s) p h.phase) h)
Step-Inv s t (gives_up q p gone e) h =
    subst Inv (sym e) (phase-Inv s waiting (given_up s q (subst (PhaseInv s) p h.phase) gone) h)
Step-Inv s t (wakes p k e) h = subst Inv (sym e) (wakes-Inv s h)
Step-Inv s t (stops e) h = subst Inv (sym e) (phase-Inv s stopped tt h)

Reach-Inv : {s : Stream} → Reach s → Inv s
Reach-Inv begin = record {
  low = omega arith;
  newest = λ h e. cc;
  got = λ h e. cc;
  was_added = λ h e. cc;
  phase = tt;
  order = tt;
  members = tt;
}
Reach-Inv (Reach.next {s} {t} r st) = Step-Inv s t st (Reach-Inv r)

-- In every reachable state the requests that the channel to a replica has got were all added
-- to the buffer, and their sequence numbers increase strictly up to the last one noted: none
-- is sent twice or out of order.
pub sent_once :
    {s : Stream} → Reach s → Descending (suc s.last) s.sent × All (λ q. Occurs q s.accepted) s.sent
sent_once r = let h = Reach-Inv r in (h.order, h.members)

waits_only :
    (s : Stream)
    → Inv s
    → PhaseInv s waiting
    → (s.token ≡ true) ⊎ ((h : Held) → s.buffer.held ≡ some h → Occurs h.request s.sent)
waits_only s h (inl t) = inl t
waits_only s h (inr f) = inr (λ x e. h.got x e (f x e))

-- In every reachable state, if the goroutine that supplies a replica with requests waits, then
-- it has a notification to wake it, or the channel has got the request that is in the buffer,
-- if there is one.
pub waiting_served :
    {s : Stream}
    → Reach s
    → s.phase ≡ waiting
    → (s.token ≡ true) ⊎ ((h : Held) → s.buffer.held ≡ some h → Occurs h.request s.sent)
waiting_served {s} r p = let h = Reach-Inv r in waits_only s h (subst (PhaseInv s) p h.phase)
