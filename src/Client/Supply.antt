-- ===== src/Client/Supply.antt =====
-- client/internal/requestbuffer/requestbuffer.go, supplyReplies: the goroutine that passes the replies
-- of a set on, while others add replies. Each step is a section under the lock, one channel operation,
-- or the choice of a `select`.
use mathlib.Core.List.{append_assoc, append-nil}
use minbft.Base.{
  ℕ, ◌≤◌, ◌≡◌, refl, sym, ap, subst, ◌∙◌, ◌⊎◌, inl, inr, Bool, true, false, List, [], ◌∷◌, ◌++◌,
  arith, length, take, drop, append_take-drop, take-length, take-append, take-length_append,
  length-append,
}
use minbft.Messages.{Reply}

pub data Phase : Type 0 where
  reading : Phase  -- before the section under the read lock
  sending : Phase  -- in the loop over `msgs`
  waiting : Phase  -- in the `select` after it
  stopped : Phase  -- cancelled

-- `batch` is what the loop over `msgs` has left, `token` whether the buffered channel `newAdded` is
-- full, `sent` what the channel has got.
pub record Supply : Type 0 where
  pub msgs : List Reply
  pub token : Bool
  pub phase : Phase
  pub next : ℕ
  pub batch : List Reply
  pub sent : List Reply

abbrev pub new_supply : Supply
new_supply = record { msgs = []; token = false; phase = reading; next = 0; batch = []; sent = [] }

pub data Step (s t : Supply) : Type 0 where
  adds : (r : Reply) → t ≡ record s { msgs = s.msgs ++ r ∷ []; token = true } → Step s t
  reads :
      s.phase ≡ reading
      → t ≡ record s { batch = drop s.next s.msgs; next = length s.msgs; phase = sending }
      → Step s t
  sends :
      (r : Reply) (l : List Reply)
      → s.phase ≡ sending
      → s.batch ≡ r ∷ l
      → t ≡ record s { batch = l; sent = s.sent ++ r ∷ [] }
      → Step s t
  rests : s.phase ≡ sending → s.batch ≡ [] → t ≡ record s { phase = waiting } → Step s t
  wakes :
      s.phase ≡ waiting
      → s.token ≡ true
      → t ≡ record s { token = false; phase = reading }
      → Step s t
  stops : t ≡ record s { phase = stopped } → Step s t

pub data Reach : Supply → Type 0 where
  begin : Reach new_supply
  next : {s t : Supply} → Reach s → Step s t → Reach t

-- What each phase says about the batch and about replies that were not read.
abbrev Fresh : Supply → Phase → Type 0
Fresh s reading = s.batch ≡ []
Fresh s sending = (s.token ≡ true) ⊎ (s.next ≡ length s.msgs)
Fresh s waiting = (s.batch ≡ []) × ((s.token ≡ true) ⊎ (s.next ≡ length s.msgs))
Fresh s stopped = Unit {0}

record Inv (s : Supply) : Type 0 where
  within : s.next ≤ length s.msgs
  passed : s.sent ++ s.batch ≡ take s.next s.msgs
  fresh : Fresh s s.phase

adds-Fresh :
    (s : Supply) (r : Reply) (p : Phase)
    → Fresh s p
    → Fresh (record s { msgs = s.msgs ++ r ∷ []; token = true }) p
adds-Fresh s r reading f = f
adds-Fresh s r sending f = inl refl
adds-Fresh s r waiting f = (f.0, inl refl)
adds-Fresh s r stopped f = tt

Step-Inv : (s t : Supply) → Step s t → Inv s → Inv t
Step-Inv s t (adds r e) h = subst Inv (sym e) (record {
  within = omega (arith, h.within, length-append s.msgs (r ∷ []));
  passed = h.passed ∙ sym (take-append s.next s.msgs (r ∷ []) h.within);
  fresh = adds-Fresh s r s.phase h.fresh;
})
Step-Inv s t (reads p e) h = subst Inv (sym e) (record {
  within = omega arith;
  passed =
      ap (λ k. k ++ drop s.next s.msgs)
        (sym (append-nil _) ∙ ap (λ k. s.sent ++ k) (sym (subst (Fresh s) p h.fresh)) ∙ h.passed)
      ∙ append_take-drop s.next s.msgs
      ∙ sym (take-length s.msgs);
  fresh = inr refl;
})
Step-Inv s t (sends r l p b e) h = subst Inv (sym e) (record {
  within = h.within;
  passed = append_assoc s.sent (r ∷ []) l ∙ ap (λ k. s.sent ++ k) (sym b) ∙ h.passed;
  fresh =
      let u : Supply = record s { batch = l; sent = s.sent ++ r ∷ [] } in
      let f : Fresh s sending = subst (Fresh s) p h.fresh in subst (Fresh u) (sym p) f;
})
Step-Inv s t (rests p b e) h = subst Inv (sym e) (record {
  within = h.within;
  passed = h.passed;
  fresh = (b, let f : Fresh s sending = subst (Fresh s) p h.fresh in f);
})
Step-Inv s t (wakes p k e) h = subst Inv (sym e) (record {
  within = h.within;
  passed = h.passed;
  fresh = (let f : Fresh s waiting = subst (Fresh s) p h.fresh in f.0);
})
Step-Inv s t (stops e) h =
    subst Inv (sym e) (record { within = h.within; passed = h.passed; fresh = tt })

Reach-Inv : {s : Supply} → Reach s → Inv s
Reach-Inv begin = record { within = omega arith; passed = refl; fresh = refl }
Reach-Inv (Reach.next {s} {t} r st) = Step-Inv s t st (Reach-Inv r)

-- In every reachable state the replies that the channel has got are the first ones of the set, in the
-- order in which they were added: none is left out, repeated or invented.
pub sent_prefix : {s : Supply} → Reach s → s.sent ≡ take (length s.sent) s.msgs
sent_prefix {s} r = let h = Reach-Inv r in take-length_append s.next s.sent s.batch s.msgs h.passed

-- In every reachable state, if the goroutine waits then it has a notification to wake it, or every
-- reply of the set was sent.
waiting_complete : {s : Supply} → Reach s → s.phase ≡ waiting → (s.token ≡ true) ⊎ (s.sent ≡ s.msgs)
waiting_complete {s} r p =
    let h = Reach-Inv r in
    let f : Fresh s waiting = subst (Fresh s) p h.fresh in
    elim f.1 [
      | inl woken ↦ inl woken
      | inr last ↦ inr (
          sym (append-nil _)
          ∙ ap (λ k. s.sent ++ k) (sym f.0)
          ∙ h.passed
          ∙ ap (λ k. take k s.msgs) last
          ∙ take-length s.msgs)
    ]
