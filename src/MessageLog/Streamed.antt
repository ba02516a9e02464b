-- ===== src/MessageLog/Streamed.antt =====
-- core/internal/messagelog/messagelog.go: what a stream of the log delivers.
use mathlib.Core.List.{append_assoc, append-nil}
use minbft.Base.{
  ◌≤◌, ◌≡◌, refl, sym, ap, subst, ◌∙◌, ◌⊎◌, inl, inr, true, false, List, [], ◌∷◌, ◌++◌, arith,
  length, take, drop, append_take-drop, take-length, take-append, take-length_append, length-append,
  Bool-cases,
}
use minbft.Messages.{Message}
use minbft.MessageLog.{
  Phase, reading, sending, waiting, stopped, Stream, append, reset, notice_reset, read_batch,
  read_log, Step, appends, resets, reads, sends, abandons, rests, wakes, stops, Reach, begin,
}

-- What each phase says of a stream that has no reset to notice.
abbrev Fresh : Stream → Phase → Type 0
Fresh s reading = s.batch ≡ []
Fresh s sending = (s.added ≡ true) ⊎ (s.next ≡ length s.msgs)
Fresh s waiting = (s.batch ≡ []) × ((s.added ≡ true) ⊎ (s.next ≡ length s.msgs))
Fresh s stopped = Unit {0}

record Current (s : Stream) : Type 0 where
  within : s.next ≤ length s.msgs
  passed : s.sent ++ s.batch ≡ take s.next s.msgs
  fresh : Fresh s s.phase

abbrev Inv : Stream → Type 0
Inv s = (s.stale ≡ true) ⊎ Current s

append-Fresh : (s : Stream) (m : Message) (p : Phase) → Fresh s p → Fresh (append s m) p
unfolding append
append-Fresh s m reading f = f
append-Fresh s m sending f = inl refl
append-Fresh s m waiting f = (f.0, inl refl)
append-Fresh s m stopped f = tt

append-Current : (s : Stream) (m : Message) → Current s → Current (append s m)
unfolding append
append-Current s m h = record {
  within = omega (arith, h.within, length-append s.msgs (m ∷ []));
  passed = h.passed ∙ sym (take-append s.next s.msgs (m ∷ []) h.within);
  fresh = append-Fresh s m s.phase h.fresh;
}

-- What a stream has sent when it reads the log again.
abbrev Rest : Stream → Type 0
Rest s = (s.next ≤ length s.msgs) × (s.sent ≡ take s.next s.msgs)

notice_reset-Rest : (s : Stream) → s.phase ≡ reading → Inv s → Rest (notice_reset s)
unfolding notice_reset
notice_reset-Rest s p h = elim (Bool-cases s.stale) [
  | inl yes_stale ↦ rw (if_stale s yes_stale) (omega arith, refl)
  | inr clean ↦ rw (if_clean s clean) (elim h [
    | inl old ↦ absurd (cc)
    | inr c ↦
        let f : Fresh s reading = subst (Fresh s) p c.fresh in
        (c.within, sym (append-nil s.sent) ∙ ap (λ k. s.sent ++ k) (sym f) ∙ c.passed)
  ])
]
  where
    if_stale :
        (s : Stream)
        → s.stale ≡ true
        → notice_reset s ≡ record s { stale = false; next = 0; sent = [] }
    if_stale s e = ground (arith, e)

    if_clean : (s : Stream) → s.stale ≡ false → notice_reset s ≡ s
    if_clean s e = ground (arith, e)

read_batch-Current : (s : Stream) → Rest s → Current (read_batch s)
unfolding read_batch
read_batch-Current s h = record {
  within = omega arith;
  passed =
      ap (λ k. k ++ drop s.next s.msgs) h.1
      ∙ append_take-drop s.next s.msgs
      ∙ sym (take-length s.msgs);
  fresh = inr refl;
}

sends-Current :
    (s : Stream) (m : Message) (l : List Message)
    → s.phase ≡ sending
    → s.batch ≡ m ∷ l
    → Current s
    → Current (record s { batch = l; sent = s.sent ++ m ∷ [] })
sends-Current s m l p b h = record {
  within = h.within;
  passed = append_assoc s.sent (m ∷ []) l ∙ ap (λ k. s.sent ++ k) (sym b) ∙ h.passed;
  fresh =
      let u : Stream = record s { batch = l; sent = s.sent ++ m ∷ [] } in
      let f : Fresh s sending = subst (Fresh s) p h.fresh in subst (Fresh u) (sym p) f;
}

-- A change of the phase alone.
move-Inv : (s : Stream) (q : Phase) → (Current s → Fresh s q) → Inv s → Inv (record s { phase = q })
move-Inv s q f (inl old) = inl old
move-Inv s q f (inr h) = inr (record { within = h.within; passed = h.passed; fresh = f h })

wake-Inv :
    (s : Stream)
    → s.phase ≡ waiting
    → (s.added ≡ true) ⊎ (s.stale ≡ true)
    → Inv s
    → Inv (record s { phase = reading })
wake-Inv s p k h =
    move-Inv s reading (λ c. let f : Fresh s waiting = subst (Fresh s) p c.fresh in f.0) h

Step-Inv : (s t : Stream) → Step s t → Inv s → Inv t
unfolding append reset read_log
Step-Inv s t (appends m e) (inl old) = subst Inv (sym e) (inl old)
Step-Inv s t (appends m e) (inr h) = subst Inv (sym e) (inr (append-Current s m h))
Step-Inv s t (resets l e) h = subst Inv (sym e) (inl refl)
Step-Inv s t (reads p e) h =
    subst Inv (sym e) (inr (read_batch-Current (notice_reset s) (notice_reset-Rest s p h)))
Step-Inv s t (sends m l p b e) (inl old) = subst Inv (sym e) (inl old)
Step-Inv s t (sends m l p b e) (inr h) = subst Inv (sym e) (inr (sends-Current s m l p b h))
Step-Inv s t (abandons m l p b k e) h = subst Inv (sym e) (inl k)
Step-Inv s t (rests p b e) h =
    subst Inv (sym e)
      (move-Inv s waiting (λ c. (b, let f : Fresh s sending = subst (Fresh s) p c.fresh in f)) h)
Step-Inv s t (wakes p k e) h = subst Inv (sym e) (wake-Inv s p k h)
Step-Inv s t (stops e) h = subst Inv (sym e) (move-Inv s stopped (λ c. tt) h)

Reach-Inv : {s : Stream} → Reach s → Inv s
Reach-Inv (begin l) = inr (record { within = omega arith; passed = refl; fresh = refl })
Reach-Inv (Reach.next {s} {t} r st) = Step-Inv s t st (Reach-Inv r)

-- In every reachable state with no reset that the stream has to notice, what it has sent since the last
-- one are the first messages of the log, in order: none is left out, repeated or invented.
pub streamed_prefix :
    {s : Stream} → Reach s → s.stale ≡ false → s.sent ≡ take (length s.sent) s.msgs
streamed_prefix {s} r clean = elim (Reach-Inv r) [
  | inl old ↦ absurd (cc)
  | inr h ↦ take-length_append s.next s.sent s.batch s.msgs h.passed
]

-- In every reachable state a stream that waits can wake, for an appended message or a reset, or it has
-- sent the whole log since the last reset.
pub streamed_complete :
    {s : Stream}
    → Reach s
    → s.phase ≡ waiting
    → (s.stale ≡ true) ⊎ (s.added ≡ true) ⊎ (s.sent ≡ s.msgs)
streamed_complete {s} r p = elim (Reach-Inv r) [
  | inl old ↦ inl old
  | inr h ↦
      let f : Fresh s waiting = subst (Fresh s) p h.fresh in
      elim f.1 [
        | inl woken ↦ inr (inl woken)
        | inr last ↦ inr (
            inr (
              sym (append-nil _)
              ∙ ap (λ k. s.sent ++ k) (sym f.0)
              ∙ h.passed
              ∙ ap (λ k. take k s.msgs) last
              ∙ take-length s.msgs))
      ]
]
