-- ===== src/Commitment/Advance.antt =====
-- What a call of the collector adds to the decisions of a view.
use minbft.Base.{
  ℕ, suc, ◌+◌, ◌≤◌, ◌<◌, ◌≡◌, ◌≢◌, refl, sym, ap, ◌∙◌, inl, inr, Bool, true, false, List, [], ◌∷◌,
  ◌++◌, arith, All, ltb, leb, ◌==◌, Bool-cases, ==_refl, ltb→lt, ltb-false, leb→le, ==_iff, subst,
}
use native.Mathlib.Decide.{ℕ_discrete}
use minbft.Base.Result.{Result, ok, err, panic}
use minbft.Commitment.{Commitment, Collector, collect, count_commitment}
use minbft.Commitment.Support.{Accepts, IsValid}
use minbft.Commitment.Runs.{counted, collect_cases}
use minbft.Commitment.History.{extend, committers, Agrees}
use minbft.Commitment.Decides.{Tracks, collect-Tracks, done_exact, extend_refused, not_leb, is_leb}
use minbft.Commitment.Decisions.{
  elem, note, decided, count_up, first_cv, InOrder, elem-count_up, last_view-count,
  committers_other, from_first, known_after, next_decided,
}

module _ (base : ℕ → ℕ) (n cert_size : ℕ) (s : Collector) (h : List Commitment) (c : Commitment)
    (t : Tracks base n cert_size s h) (acc : Accepts s.acceptor c) (valid : IsValid n c)
    (agrees : Agrees base c) where
  -- A commitment to another view decides nothing in this one.
  other-InOrder :
      (view : ℕ) (d : List ℕ)
      → (c.view == view) ≡ false
      → InOrder base n cert_size view s h d
      → InOrder base n cert_size view (counted s c) (c ∷ h) d
  other-InOrder view d ne o = record {
    size = o.size;
    row = o.row;
    ahead = λ l. o.ahead (ground (arith, last_view-count s.counter c.view c.primary_cv));
    reached = λ e x low q.
        o.reached (ground (arith, last_view-count s.counter c.view c.primary_cv)) x low
          (omega (arith, committers_other n c h view x (ground arith)));
  }

  module _ (d : List ℕ) (o : InOrder base n cert_size c.view s h d) where
    -- A late commitment is not counted.
    late-InOrder :
        c.view < s.counter.last_view → InOrder base n cert_size c.view (counted s c) (c ∷ h) d
    late-InOrder late = record {
      size = o.size;
      row = o.row;
      ahead = λ l. absurd (ground (arith, last_view-count s.counter c.view c.primary_cv));
      reached = λ e x low q. absurd (ground (arith, last_view-count s.counter c.view c.primary_cv));
    }

    module _ (now : s.counter.last_view ≤ c.view) where
      open_InOrder :
          (committers n (c ∷ h) c.view c.primary_cv < cert_size)
          → InOrder base n cert_size c.view (counted s c) (c ∷ h) d
      open_InOrder few = record {
        size = o.size;
        row = o.row;
        ahead = λ l. absurd (ground (arith, last_view-count s.counter c.view c.primary_cv));
        reached = λ e x low q.
            known_after base n cert_size s h c t acc valid agrees d o now x
              (λ same. omega (arith, ap (committers n (c ∷ h) c.view) same)) low q;
      }

      -- A repeated report decides nothing more.
      again-InOrder :
          c.primary_cv < first_cv base c.view + o.size
          → InOrder base n cert_size c.view (counted s c) (c ∷ h) d
      again-InOrder old = record {
        size = o.size;
        row = o.row;
        ahead = λ l. absurd (ground (arith, last_view-count s.counter c.view c.primary_cv));
        reached = λ e x low q. elim (ℕ_discrete x c.primary_cv) [
          | yes same ↦ rw same old
          | no ne ↦ known_after base n cert_size s h c t acc valid agrees d o now x ne low q
        ];
      }

      next-InOrder :
          c.primary_cv ≡ first_cv base c.view + o.size
          → InOrder base n cert_size c.view (counted s c) (c ∷ h) (d ++ c.primary_cv ∷ [])
      unfolding count_up
      next-InOrder fresh = record {
        size = suc o.size;
        row =
            ap (λ l. l ++ c.primary_cv ∷ []) o.row
            ∙ ap (λ x. count_up (first_cv base c.view) o.size ++ x ∷ []) fresh;
        ahead = λ l. absurd (ground (arith, last_view-count s.counter c.view c.primary_cv));
        reached = λ e x low q. elim (ℕ_discrete x c.primary_cv) [
          | yes same ↦ omega arith
          | no ne ↦
              omega
                (arith, known_after base n cert_size s h c t acc valid agrees d o now x ne low q)
        ];
      }

      is_decided : elem c.primary_cv d ≡ ltb c.primary_cv (first_cv base c.view + o.size)
      is_decided =
          ap (elem c.primary_cv) o.row
          ∙ elem-count_up c.primary_cv (first_cv base c.view) o.size
          ∙ ground (arith, from_first base n cert_size s h c t acc valid agrees)

      reported-InOrder :
          cert_size ≤ committers n (c ∷ h) c.view c.primary_cv
          → InOrder base n cert_size c.view (counted s c) (c ∷ h) (note c.view c (ok true) d)
      reported-InOrder q = elim (Bool-cases (ltb c.primary_cv (first_cv base c.view + o.size))) [
        | inl old ↦ rw (is_decided, old, ==_refl c.view) (again-InOrder (ltb→lt _ _ old))
        | inr new ↦
            rw (is_decided, new, ==_refl c.view)
              (next-InOrder (
                omega (
                  arith,
                  ltb-false _ _ new,
                  next_decided base n cert_size s h c t acc valid agrees d o now q,
                )))
      ]

    counted-InOrder :
        InOrder base n cert_size c.view
          (counted s c)
          (c ∷ h)
          (note c.view c (ok (count_commitment s.counter c.view c.primary_cv).1) d)
    counted-InOrder =
        let exact = done_exact base n cert_size s h c t acc valid agrees in
        elim (Bool-cases (ltb c.view s.counter.last_view)) [
          | inl late ↦ rw (exact, not_leb _ _ late) (late-InOrder (ltb→lt _ _ late))
          | inr now ↦
              let l = ltb-false _ _ now in
              elim (Bool-cases (leb cert_size (committers n (c ∷ h) c.view c.primary_cv))) [
                | inl q ↦ rw (exact, is_leb _ _ now, q) (reported-InOrder l (leb→le _ _ q))
                | inr few ↦ rw (exact, is_leb _ _ now, few) (open_InOrder l (ground arith))
              ]
        ]

note_other :
    (view : ℕ) (c : Commitment) (b : Bool) (d : List ℕ)
    → (c.view == view) ≡ false
    → note view c (ok b) d ≡ d
note_other view c true d e = rw e refl
note_other view c false d e = refl

note_refused :
    (view : ℕ) (c : Commitment) (r : Result Bool) (d : List ℕ)
    → ((b : Bool) → r ≢ ok b)
    → note view c r d ≡ d
note_refused view c (ok b) d ne = absurd (ne b refl)
note_refused view c (err e) d ne = refl
note_refused view c panic d ne = refl

collect-InOrder :
    (base : ℕ → ℕ) (n cert_size view : ℕ) (s : Collector) (h : List Commitment) (d : List ℕ)
    (c : Commitment)
    → Tracks base n cert_size s h
    → InOrder base n cert_size view s h d
    → IsValid n c
    → Agrees base c
    → InOrder base n cert_size view
        (collect s c).0
        (extend (collect s c).1 c h)
        (note view c (collect s c).1 d)
collect-InOrder base n cert_size view s h d c t o valid agrees = elim (collect_cases s c) [
  | inr (refused, same) ↦ rw (same, extend_refused _ c h refused, note_refused view c _ d refused) o
  | inl (acc, same, done) ↦ elim (Bool-cases (c.view == view)) [
    | inl here ↦ here_InOrder acc same done ((==_iff c.view view).0 here)
    | inr ne ↦
        rw (same, done, note_other view c _ d ne)
          (other-InOrder base n cert_size s h c t acc valid agrees view d ne o)
  ]
]
  where
    here_InOrder :
        Accepts s.acceptor c
        → (collect s c).0 ≡ counted s c
        → (collect s c).1 ≡ ok (count_commitment s.counter c.view c.primary_cv).1
        → c.view ≡ view
        → InOrder base n cert_size view
            (collect s c).0
            (extend (collect s c).1 c h)
            (note view c (collect s c).1 d)
    here_InOrder acc same done e =
        let before = subst (λ v. InOrder base n cert_size v s h d) (sym e) o in
        let after = counted-InOrder base n cert_size s h c t acc valid agrees d before in
        rw (same, done)
          (subst
            (λ v.
              InOrder base n cert_size v (counted s c) (c ∷ h)
                (note v c (ok (count_commitment s.counter c.view c.primary_cv).1) d))
            e after)

pub run-InOrder :
    (base : ℕ → ℕ) (n cert_size view : ℕ) (s : Collector) (h : List Commitment) (d : List ℕ)
    (cs : List Commitment)
    → Tracks base n cert_size s h
    → InOrder base n cert_size view s h d
    → All (IsValid n) cs
    → All (Agrees base) cs
    → (k : ℕ) × (decided view s d cs ≡ count_up (first_cv base view) k)
unfolding decided
run-InOrder base n cert_size view s h d [] t o valid agrees = (o.size, o.row)
run-InOrder base n cert_size view s h d (c ∷ cs) t o valid agrees =
    run-InOrder base n cert_size view (collect s c).0 (extend (collect s c).1 c h)
      (note view c (collect s c).1 d) cs (collect-Tracks base n cert_size s h c t valid.0 agrees.0)
      (collect-InOrder base n cert_size view s h d c t o valid.0 agrees.0) valid.1 agrees.1
