-- ===== src/Commitment/Decides.antt =====
-- The collector as a decision: a proposal is committed exactly when a quorum has committed to it.
use minbft.Base.{
  ℕ, ◌≢◌, ◌≤◌, ◌<◌, ◌≡◌, refl, sym, ap, ◌∙◌, inl, inr, Bool, true, false, ◌&&◌, List, [], ◌∷◌,
  arith, All, ltb, leb, Bool-cases, ltb→lt, ltb-false, count_below-congr, count_below-zero, ◌-◌,
}
use minbft.Base.Result.{ok-injective, Result, ok, err, panic}
use minbft.Commitment.{
  Acceptor, Commitment, Counter, Collector, new_collector, new_acceptor, collect, run,
  count_commitment, record_commitment, enter_view, raise, all_reached,
}
use minbft.Commitment.Highest.{num_ge-replicate}
use minbft.Commitment.Support.{supporters_other, supporters, Accepts, IsValid}
use minbft.Commitment.Invariant.{
  Inv, record_views, new-Inv, count-Inv, enter_view-Inv, enter_view_last,
}
use minbft.Commitment.Runs.{counted, collect_cases}
use minbft.Commitment.History.{history, extend, committers, Agrees, Remembers, record-Remembers}
use minbft.Commitment.Exact.{IsFull, enter_view-IsFull, raised_full, reached_exact}

count_late :
    (k : Counter) (c : Commitment)
    → ltb c.view k.last_view ≡ true
    → count_commitment k c.view c.primary_cv ≡ (k, false)
unfolding count_commitment
count_late k c late = rw late

count_now :
    (k : Counter) (c : Commitment)
    → ltb c.view k.last_view ≡ false
    → let t = enter_view k c.view in
      count_commitment k c.view c.primary_cv
      ≡ (record t { highest = raise t.highest c.primary_cv }, all_reached t.highest c.primary_cv)
unfolding count_commitment
count_now k c now = rw now

pub not_leb : (a b : ℕ) → ltb a b ≡ true → leb b a ≡ false
not_leb a b h = ground arith

pub is_leb : (a b : ℕ) → ltb a b ≡ false → leb b a ≡ true
is_leb a b h = ground arith

pub extend_refused :
    (r : Result Bool) (c : Commitment) (h : List Commitment)
    → ((b : Bool) → r ≢ ok b)
    → extend r c h ≡ h
extend_refused (ok b) c h ne = absurd (ne b refl)
extend_refused (err e) c h ne = refl
extend_refused panic c h ne = refl

-- The collector with the history of what it has accepted.
pub record Tracks (base : ℕ → ℕ) (n cert_size : ℕ) (s : Collector) (h : List Commitment)
    : Type 0 where
  pub inv : Inv n cert_size s.acceptor s.counter
  pub memory : Remembers base s.acceptor h
  pub full : IsFull base n cert_size s.acceptor s.counter

pub new-Tracks :
    (base : ℕ → ℕ) (n cert_size : ℕ)
    → 1 ≤ cert_size
    → base 0 ≡ 0
    → Tracks base n cert_size (new_collector cert_size) []
new-Tracks base n cert_size pos start = record {
  inv = new-Inv n cert_size pos;
  memory = record {
    fits = λ r. omega arith;
    starts = λ r. omega arith;
    covered = λ r x p l u. absurd (omega arith);
    past = λ r view x e. cc;
    last = λ r x e. cc;
  };
  full = λ x p l. omega (arith, num_ge-replicate x (cert_size - 1) p, nobody x p);
}
  where
    nobody : (x : ℕ) → 0 < x → supporters n new_acceptor 0 x ≡ 0
    nobody x p = count_below-zero n _ (λ r. ground arith)

-- In the counter's view, to support a proposal is to have committed to it.
supporters-committers :
    (base : ℕ → ℕ) (n : ℕ) (a : Acceptor) (h : List Commitment) (view x : ℕ)
    → Remembers base a h
    → ((r : ℕ) → a.replica_views r ≤ view)
    → 0 < x
    → base view ≤ x
    → supporters n a view x ≡ committers n h view x
supporters-committers base n a h view x m ahead pos low =
    count_below-congr n _ _
      (λ r _. ground (arith, ahead r, m.covered r x, m.past r view x, m.last r x))

module _ (base : ℕ → ℕ) (n cert_size : ℕ) (s : Collector) (h : List Commitment) (c : Commitment)
    (t : Tracks base n cert_size s h) (acc : Accepts s.acceptor c) (valid : IsValid n c)
    (agrees : Agrees base c) where
  counted-IsFull : IsFull base n cert_size (counted s c).acceptor (counted s c).counter
  counted-IsFull = elim (Bool-cases (ltb c.view s.counter.last_view)) [
    | inl late ↦ rw (count_late s.counter c late) (λ x pos low. omega (
      arith,
      t.full x pos low,
      supporters_other n s.acceptor c acc valid (t.inv.fits c.replica_id) s.counter.last_view x
          (ltb→lt _ _ late),
    ))
    | inr now ↦
        let same = enter_view_last s.counter c.view (ltb-false _ _ now) in
        rw (count_now s.counter c now) (λ x pos low. rw same (
          raised_full base n cert_size s.acceptor h (enter_view s.counter c.view) c
            (enter_view-Inv c.view t.inv) t.memory
            (enter_view-IsFull base n cert_size s.acceptor s.counter c.view t.inv t.full) acc valid
            agrees (sym same) x pos (rw (← same) low)))
  ]

  pub memory_after : Remembers base (record_commitment s.acceptor c) (c ∷ h)
  memory_after = record-Remembers base n s.acceptor h c t.memory acc valid agrees

  pub first_le : base c.view ≤ c.primary_cv
  first_le =
      ground
        (arith, agrees, t.memory.starts c.replica_id, t.memory.fits c.replica_id, valid.positive)

  pub counted-Tracks : Tracks base n cert_size (counted s c) (c ∷ h)
  counted-Tracks = record {
    inv = count-Inv n cert_size s.acceptor s.counter c t.inv acc valid;
    memory = memory_after;
    full = counted-IsFull;
  }

  done_now :
      ltb c.view s.counter.last_view ≡ false
      → all_reached (enter_view s.counter c.view).highest c.primary_cv
        ≡ leb cert_size (committers n (c ∷ h) c.view c.primary_cv)
  done_now now =
      let same = enter_view_last s.counter c.view (ltb-false _ _ now) in
      reached_exact base n cert_size s.acceptor h (enter_view s.counter c.view) c
        (enter_view-Inv c.view t.inv) t.memory
        (enter_view-IsFull base n cert_size s.acceptor s.counter c.view t.inv t.full) acc valid
        agrees (sym same)
      ∙ ap (leb cert_size) (
          supporters-committers base n (record_commitment s.acceptor c) (c ∷ h) c.view c.primary_cv
            memory_after
            (λ r.
              record_views n cert_size s.acceptor s.counter c t.inv acc valid c.view r
                (ltb-false _ _ now) (omega arith))
            valid.positive first_le)

  pub done_exact :
      (count_commitment s.counter c.view c.primary_cv).1
      ≡ (leb s.counter.last_view c.view && leb cert_size (committers n (c ∷ h) c.view c.primary_cv))
  done_exact = elim (Bool-cases (ltb c.view s.counter.last_view)) [
    | inl late ↦ rw (count_late s.counter c late, not_leb c.view s.counter.last_view late) refl
    | inr now ↦ rw (count_now s.counter c now, is_leb c.view s.counter.last_view now) (done_now now)
  ]

pub collect-Tracks :
    (base : ℕ → ℕ) (n cert_size : ℕ) (s : Collector) (h : List Commitment) (c : Commitment)
    → Tracks base n cert_size s h
    → IsValid n c
    → Agrees base c
    → Tracks base n cert_size (collect s c).0 (extend (collect s c).1 c h)
collect-Tracks base n cert_size s h c t valid agrees = elim (collect_cases s c) [
  | inl (acc, same, done) ↦
      rw (same, done) (counted-Tracks base n cert_size s h c t acc valid agrees)
  | inr (refused, same) ↦ rw (same, extend_refused _ c h refused) t
]

pub run-Tracks :
    (base : ℕ → ℕ) (n cert_size : ℕ) (s : Collector) (h cs : List Commitment)
    → Tracks base n cert_size s h
    → All (IsValid n) cs
    → All (Agrees base) cs
    → Tracks base n cert_size (run s cs) (history s h cs)
unfolding run history
run-Tracks base n cert_size s h [] t valid agrees = t
run-Tracks base n cert_size s h (c ∷ cs) t valid agrees =
    run-Tracks base n cert_size (collect s c).0 (extend (collect s c).1 c h) cs
      (collect-Tracks base n cert_size s h c t valid.0 agrees.0) valid.1 agrees.1

-- Let every view have a single NewView, the first one none, and let the commitments be those of valid
-- messages. When the collector accepts a commitment, it reports the proposal as committed exactly if
-- the counter has not entered a later view and at least `cert_size` different replicas, the sender
-- included, have an accepted commitment to that proposal in the history.
pub collect_decides :
    (base : ℕ → ℕ) (n cert_size : ℕ) (cs : List Commitment) (c : Commitment) (done : Bool)
    → 1 ≤ cert_size
    → base 0 ≡ 0
    → All (IsValid n) cs
    → IsValid n c
    → All (Agrees base) cs
    → Agrees base c
    → (collect (run (new_collector cert_size) cs) c).1 ≡ ok done
    → done ≡ (
        leb (run (new_collector cert_size) cs).counter.last_view c.view
        && leb cert_size
            (committers n (c ∷ history (new_collector cert_size) [] cs) c.view c.primary_cv))
collect_decides base n cert_size cs c done pos start valid_cs valid agrees_cs agrees e =
    let s = run (new_collector cert_size) cs in
    let h = history (new_collector cert_size) [] cs in
    let t : Tracks base n cert_size s h =
      run-Tracks base n cert_size (new_collector cert_size) [] cs
        (new-Tracks base n cert_size pos start) valid_cs agrees_cs in
    elim (collect_cases s c) [
      | inl (acc, _, eq) ↦
          ok-injective (sym e ∙ eq) ∙ done_exact base n cert_size s h c t acc valid agrees
      | inr (refused, _) ↦ absurd (refused done e)
    ]
