-- ===== src/Commitment/Decisions.antt =====
-- The order in which the collector decides the proposals of a view.
use minbft.Base.{
  ℕ, zero, suc, ◌+◌, ◌-◌, ◌≤◌, ◌<◌, ◌≡◌, ◌≢◌, ap, Bool, true, false, ◌&&◌, ◌||◌, List, [], ◌∷◌,
  ◌++◌, arith, ltb, leb, ◌==◌, not, if◌then◌else◌, count_below-congr, count_below-zero,
  count_below_mono, subst,
}
use native.Mathlib.Decide.{dec_lt}
use minbft.Base.Result.{Result, ok, err, panic}
use minbft.Commitment.{Commitment, Collector, collect, record_commitment, count_commitment}
use minbft.Commitment.Support.{Accepts, IsValid}
use minbft.Commitment.Invariant.{record_views}
use minbft.Commitment.History.{committed, committers, Agrees}
use minbft.Commitment.Decides.{Tracks, memory_after, first_le}

abbrev pub elem : ℕ → List ℕ → Bool
elem x [] = false
elem x (y ∷ l) = x == y || elem x l

-- A report of a proposal of `view` is noted when it is the first one.
abbrev pub note : ℕ → Commitment → Result Bool → List ℕ → List ℕ
note view c (ok true) d =
    if c.view == view && not (elem c.primary_cv d) then d ++ c.primary_cv ∷ [] else d
note view c (ok false) d = d
note view c (err e) d = d
note view c panic d = d

-- The counters of the proposals of `view` that a run reports, in the order of the first reports.
unfoldable pub decided : ℕ → Collector → List ℕ → List Commitment → List ℕ
decided view s d [] = d
decided view s d (c ∷ cs) = decided view (collect s c).0 (note view c (collect s c).1 d) cs

-- `k` numbers from `b` on.
unfoldable pub count_up : ℕ → ℕ → List ℕ
count_up b zero = []
count_up b (suc k) = count_up b k ++ (b + k) ∷ []

-- The counter of a view's first proposal: its NewView, or in the first view the first message.
abbrev pub first_cv : (ℕ → ℕ) → ℕ → ℕ
first_cv base view = if base view == 0 then 1 else base view

elem-append : (x y : ℕ) (l : List ℕ) → elem x (l ++ y ∷ []) ≡ (elem x l || x == y)
elem-append x y [] = ground arith
elem-append x y (z ∷ l) = ground (arith, elem-append x y l)

pub elem-count_up : (x b k : ℕ) → elem x (count_up b k) ≡ (leb b x && ltb x (b + k))
unfolding count_up
elem-count_up x b zero = ground arith
elem-count_up x b (suc k) =
    ground (arith, elem-append x (b + k) (count_up b k), elem-count_up x b k)

-- What was decided in `view` is an interval from the first proposal on, and a quorum for a proposal
-- of the counter's view has put it into the interval.
pub record InOrder (base : ℕ → ℕ) (n cert_size view : ℕ) (s : Collector) (h : List Commitment)
    (d : List ℕ) : Type 0 where
  pub size : ℕ
  pub row : d ≡ count_up (first_cv base view) size
  pub ahead : s.counter.last_view < view → size ≡ 0
  pub reached :
      s.counter.last_view ≡ view
      → (x : ℕ) → first_cv base view ≤ x
      → cert_size ≤ committers n h view x
      → x < first_cv base view + size

pub last_view-count :
    (k : minbft.Commitment.Counter) (view x : ℕ)
    → (count_commitment k view x).0.last_view ≡ (if ltb view k.last_view then k.last_view else view)
unfolding count_commitment
last_view-count k view x = ground arith

pub committers_other :
    (n : ℕ) (c : Commitment) (h : List Commitment) (view x : ℕ)
    → (c.view == view && c.primary_cv == x) ≡ false
    → committers n (c ∷ h) view x ≡ committers n h view x
committers_other n c h view x e = count_below-congr n _ _ (λ r _. ground arith)

module _ (base : ℕ → ℕ) (n cert_size : ℕ) (s : Collector) (h : List Commitment) (c : Commitment)
    (t : Tracks base n cert_size s h) (acc : Accepts s.acceptor c) (valid : IsValid n c)
    (agrees : Agrees base c) where
  -- Who has committed to a proposal of the view has committed to the one before it.
  committers_before :
      (x : ℕ)
      → s.counter.last_view ≤ c.view
      → first_cv base c.view ≤ x
      → committers n (c ∷ h) c.view (x + 1) ≤ committers n (c ∷ h) c.view x
  committers_before x now low = count_below_mono n _ _ (λ r e. before r e)
    where
      before :
          (r : ℕ) → committed (c ∷ h) c.view (x + 1) r ≡ true → committed (c ∷ h) c.view x r ≡ true
      before r e =
          let m = memory_after base n cert_size s h c t acc valid agrees in
          let past = m.past r c.view (x + 1) e in
          let top =
            record_views n cert_size s.acceptor s.counter c t.inv acc valid c.view r now
              (omega arith) in
          let here : (record_commitment s.acceptor c).replica_views r ≡ c.view = omega arith in
          let last = m.last r (x + 1) (rw here e) in
          let cover = m.covered r x (ground arith) (rw here (ground arith)) (omega arith) in
          subst (λ v. committed (c ∷ h) v x r ≡ true) here cover

  pub from_first : first_cv base c.view ≤ c.primary_cv
  from_first = ground (arith, first_le base n cert_size s h c t acc valid agrees, valid.positive)

  module _ (d : List ℕ) (o : InOrder base n cert_size c.view s h d)
      (now : s.counter.last_view ≤ c.view) where
    -- Before this commitment: a view that lies ahead has no commitments yet.
    known :
        (x : ℕ)
        → first_cv base c.view ≤ x
        → cert_size ≤ committers n h c.view x
        → x < first_cv base c.view + o.size
    known x low q = elim (dec_lt s.counter.last_view c.view) [
      | yes later ↦
          let none_yet : committers n h c.view x ≡ 0 =
            count_below-zero n _ (λ r. ground (arith, t.memory.past r c.view x, t.inv.views r)) in
          absurd (omega (arith, none_yet, t.inv.some_size))
      | no same ↦ o.reached (omega arith) x low q
    ]

    -- With this commitment only its own proposal is gained.
    pub known_after :
        (x : ℕ)
        → x ≢ c.primary_cv
        → first_cv base c.view ≤ x
        → cert_size ≤ committers n (c ∷ h) c.view x
        → x < first_cv base c.view + o.size
    known_after x ne low q =
        known x low (omega (arith, committers_other n c h c.view x (ground arith)))

    -- A new decision is the next one.
    pub next_decided :
        cert_size ≤ committers n (c ∷ h) c.view c.primary_cv
        → c.primary_cv ≤ first_cv base c.view + o.size
    next_decided q = elim (dec_lt (first_cv base c.view + o.size) c.primary_cv) [
      | yes gap ↦
          let x = first_cv base c.view + o.size in
          let back = committers_before (c.primary_cv - 1) now (omega arith) in
          let e : c.primary_cv - 1 + 1 ≡ c.primary_cv = omega arith in
          absurd (
            omega (
              arith,
              known_after (c.primary_cv - 1) (λ same. omega arith) (omega arith)
                  (omega (arith, back, ap (committers n (c ∷ h) c.view) e)),
            ))
      | no close ↦ omega arith
    ]
