-- ===== src/Commitment/History.antt =====
-- The accepted commitments of a run, and what the acceptor's maps remember of them.
use minbft.Base.{
  ℕ, ◌≤◌, ◌<◌, ◌≡◌, Bool, true, false, ◌&&◌, ◌||◌, List, [], ◌∷◌, arith, ◌==◌, u64_mod, count_below,
}
use minbft.Base.Result.{Result, ok, err, panic}
use minbft.Commitment.{Acceptor, Commitment, Collector, record_commitment, collect}
use minbft.Commitment.Support.{Accepts, IsValid}

-- The history grows by the commitments that are accepted, the newest first.
abbrev pub extend {ℓ} : {A : Type ℓ} → Result A → Commitment → List Commitment → List Commitment
extend (ok a) c h = c ∷ h
extend (err e) c h = h
extend panic c h = h

unfoldable pub history : Collector → List Commitment → List Commitment → List Commitment
history s h [] = h
history s h (c ∷ cs) = history (collect s c).0 (extend (collect s c).1 c h) cs

abbrev pub is_from : ℕ → ℕ → ℕ → Commitment → Bool
is_from view x r c = c.replica_id == r && c.view == view && c.primary_cv == x

-- Replica `r` has an accepted commitment to the proposal with counter `x` in `view`.
abbrev pub committed : List Commitment → ℕ → ℕ → ℕ → Bool
committed [] view x r = false
committed (c ∷ h) view x r = is_from view x r c || committed h view x r

-- How many replicas have one.
abbrev pub committers : ℕ → List Commitment → ℕ → ℕ → ℕ
committers n h view x = count_below n (committed h view x)

-- Every view has a single NewView, with counter `base view`; the first view starts with none.
abbrev pub Agrees : (ℕ → ℕ) → Commitment → Type 0
Agrees base c = c.is_new_view ≡ true → (0 < c.view) × (c.primary_cv ≡ base c.view)

-- In its current view a replica has committed to every proposal from the first one on up to its
-- last, and to nothing beyond; and to nothing in a view that lies ahead.
pub record Remembers (base : ℕ → ℕ) (a : Acceptor) (h : List Commitment) : Type 0 where
  pub fits : (r : ℕ) → a.last_primary_cvs r < u64_mod
  pub starts : (r : ℕ) → base (a.replica_views r) ≤ a.last_primary_cvs r
  pub covered :
      (r x : ℕ)
      → 0 < x
      → base (a.replica_views r) ≤ x
      → x ≤ a.last_primary_cvs r
      → committed h (a.replica_views r) x r ≡ true
  pub past : (r view x : ℕ) → committed h view x r ≡ true → view ≤ a.replica_views r
  pub last :
      (r x : ℕ)
      → committed h (a.replica_views r) x r ≡ true
      → (0 < x) × (base (a.replica_views r) ≤ x) × (x ≤ a.last_primary_cvs r)

module _ (base : ℕ → ℕ) (n : ℕ) (a : Acceptor) (h : List Commitment) (c : Commitment)
    (m : Remembers base a h) (acc : Accepts a c) (valid : IsValid n c)
    (agrees : Agrees base c) where
  pub record-Remembers : Remembers base (record_commitment a c) (c ∷ h)
  unfolding record_commitment
  record-Remembers = record {
    fits = λ r. ground (arith, m.fits r, valid.bounded);
    starts = λ r. ground (arith, m.starts r, m.fits r, agrees, valid.positive);
    covered =
        λ r x p l u. ground (arith, m.covered r x, m.starts r, m.fits r, agrees, valid.positive);
    past = λ r view x e. ground (arith, m.past r view x);
    last = λ r x e.
        ground (arith, m.past r c.view x, m.last r x, m.starts r, m.fits r, agrees, valid.positive);
  }
