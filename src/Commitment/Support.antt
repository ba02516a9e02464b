-- ===== src/Commitment/Support.antt =====
-- Who stands behind a proposal: the replicas whose last accepted commitment, in the view of the
-- counter, reaches it; and what an accepted commitment changes of that.
use minbft.Base.{
  ℕ, ap, ◌+◌, ◌≤◌, ◌<◌, ◌≡◌, ◌⊎◌, ◌≢◌, Bool, true, false, ◌&&◌, arith, leb, ◌==◌, bit, count_below,
  count_below_mono, count_below-change, count_below-congr, inc64, u64_mod,
}
use minbft.Base.Result.{ok}
use minbft.Commitment.{Acceptor, Commitment, record_commitment, accept_commitment}

abbrev pub supports : Acceptor → ℕ → ℕ → ℕ → Bool
supports a view x r = (a.replica_views r == view) && leb x (a.last_primary_cvs r)

abbrev pub supporters : ℕ → Acceptor → ℕ → ℕ → ℕ
supporters n a view x = count_below n (supports a view x)

-- The tests of `acceptCommitment`, passed.
abbrev pub Accepts : Acceptor → Commitment → Type 0
Accepts a c =
    ((c.is_new_view ≡ true) × (a.replica_views c.replica_id < c.view))
    ⊎ ((c.is_new_view ≡ false)
        × (c.view ≡ a.replica_views c.replica_id)
        × (c.primary_cv ≡ inc64 (a.last_primary_cvs c.replica_id))
        × (c.replica_cv ≡ inc64 (a.last_replica_cvs c.replica_id)))

-- The identifier is in range and the counter is one that a verified UI may have.
pub record IsValid (n : ℕ) (c : Commitment) : Type 0 where
  pub in_range : c.replica_id < n
  pub positive : 0 < c.primary_cv
  pub bounded : c.primary_cv < u64_mod

pub accept_ok :
    (a : Acceptor) (c : Commitment) {b : Acceptor}
    → accept_commitment a c ≡ ok b
    → Accepts a c × (b ≡ record_commitment a c)
unfolding accept_commitment
accept_ok a c e = ground arith

pub accept-Accepts :
    (a : Acceptor) (c : Commitment)
    → Accepts a c
    → accept_commitment a c ≡ ok (record_commitment a c)
unfolding accept_commitment
accept-Accepts a c h = ground arith

pub supporters_anti :
    (n : ℕ) (a : Acceptor) (view x y : ℕ) → x ≤ y → supporters n a view y ≤ supporters n a view x
supporters_anti n a view x y l = count_below_mono n _ _ (λ i h. ground arith)

module _ (n : ℕ) (a : Acceptor) (c : Commitment) (acc : Accepts a c) (valid : IsValid n c)
    (fits : a.last_primary_cvs c.replica_id < u64_mod) where
  open valid use {in_range, positive, bounded}

  recorded_elsewhere :
      (view x i : ℕ)
      → i ≢ c.replica_id
      → supports a view x i ≡ supports (record_commitment a c) view x i
  unfolding record_commitment
  recorded_elsewhere view x i h = ground arith

  supports_before : supports a c.view c.primary_cv c.replica_id ≡ false
  supports_before = ground arith

  supports_after : supports (record_commitment a c) c.view c.primary_cv c.replica_id ≡ true
  unfolding record_commitment
  supports_after = ground arith

  pub supporters-record :
      supporters n (record_commitment a c) c.view c.primary_cv
      ≡ supporters n a c.view c.primary_cv + 1
  supporters-record = omega (
    arith,
    count_below-change n _ _ c.replica_id in_range (recorded_elsewhere c.view c.primary_cv),
    ap bit supports_before,
    ap bit supports_after,
  )

  -- Nobody stops supporting a proposal of that view.
  pub supporters_grow :
      (x : ℕ) → supporters n a c.view x ≤ supporters n (record_commitment a c) c.view x
  unfolding record_commitment
  supporters_grow x = count_below_mono n _ _ (λ i h. ground arith)

  -- Above the new commitment nobody is gained.
  pub supporters_above :
      (x : ℕ)
      → c.primary_cv < x
      → supporters n (record_commitment a c) c.view x ≡ supporters n a c.view x
  unfolding record_commitment
  supporters_above x l = count_below-congr n _ _ (λ i h. ground arith)

  -- Other views that lie above those of the replica are not touched.
  pub supporters_other :
      (view x : ℕ)
      → c.view < view
      → supporters n (record_commitment a c) view x ≡ supporters n a view x
  unfolding record_commitment
  supporters_other view x l = count_below-congr n _ _ (λ i h. ground arith)
