-- ===== src/Commitment/Invariant.antt =====
-- What the collector's array `highest` says about the replicas, kept by every commitment.
use minbft.Base.{
  true, ℕ, ◌+◌, ◌-◌, ◌≤◌, ◌<◌, ◌≡◌, ap, inl, inr, true, arith, length, ltb, u64_mod,
  length-replicate, Bool-cases, sym, ltb→lt, ltb-false,
}
use native.Mathlib.Decide.{dec_le}
use minbft.Commitment.{
  Acceptor, Commitment, Counter, record_commitment, raise, all_reached, count_commitment,
  enter_view, new_collector,
}
use minbft.Commitment.Highest.{
  num_ge, Descends, Descends-mono, Descends-replicate, raise-Descends, length-raise,
  num_ge-replicate, num_ge-raise_above, num_ge-raise_le, num_ge_reached,
}
use minbft.Commitment.Support.{
  supporters, Accepts, IsValid, supporters_anti, supporters-record, supporters_grow,
  supporters_above, supporters_other,
}

-- The collector of a replica that needs `cert_size` commitments from `n` replicas.
pub record Inv (n cert_size : ℕ) (a : Acceptor) (k : Counter) : Type 0 where
  pub some_size : 1 ≤ cert_size
  pub size : length k.highest ≡ cert_size - 1
  pub views : (r : ℕ) → a.replica_views r ≤ k.last_view
  pub fits : (r : ℕ) → a.last_primary_cvs r < u64_mod
  pub sorted : (top : ℕ) × Descends top k.highest
  pub dominated : (x : ℕ) → 0 < x → num_ge x k.highest ≤ supporters n a k.last_view x

pub new-Inv :
    (n cert_size : ℕ)
    → 1 ≤ cert_size
    → Inv n cert_size (new_collector cert_size).acceptor (new_collector cert_size).counter
new-Inv n cert_size h = record {
  some_size = h;
  size = length-replicate (cert_size - 1) 0;
  views = λ r. omega arith;
  fits = λ r. omega arith;
  sorted = (0, Descends-replicate _ 0);
  dominated = λ x l. omega (arith, num_ge-replicate x (cert_size - 1) l);
}

-- A later view starts with an array of zeros.
pub enter_view-Inv :
    {n cert_size : ℕ} {a : Acceptor} {k : Counter} (view : ℕ)
    → Inv n cert_size a k
    → Inv n cert_size a (enter_view k view)
unfolding enter_view
enter_view-Inv {k} view inv = elim (Bool-cases (ltb k.last_view view)) [
  | inl later ↦ rw later (record {
    some_size = inv.some_size;
    size = omega (arith, inv.size, length-replicate {A = ℕ} (length k.highest) 0);
    views = λ r. ground (arith, inv.views r);
    fits = inv.fits;
    sorted = (0, Descends-replicate _ 0);
    dominated = λ x l. omega (arith, num_ge-replicate x (length k.highest) l);
  })
  | inr same ↦ rw same inv
]

pub enter_view_last :
    (k : Counter) (view : ℕ) → k.last_view ≤ view → (enter_view k view).last_view ≡ view
unfolding enter_view
enter_view_last k view h = ground arith

module _ (n cert_size : ℕ) (a : Acceptor) (k : Counter) (c : Commitment) (inv : Inv n cert_size a k)
    (acc : Accepts a c) (valid : IsValid n c) where
  -- In the counter's own view: one more supporter makes up for one more entry.
  dominated_raised :
      (x : ℕ)
      → c.view ≡ k.last_view
      → 0 < x
      → num_ge x (raise k.highest c.primary_cv) ≤ supporters n (record_commitment a c) c.view x
  dominated_raised x here pos = elim (dec_le x c.primary_cv) [
    | yes low ↦ omega (
      arith,
      num_ge-raise_le k.highest c.primary_cv x inv.sorted.0 inv.sorted.1 low,
      inv.dominated x pos,
      inv.dominated c.primary_cv valid.positive,
      supporters-record n a c acc valid (inv.fits c.replica_id),
      supporters_grow n a c acc valid (inv.fits c.replica_id) x,
      supporters_anti n (record_commitment a c) c.view x c.primary_cv low,
      ap (λ v. supporters n a v x) here,
      ap (λ v. supporters n a v c.primary_cv) here,
    )
    | no high ↦ omega (
      arith,
      num_ge-raise_above k.highest c.primary_cv x (omega arith),
      inv.dominated x pos,
      supporters_above n a c acc valid (inv.fits c.replica_id) x (omega arith),
      ap (λ v. supporters n a v x) here,
    )
  ]

  record_fits : (r : ℕ) → (record_commitment a c).last_primary_cvs r < u64_mod
  unfolding record_commitment
  record_fits r = ground (arith, inv.fits r, valid.bounded)

  pub record_views :
      (v r : ℕ) → k.last_view ≤ v → c.view ≤ v → (record_commitment a c).replica_views r ≤ v
  unfolding record_commitment
  record_views v r h l = ground (arith, inv.views r)

  raised-Inv :
      c.view ≡ k.last_view
      → Inv n cert_size
          (record_commitment a c)
          (record k { highest = raise k.highest c.primary_cv })
  raised-Inv here = record {
    some_size = inv.some_size;
    size = omega (arith, inv.size, length-raise k.highest c.primary_cv);
    views = λ r. record_views k.last_view r (omega arith) (omega arith);
    fits = record_fits;
    sorted = (
      inv.sorted.0 + c.primary_cv,
      raise-Descends k.highest c.primary_cv _ (omega arith)
          (Descends-mono k.highest (omega arith) inv.sorted.1),
    );
    dominated = λ x pos. omega (
      arith,
      dominated_raised x here pos,
      ap (λ v. supporters n (record_commitment a c) v x) here,
    );
  }

  -- A commitment to an earlier view is not counted.
  late-Inv : c.view < k.last_view → Inv n cert_size (record_commitment a c) k
  late-Inv late = record {
    some_size = inv.some_size;
    size = inv.size;
    views = λ r. record_views k.last_view r (omega arith) (omega arith);
    fits = record_fits;
    sorted = inv.sorted;
    dominated = λ x pos. omega (
      arith,
      inv.dominated x pos,
      supporters_other n a c acc valid (inv.fits c.replica_id) k.last_view x late,
    );
  }

  -- A reported proposal has its quorum.
  reached_quorum :
      c.view ≡ k.last_view
      → all_reached k.highest c.primary_cv ≡ true
      → cert_size ≤ supporters n (record_commitment a c) c.view c.primary_cv
  reached_quorum here e = omega (
    arith,
    inv.some_size,
    inv.size,
    num_ge_reached k.highest c.primary_cv e,
    inv.dominated c.primary_cv valid.positive,
    supporters-record n a c acc valid (inv.fits c.replica_id),
    ap (λ v. supporters n a v c.primary_cv) here,
  )

-- Counting an accepted commitment keeps the invariant.
pub count-Inv :
    (n cert_size : ℕ) (a : Acceptor) (k : Counter) (c : Commitment)
    → Inv n cert_size a k
    → Accepts a c
    → IsValid n c
    → Inv n cert_size (record_commitment a c) (count_commitment k c.view c.primary_cv).0
unfolding count_commitment
count-Inv n cert_size a k c inv acc valid = elim (Bool-cases (ltb c.view k.last_view)) [
  | inl late ↦ rw late (late-Inv n cert_size a k c inv acc valid (ltb→lt _ _ late))
  | inr now ↦ rw now (
      raised-Inv n cert_size a (enter_view k c.view) c (enter_view-Inv c.view inv) acc valid
        (sym (enter_view_last k c.view (ltb-false _ _ now))))
]

pub count_done :
    (n cert_size : ℕ) (a : Acceptor) (k : Counter) (c : Commitment)
    → Inv n cert_size a k
    → Accepts a c
    → IsValid n c
    → (count_commitment k c.view c.primary_cv).1 ≡ true
    → cert_size ≤ supporters n (record_commitment a c) c.view c.primary_cv
unfolding count_commitment
count_done n cert_size a k c inv acc valid e = elim (Bool-cases (ltb c.view k.last_view)) [
  | inl late ↦ cc
  | inr now ↦
      reached_quorum n cert_size a (enter_view k c.view) c (enter_view-Inv c.view inv) acc valid
        (sym (enter_view_last k c.view (ltb-false _ _ now))) (ground arith)
]
