-- ===== src/Commitment/Exact.antt =====
-- The array `highest` says exactly how many replicas support a proposal, up to the quorum.
use minbft.Base.{
  ℕ, ◌+◌, ◌-◌, ◌≤◌, ◌<◌, ◌≡◌, inl, inr, true, false, List, arith, length, ltb, leb, Bool-cases,
  ltb→lt, count_below-congr, count_below-zero,
}
use Prim.Native.Nat.{min}
use native.Mathlib.Decide.{dec_le, dec_lt}
use minbft.Commitment.{
  Acceptor, Commitment, Counter, record_commitment, enter_view, raise, all_reached,
}
use minbft.Commitment.Highest.{
  num_ge, num_ge-replicate, num_ge-raise_above, num_ge-raise_same, num_ge_anti, num_ge-le-length,
  num_ge_reached, num_ge_open, raise_reached,
}
use minbft.Commitment.Support.{
  supporters, Accepts, IsValid, supporters_anti, supporters-record, supporters_above,
}
use minbft.Commitment.Invariant.{Inv}
use minbft.Commitment.History.{Agrees, Remembers}

-- From the first proposal of the view on, the entries that reach a counter are as many as the
-- replicas that support it, or as many as there are entries.
abbrev pub IsFull : (ℕ → ℕ) → ℕ → ℕ → Acceptor → Counter → Type 0
IsFull base n cert_size a k =
    (x : ℕ)
    → 0 < x
    → base k.last_view ≤ x
    → num_ge x k.highest ≡ min (cert_size - 1) (supporters n a k.last_view x)

supporters_ahead :
    (n : ℕ) (a : Acceptor) (view x : ℕ)
    → ((r : ℕ) → a.replica_views r < view)
    → supporters n a view x ≡ 0
supporters_ahead n a view x h = count_below-zero n _ (λ r. ground (arith, h r))

pub enter_view-IsFull :
    (base : ℕ → ℕ) (n cert_size : ℕ) (a : Acceptor) (k : Counter) (view : ℕ)
    → Inv n cert_size a k
    → IsFull base n cert_size a k
    → IsFull base n cert_size a (enter_view k view)
unfolding enter_view
enter_view-IsFull base n cert_size a k view inv full x pos low =
    elim (Bool-cases (ltb k.last_view view)) [
      | inl later ↦ rw later (
          omega (
            arith,
            num_ge-replicate x (length k.highest) pos,
            supporters_ahead n a view x (λ r. ground (arith, inv.views r, ltb→lt _ _ later)),
          ))
      | inr same ↦ rw same (full x pos (ground arith))
    ]

module _ (base : ℕ → ℕ) (n cert_size : ℕ) (a : Acceptor) (h : List Commitment) (k : Counter)
    (c : Commitment) (inv : Inv n cert_size a k) (m : Remembers base a h)
    (full : IsFull base n cert_size a k) (acc : Accepts a c) (valid : IsValid n c)
    (agrees : Agrees base c) (here : c.view ≡ k.last_view) where
  abbrev pub after : Acceptor
  after = record_commitment a c

  -- The proposal is not before the first one of its view.
  from_base : base c.view ≤ c.primary_cv
  from_base = ground (arith, agrees, m.starts c.replica_id, m.fits c.replica_id, valid.positive)

  full_at : num_ge c.primary_cv k.highest ≡ min (cert_size - 1) (supporters n a c.view c.primary_cv)
  full_at = rw here (full c.primary_cv valid.positive (rw (← here) from_base))

  -- Below the new commitment the replica was a supporter already.
  supporters_below :
      (x : ℕ)
      → 0 < x
      → base c.view ≤ x
      → x < c.primary_cv
      → supporters n after c.view x ≡ supporters n a c.view x
  unfolding record_commitment
  supporters_below x pos low l =
      count_below-congr n _ _ (λ r _. ground (arith, agrees, m.fits c.replica_id, m.fits r))

  gained : supporters n after c.view c.primary_cv ≡ supporters n a c.view c.primary_cv + 1
  gained = supporters-record n a c acc valid (inv.fits c.replica_id)

  full_here :
      (x : ℕ)
      → 0 < x
      → base c.view ≤ x
      → num_ge x k.highest ≡ min (cert_size - 1) (supporters n a c.view x)
  full_here x pos low = rw here (full x pos (rw (← here) low))

  raised_reached :
      (x : ℕ)
      → 0 < x
      → base c.view ≤ x
      → all_reached k.highest c.primary_cv ≡ true
      → num_ge x k.highest ≡ min (cert_size - 1) (supporters n after c.view x)
  raised_reached x pos low e = elim (dec_le x c.primary_cv) [
    | yes l ↦ omega (
      arith,
      inv.size,
      num_ge_reached k.highest c.primary_cv e,
      num_ge_anti x c.primary_cv k.highest l,
      num_ge-le-length x k.highest,
      full_at,
      gained,
      supporters_anti n after c.view x c.primary_cv l,
    )
    | no l ↦ omega (
      arith,
      full_here x pos low,
      supporters_above n a c acc valid (inv.fits c.replica_id) x (omega arith),
    )
  ]

  raised_open :
      (x : ℕ)
      → 0 < x
      → base c.view ≤ x
      → all_reached k.highest c.primary_cv ≡ false
      → num_ge x (raise k.highest c.primary_cv) ≡ min (cert_size - 1) (supporters n after c.view x)
  raised_open x pos low e =
      let (room, more) = num_ge_open k.highest c.primary_cv inv.sorted.0 inv.sorted.1 e in
      elim (dec_lt x c.primary_cv) [
        | yes l ↦
            let more_support : supporters n a c.view c.primary_cv + 1 ≤ supporters n a c.view x =
              omega (
                arith,
                gained,
                supporters_anti n after c.view x c.primary_cv (omega arith),
                supporters_below x pos low l,
              ) in
            omega (
              arith,
              inv.size,
              full_at,
              full_here x pos low,
              supporters_below x pos low l,
              num_ge-raise_same k.highest c.primary_cv x inv.sorted.0 inv.sorted.1 (omega arith)
                  (omega (arith, inv.size, full_at, full_here x pos low, more_support, room)),
            )
        | no l ↦ elim (dec_lt c.primary_cv x) [
          | yes above ↦ omega (
            arith,
            full_here x pos low,
            num_ge-raise_above k.highest c.primary_cv x above,
            supporters_above n a c acc valid (inv.fits c.replica_id) x above,
          )
          | no same ↦
              let e : x ≡ c.primary_cv = omega arith in
              rw e (omega (arith, inv.size, full_at, gained, room, more))
        ]
      ]

  pub raised_full :
      (x : ℕ)
      → 0 < x
      → base c.view ≤ x
      → num_ge x (raise k.highest c.primary_cv) ≡ min (cert_size - 1) (supporters n after c.view x)
  raised_full x pos low = elim (Bool-cases (all_reached k.highest c.primary_cv)) [
    | inl e ↦ rw (raise_reached k.highest c.primary_cv e) (raised_reached x pos low e)
    | inr e ↦ raised_open x pos low e
  ]

  -- The quorum is reached exactly when the support is that of `cert_size` replicas.
  pub reached_exact :
      all_reached k.highest c.primary_cv ≡ leb cert_size (supporters n after c.view c.primary_cv)
  reached_exact = elim (Bool-cases (all_reached k.highest c.primary_cv)) [
    | inl e ↦
        ground
          (arith, inv.size, inv.some_size, full_at, gained, num_ge_reached k.highest c.primary_cv e)
    | inr e ↦ ground (
      arith,
      inv.size,
      full_at,
      gained,
      num_ge_open k.highest c.primary_cv inv.sorted.0 inv.sorted.1 e,
    )
  ]
