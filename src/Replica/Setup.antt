-- ===== src/Replica/Setup.antt =====
-- core/replica.go, New, and core/message-handling.go, defaultMessageHandlers: the sizes of the
-- certificates. The numbers of replicas and of faults are `uint32`.
pub mod Tests
use minbft.Base.{
  ℕ, ◌+◌, ◌-◌, ◌*◌, ◌%◌, ◌^◌, ◌≤◌, ◌<◌, ◌≡◌, ◌⊎◌, refl, inl, inr, sym, ap, subst, ◌∙◌, true, false,
  List, [], ◌∷◌, arith, ltb, if◌then◌else◌, All, Bool-cases,
}
use minbft.Base.Result.{Result, ok, err, ok-injective, not_enough_replicas}
use minbft.Messages.{ViewChange}
use minbft.Messages.Vc
use minbft.Commitment.{Commitment, new_collector, collect, run}
use minbft.Commitment.Support.{IsValid}
use minbft.Commitment.History.{history, committed, Agrees}
use minbft.ViewChange.{vc_key, keys, validate_nv_cert}
use minbft.ViewChange.Cert.{has_replica}
use minbft.ViewChange.Intersect.{committed_intersect}
use minbft.Replica.{Config}

-- `x - y` on two `uint32`
abbrev pub sub32 : ℕ → ℕ → ℕ
sub32 x y = (x + (2 ^ 32 - y)) % 2 ^ 32

unfoldable pub commit_size : (n f : ℕ) → ℕ
commit_size n f = sub32 n f

unfoldable pub vc_size : (n f : ℕ) → ℕ
unfolding commit_size
vc_size n f = (sub32 n (commit_size n f) + 1) % 2 ^ 32

-- The check of `config.N()` and `config.F()` at the beginning of New, and the configuration that the
-- handlers get, with the rest of it in `stack`. New itself is in Streams/Started.
unfoldable pub new_config : (stack : Config) → (n f : ℕ) → Result Config
unfolding vc_size
new_config stack n f =
    if ltb n ((2 * f + 1) % 2 ^ 32)
    then err not_enough_replicas
    else ok (record stack { n = n; commit_cert_size = commit_size n f; vc_cert_size = vc_size n f })

-- For numbers within their types and less than 2^31 faults, the check of the numbers fails exactly if
-- there are fewer than 2f + 1 replicas. Otherwise the replicas that are not faulty are enough for each kind of
-- certificate, faulty ones alone for none, and a commit certificate and a view-change certificate have
-- together one more than all the replicas, so that they share one.
pub new_config_sizes :
    (stack : Config) (n f : ℕ)
    → n < 2 ^ 32
    → f < 2 ^ 31
    → ((n < 2 * f + 1) × (new_config stack n f ≡ err not_enough_replicas))
      ⊎ ((2 * f + 1 ≤ n)
          × ((c : Config) × (new_config stack n f ≡ ok c)
              × (c.n ≡ n)
              × (c.commit_cert_size + f ≡ n)
              × (f < c.commit_cert_size)
              × (f < c.vc_cert_size)
              × (c.vc_cert_size + f ≤ n)
              × (c.commit_cert_size + c.vc_cert_size ≡ n + 1)))
unfolding new_config vc_size commit_size
new_config_sizes stack n f hn hf = elim (Bool-cases (ltb n ((2 * f + 1) % 2 ^ 32))) [
  | inl few ↦ inl (ground (arith, few), rw few refl)
  | inr enough ↦ inr (
    ground (arith, enough),
    (
      record stack { n = n; commit_cert_size = commit_size n f; vc_cert_size = vc_size n f },
      rw enough refl,
      refl,
      ground (arith, enough),
      ground (arith, enough),
      ground (arith, enough),
      ground (arith, enough),
      ground (arith, enough),
    ),
  )
]

-- The sizes of a configuration that New makes.
sizes :
    (stack c : Config) (n f : ℕ)
    → n < 2 ^ 32
    → f < 2 ^ 31
    → new_config stack n f ≡ ok c
    → (c.n ≡ n) × (1 ≤ c.commit_cert_size) × (c.vc_cert_size ≡ n - c.commit_cert_size + 1)
sizes stack c n f hn hf made = elim (new_config_sizes stack n f hn hf) [
  | inl (few, e) ↦ absurd (cc)
  | inr (enough, (d, e, replicas, commit, more, most, rest, both)) ↦
      let same : d ≡ c = ok-injective (sym e ∙ made) in
      rw (← same) (replicas, omega (arith, more), omega (arith, both, commit))
]

-- Let New accept the numbers of replicas and of faults, which is less than 2^31, and let every view have
-- a single NewView and the first one none. If the collector of a replica reports a proposal as
-- committed, then every new-view certificate, of replicas in range, that a replica's validator accepts
-- has a ViewChange message of a replica whose commitment to that proposal was accepted.
pub new_config-committed_intersect :
    (stack cfg : Config) (n f : ℕ) (base : ℕ → ℕ) (primary target : ℕ) (cs : List Commitment)
    (c : Commitment) (cert : List ViewChange)
    → n < 2 ^ 32
    → f < 2 ^ 31
    → new_config stack n f ≡ ok cfg
    → base 0 ≡ 0
    → All (IsValid cfg.n) cs
    → IsValid cfg.n c
    → All (Agrees base) cs
    → Agrees base c
    → (collect (run (new_collector cfg.commit_cert_size) cs) c).1 ≡ ok true
    → All (λ vc. Vc.replica_id vc < cfg.n) cert
    → validate_nv_cert cfg.vc_cert_size primary target cert ≡ ok tt
    → (r : ℕ) × (r < cfg.n)
      × (committed (c ∷ history (new_collector cfg.commit_cert_size) [] cs) c.view c.primary_cv r
          ≡ true)
      × (has_replica r (keys vc_key cert) ≡ true)
new_config-committed_intersect stack cfg n f base primary target cs c cert hn hf made start vs v gs
      g e range valid =
    let (replicas, pos, size) = sizes stack cfg n f hn hf made in
    committed_intersect base cfg.n cfg.commit_cert_size primary target cs c cert pos start vs v gs g
      e range
      (subst (λ k. validate_nv_cert k primary target cert ≡ ok tt)
        (size ∙ ap (λ k. k - cfg.commit_cert_size + 1) (sym replicas)) valid)
