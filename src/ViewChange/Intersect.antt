-- ===== src/ViewChange/Intersect.antt =====
-- The quorums meet: a committed proposal and a valid new-view certificate share a replica.
use minbft.Base.{
  ℕ, ◌+◌, ◌-◌, ◌≤◌, ◌<◌, ◌≡◌, refl, ap, Bool, true, List, [], ◌∷◌, arith, length, bit, count_below,
  count_below-change, count_below-zero, pigeonhole, All,
}
use minbft.Base.Result.{ok}
use minbft.Messages.{ViewChange}
use minbft.Messages.Vc
use minbft.Commitment.{Commitment, collect, run, new_collector}
use minbft.Commitment.Support.{IsValid}
use minbft.Commitment.History.{history, committed, committers, Agrees}
use minbft.Commitment.Decides.{collect_decides}
use minbft.ViewChange.{vc_key, keys, validate_nv_cert}
use minbft.ViewChange.Cert.{Quorum, has_replica, no_one, validate_nv_cert_iff}

abbrev member : List (ℕ × ℕ) → ℕ → Bool
member l r = has_replica r l

-- Different replicas are counted once each.
count-length :
    (n target : ℕ) (l : List ViewChange)
    → All (λ vc. Vc.replica_id vc < n) l
    → Quorum target no_one (keys vc_key l)
    → count_below n (member (keys vc_key l)) ≡ length l
count-length n target [] b q = count_below-zero n _ (λ i. refl)
count-length n target (x ∷ l) b q = omega (
  arith,
  count-length n target l b.1 q.3,
  count_below-change n (member (keys vc_key l)) (member (keys vc_key (x ∷ l))) (Vc.replica_id x) b.0
      (λ i ne. ground arith),
  ap bit q.2,
  ap bit (self_member x l),
)
  where
    self_member :
        (x : ViewChange) (l : List ViewChange)
        → member (keys vc_key (x ∷ l)) (Vc.replica_id x) ≡ true
    self_member x l = ground arith

-- Let every view have a single NewView and the first one none. If among `n` replicas the collector
-- with commit certificates of `cert_size` reports a proposal as committed, then every new-view
-- certificate, of replicas in range, that is valid for the certificate size `n - cert_size + 1` has a
-- ViewChange message of a replica whose commitment to that proposal was accepted.
pub committed_intersect :
    (base : ℕ → ℕ) (n cert_size primary target : ℕ) (cs : List Commitment) (c : Commitment)
    (cert : List ViewChange)
    → 1 ≤ cert_size
    → base 0 ≡ 0
    → All (IsValid n) cs
    → IsValid n c
    → All (Agrees base) cs
    → Agrees base c
    → (collect (run (new_collector cert_size) cs) c).1 ≡ ok true
    → All (λ vc. Vc.replica_id vc < n) cert
    → validate_nv_cert (n - cert_size + 1) primary target cert ≡ ok tt
    → (r : ℕ) × (r < n)
      × (committed (c ∷ history (new_collector cert_size) [] cs) c.view c.primary_cv r ≡ true)
      × (has_replica r (keys vc_key cert) ≡ true)
committed_intersect base n cert_size primary target cs c cert pos start vs v gs g e range valid =
    let (size, quorum, _) =
      (validate_nv_cert_iff (n - cert_size + 1) primary target cert).0 valid in
    let h = c ∷ history (new_collector cert_size) [] cs in
    let decided = collect_decides base n cert_size cs c true pos start vs v gs g e in
    let enough : cert_size ≤ committers n h c.view c.primary_cv = ground (arith, decided) in
    pigeonhole n (committed h c.view c.primary_cv) (member (keys vc_key cert))
      (omega (arith, enough, size, count-length n target cert range quorum))
