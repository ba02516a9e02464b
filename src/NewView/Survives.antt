-- ===== src/NewView/Survives.antt =====
-- core/commit.go and core/new-view.go together: a committed request survives the view change.
use minbft.Base.{
  ℕ, ◌+◌, ◌-◌, ◌≤◌, ◌<◌, ◌≡◌, inl, inr, true, List, [], ◌∷◌, ◌++◌, arith, length, take, All, ◌==◌,
  Bool-cases, ==_iff, subst, sym,
}
use minbft.Base.Result.{ok}
use minbft.Messages.{Ui, Request, CertifiedMessage, ViewChange, NewViewCert, cert_list}
use minbft.Messages.Vc
use minbft.Commitment.{Commitment, collect, run, new_collector}
use minbft.Commitment.Support.{IsValid}
use minbft.Commitment.Runs.{collect_cases}
use minbft.Commitment.History.{history, committed, Agrees}
use minbft.Commitment.Decides.{new-Tracks, run-Tracks}
use minbft.Commitment.Decisions.{first_cv, from_first}
use minbft.ViewChange.{vc_key, keys, validate_nv_cert}
use minbft.ViewChange.Cert.{has_replica}
use minbft.ViewChange.Intersect.{committed_intersect}
use minbft.NewView.Extract.{extract_prepared}
use minbft.NewView.Kept.{Follows, vc_body, prepares, requests, Opening, Some, extract_prepared-kept}

-- Of a certificate's messages one is of a replica that it has.
has_replica-Some :
    (P : ViewChange → Type 0) (r : ℕ) (l : List ViewChange)
    → has_replica r (keys vc_key l) ≡ true
    → All P l
    → Some (λ vc. (Vc.replica_id vc ≡ r) × P vc) l
has_replica-Some P r [] h all = cc
has_replica-Some P r (vc ∷ l) h all = elim (Bool-cases (Vc.replica_id vc == r)) [
  | inl here ↦ inl ((==_iff (Vc.replica_id vc) r).0 here, all.0)
  | inr other ↦ inr (has_replica-Some P r l (ground arith) all.1)
]

Some-map :
    {P Q : ViewChange → Type 0} (l : List ViewChange)
    → ((vc : ViewChange) → P vc → Q vc)
    → Some P l
    → Some Q l
Some-map [] f h = elim h [ ]
Some-map (vc ∷ l) f (inl h) = inl (f vc h)
Some-map (vc ∷ l) f (inr h) = inr (Some-map l f h)

-- What one of the messages shows of all.
Some-All :
    (P : ViewChange → Type 0) (Q : ViewChange → Type 0) {G : Type 0} (l : List ViewChange)
    → ((vc : ViewChange) → P vc → Q vc → G)
    → Some P l
    → All Q l
    → G
Some-All P Q [] f h all = elim h [ ]
Some-All P Q (vc ∷ l) f (inl h) all = f vc h all.0
Some-All P Q (vc ∷ l) f (inr h) all = Some-All P Q l f h all.1

module _ (base : ℕ → ℕ) (n cert_size : ℕ) (cs : List Commitment) (c : Commitment)
    (pos : 1 ≤ cert_size) (start : base 0 ≡ 0) (valid_cs : All (IsValid n) cs) (valid : IsValid n c)
    (agrees_cs : All (Agrees base) cs) (agrees : Agrees base c)
    (done : (collect (run (new_collector cert_size) cs) c).1 ≡ ok true) where
  reported_first : first_cv base c.view ≤ c.primary_cv
  reported_first =
      let s = run (new_collector cert_size) cs in
      let t =
        run-Tracks base n cert_size (new_collector cert_size) [] cs
          (new-Tracks base n cert_size pos start) valid_cs agrees_cs in
      elim (collect_cases s c) [
        | inl (acc, _, _) ↦
            from_first base n cert_size s (history (new_collector cert_size) [] cs) c t acc valid
              agrees
        | inr (refused, _) ↦ absurd (refused true done)
      ]

  -- Let every view have a single NewView, the first one none, and let the collector report the
  -- proposal of `c`. Let a new-view certificate be valid for the size that goes with `cert_size`, and
  -- let its logs, but for the ViewChange that leads them, be commitments to the first proposals of
  -- that view in order, where a replica that has committed to the proposal shows so. Then the
  -- extracted requests are those that the view inherited, followed by those of its first Prepares, up
  -- to that proposal at least.
  pub committed_survives :
      {o : List CertifiedMessage} {known : List Request} (primary target r : ℕ)
      (ps : List (Request × Ui)) (cert : NewViewCert)
      → Opening o known
      → All (λ vc. Vc.replica_id vc < n) (cert_list cert)
      → validate_nv_cert (n - cert_size + 1) primary target (cert_list cert) ≡ ok tt
      → All (λ vc. Follows (o ++ prepares r c.view ps) (vc_body vc)) (cert_list cert)
      → All
          (λ vc.
            committed
                (c ∷ history (new_collector cert_size) [] cs)
                c.view
                c.primary_cv
                (Vc.replica_id vc)
              ≡ true
            → c.primary_cv < first_cv base c.view + length (vc_body vc))
          (cert_list cert)
      → (m : ℕ) × (c.primary_cv < first_cv base c.view + (length o + m))
        × (extract_prepared cert ≡ ok (known ++ take m (requests ps)))
  committed_survives {o} primary target r ps cert opens range accepted follow shown =
      let (w, _, committer, member) =
        committed_intersect base n cert_size primary target cs c (cert_list cert) pos start valid_cs
          valid agrees_cs agrees done range accepted in
      let long : Some (λ vc. c.primary_cv < first_cv base c.view + length (vc_body vc))
          (cert_list cert) =
        Some-map (cert_list cert)
          (λ vc h. h.1 (
            subst
              (λ k.
                committed (c ∷ history (new_collector cert_size) [] cs) c.view c.primary_cv k
                ≡ true)
              (sym h.0) committer))
          (has_replica-Some _ w (cert_list cert) member shown) in
      let first = reported_first in
      let (m, most, same) =
        extract_prepared-kept r c.view ps cert opens follow
          (Some-map (cert_list cert) (λ vc h. omega (arith, h, first)) long) in
      (m, Some-All _ _ (cert_list cert) (λ vc h k. omega (arith, h, k)) long most, same)
