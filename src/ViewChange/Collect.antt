-- ===== src/ViewChange/Collect.antt =====
-- The certificates that the two collectors hand out are the ones that the validators accept.
use minbft.Base.{
  ℕ, ◌≤◌, ◌≡◌, ◌⊎◌, refl, sym, ◌∙◌, inl, inr, true, false, not, ◌||◌, none, some, List, [], ◌∷◌,
  ◌++◌, arith, length, ltb, ◌==◌, update, inc64, subst, Bool-cases,
}
use minbft.Base.Result.{ok}
use minbft.Messages.{ReqViewChange}
use minbft.ViewChange.{
  rvc_key, keys, validate_vc_cert, RvcCollector, new_rvc_collector, collect_rvc,
}
use minbft.ViewChange.Cert.{
  no_one, keys_snoc, has_replica_snoc, Quorum-snoc, has_replica, Quorum, validate_vc_cert_iff,
}

unfoldable pub run_rvc : ℕ → RvcCollector → List ReqViewChange → RvcCollector
run_rvc cert_size s [] = s
run_rvc cert_size s (m ∷ l) = run_rvc cert_size (collect_rvc cert_size s m).0 l

-- The messages collected so far: for the next view, from the replicas of the set.
pub record RvcInv (cert_size : ℕ) (s : RvcCollector) : Type 0 where
  quorum : Quorum (inc64 s.view) no_one (keys rvc_key s.collected)
  set : (r : ℕ) → s.replicas r ≡ has_replica r (keys rvc_key s.collected)

snoc-RvcInv :
    (cert_size : ℕ) (s : RvcCollector) (m : ReqViewChange)
    → RvcInv cert_size s
    → m.new_view ≡ inc64 s.view
    → s.replicas m.replica_id ≡ false
    → RvcInv cert_size (record s {
      collected = s.collected ++ m ∷ [];
      replicas = update s.replicas m.replica_id true;
    })
snoc-RvcInv cert_size s m inv v fresh = record {
  quorum =
      rw (keys_snoc rvc_key s.collected m, v)
        (Quorum-snoc (inc64 s.view) m.replica_id (keys rvc_key s.collected) inv.quorum
          (sym (inv.set m.replica_id) ∙ fresh));
  set = λ r. rw (keys_snoc rvc_key s.collected m) (
      ground
        (arith, inv.set r, has_replica_snoc r m.replica_id m.new_view (keys rvc_key s.collected)));
}

abbrev added : RvcCollector → ReqViewChange → RvcCollector
added s m = record s {
  collected = s.collected ++ m ∷ [];
  replicas = update s.replicas m.replica_id true;
}

abbrev reset : RvcCollector → RvcCollector
reset s = record { view = inc64 s.view; collected = []; replicas = no_one }

-- The message is dropped, collected, or completes the certificate.
rvc_cases :
    (cert_size : ℕ) (s : RvcCollector) (m : ReqViewChange)
    → (collect_rvc cert_size s m ≡ (s, false, none))
      ⊎ ((m.new_view ≡ inc64 s.view)
          × (s.replicas m.replica_id ≡ false)
          × ((collect_rvc cert_size s m ≡ (added s m, true, none))
              ⊎ ((cert_size ≤ length (added s m).collected)
                  × (collect_rvc cert_size s m ≡ (reset s, true, some (added s m).collected)))))
unfolding collect_rvc
rvc_cases cert_size s m =
    elim (Bool-cases (not (m.new_view == inc64 s.view) || s.replicas m.replica_id)) [
      | inl drop ↦ inl (rw drop)
      | inr take ↦ elim (Bool-cases (ltb (length (added s m).collected) cert_size)) [
        | inl few ↦ inr (ground arith, ground arith, inl (rw (take, few)))
        | inr all ↦ inr (ground arith, ground arith, inr (ground arith, rw (take, all)))
      ]
    ]

pub collect_rvc-RvcInv :
    (cert_size : ℕ) (s : RvcCollector) (m : ReqViewChange)
    → RvcInv cert_size s
    → RvcInv cert_size (collect_rvc cert_size s m).0
collect_rvc-RvcInv cert_size s m inv = elim (rvc_cases cert_size s m) [
  | inl e ↦ rw e inv
  | inr (v, fresh, inl e) ↦ rw e (snoc-RvcInv cert_size s m inv v fresh)
  | inr (v, fresh, inr (_, e)) ↦ rw e (record { quorum = tt; set = λ r. refl })
]

run_rvc-RvcInv :
    (cert_size : ℕ) (s : RvcCollector) (l : List ReqViewChange)
    → RvcInv cert_size s
    → RvcInv cert_size (run_rvc cert_size s l)
unfolding run_rvc
run_rvc-RvcInv cert_size s [] inv = inv
run_rvc-RvcInv cert_size s (m ∷ l) inv =
    run_rvc-RvcInv cert_size (collect_rvc cert_size s m).0 l (collect_rvc-RvcInv cert_size s m inv)

-- A collector with its messages for the next view, and what the next message leads to.
pub collect_rvc_next :
    (cert_size : ℕ) (s : RvcCollector) (m : ReqViewChange)
    → RvcInv cert_size s
    → let (t, new, cert) = collect_rvc cert_size s m in
      ((cert ≡ none) × (t.view ≡ s.view))
      ⊎ ((c : List ReqViewChange) × (cert ≡ some c)
          × (t.view ≡ inc64 s.view)
          × (m.new_view ≡ inc64 s.view)
          × (validate_vc_cert cert_size m.new_view c ≡ ok tt))
collect_rvc_next cert_size s m inv = elim (rvc_cases cert_size s m) [
  | inl eq ↦ inl (rw eq (refl, refl))
  | inr (v, fresh, inl eq) ↦ inl (rw eq (refl, refl))
  | inr (v, fresh, inr (size, eq)) ↦ inr (
    (added s m).collected,
    rw eq refl,
    rw eq refl,
    v,
    (validate_vc_cert_iff cert_size m.new_view (added s m).collected).1 (
      size,
      subst (λ t. Quorum t no_one (keys rvc_key (added s m).collected)) (sym v)
          (snoc-RvcInv cert_size s m inv v fresh).quorum,
    ),
  )
]

pub new_rvc_collector-RvcInv : (cert_size : ℕ) → RvcInv cert_size new_rvc_collector
new_rvc_collector-RvcInv cert_size = record { quorum = tt; set = λ r. refl }

-- Whatever ReqViewChange messages were collected before, the view-change certificate that the
-- collector returns is one that every replica's validator accepts for the new view of the message
-- that completed it.
pub collect_rvc-validate_vc_cert :
    (cert_size : ℕ) (l : List ReqViewChange) (m : ReqViewChange) (cert : List ReqViewChange)
    → (collect_rvc cert_size (run_rvc cert_size new_rvc_collector l) m).2 ≡ some cert
    → validate_vc_cert cert_size m.new_view cert ≡ ok tt
collect_rvc-validate_vc_cert cert_size l m cert e =
    let s = run_rvc cert_size new_rvc_collector l in
    let inv = run_rvc-RvcInv cert_size new_rvc_collector l (new_rvc_collector-RvcInv cert_size) in
    elim (collect_rvc_next cert_size s m inv) [
      | inl (nothing, _) ↦ absurd (cc)
      | inr (c, done, _, _, valid) ↦ let same : c ≡ cert = cc in rw (← same) valid
    ]
