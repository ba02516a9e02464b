-- ===== src/ViewChange/VcInvariant.antt =====
-- What the collector of ViewChange messages holds, and the cases of one call.
use minbft.Base.{
  ℕ, suc, ◌≤◌, ◌≡◌, ◌≢◌, ◌⊎◌, refl, sym, inl, inr, Bool, true, false, ◌&&◌, ◌||◌, none, some, List,
  [], ◌∷◌, ◌++◌, arith, length, ltb, ◌==◌, inc64, subst, Bool-cases, Option-cases, ltb-false,
}
use minbft.Messages.{ViewChange}
use minbft.Messages.Vc
use minbft.ViewChange.{is_primary, vc_key, keys, VcCollector, enter_new_view, finish_vc, collect_vc}
use minbft.ViewChange.Cert.{has_replica, Quorum, no_one, keys_snoc, has_replica_snoc, Quorum-snoc}

abbrev pub has_key : ℕ → ℕ → List (ℕ × ℕ) → Bool
has_key r v [] = false
has_key r v ((a, b) ∷ l) = a == r && b == v || has_key r v l

-- No replica has two of the messages for one view; `seen` holds those before.
abbrev pub IsOnce : List (ℕ × ℕ) → List ViewChange → Type 0
IsOnce seen [] = Unit {0}
IsOnce seen (m ∷ l) =
    (has_key (Vc.replica_id m) (Vc.new_view m) seen ≡ false) × IsOnce (vc_key m ∷ seen) l

pub record VcInv (id : ℕ) (seen : List (ℕ × ℕ)) (s : VcCollector) : Type 0 where
  pub quorum : Quorum s.view no_one (keys vc_key s.others)
  pub met :
      (r : ℕ)
      → has_replica r (keys vc_key s.others) ≡ true
      → (has_key r s.view seen ≡ true) × (r ≢ id)
  pub owned :
      (vc : ViewChange) → s.own ≡ some vc → (Vc.replica_id vc ≡ id) × (Vc.new_view vc ≡ s.view)

pub new-VcInv :
    (id v : ℕ) (seen : List (ℕ × ℕ)) → VcInv id seen (record { view = v; own = none; others = [] })
new-VcInv id v seen = record { quorum = tt; met = λ r e. cc; owned = λ vc e. cc }

pub more-VcInv :
    (id : ℕ) (seen : List (ℕ × ℕ)) (k : ℕ × ℕ) (s : VcCollector)
    → VcInv id seen s
    → VcInv id (k ∷ seen) s
more-VcInv id seen (a, b) s inv = record {
  quorum = inv.quorum;
  met = λ r e. ground (arith, inv.met r e);
  owned = inv.owned;
}

pub enter-VcInv :
    (id v : ℕ) (seen : List (ℕ × ℕ)) (s : VcCollector)
    → VcInv id seen s
    → VcInv id seen (enter_new_view s v)
unfolding enter_new_view
enter-VcInv id v seen s inv = elim (Bool-cases (ltb s.view v)) [
  | inl later ↦ rw later (new-VcInv id v seen)
  | inr same ↦ rw same inv
]

pub enter_view_eq : (s : VcCollector) (v : ℕ) → ltb v s.view ≡ false → (enter_new_view s v).view ≡ v
unfolding enter_new_view
enter_view_eq s v h = ground arith

pub own-VcInv :
    (id : ℕ) (seen : List (ℕ × ℕ)) (s : VcCollector) (m : ViewChange)
    → VcInv id seen s
    → Vc.new_view m ≡ s.view
    → Vc.replica_id m ≡ id
    → VcInv id (vc_key m ∷ seen) (record s { own = some m })
own-VcInv id seen s m inv v r = record {
  quorum = inv.quorum;
  met = λ a e. ground (arith, inv.met a e);
  owned = λ vc e.
      let same : m ≡ vc = cc in
      subst (λ x. (Vc.replica_id x ≡ id) × (Vc.new_view x ≡ s.view)) same (r, v);
}

pub other-VcInv :
    (id : ℕ) (seen : List (ℕ × ℕ)) (s : VcCollector) (m : ViewChange)
    → VcInv id seen s
    → Vc.new_view m ≡ s.view
    → Vc.replica_id m ≢ id
    → has_key (Vc.replica_id m) (Vc.new_view m) seen ≡ false
    → VcInv id (vc_key m ∷ seen) (record s { others = s.others ++ m ∷ [] })
other-VcInv id seen s m inv v r fresh = record {
  quorum = rw (keys_snoc vc_key s.others m) (
      subst (λ t. Quorum s.view no_one (keys vc_key s.others ++ (Vc.replica_id m, t) ∷ [])) (sym v)
        (Quorum-snoc s.view (Vc.replica_id m) (keys vc_key s.others) inv.quorum
          (ground (arith, inv.met (Vc.replica_id m), v, fresh))));
  met = λ a e. ground (
    arith,
    inv.met a,
    keys_snoc vc_key s.others m,
    has_replica_snoc a (Vc.replica_id m) (Vc.new_view m) (keys vc_key s.others),
  );
  owned = inv.owned;
}

-- Handing out the certificate, or waiting for more messages.
pub finish_cases :
    (cert_size : ℕ) (s : VcCollector)
    → (finish_vc cert_size s ≡ (s, true, none))
      ⊎ ((vc : ViewChange) × (s.own ≡ some vc)
          × (cert_size ≤ suc (length s.others))
          × (finish_vc cert_size s ≡ (
            record { view = inc64 s.view; own = none; others = [] },
            true,
            some (vc ∷ s.others),
          )))
unfolding finish_vc
finish_cases cert_size s = elim (Option-cases s.own) [
  | inl e ↦ inl (ground (arith, e))
  | inr (vc, e) ↦ elim (Bool-cases (ltb (suc (length s.others)) cert_size)) [
    | inl few ↦ inl (ground (arith, e, few))
    | inr all ↦ inr (vc, e, ltb-false _ _ all, ground (arith, e, all))
  ]
]

-- A message is dropped, or stored as the own or another one, and the certificate is looked for.
abbrev pub Stored : ℕ → ℕ → VcCollector → ViewChange → VcCollector → Type 0
Stored id n t m u =
    (is_primary t.view id n ≡ true)
    × (((Vc.replica_id m ≡ id) × (u ≡ record t { own = some m }))
        ⊎ ((Vc.replica_id m ≢ id) × (u ≡ record t { others = t.others ++ m ∷ [] })))

pub vc_cases :
    (id n cert_size : ℕ) (s : VcCollector) (m : ViewChange)
    → let t = enter_new_view s (Vc.new_view m) in
      (collect_vc id n cert_size s m ≡ (s, false, none))
      ⊎ (collect_vc id n cert_size s m ≡ (t, false, none))
      ⊎ ((t.view ≡ Vc.new_view m)
          × ((u : VcCollector) × Stored id n t m u
              × (collect_vc id n cert_size s m ≡ finish_vc cert_size u)))
unfolding collect_vc
vc_cases id n cert_size s m =
    let t = enter_new_view s (Vc.new_view m) in
    elim (Bool-cases (ltb (Vc.new_view m) s.view)) [
      | inl late ↦ inl (rw late)
      | inr now ↦ elim (Bool-cases (is_primary t.view id n)) [
        | inr backup ↦ inr (inl (rw (now, backup)))
        | inl primary ↦ elim (Bool-cases (Vc.replica_id m == id)) [
          | inl own ↦ inr (
              inr (
                enter_view_eq s (Vc.new_view m) now,
                (
                  record t { own = some m },
                  (primary, inl (ground arith, refl)),
                  rw (now, primary, own),
                ),
              ))
          | inr other ↦ elim (Bool-cases (ltb (suc (length t.others)) cert_size)) [
            | inl room ↦ inr (
                inr (
                  enter_view_eq s (Vc.new_view m) now,
                  (
                    record t { others = t.others ++ m ∷ [] },
                    (primary, inr (ground arith, refl)),
                    rw (now, primary, other, room),
                  ),
                ))
            | inr full ↦ inr (inl (rw (now, primary, other, full)))
          ]
        ]
      ]
    ]
