-- ===== src/ViewChange/CollectVc.antt =====
-- The new-view certificate that the collector of ViewChange messages hands out is one that the
-- validators accept, if no replica is collected twice for one view.
use minbft.Base.{
  ℕ, ◌≡◌, refl, sym, ◌∙◌, inl, inr, true, false, some, List, [], ◌∷◌, ◌++◌, arith, inc64, subst,
}
use minbft.Base.Result.{ok}
use minbft.Messages.{ViewChange}
use minbft.Messages.Vc
use minbft.ViewChange.{
  is_primary, vc_key, keys, validate_nv_cert, VcCollector, new_vc_collector, enter_new_view,
  finish_vc, collect_vc,
}
use minbft.ViewChange.Cert.{has_replica, validate_nv_cert_iff}
use minbft.ViewChange.VcInvariant.{
  has_key, IsOnce, VcInv, new-VcInv, more-VcInv, enter-VcInv, own-VcInv, other-VcInv, finish_cases,
  vc_cases, Stored,
}

unfoldable pub run_vc : (id n cert_size : ℕ) → VcCollector → List ViewChange → VcCollector
run_vc id n cert_size s [] = s
run_vc id n cert_size s (m ∷ l) = run_vc id n cert_size (collect_vc id n cert_size s m).0 l

Stored-VcInv :
    (id n : ℕ) (seen : List (ℕ × ℕ)) (t u : VcCollector) (m : ViewChange)
    → VcInv id seen t
    → t.view ≡ Vc.new_view m
    → has_key (Vc.replica_id m) (Vc.new_view m) seen ≡ false
    → Stored id n t m u
    → VcInv id (vc_key m ∷ seen) u × (u.view ≡ t.view)
Stored-VcInv id n seen t u m inv v fresh (primary, inl (own, e)) =
    rw e (own-VcInv id seen t m inv (sym v) own, refl)
Stored-VcInv id n seen t u m inv v fresh (primary, inr (other, e)) =
    rw e (other-VcInv id seen t m inv (sym v) other fresh, refl)

finish-VcInv :
    (id cert_size : ℕ) (seen : List (ℕ × ℕ)) (u : VcCollector)
    → VcInv id seen u
    → VcInv id seen (finish_vc cert_size u).0
finish-VcInv id cert_size seen u inv = elim (finish_cases cert_size u) [
  | inl e ↦ rw e inv
  | inr (vc, _, _, e) ↦ rw e (new-VcInv id (inc64 u.view) seen)
]

collect_vc-VcInv :
    (id n cert_size : ℕ) (seen : List (ℕ × ℕ)) (s : VcCollector) (m : ViewChange)
    → VcInv id seen s
    → has_key (Vc.replica_id m) (Vc.new_view m) seen ≡ false
    → VcInv id (vc_key m ∷ seen) (collect_vc id n cert_size s m).0
collect_vc-VcInv id n cert_size seen s m inv fresh =
    let t = enter_new_view s (Vc.new_view m) in
    let entered : VcInv id seen t = enter-VcInv id (Vc.new_view m) seen s inv in
    elim (vc_cases id n cert_size s m) [
      | inl e ↦ rw e (more-VcInv id seen (vc_key m) s inv)
      | inr (inl e) ↦ rw e (more-VcInv id seen (vc_key m) t entered)
      | inr (inr (v, (u, st, e))) ↦ rw e (
          finish-VcInv id cert_size (vc_key m ∷ seen) u
            (Stored-VcInv id n seen t u m entered v fresh st).0)
    ]

abbrev seen_after : List (ℕ × ℕ) → List ViewChange → List (ℕ × ℕ)
seen_after seen [] = seen
seen_after seen (m ∷ l) = seen_after (vc_key m ∷ seen) l

run_vc-VcInv :
    (id n cert_size : ℕ) (seen : List (ℕ × ℕ)) (s : VcCollector) (l : List ViewChange)
    (m : ViewChange)
    → VcInv id seen s
    → IsOnce seen (l ++ m ∷ [])
    → VcInv id (seen_after seen l) (run_vc id n cert_size s l)
      × (has_key (Vc.replica_id m) (Vc.new_view m) (seen_after seen l) ≡ false)
unfolding run_vc
run_vc-VcInv id n cert_size seen s [] m inv once = (inv, once.0)
run_vc-VcInv id n cert_size seen s (x ∷ l) m inv once =
    run_vc-VcInv id n cert_size (vc_key x ∷ seen) (collect_vc id n cert_size s x).0 l m
      (collect_vc-VcInv id n cert_size seen s x inv once.0) once.1

finished_cert :
    (id n cert_size : ℕ) (seen : List (ℕ × ℕ)) (u : VcCollector) (cert : List ViewChange)
    → VcInv id seen u
    → (finish_vc cert_size u).2 ≡ some cert
    → validate_nv_cert cert_size id u.view cert ≡ ok tt
finished_cert id n cert_size seen u cert inv e = elim (finish_cases cert_size u) [
  | inl eq ↦ absurd (cc)
  | inr (vc, own, size, eq) ↦
      let same : vc ∷ u.others ≡ cert = cc in
      let (r, v) = inv.owned vc own in
      let absent : has_replica id (keys vc_key u.others) ≡ false = ground (arith, inv.met id) in
      rw (← same) (
        (validate_nv_cert_iff cert_size id u.view (vc ∷ u.others)).1 (
          size,
          (
            v,
            refl,
            subst (λ a. has_replica a (keys vc_key u.others) ≡ false) (sym r) absent,
            inv.quorum,
          ),
          ground (arith, r),
        ))
]

-- If among the ViewChange messages no replica has two for the same view, then the new-view
-- certificate that the collector returns is one that every replica's validator accepts, for the
-- new view of the message that completed it and for this replica, which is the primary of that view.
pub collect_vc-validate_nv_cert :
    (id n cert_size : ℕ) (l : List ViewChange) (m : ViewChange) (cert : List ViewChange)
    → IsOnce [] (l ++ m ∷ [])
    → (collect_vc id n cert_size (run_vc id n cert_size new_vc_collector l) m).2 ≡ some cert
    → (validate_nv_cert cert_size id (Vc.new_view m) cert ≡ ok tt)
      × (is_primary (Vc.new_view m) id n ≡ true)
collect_vc-validate_nv_cert id n cert_size l m cert once e =
    let s = run_vc id n cert_size new_vc_collector l in
    let t = enter_new_view s (Vc.new_view m) in
    let (inv, fresh) =
      run_vc-VcInv id n cert_size [] new_vc_collector l m (new-VcInv id 0 []) once in
    elim (vc_cases id n cert_size s m) [
      | inl eq ↦ absurd (cc)
      | inr (inl eq) ↦ absurd (cc)
      | inr (inr (v, (u, st, eq))) ↦
          let entered = enter-VcInv id (Vc.new_view m) (seen_after [] l) s inv in
          let (kept, same) = Stored-VcInv id n (seen_after [] l) t u m entered v fresh st in
          let found : (finish_vc cert_size u).2 ≡ some cert = cc in
          (
            subst (λ x. validate_nv_cert cert_size id x cert ≡ ok tt) (same ∙ v)
                (finished_cert id n cert_size (vc_key m ∷ seen_after [] l) u cert kept found),
            subst (λ x. is_primary x id n ≡ true) v st.0,
          )
    ]
