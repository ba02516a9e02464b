-- ===== src/ViewChange/Repeat.antt =====
-- A replica that was a primary can certify two ViewChange messages for one view, both of them valid:
-- the log of the second begins with a NewView that it certified after the first.
use minbft.Base.{subst, ℕ, ◌≡◌, ◌≢◌, refl, true, false, List, [], ◌∷◌, ◌++◌, arith}
use minbft.Base.Result.{ok}
use minbft.Messages.{
  Ui, view_change, new_view, ViewChange, vc_message, ReqViewChange, NewViewCert, log_list, log_end,
  log_entry,
}
use minbft.Messages.Vc
use minbft.ViewChange.{
  validate_view_change, validate_vc_cert, validate_message_log, validate_nv_cert, check_log,
  check_entry, keys, vc_key,
}
use minbft.ViewChange.Cert.{Quorum, has_replica, validate_nv_cert_iff, no_one}

abbrev ui_at : ℕ → Ui
ui_at c = record { counter = c; cert = [] }

-- The four messages that replica `r` certifies in turn; the third is its NewView for view 1.
abbrev pub first_vc : ℕ → List ReqViewChange → ViewChange
first_vc r cert₁ = vc_message r 1 log_end cert₁ (ui_at 1)

abbrev pub second_vc : ℕ → List ReqViewChange → List ReqViewChange → ViewChange
second_vc r cert₁ cert₂ =
    vc_message r 2 (log_entry (view_change (first_vc r cert₁)) log_end) cert₂ (ui_at 2)

abbrev pub third_vc : ℕ → NewViewCert → List ReqViewChange → ViewChange
third_vc r nv cert₂ = vc_message r 2 (log_entry (new_view r 1 nv (ui_at 3)) log_end) cert₂ (ui_at 4)

has_replica_inside :
    (r : ℕ) (l after : List ViewChange) (y : ViewChange)
    → Vc.replica_id y ≡ r
    → has_replica r (keys vc_key (l ++ y ∷ after)) ≡ true
has_replica_inside r [] after y e = ground (arith, e)
has_replica_inside r (x ∷ l) after y e = ground (arith, has_replica_inside r l after y e)

Quorum-repeat :
    (target r : ℕ) (before between after : List ViewChange) (x y : ViewChange)
    → Vc.replica_id x ≡ r
    → Vc.replica_id y ≡ r
    → Quorum target no_one (keys vc_key (before ++ (x ∷ (between ++ (y ∷ after)))))
    → ⊥
Quorum-repeat target r [] between after x y ex ey q =
    let there = has_replica_inside r between after y ey in
    let absent = subst (λ a. has_replica a (keys vc_key (between ++ (y ∷ after))) ≡ false) ex q.2 in
    cc
Quorum-repeat target r (b ∷ before) between after x y ex ey q =
    Quorum-repeat target r before between after x y ex ey q.3

-- With valid view-change certificates for the views 1 and 2, a replica can certify a ViewChange for
-- view 1, a ViewChange for view 2, a NewView for view 1 and another ViewChange for view 2, such that
-- all three ViewChange messages are valid; and any new-view certificate that holds both of those for
-- view 2 is refused.
pub validate_view_change-repeat :
    (cert_size r primary : ℕ) (cert₁ cert₂ : List ReqViewChange) (nv : NewViewCert)
    (before between after : List ViewChange)
    → validate_vc_cert cert_size 1 cert₁ ≡ ok tt
    → validate_vc_cert cert_size 2 cert₂ ≡ ok tt
    → (validate_view_change cert_size (first_vc r cert₁) ≡ ok tt)
      × (validate_view_change cert_size (second_vc r cert₁ cert₂) ≡ ok tt)
      × (validate_view_change cert_size (third_vc r nv cert₂) ≡ ok tt)
      × (validate_nv_cert cert_size primary 2
            (before ++ (second_vc r cert₁ cert₂ ∷ (between ++ (third_vc r nv cert₂ ∷ after))))
          ≢ ok tt)
unfolding validate_view_change validate_message_log check_log check_entry log_list
validate_view_change-repeat cert_size r primary cert₁ cert₂ nv before between after v₁ v₂ = (
  rw v₁ (ground arith),
  rw v₂ (ground arith),
  rw v₂ (ground arith),
  (λ e.
      Quorum-repeat 2 r before between after (second_vc r cert₁ cert₂) (third_vc r nv cert₂) refl
        refl ((validate_nv_cert_iff cert_size primary 2 _).0 e).1),
)
