-- ===== src/ViewChange/Cert.antt =====
-- What a valid certificate is: every message is for the view, no replica occurs twice.
use minbft.Base.{
  ℕ, ◌≤◌, ◌≡◌, ◌↔◌, refl, sym, ap, ◌∙◌, Bool, true, false, ◌||◌, List, [], ◌∷◌, ◌++◌, arith, length,
  ltb, ◌==◌, update,
}
use minbft.Base.Result.{ok-injective, >>=-eq-ok, ok, fail_if}
use minbft.Messages.{ReqViewChange, ViewChange}
use minbft.ViewChange.{check_quorum, rvc_key, vc_key, keys, validate_vc_cert, validate_nv_cert}

abbrev pub has_replica : ℕ → List (ℕ × ℕ) → Bool
has_replica r [] = false
has_replica r ((a, v) ∷ l) = a == r || has_replica r l

-- All for view `target`, from replicas that are different and not in `q`.
abbrev pub Quorum : ℕ → (ℕ → Bool) → List (ℕ × ℕ) → Type 0
Quorum target q [] = Unit {0}
Quorum target q ((r, v) ∷ l) =
    (v ≡ target) × (q r ≡ false) × (has_replica r l ≡ false) × Quorum target q l

-- The set that the loop returns.
abbrev pub members : (ℕ → Bool) → List (ℕ × ℕ) → ℕ → Bool
members q l r = q r || has_replica r l

Quorum-update :
    (target r : ℕ) (q : ℕ → Bool) (l : List (ℕ × ℕ))
    → has_replica r l ≡ false
    → Quorum target q l
    → Quorum target (update q r true) l
Quorum-update target r q [] h k = tt
Quorum-update target r q ((a, v) ∷ l) h k =
    (k.0, ground (arith, k.1), k.2, Quorum-update target r q l (ground arith) k.3)

Quorum-reset :
    (target r : ℕ) (q : ℕ → Bool) (l : List (ℕ × ℕ))
    → Quorum target (update q r true) l
    → Quorum target q l × (has_replica r l ≡ false)
Quorum-reset target r q [] k = (tt, refl)
Quorum-reset target r q ((a, v) ∷ l) k =
    let (rest, free) = Quorum-reset target r q l k.3 in
    ((k.0, ground (arith, k.1), k.2, rest), ground (arith, k.1, free))

pub check_quorum-Quorum :
    (target : ℕ) (q : ℕ → Bool) (l : List (ℕ × ℕ))
    → Quorum target q l
    → (p : ℕ → Bool) × (check_quorum target q l ≡ ok p) × ((r : ℕ) → p r ≡ members q l r)
unfolding check_quorum
check_quorum-Quorum target q [] k = (q, refl, λ r. ground arith)
check_quorum-Quorum target q ((a, v) ∷ l) k =
    let (p, e, same) =
      check_quorum-Quorum target (update q a true) l (Quorum-update target a q l k.2 k.3) in
    (p, ground (arith, k.0, k.1, e), λ r. ground (arith, same r))

members_nil : (b : Bool) → b ≡ (b || false)
members_nil true = refl
members_nil false = refl

pub Quorum-check_quorum :
    (target : ℕ) (q p : ℕ → Bool) (l : List (ℕ × ℕ))
    → check_quorum target q l ≡ ok p
    → Quorum target q l × ((r : ℕ) → p r ≡ members q l r)
unfolding check_quorum
Quorum-check_quorum target q p [] e =
    (tt, λ r. ap (λ f. f r) (sym (ok-injective e)) ∙ members_nil (q r))
Quorum-check_quorum target q p ((a, v) ∷ l) e =
    let (rest, same) = Quorum-check_quorum target (update q a true) p l (ground arith) in
    let (k, free) = Quorum-reset target a q l rest in
    ((ground arith, ground arith, free, k), λ r. ground (arith, same r))

-- A view-change certificate is accepted exactly if it is large enough, all its messages are for the
-- new view, and they come from different replicas.
pub validate_vc_cert_iff :
    (cert_size target : ℕ) (cert : List ReqViewChange)
    → (validate_vc_cert cert_size target cert ≡ ok tt)
      ↔ ((cert_size ≤ length cert) × Quorum target (λ _. false) (keys rvc_key cert))
unfolding validate_vc_cert
validate_vc_cert_iff cert_size target cert = (accepted, accepts)
  where
    accepted :
        validate_vc_cert cert_size target cert ≡ ok tt
        → (cert_size ≤ length cert) × Quorum target (λ _. false) (keys rvc_key cert)
    accepted e =
        let (_, small, e') = >>=-eq-ok (fail_if (ltb (length cert) cert_size) _) _ e in
        let (p, eq, _) = >>=-eq-ok (check_quorum target (λ _. false) (keys rvc_key cert)) _ e' in
        (
          ground (arith, small),
          (Quorum-check_quorum target (λ _. false) p (keys rvc_key cert) eq).0,
        )

    accepts :
        (cert_size ≤ length cert) × Quorum target (λ _. false) (keys rvc_key cert)
        → validate_vc_cert cert_size target cert ≡ ok tt
    accepts (l, k) =
        let (p, e, _) = check_quorum-Quorum target (λ _. false) (keys rvc_key cert) k in
        ground (arith, e)

-- A new-view certificate is accepted exactly if it is large enough, all its messages are for the new
-- view, they come from different replicas, and one of these is the new primary.
pub validate_nv_cert_iff :
    (cert_size primary target : ℕ) (cert : List ViewChange)
    → (validate_nv_cert cert_size primary target cert ≡ ok tt) ↔ (
        (cert_size ≤ length cert)
        × Quorum target (λ _. false) (keys vc_key cert)
        × (has_replica primary (keys vc_key cert) ≡ true))
unfolding validate_nv_cert
validate_nv_cert_iff cert_size primary target cert = (accepted, accepts)
  where
    accepted :
        validate_nv_cert cert_size primary target cert ≡ ok tt
        → (cert_size ≤ length cert)
          × Quorum target (λ _. false) (keys vc_key cert)
          × (has_replica primary (keys vc_key cert) ≡ true)
    accepted e =
        let (_, small, e') = >>=-eq-ok (fail_if (ltb (length cert) cert_size) _) _ e in
        let (p, eq, last) = >>=-eq-ok (check_quorum target (λ _. false) (keys vc_key cert)) _ e' in
        let (k, same) = Quorum-check_quorum target (λ _. false) p (keys vc_key cert) eq in
        (ground (arith, small), k, ground (arith, same primary, last))

    accepts :
        (cert_size ≤ length cert)
          × Quorum target (λ _. false) (keys vc_key cert)
          × (has_replica primary (keys vc_key cert) ≡ true)
        → validate_nv_cert cert_size primary target cert ≡ ok tt
    accepts (l, k, h) =
        let (p, e, same) = check_quorum-Quorum target (λ _. false) (keys vc_key cert) k in
        ground (arith, e, same primary)

abbrev pub no_one : ℕ → Bool
no_one _ = false

pub keys_snoc :
    {A : Type 0} (f : A → ℕ × ℕ) (l : List A) (x : A) → keys f (l ++ x ∷ []) ≡ keys f l ++ f x ∷ []
keys_snoc f [] x = refl
keys_snoc f (y ∷ l) x = ap (λ k. f y ∷ k) (keys_snoc f l x)

pub has_replica_snoc :
    (r a v : ℕ) (l : List (ℕ × ℕ)) → has_replica r (l ++ (a, v) ∷ []) ≡ (has_replica r l || a == r)
has_replica_snoc r a v [] = ground arith
has_replica_snoc r a v ((b, w) ∷ l) = ground (arith, has_replica_snoc r a v l)

pub Quorum-snoc :
    (target r : ℕ) (l : List (ℕ × ℕ))
    → Quorum target no_one l
    → has_replica r l ≡ false
    → Quorum target no_one (l ++ (r, target) ∷ [])
Quorum-snoc target r [] k h = (refl, refl, refl, tt)
Quorum-snoc target r ((b, w) ∷ l) k h = (
  k.0,
  refl,
  ground (arith, has_replica_snoc b r target l, k.2),
  Quorum-snoc target r l k.3 (ground arith),
)
