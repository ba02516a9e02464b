-- ===== src/NewView/Kept.antt =====
-- core/new-view.go, extractPreparedRequests: what replicas prepared before a view change is kept, in
-- its order.
use minbft.Base.{
  ℕ, ◌+◌, ◌≤◌, ◌≡◌, refl, sym, ap, ◌∙◌, inl, inr, ◌⊎◌, subst, false, List, [], ◌∷◌, ◌++◌, map,
  arith, length, take, ltb, All, Bool-cases,
}
use mathlib.Core.List.{append-nil, append_assoc}
use minbft.Base.Result.{Result, ok}
use minbft.Messages.{
  Ui, Request, CertifiedMessage, prepare, commit, view_change, new_view, ViewChange, NewViewCert,
  cert_end, cert_entry, cert_of, cert_list, log_list,
}
use minbft.Messages.Vc
use minbft.ViewChange.{is_empty}
use minbft.NewView.Extract.{
  Scan, scan, scan_log, longest, proposal, replay, extract_level, extract_prepared,
}
use minbft.NewView.Levels.{extract_prepared_unfold}

-- A log without the ViewChange message that leads it.
abbrev pub body : List CertifiedMessage → List CertifiedMessage
body (view_change vc ∷ l) = l
body l = l

abbrev pub vc_body : ViewChange → List CertifiedMessage
vc_body vc = body (log_list (Vc.message_log vc))

-- The messages commit to the first proposals of `props`, or are those.
abbrev pub Follows : List CertifiedMessage → List CertifiedMessage → Type 0
Follows props l = map proposal l ≡ take (length l) props

scan_log_max :
    (l : List CertifiedMessage) (s : Scan) → (scan_log l s).max_log ≡ longest s.max_log (body l)
unfolding scan_log longest
scan_log_max [] s = ground arith
scan_log_max (view_change vc ∷ l) s = refl
scan_log_max (prepare r v q u ∷ l) s = refl
scan_log_max (commit r p u ∷ l) s = refl
scan_log_max (new_view r v c u ∷ l) s = refl

module _ (props : List CertifiedMessage) where
  longest-Follows :
      (best l : List CertifiedMessage)
      → Follows props best
      → Follows props l
      → Follows props (longest best l)
  unfolding longest
  longest-Follows best l f g = elim (Bool-cases (ltb (length best) (length l))) [
    | inl more ↦ rw more g
    | inr less ↦ rw less f
  ]

longest-le :
    (best l : List CertifiedMessage)
    → (length best ≤ length (longest best l)) × (length l ≤ length (longest best l))
unfolding longest
longest-le best l = elim (Bool-cases (ltb (length best) (length l))) [
  | inl more ↦ rw more (ground arith, omega arith)
  | inr less ↦ rw less (omega arith, ground arith)
]

scan-Follows :
    (props : List CertifiedMessage) (cert : List ViewChange) (s : Scan)
    → Follows props s.max_log
    → All (λ vc. Follows props (vc_body vc)) cert
    → Follows props (scan cert s).max_log
unfolding scan
scan-Follows props [] s f all = f
scan-Follows props (vc ∷ l) s f all =
    let t = log_list (Vc.message_log vc) in
    scan-Follows props l (scan_log t s)
      (rw (scan_log_max t s) (longest-Follows props s.max_log (body t) f all.0)) all.1

scan-le :
    (cert : List ViewChange) (s : Scan)
    → (length s.max_log ≤ length (scan cert s).max_log)
      × All (λ vc. length (vc_body vc) ≤ length (scan cert s).max_log) cert
unfolding scan
scan-le [] s = (omega arith, tt)
scan-le (vc ∷ l) s =
    let t = log_list (Vc.message_log vc) in
    let (a, b) = scan-le l (scan_log t s) in
    let c = longest-le s.max_log (body t) in
    let e = ap length (scan_log_max t s) in (omega (arith, a, c, e), (omega (arith, a, c, e), b))

-- The Prepare messages for requests, in order.
abbrev pub prepares : ℕ → ℕ → List (Request × Ui) → List CertifiedMessage
prepares r v ps = map (λ (p : Request × Ui). prepare r v p.0 p.1) ps

abbrev pub requests : List (Request × Ui) → List Request
requests ps = map (λ (p : Request × Ui). p.0) ps

replay-prepares :
    (inner : NewViewCert → Result (List Request)) (r v : ℕ) (known : List Request)
    (ps : List (Request × Ui)) (l : List CertifiedMessage)
    → Follows (prepares r v ps) l
    → replay inner known l ≡ ok (known ++ take (length l) (requests ps))
unfolding replay
replay-prepares inner r v known ps [] f = ap ok (sym (append-nil known))
replay-prepares inner r v known [] (m ∷ l) f = cc
replay-prepares inner r v known ((q, u) ∷ ps) (m ∷ l) f =
    let head : proposal m ≡ prepare r v q u = cc in
    let tail : Follows (prepares r v ps) l = cc in
    rw (head, replay)
      (replay-prepares inner r v (known ++ q ∷ []) ps l tail
        ∙ ap ok (append_assoc known (q ∷ []) (take (length l) (requests ps))))

-- How the proposals of a view begin: in the first view with nothing, in any other with its NewView,
-- which brings along the requests that its certificate shows prepared.
pub data Opening : List CertifiedMessage → List Request → Type 0 where
  first_view : Opening [] []
  later_view :
      (r v : ℕ) (c : NewViewCert) (u : Ui) (known : List Request)
      → extract_prepared c ≡ ok known
      → Opening (new_view r v c u ∷ []) known

cert_of-list : (c : NewViewCert) → cert_of (cert_list c) ≡ c
unfolding cert_of cert_list
cert_of-list cert_end = refl
cert_of-list (cert_entry vc l) = ap (cert_entry vc) (cert_of-list l)

abbrev whole : NewViewCert → Result (List Request)
whole c = extract_prepared (cert_of (cert_list c))

replay_view :
    {o : List CertifiedMessage} {known : List Request} (r v : ℕ) (ps : List (Request × Ui))
    (l : List CertifiedMessage)
    → Opening o known
    → Follows (o ++ prepares r v ps) l
    → 1 ≤ length l
    → (m : ℕ) × (length l ≡ length o + m) × (replay whole [] l ≡ ok (known ++ take m (requests ps)))
unfolding replay
replay_view r v ps l first_view f some =
    (length l, omega arith, replay-prepares whole r v [] ps l f)
replay_view r v ps [] (later_view r' v' c u known e) f some = absurd (omega arith)
replay_view r v ps (m ∷ l) (later_view r' v' c u known e) f some =
    let head : proposal m ≡ new_view r' v' c u = cc in
    let tail : Follows (prepares r v ps) l = cc in
    (
      length l,
      omega arith,
      rw (head, replay, cert_of-list c, e) (replay-prepares whole r v known ps l tail),
    )

abbrev pub Some {ℓ} : {A : Type ℓ} → (A → Type 0) → List A → Type 0
Some P [] = ⊥
Some P (x ∷ l) = P x ⊎ Some P l

longest-Some :
    (n : ℕ) (cert : List ViewChange)
    → All (λ vc. length (vc_body vc) ≤ n) cert
    → Some (λ vc. 1 ≤ length (vc_body vc)) cert
    → 1 ≤ n
longest-Some n [] all none_there = elim none_there [ ]
longest-Some n (vc ∷ l) all (inl here) = omega (arith, all.0)
longest-Some n (vc ∷ l) all (inr later) = longest-Some n l all.1 later

is_empty-false : (l : List CertifiedMessage) → 1 ≤ length l → is_empty l ≡ false
is_empty-false [] h = absurd (omega arith)
is_empty-false (m ∷ l) h = refl

abbrev max_log : NewViewCert → List CertifiedMessage
max_log cert = (scan (cert_list cert) (record { vcs = []; max_log = [] })).max_log

extract-max_log :
    (cert : NewViewCert)
    → 1 ≤ length (max_log cert)
    → extract_prepared cert ≡ replay whole [] (max_log cert)
unfolding extract_level
extract-max_log cert some =
    extract_prepared_unfold cert ∙ rw (extract_level, is_empty-false (max_log cert) some) refl

-- Let the proposals of a view be the NewView that begins it, unless it is the first view, and then
-- Prepares. Let every log in a certificate, without the ViewChange that leads it, be commitments to
-- the first proposals of that view, in order, or these proposals themselves, and one of them not be
-- empty. Then the requests that are extracted are those that the view inherited, in their order, and
-- after them those of the view's first Prepares, in the primary's order, as many as the longest log
-- has: none that any replica of the certificate has committed to is lost.
pub extract_prepared-kept :
    {o : List CertifiedMessage} {known : List Request} (r v : ℕ) (ps : List (Request × Ui))
    (cert : NewViewCert)
    → Opening o known
    → All (λ vc. Follows (o ++ prepares r v ps) (vc_body vc)) (cert_list cert)
    → Some (λ vc. 1 ≤ length (vc_body vc)) (cert_list cert)
    → (m : ℕ) × All (λ vc. length (vc_body vc) ≤ length o + m) (cert_list cert)
      × (extract_prepared cert ≡ ok (known ++ take m (requests ps)))
extract_prepared-kept {o} r v ps cert opens follow one =
    let start : Scan = record { vcs = []; max_log = [] } in
    let (_, most) = scan-le (cert_list cert) start in
    let some = longest-Some (length (max_log cert)) (cert_list cert) most one in
    let (m, size, same) =
      replay_view r v ps (max_log cert) opens
        (scan-Follows (o ++ prepares r v ps) (cert_list cert) start refl follow) some in
    (
      m,
      subst (λ n. All (λ vc. length (vc_body vc) ≤ n) (cert_list cert)) size most,
      extract-max_log cert some ∙ same,
    )
