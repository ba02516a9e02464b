-- ===== src/NewView/Levels.antt =====
-- core/new-view.go, extractPreparedRequests: the fuel is enough, since each level of the recursion is
-- inside a message of the level before.
use minbft.Base.{
  ℕ, zero, suc, ◌<◌, ◌≡◌, refl, sym, ap, ◌∙◌, Bool, true, false, not, ◌&&◌, List, [], ◌∷◌, ◌++◌,
  arith, if◌then◌else◌,
}
use minbft.Base.Result.{Result, ok, err, panic, ◌>>=◌}
use minbft.Messages.{
  Request, CertifiedMessage, prepare, commit, view_change, new_view, ViewChange, NewViewCert,
  cert_list, cert_of,
}
use minbft.ViewChange.{is_empty}
use minbft.NewView.Extract.{
  Scan, scan, proposal, replay, extract_level, extract, extract_prepared, size_message, size_vc,
  size_cert,
}
use minbft.NewView.Sizes.{sizes, log_sizes, size_cert-list, cert_list-of, size_vc-log, scan_bound}

>>=-same :
    (r t : Result (List Request)) (f g : List Request → Result (List Request))
    → r ≡ t
    → ((k : List Request) → f k ≡ g k)
    → (r >>= f) ≡ (t >>= g)
>>=-same r (ok k) f g e h = ap (λ x. x >>= f) e ∙ h k
>>=-same r (err x) f g e h = ap (λ x. x >>= f) e
>>=-same r panic f g e h = ap (λ x. x >>= f) e

-- The second loop looks only at certificates inside the log.
replay_same :
    (n : ℕ) (f g : NewViewCert → Result (List Request))
    → ((c : NewViewCert) → size_cert c < n → f c ≡ g c)
    → (known : List Request) (l : List CertifiedMessage) → log_sizes l < suc n
    → replay f known l ≡ replay g known l
unfolding replay proposal size_message
replay_same n f g same known [] h = refl
replay_same n f g same known (prepare r v q u ∷ l) h =
    replay_same n f g same (known ++ q ∷ []) l (omega (arith, h))
replay_same n f g same known (view_change vc ∷ l) h = refl
replay_same n f g same known (new_view r v c u ∷ l) h =
    >>=-same (f c) (g c) _ _ (same c (omega (arith, h)))
      (λ k. replay_same n f g same k l (omega (arith, h)))
replay_same n f g same known (commit r (prepare r' v q u') u ∷ l) h =
    replay_same n f g same (known ++ q ∷ []) l (omega (arith, h))
replay_same n f g same known (commit r (new_view r' v c u') u ∷ l) h =
    >>=-same (f c) (g c) _ _ (same c (omega (arith, h)))
      (λ k. replay_same n f g same k l (omega (arith, h)))
replay_same n f g same known (commit r (commit r' p u') u ∷ l) h = refl
replay_same n f g same known (commit r (view_change vc) u ∷ l) h = refl

-- One level looks only at certificates smaller than its own.
extract_level_same :
    (f g : List ViewChange → Result (List Request)) (cert : List ViewChange)
    → ((l : List ViewChange) → sizes l < sizes cert → f l ≡ g l)
    → extract_level f cert ≡ extract_level g cert
unfolding extract_level size_vc
extract_level_same f g [] same = refl
extract_level_same f g (vc ∷ l) same =
    let start : Scan = record { vcs = []; max_log = [] } in
    let (a, b) =
      scan_bound (sizes (vc ∷ l)) (vc ∷ l) start (omega arith) (omega (arith, size_vc-log vc)) in
    let s = scan (vc ∷ l) start in
    by_test (is_empty s.max_log && not (is_empty s.vcs)) (same s.vcs (omega (arith, a))) (
      replay_same (sizes (vc ∷ l)) (λ c. f (cert_list c)) (λ c. g (cert_list c))
        (λ c h. same (cert_list c) (omega (arith, h, size_cert-list c))) [] s.max_log
        (omega (arith, b)))
  where
    by_test :
        (b : Bool) {x y z w : Result (List Request)}
        → x ≡ y
        → z ≡ w
        → (if b then x else z) ≡ (if b then y else w)
    by_test true e h = e
    by_test false e h = h

extract_same :
    (m n : ℕ) (l : List ViewChange) → sizes l < m → sizes l < n → extract m l ≡ extract n l
unfolding extract
extract_same zero n l h k = absurd (omega (arith, h))
extract_same (suc m) zero l h k = absurd (omega (arith, k))
extract_same (suc m) (suc n) l h k =
    extract_level_same (extract m) (extract n) l
      (λ l' i. extract_same m n l' (omega (arith, h, i)) (omega (arith, k, i)))

-- The fuel is enough: extract_prepared is the source's recursion, each level of which calls the whole
-- function for the certificates that it descends into.
pub extract_prepared_unfold :
    (cert : NewViewCert)
    → extract_prepared cert ≡ extract_level (λ l. extract_prepared (cert_of l)) (cert_list cert)
unfolding extract_prepared extract
extract_prepared_unfold cert =
    extract_level_same (extract (size_cert cert)) (λ l. extract_prepared (cert_of l))
      (cert_list cert)
      (λ l h.
        extract_same (size_cert cert) (suc (sizes l)) l (omega (arith, h, size_cert-list cert))
          (omega arith)
        ∙ sym (prepared_list l))
  where
    prepared_list : (l : List ViewChange) → extract_prepared (cert_of l) ≡ extract (suc (sizes l)) l
    prepared_list l =
        ap (λ n. extract (suc n) (cert_list (cert_of l)))
          (sym (size_cert-list (cert_of l)) ∙ ap sizes (cert_list-of l))
        ∙ ap (λ k. extract (suc (sizes l)) k) (cert_list-of l)
