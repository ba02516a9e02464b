-- ===== src/NewView/Sizes.antt =====
-- core/new-view.go, extractPreparedRequests: what the first loop finds is smaller than the
-- certificate that it reads.
use minbft.Base.{
  ℕ, suc, ◌+◌, ◌≤◌, ◌<◌, ◌≡◌, refl, ap, inl, inr, List, [], ◌∷◌, ◌++◌, arith, length, ltb,
  Bool-cases,
}
use minbft.Messages.{
  CertifiedMessage, prepare, commit, view_change, new_view, ViewChange, vc_message, NewViewCert,
  MessageLog, log_end, log_entry, cert_end, cert_entry, log_list, cert_list, cert_of,
}
use minbft.Messages.Vc
use minbft.NewView.Extract.{
  Scan, longest, scan_log, scan, size_message, size_vc, size_log, size_cert,
}

abbrev pub sizes : List ViewChange → ℕ
sizes [] = 0
sizes (vc ∷ l) = size_vc vc + sizes l

abbrev pub log_sizes : List CertifiedMessage → ℕ
log_sizes [] = 0
log_sizes (m ∷ l) = size_message m + log_sizes l

size_log-list : (l : MessageLog) → log_sizes (log_list l) ≡ size_log l
unfolding log_list size_log
size_log-list log_end = refl
size_log-list (log_entry m l) = ap (λ n. size_message m + n) (size_log-list l)

pub size_cert-list : (c : NewViewCert) → sizes (cert_list c) ≡ size_cert c
unfolding cert_list size_cert
size_cert-list cert_end = refl
size_cert-list (cert_entry vc c) = ap (λ n. size_vc vc + n) (size_cert-list c)

pub cert_list-of : (l : List ViewChange) → cert_list (cert_of l) ≡ l
unfolding cert_list cert_of
cert_list-of [] = refl
cert_list-of (vc ∷ l) = ap (λ k. vc ∷ k) (cert_list-of l)

pub size_vc-log : (vc : ViewChange) → suc (log_sizes (log_list (Vc.message_log vc))) ≡ size_vc vc
unfolding size_vc
size_vc-log (vc_message r v l c u) = ap suc (size_log-list l)

sizes_snoc : (l : List ViewChange) (vc : ViewChange) → sizes (l ++ vc ∷ []) ≡ sizes l + size_vc vc
sizes_snoc [] vc = omega arith
sizes_snoc (x ∷ l) vc = omega (arith, sizes_snoc l vc)

longest_bound :
    (n : ℕ) (a b : List CertifiedMessage)
    → log_sizes a < n
    → log_sizes b < n
    → log_sizes (longest a b) < n
unfolding longest
longest_bound n a b h k = elim (Bool-cases (ltb (length a) (length b))) [
  | inl e ↦ rw e k
  | inr e ↦ rw e h
]

-- What one log adds to the scan.
scan_log_bound :
    (n : ℕ) (l : List CertifiedMessage) (s : Scan)
    → log_sizes l < n
    → log_sizes s.max_log < n
    → (sizes (scan_log l s).vcs ≤ sizes s.vcs + log_sizes l)
      × (log_sizes (scan_log l s).max_log < n)
unfolding scan_log size_message
scan_log_bound n [] s h k = (omega arith, k)
scan_log_bound n (view_change vc ∷ l) s h k =
    (omega (arith, sizes_snoc s.vcs vc), longest_bound n s.max_log l k (omega (arith, h)))
scan_log_bound n (prepare r v q u ∷ l) s h k =
    (omega arith, longest_bound n s.max_log (prepare r v q u ∷ l) k h)
scan_log_bound n (commit r p u ∷ l) s h k =
    (omega arith, longest_bound n s.max_log (commit r p u ∷ l) k h)
scan_log_bound n (new_view r v c u ∷ l) s h k =
    (omega arith, longest_bound n s.max_log (new_view r v c u ∷ l) k h)

pub scan_bound :
    (n : ℕ) (cert : List ViewChange) (s : Scan)
    → sizes cert ≤ n
    → log_sizes s.max_log < n
    → (sizes (scan cert s).vcs + length cert ≤ sizes s.vcs + sizes cert)
      × (log_sizes (scan cert s).max_log < n)
unfolding scan
scan_bound n [] s h k = (omega arith, k)
scan_bound n (vc ∷ l) s h k =
    let log = log_list (Vc.message_log vc) in
    let (a, b) = scan_log_bound n log s (omega (arith, h, size_vc-log vc)) k in
    let (c, d) = scan_bound n l (scan_log log s) (omega (arith, h)) b in
    (omega (arith, a, c, size_vc-log vc), d)
