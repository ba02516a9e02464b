-- ===== src/NewView/Returns.antt =====
-- core/new-view.go, extractPreparedRequests: the recursion comes to an end.
use minbft.Base.{
  ℕ, zero, suc, ◌<◌, Bool, true, false, not, ◌&&◌, List, [], ◌∷◌, ◌++◌, arith, if◌then◌else◌,
}
use minbft.Base.Result.{Result, ok, err, panic, ◌>>=◌}
use minbft.Messages.{
  Request, CertifiedMessage, prepare, commit, view_change, new_view, ViewChange, NewViewCert,
  cert_list,
}
use minbft.ViewChange.{is_empty}
use minbft.NewView.Extract.{
  Scan, scan, proposal, replay, extract_level, extract, extract_prepared, size_message, size_vc,
  size_cert,
}
use minbft.NewView.Sizes.{sizes, log_sizes, size_cert-list, size_vc-log, scan_bound}

-- A list of requests or a panic, no error.
abbrev pub IsReturned : Result (List Request) → Type 0
IsReturned (ok l) = Unit {0}
IsReturned (err e) = ⊥
IsReturned panic = Unit {0}

>>=-IsReturned :
    (r : Result (List Request)) (f : List Request → Result (List Request))
    → IsReturned r
    → ((k : List Request) → IsReturned (f k))
    → IsReturned (r >>= f)
>>=-IsReturned (ok k) f e h = h k
>>=-IsReturned (err x) f e h = e
>>=-IsReturned panic f e h = tt

replay-IsReturned :
    (n : ℕ) (f : NewViewCert → Result (List Request))
    → ((c : NewViewCert) → size_cert c < n → IsReturned (f c))
    → (known : List Request) (l : List CertifiedMessage) → log_sizes l < suc n
    → IsReturned (replay f known l)
unfolding replay proposal size_message
replay-IsReturned n f done known [] h = tt
replay-IsReturned n f done known (prepare r v q u ∷ l) h =
    replay-IsReturned n f done (known ++ q ∷ []) l (omega (arith, h))
replay-IsReturned n f done known (view_change vc ∷ l) h = tt
replay-IsReturned n f done known (new_view r v c u ∷ l) h =
    >>=-IsReturned (f c) _ (done c (omega (arith, h)))
      (λ k. replay-IsReturned n f done k l (omega (arith, h)))
replay-IsReturned n f done known (commit r (prepare r' v q u') u ∷ l) h =
    replay-IsReturned n f done (known ++ q ∷ []) l (omega (arith, h))
replay-IsReturned n f done known (commit r (new_view r' v c u') u ∷ l) h =
    >>=-IsReturned (f c) _ (done c (omega (arith, h)))
      (λ k. replay-IsReturned n f done k l (omega (arith, h)))
replay-IsReturned n f done known (commit r (commit r' p u') u ∷ l) h = tt
replay-IsReturned n f done known (commit r (view_change vc) u ∷ l) h = tt

extract_level-IsReturned :
    (f : List ViewChange → Result (List Request)) (cert : List ViewChange)
    → ((l : List ViewChange) → sizes l < sizes cert → IsReturned (f l))
    → IsReturned (extract_level f cert)
unfolding extract_level size_vc
extract_level-IsReturned f [] done = tt
extract_level-IsReturned f (vc ∷ l) done =
    let start : Scan = record { vcs = []; max_log = [] } in
    let (a, b) =
      scan_bound (sizes (vc ∷ l)) (vc ∷ l) start (omega arith) (omega (arith, size_vc-log vc)) in
    let s = scan (vc ∷ l) start in
    by_test (is_empty s.max_log && not (is_empty s.vcs)) (f s.vcs)
      (replay (λ c. f (cert_list c)) [] s.max_log) (done s.vcs (omega (arith, a)))
      (replay-IsReturned (sizes (vc ∷ l)) (λ c. f (cert_list c))
        (λ c h. done (cert_list c) (omega (arith, h, size_cert-list c))) [] s.max_log
        (omega (arith, b)))
  where
    by_test :
        (b : Bool) (x y : Result (List Request))
        → IsReturned x
        → IsReturned y
        → IsReturned (if b then x else y)
    by_test true x y e h = e
    by_test false x y e h = h

extract-IsReturned : (m : ℕ) (l : List ViewChange) → sizes l < m → IsReturned (extract m l)
unfolding extract
extract-IsReturned zero l h = omega (arith, h)
extract-IsReturned (suc m) l h =
    extract_level-IsReturned (extract m) l (λ l' i. extract-IsReturned m l' (omega (arith, h, i)))

-- For every certificate extract_prepared gives a list of requests or panics as the source does: it
-- never runs out of fuel.
pub extract_prepared-IsReturned : (cert : NewViewCert) → IsReturned (extract_prepared cert)
unfolding extract_prepared
extract_prepared-IsReturned cert =
    extract-IsReturned (suc (size_cert cert)) (cert_list cert) (omega (arith, size_cert-list cert))
