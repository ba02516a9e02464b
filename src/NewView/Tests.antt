-- ===== src/NewView/Tests.antt =====
-- Certificates whose requests lie in the log itself, one view below, and behind a NewView.
use minbft.Base.{
  ℕ, ◌+◌, ◌*◌, ◌≤◌, ◌<◌, ◌≡◌, refl, inl, inr, Bool, true, false, List, [], ◌∷◌, arith, length, take,
  All,
}
use minbft.Commitment.{Commitment, collect, run}
use minbft.Commitment.History.{history}
use minbft.ViewChange.{validate_nv_cert}
use minbft.Base.Result.{ok}
use minbft.Messages.{
  Ui, Request, CertifiedMessage, prepare, commit, view_change, new_view, ViewChange, vc_message,
  NewViewCert, log_of, log_list, cert_of, cert_list,
}
use minbft.NewView.Extract.{extract_prepared, proposal, size_cert}
use minbft.NewView.Kept.{Follows, vc_body, Opening, later_view, extract_prepared-kept}
use minbft.NewView.Survives.{committed_survives}
use minbft.NewView.Returns.{IsReturned, extract_prepared-IsReturned}

abbrev at : ℕ → Ui
at c = record { counter = c; cert = [] }

abbrev put : ℕ → Request
put seq = record { client_id = 7; sequence = seq; operation = []; signature = [] }

-- Replica 1 has committed to the first Prepare of replica 0.
abbrev first_change : ViewChange
first_change = vc_message 1 1 (log_of (commit 1 (prepare 0 0 (put 5) (at 1)) (at 1) ∷ [])) [] (at 2)

abbrev first_cert : NewViewCert
first_cert = cert_of (first_change ∷ [])

-- Nothing happened in view 1.
abbrev idle_change : ViewChange
idle_change = vc_message 1 2 (log_of (view_change first_change ∷ [])) [] (at 3)

-- In view 1 the NewView was followed by a Prepare.
abbrev busy_change : ViewChange
busy_change =
    vc_message 2 2
      (log_of (
        view_change (vc_message 2 1 (log_of []) [] (at 1))
        ∷ commit 2 (new_view 1 1 first_cert (at 3)) (at 2)
        ∷ commit 2 (prepare 1 1 (put 6) (at 4)) (at 3)
        ∷ []))
      [] (at 4)

first_test : extract_prepared first_cert ≡ ok (put 5 ∷ [])
unfolding extract_prepared cert_list cert_of log_list log_of size_cert
first_test = refl

idle_test : extract_prepared (cert_of (idle_change ∷ [])) ≡ ok (put 5 ∷ [])
unfolding extract_prepared cert_list cert_of log_list log_of size_cert
idle_test = refl

busy_test : extract_prepared (cert_of (idle_change ∷ busy_change ∷ [])) ≡ ok (put 5 ∷ put 6 ∷ [])
unfolding extract_prepared cert_list cert_of log_list log_of size_cert
busy_test = refl

extract_prepared-IsReturned_example :
    IsReturned (extract_prepared (cert_of (idle_change ∷ busy_change ∷ [])))
extract_prepared-IsReturned_example =
    extract_prepared-IsReturned (cert_of (idle_change ∷ busy_change ∷ []))

-- Replica 0 has seen nothing of view 1.
abbrev behind_change : ViewChange
behind_change =
    vc_message 0 2 (log_of (view_change (vc_message 0 1 (log_of []) [] (at 1)) ∷ [])) [] (at 2)

abbrev second_cert : NewViewCert
second_cert = cert_of (behind_change ∷ busy_change ∷ [])

abbrev view_props : List CertifiedMessage
view_props = new_view 1 1 first_cert (at 3) ∷ prepare 1 1 (put 6) (at 4) ∷ []

second_opens : Opening (new_view 1 1 first_cert (at 3) ∷ []) (put 5 ∷ [])
second_opens = later_view 1 1 first_cert (at 3) (put 5 ∷ []) first_test

second-Follows : All (λ vc. Follows view_props (vc_body vc)) (cert_list second_cert)
unfolding cert_list cert_of log_list log_of proposal
second-Follows = (refl, (refl, tt))

extract_prepared-kept_example :
    (m : ℕ) × All (λ vc. length (vc_body vc) ≤ 1 + m) (cert_list second_cert)
    × (extract_prepared second_cert ≡ ok (put 5 ∷ take m (put 6 ∷ [])))
unfolding cert_list cert_of log_list log_of
extract_prepared-kept_example =
    extract_prepared-kept 1 1 ((put 6, at 4) ∷ []) second_cert second_opens second-Follows
      (inr (inl (omega arith)))

-- Replicas 1 and 2 commit to the NewView and to the Prepare after it.
abbrev promise : Bool → ℕ → ℕ → ℕ → Commitment
promise first r cv own = record {
  replica_id = r;
  is_new_view = first;
  view = 1;
  primary_cv = cv;
  replica_cv = own;
}

abbrev promises : List Commitment
promises = promise true 1 3 3 ∷ promise true 2 3 2 ∷ promise false 1 4 4 ∷ []

committed_survives_example :
    (m : ℕ) × (4 < 3 + (1 + m)) × (extract_prepared second_cert ≡ ok (put 5 ∷ take m (put 6 ∷ [])))
unfolding cert_list cert_of log_list log_of collect run history validate_nv_cert
committed_survives_example =
    committed_survives (λ v. 3 * v) 3 2 promises (promise false 2 4 3) (omega arith) refl
      (omega arith) (omega arith)
      ((λ e. (omega arith, refl)), ((λ e. (omega arith, refl)), ((λ e. cc), tt))) (λ e. cc) refl 2 2
      1 ((put 6, at 4) ∷ []) second_cert second_opens (omega arith) refl second-Follows
      ((λ e. cc), ((λ e. omega arith), tt))
