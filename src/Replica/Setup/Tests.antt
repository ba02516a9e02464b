-- ===== src/Replica/Setup/Tests.antt =====
-- core/replica.go: three replicas, of which one may be faulty.
use minbft.Base.{ℕ, ◌+◌, ◌^◌, ◌<◌, ◌≡◌, refl, true, false, [], ◌∷◌, arith}
use minbft.Base.Result.{ok, err, not_enough_replicas}
use minbft.Messages.{ViewChange, vc_message, log_end}
use minbft.Commitment.{Commitment, new_collector, collect, run}
use minbft.Commitment.History.{history, committed}
use minbft.ViewChange.{vc_key, keys, validate_nv_cert}
use minbft.ViewChange.Cert.{has_replica}
use minbft.Replica.{Config}
use minbft.Replica.Setup.{new_config, new_config-committed_intersect}

abbrev stack : Config
stack = record {
  id = 1;
  n = 0;
  commit_cert_size = 0;
  vc_cert_size = 0;
  verify_usig = λ m. true;
  verify_request = λ q. true;
  verify_rvc = λ rvc. true;
  usig_cert = λ c m. [];
  sign_rvc = λ rvc. [];
}

abbrev three : Config
three = record stack { n = 3; commit_cert_size = 2; vc_cert_size = 2 }

three_test : new_config stack 3 1 ≡ ok three
unfolding new_config
three_test = refl

two_test : new_config stack 2 1 ≡ err not_enough_replicas
unfolding new_config
two_test = refl

-- Twice the number of faults does not fit into 32 bits: a single replica is enough for New.
overflow_test :
    new_config stack 1 (2 ^ 31)
    ≡ ok (record stack { n = 1; commit_cert_size = 2 ^ 31 + 1; vc_cert_size = 2 ^ 31 + 1 })
unfolding new_config
overflow_test = refl

abbrev vote : ℕ → Commitment
vote id = record { replica_id = id; is_new_view = false; view = 0; primary_cv = 1; replica_cv = 1 }

abbrev change : ℕ → ViewChange
change id = vc_message id 1 log_end [] (record { counter = 2; cert = [] })

-- A proposal committed by the replicas 0 and 1, and a certificate from 1 and 2.
new_config-committed_intersect_example :
    (r : ℕ) × (r < 3)
    × (committed (vote 1 ∷ history (new_collector 2) [] (vote 0 ∷ [])) 0 1 r ≡ true)
    × (has_replica r (keys vc_key (change 1 ∷ change 2 ∷ [])) ≡ true)
unfolding new_config collect run validate_nv_cert
new_config-committed_intersect_example =
    new_config-committed_intersect stack three 3 1 (λ v. 0) 1 1 (vote 0 ∷ []) (vote 1)
      (change 1 ∷ change 2 ∷ []) (omega arith) (omega arith) refl refl (omega arith) (omega arith)
      ((λ e. cc), tt) (λ e. cc) refl (omega arith) refl
