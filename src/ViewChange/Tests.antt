-- ===== src/ViewChange/Tests.antt =====
-- Tests of the validators and collectors, and their theorems at concrete inputs.
use minbft.Base.{ℕ, ◌<◌, ◌≡◌, ◌≢◌, ◌↔◌, refl, true, false, List, [], ◌∷◌, ◌++◌, arith}
use minbft.Base.Result.{
  ok, err, duplicate_message, missing_primary_vc, incomplete_log, message_before, unexpected_ui,
}
use minbft.Messages.{
  Ui, Request, ReqViewChange, CertifiedMessage, prepare, view_change, new_view, ViewChange,
  vc_message, log_end, cert_end,
}
use minbft.Commitment.{Commitment, collect, run, new_collector}
use minbft.Commitment.History.{history, committed}
use minbft.ViewChange.{
  is_primary, keys, vc_key, validate_vc_cert, validate_nv_cert, validate_message_log,
  validate_view_change, collect_rvc, collect_vc,
}
use minbft.ViewChange.Cert.{has_replica}
use minbft.ViewChange.Log.{IsLog, validate_message_log_iff}
use minbft.ViewChange.Collect.{run_rvc, collect_rvc-validate_vc_cert}
use minbft.ViewChange.CollectVc.{run_vc, collect_vc-validate_nv_cert}
use minbft.ViewChange.Repeat.{first_vc, second_vc, third_vc, validate_view_change-repeat}
use minbft.ViewChange.Intersect.{committed_intersect}

abbrev rvc : ℕ → ℕ → ReqViewChange
rvc r v = record { replica_id = r; new_view = v; signature = [] }

abbrev ui_of : ℕ → Ui
ui_of c = record { counter = c; cert = [] }

abbrev req : Request
req = record { client_id = 7; sequence = 1; operation = []; signature = [] }

abbrev vc : ℕ → ℕ → ViewChange
vc r v = vc_message r v log_end [] (ui_of 1)

-- The log of replica 0, the primary of the first view.
abbrev log : List CertifiedMessage
log = prepare 0 0 req (ui_of 1) ∷ prepare 0 0 req (ui_of 2) ∷ []

cert_valid : validate_vc_cert 2 1 (rvc 0 1 ∷ rvc 2 1 ∷ []) ≡ ok tt
unfolding validate_vc_cert
cert_valid = refl

cert_duplicate : validate_vc_cert 2 1 (rvc 0 1 ∷ rvc 0 1 ∷ []) ≡ err duplicate_message
unfolding validate_vc_cert
cert_duplicate = refl

nv_cert_no_primary : validate_nv_cert 2 1 1 (vc 0 1 ∷ vc 2 1 ∷ []) ≡ err missing_primary_vc
unfolding validate_nv_cert
nv_cert_no_primary = refl

log_valid : validate_message_log 0 0 log 3 ≡ ok tt
unfolding validate_message_log
log_valid = refl

log_gap : validate_message_log 0 0 log 4 ≡ err unexpected_ui
unfolding validate_message_log
log_gap = refl

log_empty : validate_message_log 0 1 [] 1 ≡ err incomplete_log
unfolding validate_message_log
log_empty = refl

log_two_transitions :
    validate_message_log 0 2
      (new_view 0 1 cert_end (ui_of 3) ∷ view_change (vc_message 0 2 log_end [] (ui_of 4)) ∷ [])
      5
    ≡ err message_before
unfolding validate_message_log
log_two_transitions = refl

validate_message_log_iff_example : (validate_message_log 0 0 log 3 ≡ ok tt) ↔ IsLog 0 0 log 3
validate_message_log_iff_example =
    validate_message_log_iff 0 0 3 log (omega arith) (omega arith) (omega arith)

collect_rvc-validate_vc_cert_example : validate_vc_cert 2 1 (rvc 0 1 ∷ rvc 2 1 ∷ []) ≡ ok tt
unfolding collect_rvc run_rvc
collect_rvc-validate_vc_cert_example =
    collect_rvc-validate_vc_cert 2 (rvc 0 1 ∷ rvc 0 1 ∷ rvc 1 2 ∷ []) (rvc 2 1)
      (rvc 0 1 ∷ rvc 2 1 ∷ []) refl

-- Replica 1 is the primary of view 1; its own message comes last.
collect_vc-validate_nv_cert_example :
    (validate_nv_cert 2 1 1 (vc 1 1 ∷ vc 0 1 ∷ []) ≡ ok tt) × (is_primary 1 1 3 ≡ true)
unfolding collect_vc run_vc
collect_vc-validate_nv_cert_example =
    collect_vc-validate_nv_cert 1 3 2 (vc 0 1 ∷ []) (vc 1 1) (vc 1 1 ∷ vc 0 1 ∷ [])
      (refl, (refl, tt)) refl

validate_view_change-repeat_example :
    (validate_view_change 2 (first_vc 1 (rvc 0 1 ∷ rvc 2 1 ∷ [])) ≡ ok tt)
    × (validate_view_change 2 (second_vc 1 (rvc 0 1 ∷ rvc 2 1 ∷ []) (rvc 0 2 ∷ rvc 2 2 ∷ []))
        ≡ ok tt)
    × (validate_view_change 2 (third_vc 1 cert_end (rvc 0 2 ∷ rvc 2 2 ∷ [])) ≡ ok tt)
    × (validate_nv_cert 2 2 2 (
          []
          ++ (second_vc 1 (rvc 0 1 ∷ rvc 2 1 ∷ []) (rvc 0 2 ∷ rvc 2 2 ∷ [])
              ∷ ([] ++ (third_vc 1 cert_end (rvc 0 2 ∷ rvc 2 2 ∷ []) ∷ []))))
        ≢ ok tt)
unfolding validate_vc_cert
validate_view_change-repeat_example =
    validate_view_change-repeat 2 1 2 (rvc 0 1 ∷ rvc 2 1 ∷ []) (rvc 0 2 ∷ rvc 2 2 ∷ []) cert_end []
      [] [] refl refl

abbrev vote : ℕ → ℕ → Commitment
vote r cv = record {
  replica_id = r;
  is_new_view = false;
  view = 0;
  primary_cv = cv;
  replica_cv = cv;
}

-- With three replicas: a proposal committed by 0 and 1, and a certificate for view 1 from 1 and 2.
committed_intersect_example :
    (r : ℕ) × (r < 3)
    × (committed (vote 1 1 ∷ history (new_collector 2) [] (vote 0 1 ∷ [])) 0 1 r ≡ true)
    × (has_replica r (keys vc_key (vc 1 1 ∷ vc 2 1 ∷ [])) ≡ true)
unfolding collect run validate_nv_cert
committed_intersect_example =
    committed_intersect (λ v. 0) 3 2 1 1 (vote 0 1 ∷ []) (vote 1 1) (vc 1 1 ∷ vc 2 1 ∷ [])
      (omega arith) refl (omega arith) (omega arith) ((λ e. cc), tt) (λ e. cc) refl (omega arith)
      refl
