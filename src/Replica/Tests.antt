-- ===== src/Replica/Tests.antt =====
-- A backup of three replicas that serves a request in the first view.
use minbft.Base.{ℕ, inc64, All, length, refl, ◌≡◌, true, List, [], ◌∷◌}
use minbft.Base.Result.{ok}
use minbft.Messages.{Request, CertifiedMessage, prepare, commit, certified, req_view_change}
use minbft.Replica.{Config, Replica, new_replica}
use minbft.Replica.Run.{Event, peer_message, own_message, client_request, timeout}
use minbft.Replica.{generate, generate_rvc}
use minbft.Replica.Requests.{
  process_request, capture_request, release_request, apply_request, start_request_timer,
  start_prepare_timer, stop_request_timer, stop_prepare_timer, prepare_request, retire_request,
  execute_request, unprepare_requests,
}
use minbft.Replica.Commits.{apply_prepare, apply_commit}
use minbft.Replica.Views.{
  process_view_message, apply_message, handle_timeout, request_view_change, certified_messages,
  process_rvc, collect_rvc_step, start_view_change, advance_expected_view,
}
use minbft.Replica.Process.{
  handle_message, handle_request, handle, handle_certified, handle_with, process_peer,
  process_certified, process_content, handle_rvc,
}
use minbft.Replica.Validate.{
  validate_request, validate_certified, validate_content, validate_peer_rvc, validate_rvc,
}
use minbft.Replica.Run.{run}
use minbft.ViewChange.{is_primary, validate_message_log, collect_rvc}
use minbft.ClientState.Seq.{attempt_capture, set_captured, release, prepare_seq, retire_seq}
use minbft.RequestList.{add, remove}
use minbft.Commitment.{collect}
use minbft.Replica.Once.{ClientWf, of_client, run-ClientWf}
use minbft.ViewState.{advance_expected}
use minbft.Replica.Entries.{Acceptable}
use minbft.Replica.OwnLog.{run_log-validate}
use minbft.Replica.Order.{Outcome, process_certified_order}

abbrev backup : Config
backup = record {
  id = 1;
  n = 3;
  commit_cert_size = 2;
  vc_cert_size = 2;
  verify_usig = λ m. true;
  verify_request = λ q. true;
  verify_rvc = λ rvc. true;
  usig_cert = λ c m. c ∷ [];
  sign_rvc = λ rvc. [];
}

abbrev put : Request
put = record { client_id = 7; sequence = 5; operation = 1 ∷ []; signature = [] }

abbrev proposal : CertifiedMessage
proposal = prepare 0 0 put (record { counter = 1; cert = [] })

abbrev own_commit : CertifiedMessage
own_commit = commit 1 proposal (record { counter = 1; cert = 1 ∷ [] })

abbrev events : List Event
events =
    client_request put
    ∷ peer_message (certified proposal)
    ∷ own_message (certified own_commit)
    ∷ client_request put
    ∷ timeout 0
    ∷ []

abbrev served : Replica
served = run backup events (new_replica backup)

run-ClientWf_example : ClientWf (served.seqs 7) (of_client 7 served.delivered)
run-ClientWf_example = run-ClientWf backup events 7

process_certified_order_example :
    let (r, t) = process_certified backup proposal (new_replica backup) in
    Outcome proposal (new_replica backup) t r
process_certified_order_example = process_certified_order backup proposal (new_replica backup)

-- The request is executed once, a repetition changes nothing, and the log holds the Commit and, after
-- the timeout, a ReqViewChange message.
served_test :
    (served.delivered ≡ put ∷ [])
    × (served.pending ≡ [])
    × (served.prepared ≡ [])
    × (length served.log ≡ 2)
    × (served.last_ui 0 ≡ 1)
    × (served.last_ui 1 ≡ 1)
    × (served.requested ≡ 1)
unfolding run handle_message handle_request handle handle_certified handle_with process_request
    capture_request attempt_capture set_captured release_request release apply_request
    start_request_timer start_prepare_timer stop_request_timer stop_prepare_timer prepare_request
    retire_request execute_request prepare_seq retire_seq add remove generate process_peer
    process_certified process_content process_view_message apply_message apply_prepare apply_commit
    collect handle_timeout request_view_change generate_rvc validate_request validate_certified
    validate_content is_primary
served_test = (refl, refl, refl, refl, refl, refl, refl)

abbrev ask : ℕ → Event
ask id = peer_message (req_view_change (record { replica_id = id; new_view = 1; signature = [] }))

-- The backup commits to the proposal, and then two replicas ask for the next view.
abbrev changing : List Event
changing = client_request put ∷ peer_message (certified proposal) ∷ ask 0 ∷ ask 2 ∷ []

run_log-validate_example :
    let s = run backup changing (new_replica backup) in
    All (Acceptable backup) (certified_messages s.log)
    × (validate_message_log 1 s.view.expected_view (certified_messages s.log) (inc64 s.usig)
        ≡ ok tt)
run_log-validate_example = run_log-validate backup changing

-- The log starts anew with the ViewChange, which has the second counter.
changing_test :
    let s = run backup changing (new_replica backup) in
    (length s.log ≡ 1) × (s.view.expected_view ≡ 1) × (s.usig ≡ 2)
unfolding run handle_message handle_request handle handle_certified handle_with process_request
    capture_request attempt_capture set_captured release_request release apply_request
    start_request_timer start_prepare_timer stop_request_timer stop_prepare_timer prepare_request
    retire_request execute_request prepare_seq retire_seq add remove generate process_peer
    process_certified process_content process_view_message apply_message apply_prepare apply_commit
    collect validate_request validate_certified validate_content is_primary handle_rvc process_rvc
    collect_rvc_step collect_rvc start_view_change advance_expected_view advance_expected
    unprepare_requests validate_peer_rvc validate_rvc
changing_test = (refl, refl, refl)
