-- ===== src/Node/Tests.antt =====
-- A backup of three replicas that executes a client's request, and one whose primary is silent.
use minbft.Base.{◌≡◌, refl, true, List, [], ◌∷◌, arith}
use minbft.Base.Result.{ok, err, unexpected_replica}
use minbft.Messages.{Request, Reply, CertifiedMessage, prepare, commit, certified, request, hello}
use minbft.ClientState.Reply.{sends, add_reply, reply_pass}
use minbft.ClientState.Seq.{attempt_capture, set_captured, release, prepare_seq, retire_seq}
use minbft.RequestList.{add, remove}
use minbft.Commitment.{collect}
use minbft.Replica.{generate}
use minbft.Replica.Requests.{
  process_request, capture_request, release_request, apply_request, start_request_timer,
  start_prepare_timer, stop_request_timer, stop_prepare_timer, prepare_request, retire_request,
  execute_request,
}
use minbft.Replica.Commits.{apply_prepare, apply_commit}
use minbft.Replica.Views.{process_view_message, apply_message}
use minbft.Replica.Process.{
  handle_message, handle_request, handle, handle_certified, handle_with, process_peer,
  process_certified, process_content,
}
use minbft.Replica.Validate.{validate_request, validate_certified, validate_content}
use minbft.Replica.Run.{on_event}
use minbft.ViewChange.{is_primary}
use minbft.Node.{
  NodeConfig, new_node, NodeEvent, peer_in, own_in, client_in, result_in, prepare_expired, run_node,
  client_reply, signed_reply, hello_logs, expire_prepare, append_unicast,
}
use minbft.Node.Forwarded.{Forwarded, run_node-Forwarded}

abbrev pub backup : NodeConfig
backup = record {
  core = record {
    id = 1;
    n = 3;
    commit_cert_size = 2;
    vc_cert_size = 2;
    verify_usig = λ m. true;
    verify_request = λ q. true;
    verify_rvc = λ rvc. true;
    usig_cert = λ c m. c ∷ [];
    sign_rvc = λ rvc. [];
  };
  sign_reply = λ r. r.sequence ∷ r.result;
}

abbrev pub put : Request
put = record { client_id = 7; sequence = 5; operation = 1 ∷ []; signature = [] }

abbrev pub proposal : CertifiedMessage
proposal = prepare 0 0 put (record { counter = 1; cert = [] })

abbrev pub own_commit : CertifiedMessage
own_commit = commit 1 proposal (record { counter = 1; cert = 1 ∷ [] })

abbrev events : List NodeEvent
events =
    client_in (request put)
    ∷ peer_in (certified proposal)
    ∷ own_in (certified own_commit)
    ∷ result_in 0 (9 ∷ [])
    ∷ []

abbrev pub answer : Reply
answer = signed_reply backup put (9 ∷ [])

answer_test : client_reply (run_node backup events (new_node backup)) put ≡ ok (sends answer)
unfolding run_node on_event handle_message handle_request handle handle_certified handle_with
    process_request capture_request attempt_capture set_captured release_request release
    apply_request start_request_timer start_prepare_timer stop_request_timer stop_prepare_timer
    prepare_request retire_request execute_request prepare_seq retire_seq add remove generate
    process_peer process_certified process_content process_view_message apply_message apply_prepare
    apply_commit collect validate_request validate_certified validate_content is_primary add_reply
    client_reply reply_pass
answer_test = refl

abbrev silent : List NodeEvent
silent = client_in (request put) ∷ []

silent_test : ((run_node backup silent (new_node backup)).core.prepare_timers 7).running ≡ true
unfolding run_node on_event handle_message handle_request handle process_request capture_request
    attempt_capture set_captured release_request release apply_request start_request_timer
    start_prepare_timer add validate_request is_primary
silent_test = refl

run_node-Forwarded_example : Forwarded backup (run_node backup silent (new_node backup)) 7
run_node-Forwarded_example =
    run_node-Forwarded backup silent 7 (omega arith) (omega arith) silent_test

forwarded_test :
    (run_node backup (client_in (request put) ∷ prepare_expired 7 ∷ []) (new_node backup)).unicast 0
    ≡ request put ∷ []
unfolding run_node on_event handle_message handle_request handle process_request capture_request
    attempt_capture set_captured release_request release apply_request start_request_timer
    start_prepare_timer add validate_request is_primary expire_prepare append_unicast
forwarded_test = refl

hello_test : hello_logs backup (hello 1) (new_node backup) ≡ err unexpected_replica
unfolding hello_logs
hello_test = refl
