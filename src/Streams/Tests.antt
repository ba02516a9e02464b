-- ===== src/Streams/Tests.antt =====
-- A backup with a client on stream 0 and the primary on stream 1; replica 2 greets it on stream 2.
use minbft.Base.{
  true, false, not, ℕ, ◌+◌, ◌*◌, ◌≤◌, ◌<◌, ◌≢◌, ◌⊎◌, update, Occurs, ◌≡◌, ◌==◌, refl, List, [], ◌∷◌,
  arith, All, if◌then◌else◌,
}
use minbft.Base.Result.{
  ok, err, panic, unknown_type, validation, unexpected_replica, not_connected, not_enough_replicas,
}
use minbft.Messages.{request, certified, reply}
use minbft.Protobuf.{PbMessage, pb_hello, pb_untyped, to_pb}
use minbft.Protobuf.Parse.{new_from_binary}
use minbft.ClientState.Reply.{add_reply, reply_pass}
use minbft.ClientState.Seq.{attempt_capture, set_captured, release, prepare_seq, retire_seq}
use minbft.RequestList.{add, remove}
use minbft.Commitment.{collect}
use minbft.Replica.{Config, generate}
use minbft.Replica.Setup.{new_config}
use minbft.Replica.Requests.{
  process_request, capture_request, release_request, apply_request, start_request_timer,
  start_prepare_timer, stop_request_timer, stop_prepare_timer, prepare_request, retire_request,
  execute_request,
}
use minbft.Replica.Commits.{apply_prepare, apply_commit}
use minbft.Replica.Views.{process_view_message, apply_message}
use minbft.Replica.Process.{
  handle_message, handle_request, handle, handle_certified, handle_with, process_peer,
  process_certified, process_content,
}
use minbft.Replica.Validate.{validate_hello, validate_request, validate_certified, validate_content}
use minbft.Replica.Run.{on_event}
use minbft.ViewChange.{is_primary}
use minbft.Usig.{marshal_binary, unmarshal_binary}
use minbft.Node.{hello_logs, own_in, result_in, client_reply, on_node_event}
use minbft.Node.Tests.{backup, put, proposal, own_commit, answer}
use minbft.Streams.{
  log_message, logs_read, Net, own_connection, from_peer, from_client, new_net, NetConfig, NetEvent,
  received, looked_for, next_reply, taken, inside,
}
use minbft.Streams.Run.{on_net, run_net}
use minbft.Streams.Others.{without}
use minbft.Streams.Answered.{Answers, run_net-Answers}
use minbft.Streams.Ended.{run_net-refused}
use minbft.Streams.Started.{new_connected, Unreachable, new_connected_sizes}
use minbft.Streams.Peers.{
  Greets, start_peer_connections, first_message, start_peer_connections-greeted,
}

abbrev wired : NetConfig PbMessage
wired = record {
  node = backup;
  kind = λ i. if i == 0 then from_client else (if i == 1 then own_connection else from_peer);
  decode = ok;
  encode = λ p. p;
}

abbrev events : List (NetEvent PbMessage)
events =
    received 0 (to_pb (request put))
    ∷ received 1 (to_pb (certified proposal))
    ∷ inside (own_in (certified own_commit))
    ∷ inside (result_in 0 (9 ∷ []))
    ∷ looked_for 0
    ∷ next_reply 0
    ∷ taken 0
    ∷ []

sent_test : ((run_net wired events (new_net wired)).streams 0).out ≡ to_pb (reply answer) ∷ []
unfolding run_net new_from_binary to_pb marshal_binary unmarshal_binary on_node_event on_event
    handle_message handle_request handle handle_certified handle_with process_request
    capture_request attempt_capture set_captured release_request release apply_request
    start_request_timer start_prepare_timer stop_request_timer stop_prepare_timer prepare_request
    retire_request execute_request prepare_seq retire_seq add remove generate process_peer
    process_certified process_content process_view_message apply_message apply_prepare apply_commit
    collect validate_request validate_certified validate_content is_primary add_reply client_reply
    reply_pass
sent_test = refl

run_net-Answers_example :
    All
      (Answers wired events 0 (run_net wired events (new_net wired)).node)
      ((run_net wired events (new_net wired)).streams 0).out
run_net-Answers_example = run_net-Answers wired events 0 refl

refused_test : (on_net wired (received 0 pb_untyped) (new_net wired)).0 ≡ err unknown_type
unfolding on_net new_from_binary
refused_test = refl

run_net-refused_example :
    run_net wired (received 0 pb_untyped ∷ events) (new_net wired)
    ≡ run_net wired (without 0 events) (on_net wired (received 0 pb_untyped) (new_net wired)).1
run_net-refused_example =
    run_net-refused wired 0 pb_untyped events (new_net wired) unknown_type refused_test

connected_test : (start_peer_connections 2 3 (λ p. true)).1 ≡ ok tt
unfolding start_peer_connections
connected_test = refl

-- A net with a message in the replica's log and one in that for replica 2.
abbrev logged_net : Net PbMessage
logged_net =
    let net : Net PbMessage = new_net wired in
    record net {
      node = record net.node {
        core = record net.node.core { log = certified own_commit ∷ [] };
        unicast = update net.node.unicast 2 (request put ∷ []);
      };
    }

-- The two logs' messages are passed on, in any order of the two.
logs_test :
    ((run_net wired
        (received 2 (first_message (λ p. p) 2)
          ∷ log_message 2 false
          ∷ taken 2
          ∷ log_message 2 false
          ∷ logs_read 2 false false
          ∷ log_message 2 true
          ∷ taken 2
          ∷ [])
        logged_net).streams
      2).out
    ≡ to_pb (request put) ∷ to_pb (certified own_commit) ∷ []
unfolding run_net first_message new_from_binary to_pb marshal_binary unmarshal_binary hello_logs
logs_test = refl

start_peer_connections-greeted_example :
    Occurs 1 (start_peer_connections 2 3 (λ p. true)).0 × Greets wired 2 2 logged_net
start_peer_connections-greeted_example =
    start_peer_connections-greeted 2 3 (λ p. true) 1 wired 2 logged_net (omega arith) connected_test
      (omega arith) (λ e. absurd (omega arith)) refl refl (λ p. refl) refl refl

-- All replicas but number 0 can be reached.
new_connected_sizes_example :
    ((3 < 2 * 1 + 1)
      × (new_connected backup.core 3 1 (λ p. not (p == 0)) ≡ err not_enough_replicas))
    ⊎ ((2 * 1 + 1 ≤ 3)
        × ((p : ℕ) × (p < 3) × Unreachable 1 (λ p. not (p == 0)) p)
        × (new_connected backup.core 3 1 (λ p. not (p == 0)) ≡ err not_connected))
    ⊎ ((2 * 1 + 1 ≤ 3)
        × ((p : ℕ) → p < 3 → p ≢ 1 → not (p == 0) ≡ true)
        × ((c : Config) × (new_connected backup.core 3 1 (λ p. not (p == 0)) ≡ ok c)
            × (c.n ≡ 3)
            × (c.commit_cert_size + 1 ≡ 3)
            × (1 < c.commit_cert_size)
            × (1 < c.vc_cert_size)
            × (c.vc_cert_size + 1 ≤ 3)
            × (c.commit_cert_size + c.vc_cert_size ≡ 3 + 1)))
new_connected_sizes_example =
    new_connected_sizes backup.core 3 1 (λ p. not (p == 0)) (omega arith) (omega arith)

new_connected_test : new_connected backup.core 3 1 (λ p. not (p == 0)) ≡ err not_connected
unfolding new_connected new_config start_peer_connections
new_connected_test = refl

-- A Hello that a peer sends on a connection of this replica: for one out of range there is an error, for
-- another one a panic.
hello_in_test :
    ((on_net wired (received 1 (pb_hello 7)) (new_net wired)).0
      ≡ err (validation unexpected_replica))
    × ((on_net wired (received 1 (pb_hello 2)) (new_net wired)).0 ≡ panic)
unfolding on_net new_from_binary on_node_event on_event handle_message handle validate_hello
hello_in_test = (refl, refl)
