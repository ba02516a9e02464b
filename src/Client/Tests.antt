-- ===== src/Client/Tests.antt =====
-- A client that tolerates one fault and gets replies of three replicas.
use minbft.Base.{
  Bool-cases, inl, inr, ◌<◌, Occurs, All, ◌⊎◌, ℕ, ◌≡◌, refl, true, false, some, List, [], ◌∷◌,
  arith, ◌==◌, ltb, ltb→lt, if◌then◌else◌, length, count_below,
}
use minbft.Messages.{Reply}
use minbft.Client.{
  prepare_request, handle_reply, ClientConfig, new_client, ClientEvent, operation, reply_from,
  run_client,
}
use minbft.Client.RequestBuffer.{Held, new_reply_set, add_request, add_reply}
use minbft.Client.Collect.{collect_replies}
use minbft.Client.Held.{Checked}
use minbft.Base.Result.{Result, ok, err, panic, invalid_signature}
use minbft.Protobuf.{PbMessage, pb_reply, pb_untyped, pb_hello, pb_commit, absent}
use minbft.Protobuf.Parse.{new_from_binary}
use minbft.Client.RequestStream.{
  registers, notified, Stream, waiting, after_reading, Reach, begin, adds, reads, sends,
}
use minbft.Client.Streaming.{Descending}
use minbft.Client.Streamed.{sent_once, waiting_served}
use minbft.Client.Incoming.{new_caller, WireEvent, submitted, attempted, arrived, run_wire}
use minbft.Client.Wire.{Came, wire_correct}
use minbft.Client.Crash.{Deadly, run_wire-panic}

-- The replicas below 3 have valid signatures, and the check of those of replica 9 panics.
abbrev authentic : ℕ → Result (Unit {0})
authentic id = if ltb id 3 then ok tt else (if id == 9 then panic else err invalid_signature)

authentic_known : (id : ℕ) → authentic id ≡ ok tt → id < 3
authentic_known id e = elim (Bool-cases (ltb id 3)) [
  | inl low ↦ ltb→lt id 3 low
  | inr high ↦ elim (Bool-cases (id == 9)) [
    | inl nine ↦ let no_way : panic ≡ ok tt = rw (high, nine) at e in cc
    | inr other ↦ let no_way : err invalid_signature ≡ ok tt = rw (high, other) at e in cc
  ]
]

known_replica : (r : Reply) → authentic r.replica_id ≡ ok tt → r.replica_id < 3
known_replica r e = authentic_known r.replica_id e

abbrev config : ClientConfig
config = record {
  id = 7;
  f = 1;
  verify = λ r. authentic r.replica_id;
  sign = λ q. q.sequence ∷ [];
  digest = λ l. length l;
}

abbrev answer : ℕ → List ℕ → Reply
answer id result = record {
  replica_id = id;
  client_id = 7;
  sequence = 100;
  result = result;
  signature = [];
}

-- Replica 0 is faulty, replica 1 answers twice, replica 5 does not exist.
abbrev answers : List Reply
answers = answer 0 [] ∷ answer 1 (4 ∷ []) ∷ answer 2 (4 ∷ []) ∷ []

abbrev events : List ClientEvent
events =
    operation (9 ∷ [])
    ∷ reply_from (answer 0 [])
    ∷ reply_from (answer 5 [])
    ∷ reply_from (answer 1 (4 ∷ []))
    ∷ reply_from (answer 1 [])
    ∷ operation []
    ∷ reply_from (answer 2 (4 ∷ []))
    ∷ []

abbrev pending : Held
pending = record {
  request = record { client_id = 7; sequence = 100; operation = 9 ∷ []; signature = 100 ∷ [] };
  replies = record {
    replicas =
        λ j. if 2 == j then true else if 1 == j then true else if 0 == j then true else false;
    msgs = answers;
  };
}

pending_test : (run_client config (new_client 100) events).buffer.held ≡ some pending
unfolding run_client add_request add_reply
pending_test = refl

result_test : collect_replies 1 config.digest (λ _. 0) answers ≡ some (100, 4 ∷ [])
unfolding collect_replies
result_test = refl

-- The same over the wire, with messages that the client skips.
abbrev wire_events : List (WireEvent PbMessage)
wire_events =
    submitted (9 ∷ [])
    ∷ attempted
    ∷ arrived (pb_reply (answer 0 []))
    ∷ arrived pb_untyped
    ∷ arrived (pb_hello 2)
    ∷ arrived (pb_reply (answer 1 (4 ∷ [])))
    ∷ arrived (pb_reply (answer 1 []))
    ∷ submitted []
    ∷ attempted
    ∷ arrived (pb_reply (answer 2 (4 ∷ [])))
    ∷ []

wire_test : (run_wire config ok (new_caller 100) wire_events).1.client.buffer.held ≡ some pending
unfolding run_wire add_request add_reply new_from_binary prepare_request handle_reply
wire_test = refl

wire_correct_example :
    (100 ≡ pending.request.sequence)
    × ((r : Reply) × (Checked config pending.request.sequence r × Came config ok wire_events r)
        × ((r.replica_id == 0) ≡ false)
        × (length r.result ≡ 1))
unfolding count_below
wire_correct_example =
    wire_correct config ok 3 (λ i. i == 0) 100 wire_events pending 3 100 (4 ∷ []) known_replica
      (omega arith) wire_test result_test

abbrev malformed_events : List (WireEvent PbMessage)
malformed_events = submitted [] ∷ attempted ∷ arrived (pb_commit 2 absent []) ∷ []

malformed_test : (run_wire config ok (new_caller 100) malformed_events).0 ≡ panic
unfolding run_wire add_request new_from_binary prepare_request
malformed_test = refl

struck_test :
    (run_wire config ok (new_caller 100) (arrived (pb_reply (answer 9 [])) ∷ [])).0 ≡ panic
unfolding run_wire new_from_binary handle_reply
struck_test = refl

run_wire-panic_example : (b : PbMessage) × Occurs (arrived b) malformed_events × Deadly config ok b
run_wire-panic_example =
    run_wire-panic config ok (λ b e. cc) 100 malformed_events (omega arith) (omega arith)
      malformed_test

abbrev offered : Stream
offered = record {
  buffer = record {
    last_seq = 5;
    held = some (record {
      request = record { client_id = 7; sequence = 5; operation = []; signature = [] };
      replies = new_reply_set;
    });
  };
  token = false;
  phase = waiting;
  last = 5;
  sent = record { client_id = 7; sequence = 5; operation = []; signature = [] } ∷ [];
  accepted = record { client_id = 7; sequence = 5; operation = []; signature = [] } ∷ [];
}

offered-Reach : Reach offered
unfolding add_request after_reading notified
offered-Reach =
    Reach.next
      (Reach.next
        (Reach.next
          (Reach.next begin (
            adds (record { client_id = 7; sequence = 5; operation = []; signature = [] }) refl
              refl))
          (registers refl refl))
        (reads refl refl))
      (sends (record { client_id = 7; sequence = 5; operation = []; signature = [] }) refl refl)

sent_once_example : Descending 6 offered.sent × All (λ q. Occurs q offered.accepted) offered.sent
sent_once_example = sent_once offered-Reach

waiting_served_example :
    (offered.token ≡ true)
    ⊎ ((h : Held) → offered.buffer.held ≡ some h → Occurs h.request offered.sent)
waiting_served_example = waiting_served offered-Reach refl
