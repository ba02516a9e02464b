-- ===== src/Node.antt =====
-- core/message-handling.go, core/request.go, core/replica.go: a replica with what it sends to clients
-- and to single peers, and with the events that its handlers do not cause themselves: results of the
-- application and expirations of timers.
pub mod Core
pub mod Executed
pub mod Answers
pub mod Replies
pub mod Forwards
pub mod Forwarded
pub mod Tests
use minbft.Base.{
  ℕ, ◌+◌, ◌%◌, ◌^◌, Bool, true, false, not, ◌||◌, ◌&&◌, Option, none, some, List, [], ◌∷◌, ◌++◌,
  length, leb, ltb, ◌==◌, if◌then◌else◌, update,
}
use minbft.Base.Result.{Result, ok, err, panic, unexpected_message, unexpected_replica}
use minbft.Messages.{Request, Reply, Message, hello, request, reply, req_view_change, certified}
use minbft.ClientState.Reply.{ReplyState, new_reply_state, Pass, add_reply, reply_pass}
use minbft.Replica.{Config, Replica, Timer, new_replica}
use minbft.Replica.Process.{handle_request}
use minbft.Replica.Run.{Event, peer_message, own_message, client_request, timeout, on_event}

pub record NodeConfig : Type 0 where
  pub core : Config
  pub sign_reply : Reply → List ℕ

-- `results` has what the application returned for the requests delivered to it, in their order, as far
-- as it has; the others' goroutines wait. `unicast` are the logs for single peers.
pub record Node : Type 0 where
  pub core : Replica
  pub results : ℕ → Option (List ℕ)
  pub replies : ℕ → ReplyState
  pub unicast : ℕ → List Message

abbrev pub new_node : NodeConfig → Node
new_node cfg = record {
  core = new_replica cfg.core;
  results = λ _. none;
  replies = λ _. new_reply_state;
  unicast = λ _. [];
}

-- The `i`th delivered request, where the last one stands first.
unfoldable pub delivery : List Request → ℕ → Option Request
delivery [] i = none
delivery (q ∷ l) i = if i == length l then some q else delivery l i

-- `NewReply`, and `sign` in makeGeneratedMessageHandler
unfoldable pub signed_reply : NodeConfig → Request → List ℕ → Reply
signed_reply cfg q result =
    let r : Reply = record {
      replica_id = cfg.core.id;
      client_id = q.client_id;
      sequence = q.sequence;
      result = result;
      signature = [];
    } in
    record r { signature = cfg.sign_reply r }

-- The goroutine of makeRequestExecutor, and the case of a Reply in makeGeneratedMessageConsumer
unfoldable pub finish_request : NodeConfig → Request → List ℕ → Node → Node
unfolding signed_reply
finish_request cfg q result n = record n {
  replies =
      update n.replies q.client_id (add_reply (n.replies q.client_id) (signed_reply cfg q result));
}

unfoldable pub note_result :
    NodeConfig → ℕ → List ℕ → Node → Option Request → Option (List ℕ) → Result Bool × Node
unfolding finish_request
note_result cfg i result n none returned = (ok false, n)
note_result cfg i result n (some q) (some r) = (ok false, n)
note_result cfg i result n (some q) none =
    (ok true, finish_request cfg q result (record n { results = update n.results i (some result) }))

-- The application sends the result of the `i`th delivered request, once.
unfoldable pub take_result : NodeConfig → ℕ → List ℕ → Node → Result Bool × Node
unfolding note_result delivery
take_result cfg i result n = note_result cfg i result n (delivery n.core.delivered i) (n.results i)

-- `unicastLogs[peer].Append`: the map has a log for every other replica, and nil for any other key.
unfoldable pub append_unicast : NodeConfig → ℕ → Message → Node → Result Bool × Node
append_unicast cfg peer m n =
    if ltb peer cfg.core.n && not (peer == cfg.core.id)
    then (ok true, record n { unicast = update n.unicast peer (n.unicast peer ++ m ∷ []) })
    else (panic, n)

-- The function that makePrepareTimerStarter has called on expiration
unfoldable pub forward_request : NodeConfig → ℕ → Request → Node → Result Bool × Node
unfolding append_unicast
forward_request cfg view q n = append_unicast cfg ((view % cfg.core.n) % 2 ^ 32) (request q) n

unfoldable pub handle_core : NodeConfig → Event → Node → Result Bool × Node
handle_core cfg e n = let (r, t) = on_event cfg.core e n.core in (r, record n { core = t })

-- handleOwnPeerMessages: an error is a panic.
unfoldable pub no_error : Result Bool × Node → Result Bool × Node
no_error (ok b, n) = (ok b, n)
no_error (err e, n) = (panic, n)
no_error (panic, n) = (panic, n)

-- makeClientMessageHandler up to the Reply
unfoldable pub handle_client : NodeConfig → Message → Node → Result Bool × Node
unfolding handle_core
handle_client cfg (request q) n = handle_core cfg (client_request q) n
handle_client cfg (hello r) n = (err unexpected_message, n)
handle_client cfg (reply r) n = (err unexpected_message, n)
handle_client cfg (req_view_change r) n = (err unexpected_message, n)
handle_client cfg (certified m) n = (err unexpected_message, n)

-- A timer that expires does not expire again until it is started.
abbrev pub expired : Timer → Timer
expired t = record t { running = false }

abbrev pub request_timer_off : ℕ → Node → Node
request_timer_off c n = record n {
  core = record n.core {
    request_timers = update n.core.request_timers c (expired (n.core.request_timers c));
  };
}

abbrev pub prepare_timer_off : ℕ → Node → Node
prepare_timer_off c n = record n {
  core = record n.core {
    prepare_timers = update n.core.prepare_timers c (expired (n.core.prepare_timers c));
  };
}

abbrev pub vc_timer_off : Node → Node
vc_timer_off n = record n { core = record n.core { vc_timer = none } }

unfoldable pub expire_request : NodeConfig → ℕ → Node → Result Bool × Node
unfolding handle_core
expire_request cfg c n =
    let t = n.core.request_timers c in
    if t.running then handle_core cfg (timeout t.view) (request_timer_off c n) else (ok false, n)

-- What the expired timer's function does; a running timer has a request.
unfoldable pub forward_captured : NodeConfig → ℕ → Option Request → Node → Result Bool × Node
unfolding forward_request
forward_captured cfg view (some q) n = forward_request cfg view q n
forward_captured cfg view none n = (panic, n)

unfoldable pub expire_prepare : NodeConfig → ℕ → Node → Result Bool × Node
unfolding forward_captured
expire_prepare cfg c n =
    let t = n.core.prepare_timers c in
    if t.running
    then forward_captured cfg t.view t.request (prepare_timer_off c n)
    else (ok false, n)

unfoldable pub expire_if_started : NodeConfig → Option ℕ → Node → Result Bool × Node
unfolding handle_core
expire_if_started cfg none n = (ok false, n)
expire_if_started cfg (some view) n = handle_core cfg (timeout view) (vc_timer_off n)

unfoldable pub expire_view_change : NodeConfig → Node → Result Bool × Node
unfolding expire_if_started
expire_view_change cfg n = expire_if_started cfg n.core.vc_timer n

-- Whatever happens to a replica from outside.
pub data NodeEvent : Type 0 where
  peer_in : Message → NodeEvent
  own_in : Message → NodeEvent
  client_in : Message → NodeEvent
  result_in : (i : ℕ) → List ℕ → NodeEvent
  request_expired : (client : ℕ) → NodeEvent
  prepare_expired : (client : ℕ) → NodeEvent
  view_change_expired : NodeEvent

unfoldable pub on_node_event : NodeConfig → NodeEvent → Node → Result Bool × Node
unfolding handle_core no_error handle_client take_result expire_request expire_prepare
    expire_view_change
on_node_event cfg (peer_in m) n = handle_core cfg (peer_message m) n
on_node_event cfg (own_in m) n = no_error (handle_core cfg (own_message m) n)
on_node_event cfg (client_in m) n = handle_client cfg m n
on_node_event cfg (result_in i result) n = take_result cfg i result n
on_node_event cfg (request_expired c) n = expire_request cfg c n
on_node_event cfg (prepare_expired c) n = expire_prepare cfg c n
on_node_event cfg view_change_expired n = expire_view_change cfg n

-- A panic ends the process, what other events return is only logged.
unfoldable pub run_node : NodeConfig → List NodeEvent → Node → Node
unfolding on_node_event
run_node cfg [] n = n
run_node cfg (e ∷ es) n = elim (on_node_event cfg e n).0 [
  | panic ↦ (on_node_event cfg e n).1
  | ok b ↦ run_node cfg es (on_node_event cfg e n).1
  | err x ↦ run_node cfg es (on_node_event cfg e n).1
]

-- makeRequestReplier, and a pass of the ReplyChannel that makeClientMessageHandler reads
unfoldable pub client_reply : Node → Request → Result Pass
client_reply n q = reply_pass (n.replies q.client_id) q.sequence

-- makeHelloHandler: the messages of the logs that are streamed to a peer, its own log among them.
unfoldable pub hello_logs : NodeConfig → Message → Node → Result (List Message × List Message)
hello_logs cfg (hello peer) n =
    if leb cfg.core.n peer || peer == cfg.core.id
    then err unexpected_replica
    else ok (n.core.log, n.unicast peer)
hello_logs cfg (request q) n = err unexpected_message
hello_logs cfg (reply r) n = err unexpected_message
hello_logs cfg (req_view_change r) n = err unexpected_message
hello_logs cfg (certified m) n = err unexpected_message
