-- ===== src/Streams.antt =====
-- core/message-handling.go and core/replica.go: the streams of bytes on which a replica gets messages
-- and sends what it has for the other side, each with a goroutine of its own.
pub mod Run
pub mod Lasting
pub mod Phases
pub mod Handled
pub mod Steps
pub mod Answered
pub mod Others
pub mod Ended
pub mod Drained
pub mod Peers
pub mod Started
pub mod Tests
use minbft.Base.{
  drop, length, Bool, ℕ, Bool, true, false, Option, none, some, List, [], ◌∷◌, ◌++◌, if◌then◌else◌,
  update,
}
use minbft.Base.Result.{Result, ok, err, panic}
use minbft.Messages.{Request, Reply, Message, hello, request, reply, req_view_change, certified}
use minbft.Protobuf.{PbMessage, to_pb}
use minbft.Protobuf.Parse.{new_from_binary}
use minbft.ClientState.Reply.{Pass, waits, closes, sends}
use minbft.Node.{
  NodeConfig, Node, new_node, NodeEvent, peer_in, own_in, client_in, result_in, request_expired,
  prepare_expired, view_change_expired, on_node_event, client_reply, hello_logs,
}

-- Which handler a stream is made with: a connection to a peer that this replica has started, one that
-- a peer has started, or one of a client.
pub data Kind : Type 0 where
  own_connection : Kind
  from_peer : Kind
  from_client : Kind

-- The goroutine that streams a log (supplyMessages of core/internal/messagelog/messagelog.go): the
-- messages that it has read and not sent yet, and how many of the log it has read.
pub record Feed : Type 0 where
  pub queued : List Message
  pub position : ℕ

-- A log that is read for the first time
unfoldable pub feed : List Message → Feed
feed log = record { queued = log; position = length log }

-- The log is read again, from its beginning if it was reset, where the rest of the old log is dropped.
unfoldable pub reread : (was_reset : Bool) → List Message → Feed → Feed
unfolding feed
reread true log f = feed log
reread false log f = record { queued = f.queued ++ drop f.position log; position = length log }

-- The channel that a handler returns: that of makeClientMessageHandler has one message at most and is
-- closed; that of makeHelloHandler, for the peer that said Hello, is fed from the stream of the
-- replica's log and from that of the log for this peer.
pub data ReplyChan : Type 0 where
  buffered : Option Message → ReplyChan
  logs : (hello : Message) → (broadcast unicast : Feed) → ReplyChan

unfoldable pub reread_logs :
    (was_reset was_reset' : Bool) → Result (List Message × List Message) → ReplyChan → ReplyChan
unfolding reread
reread_logs x y r (buffered o) = buffered o
reread_logs x y (ok l) (logs h b u) = logs h (reread x l.0 b) (reread y l.1 u)
reread_logs x y (err e) (logs h b u) = logs h b u
reread_logs x y panic (logs h b u) = logs h b u

unfoldable pub hello_of : ReplyChan → Message
hello_of (logs h b u) = h
hello_of (buffered o) = hello 0

-- Where the goroutine of a stream is: it reads, it waits for the Reply to a request in
-- makeClientMessageHandler, it reads a reply channel, it offers bytes, or it has returned.
pub data Phase (Bytes : Type 0) : Type 0 where
  reading : Phase Bytes
  answering : Request → Phase Bytes
  replying : ReplyChan → Phase Bytes
  sending : Bytes → ReplyChan → Phase Bytes
  ended : Phase Bytes

-- `out` has what was taken from the outgoing channel, the first bytes first.
pub record Stream (Bytes : Type 0) : Type 0 where
  pub phase : Phase Bytes
  pub out : List Bytes

pub record Net (Bytes : Type 0) : Type 0 where
  pub node : Node
  pub streams : ℕ → Stream Bytes

-- The protocol-buffers library is a parameter.
pub record NetConfig (Bytes : Type 0) : Type 0 where
  pub node : NodeConfig
  pub kind : ℕ → Kind
  pub decode : Bytes → Result PbMessage
  pub encode : PbMessage → Bytes

abbrev pub new_stream : {Bytes : Type 0} → Stream Bytes
new_stream = record { phase = reading; out = [] }

abbrev pub new_net : {Bytes : Type 0} → NetConfig Bytes → Net Bytes
new_net cfg = record { node = new_node cfg.node; streams = λ _. new_stream }

-- What happens to the stream `i`, or inside the replica. A message comes in; the other side closes the
-- connection; the replica is terminated; the Reply that is waited for is looked for; the reply channel
-- is read, where one of the two logs yields a message (`broadcast` says which) or the buffer is; the
-- logs are read again; offered bytes are taken.
pub data NetEvent (Bytes : Type 0) : Type 0 where
  received : (i : ℕ) → Bytes → NetEvent Bytes
  lost : (i : ℕ) → NetEvent Bytes
  stopped : (i : ℕ) → NetEvent Bytes
  looked_for : (i : ℕ) → NetEvent Bytes
  log_message : (i : ℕ) → (broadcast : Bool) → NetEvent Bytes
  logs_read : (i : ℕ) → (broadcast_reset unicast_reset : Bool) → NetEvent Bytes
  next_reply : (i : ℕ) → NetEvent Bytes
  taken : (i : ℕ) → NetEvent Bytes
  inside : NodeEvent → NetEvent Bytes

unfoldable pub is_inside : NodeEvent → Bool
is_inside (peer_in m) = false
is_inside (client_in m) = false
is_inside (own_in m) = true
is_inside (result_in i result) = true
is_inside (request_expired c) = true
is_inside (prepare_expired c) = true
is_inside view_change_expired = true

module _ {Bytes : Type 0} where
  unfoldable pub set_phase : ℕ → Phase Bytes → Net Bytes → Net Bytes
  set_phase i p net = record net {
    streams = update net.streams i (record (net.streams i) { phase = p });
  }

  -- The client's request is processed, and its Reply is waited for.
  unfoldable pub awaiting : Message → Phase Bytes
  awaiting (request q) = answering q
  awaiting (hello r) = ended
  awaiting (reply r) = ended
  awaiting (req_view_change r) = ended
  awaiting (certified m) = ended

  -- The stream goes on in `p` after its message was handled, and is dropped if there is an error.
  unfoldable pub handled :
      ℕ → Phase Bytes → Result Bool × Node → Net Bytes → Result Bool × Net Bytes
  unfolding set_phase
  handled i p (ok new, n) net = (ok new, set_phase i p (record net { node = n }))
  handled i p (err e, n) net = (err e, set_phase i ended (record net { node = n }))
  handled i p (panic, n) net = (panic, record net { node = n })

  unfoldable pub greeted :
      ℕ → Message → Result (List Message × List Message) → Net Bytes → Result Bool × Net Bytes
  unfolding set_phase feed
  greeted i m (ok l) net = (ok true, set_phase i (replying (logs m (feed l.0) (feed l.1))) net)
  greeted i m (err e) net = (err e, set_phase i ended net)
  greeted i m panic net = (panic, net)

  -- `handleMessage`, for the stream's handler
  unfoldable pub handle_in :
      NetConfig Bytes → ℕ → Message → Kind → Net Bytes → Result Bool × Net Bytes
  unfolding handled greeted awaiting
  handle_in cfg i m own_connection net =
      handled i reading (on_node_event cfg.node (peer_in m) net.node) net
  handle_in cfg i m from_client net =
      handled i (awaiting m) (on_node_event cfg.node (client_in m) net.node) net
  handle_in cfg i m from_peer net = greeted i m (hello_logs cfg.node m net.node) net

  unfoldable pub parsed : NetConfig Bytes → ℕ → Result Message → Net Bytes → Result Bool × Net Bytes
  unfolding handle_in set_phase
  parsed cfg i (ok m) net = handle_in cfg i m (cfg.kind i) net
  parsed cfg i (err e) net = (err e, set_phase i ended net)
  parsed cfg i panic net = (panic, net)

  unfoldable pub receive :
      NetConfig Bytes → ℕ → Bytes → Phase Bytes → Net Bytes → Result Bool × Net Bytes
  unfolding parsed
  receive cfg i b reading net = parsed cfg i (new_from_binary cfg.decode b) net
  receive cfg i b (answering q) net = (ok false, net)
  receive cfg i b (replying c) net = (ok false, net)
  receive cfg i b (sending d c) net = (ok false, net)
  receive cfg i b ended net = (ok false, net)

  unfoldable pub lose : ℕ → Phase Bytes → Net Bytes → Result Bool × Net Bytes
  unfolding set_phase
  lose i reading net = (ok false, set_phase i ended net)
  lose i (answering q) net = (ok false, net)
  lose i (replying c) net = (ok false, net)
  lose i (sending d c) net = (ok false, net)
  lose i ended net = (ok false, net)
