-- ===== src/Streams/Run.antt =====
-- core/message-handling.go: what a stream sends, and all events on the streams of a replica.
use minbft.Base.{
  Bool, ℕ, Bool, true, false, Option, none, some, List, [], ◌∷◌, ◌++◌, if◌then◌else◌, update,
}
use minbft.Base.Result.{Result, ok, err, panic}
use minbft.Messages.{Message, reply}
use minbft.Protobuf.{to_pb}
use minbft.ClientState.Reply.{Pass, waits, closes, sends}
use minbft.Node.{Node, on_node_event, client_reply, hello_logs}
use minbft.Streams.{
  reread_logs, hello_of, is_inside, set_phase, receive, lose, Feed, ReplyChan, Phase, Net,
  NetConfig, NetEvent, buffered, logs, reading, answering, replying, sending, ended, received, lost,
  stopped, looked_for, log_message, logs_read, next_reply, taken, inside,
}

module _ {Bytes : Type 0} where
  -- `if reply, ok := <-replyRequest(req); ok { replyChan <- reply }`
  unfoldable pub passed : ℕ → Result Pass → Net Bytes → Result Bool × Net Bytes
  unfolding set_phase
  passed i (ok waits) net = (ok false, net)
  passed i (ok closes) net = (ok false, set_phase i (replying (buffered none)) net)
  passed i (ok (sends r)) net = (ok true, set_phase i (replying (buffered (some (reply r)))) net)
  passed i (err e) net = (err e, net)
  passed i panic net = (panic, net)

  unfoldable pub look : ℕ → Phase Bytes → Net Bytes → Result Bool × Net Bytes
  unfolding passed
  look i (answering q) net = passed i (client_reply net.node q) net
  look i reading net = (ok false, net)
  look i (replying c) net = (ok false, net)
  look i (sending d c) net = (ok false, net)
  look i ended net = (ok false, net)

  -- `handleReplyChan`: a closed channel ends it, and the stream is read again.
  unfoldable pub read_buffer : NetConfig Bytes → Option Message → Phase Bytes
  read_buffer cfg none = reading
  read_buffer cfg (some m) = sending (cfg.encode (to_pb m)) (buffered none)

  unfoldable pub read_reply :
      NetConfig Bytes → ℕ → Phase Bytes → Net Bytes → Result Bool × Net Bytes
  unfolding read_buffer set_phase
  read_reply cfg i (replying (buffered o)) net = (ok false, set_phase i (read_buffer cfg o) net)
  read_reply cfg i (replying (logs m b u)) net = (ok false, net)
  read_reply cfg i reading net = (ok false, net)
  read_reply cfg i (answering q) net = (ok false, net)
  read_reply cfg i (sending d c) net = (ok false, net)
  read_reply cfg i ended net = (ok false, net)

  -- A message that a stream has read is passed on; without one the channel stays as it is.
  unfoldable pub next_queued :
      NetConfig Bytes → List Message → (List Message → ReplyChan) → Phase Bytes
  next_queued cfg [] chan = replying (chan [])
  next_queued cfg (m ∷ l) chan = sending (cfg.encode (to_pb m)) (chan l)

  -- `case msg = <-bcChan` and `case msg = <-ucChan`
  unfoldable pub next_logged : NetConfig Bytes → Bool → Message → Feed → Feed → Phase Bytes
  unfolding next_queued
  next_logged cfg true h b u = next_queued cfg b.queued (λ l. logs h (record b { queued = l }) u)
  next_logged cfg false h b u = next_queued cfg u.queued (λ l. logs h b (record u { queued = l }))

  unfoldable pub read_log :
      NetConfig Bytes → ℕ → Bool → Phase Bytes → Net Bytes → Result Bool × Net Bytes
  unfolding set_phase next_logged
  read_log cfg i broadcast (replying (logs h b u)) net =
      (ok true, set_phase i (next_logged cfg broadcast h b u) net)
  read_log cfg i broadcast (replying (buffered o)) net = (ok false, net)
  read_log cfg i broadcast reading net = (ok false, net)
  read_log cfg i broadcast (answering q) net = (ok false, net)
  read_log cfg i broadcast (sending d c) net = (ok false, net)
  read_log cfg i broadcast ended net = (ok false, net)

  -- The goroutines of the two streams run on, whether the stream to the peer is being written or not.
  unfoldable pub refresh :
      NetConfig Bytes
      → ℕ
      → (was_reset was_reset' : Bool) → Phase Bytes
      → Net Bytes
      → Result Bool × Net Bytes
  unfolding reread_logs hello_of set_phase
  refresh cfg i x y (replying c) net = (
    ok true,
    set_phase i (replying (reread_logs x y (hello_logs cfg.node (hello_of c) net.node) c)) net,
  )
  refresh cfg i x y (sending d c) net = (
    ok true,
    set_phase i (sending d (reread_logs x y (hello_logs cfg.node (hello_of c) net.node) c)) net,
  )
  refresh cfg i x y reading net = (ok false, net)
  refresh cfg i x y (answering q) net = (ok false, net)
  refresh cfg i x y ended net = (ok false, net)

  -- `case outChan <- msgBytes`
  unfoldable pub take_bytes : ℕ → Phase Bytes → Net Bytes → Result Bool × Net Bytes
  take_bytes i (sending b c) net = (
    ok true,
    record net {
      streams =
          update net.streams i (record { phase = replying c; out = (net.streams i).out ++ b ∷ [] });
    },
  )
  take_bytes i reading net = (ok false, net)
  take_bytes i (answering q) net = (ok false, net)
  take_bytes i (replying c) net = (ok false, net)
  take_bytes i ended net = (ok false, net)

  unfoldable pub go_on : Result Bool × Node → Net Bytes → Result Bool × Net Bytes
  go_on (r, n) net = (r, record net { node = n })

  unfoldable pub on_net : NetConfig Bytes → NetEvent Bytes → Net Bytes → Result Bool × Net Bytes
  unfolding receive lose set_phase look read_reply read_log refresh take_bytes go_on is_inside
  on_net cfg (received i b) net = receive cfg i b (net.streams i).phase net
  on_net cfg (lost i) net = lose i (net.streams i).phase net
  on_net cfg (stopped i) net = (ok false, set_phase i ended net)
  on_net cfg (looked_for i) net = look i (net.streams i).phase net
  on_net cfg (log_message i broadcast) net = read_log cfg i broadcast (net.streams i).phase net
  on_net cfg (logs_read i x y) net = refresh cfg i x y (net.streams i).phase net
  on_net cfg (next_reply i) net = read_reply cfg i (net.streams i).phase net
  on_net cfg (taken i) net = take_bytes i (net.streams i).phase net
  on_net cfg (inside e) net =
      if is_inside e then go_on (on_node_event cfg.node e net.node) net else (ok false, net)

  -- A panic ends the process.
  unfoldable pub run_net : NetConfig Bytes → List (NetEvent Bytes) → Net Bytes → Net Bytes
  unfolding on_net
  run_net cfg [] net = net
  run_net cfg (e ∷ es) net = elim (on_net cfg e net).0 [
    | panic ↦ (on_net cfg e net).1
    | ok b ↦ run_net cfg es (on_net cfg e net).1
    | err x ↦ run_net cfg es (on_net cfg e net).1
  ]
