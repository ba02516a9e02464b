-- ===== src/Streams/Steps.antt =====
-- core/message-handling.go: every event keeps what the streams of clients hold.
use minbft.Base.{
  Bool, Occurs, ℕ, ◌≡◌, refl, ap, inl, inr, Bool-cases, Option, none, some, List, [], ◌∷◌, ◌++◌,
  All-append,
}
use minbft.Base.Result.{Result, ok, err, panic}
use minbft.Messages.{Request, Reply, Message, reply}
use minbft.Protobuf.{to_pb}
use minbft.ClientState.Reply.{Pass, waits, closes, sends}
use minbft.Node.{hello_logs, Node, client_reply}
use minbft.Node.Answers.{IsAnswering}
use minbft.Node.Replies.{sends_last}
use minbft.Streams.{
  logs_read, reread_logs, hello_of, ReplyChan, from_client, buffered, logs, Phase, reading,
  answering, replying, sending, ended, Net, NetConfig, NetEvent, received, lost, stopped,
  looked_for, log_message, next_reply, taken, inside, is_inside,
}
use minbft.Streams.Run.{
  refresh, next_logged, passed, look, read_buffer, read_reply, read_log, take_bytes, go_on, on_net,
}
use minbft.Streams.Phases.{
  ChanHolds, Arrived, Worth, Encodes, Holds, NetHolds, new_stream-NetHolds, set_phase-NetHolds,
}
use minbft.Streams.Handled.{event-NetHolds, receive-NetHolds, lose-NetHolds}

module _ {Bytes : Type 0} (cfg : NetConfig Bytes) (es : List (NetEvent Bytes)) where
  found-Worth :
      (i : ℕ) (q : Request) (r : Reply) (n : Node)
      → IsAnswering cfg.node n
      → Arrived cfg es i q
      → client_reply n q ≡ ok (sends r)
      → Worth cfg es i n r
  unfolding client_reply
  found-Worth i q r n h a e =
      let (last, seq) = sends_last (n.replies q.client_id) q.sequence r e in
      record { asked = q; arrived = a; source = h.answers q.client_id r last; same_sequence = seq }

  passed-NetHolds :
      (i : ℕ) (q : Request) (r : Result Pass) (net : Net Bytes)
      → client_reply net.node q ≡ r
      → (cfg.kind i ≡ from_client → Arrived cfg es i q)
      → NetHolds cfg es net
      → NetHolds cfg es (passed i r net).1
  unfolding passed
  passed-NetHolds i q (ok waits) net e a h = h
  passed-NetHolds i q (ok closes) net e a h =
      set_phase-NetHolds cfg es net i (replying (buffered none)) (λ k. tt) h
  passed-NetHolds i q (ok (sends r)) net e a h =
      set_phase-NetHolds cfg es net i (replying (buffered (some (reply r))))
        (λ k. (r, refl, found-Worth i q r net.node h.node (a k) e)) h
  passed-NetHolds i q (err x) net e a h = h
  passed-NetHolds i q panic net e a h = h

  look-NetHolds :
      (i : ℕ) (p : Phase Bytes) (net : Net Bytes)
      → (cfg.kind i ≡ from_client → Holds cfg es i net.node p)
      → NetHolds cfg es net
      → NetHolds cfg es (look i p net).1
  unfolding look
  look-NetHolds i (answering q) net f h = passed-NetHolds i q (client_reply net.node q) net refl f h
  look-NetHolds i reading net f h = h
  look-NetHolds i (replying c) net f h = h
  look-NetHolds i (sending d c) net f h = h
  look-NetHolds i ended net f h = h

  read_buffer-Holds :
      (i : ℕ) (n : Node) (o : Option Message)
      → Holds cfg es i n (replying (buffered o))
      → Holds cfg es i n (read_buffer cfg o)
  unfolding read_buffer
  read_buffer-Holds i n none h = tt
  read_buffer-Holds i n (some m) (r, e, w) = ((r, ap (λ x. cfg.encode (to_pb x)) e, w), tt)

  read_reply-NetHolds :
      (i : ℕ) (p : Phase Bytes) (net : Net Bytes)
      → (cfg.kind i ≡ from_client → Holds cfg es i net.node p)
      → NetHolds cfg es net
      → NetHolds cfg es (read_reply cfg i p net).1
  unfolding read_reply
  read_reply-NetHolds i (replying (buffered o)) net f h =
      set_phase-NetHolds cfg es net i (read_buffer cfg o)
        (λ k. read_buffer-Holds i net.node o (f k)) h
  read_reply-NetHolds i (replying (logs m b u)) net f h = h
  read_reply-NetHolds i reading net f h = h
  read_reply-NetHolds i (answering q) net f h = h
  read_reply-NetHolds i (sending d c) net f h = h
  read_reply-NetHolds i ended net f h = h

  read_log-NetHolds :
      (i : ℕ) (m : Bool) (p : Phase Bytes) (net : Net Bytes)
      → (cfg.kind i ≡ from_client → Holds cfg es i net.node p)
      → NetHolds cfg es net
      → NetHolds cfg es (read_log cfg i m p net).1
  unfolding read_log
  read_log-NetHolds i m (replying (logs x b u)) net f h =
      set_phase-NetHolds cfg es net i (next_logged cfg m x b u) (λ k. absurd (f k)) h
  read_log-NetHolds i m (replying (buffered o)) net f h = h
  read_log-NetHolds i m reading net f h = h
  read_log-NetHolds i m (answering q) net f h = h
  read_log-NetHolds i m (sending d c) net f h = h
  read_log-NetHolds i m ended net f h = h

  reread_logs-ChanHolds :
      (i : ℕ) (n : Node) (x y : Bool) (r : Result (List Message × List Message)) (c : ReplyChan)
      → ChanHolds cfg es i n c
      → ChanHolds cfg es i n (reread_logs x y r c)
  unfolding reread_logs
  reread_logs-ChanHolds i n x y r (buffered o) h = h
  reread_logs-ChanHolds i n x y r (logs m b u) h = absurd h

  refresh-NetHolds :
      (i : ℕ) (x y : Bool) (p : Phase Bytes) (net : Net Bytes)
      → (cfg.kind i ≡ from_client → Holds cfg es i net.node p)
      → NetHolds cfg es net
      → NetHolds cfg es (refresh cfg i x y p net).1
  unfolding refresh
  refresh-NetHolds i x y (replying c) net f h =
      set_phase-NetHolds cfg es net i _
        (λ k.
          reread_logs-ChanHolds i net.node x y (hello_logs cfg.node (hello_of c) net.node) c (f k))
        h
  refresh-NetHolds i x y (sending d c) net f h =
      set_phase-NetHolds cfg es net i _
        (λ k. (
          (f k).0,
          reread_logs-ChanHolds i net.node x y (hello_logs cfg.node (hello_of c) net.node) c
              (f k).1,
        ))
        h
  refresh-NetHolds i x y reading net f h = h
  refresh-NetHolds i x y (answering q) net f h = h
  refresh-NetHolds i x y ended net f h = h

  take_bytes-NetHolds :
      (i : ℕ) (p : Phase Bytes) (net : Net Bytes)
      → (cfg.kind i ≡ from_client → Holds cfg es i net.node p)
      → NetHolds cfg es net
      → NetHolds cfg es (take_bytes i p net).1
  unfolding take_bytes
  take_bytes-NetHolds i (sending b c) net f h =
      new_stream-NetHolds cfg es net i
        (record { phase = replying c; out = (net.streams i).out ++ b ∷ [] })
        (λ k. record {
          phase = (f k).1;
          out =
              All-append (Encodes cfg es i net.node) (net.streams i).out (b ∷ [])
                (h.streams i k).out ((f k).0, tt);
        })
        h
  take_bytes-NetHolds i reading net f h = h
  take_bytes-NetHolds i (answering q) net f h = h
  take_bytes-NetHolds i (replying c) net f h = h
  take_bytes-NetHolds i ended net f h = h

  pub on_net-NetHolds :
      (e : NetEvent Bytes) (net : Net Bytes)
      → Occurs e es
      → NetHolds cfg es net
      → NetHolds cfg es (on_net cfg e net).1
  unfolding on_net go_on
  on_net-NetHolds (received i b) net o h = receive-NetHolds cfg es i b (net.streams i).phase net o h
  on_net-NetHolds (lost i) net o h = lose-NetHolds cfg es i (net.streams i).phase net h
  on_net-NetHolds (stopped i) net o h = set_phase-NetHolds cfg es net i ended (λ k. tt) h
  on_net-NetHolds (looked_for i) net o h =
      look-NetHolds i (net.streams i).phase net (λ k. (h.streams i k).phase) h
  on_net-NetHolds (log_message i m) net o h =
      read_log-NetHolds i m (net.streams i).phase net (λ k. (h.streams i k).phase) h
  on_net-NetHolds (logs_read i x y) net o h =
      refresh-NetHolds i x y (net.streams i).phase net (λ k. (h.streams i k).phase) h
  on_net-NetHolds (next_reply i) net o h =
      read_reply-NetHolds i (net.streams i).phase net (λ k. (h.streams i k).phase) h
  on_net-NetHolds (taken i) net o h =
      take_bytes-NetHolds i (net.streams i).phase net (λ k. (h.streams i k).phase) h
  on_net-NetHolds (inside e) net o h = elim (Bool-cases (is_inside e)) [
    | inl own ↦ rw own (event-NetHolds cfg es e net h)
    | inr other ↦ rw other h
  ]
