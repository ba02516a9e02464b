-- ===== src/Streams/Handled.antt =====
-- core/message-handling.go: a message that comes in keeps what the streams of clients hold.
use minbft.Base.{Occurs, ℕ, ◌≡◌, refl, Bool, List}
use minbft.Base.Result.{Result, ok, err, panic}
use minbft.Messages.{Message, hello, request, reply, req_view_change, certified}
use minbft.Protobuf.Parse.{new_from_binary}
use minbft.Node.{Node, NodeEvent, peer_in, client_in, on_node_event, hello_logs}
use minbft.Node.Answers.{on_node_event-IsAnswering}
use minbft.Streams.{
  feed, Kind, own_connection, from_peer, from_client, logs, Phase, reading, answering, replying,
  sending, ended, Net, NetConfig, NetEvent, received, awaiting, handled, greeted, handle_in, parsed,
  receive, lose,
}
use minbft.Streams.Lasting.{on_node_event-Source}
use minbft.Streams.Phases.{Holds, NetHolds, new_node-NetHolds, set_phase-NetHolds}

module _ {Bytes : Type 0} (cfg : NetConfig Bytes) (es : List (NetEvent Bytes)) where
  pub event-NetHolds :
      (e : NodeEvent) (net : Net Bytes)
      → NetHolds cfg es net
      → NetHolds cfg es (record net { node = (on_node_event cfg.node e net.node).1 })
  event-NetHolds e net h =
      new_node-NetHolds cfg es net (on_node_event cfg.node e net.node).1
        (on_node_event-IsAnswering cfg.node e net.node h.node)
        (on_node_event-Source cfg.node e net.node) h

  handled-NetHolds :
      (i : ℕ) (p : Phase Bytes) (r : Result Bool × Node) (net : Net Bytes)
      → NetHolds cfg es (record net { node = r.1 })
      → (cfg.kind i ≡ from_client → Holds cfg es i r.1 p)
      → NetHolds cfg es (handled i p r net).1
  unfolding handled
  handled-NetHolds i p (ok b, n) net h f =
      set_phase-NetHolds cfg es (record net { node = n }) i p f h
  handled-NetHolds i p (err e, n) net h f =
      set_phase-NetHolds cfg es (record net { node = n }) i ended (λ k. tt) h
  handled-NetHolds i p (panic, n) net h f = h

  greeted-NetHolds :
      (i : ℕ) (m : Message) (r : Result (List Message × List Message)) (net : Net Bytes)
      → cfg.kind i ≡ from_peer
      → NetHolds cfg es net
      → NetHolds cfg es (greeted i m r net).1
  unfolding greeted
  greeted-NetHolds i m (ok l) net other h =
      set_phase-NetHolds cfg es net i (replying (logs m (feed l.0) (feed l.1))) (λ k. cc) h
  greeted-NetHolds i m (err e) net other h = set_phase-NetHolds cfg es net i ended (λ k. tt) h
  greeted-NetHolds i m panic net other h = h

  awaiting-Holds :
      (i : ℕ) (b : Bytes) (m : Message) (n : Node)
      → Occurs (received i b) es
      → new_from_binary cfg.decode b ≡ ok m
      → Holds cfg es i n (awaiting m)
  unfolding awaiting
  awaiting-Holds i b (request q) n o e = (b, o, e)
  awaiting-Holds i b (hello r) n o e = tt
  awaiting-Holds i b (reply r) n o e = tt
  awaiting-Holds i b (req_view_change r) n o e = tt
  awaiting-Holds i b (certified m) n o e = tt

  handle_in-NetHolds :
      (i : ℕ) (b : Bytes) (m : Message) (k : Kind) (net : Net Bytes)
      → Occurs (received i b) es
      → new_from_binary cfg.decode b ≡ ok m
      → cfg.kind i ≡ k
      → NetHolds cfg es net
      → NetHolds cfg es (handle_in cfg i m k net).1
  unfolding handle_in
  handle_in-NetHolds i b m own_connection net o e k h =
      handled-NetHolds i reading (on_node_event cfg.node (peer_in m) net.node) net
        (event-NetHolds (peer_in m) net h) (λ c. tt)
  handle_in-NetHolds i b m from_client net o e k h =
      handled-NetHolds i (awaiting m) (on_node_event cfg.node (client_in m) net.node) net
        (event-NetHolds (client_in m) net h)
        (λ c. awaiting-Holds i b m (on_node_event cfg.node (client_in m) net.node).1 o e)
  handle_in-NetHolds i b m from_peer net o e k h =
      greeted-NetHolds i m (hello_logs cfg.node m net.node) net k h

  parsed-NetHolds :
      (i : ℕ) (b : Bytes) (r : Result Message) (net : Net Bytes)
      → Occurs (received i b) es
      → new_from_binary cfg.decode b ≡ r
      → NetHolds cfg es net
      → NetHolds cfg es (parsed cfg i r net).1
  unfolding parsed
  parsed-NetHolds i b (ok m) net o e h = handle_in-NetHolds i b m (cfg.kind i) net o e refl h
  parsed-NetHolds i b (err x) net o e h = set_phase-NetHolds cfg es net i ended (λ k. tt) h
  parsed-NetHolds i b panic net o e h = h

  pub receive-NetHolds :
      (i : ℕ) (b : Bytes) (p : Phase Bytes) (net : Net Bytes)
      → Occurs (received i b) es
      → NetHolds cfg es net
      → NetHolds cfg es (receive cfg i b p net).1
  unfolding receive
  receive-NetHolds i b reading net o h =
      parsed-NetHolds i b (new_from_binary cfg.decode b) net o refl h
  receive-NetHolds i b (answering q) net o h = h
  receive-NetHolds i b (replying c) net o h = h
  receive-NetHolds i b (sending d c) net o h = h
  receive-NetHolds i b ended net o h = h

  pub lose-NetHolds :
      (i : ℕ) (p : Phase Bytes) (net : Net Bytes)
      → NetHolds cfg es net
      → NetHolds cfg es (lose i p net).1
  unfolding lose
  lose-NetHolds i reading net h = set_phase-NetHolds cfg es net i ended (λ k. tt) h
  lose-NetHolds i (answering q) net h = h
  lose-NetHolds i (replying c) net h = h
  lose-NetHolds i (sending d c) net h = h
  lose-NetHolds i ended net h = h
  -- The Reply that is found is the client's last one, with the number of the request.
