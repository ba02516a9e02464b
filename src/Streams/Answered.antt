-- ===== src/Streams/Answered.antt =====
-- core/message-handling.go: what is sent back on the streams of clients, whatever comes in.
use minbft.Base.{map-All, Occurs, ℕ, ◌≡◌, refl, inl, inr, Bool, List, [], ◌∷◌, All}
use minbft.Base.Result.{Result, ok, err, panic}
use minbft.Messages.{Request, Reply, reply}
use minbft.Protobuf.{to_pb}
use minbft.Node.{Node}
use minbft.Node.Replies.{IsAnswer, Source-IsAnswer, new_node-IsAnswering}
use minbft.Streams.{from_client, Net, new_net, NetConfig, NetEvent}
use minbft.Streams.Run.{on_net, run_net}
use minbft.Streams.Phases.{Arrived, Encodes, NetHolds}
use minbft.Streams.Steps.{on_net-NetHolds}

module _ {Bytes : Type 0} (cfg : NetConfig Bytes) where
  rest_holds :
      {P : Net Bytes → Type 0} (r : Result Bool × Net Bytes) (rest : Net Bytes → Net Bytes)
      → ((n : Net Bytes) → P n → P (rest n))
      → P r.1
      → P (elim r.0 [ panic ↦ r.1 | ok b ↦ rest r.1 | err x ↦ rest r.1 ])
  rest_holds (ok b, n) rest k h = k n h
  rest_holds (err x, n) rest k h = k n h
  rest_holds (panic, n) rest k h = h

  -- What an event of the list keeps, all of them together keep.
  pub run_net_keeps :
      (P : Net Bytes → Type 0) (es : List (NetEvent Bytes))
      → ((e : NetEvent Bytes) (n : Net Bytes) → Occurs e es → P n → P (on_net cfg e n).1)
      → (n : Net Bytes) → P n
      → P (run_net cfg es n)
  unfolding run_net
  run_net_keeps P [] k n h = h
  run_net_keeps P (e ∷ es) k n h =
      rest_holds {P = P} (on_net cfg e n) (run_net cfg es)
        (run_net_keeps P es (λ d m o. k d m (inr o))) (k e n (inl refl) h)

  -- What the bytes `b` sent on the stream `i` of a client are worth.
  pub record Answers (es : List (NetEvent Bytes)) (i : ℕ) (n : Node) (b : Bytes) : Type 0 where
    pub asked : Request
    pub answer : Reply
    pub arrived : Arrived cfg es i asked
    pub sent : b ≡ cfg.encode (to_pb (reply answer))
    pub worth : IsAnswer cfg.node n asked answer

  -- Whatever bytes come in on the streams of a replica, in any order and at any point of the others,
  -- and whatever happens inside of the replica: everything that it sends on the stream of a client
  -- is the binary form of a Reply to a Request whose bytes came in on this stream. The Reply is this
  -- replica's signed Reply with the result that the application returned for a delivered request of
  -- this client with the same sequence number, and only one such request has been delivered.
  pub run_net-Answers :
      (es : List (NetEvent Bytes)) (i : ℕ)
      → cfg.kind i ≡ from_client
      → All
          (Answers es i (run_net cfg es (new_net cfg)).node)
          ((run_net cfg es (new_net cfg)).streams i).out
  run_net-Answers es i k =
      let net = run_net cfg es (new_net cfg) in
      let h : NetHolds cfg es net =
        run_net_keeps (NetHolds cfg es) es (on_net-NetHolds cfg es) (new_net cfg) (record {
          node = new_node-IsAnswering cfg.node;
          streams = λ j c. record { phase = tt; out = tt };
        }) in
      map-All (Encodes cfg es i net.node) (Answers es i net.node) (net.streams i).out
        (λ b (r, e, w). record {
          asked = w.asked;
          answer = r;
          arrived = w.arrived;
          sent = e;
          worth = Source-IsAnswer cfg.node net.node w.asked r h.node w.source w.same_sequence;
        })
        (h.streams i k).out
