-- ===== src/Streams/Phases.antt =====
-- core/message-handling.go: what the streams of clients hold, and what keeps it.
use minbft.Base.{
  ℕ, ◌≡◌, ap, ◌∙◌, inl, inr, Option, none, some, List, ◌==◌, Bool-cases, ==_iff, subst, update, All,
  map-All, Occurs,
}
use minbft.Base.Result.{ok}
use minbft.Messages.{Request, Reply, Message, reply, request}
use minbft.Protobuf.{to_pb}
use minbft.Protobuf.Parse.{new_from_binary}
use minbft.Node.{Node}
use minbft.Node.Answers.{Source, IsAnswering}
use minbft.Streams.{
  from_client, ReplyChan, buffered, logs, Phase, reading, answering, replying, sending, ended,
  Stream, Net, NetConfig, NetEvent, received, set_phase,
}

module _ {Bytes : Type 0} (cfg : NetConfig Bytes) (es : List (NetEvent Bytes)) (i : ℕ) where
  -- Bytes of the request came in on the stream.
  abbrev pub Arrived : Request → Type 0
  Arrived q =
      (b : Bytes) × Occurs (received i b) es × (new_from_binary cfg.decode b ≡ ok (request q))

  pub record Worth (n : Node) (r : Reply) : Type 0 where
    pub asked : Request
    pub arrived : Arrived asked
    pub source : Source cfg.node n.core.delivered n.results asked.client_id r
    pub same_sequence : r.sequence ≡ asked.sequence

  abbrev pub Encodes : Node → Bytes → Type 0
  Encodes n b = (r : Reply) × (b ≡ cfg.encode (to_pb (reply r))) × Worth n r

  abbrev pub Buffers : Node → Option Message → Type 0
  Buffers n none = Unit {0}
  Buffers n (some m) = (r : Reply) × (m ≡ reply r) × Worth n r

  abbrev pub ChanHolds : Node → ReplyChan → Type 0
  ChanHolds n (buffered o) = Buffers n o
  ChanHolds n (logs h b u) = ⊥

  abbrev pub Holds : Node → Phase Bytes → Type 0
  Holds n reading = Unit {0}
  Holds n (answering q) = Arrived q
  Holds n (replying c) = ChanHolds n c
  Holds n (sending b c) = Encodes n b × ChanHolds n c
  Holds n ended = Unit {0}

  pub record StreamHolds (n : Node) (s : Stream Bytes) : Type 0 where
    pub phase : Holds n s.phase
    pub out : All (Encodes n) s.out

  module _ (n n' : Node)
      (last : (c : ℕ) (r : Reply)
        → Source cfg.node n.core.delivered n.results c r
        → Source cfg.node n'.core.delivered n'.results c r) where
    Worth-lasts : (r : Reply) → Worth n r → Worth n' r
    Worth-lasts r w = record {
      asked = w.asked;
      arrived = w.arrived;
      source = last w.asked.client_id r w.source;
      same_sequence = w.same_sequence;
    }

    Encodes-last : (b : Bytes) → Encodes n b → Encodes n' b
    Encodes-last b (r, e, w) = (r, e, Worth-lasts r w)

    ChanHolds-lasts : (c : ReplyChan) → ChanHolds n c → ChanHolds n' c
    ChanHolds-lasts (buffered none) h = tt
    ChanHolds-lasts (buffered (some m)) (r, e, w) = (r, e, Worth-lasts r w)
    ChanHolds-lasts (logs m b u) h = h

    Holds-lasts : (p : Phase Bytes) → Holds n p → Holds n' p
    Holds-lasts reading h = tt
    Holds-lasts (answering q) h = h
    Holds-lasts (replying c) h = ChanHolds-lasts c h
    Holds-lasts (sending b c) h = (Encodes-last b h.0, ChanHolds-lasts c h.1)
    Holds-lasts ended h = tt

    pub StreamHolds-lasts : (s : Stream Bytes) → StreamHolds n s → StreamHolds n' s
    StreamHolds-lasts s h = record {
      phase = Holds-lasts s.phase h.phase;
      out = map-All (Encodes n) (Encodes n') s.out Encodes-last h.out;
    }

module _ {Bytes : Type 0} (cfg : NetConfig Bytes) (es : List (NetEvent Bytes)) where
  pub record NetHolds (net : Net Bytes) : Type 0 where
    pub node : IsAnswering cfg.node net.node
    pub streams : (i : ℕ) → cfg.kind i ≡ from_client → StreamHolds cfg es i net.node (net.streams i)

  pub new_node-NetHolds :
      (net : Net Bytes) (n : Node)
      → IsAnswering cfg.node n
      → ((c : ℕ) (r : Reply)
          → Source cfg.node net.node.core.delivered net.node.results c r
          → Source cfg.node n.core.delivered n.results c r)
      → NetHolds net
      → NetHolds (record net { node = n })
  new_node-NetHolds net n a last h = record {
    node = a;
    streams = λ i k. StreamHolds-lasts cfg es i net.node n last (net.streams i) (h.streams i k);
  }

  pub new_stream-NetHolds :
      (net : Net Bytes) (i : ℕ) (s : Stream Bytes)
      → (cfg.kind i ≡ from_client → StreamHolds cfg es i net.node s)
      → NetHolds net
      → NetHolds (record net { streams = update net.streams i s })
  new_stream-NetHolds net i s new h = record {
    node = h.node;
    streams = λ j k. elim (Bool-cases (i == j)) [
      | inl same ↦
          let at : i ≡ j = (==_iff i j).0 same in
          rw same (subst (λ x. StreamHolds cfg es x net.node s) at (new (ap cfg.kind at ∙ k)))
      | inr other ↦ rw other (h.streams j k)
    ];
  }

  pub set_phase-NetHolds :
      (net : Net Bytes) (i : ℕ) (p : Phase Bytes)
      → (cfg.kind i ≡ from_client → Holds cfg es i net.node p)
      → NetHolds net
      → NetHolds (set_phase i p net)
  unfolding set_phase
  set_phase-NetHolds net i p new h =
      new_stream-NetHolds net i (record (net.streams i) { phase = p })
        (λ k. record { phase = new k; out = (h.streams i k).out }) h
