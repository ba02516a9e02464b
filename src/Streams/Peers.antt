-- ===== src/Streams/Peers.antt =====
-- core/message-handling.go: the connections that a replica starts, and how they are greeted. Whether
-- the connector finds a peer is a parameter.
use minbft.Base.{
  ◌++◌, length, sym, Occurs, ℕ, zero, suc, ◌+◌, ◌≤◌, ◌<◌, ◌≡◌, ◌≢◌, refl, ap, ◌∙◌, inl, inr, Bool,
  true, false, Bool-cases, List, [], ◌∷◌, arith, ◌==◌, leb, ◌||◌, if◌then◌else◌, ==_iff,
}
use minbft.Base.Result.{Result, ok, err, not_connected}
use minbft.Messages.{hello}
use minbft.Protobuf.{PbMessage, to_pb}
use minbft.Protobuf.RoundTrip.{MessageWords, new_from_binary-encode}
use minbft.Node.{hello_logs}
use mathlib.Core.List.{append-nil}
use minbft.Streams.Drained.{drains, encoded, run_net_ok, set_phase_at, logs_drained}
use minbft.Streams.{
  feed, from_peer, reading, replying, logs, Net, NetConfig, received, set_phase, greeted, handle_in,
  parsed, receive,
}
use minbft.Streams.Run.{run_net, on_net}

-- startPeerConnections from a peer on, with as many peers left: those that were connected, and what is
-- returned.
unfoldable pub connect_peers : ℕ → (ℕ → Bool) → ℕ → ℕ → List ℕ × Result (Unit {0})
connect_peers own reachable zero peer = ([], ok tt)
connect_peers own reachable (suc left) peer =
    let rest = connect_peers own reachable left (peer + 1) in
    if peer == own
    then rest
    else (if reachable peer then (peer ∷ rest.0, rest.1) else ([], err not_connected))

unfoldable pub start_peer_connections : ℕ → ℕ → (ℕ → Bool) → List ℕ × Result (Unit {0})
unfolding connect_peers
start_peer_connections own n reachable = connect_peers own reachable n 0

-- The first message that startPeerConnection sends
unfoldable pub first_message : {Bytes : Type 0} → (PbMessage → Bytes) → ℕ → Bytes
first_message encode own = encode (to_pb (hello own))

connected_range :
    (own : ℕ) (reachable : ℕ → Bool) (left peer p : ℕ)
    → Occurs p (connect_peers own reachable left peer).0
    → (peer ≤ p) × (p < peer + left) × ((p == own) ≡ false) × (reachable p ≡ true)
unfolding connect_peers
connected_range own reachable zero peer p o = absurd o
connected_range own reachable (suc left) peer p o = elim (Bool-cases (peer == own)) [
  | inl self ↦
      let (a, b, c, d) = connected_range own reachable left (peer + 1) p (rw self at o) in
      (omega arith, omega arith, c, d)
  | inr other ↦ elim (Bool-cases (reachable peer)) [
    | inr no_way ↦ absurd (rw (other, no_way) at o)
    | inl way ↦ elim (rw (other, way) at o) [
      | inl e ↦
          (omega (arith, e), omega (arith, e), ap (λ x. x == own) e ∙ other, ap reachable e ∙ way)
      | inr later ↦
          let (a, b, c, d) = connected_range own reachable left (peer + 1) p later in
          (omega arith, omega arith, c, d)
    ]
  ]
]

pub connected_all :
    (own : ℕ) (reachable : ℕ → Bool) (left peer p : ℕ)
    → (connect_peers own reachable left peer).1 ≡ ok tt
    → peer ≤ p
    → p < peer + left
    → (p == own) ≡ false
    → Occurs p (connect_peers own reachable left peer).0
unfolding connect_peers
connected_all own reachable zero peer p e a b ne = absurd (omega arith)
connected_all own reachable (suc left) peer p e a b ne = elim (Bool-cases (peer == own)) [
  | inl self ↦ rw self (
      connected_all own reachable left (peer + 1) p (rw self at e) (ground (arith, self, ne))
        (omega arith) ne)
  | inr other ↦ elim (Bool-cases (reachable peer)) [
    | inr no_way ↦ let failed : err not_connected ≡ ok tt = rw (other, no_way) at e in cc
    | inl way ↦
        rw (other, way)
          (elim (Bool-cases (p == peer)) [
            | inl here ↦ inl ((==_iff p peer).0 here)
            | inr later ↦ inr (
                connected_all own reachable left (peer + 1) p (rw (other, way) at e)
                  (ground (arith, later)) (omega arith) ne)
          ])
  ]
]

hello_logs-ok :
    {Bytes : Type 0} (cfg : NetConfig Bytes) (own : ℕ) (net : Net Bytes)
    → (leb cfg.node.core.n own || own == cfg.node.core.id) ≡ false
    → hello_logs cfg.node (hello own) net.node ≡ ok (net.node.core.log, net.node.unicast own)
unfolding hello_logs
hello_logs-ok cfg own net e = rw e refl

-- The Hello of a replica that a peer knows makes its stream one of the logs for this replica.
greeting :
    {Bytes : Type 0} (cfg : NetConfig Bytes) (own i : ℕ) (net : Net Bytes)
    → ((p : PbMessage) → cfg.decode (cfg.encode p) ≡ ok p)
    → cfg.kind i ≡ from_peer
    → (net.streams i).phase ≡ reading
    → (leb cfg.node.core.n own || own == cfg.node.core.id) ≡ false
    → on_net cfg (received i (first_message cfg.encode own)) net ≡ (
      ok true,
      set_phase i
          (replying (logs (hello own) (feed net.node.core.log) (feed (net.node.unicast own))))
          net,
    )
unfolding on_net receive parsed handle_in greeted first_message MessageWords
greeting cfg own i net back k r e =
    rw
      (
        r,
        new_from_binary-encode cfg.encode cfg.decode (hello own) back tt,
        k,
        hello_logs-ok cfg own net e,
      )
      refl

-- What a Hello of replica `own` on stream `i` leads to: the stream is one of the two logs, read from
-- their beginnings; and once they are taken the messages have gone out.
pub record Greets {Bytes : Type 0} (cfg : NetConfig Bytes) (own i : ℕ) (net : Net Bytes)
    : Type 0 where
  pub started : on_net cfg (received i (first_message cfg.encode own)) net ≡ (
    ok true,
    set_phase i
        (replying (
          logs
            (hello own)
            (record { queued = net.node.core.log; position = length net.node.core.log })
            (record { queued = net.node.unicast own; position = length (net.node.unicast own) })))
        net,
  )
  pub went_out :
      ((run_net cfg
          (received i (first_message cfg.encode own)
            ∷ (drains i true net.node.core.log ++ drains i false (net.node.unicast own)))
          net).streams
        i).out
      ≡ (net.streams i).out
        ++ encoded cfg i net.node.core.log
        ++ encoded cfg i (net.node.unicast own)

greeting-Greets :
    {Bytes : Type 0} (cfg : NetConfig Bytes) (own i : ℕ) (net : Net Bytes)
    → on_net cfg (received i (first_message cfg.encode own)) net ≡ (
      ok true,
      set_phase i
          (replying (logs (hello own) (feed net.node.core.log) (feed (net.node.unicast own))))
          net,
    )
    → Greets cfg own i net
unfolding feed run_net
greeting-Greets cfg own i net e =
    let chan = logs (hello own) (feed net.node.core.log) (feed (net.node.unicast own)) in
    let begun = set_phase i (replying chan) net in
    let (at, kept) = set_phase_at cfg i (replying chan) net in
    let (end, f, g) =
      logs_drained cfg i (hello own) (feed net.node.core.log) (feed (net.node.unicast own)) [] begun
        at in
    record {
      started = e;
      went_out =
          ap (λ (x : Net _). (x.streams i).out)
            (run_net_ok cfg i (received i (first_message cfg.encode own))
                (drains i true net.node.core.log ++ drains i false (net.node.unicast own)) net begun
                true e
              ∙ ap (λ l. run_net cfg (drains i true net.node.core.log ++ l) begun)
                  (sym (append-nil (drains i false (net.node.unicast own))))
              ∙ f)
          ∙ g
          ∙ ap (λ l. l ++ encoded cfg i net.node.core.log ++ encoded cfg i (net.node.unicast own))
              kept;
    }

-- Let the protocol-buffers library read back what it writes, and let a replica start its connections
-- without an error. Then every other replica is connected, and when the first bytes of the
-- connection come in on a stream that is read there, that replica, if it is of the same number of
-- replicas, turns the stream into one of two logs, its own and its log for this replica, both read from
-- the beginning, and changes nothing else. If then the messages of its own log are taken and those of the
-- log for this replica after them, exactly their bytes have gone out on the stream, in this order.
pub start_peer_connections-greeted :
    {Bytes : Type 0} (own n : ℕ) (reachable : ℕ → Bool) (p : ℕ) (cfg : NetConfig Bytes) (i : ℕ)
    (net : Net Bytes)
    → own < n
    → (start_peer_connections own n reachable).1 ≡ ok tt
    → p < n
    → p ≢ own
    → cfg.node.core.n ≡ n
    → cfg.node.core.id ≡ p
    → ((m : PbMessage) → cfg.decode (cfg.encode m) ≡ ok m)
    → cfg.kind i ≡ from_peer
    → (net.streams i).phase ≡ reading
    → Occurs p (start_peer_connections own n reachable).0 × Greets cfg own i net
unfolding start_peer_connections
start_peer_connections-greeted own n reachable p cfg i net low e known ne size number back k r = (
  connected_all own reachable n 0 p e (omega arith) (omega (arith, known)) (ground (arith, ne)),
  greeting-Greets cfg own i net
      (greeting cfg own i net back k r (ground (arith, ne, size, number, low))),
)

-- A peer that is connected is another one that was reachable.
pub start_peer_connections-reachable :
    (own n : ℕ) (reachable : ℕ → Bool) (p : ℕ)
    → Occurs p (start_peer_connections own n reachable).0
    → (p < n) × (p ≢ own) × (reachable p ≡ true)
unfolding start_peer_connections
start_peer_connections-reachable own n reachable p o =
    let (_, high, other, way) = connected_range own reachable n 0 p o in
    (omega (arith, high), λ same. ground (arith, same, other), way)
