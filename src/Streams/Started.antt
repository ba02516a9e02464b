-- ===== src/Streams/Started.antt =====
-- core/replica.go, New: what it returns.
use minbft.Base.{
  subst, ℕ, zero, suc, ◌+◌, ◌*◌, ◌^◌, ◌≤◌, ◌<◌, ◌≡◌, ◌≢◌, refl, ◌⊎◌, inl, inr, Bool, true, false,
  Bool-cases, arith, ◌==◌,
}
use minbft.Base.Result.{Result, ok, err, ◌>>=◌, ◌>>◌, not_connected, not_enough_replicas}
use minbft.Replica.{Config}
use minbft.Replica.Setup.{new_config, new_config_sizes}
use minbft.Streams.Peers.{
  connect_peers, start_peer_connections, start_peer_connections-reachable, connected_all,
}

-- New, for what the application's stack is: the numbers are checked, and the peers connected. The
-- context of the second error is left out.
unfoldable pub new_connected : (stack : Config) → (n f : ℕ) → (ℕ → Bool) → Result Config
unfolding new_config start_peer_connections
new_connected stack n f reachable = do
  cfg ← new_config stack n f
  (start_peer_connections stack.id n reachable).1
  ok cfg

-- A peer that cannot be reached
abbrev pub Unreachable : (own : ℕ) → (ℕ → Bool) → ℕ → Type 0
Unreachable own reachable p = (p ≢ own) × (reachable p ≡ false)

abbrev Connects : (own : ℕ) → (ℕ → Bool) → (end : ℕ) → Result (Unit {0}) → Type 0
Connects own reachable end r =
    (r ≡ ok tt) ⊎ ((p : ℕ) × (p < end) × Unreachable own reachable p × (r ≡ err not_connected))

Connects-same :
    (own : ℕ) (reachable : ℕ → Bool) (a b : ℕ) (r : Result (Unit {0}))
    → a ≡ b
    → Connects own reachable a r
    → Connects own reachable b r
Connects-same own reachable a b r e c = subst (λ x. Connects own reachable x r) e c

-- Either all peers are connected, or one of them cannot be reached.
connect_fails :
    (own : ℕ) (reachable : ℕ → Bool) (left peer : ℕ)
    → Connects own reachable (peer + left) (connect_peers own reachable left peer).1
unfolding connect_peers
connect_fails own reachable zero peer = inl refl
connect_fails own reachable (suc left) peer =
    let later =
      Connects-same own reachable (peer + 1 + left) (peer + suc left)
        (connect_peers own reachable left (peer + 1)).1 (omega arith)
        (connect_fails own reachable left (peer + 1)) in
    elim (Bool-cases (peer == own)) [
      | inl self ↦ rw self later
      | inr other ↦ elim (Bool-cases (reachable peer)) [
        | inl way ↦ rw (other, way) later
        | inr no_way ↦
            rw (other, no_way)
              (inr (peer, omega arith, ((λ e. ground (arith, other, e)), no_way), refl))
      ]
    ]

-- For numbers within their types and less than 2^31 faults, New returns an error in two cases: there are
-- fewer than 2f + 1 replicas, or another replica cannot be reached. Otherwise all others could be
-- reached, and of the certificate sizes that it sets the replicas that are not faulty are enough for each
-- kind, faulty ones alone for none, and a commit certificate and a view-change certificate have together
-- one more than all the replicas, so that they share one.
pub new_connected_sizes :
    (stack : Config) (n f : ℕ) (reachable : ℕ → Bool)
    → n < 2 ^ 32
    → f < 2 ^ 31
    → ((n < 2 * f + 1) × (new_connected stack n f reachable ≡ err not_enough_replicas))
      ⊎ ((2 * f + 1 ≤ n)
          × ((p : ℕ) × (p < n) × Unreachable stack.id reachable p)
          × (new_connected stack n f reachable ≡ err not_connected))
      ⊎ ((2 * f + 1 ≤ n)
          × ((p : ℕ) → p < n → p ≢ stack.id → reachable p ≡ true)
          × ((c : Config) × (new_connected stack n f reachable ≡ ok c)
              × (c.n ≡ n)
              × (c.commit_cert_size + f ≡ n)
              × (f < c.commit_cert_size)
              × (f < c.vc_cert_size)
              × (c.vc_cert_size + f ≤ n)
              × (c.commit_cert_size + c.vc_cert_size ≡ n + 1)))
unfolding new_connected start_peer_connections
new_connected_sizes stack n f reachable hn hf = elim (new_config_sizes stack n f hn hf) [
  | inl (few, e) ↦ inl (few, rw e refl)
  | inr (enough, (c, e, same, commit, more, most, rest, both)) ↦
      elim (connect_fails stack.id reachable n 0) [
        | inr (p, low, no_way, g) ↦
            inr (inl (enough, (p, omega (arith, low), no_way), rw (e, g) refl))
        | inl fine ↦ inr (
            inr (
              enough,
              λ p low ne.
                  (start_peer_connections-reachable stack.id n reachable p (
                    connected_all stack.id reachable n 0 p fine (omega arith) (omega (arith, low))
                      (ground (arith, ne)))).2,
              (c, rw (e, fine) refl, same, commit, more, most, rest, both),
            ))
      ]
]
