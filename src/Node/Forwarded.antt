-- ===== src/Node/Forwarded.antt =====
-- core/request.go: a Request whose Prepare does not come in time goes to the primary.
use minbft.Base.{
  ℕ, ◌%◌, ◌^◌, ◌≤◌, ◌<◌, ◌≡◌, ◌≢◌, refl, ap, ◌∙◌, true, false, not, ◌&&◌, Option, none, some, List,
  [], ◌∷◌, ◌++◌, arith, ◌==◌, ltb, update,
}
use minbft.Base.Result.{ok}
use minbft.Messages.{Request, Message, request}
use minbft.ViewChange.{is_primary}
use minbft.Node.{
  NodeConfig, Node, new_node, append_unicast, forward_request, forward_captured, expire_prepare,
  prepare_timer_off, NodeEvent, run_node,
}
use minbft.Node.Forwards.{is_of, forwards, IsForwarding, on_event-IsForwarding}
use minbft.Node.Core.{CoreLaws, run_core_keeps}

laws : (cfg : NodeConfig) → CoreLaws cfg (IsForwarding cfg.core)
laws cfg = record {
  event = on_event-IsForwarding cfg.core;
  request_off = λ c n h. h;
  prepare_off = λ c n h x. ground (arith, h x);
  vc_off = λ n h. h;
}

is_of-some :
    (c seq : ℕ) (o : Option Request)
    → is_of c seq o ≡ true
    → (q : Request) × (o ≡ some q) × (q.client_id ≡ c) × (q.sequence ≡ seq)
is_of-some c seq none e = cc
is_of-some c seq (some q) e = (q, refl, ground (arith, e), ground (arith, e))

-- The expiration of the prepare timer of client `c` forwards the Request that the timer was started
-- with: it is the client's, has the timer's sequence number, and is added to the log for the primary of the timer's view, which is another replica.
pub record Forwarded (cfg : NodeConfig) (n : Node) (c : ℕ) : Type 0 where
  pub forwarded : Request
  pub started_with : (n.core.prepare_timers c).request ≡ some forwarded
  pub own : forwarded.client_id ≡ c
  pub same_number : forwarded.sequence ≡ (n.core.prepare_timers c).seq
  pub primary : ℕ
  pub chosen : primary ≡ (n.core.prepare_timers c).view % cfg.core.n
  pub in_range : primary < cfg.core.n
  pub another : primary ≢ cfg.core.id
  pub effect : expire_prepare cfg c n ≡ (
    ok true,
    record (prepare_timer_off c n) {
      unicast = update n.unicast primary (n.unicast primary ++ request forwarded ∷ []);
    },
  )

append_peer :
    (cfg : NodeConfig) (p : ℕ) (m : Message) (n : Node)
    → p < cfg.core.n
    → p ≢ cfg.core.id
    → append_unicast cfg p m n
      ≡ (ok true, record n { unicast = update n.unicast p (n.unicast p ++ m ∷ []) })
unfolding append_unicast
append_peer cfg p m n l ne =
    let peer : (ltb p cfg.core.n && not (p == cfg.core.id)) ≡ true = ground arith in rw peer refl

expire_running :
    (cfg : NodeConfig) (n : Node) (c : ℕ)
    → (n.core.prepare_timers c).running ≡ true
    → let t = n.core.prepare_timers c in
      expire_prepare cfg c n ≡ forward_captured cfg t.view t.request (prepare_timer_off c n)
unfolding expire_prepare
expire_running cfg n c on = rw on refl

expire-Forwarded :
    (cfg : NodeConfig) (n : Node) (c : ℕ)
    → 0 < cfg.core.n
    → cfg.core.n ≤ 2 ^ 32
    → (n.core.prepare_timers c).running ≡ true
    → forwards cfg.core c (n.core.prepare_timers c) ≡ true
    → Forwarded cfg n c
unfolding forward_captured forward_request is_primary
expire-Forwarded cfg n c some_replica small on f =
    let t = n.core.prepare_timers c in
    let p = t.view % cfg.core.n in
    let known : is_of c t.seq t.request ≡ true = ground arith in
    let backup : (cfg.core.id == p) ≡ false = ground arith in
    let (q, captured, own, number) = is_of-some c t.seq t.request known in
    let low : p < cfg.core.n = grind arith in
    let other : p ≢ cfg.core.id = λ e. ground (arith, backup, e) in
    let word : p % 2 ^ 32 ≡ p = omega (arith, low, small) in
    record {
      forwarded = q;
      started_with = captured;
      own = own;
      same_number = number;
      primary = p;
      chosen = refl;
      in_range = low;
      another = other;
      effect =
          expire_running cfg n c on
          ∙ ap (λ o. forward_captured cfg t.view o (prepare_timer_off c n)) captured
          ∙ ap (λ k. append_unicast cfg k (request q) (prepare_timer_off c n)) word
          ∙ append_peer cfg p (request q) (prepare_timer_off c n) low other;
    }

-- Whatever happens to a replica, of which there are at most 2^32: when the prepare timer of a client
-- that is running expires, this does not panic, and the Request that the timer holds is added, as it
-- is, to the log for the primary of the timer's view and to no other log. That Request is the client's
-- and has the sequence number that the timer was started with; the primary is another replica.
pub run_node-Forwarded :
    (cfg : NodeConfig) (es : List NodeEvent) (c : ℕ)
    → 0 < cfg.core.n
    → cfg.core.n ≤ 2 ^ 32
    → ((run_node cfg es (new_node cfg)).core.prepare_timers c).running ≡ true
    → Forwarded cfg (run_node cfg es (new_node cfg)) c
run_node-Forwarded cfg es c some_replica small on =
    expire-Forwarded cfg (run_node cfg es (new_node cfg)) c some_replica small on
      (run_core_keeps (laws cfg) es (new_node cfg) (λ x. refl) c)
