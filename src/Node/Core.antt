-- ===== src/Node/Core.antt =====
-- What the handlers of a replica and the expiration of its timers keep, all events keep.
use minbft.Base.{
  ℕ, ◌%◌, ◌^◌, refl, inl, inr, Bool, not, ◌&&◌, Option, none, some, List, [], ◌∷◌, ◌==◌, ltb,
  Bool-cases, subst, sym, ◌≡◌,
}
use minbft.Base.Result.{Result, ok, err, panic}
use minbft.Messages.{Request, Message, hello, request, reply, req_view_change, certified}
use minbft.Replica.{Replica}
use minbft.Replica.Run.{Event, client_request, peer_message, own_message, timeout, on_event}
use minbft.Node.{
  NodeConfig, Node, note_result, take_result, handle_core, finish_request, request_timer_off,
  prepare_timer_off, vc_timer_off, no_error, handle_client, append_unicast, forward_request,
  forward_captured, expire_request, expire_prepare, expire_if_started, expire_view_change,
  NodeEvent, peer_in, own_in, client_in, result_in, request_expired, prepare_expired,
  view_change_expired, on_node_event, run_node,
}

pub record CoreLaws (cfg : NodeConfig) (P : Replica → Type 0) : Type 0 where
  pub event : (e : Event) (s : Replica) → P s → P (on_event cfg.core e s).1
  pub request_off : (c : ℕ) (n : Node) → P n.core → P (request_timer_off c n).core
  pub prepare_off : (c : ℕ) (n : Node) → P n.core → P (prepare_timer_off c n).core
  pub vc_off : (n : Node) → P n.core → P (vc_timer_off n).core

pub no_error-state : (r : Result Bool × Node) → (no_error r).1 ≡ r.1
unfolding no_error
no_error-state (ok b, n) = refl
no_error-state (err e, n) = refl
no_error-state (panic, n) = refl

note_result-core :
    (cfg : NodeConfig) (i : ℕ) (result : List ℕ) (n : Node) (o : Option Request)
    (r : Option (List ℕ))
    → (note_result cfg i result n o r).1.core ≡ n.core
unfolding note_result finish_request
note_result-core cfg i result n none r = refl
note_result-core cfg i result n (some q) (some old) = refl
note_result-core cfg i result n (some q) none = refl

append_unicast-core :
    (cfg : NodeConfig) (p : ℕ) (m : Message) (n : Node) → (append_unicast cfg p m n).1.core ≡ n.core
unfolding append_unicast
append_unicast-core cfg p m n = elim (Bool-cases (ltb p cfg.core.n && not (p == cfg.core.id))) [
  | inl peer ↦ rw peer refl
  | inr none_such ↦ rw none_such refl
]

forward_captured-core :
    (cfg : NodeConfig) (v : ℕ) (o : Option Request) (n : Node)
    → (forward_captured cfg v o n).1.core ≡ n.core
unfolding forward_captured forward_request
forward_captured-core cfg v none n = refl
forward_captured-core cfg v (some q) n =
    append_unicast-core cfg ((v % cfg.core.n) % 2 ^ 32) (request q) n

module _ {cfg : NodeConfig} {P : Replica → Type 0} (k : CoreLaws cfg P) where
  expire_request-keeps : (c : ℕ) (n : Node) → P n.core → P (expire_request cfg c n).1.core
  unfolding expire_request handle_core
  expire_request-keeps c n h = elim (Bool-cases (n.core.request_timers c).running) [
    | inl on ↦ rw on (k.event (timeout (n.core.request_timers c).view) _ (k.request_off c n h))
    | inr off ↦ rw off h
  ]

  expire_prepare-keeps : (c : ℕ) (n : Node) → P n.core → P (expire_prepare cfg c n).1.core
  unfolding expire_prepare
  expire_prepare-keeps c n h = elim (Bool-cases (n.core.prepare_timers c).running) [
    | inl on ↦ rw on (
        subst P
          (sym (
            forward_captured-core cfg (n.core.prepare_timers c).view
              (n.core.prepare_timers c).request (prepare_timer_off c n)))
          (k.prepare_off c n h))
    | inr off ↦ rw off h
  ]

  expire_if_started-keeps :
      (o : Option ℕ) (n : Node) → P n.core → P (expire_if_started cfg o n).1.core
  unfolding expire_if_started handle_core
  expire_if_started-keeps none n h = h
  expire_if_started-keeps (some v) n h = k.event (timeout v) _ (k.vc_off n h)

  pub on_node_event-keeps : (e : NodeEvent) (n : Node) → P n.core → P (on_node_event cfg e n).1.core
  unfolding on_node_event handle_client handle_core expire_view_change take_result
  on_node_event-keeps (peer_in m) n h = k.event (peer_message m) n.core h
  on_node_event-keeps (own_in m) n h =
      subst (λ (m : Node). P m.core) (sym (no_error-state (handle_core cfg (own_message m) n)))
        (k.event (own_message m) n.core h)
  on_node_event-keeps (client_in (request q)) n h = k.event (client_request q) n.core h
  on_node_event-keeps (client_in (hello r)) n h = h
  on_node_event-keeps (client_in (reply r)) n h = h
  on_node_event-keeps (client_in (req_view_change r)) n h = h
  on_node_event-keeps (client_in (certified m)) n h = h
  on_node_event-keeps (result_in i result) n h =
      subst P (sym (note_result-core cfg i result n _ _)) h
  on_node_event-keeps (request_expired c) n h = expire_request-keeps c n h
  on_node_event-keeps (prepare_expired c) n h = expire_prepare-keeps c n h
  on_node_event-keeps view_change_expired n h = expire_if_started-keeps n.core.vc_timer n h

-- What holds after an event holds after the others, which a panic prevents.
rest_keeps :
    {P : Node → Type 0} (r : Result Bool × Node) (rest : Node → Node)
    → ((n : Node) → P n → P (rest n))
    → P r.1
    → P (elim r.0 [ panic ↦ r.1 | ok b ↦ rest r.1 | err x ↦ rest r.1 ])
rest_keeps (ok b, m) rest k h = k m h
rest_keeps (err x, m) rest k h = k m h
rest_keeps (panic, m) rest k h = h

pub run_node_keeps :
    (cfg : NodeConfig) (P : Node → Type 0)
    → ((e : NodeEvent) (n : Node) → P n → P (on_node_event cfg e n).1)
    → (es : List NodeEvent) (n : Node) → P n
    → P (run_node cfg es n)
unfolding run_node
run_node_keeps cfg P k [] n h = h
run_node_keeps cfg P k (e ∷ es) n h =
    rest_keeps {P = P} (on_node_event cfg e n) (run_node cfg es) (run_node_keeps cfg P k es)
      (k e n h)

-- A property of the core is kept by every sequence of events.
pub run_core_keeps :
    {cfg : NodeConfig} {P : Replica → Type 0} (k : CoreLaws cfg P) (es : List NodeEvent) (n : Node)
    → P n.core
    → P (run_node cfg es n).core
run_core_keeps {cfg} {P} k es n h =
    run_node_keeps cfg (λ m. P m.core) (on_node_event-keeps k) es n h
