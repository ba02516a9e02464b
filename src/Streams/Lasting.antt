-- ===== src/Streams/Lasting.antt =====
-- core/request.go: what a replica has executed, and the results it got, last.
use minbft.Base.{
  ℕ, ◌%◌, ◌^◌, ◌≡◌, refl, sym, ap, ◌∙◌, inl, inr, not, ◌&&◌, Option, none, some, List, [], ◌++◌,
  ◌==◌, ltb, arith, Bool-cases,
}
use minbft.Messages.{Request, Reply, Message, hello, request, reply, req_view_change, certified}
use minbft.Node.{
  NodeConfig, Node, note_result, take_result, handle_core, finish_request, handle_client,
  append_unicast, forward_request, forward_captured, expire_request, expire_prepare,
  expire_if_started, expire_view_change, prepare_timer_off, delivery, NodeEvent, peer_in, own_in,
  client_in, result_in, request_expired, prepare_expired, view_change_expired, on_node_event,
}
use minbft.Replica.Run.{own_message}
use minbft.Node.Core.{CoreLaws, no_error-state, on_node_event-keeps}
use minbft.Node.Executed.{Grown, on_event-Grown, delivery-append}
use minbft.Node.Answers.{Source}
use mathlib.Core.List.{append_assoc}

Grown-trans : {a b c : List Request} → Grown a b → Grown b c → Grown a c
Grown-trans {a} (k, e) (l, f) = (l ++ k, f ∙ ap (λ x. l ++ x) e ∙ sym (append_assoc l k a))

growing : (cfg : NodeConfig) (before : List Request) → CoreLaws cfg (λ s. Grown before s.delivered)
growing cfg before = record {
  event = λ e s h. Grown-trans h (on_event-Grown cfg.core e s);
  request_off = λ c n h. h;
  prepare_off = λ c n h. h;
  vc_off = λ n h. h;
}

note_result-results :
    (cfg : NodeConfig) (i : ℕ) (result : List ℕ) (n : Node) (o : Option Request)
    (r : Option (List ℕ)) (j : ℕ) (x : List ℕ)
    → n.results i ≡ r
    → n.results j ≡ some x
    → (note_result cfg i result n o r).1.results j ≡ some x
unfolding note_result finish_request
note_result-results cfg i result n none r j x e h = h
note_result-results cfg i result n (some q) (some old) j x e h = h
note_result-results cfg i result n (some q) none j x e h = ground (arith, e, h)

append_unicast-results :
    (cfg : NodeConfig) (p : ℕ) (m : Message) (n : Node)
    → (append_unicast cfg p m n).1.results ≡ n.results
unfolding append_unicast
append_unicast-results cfg p m n = elim (Bool-cases (ltb p cfg.core.n && not (p == cfg.core.id))) [
  | inl peer ↦ rw peer refl
  | inr none_such ↦ rw none_such refl
]

forward_captured-results :
    (cfg : NodeConfig) (v : ℕ) (o : Option Request) (n : Node)
    → (forward_captured cfg v o n).1.results ≡ n.results
unfolding forward_captured forward_request
forward_captured-results cfg v none n = refl
forward_captured-results cfg v (some q) n =
    append_unicast-results cfg ((v % cfg.core.n) % 2 ^ 32) (request q) n

expire_request-results :
    (cfg : NodeConfig) (c : ℕ) (n : Node) → (expire_request cfg c n).1.results ≡ n.results
unfolding expire_request handle_core
expire_request-results cfg c n = elim (Bool-cases (n.core.request_timers c).running) [
  | inl on ↦ rw on refl
  | inr off ↦ rw off refl
]

expire_prepare-results :
    (cfg : NodeConfig) (c : ℕ) (n : Node) → (expire_prepare cfg c n).1.results ≡ n.results
unfolding expire_prepare
expire_prepare-results cfg c n = elim (Bool-cases (n.core.prepare_timers c).running) [
  | inl on ↦ rw on (
      forward_captured-results cfg (n.core.prepare_timers c).view (n.core.prepare_timers c).request
        (prepare_timer_off c n))
  | inr off ↦ rw off refl
]

expire_if_started-results :
    (cfg : NodeConfig) (o : Option ℕ) (n : Node) → (expire_if_started cfg o n).1.results ≡ n.results
unfolding expire_if_started handle_core
expire_if_started-results cfg none n = refl
expire_if_started-results cfg (some v) n = refl

results_last :
    (cfg : NodeConfig) (e : NodeEvent) (n : Node) (j : ℕ) (x : List ℕ)
    → n.results j ≡ some x
    → (on_node_event cfg e n).1.results j ≡ some x
unfolding on_node_event handle_client handle_core expire_view_change take_result
results_last cfg (peer_in m) n j x h = h
results_last cfg (own_in m) n j x h =
    ap (λ (k : Node). k.results j) (no_error-state (handle_core cfg (own_message m) n)) ∙ h
results_last cfg (client_in (request q)) n j x h = h
results_last cfg (client_in (hello r)) n j x h = h
results_last cfg (client_in (reply r)) n j x h = h
results_last cfg (client_in (req_view_change r)) n j x h = h
results_last cfg (client_in (certified m)) n j x h = h
results_last cfg (result_in i result) n j x h =
    note_result-results cfg i result n (delivery n.core.delivered i) (n.results i) j x refl h
results_last cfg (request_expired c) n j x h =
    ap (λ (f : ℕ → Option (List ℕ)). f j) (expire_request-results cfg c n) ∙ h
results_last cfg (prepare_expired c) n j x h =
    ap (λ (f : ℕ → Option (List ℕ)). f j) (expire_prepare-results cfg c n) ∙ h
results_last cfg view_change_expired n j x h =
    ap (λ (f : ℕ → Option (List ℕ)). f j) (expire_if_started-results cfg n.core.vc_timer n) ∙ h

-- What is true of a Reply stays true.
pub on_node_event-Source :
    (cfg : NodeConfig) (e : NodeEvent) (n : Node) (c : ℕ) (r : Reply)
    → Source cfg n.core.delivered n.results c r
    → Source cfg (on_node_event cfg e n).1.core.delivered (on_node_event cfg e n).1.results c r
on_node_event-Source cfg e n c r s =
    let (more, grown) = on_node_event-keeps (growing cfg n.core.delivered) e n ([], refl) in
    record {
      index = s.index;
      request = s.request;
      result = s.result;
      executed =
          ap (λ l. delivery l s.index) grown
          ∙ delivery-append more n.core.delivered s.index s.executed;
      returned = results_last cfg e n s.index s.result s.returned;
      own = s.own;
      content = s.content;
    }
