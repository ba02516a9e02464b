-- ===== src/Node/Answers.antt =====
-- core/request.go, core/message-handling.go, core/internal/clientstate/reply.go: a Reply that a client
-- gets is the application's result of the one execution of its request.
use minbft.Base.{
  ℕ, ◌≡◌, refl, sym, ap, ◌∙◌, ◌⊎◌, inl, inr, Bool, Option, none, some, List, [], ◌∷◌, arith, ◌==◌,
  if◌then◌else◌, Bool-cases, ==_iff, update, ltb, not, ◌&&◌, ◌++◌, ◌%◌, ◌^◌,
}
use minbft.Messages.{Request, Reply, Message, hello, request, reply, req_view_change, certified}
use minbft.ClientState.Reply.{ReplyState, add_reply}
use minbft.Replica.Changes.{operations}
use minbft.Replica.Run.{
  Event, client_request, peer_message, own_message, timeout, on_event-Preserves,
}
use minbft.Replica.Once.{IsServing, serving, advancing}
use minbft.Node.{
  NodeConfig, Node, delivery, signed_reply, finish_request, note_result, take_result, handle_core,
  request_timer_off, prepare_timer_off, vc_timer_off, forward_captured, expire_if_started,
  handle_client, append_unicast, forward_request, expire_request, expire_prepare,
  expire_view_change, NodeEvent, peer_in, own_in, client_in, result_in, request_expired,
  prepare_expired, view_change_expired, on_node_event,
}
use minbft.Node.Core.{no_error-state}
use minbft.Node.Executed.{on_event-Grown, delivery-append}

-- Where a Reply to a client comes from: a delivered request of this client, and its result.
pub record Source (cfg : NodeConfig) (delivered : List Request) (results : ℕ → Option (List ℕ))
    (client : ℕ) (r : Reply) : Type 0 where
  pub index : ℕ
  pub request : Request
  pub result : List ℕ
  pub executed : delivery delivered index ≡ some request
  pub returned : results index ≡ some result
  pub own : request.client_id ≡ client
  pub content : r ≡ signed_reply cfg request result

pub record IsAnswering (cfg : NodeConfig) (n : Node) : Type 0 where
  pub serves : IsServing n.core
  pub answers :
      (c : ℕ) (r : Reply) → (n.replies c).reply ≡ some r → Source cfg n.core.delivered n.results c r

handle_core-IsAnswering :
    (cfg : NodeConfig) (e : Event) (n : Node)
    → IsAnswering cfg n
    → IsAnswering cfg (handle_core cfg e n).1
unfolding handle_core
handle_core-IsAnswering cfg e n h = record {
  serves = (on_event-Preserves (operations (serving cfg.core)) advancing e).keeps n.core h.serves;
  answers = λ c r g.
      let s = h.answers c r g in
      let (more, grown) = on_event-Grown cfg.core e n.core in
      record {
        index = s.index;
        request = s.request;
        result = s.result;
        executed =
            ap (λ l. delivery l s.index) grown
            ∙ delivery-append more n.core.delivered s.index s.executed;
        returned = s.returned;
        own = s.own;
        content = s.content;
      };
}

add_reply_cases :
    (s : ReplyState) (r : Reply)
    → ((add_reply s r).reply ≡ s.reply) ⊎ ((add_reply s r).reply ≡ some r)
unfolding add_reply
add_reply_cases s r = ground arith

module _ (cfg : NodeConfig) (i : ℕ) (result : List ℕ) (q : Request) (n : Node)
    (executed : delivery n.core.delivered i ≡ some q) (open_result : n.results i ≡ none)
    (h : IsAnswering cfg n) where
  abbrev noted : ℕ → Option (List ℕ)
  noted = update n.results i (some result)

  -- What was returned before stays.
  kept :
      (c : ℕ) (r : Reply)
      → Source cfg n.core.delivered n.results c r
      → Source cfg n.core.delivered noted c r
  kept c r s = record {
    index = s.index;
    request = s.request;
    result = s.result;
    executed = s.executed;
    returned = ground (arith, s.returned);
    own = s.own;
    content = s.content;
  }

  fresh : Source cfg n.core.delivered noted q.client_id (signed_reply cfg q result)
  fresh = record {
    index = i;
    request = q;
    result = result;
    executed = executed;
    returned = ground arith;
    own = refl;
    content = refl;
  }

  -- The client of the request gets the new Reply or keeps the one it has; others keep theirs.
  finished_answers :
      (c : ℕ) (r : Reply)
      → (update n.replies q.client_id
          (add_reply (n.replies q.client_id) (signed_reply cfg q result))
          c).reply
        ≡ some r
      → Source cfg n.core.delivered noted c r
  finished_answers c r g = elim (Bool-cases (q.client_id == c)) [
    | inr other ↦ kept c r (h.answers c r (ground arith))
    | inl own ↦
        let same = (==_iff q.client_id c).0 own in
        let added = add_reply (n.replies q.client_id) (signed_reply cfg q result) in
        let now : added.reply ≡ some r =
          sym (ap (λ (b : Bool). (if b then added else n.replies c).reply) own) ∙ g in
        elim (add_reply_cases (n.replies q.client_id) (signed_reply cfg q result)) [
          | inl old ↦
              kept c r (h.answers c r (ap (λ k. (n.replies k).reply) (sym same) ∙ sym old ∙ now))
          | inr new ↦ let e : r ≡ signed_reply cfg q result = cc in rw (← same, e) fresh
        ]
  ]

note_result-IsAnswering :
    (cfg : NodeConfig) (i : ℕ) (result : List ℕ) (n : Node) (o : Option Request)
    (r : Option (List ℕ))
    → delivery n.core.delivered i ≡ o
    → n.results i ≡ r
    → IsAnswering cfg n
    → IsAnswering cfg (note_result cfg i result n o r).1
unfolding note_result finish_request
note_result-IsAnswering cfg i result n none r e f h = h
note_result-IsAnswering cfg i result n (some q) (some old) e f h = h
note_result-IsAnswering cfg i result n (some q) none e f h = record {
  serves = h.serves;
  answers = finished_answers cfg i result q n e f h;
}

take_result-IsAnswering :
    (cfg : NodeConfig) (i : ℕ) (result : List ℕ) (n : Node)
    → IsAnswering cfg n
    → IsAnswering cfg (take_result cfg i result n).1
unfolding take_result
take_result-IsAnswering cfg i result n h =
    note_result-IsAnswering cfg i result n (delivery n.core.delivered i) (n.results i) refl refl h

-- Of the state of timers and of the logs for peers nothing depends.
same-IsAnswering :
    (cfg : NodeConfig) (n m : Node)
    → IsServing m.core
    → m.core.delivered ≡ n.core.delivered
    → m.results ≡ n.results
    → m.replies ≡ n.replies
    → IsAnswering cfg n
    → IsAnswering cfg m
same-IsAnswering cfg n m serves d s r h = record {
  serves = serves;
  answers =
      λ c p g. rw (d, s) (h.answers c p (ap (λ (k : ℕ → ReplyState). (k c).reply) (sym r) ∙ g));
}

append_unicast-IsAnswering :
    (cfg : NodeConfig) (p : ℕ) (m : Message) (n : Node)
    → IsAnswering cfg n
    → IsAnswering cfg (append_unicast cfg p m n).1
unfolding append_unicast
append_unicast-IsAnswering cfg p m n h =
    elim (Bool-cases (ltb p cfg.core.n && not (p == cfg.core.id))) [
      | inl peer ↦ rw peer (
          same-IsAnswering cfg n (record n { unicast = update n.unicast p (n.unicast p ++ m ∷ []) })
            h.serves refl refl refl h)
      | inr none_such ↦ rw none_such h
    ]

expire_request-IsAnswering :
    (cfg : NodeConfig) (c : ℕ) (n : Node)
    → IsAnswering cfg n
    → IsAnswering cfg (expire_request cfg c n).1
unfolding expire_request
expire_request-IsAnswering cfg c n h = elim (Bool-cases (n.core.request_timers c).running) [
  | inl on ↦ rw on (
      handle_core-IsAnswering cfg (timeout (n.core.request_timers c).view) (request_timer_off c n)
        (same-IsAnswering cfg n (request_timer_off c n) h.serves refl refl refl h))
  | inr off ↦ rw off h
]

forward_captured-IsAnswering :
    (cfg : NodeConfig) (v : ℕ) (o : Option Request) (n : Node)
    → IsAnswering cfg n
    → IsAnswering cfg (forward_captured cfg v o n).1
unfolding forward_captured forward_request
forward_captured-IsAnswering cfg v none n h = h
forward_captured-IsAnswering cfg v (some q) n h =
    append_unicast-IsAnswering cfg ((v % cfg.core.n) % 2 ^ 32) (request q) n h

expire_prepare-IsAnswering :
    (cfg : NodeConfig) (c : ℕ) (n : Node)
    → IsAnswering cfg n
    → IsAnswering cfg (expire_prepare cfg c n).1
unfolding expire_prepare
expire_prepare-IsAnswering cfg c n h = elim (Bool-cases (n.core.prepare_timers c).running) [
  | inl on ↦ rw on (
      forward_captured-IsAnswering cfg (n.core.prepare_timers c).view
        (n.core.prepare_timers c).request (prepare_timer_off c n)
        (same-IsAnswering cfg n (prepare_timer_off c n) h.serves refl refl refl h))
  | inr off ↦ rw off h
]

expire_if_started-IsAnswering :
    (cfg : NodeConfig) (o : Option ℕ) (n : Node)
    → IsAnswering cfg n
    → IsAnswering cfg (expire_if_started cfg o n).1
unfolding expire_if_started
expire_if_started-IsAnswering cfg none n h = h
expire_if_started-IsAnswering cfg (some v) n h =
    handle_core-IsAnswering cfg (timeout v) (vc_timer_off n)
      (same-IsAnswering cfg n (vc_timer_off n) h.serves refl refl refl h)

pub on_node_event-IsAnswering :
    (cfg : NodeConfig) (e : NodeEvent) (n : Node)
    → IsAnswering cfg n
    → IsAnswering cfg (on_node_event cfg e n).1
unfolding on_node_event handle_client expire_view_change
on_node_event-IsAnswering cfg (peer_in m) n h = handle_core-IsAnswering cfg (peer_message m) n h
on_node_event-IsAnswering cfg (own_in m) n h =
    rw (no_error-state (handle_core cfg (own_message m) n))
      (handle_core-IsAnswering cfg (own_message m) n h)
on_node_event-IsAnswering cfg (client_in (request q)) n h =
    handle_core-IsAnswering cfg (client_request q) n h
on_node_event-IsAnswering cfg (client_in (hello r)) n h = h
on_node_event-IsAnswering cfg (client_in (reply r)) n h = h
on_node_event-IsAnswering cfg (client_in (req_view_change r)) n h = h
on_node_event-IsAnswering cfg (client_in (certified m)) n h = h
on_node_event-IsAnswering cfg (result_in i result) n h = take_result-IsAnswering cfg i result n h
on_node_event-IsAnswering cfg (request_expired c) n h = expire_request-IsAnswering cfg c n h
on_node_event-IsAnswering cfg (prepare_expired c) n h = expire_prepare-IsAnswering cfg c n h
on_node_event-IsAnswering cfg view_change_expired n h =
    expire_if_started-IsAnswering cfg n.core.vc_timer n h
