-- ===== src/Replica/Order.antt =====
-- core/message-handling.go, makeCertifiedMessageProcessor: the messages of each replica are processed
-- in the order of their counters. core/internal/viewstate/view-state.go: the views only grow.
use minbft.Base.{
  ℕ, ◌≤◌, ◌<◌, ◌≡◌, refl, ◌⊎◌, inl, inr, Bool, false, List, [], ◌∷◌, ◌∙◌, ltb, inc64, update, arith,
  Bool-cases, ltb→lt, ltb-false,
}
use minbft.Base.Result.{Result, ok, err, panic, unexpected_counter}
use minbft.Messages.{Request, CertifiedMessage, counter, replica_id}
use minbft.ViewState.{advance_expected, advance_current}
use minbft.Replica.{Config, Replica, generate, generate_rvc, ◌>>=◌, ◌>>◌, modify, return}
use minbft.Replica.Requests.{
  prepare_request, execute_request, retire_request, unprepare_requests, unprepare_all,
  process_request, capture_request, release_request, apply_request, stop_request_timer,
  start_request_timer, stop_prepare_timer, start_prepare_timer,
}
use minbft.Replica.Commits.{collect_step}
use minbft.Replica.Views.{
  collect_rvc_step, collect_vc_step, advance_expected_view, advance_current_view,
}
use minbft.Replica.Process.{process_certified, process_content}
use minbft.Replica.Keeps.{Elementary}
use minbft.Replica.Changes.{operations}
use minbft.Replica.Handlers.{process_content-Preserves}
use minbft.Replica.Embedded.{Advances}
use minbft.Replica.Run.{Event, run, run_keeps}

-- The last counters are those of `f`, and the views have reached those of `u`.
record Frame (f : ℕ → ℕ) (s : Replica) : Type 0 where
  same : (j : ℕ) → s.last_ui j ≡ f j

abbrev pub Reached : (current expected : ℕ) → Replica → Type 0
Reached c e s = (c ≤ s.view.current_view) × (e ≤ s.view.expected_view)

unprepare_all_same :
    (l : List Request) (s : Replica)
    → ((j : ℕ) → (unprepare_all l s).last_ui j ≡ s.last_ui j) × ((unprepare_all l s).view ≡ s.view)
unfolding unprepare_all
unprepare_all_same [] s = (λ j. refl, refl)
unprepare_all_same (q ∷ l) s = unprepare_all_same l _

frame : (cfg : Config) (f : ℕ → ℕ) → Elementary cfg (Frame f)
unfolding generate start_request_timer start_prepare_timer stop_prepare_timer unprepare_requests
    collect_step collect_rvc_step collect_vc_step advance_expected_view advance_current_view
    prepare_request execute_request retire_request stop_request_timer process_request
    capture_request release_request apply_request
frame cfg f = record {
  generated = λ m. record { keeps = λ s h. record { same = h.same } };
  request_timer = λ q v. record { keeps = λ s h. record { same = h.same } };
  prepare_timer = λ q v _. record { keeps = λ s h. record { same = h.same } };
  prepare_timer_stop = λ q. record { keeps = λ s h. record { same = h.same } };
  processed = λ q. record { keeps = λ s h. record { same = λ j. ground (arith, h.same j) } };
  prepared = λ q. record { keeps = λ s h. record { same = λ j. ground (arith, h.same j) } };
  executed = λ q. record { keeps = λ s h. record { same = λ j. ground (arith, h.same j) } };
  unprepared = record {
    keeps = λ s h. record { same = λ j. (unprepare_all_same s.prepared s).0 j ∙ h.same j };
  };
  collected = λ c. record { keeps = λ s h. record { same = h.same } };
  rvc_collected = λ rvc. record { keeps = λ s h. record { same = h.same } };
  vc_collected = λ vc. record { keeps = λ s h. record { same = h.same } };
  expected = λ v. record { keeps = λ s h. record { same = h.same } };
  current = λ v. record { keeps = λ s h. record { same = h.same } };
  vc_timer_stop = record { keeps = λ s h. record { same = h.same } };
  change_started = λ v. record { keeps = λ s h. record { same = h.same } };
  log_reset = record { keeps = λ s h. record { same = h.same } };
}

growing : (cfg : Config) (c e : ℕ) → Elementary cfg (Reached c e)
unfolding generate start_request_timer start_prepare_timer stop_prepare_timer unprepare_requests
    collect_step collect_rvc_step collect_vc_step advance_expected_view advance_current_view
    prepare_request execute_request retire_request stop_request_timer process_request
    capture_request release_request apply_request advance_expected advance_current
growing cfg c e = record {
  generated = λ m. record { keeps = λ s h. h };
  request_timer = λ q v. record { keeps = λ s h. h };
  prepare_timer = λ q v _. record { keeps = λ s h. h };
  prepare_timer_stop = λ q. record { keeps = λ s h. h };
  processed = λ q. record { keeps = λ s h. ground (arith, h) };
  prepared = λ q. record { keeps = λ s h. ground (arith, h) };
  executed = λ q. record { keeps = λ s h. ground (arith, h) };
  unprepared = record { keeps = λ s h. ground (arith, h, (unprepare_all_same s.prepared s).1) };
  collected = λ c. record { keeps = λ s h. h };
  rvc_collected = λ rvc. record { keeps = λ s h. h };
  vc_collected = λ vc. record { keeps = λ s h. h };
  expected = λ v. record { keeps = λ s h. ground (arith, h) };
  current = λ v. record { keeps = λ s h. ground (arith, h) };
  vc_timer_stop = record { keeps = λ s h. h };
  change_started = λ v. record { keeps = λ s h. h };
  log_reset = record { keeps = λ s h. h };
}

growing_on : (c e : ℕ) → Advances (Reached c e)
unfolding generate_rvc
growing_on c e = record {
  advanced = λ r n. record { keeps = λ s h. h };
  asked = λ v. record { keeps = λ s h. h };
  rvc_generated = λ cfg rvc. record { keeps = λ s h. h };
}

-- Whatever messages and timeouts a replica handles, neither its current nor its expected view
-- decreases.
pub run_views :
    (cfg : Config) (es : List Event) (s : Replica)
    → Reached s.view.current_view s.view.expected_view (run cfg es s)
run_views cfg es s =
    run_keeps (operations (growing cfg s.view.current_view s.view.expected_view))
      (growing_on s.view.current_view s.view.expected_view) es s (omega arith, omega arith)

-- What the certified message `m` does in state `s`, by what its processing returns and the state `t`
-- that it leaves.
abbrev pub Outcome : CertifiedMessage → Replica → Replica → Result Bool → Type 0
Outcome m s t (ok new) =
    let last = s.last_ui (replica_id m) in
    ((counter m < inc64 last) × (new ≡ false) × (t ≡ s))
    ⊎ ((counter m ≡ inc64 last)
        × ((j : ℕ) → t.last_ui j ≡ update s.last_ui (replica_id m) (counter m) j))
Outcome m s t (err e) =
    let last = s.last_ui (replica_id m) in
    ((inc64 last < counter m) × (e ≡ unexpected_counter) × (t ≡ s))
    ⊎ ((counter m ≡ inc64 last) × ((j : ℕ) → t.last_ui j ≡ s.last_ui j))
Outcome m s t panic =
    (counter m ≡ inc64 (s.last_ui (replica_id m))) × ((j : ℕ) → t.last_ui j ≡ s.last_ui j)

-- The state after the content of a message with the next counter.
finished :
    (m : CertifiedMessage) (s t : Replica) (r : Result Bool)
    → counter m ≡ inc64 (s.last_ui (replica_id m))
    → ((j : ℕ) → t.last_ui j ≡ s.last_ui j)
    → let w = modify λ s'. record s' {
      last_ui = update s'.last_ui (replica_id m) (inc64 (s.last_ui (replica_id m)));
    } in
      let end = ((λ _. (r, t)) >>= λ new. w >> return new) t in Outcome m s end.1 end.0
finished m s t (ok new) e h = inr (e, λ j. ground (arith, e, h j))
finished m s t (err x) e h = inr (e, h)
finished m s t panic e h = (e, h)

-- A certified message of a replica has an effect only if its counter is the successor of the last one
-- processed for that replica. A message with a smaller counter is dropped without an error, one with a
-- greater counter gets the error for an unexpected counter, and both leave the whole state as it was.
-- If the processing of a message with the next counter succeeds, its counter becomes the last one of its
-- replica and those of other replicas stay; if it fails or panics, no replica's last counter changes.
pub process_certified_order :
    (cfg : Config) (m : CertifiedMessage) (s : Replica)
    → let (r, t) = process_certified cfg m s in Outcome m s t r
unfolding process_certified
process_certified_order cfg m s = elim (Bool-cases (ltb (counter m) next)) [
  | inl e ↦ rw e (inl (ltb→lt (counter m) next e, refl, refl))
  | inr n ↦ elim (Bool-cases (ltb next (counter m))) [
    | inl g ↦ rw (n, g) (inl (ltb→lt next (counter m) g, refl, refl))
    | inr l ↦
        rw (n, l)
          (finished m s (process_content cfg m s).1 (process_content cfg m s).0
            (omega (arith, ltb-false (counter m) next n, ltb-false next (counter m) l))
            (((process_content-Preserves (operations (frame cfg s.last_ui)) m).keeps s
              (record { same = λ j. refl })).same))
  ]
]
  where
    next : ℕ
    next = inc64 (s.last_ui (replica_id m))
