-- ===== src/Replica/Once.antt =====
-- core/request.go: the marks of the clients' requests through all the handlers of a replica, and the
-- requests that it executed.
use minbft.Base.{ℕ, suc, ◌≤◌, ◌≡◌, refl, List, [], ◌∷◌, ◌==◌, ltb, if◌then◌else◌, arith, Below}
use minbft.Base.Result.{ok}
use minbft.Messages.{Request}
use minbft.ClientState.Seq.{
  SeqState, IsOrdered, attempt_capture, set_captured, release, prepare_seq, retire_seq,
  unprepare_seq,
}
use minbft.Replica.{Config, Replica, new_replica, generate, generate_rvc}
use minbft.Replica.Requests.{
  prepare_request, execute_request, retire_request, unprepare_requests, unprepare_all,
  process_request, capture_request, release_request, apply_request, stop_request_timer,
  start_request_timer, stop_prepare_timer, start_prepare_timer,
}
use minbft.Replica.Keeps.{Preserves, Elementary}
use minbft.Replica.Changes.{operations}
use minbft.Replica.Embedded.{Advances}
use minbft.Replica.Commits.{collect_step}
use minbft.Replica.Views.{
  collect_rvc_step, collect_vc_step, advance_expected_view, advance_current_view,
}
use minbft.Replica.Run.{Event, run, run_keeps}

-- The sequence numbers of a client's requests.
abbrev pub of_client : ℕ → List Request → List ℕ
of_client c [] = []
of_client c (q ∷ l) = if q.client_id == c then q.sequence ∷ of_client c l else of_client c l

-- What holds for one client between two handlers: the marks are in order, nothing is captured, and the
-- executed requests, the last one first, descend from the retired mark.
pub record ClientWf (s : SeqState) (executed : List ℕ) : Type 0 where
  pub ordered : IsOrdered s
  pub free : s.last_released ≡ s.last_captured
  pub once : Below (suc s.last_retired) executed

abbrev pub IsServing : Replica → Type 0
IsServing s = (c : ℕ) → ClientWf (s.seqs c) (of_client c s.delivered)

pub new_replica-IsServing : (cfg : Config) → IsServing (new_replica cfg)
new_replica-IsServing cfg c = record {
  ordered = record { retired = omega arith; prepared = omega arith; released = omega arith };
  free = refl;
  once = tt;
}

prepare_request-IsServing : (q : Request) → Preserves IsServing (prepare_request q)
unfolding prepare_request prepare_seq
prepare_request-IsServing q = record { keeps = λ s h c. ground (arith, h c, h q.client_id) }

Below-le : (a b : ℕ) (l : List ℕ) → a ≤ b → Below a l → Below b l
Below-le a b [] h k = tt
Below-le a b (x ∷ l) h k = (omega (arith, h, k.0), k.1)

execute_request-IsServing : (q : Request) → Preserves IsServing (execute_request q)
unfolding execute_request retire_request retire_seq stop_request_timer
execute_request-IsServing q = record {
  keeps = λ s h c. ground (
    arith,
    h c,
    h q.client_id,
    Below-le (suc (s.seqs c).last_retired) q.sequence (of_client c s.delivered),
  );
}

unprepare_all-IsServing :
    (l : List Request) (s : Replica) → IsServing s → IsServing (unprepare_all l s)
unfolding unprepare_all unprepare_seq
unprepare_all-IsServing [] s h = h
unprepare_all-IsServing (q ∷ l) s h =
    unprepare_all-IsServing l _ (λ c. ground (arith, h c, h q.client_id))

process_request-IsServing :
    (cfg : Config) (q : Request) → Preserves IsServing (process_request cfg q)
unfolding process_request capture_request release_request apply_request attempt_capture set_captured
    release start_request_timer start_prepare_timer generate
process_request-IsServing cfg q = record { keeps = λ s h c. ground (arith, h c, h q.client_id) }

pub serving : (cfg : Config) → Elementary cfg IsServing
unfolding generate start_request_timer start_prepare_timer stop_prepare_timer unprepare_requests
    collect_step collect_rvc_step collect_vc_step advance_expected_view advance_current_view
serving cfg = record {
  generated = λ m. record { keeps = λ s h. h };
  request_timer = λ q v. record { keeps = λ s h. h };
  prepare_timer = λ q v _. record { keeps = λ s h. h };
  prepare_timer_stop = λ q. record { keeps = λ s h. h };
  processed = process_request-IsServing cfg;
  prepared = prepare_request-IsServing;
  executed = execute_request-IsServing;
  unprepared = record { keeps = λ s h. unprepare_all-IsServing s.prepared s h };
  collected = λ c. record { keeps = λ s h. h };
  rvc_collected = λ rvc. record { keeps = λ s h. h };
  vc_collected = λ vc. record { keeps = λ s h. h };
  expected = λ v. record { keeps = λ s h. h };
  current = λ v. record { keeps = λ s h. h };
  vc_timer_stop = record { keeps = λ s h. h };
  change_started = λ v. record { keeps = λ s h. h };
  log_reset = record { keeps = λ s h. h };
}

pub advancing : Advances IsServing
unfolding generate_rvc
advancing = record {
  advanced = λ r c. record { keeps = λ s h. h };
  asked = λ v. record { keeps = λ s h. h };
  rvc_generated = λ cfg rvc. record { keeps = λ s h. h };
}

-- Whatever messages and timeouts a replica handles, for every client no request is left captured, the
-- retired, prepared and captured marks are in this order, and the sequence numbers of the executed
-- requests are strictly increasing, up to the retired mark: none was executed twice.
pub run-ClientWf :
    (cfg : Config) (es : List Event) (c : ℕ)
    → let s = run cfg es (new_replica cfg) in ClientWf (s.seqs c) (of_client c s.delivered)
run-ClientWf cfg es c =
    run_keeps (operations (serving cfg)) advancing es (new_replica cfg) (new_replica-IsServing cfg)
      c

-- In every state that a replica reaches, a request is new exactly if its sequence number is above the
-- captured mark of its client; processing never has to wait, and it raises the mark to that number.
pub process_request_new :
    (cfg : Config) (es : List Event) (q : Request)
    → let s = run cfg es (new_replica cfg) in
      let (r, t) = process_request cfg q s in
      let last = (s.seqs q.client_id).last_captured in
      (r ≡ ok (ltb last q.sequence))
      × ((t.seqs q.client_id).last_captured ≡ (if ltb last q.sequence then q.sequence else last))
unfolding process_request capture_request release_request apply_request attempt_capture set_captured
    release start_request_timer start_prepare_timer generate
process_request_new cfg es q = ground (arith, run-ClientWf cfg es q.client_id)
