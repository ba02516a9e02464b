-- ===== src/Node/Forwards.antt =====
-- core/request.go, makePrepareTimerStarter: where the Request goes whose Prepare does not come in time.
use minbft.Base.{
  ℕ, ◌≡◌, refl, ap, ◌∙◌, Bool, true, false, not, ◌||◌, ◌&&◌, Option, none, some, List, [], ◌∷◌,
  arith, ◌==◌,
}
use minbft.Messages.{Request}
use minbft.ClientState.Seq.{attempt_capture, retire_seq, prepare_seq}
use minbft.Replica.{Config, Replica, Timer, generate, generate_rvc}
use minbft.Replica.Requests.{
  prepare_request, execute_request, retire_request, unprepare_requests, unprepare_all,
  process_request, capture_request, release_request, apply_request, stop_request_timer,
  start_request_timer, stop_prepare_timer, start_prepare_timer, stop_timer,
}
use minbft.Replica.Commits.{collect_step}
use minbft.Replica.Views.{
  collect_rvc_step, collect_vc_step, advance_expected_view, advance_current_view,
}
use minbft.Replica.Keeps.{Preserves, Elementary}
use minbft.Replica.Changes.{operations}
use minbft.Replica.Embedded.{Advances}
use minbft.Replica.Run.{Event, on_event, on_event-Preserves}
use minbft.ViewChange.{is_primary}

abbrev pub is_of : (client seq : ℕ) → Option Request → Bool
is_of c seq none = false
is_of c seq (some q) = q.client_id == c && q.sequence == seq

-- A client's prepare timer that runs has a request of the client with the number it was started with, and is for a view in which this
-- replica is a backup.
abbrev pub forwards : Config → ℕ → Timer → Bool
forwards cfg c t =
    not t.running || (is_of c t.seq t.request && not (is_primary t.view cfg.id cfg.n))

abbrev pub IsForwarding : Config → Replica → Type 0
IsForwarding cfg s = (c : ℕ) → forwards cfg c (s.prepare_timers c) ≡ true

unprepare_all-timers :
    (l : List Request) (s : Replica) → (unprepare_all l s).prepare_timers ≡ s.prepare_timers
unfolding unprepare_all
unprepare_all-timers [] s = refl
unprepare_all-timers (q ∷ l) s = unprepare_all-timers l _

module _ (cfg : Config) where
  start_prepare_timer-IsForwarding :
      (q : Request) (v : ℕ)
      → is_primary v cfg.id cfg.n ≡ false
      → Preserves (IsForwarding cfg) (start_prepare_timer q v)
  unfolding start_prepare_timer
  start_prepare_timer-IsForwarding q v backup = record {
    keeps = λ s h c. ground (arith, h c, backup);
  }

  stop_prepare_timer-IsForwarding :
      (q : Request) → Preserves (IsForwarding cfg) (stop_prepare_timer q)
  unfolding stop_prepare_timer stop_timer
  stop_prepare_timer-IsForwarding q = record { keeps = λ s h c. ground (arith, h c, h q.client_id) }

  prepare_request-IsForwarding : (q : Request) → Preserves (IsForwarding cfg) (prepare_request q)
  unfolding prepare_request prepare_seq
  prepare_request-IsForwarding q = record { keeps = λ s h c. ground (arith, h c) }

  execute_request-IsForwarding : (q : Request) → Preserves (IsForwarding cfg) (execute_request q)
  unfolding execute_request retire_request retire_seq stop_request_timer
  execute_request-IsForwarding q = record { keeps = λ s h c. ground (arith, h c) }

  process_request-IsForwarding :
      (q : Request) → Preserves (IsForwarding cfg) (process_request cfg q)
  unfolding process_request capture_request release_request apply_request attempt_capture
      start_request_timer start_prepare_timer generate
  process_request-IsForwarding q = record { keeps = λ s h c. ground (arith, h c, h q.client_id) }

  forwarding : Elementary cfg (IsForwarding cfg)
  unfolding generate start_request_timer unprepare_requests collect_step collect_rvc_step
      collect_vc_step advance_expected_view advance_current_view
  forwarding = record {
    generated = λ m. record { keeps = λ s h. h };
    request_timer = λ q v. record { keeps = λ s h. h };
    prepare_timer = start_prepare_timer-IsForwarding;
    prepare_timer_stop = stop_prepare_timer-IsForwarding;
    processed = process_request-IsForwarding;
    prepared = prepare_request-IsForwarding;
    executed = execute_request-IsForwarding;
    unprepared = record {
      keeps = λ s h c.
          ap (λ (t : ℕ → Timer). forwards cfg c (t c)) (unprepare_all-timers s.prepared s) ∙ h c;
    };
    collected = λ c. record { keeps = λ s h. h };
    rvc_collected = λ rvc. record { keeps = λ s h. h };
    vc_collected = λ vc. record { keeps = λ s h. h };
    expected = λ v. record { keeps = λ s h. h };
    current = λ v. record { keeps = λ s h. h };
    vc_timer_stop = record { keeps = λ s h. h };
    change_started = λ v. record { keeps = λ s h. h };
    log_reset = record { keeps = λ s h. h };
  }

  advances : Advances (IsForwarding cfg)
  unfolding generate_rvc
  advances = record {
    advanced = λ r c. record { keeps = λ s h. h };
    asked = λ v. record { keeps = λ s h. h };
    rvc_generated = λ cfg rvc. record { keeps = λ s h. h };
  }

  pub on_event-IsForwarding :
      (e : Event) (s : Replica) → IsForwarding cfg s → IsForwarding cfg (on_event cfg e s).1
  on_event-IsForwarding e = (on_event-Preserves (operations forwarding) advances e).keeps
