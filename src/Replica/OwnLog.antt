-- ===== src/Replica/OwnLog.antt =====
-- core/view-change.go and core/req-view-change.go: the log that a replica sends with its ViewChange
-- messages, through all its handlers.
use minbft.Base.{ℕ, ◌≡◌, inl, refl, true, false, not, List, ◌==◌, inc64, arith, All}
use minbft.Base.Result.{ok}
use minbft.Messages.{Request, CertifiedMessage, prepare, commit}
use minbft.ViewState.{advance_current}
use minbft.ViewChange.{is_primary, validate_message_log}
use minbft.ViewChange.Append.{validate_message_log-first}
use minbft.ViewChange.Collect.{new_rvc_collector-RvcInv}
use minbft.Replica.{Config, new_replica, generate, generate_rvc, no_ui}
use minbft.Replica.Requests.{
  prepare_request, execute_request, retire_request, process_request, capture_request,
  release_request, apply_request, stop_request_timer, start_request_timer, stop_prepare_timer,
  start_prepare_timer,
}
use minbft.Replica.Commits.{collect_step}
use minbft.Replica.Views.{certified_messages, collect_vc_step, advance_current_view}
use minbft.Replica.Keeps.{
  Preserves, Operations, >>=-Preserves, return-Preserves, gets-Preserves, if-Preserves,
}
use minbft.Replica.Embedded.{Advances}
use minbft.Replica.Run.{Event, run, run_keeps}
use minbft.Replica.Entries.{Keeping, Acceptable, certified_messages-snoc_rvc, appended}
use minbft.Replica.Starts.{nv_cert-Keeping, rvc-Keeping}

module _ (cfg : Config) where
  proposed-Keeping :
      (v : ℕ) (q : Request) → Preserves (Keeping cfg) (generate cfg (prepare cfg.id v q no_ui))
  unfolding generate
  proposed-Keeping v q = record {
    keeps = λ s h. appended cfg s.view.expected_view s.usig s.log s.rvcs _ refl refl refl h;
  }

  committed-Keeping :
      (m : CertifiedMessage) → Preserves (Keeping cfg) (generate cfg (commit cfg.id m no_ui))
  unfolding generate
  committed-Keeping m = record {
    keeps = λ s h. appended cfg s.view.expected_view s.usig s.log s.rvcs _ refl refl refl h;
  }

  capture_request-Keeping : (q : Request) → Preserves (Keeping cfg) (capture_request q)
  unfolding capture_request
  capture_request-Keeping q = record { keeps = λ s h. ground (arith, h) }

  prepare_request-Keeping : (q : Request) → Preserves (Keeping cfg) (prepare_request q)
  unfolding prepare_request
  prepare_request-Keeping q = record { keeps = λ s h. ground (arith, h) }

  execute_request-Keeping : (q : Request) → Preserves (Keeping cfg) (execute_request q)
  unfolding execute_request retire_request stop_request_timer
  execute_request-Keeping q = record { keeps = λ s h. ground (arith, h) }

  start_request_timer-Keeping :
      (q : Request) (v : ℕ) → Preserves (Keeping cfg) (start_request_timer q v)
  unfolding start_request_timer
  start_request_timer-Keeping q v = record { keeps = λ s h. h }

  start_prepare_timer-Keeping :
      (q : Request) (v : ℕ) → Preserves (Keeping cfg) (start_prepare_timer q v)
  unfolding start_prepare_timer
  start_prepare_timer-Keeping q v = record { keeps = λ s h. h }

  release_request-Keeping : (q : Request) → Preserves (Keeping cfg) (release_request q)
  unfolding release_request
  release_request-Keeping q = record { keeps = λ s h. h }

  apply_request-Keeping : (q : Request) (v : ℕ) → Preserves (Keeping cfg) (apply_request cfg q v)
  unfolding apply_request
  apply_request-Keeping q v = >>=-Preserves (start_request_timer-Keeping q v) λ _.
      if-Preserves (is_primary v cfg.id cfg.n) (proposed-Keeping v q)
        (start_prepare_timer-Keeping q v)

  process_request-Keeping : (q : Request) → Preserves (Keeping cfg) (process_request cfg q)
  unfolding process_request
  process_request-Keeping q = >>=-Preserves (gets-Preserves (λ s. s.view)) λ view.
      >>=-Preserves (capture_request-Keeping q) λ new.
        if-Preserves (not new) (return-Preserves false) (
          if-Preserves (not (view.current_view == view.expected_view))
            (>>=-Preserves (release_request-Keeping q) λ _. return-Preserves true)
            (>>=-Preserves (apply_request-Keeping q view.current_view)
              λ _. >>=-Preserves (release_request-Keeping q) λ _. return-Preserves true))

  keeping : Operations cfg (Keeping cfg)
  unfolding stop_prepare_timer collect_step collect_vc_step advance_current_view advance_current
  keeping = record {
    proposed = proposed-Keeping;
    committed = committed-Keeping;
    request_timer = start_request_timer-Keeping;
    prepare_timer = λ q v _. start_prepare_timer-Keeping q v;
    prepare_timer_stop = λ q. record { keeps = λ s h. h };
    processed = process_request-Keeping;
    prepared = prepare_request-Keeping;
    executed = execute_request-Keeping;
    collected = λ c. record { keeps = λ s h. h };
    vc_collected = λ vc. record { keeps = λ s h. h };
    current = λ v. record { keeps = λ s h. ground (arith, h) };
    vc_timer_stop = record { keeps = λ s h. h };
    rvc_processed = rvc-Keeping cfg;
    nv_cert_processed = nv_cert-Keeping cfg;
  }

  advancing : Advances (Keeping cfg)
  unfolding generate_rvc
  advancing = record {
    advanced = λ r c. record { keeps = λ s h. h };
    asked = λ v. record { keeps = λ s h. h };
    rvc_generated = λ _ rvc. record {
      keeps = λ s h. record {
        accepted = rw (certified_messages-snoc_rvc s.log (record rvc { signature = _ })) h.accepted;
        changes = rw (certified_messages-snoc_rvc s.log (record rvc { signature = _ })) h.changes;
        bounded = h.bounded;
        agreed = h.agreed;
        collecting = h.collecting;
      };
    };
  }

new_replica-Keeping : (cfg : Config) → Keeping cfg (new_replica cfg)
unfolding certified_messages
new_replica-Keeping cfg = record {
  accepted = validate_message_log-first cfg.id;
  changes = tt;
  bounded = omega arith;
  agreed = inl refl;
  collecting = new_rvc_collector-RvcInv cfg.vc_cert_size;
}

-- Whatever messages and timeouts a replica handles, every ViewChange message in its log is one that the
-- validators accept, and the certified messages of its log, sent in a ViewChange that has its next
-- counter and asks for the view after the expected one, pass the validation of the log.
pub run_log-validate :
    (cfg : Config) (es : List Event)
    → let s = run cfg es (new_replica cfg) in
      All (Acceptable cfg) (certified_messages s.log)
      × (validate_message_log cfg.id s.view.expected_view (certified_messages s.log) (inc64 s.usig)
          ≡ ok tt)
run_log-validate cfg es =
    let h : Keeping cfg (run cfg es (new_replica cfg)) =
      run_keeps (keeping cfg) (advancing cfg) es (new_replica cfg) (new_replica-Keeping cfg) in
    (h.changes, h.accepted)
