-- ===== src/Replica/Changes.antt =====
-- core/view-change.go and core/req-view-change.go: what the elementary changes keep, the processors that
-- reset the log keep as a whole.
use minbft.Base.{ℕ, Bool, true, false, not, List, Option, none, some, ◌==◌}
use minbft.Messages.{
  cert_of, log_of, ReqViewChange, prepare, commit, view_change, new_view, ViewChange, vc_message,
}
use minbft.Replica.{Config, Replica, return, no_ui}
use minbft.Replica.Views.{start_view_change, process_rvc, process_nv_cert, certified_messages}
use minbft.Replica.Keeps.{
  Elementary, Operations, Preserves, >>=-Preserves, return-Preserves, gets-Preserves, if-Preserves,
}

module _ {cfg : Config} {P : Replica → Type 0} (k : Elementary cfg P) where
  process_nv_cert-Preserves :
      (v : ℕ) (cert : List ViewChange) → Preserves P (process_nv_cert cfg v cert)
  unfolding process_nv_cert
  process_nv_cert-Preserves v cert = >>=-Preserves (gets-Preserves (λ s. s.view)) λ view.
      if-Preserves (not (v == view.expected_view)) (return-Preserves tt)
        (>>=-Preserves k.log_reset λ _. k.generated (new_view cfg.id v (cert_of cert) no_ui))

  start_view_change-Preserves :
      (v : ℕ) (cert : List ReqViewChange) → Preserves P (start_view_change cfg v cert)
  unfolding start_view_change
  start_view_change-Preserves v cert = >>=-Preserves (k.expected v) λ moved.
      if-Preserves (not moved) (return-Preserves false) (
        >>=-Preserves (gets-Preserves (λ s. certified_messages s.log)) λ msgs.
          >>=-Preserves (k.change_started v) λ _. >>=-Preserves k.unprepared λ _.
            >>=-Preserves (k.generated (view_change (vc_message cfg.id v (log_of msgs) cert no_ui)))
              λ _. return-Preserves true)

  finish_rvc-Preserves :
      (v : ℕ) (new : Bool) (cert : Option (List ReqViewChange))
      → Preserves P (elim cert [ none ↦ return new | some c ↦ start_view_change cfg v c ])
  finish_rvc-Preserves v new none = return-Preserves new
  finish_rvc-Preserves v new (some c) = start_view_change-Preserves v c

  process_rvc-Preserves : (rvc : ReqViewChange) → Preserves P (process_rvc cfg rvc)
  unfolding process_rvc
  process_rvc-Preserves rvc =
      >>=-Preserves (k.rvc_collected rvc) λ r. finish_rvc-Preserves rvc.new_view r.0 r.1

  pub operations : Operations cfg P
  operations = record {
    proposed = λ v q. k.generated (prepare cfg.id v q no_ui);
    committed = λ m. k.generated (commit cfg.id m no_ui);
    request_timer = k.request_timer;
    prepare_timer = k.prepare_timer;
    prepare_timer_stop = k.prepare_timer_stop;
    processed = k.processed;
    prepared = k.prepared;
    executed = k.executed;
    collected = k.collected;
    vc_collected = k.vc_collected;
    current = k.current;
    vc_timer_stop = k.vc_timer_stop;
    rvc_processed = process_rvc-Preserves;
    nv_cert_processed = process_nv_cert-Preserves;
  }
