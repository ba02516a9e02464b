-- ===== src/Replica/Views.antt =====
-- core/message-handling.go, core/view-change.go, core/req-view-change.go and core/timeout.go: how a
-- replica asks for, starts and completes a change of view.
use minbft.Base.{
  ℕ, Bool, true, false, not, Option, none, some, List, [], ◌∷◌, ◌==◌, ltb, leb, if◌then◌else◌,
  inc64,
}
use minbft.Base.Result.{Result, ok, err, panic, unexpected_view, cannot_apply}
use minbft.Messages.{
  ReqViewChange, CertifiedMessage, prepare, commit, view_change, new_view, ViewChange, vc_message,
  Message, hello, request, reply, req_view_change, certified, log_of, cert_of,
}
use minbft.Messages.Vc
use minbft.ViewState.{advance_expected, advance_current}
use minbft.ViewChange.{collect_rvc, collect_vc}
use minbft.Replica.{
  Config, M, ◌>>=◌, ◌>>◌, return, lift, gets, modify, wrap, generate, generate_rvc, no_ui,
}
use minbft.Replica.Requests.{unprepare_requests}
use minbft.Replica.Commits.{apply_prepare, apply_commit, apply_new_view}

-- `log.Messages()` as far as they are certified
unfoldable pub certified_messages : List Message → List CertifiedMessage
certified_messages [] = []
certified_messages (certified m ∷ l) = m ∷ certified_messages l
certified_messages (hello r ∷ l) = certified_messages l
certified_messages (request q ∷ l) = certified_messages l
certified_messages (reply r ∷ l) = certified_messages l
certified_messages (req_view_change r ∷ l) = certified_messages l

-- `viewState.AdvanceExpectedView`
unfoldable pub advance_expected_view : ℕ → M Bool
unfolding advance_expected
advance_expected_view v s =
    let (t, moved) = advance_expected s.view v in (ok moved, record s { view = t })

-- `viewState.AdvanceCurrentView`
unfoldable pub advance_current_view : ℕ → M Bool
unfolding advance_current
advance_current_view v s =
    let (t, moved) = advance_current s.view v in (ok moved, record s { view = t })

-- makeViewChangeStarter
unfoldable pub start_view_change : Config → ℕ → List ReqViewChange → M Bool
unfolding certified_messages advance_expected_view
start_view_change cfg target cert = do
  moved ← advance_expected_view target
  if not moved then return false else (do
    msgs ← gets (λ s. certified_messages s.log)
    modify λ s. record s { log = []; vc_timer = some target }
    unprepare_requests
    generate cfg (view_change (vc_message cfg.id target (log_of msgs) cert no_ui))
    return true)

-- `collect` of makeReqViewChangeProcessor
unfoldable pub collect_rvc_step : Config → ReqViewChange → M (Bool × Option (List ReqViewChange))
collect_rvc_step cfg rvc s =
    let (t, new, cert) = collect_rvc cfg.vc_cert_size s.rvcs rvc in
    (ok (new, cert), record s { rvcs = t })

-- makeReqViewChangeProcessor
unfoldable pub process_rvc : Config → ReqViewChange → M Bool
unfolding collect_rvc_step start_view_change
process_rvc cfg rvc = do
  r ← collect_rvc_step cfg rvc
  elim r.1 [ none ↦ return r.0 | some cert ↦ start_view_change cfg rvc.new_view cert ]

-- makeNewViewCertProcessor
unfoldable pub process_nv_cert : Config → ℕ → List ViewChange → M (Unit {0})
process_nv_cert cfg target cert = do
  view ← gets (λ s. s.view)
  if not (target == view.expected_view) then return tt else (do
    modify λ s. record s { log = [] }
    generate cfg (new_view cfg.id target (cert_of cert) no_ui))

-- `collect` of makeViewChangeProcessor
unfoldable pub collect_vc_step : Config → ViewChange → M (Bool × Option (List ViewChange))
collect_vc_step cfg vc s =
    let (t, new, cert) = collect_vc cfg.id cfg.n cfg.vc_cert_size s.vcs vc in
    (ok (new, cert), record s { vcs = t })

-- makeViewChangeProcessor
unfoldable pub process_view_change : Config → ViewChange → M Bool
unfolding collect_vc_step process_nv_cert
process_view_change cfg vc = do
  r ← collect_vc_step cfg vc
  elim r.1 [
    | none ↦ return r.0
    | some cert ↦ (do process_nv_cert cfg (Vc.new_view vc) cert; return r.0)
  ]

-- The view of a Prepare or of a Commit's proposal, in the `switch` of makeViewMessageProcessor
unfoldable pub proposal_view : CertifiedMessage → Result ℕ
proposal_view (prepare r v q u) = ok v
proposal_view (new_view r v c u) = ok v
proposal_view (commit r p u) = panic
proposal_view (view_change vc) = panic

-- makePeerMessageApplier, for a certified message
unfoldable pub apply_message : Config → CertifiedMessage → M (Unit {0})
apply_message cfg (prepare r v q u) = apply_prepare cfg r v q (prepare r v q u)
apply_message cfg (commit r p u) = apply_commit (commit r p u)
apply_message cfg (new_view r v c u) = apply_new_view cfg r v c (new_view r v c u)
apply_message cfg (view_change vc) = lift panic

-- The end of makeViewMessageProcessor
unfoldable pub apply_in_view : Config → (message_view : ℕ) → CertifiedMessage → M Bool
unfolding apply_message
apply_in_view cfg message_view m = do
  view ← gets (λ s. s.view)
  if not (message_view == view.expected_view)
      then return false
      else (do wrap cannot_apply (apply_message cfg m); return true)

-- The case of a Prepare or Commit message
unfoldable pub process_in_view : Config → (message_view : ℕ) → CertifiedMessage → M Bool
unfolding apply_in_view
process_in_view cfg message_view m = do
  view ← gets (λ s. s.view)
  if ltb view.current_view message_view
      then lift (err unexpected_view)
      else apply_in_view cfg message_view m

-- makeViewMessageProcessor
unfoldable pub process_view_message : Config → CertifiedMessage → M Bool
unfolding proposal_view process_in_view advance_current_view
process_view_message cfg (prepare r v q u) = process_in_view cfg v (prepare r v q u)
process_view_message cfg (commit r p u) = do
  v ← lift (proposal_view p)
  process_in_view cfg v (commit r p u)
process_view_message cfg (new_view r v c u) = do
  moved ← advance_current_view v
  if moved then apply_in_view cfg v (new_view r v c u) else return false
process_view_message cfg (view_change vc) = lift panic

-- makeViewChangeRequestor
unfoldable pub request_view_change : Config → ℕ → M Bool
request_view_change cfg target = do
  last ← gets (λ s. s.requested)
  if leb target last then return false else (do
    modify λ s. record s { requested = target }
    view ← gets (λ s. s.view)
    if leb target view.expected_view then return false else (do
      generate_rvc cfg (record { replica_id = cfg.id; new_view = target; signature = [] })
      return true))

-- makeRequestTimeoutHandler and makeViewChangeTimeoutHandler
unfoldable pub handle_timeout : Config → ℕ → M Bool
unfolding request_view_change
handle_timeout cfg view = request_view_change cfg (inc64 view)
