-- ===== src/Replica/Requests.antt =====
-- core/request.go and core/prepare.go: the life of a request, from its capture to its execution. The
-- handlers of one replica run one after the other here, so a captured identifier is always released
-- before the next capture; where the source would wait the model fails with `would_wait`.
use minbft.Base.{ℕ, Bool, true, false, not, some, List, [], ◌∷◌, update, ◌==◌, if◌then◌else◌}
use minbft.Base.Result.{ok, err, panic, would_wait}
use minbft.Messages.{Request, prepare}
use minbft.ClientState.Seq.{
  attempt_capture, set_captured, release, prepare_seq, retire_seq, unprepare_seq, not_new,
  wait_released, wait_retry, captured,
}
use minbft.RequestList.{add, remove}
use minbft.ViewChange.{is_primary}
use minbft.Replica.{Config, Timer, Replica, M, ◌>>=◌, ◌>>◌, return, gets, modify, generate, no_ui}

-- timerState.Start and Stop for a positive timeout
abbrev pub start_timer : Request → ℕ → Timer
start_timer q view = record { seq = q.sequence; running = true; view = view; request = some q }

unfoldable pub stop_timer : ℕ → Timer → Timer
stop_timer seq t = if t.seq == seq then record t { running = false } else t

unfoldable pub start_request_timer : Request → ℕ → M (Unit {0})
start_request_timer q view =
    modify
      λ s. record s { request_timers = update s.request_timers q.client_id (start_timer q view) }

unfoldable pub stop_request_timer : Request → M (Unit {0})
unfolding stop_timer
stop_request_timer q = modify λ s. record s {
  request_timers =
      update s.request_timers q.client_id (stop_timer q.sequence (s.request_timers q.client_id));
}

unfoldable pub start_prepare_timer : Request → ℕ → M (Unit {0})
start_prepare_timer q view =
    modify
      λ s. record s { prepare_timers = update s.prepare_timers q.client_id (start_timer q view) }

unfoldable pub stop_prepare_timer : Request → M (Unit {0})
unfolding stop_timer
stop_prepare_timer q = modify λ s. record s {
  prepare_timers =
      update s.prepare_timers q.client_id (stop_timer q.sequence (s.prepare_timers q.client_id));
}

-- makeRequestCapturer
unfoldable pub capture_request : Request → M Bool
capture_request q s = elim (attempt_capture (s.seqs q.client_id) q.sequence) [
  | not_new ↦ (ok false, s)
  | wait_released ↦ (err would_wait, s)
  | wait_retry ↦ (err would_wait, s)
  | captured ↦ (
    ok true,
    record s {
      seqs = update s.seqs q.client_id (set_captured (s.seqs q.client_id) q.sequence);
      pending = add q s.pending;
    },
  )
]

unfoldable pub release_request : Request → M (Unit {0})
release_request q =
    modify λ s. record s { seqs = update s.seqs q.client_id (release (s.seqs q.client_id)) }

-- makeRequestPreparer: an identifier that was not captured is a panic.
unfoldable pub prepare_request : Request → M Bool
prepare_request q s =
    let (t, r) = prepare_seq (s.seqs q.client_id) q.sequence in
    elim r [
      | panic ↦ (panic, s)
      | err e ↦ (panic, s)
      | ok false ↦ (ok false, s)
      | ok true ↦ (
        ok true,
        record s {
          seqs = update s.seqs q.client_id t;
          prepared = add q s.prepared;
          pending = remove q s.pending;
        },
      )
    ]

-- makeRequestRetirer
unfoldable pub retire_request : Request → M Bool
retire_request q s =
    let (t, r) = retire_seq (s.seqs q.client_id) q.sequence in
    elim r [
      | panic ↦ (panic, s)
      | err e ↦ (panic, s)
      | ok false ↦ (ok false, s)
      | ok true ↦
          (ok true, record s { seqs = update s.seqs q.client_id t; prepared = remove q s.prepared })
    ]

-- makeRequestUnpreparer: the loop over `preparedReqs.All()`
unfoldable pub unprepare_all : List Request → Replica → Replica
unprepare_all [] s = s
unprepare_all (q ∷ l) s = unprepare_all l (record s {
  seqs = update s.seqs q.client_id (unprepare_seq (s.seqs q.client_id));
  pending = add q s.pending;
  prepared = remove q s.prepared;
})

unfoldable pub unprepare_requests : M (Unit {0})
unfolding unprepare_all
unprepare_requests = modify λ s. unprepare_all s.prepared s

-- makeRequestApplier
unfoldable pub apply_request : Config → Request → ℕ → M (Unit {0})
apply_request cfg q view = do
  start_request_timer q view
  if is_primary view cfg.id cfg.n
      then generate cfg (prepare cfg.id view q no_ui)
      else start_prepare_timer q view

unfoldable pub apply_all : Config → List Request → ℕ → M (Unit {0})
apply_all cfg [] view = return tt
apply_all cfg (q ∷ l) view = do apply_request cfg q view; apply_all cfg l view

-- makePendingRequestApplier
unfoldable pub apply_pending : Config → ℕ → M (Unit {0})
apply_pending cfg view = do pending ← gets (λ s. s.pending); apply_all cfg pending view

-- makeRequestProcessor
unfoldable pub process_request : Config → Request → M Bool
process_request cfg q = do
  view ← gets (λ s. s.view)
  new ← capture_request q
  if not new
      then return false
      else (if not (view.current_view == view.expected_view)
          then (do release_request q; return true)
          else (do apply_request cfg q view.current_view; release_request q; return true))

-- makeRequestExecutor: the operation goes to the application; the Reply follows when it has a result.
unfoldable pub execute_request : Request → M (Unit {0})
execute_request q = do
  new ← retire_request q
  if not new
      then return tt
      else (do stop_request_timer q; modify λ s. record s { delivered = q ∷ s.delivered })
