-- ===== src/Replica/Keeps.antt =====
-- core/message-handling.go: what the elementary changes of the state keep, every handler keeps. The
-- elementary changes are a record of laws; the lemmas follow the handlers' composition.
use minbft.Base.{if◌then◌else◌, ℕ, ◌≡◌, refl, Bool, true, false, List, [], none, some}
use minbft.Base.Result.{Error, Result, ok, err, panic}
use minbft.Messages.{Request, ReqViewChange, CertifiedMessage, prepare, commit, ViewChange}
use minbft.Commitment.{Commitment}
use minbft.ViewChange.{is_primary}
use minbft.Replica.{Config, Replica, M, ◌>>=◌, return, lift, gets, modify, wrap, generate, no_ui}
use minbft.Replica.Requests.{
  prepare_request, execute_request, stop_prepare_timer, start_request_timer, start_prepare_timer,
  unprepare_requests, process_request,
}
use minbft.Replica.Commits.{collect_step}
use minbft.Replica.Views.{
  advance_expected_view, advance_current_view, collect_rvc_step, collect_vc_step, process_rvc,
  process_nv_cert,
}

-- Whatever `m` returns, it leaves a state with `P` if it begins in one.
pub record Preserves {A : Type 0} (P : Replica → Type 0) (m : M A) : Type 0 where
  pub keeps : (s : Replica) → P s → P (m s).1

-- The elementary changes of the state.
pub record Elementary (cfg : Config) (P : Replica → Type 0) : Type 0 where
  pub generated : (m : CertifiedMessage) → Preserves P (generate cfg m)
  pub request_timer : (q : Request) (v : ℕ) → Preserves P (start_request_timer q v)
  pub prepare_timer :
      (q : Request) (v : ℕ)
      → is_primary v cfg.id cfg.n ≡ false
      → Preserves P (start_prepare_timer q v)
  pub prepare_timer_stop : (q : Request) → Preserves P (stop_prepare_timer q)
  pub processed : (q : Request) → Preserves P (process_request cfg q)
  pub prepared : (q : Request) → Preserves P (prepare_request q)
  pub executed : (q : Request) → Preserves P (execute_request q)
  pub unprepared : Preserves P unprepare_requests
  pub collected : (c : Commitment) → Preserves P (collect_step c)
  pub rvc_collected : (rvc : ReqViewChange) → Preserves P (collect_rvc_step cfg rvc)
  pub vc_collected : (vc : ViewChange) → Preserves P (collect_vc_step cfg vc)
  pub expected : (v : ℕ) → Preserves P (advance_expected_view v)
  pub current : (v : ℕ) → Preserves P (advance_current_view v)
  pub vc_timer_stop : Preserves P (modify λ s. record s { vc_timer = none })
  pub change_started : (v : ℕ) → Preserves P (modify λ s. record s { log = []; vc_timer = some v })
  pub log_reset : Preserves P (modify λ s. record s { log = [] })

-- The same with the two processors that reset the log as one operation each, and with what the
-- handlers generate apart from that.
pub record Operations (cfg : Config) (P : Replica → Type 0) : Type 0 where
  pub proposed : (v : ℕ) (q : Request) → Preserves P (generate cfg (prepare cfg.id v q no_ui))
  pub committed : (m : CertifiedMessage) → Preserves P (generate cfg (commit cfg.id m no_ui))
  pub request_timer : (q : Request) (v : ℕ) → Preserves P (start_request_timer q v)
  pub prepare_timer :
      (q : Request) (v : ℕ)
      → is_primary v cfg.id cfg.n ≡ false
      → Preserves P (start_prepare_timer q v)
  pub prepare_timer_stop : (q : Request) → Preserves P (stop_prepare_timer q)
  pub processed : (q : Request) → Preserves P (process_request cfg q)
  pub prepared : (q : Request) → Preserves P (prepare_request q)
  pub executed : (q : Request) → Preserves P (execute_request q)
  pub collected : (c : Commitment) → Preserves P (collect_step c)
  pub vc_collected : (vc : ViewChange) → Preserves P (collect_vc_step cfg vc)
  pub current : (v : ℕ) → Preserves P (advance_current_view v)
  pub vc_timer_stop : Preserves P (modify λ s. record s { vc_timer = none })
  pub rvc_processed : (rvc : ReqViewChange) → Preserves P (process_rvc cfg rvc)
  pub nv_cert_processed :
      (v : ℕ) (cert : List ViewChange) → Preserves P (process_nv_cert cfg v cert)

wrapped :
    (P : Replica → Type 0) {A : Type 0} (w : Error → Error) (r : Result A) (t : Replica)
    → P t
    → P (wrap w (λ _. (r, t)) t).1
wrapped P w (ok a) t p = p
wrapped P w (err e) t p = p
wrapped P w panic t p = p

module _ {P : Replica → Type 0} where
  continued :
      {A B : Type 0} (f : A → M B) (r : Result A) (t : Replica)
      → ((a : A) → Preserves P (f a))
      → P t
      → P (((λ _. (r, t)) >>= f) t).1
  continued f (ok a) t k p = (k a).keeps t p
  continued f (err e) t k p = p
  continued f panic t k p = p

  pub >>=-Preserves :
      {A B : Type 0} {m : M A} {f : A → M B}
      → Preserves P m
      → ((a : A) → Preserves P (f a))
      → Preserves P (m >>= f)
  >>=-Preserves {m} {f} h k = record { keeps = λ s p. continued f (m s).0 (m s).1 k (h.keeps s p) }

  pub wrap-Preserves :
      {A : Type 0} (w : Error → Error) {m : M A} → Preserves P m → Preserves P (wrap w m)
  wrap-Preserves w {m} h = record { keeps = λ s p. wrapped P w (m s).0 (m s).1 (h.keeps s p) }

  pub lift-Preserves : {A : Type 0} (r : Result A) → Preserves P (lift r)
  lift-Preserves r = record { keeps = λ s p. p }

  pub return-Preserves : {A : Type 0} (a : A) → Preserves P (return a)
  return-Preserves r = record { keeps = λ s p. p }

  pub gets-Preserves : {A : Type 0} (f : Replica → A) → Preserves P (gets f)
  gets-Preserves f = record { keeps = λ s p. p }

  pub if-Preserves :
      {A : Type 0} (b : Bool) {m k : M A}
      → Preserves P m
      → Preserves P k
      → Preserves P (if b then m else k)
  if-Preserves true h h' = h
  if-Preserves false h h' = h'

  -- Where the second branch depends on the test.
  pub else-Preserves :
      {A : Type 0} (b : Bool) {m k : M A}
      → Preserves P m
      → (b ≡ false → Preserves P k)
      → Preserves P (if b then m else k)
  else-Preserves true h h' = h
  else-Preserves false h h' = h' refl
