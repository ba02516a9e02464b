-- ===== src/ViewChange.antt =====
-- core/view-change.go, core/new-view.go and core/req-view-change.go: validation of the view-change
-- messages with their certificates and logs, and the two collectors.
pub mod Cert
pub mod Log
pub mod Repeat
pub mod Append
pub mod Collect
pub mod VcInvariant
pub mod CollectVc
pub mod Intersect
pub mod Tests
use mathlib.Core.List.{reverse}
use minbft.Base.{
  ℕ, suc, ◌+◌, ◌-◌, ◌%◌, ◌≡◌, Bool, true, false, not, ◌&&◌, ◌||◌, Option, none, some, List, [], ◌∷◌,
  ◌++◌, length, ltb, ◌==◌, if◌then◌else◌, update, u64_mod, inc64,
}
use minbft.Base.Result.{
  Error, Result, ok, err, panic, ◌>>=◌, ◌>>◌, fail_if, wrap_err, invalid_new_view,
  insufficient_quorum, new_view_mismatch, duplicate_message, missing_primary_vc, invalid_vc_cert,
  invalid_nv_cert, invalid_log, new_view_from_backup, incomplete_log, foreign_message,
  unexpected_ui, log_for_unexpected_view, message_before, missing_message_before,
}
use minbft.Messages.{
  CertifiedMessage, prepare, commit, view_change, new_view, ViewChange, vc_message, ReqViewChange,
  replica_id, counter, log_list,
}
use minbft.Messages.Vc

-- core/utils.go
unfoldable pub is_primary : ℕ → ℕ → ℕ → Bool
is_primary view id n = id == view % n

-- The loop over a certificate with the set `q` of the replicas met; it returns the set. The messages
-- are given by their replica and new view.
pub check_quorum : ℕ → (ℕ → Bool) → List (ℕ × ℕ) → Result (ℕ → Bool)
check_quorum target q [] = ok q
check_quorum target q ((r, v) ∷ l) =
    let rest = check_quorum target (update q r true) l in
    if not (v == target)
    then err new_view_mismatch
    else (if q r then err duplicate_message else rest)

abbrev pub rvc_key : ReqViewChange → ℕ × ℕ
rvc_key m = (m.replica_id, m.new_view)

abbrev pub vc_key : ViewChange → ℕ × ℕ
vc_key m = (Vc.replica_id m, Vc.new_view m)

abbrev pub keys {ℓ} : {A : Type ℓ} → (A → ℕ × ℕ) → List A → List (ℕ × ℕ)
keys f [] = []
keys f (x ∷ l) = f x ∷ keys f l

-- makeViewChangeCertValidator
pub validate_vc_cert : ℕ → ℕ → List ReqViewChange → Result (Unit {0})
unfolding check_quorum
validate_vc_cert cert_size target cert = do
  fail_if (ltb (length cert) cert_size) insufficient_quorum
  q ← check_quorum target (λ _. false) (keys rvc_key cert)
  ok tt

-- makeNewViewCertValidator
unfoldable pub validate_nv_cert : ℕ → ℕ → ℕ → List ViewChange → Result (Unit {0})
unfolding check_quorum
validate_nv_cert cert_size new_primary target cert = do
  fail_if (ltb (length cert) cert_size) insufficient_quorum
  q ← check_quorum target (λ _. false) (keys vc_key cert)
  fail_if (not (q new_primary)) missing_primary_vc

-- `nextCV--` on a uint64.
abbrev pub dec64 : ℕ → ℕ
dec64 x = (x + (u64_mod - 1)) % u64_mod

-- The view that a ViewChange or a NewView of a log refers to.
abbrev pub transition_view : CertifiedMessage → Option ℕ
transition_view (prepare r v q u) = none
transition_view (commit r p u) = none
transition_view (view_change vc) = some (Vc.new_view vc)
transition_view (new_view r v c u) = some v

abbrev pub is_empty {ℓ} : {A : Type ℓ} → List A → Bool
is_empty [] = true
is_empty (x ∷ l) = false

-- The `switch` in the loop; `first` says that `i == 0`, and `next_cv` is already decremented.
pub check_entry : ℕ → Bool → ℕ → Option ℕ → Result (Unit {0})
check_entry view first next_cv (some v) = do
  fail_if (not (v == view)) log_for_unexpected_view
  fail_if (not first) message_before
check_entry view first next_cv none =
    fail_if (first && (ltb 0 view || not (next_cv == 1))) missing_message_before

-- The loop from the end of the log: the list holds what is left, the last message first.
pub check_log : ℕ → ℕ → ℕ → List CertifiedMessage → Result (Unit {0})
check_log replica view next_cv [] = ok tt
check_log replica view next_cv (m ∷ l) =
    let rest = check_log replica view (dec64 next_cv) l in
    do
      fail_if (not (replica_id m == replica)) foreign_message
      fail_if (not (inc64 (counter m) == next_cv)) unexpected_ui
      check_entry view (is_empty l) (dec64 next_cv) (transition_view m)
      rest

pub validate_message_log : ℕ → ℕ → List CertifiedMessage → ℕ → Result (Unit {0})
unfolding check_entry check_log
validate_message_log replica view log next_cv = do
  fail_if (is_empty log && (ltb 0 view || not (next_cv == 1))) incomplete_log
  check_log replica view next_cv (reverse log)

-- makeViewChangeValidator
pub validate_view_change : ℕ → ViewChange → Result (Unit {0})
validate_view_change cert_size vc = do
  fail_if (ltb (Vc.new_view vc) 1) invalid_new_view
  wrap_err invalid_vc_cert (validate_vc_cert cert_size (Vc.new_view vc) (Vc.vc_cert vc))
  wrap_err invalid_log (
      validate_message_log (Vc.replica_id vc) (Vc.new_view vc - 1) (log_list (Vc.message_log vc))
        (Vc.ui vc).counter)

-- makeNewViewValidator, on the parts of a NewView message
pub validate_new_view : ℕ → ℕ → ℕ → ℕ → List ViewChange → Result (Unit {0})
validate_new_view n cert_size replica target cert = do
  fail_if (ltb target 1) invalid_new_view
  fail_if (not (is_primary target replica n)) new_view_from_backup
  wrap_err invalid_nv_cert (validate_nv_cert cert_size replica target cert)

-- The variables of makeReqViewChangeCollector.
pub record RvcCollector : Type 0 where
  pub view : ℕ
  pub collected : List ReqViewChange
  pub replicas : ℕ → Bool

abbrev pub new_rvc_collector : RvcCollector
new_rvc_collector = record { view = 0; collected = []; replicas = λ _. false }

-- Returns `new` and the certificate, `none` for nil.
unfoldable pub collect_rvc :
    ℕ → RvcCollector → ReqViewChange → RvcCollector × Bool × Option (List ReqViewChange)
collect_rvc cert_size s rvc =
    let collected = s.collected ++ rvc ∷ [] in
    if not (rvc.new_view == inc64 s.view) || s.replicas rvc.replica_id
    then (s, false, none)
    else (if ltb (length collected) cert_size
        then (
          record s { collected = collected; replicas = update s.replicas rvc.replica_id true },
          true,
          none,
        )
        else (
          record { view = inc64 s.view; collected = []; replicas = λ _. false },
          true,
          some collected,
        ))

-- The variables of makeViewChangeCollector: `own` is `collected[0]`, nil at first, and `others` is
-- the rest of the slice.
pub record VcCollector : Type 0 where
  pub view : ℕ
  pub own : Option ViewChange
  pub others : List ViewChange

abbrev pub new_vc_collector : VcCollector
new_vc_collector = record { view = 0; own = none; others = [] }

-- `else if newView > view { ... }`
pub enter_new_view : VcCollector → ℕ → VcCollector
enter_new_view s v = if ltb s.view v then record { view = v; own = none; others = [] } else s

-- The last part: the certificate is handed out once the own message and enough others are there.
pub finish_vc : ℕ → VcCollector → VcCollector × Bool × Option (List ViewChange)
finish_vc cert_size s = elim s.own [
  | none ↦ (s, true, none)
  | some vc ↦
      if ltb (suc (length s.others)) cert_size
      then (s, true, none)
      else (record { view = inc64 s.view; own = none; others = [] }, true, some (vc ∷ s.others))
]

pub collect_vc :
    (id n cert_size : ℕ) → VcCollector → ViewChange → VcCollector × Bool × Option (List ViewChange)
unfolding is_primary enter_new_view finish_vc
collect_vc id n cert_size s vc =
    let t = enter_new_view s (Vc.new_view vc) in
    if ltb (Vc.new_view vc) s.view
    then (s, false, none)
    else (if not (is_primary t.view id n)
        then (t, false, none)
        else (if Vc.replica_id vc == id
            then finish_vc cert_size (record t { own = some vc })
            else (if ltb (suc (length t.others)) cert_size
                then finish_vc cert_size (record t { others = t.others ++ vc ∷ [] })
                else (t, false, none))))
