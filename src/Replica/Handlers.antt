-- ===== src/Replica/Handlers.antt =====
-- core/message-handling.go: what the elementary changes of the state keep, every handler keeps. The
-- lemmas follow the handlers' composition.
use minbft.Base.{ℕ, Bool, true, false, not, List, [], ◌∷◌, Option, none, some, ◌==◌, ltb}
use minbft.Base.Result.{panic}
use minbft.Messages.{Request, CertifiedMessage, prepare, commit, view_change, new_view, ViewChange}
use minbft.Messages.Vc
use minbft.NewView.Extract.{extract_prepared}
use minbft.Replica.{Config, Replica, ◌>>=◌, return}
use minbft.Replica.Requests.{apply_pending, apply_all, apply_request}
use minbft.Replica.Commits.{
  collect_commitment, proposal_of, commitment_to, execute_all, accept_new_view, execute_proposal,
  apply_prepare, apply_commit, prepare_all, apply_new_view,
}
use minbft.Replica.Views.{
  process_nv_cert, process_view_change, apply_message, apply_in_view, process_in_view,
  process_view_message, proposal_view,
}
use minbft.Replica.Process.{process_content}
use minbft.ViewChange.{is_primary}
use minbft.Replica.Keeps.{
  Operations, Preserves, >>=-Preserves, wrap-Preserves, lift-Preserves, return-Preserves,
  gets-Preserves, if-Preserves, else-Preserves,
}

module _ {cfg : Config} {P : Replica → Type 0} (k : Operations cfg P) where
  execute_all-Preserves : (l : List Request) → Preserves P (execute_all l)
  unfolding execute_all
  execute_all-Preserves [] = return-Preserves tt
  execute_all-Preserves (q ∷ l) = >>=-Preserves (k.executed q) (λ _. execute_all-Preserves l)

  execute_proposal-Preserves : (m : CertifiedMessage) → Preserves P (execute_proposal m)
  unfolding execute_proposal accept_new_view
  execute_proposal-Preserves (prepare r v q u) = k.executed q
  execute_proposal-Preserves (new_view r v c u) =
      >>=-Preserves (lift-Preserves _) execute_all-Preserves
  execute_proposal-Preserves (commit r p u) = lift-Preserves panic
  execute_proposal-Preserves (view_change vc) = lift-Preserves panic

  collect_commitment-Preserves : (m : CertifiedMessage) → Preserves P (collect_commitment m)
  unfolding collect_commitment
  collect_commitment-Preserves m = >>=-Preserves (lift-Preserves (proposal_of m)) λ p.
      >>=-Preserves (lift-Preserves (commitment_to m p)) λ c.
        >>=-Preserves (k.collected c)
          λ done. if-Preserves done (execute_proposal-Preserves p) (return-Preserves tt)

  apply_request-Preserves : (q : Request) (v : ℕ) → Preserves P (apply_request cfg q v)
  unfolding apply_request
  apply_request-Preserves q v =
      >>=-Preserves (k.request_timer q v)
        λ _. else-Preserves (is_primary v cfg.id cfg.n) (k.proposed v q) (k.prepare_timer q v)

  apply_all-Preserves : (l : List Request) (v : ℕ) → Preserves P (apply_all cfg l v)
  unfolding apply_all
  apply_all-Preserves [] v = return-Preserves tt
  apply_all-Preserves (q ∷ l) v =
      >>=-Preserves (apply_request-Preserves q v) (λ _. apply_all-Preserves l v)

  apply_pending-Preserves : (v : ℕ) → Preserves P (apply_pending cfg v)
  unfolding apply_pending
  apply_pending-Preserves v =
      >>=-Preserves (gets-Preserves (λ s. s.pending)) (λ l. apply_all-Preserves l v)

  prepare_all-Preserves : (l : List Request) → Preserves P (prepare_all l)
  unfolding prepare_all
  prepare_all-Preserves [] = return-Preserves tt
  prepare_all-Preserves (q ∷ l) = >>=-Preserves (k.prepared q) (λ _. prepare_all-Preserves l)

  apply_message-Preserves : (m : CertifiedMessage) → Preserves P (apply_message cfg m)
  unfolding apply_message apply_prepare apply_commit apply_new_view
  apply_message-Preserves (prepare r v q u) = >>=-Preserves (k.prepared q) λ new.
      if-Preserves (not new) (lift-Preserves _) (
        >>=-Preserves (wrap-Preserves _ (collect_commitment-Preserves (prepare r v q u))) λ _.
          if-Preserves (cfg.id == r) (return-Preserves tt)
            (>>=-Preserves (k.prepare_timer_stop q) λ _. k.committed (prepare r v q u)))
  apply_message-Preserves (commit r p u) =
      wrap-Preserves _ (collect_commitment-Preserves (commit r p u))
  apply_message-Preserves (new_view r v c u) =
      >>=-Preserves (lift-Preserves (extract_prepared c)) λ l.
        >>=-Preserves (prepare_all-Preserves l) λ _.
          >>=-Preserves (wrap-Preserves _ (collect_commitment-Preserves (new_view r v c u))) λ _.
            >>=-Preserves k.vc_timer_stop λ _.
              >>=-Preserves (apply_pending-Preserves v) λ _.
                if-Preserves (cfg.id == r) (return-Preserves tt) (k.committed (new_view r v c u))
  apply_message-Preserves (view_change vc) = lift-Preserves panic

  apply_in_view-Preserves : (v : ℕ) (m : CertifiedMessage) → Preserves P (apply_in_view cfg v m)
  unfolding apply_in_view
  apply_in_view-Preserves v m = >>=-Preserves (gets-Preserves (λ s. s.view)) λ view.
      if-Preserves (not (v == view.expected_view)) (return-Preserves false)
        (>>=-Preserves (wrap-Preserves _ (apply_message-Preserves m)) λ _. return-Preserves true)

  process_in_view-Preserves : (v : ℕ) (m : CertifiedMessage) → Preserves P (process_in_view cfg v m)
  unfolding process_in_view
  process_in_view-Preserves v m = >>=-Preserves (gets-Preserves (λ s. s.view)) λ view.
      if-Preserves (ltb view.current_view v) (lift-Preserves _) (apply_in_view-Preserves v m)

  finish_vc-Preserves :
      (vc : ViewChange) (new : Bool) (cert : Option (List ViewChange))
      → Preserves P (elim cert [
        | none ↦ return new
        | some c ↦ process_nv_cert cfg (Vc.new_view vc) c >>= λ _. return new
      ])
  finish_vc-Preserves vc new none = return-Preserves new
  finish_vc-Preserves vc new (some c) =
      >>=-Preserves (k.nv_cert_processed (Vc.new_view vc) c) λ _. return-Preserves new

  -- A message that passed its UI check.
  pub process_content-Preserves : (m : CertifiedMessage) → Preserves P (process_content cfg m)
  unfolding process_content process_view_message process_view_change
  process_content-Preserves (prepare r v q u) = process_in_view-Preserves v (prepare r v q u)
  process_content-Preserves (commit r p u) =
      >>=-Preserves (lift-Preserves (proposal_view p))
        λ v. process_in_view-Preserves v (commit r p u)
  process_content-Preserves (new_view r v c u) = >>=-Preserves (k.current v) λ moved.
      if-Preserves moved (apply_in_view-Preserves v (new_view r v c u)) (return-Preserves false)
  process_content-Preserves (view_change vc) =
      >>=-Preserves (k.vc_collected vc) λ r. finish_vc-Preserves vc r.0 r.1
