-- ===== src/Replica/Commits.antt =====
-- core/commit.go, core/prepare.go and core/new-view.go: what a replica does with a valid Prepare,
-- Commit or NewView message of its view.
use minbft.Base.{ℕ, Bool, true, false, not, none, List, [], ◌∷◌, ◌==◌, if◌then◌else◌}
use minbft.Base.Result.{
  Result, ok, err, panic, cannot_apply, already_prepared, unexpected_commitment_type,
  unexpected_proposal_type,
}
use minbft.Messages.{
  Request, CertifiedMessage, prepare, commit, view_change, new_view, NewViewCert, replica_id,
  counter,
}
use minbft.Commitment.{Commitment, collect}
use minbft.NewView.Extract.{extract_prepared}
use minbft.Replica.{Config, M, ◌>>=◌, ◌>>◌, return, lift, modify, wrap, generate, no_ui}
use minbft.Replica.Requests.{prepare_request, execute_request, stop_prepare_timer, apply_pending}

-- The first `switch` of makeCommitmentCollector
unfoldable pub proposal_of : CertifiedMessage → Result CertifiedMessage
proposal_of (prepare r v q u) = ok (prepare r v q u)
proposal_of (new_view r v c u) = ok (new_view r v c u)
proposal_of (commit r p u) = ok p
proposal_of (view_change vc) = err unexpected_commitment_type

-- The second one, with the counters: the commitment that `m` makes to the proposal.
unfoldable pub commitment_to : CertifiedMessage → CertifiedMessage → Result Commitment
commitment_to m (prepare r v q u) = ok (record {
  replica_id = replica_id m;
  is_new_view = false;
  view = v;
  primary_cv = u.counter;
  replica_cv = counter m;
})
commitment_to m (new_view r v c u) = ok (record {
  replica_id = replica_id m;
  is_new_view = true;
  view = v;
  primary_cv = u.counter;
  replica_cv = counter m;
})
commitment_to m (commit r p u) = err unexpected_proposal_type
commitment_to m (view_change vc) = err unexpected_proposal_type

-- acceptCommitment and countCommitment on the collector's variables
unfoldable pub collect_step : Commitment → M Bool
collect_step c s = let (k, r) = collect s.collector c in (r, record s { collector = k })

unfoldable pub execute_all : List Request → M (Unit {0})
execute_all [] = return tt
execute_all (q ∷ l) = do execute_request q; execute_all l

-- makeNewViewAcceptor
unfoldable pub accept_new_view : NewViewCert → M (Unit {0})
unfolding execute_all
accept_new_view cert = do l ← lift (extract_prepared cert); execute_all l

-- The last `switch`: the committed proposal is executed.
unfoldable pub execute_proposal : CertifiedMessage → M (Unit {0})
unfolding accept_new_view
execute_proposal (prepare r v q u) = execute_request q
execute_proposal (new_view r v c u) = accept_new_view c
execute_proposal (commit r p u) = lift panic
execute_proposal (view_change vc) = lift panic

-- makeCommitmentCollector
unfoldable pub collect_commitment : CertifiedMessage → M (Unit {0})
unfolding proposal_of commitment_to collect_step execute_proposal
collect_commitment m = do
  p ← lift (proposal_of m)
  c ← lift (commitment_to m p)
  done ← collect_step c
  if done then execute_proposal p else return tt

-- makePrepareApplier
unfoldable pub apply_prepare :
    Config → (replica view : ℕ) → Request → CertifiedMessage → M (Unit {0})
unfolding collect_commitment
apply_prepare cfg replica view q m = do
  new ← prepare_request q
  if not new then lift (err already_prepared) else (do
    wrap cannot_apply (collect_commitment m)
    if cfg.id == replica
        then return tt
        else (do stop_prepare_timer q; generate cfg (commit cfg.id m no_ui)))

-- makeCommitApplier
unfoldable pub apply_commit : CertifiedMessage → M (Unit {0})
unfolding collect_commitment
apply_commit m = wrap cannot_apply (collect_commitment m)

-- The loop over the requests of the previous views
unfoldable pub prepare_all : List Request → M (Unit {0})
prepare_all [] = return tt
prepare_all (q ∷ l) = do new ← prepare_request q; prepare_all l

-- makeNewViewApplier
unfoldable pub apply_new_view :
    Config → (replica view : ℕ) → NewViewCert → CertifiedMessage → M (Unit {0})
unfolding collect_commitment prepare_all
apply_new_view cfg replica view cert m = do
  l ← lift (extract_prepared cert)
  prepare_all l
  wrap cannot_apply (collect_commitment m)
  modify λ s. record s { vc_timer = none }
  apply_pending cfg view
  if cfg.id == replica then return tt else generate cfg (commit cfg.id m no_ui)
