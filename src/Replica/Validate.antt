-- ===== src/Replica/Validate.antt =====
-- core/message-handling.go, core/prepare.go, core/commit.go, core/request.go, core/req-view-change.go
-- and core/usig-ui.go: the validation of a message, which looks at no state of the replica.
use minbft.Base.{ℕ, not, ◌==◌, ltb}
use minbft.Base.Result.{
  Result, ok, panic, ◌>>◌, fail_if, wrap_err, zero_counter, invalid_certificate, invalid_ui,
  invalid_signature, invalid_new_view, commit_from_primary, prepare_from_backup, unexpected_replica,
}
use minbft.Messages.{
  Request, ReqViewChange, CertifiedMessage, prepare, commit, view_change, new_view, cert_list,
  counter, replica_id,
}
use minbft.ViewChange.{is_primary, validate_view_change, validate_new_view}
use minbft.Replica.{Config}

-- makeUIVerifier
unfoldable pub verify_ui : Config → CertifiedMessage → Result (Unit {0})
verify_ui cfg m = do
  fail_if (counter m == 0) zero_counter
  fail_if (not (cfg.verify_usig m)) invalid_certificate

-- makeRequestValidator
unfoldable pub validate_request : Config → Request → Result (Unit {0})
validate_request cfg q = fail_if (not (cfg.verify_request q)) invalid_signature

-- makeReqViewChangeValidator
unfoldable pub validate_rvc : Config → ReqViewChange → Result (Unit {0})
validate_rvc cfg rvc = do
  fail_if (ltb rvc.new_view 1) invalid_new_view
  fail_if (not (cfg.verify_rvc rvc)) invalid_signature

-- makeCommitValidator: the `switch` panics on a proposal that is no Prepare or NewView.
unfoldable pub validate_proposal : CertifiedMessage → Result (Unit {0})
validate_proposal (prepare r v q u) = ok tt
validate_proposal (new_view r v c u) = ok tt
validate_proposal (commit r p u) = panic
validate_proposal (view_change vc) = panic

-- The `switch` of makeCertifiedMessageValidator, with makePrepareValidator and makeCommitValidator
unfoldable pub validate_content : Config → CertifiedMessage → Result (Unit {0})
unfolding validate_proposal
validate_content cfg (prepare r v q u) = fail_if (not (is_primary v r cfg.n)) prepare_from_backup
validate_content cfg (commit r p u) = do
  fail_if (r == replica_id p) commit_from_primary
  validate_proposal p
validate_content cfg (view_change vc) = validate_view_change cfg.vc_cert_size vc
validate_content cfg (new_view r v c u) = validate_new_view cfg.n cfg.vc_cert_size r v (cert_list c)

-- makePeerMessageValidator for a certified message, with makeCertifiedMessageValidator
unfoldable pub validate_certified : Config → CertifiedMessage → Result (Unit {0})
unfolding verify_ui validate_content
validate_certified cfg m = do
  fail_if (not (ltb (replica_id m) cfg.n)) unexpected_replica
  wrap_err invalid_ui (verify_ui cfg m)
  validate_content cfg m

-- makePeerMessageValidator for a ReqViewChange message
unfoldable pub validate_peer_rvc : Config → ReqViewChange → Result (Unit {0})
unfolding validate_rvc
validate_peer_rvc cfg rvc = do
  fail_if (not (ltb rvc.replica_id cfg.n)) unexpected_replica
  validate_rvc cfg rvc

-- makeMessageValidator for a Hello, which is a PeerMessage: makePeerMessageValidator looks at its
-- replica, and panics as no case of its `switch` is a Hello.
unfoldable pub validate_hello : Config → ℕ → Result (Unit {0})
validate_hello cfg r = do fail_if (not (ltb r cfg.n)) unexpected_replica; panic
