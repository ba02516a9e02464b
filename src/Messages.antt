-- ===== src/Messages.antt =====
-- messages/api.go: the protocol's messages and their getters.
mod Defs
pub mod Vc
pub use Defs.{
  Ui, Request, Reply, ReqViewChange, Message, CertifiedMessage, ViewChange, MessageLog, NewViewCert,
}
pub use Defs.{
  prepare, commit, view_change, new_view, vc_message, log_end, log_entry, cert_end, cert_entry,
}
pub use Defs.{hello, request, reply, req_view_change, certified}
unfoldable pub use Defs.{log_list, log_of, cert_list, cert_of}
use minbft.Base.{ℕ}

-- `ReplicaID` and `UI` of any certified message.
abbrev pub replica_id : CertifiedMessage → ℕ
replica_id (prepare r v q u) = r
replica_id (commit r m u) = r
replica_id (view_change vc) = Vc.replica_id vc
replica_id (new_view r v c u) = r

abbrev pub ui : CertifiedMessage → Ui
ui (prepare r v q u) = u
ui (commit r m u) = u
ui (view_change vc) = Vc.ui vc
ui (new_view r v c u) = u

abbrev pub counter : CertifiedMessage → ℕ
counter m = (ui m).counter
