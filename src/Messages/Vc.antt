-- ===== src/Messages/Vc.antt =====
-- messages/api.go: the getters of a ViewChange message.
use minbft.Base.{ℕ, List}
use minbft.Messages.Defs.{Ui, ReqViewChange, ViewChange, vc_message, MessageLog}

abbrev pub replica_id : ViewChange → ℕ
replica_id (vc_message r v l c u) = r

abbrev pub new_view : ViewChange → ℕ
new_view (vc_message r v l c u) = v

abbrev pub message_log : ViewChange → MessageLog
message_log (vc_message r v l c u) = l

abbrev pub vc_cert : ViewChange → List ReqViewChange
vc_cert (vc_message r v l c u) = c

abbrev pub ui : ViewChange → Ui
ui (vc_message r v l c u) = u
