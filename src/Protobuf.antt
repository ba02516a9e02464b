-- ===== src/Protobuf.antt =====
-- messages/protobuf: the structures of the generated code (pb/messages.pb.go), and the conversion of
-- messages to them. The generated `Request`, `Reply` and `ReqViewChange` have the fields of the
-- messages. Of the sub-messages that may be absent on the wire only a Commit's proposal is here.
pub mod Parse
pub mod RoundTrip
pub mod Missing
pub mod Tests
use minbft.Base.{ℕ, List, [], ◌∷◌}
use minbft.Messages.{
  Ui, Request, Reply, ReqViewChange, Message, hello, request, reply, req_view_change, certified,
  CertifiedMessage, prepare, commit, view_change, new_view, ViewChange, vc_message, MessageLog,
  log_end, log_entry, NewViewCert, cert_end, cert_entry,
}
use minbft.Usig.{marshal_binary}

-- `pb_untyped` is a Message whose `Typed` is nil; the last field of a certified message is the UI.
mutual
  pub data PbMessage : Type 0 where
    pb_hello : (replica_id : ℕ) → PbMessage
    pb_request : Request → PbMessage
    pb_reply : Reply → PbMessage
    pb_prepare : (replica_id view : ℕ) → Request → List ℕ → PbMessage
    pb_commit : (replica_id : ℕ) → PbProposal → List ℕ → PbMessage
    pb_req_view_change : ReqViewChange → PbMessage
    pb_view_change : PbViewChange → PbMessage
    pb_new_view : (replica_id new_view : ℕ) → PbNewViewCert → List ℕ → PbMessage
    pb_untyped : PbMessage

  -- `GetProposal`, which is nil if the field is absent
  pub data PbProposal : Type 0 where
    absent : PbProposal
    present : PbMessage → PbProposal

  pub data PbViewChange : Type 0 where
    pb_vc : (replica_id new_view : ℕ) → PbLog → List ReqViewChange → List ℕ → PbViewChange

  pub data PbLog : Type 0 where
    pb_log_end : PbLog
    pb_log_entry : PbMessage → PbLog → PbLog

  pub data PbNewViewCert : Type 0 where
    pb_cert_end : PbNewViewCert
    pb_cert_entry : PbViewChange → PbNewViewCert → PbNewViewCert

unfoldable prepare_to_pb : ℕ → ℕ → Request → Ui → PbMessage
prepare_to_pb r v q u = pb_prepare r v q (marshal_binary u)

unfoldable commit_to_pb : ℕ → PbMessage → Ui → PbMessage
commit_to_pb r p u = pb_commit r (present p) (marshal_binary u)

unfoldable new_view_to_pb : ℕ → ℕ → PbNewViewCert → Ui → PbMessage
new_view_to_pb r v c u = pb_new_view r v c (marshal_binary u)

-- MessageFromAPI with WrapMessage, for a certified message
unfoldable mutual
  unfolding prepare_to_pb commit_to_pb new_view_to_pb

  pub certified_to_pb : CertifiedMessage → PbMessage
  certified_to_pb (prepare r v q u) = prepare_to_pb r v q u
  certified_to_pb (commit r p u) = commit_to_pb r (certified_to_pb p) u
  certified_to_pb (view_change vc) = pb_view_change (vc_to_pb vc)
  certified_to_pb (new_view r v c u) = new_view_to_pb r v (nv_cert_to_pb c) u

  pub vc_to_pb : ViewChange → PbViewChange
  vc_to_pb (vc_message r v l c u) = pb_vc r v (log_to_pb l) c (marshal_binary u)

  pub log_to_pb : MessageLog → PbLog
  log_to_pb log_end = pb_log_end
  log_to_pb (log_entry m l) = pb_log_entry (certified_to_pb m) (log_to_pb l)

  pub nv_cert_to_pb : NewViewCert → PbNewViewCert
  nv_cert_to_pb cert_end = pb_cert_end
  nv_cert_to_pb (cert_entry vc c) = pb_cert_entry (vc_to_pb vc) (nv_cert_to_pb c)

-- WrapMessage of what `MarshalBinary` passes to it
unfoldable pub to_pb : Message → PbMessage
unfolding certified_to_pb
to_pb (hello r) = pb_hello r
to_pb (request q) = pb_request q
to_pb (reply r) = pb_reply r
to_pb (req_view_change m) = pb_req_view_change m
to_pb (certified m) = certified_to_pb m
