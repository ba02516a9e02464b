-- ===== src/Protobuf/Parse.antt =====
-- messages/protobuf: the conversion of the generated structures to messages.
use minbft.Base.{ℕ, List}
use minbft.Base.Result.{
  Result, ok, err, panic, ◌>>=◌, wrap_err, unexpected_proposal_type, unexpected_message,
  unknown_type, unmarshal_ui, unmarshal_proposal, unmarshal_log, unmarshal_cert, unmarshal_wrapper,
}
use minbft.Messages.{
  Ui, Request, Message, hello, request, reply, req_view_change, certified, CertifiedMessage,
  prepare, commit, view_change, new_view, ViewChange, vc_message, MessageLog, log_end, log_entry,
  NewViewCert, cert_end, cert_entry,
}
use minbft.Usig.{unmarshal_binary}
use minbft.Protobuf.{
  PbMessage, PbProposal, PbViewChange, PbLog, PbNewViewCert, pb_hello, pb_request, pb_reply,
  pb_prepare, pb_commit, pb_req_view_change, pb_view_change, pb_new_view, pb_untyped, absent,
  present, pb_vc, pb_log_end, pb_log_entry, pb_cert_end, pb_cert_entry,
}

unfoldable pub parse_ui : List ℕ → Result Ui
parse_ui b = wrap_err unmarshal_ui (unmarshal_binary b)

-- `m.(messages.CertifiedMessage)`
unfoldable pub as_certified : Message → Result CertifiedMessage
as_certified (certified m) = ok m
as_certified (hello r) = err unexpected_message
as_certified (request q) = err unexpected_message
as_certified (reply r) = err unexpected_message
as_certified (req_view_change m) = err unexpected_message

-- newPrepareFromPb
unfoldable pub prepare_from_pb : ℕ → ℕ → Request → List ℕ → Result Message
unfolding parse_ui
prepare_from_pb r v q b = do u ← parse_ui b; ok (certified (prepare r v q u))

-- newCommitFromPb, from what becomes of its proposal.
unfoldable pub commit_from_pb : ℕ → Result CertifiedMessage → List ℕ → Result Message
unfolding parse_ui
commit_from_pb r p b = do m ← p; u ← parse_ui b; ok (certified (commit r m u))

-- newNewViewFromPb, from what becomes of its certificate.
unfoldable pub new_view_from_pb : ℕ → ℕ → Result NewViewCert → List ℕ → Result Message
unfolding parse_ui
new_view_from_pb r v c b = do
  u ← parse_ui b
  m ← wrap_err unmarshal_cert c
  ok (certified (new_view r v m u))

-- typedMessageFromPb
unfoldable mutual
  unfolding parse_ui as_certified prepare_from_pb commit_from_pb new_view_from_pb

  pub from_pb : PbMessage → Result Message
  from_pb (pb_hello r) = ok (hello r)
  from_pb (pb_request q) = ok (request q)
  from_pb (pb_reply r) = ok (reply r)
  from_pb (pb_prepare r v q b) = prepare_from_pb r v q b
  from_pb (pb_commit r p b) = commit_from_pb r (proposal_from_pb p) b
  from_pb (pb_req_view_change m) = ok (req_view_change m)
  from_pb (pb_view_change vc) = do m ← vc_from_pb vc; ok (certified (view_change m))
  from_pb (pb_new_view r v c b) = new_view_from_pb r v (nv_cert_from_pb c) b
  from_pb pb_untyped = err unknown_type

  -- `pbMsg.Typed` of a nil Message is a nil dereference.
  pub proposal_from_pb : PbProposal → Result CertifiedMessage
  proposal_from_pb absent = panic
  proposal_from_pb (present p) = do
    m ← wrap_err unmarshal_proposal (from_pb p)
    wrap_err (λ _. unexpected_proposal_type) (as_certified m)

  pub vc_from_pb : PbViewChange → Result ViewChange
  vc_from_pb (pb_vc r v l c b) = do
    u ← parse_ui b
    m ← wrap_err unmarshal_log (log_from_pb l)
    ok (vc_message r v m c u)

  pub log_from_pb : PbLog → Result MessageLog
  log_from_pb pb_log_end = ok log_end
  log_from_pb (pb_log_entry p l) = do
    typed ← from_pb p
    m ← as_certified typed
    rest ← log_from_pb l
    ok (log_entry m rest)

  pub nv_cert_from_pb : PbNewViewCert → Result NewViewCert
  nv_cert_from_pb pb_cert_end = ok cert_end
  nv_cert_from_pb (pb_cert_entry p l) = do
    vc ← vc_from_pb p
    rest ← nv_cert_from_pb l
    ok (cert_entry vc rest)

-- NewFromBinary, given the type of the wire data and what `proto.Unmarshal` makes of them.
unfoldable pub new_from_binary :
    {Bytes : Type 0} → (Bytes → Result PbMessage) → Bytes → Result Message
unfolding from_pb
new_from_binary decode b = do p ← wrap_err (λ _. unmarshal_wrapper) (decode b); from_pb p
