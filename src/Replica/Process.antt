-- ===== src/Replica/Process.antt =====
-- core/message-handling.go: the handlers of a message and of those embedded in it, and processing in
-- the order of the senders' counters.
use minbft.Base.{ℕ, Bool, false, List, [], ◌∷◌, ltb, if◌then◌else◌, inc64, update}
use minbft.Base.Result.{
  Result, ok, err, panic, wrap_err, unexpected_counter, embedded, validation, processing,
}
use minbft.Messages.{
  Request, ReqViewChange, CertifiedMessage, prepare, commit, view_change, new_view, ViewChange,
  vc_message, MessageLog, log_end, log_entry, NewViewCert, cert_end, cert_entry, Message, hello,
  request, reply, req_view_change, certified, counter, replica_id,
}
use minbft.Replica.{Config, M, ◌>>=◌, ◌>>◌, return, lift, gets, modify, wrap}
use minbft.Replica.Requests.{process_request}
use minbft.Replica.Validate.{
  validate_request, validate_peer_rvc, validate_certified, validate_hello,
}
use minbft.Replica.Views.{process_view_message, process_view_change, process_rvc}

-- The `switch` of makeCertifiedMessageProcessor
unfoldable pub process_content : Config → CertifiedMessage → M Bool
process_content cfg (view_change vc) = process_view_change cfg vc
process_content cfg (prepare r v q u) = process_view_message cfg (prepare r v q u)
process_content cfg (commit r p u) = process_view_message cfg (commit r p u)
process_content cfg (new_view r v c u) = process_view_message cfg (new_view r v c u)

-- makeCertifiedMessageProcessor
unfoldable pub process_certified : Config → CertifiedMessage → M Bool
unfolding process_content
process_certified cfg m = do
  last ← gets (λ s. s.last_ui (replica_id m))
  if ltb (counter m) (inc64 last)
      then return false
      else (if ltb (inc64 last) (counter m) then lift (err unexpected_counter) else (do
        new ← process_content cfg m
        modify λ s. record s { last_ui = update s.last_ui (replica_id m) (inc64 last) }
        return new))

-- makePeerMessageProcessor: `locks` has an element for each of the n replicas.
unfoldable pub process_peer : {A : Type 0} → Config → ℕ → M A → M A
process_peer cfg replica process = if ltb replica cfg.n then process else lift panic

-- makeOwnMessageHandler and, if `peer`, makePeerMessageHandler: validation, the embedded messages,
-- processing. The context of each single embedded message is left out.
unfoldable pub handle : Bool → Result (Unit {0}) → M (Unit {0}) → M Bool → M Bool
handle peer validate embedded_messages process = do
  lift (if peer then wrap_err validation validate else ok tt)
  wrap embedded embedded_messages
  wrap processing process

unfoldable pub handle_request : Config → Bool → Request → M Bool
unfolding handle validate_request
handle_request cfg peer q = handle peer (validate_request cfg q) (return tt) (process_request cfg q)

unfoldable pub handle_rvc : Config → Bool → ReqViewChange → M Bool
unfolding handle validate_peer_rvc process_peer
handle_rvc cfg peer rvc =
    handle peer (validate_peer_rvc cfg rvc) (return tt)
      (process_peer cfg rvc.replica_id (process_rvc cfg rvc))

unfoldable pub handle_rvcs : Config → Bool → List ReqViewChange → M (Unit {0})
unfolding handle_rvc
handle_rvcs cfg peer [] = return tt
handle_rvcs cfg peer (rvc ∷ l) = do new ← handle_rvc cfg peer rvc; handle_rvcs cfg peer l

-- A message whose embedded messages are handled by `inner`.
unfoldable pub handle_with : Config → Bool → CertifiedMessage → M (Unit {0}) → M Bool
unfolding handle validate_certified process_peer process_certified
handle_with cfg peer m inner =
    handle peer (validate_certified cfg m) inner
      (process_peer cfg (replica_id m) (process_certified cfg m))

-- The handler for each certified message, with makeEmbeddedMessageHandler
unfoldable mutual
  unfolding handle_with handle_request handle_rvcs

  pub handle_certified : Config → Bool → CertifiedMessage → M Bool
  handle_certified cfg peer (prepare r v q u) =
      handle_with cfg peer (prepare r v q u) (do new ← handle_request cfg peer q; return tt)
  handle_certified cfg peer (commit r p u) =
      handle_with cfg peer (commit r p u) (do new ← handle_certified cfg peer p; return tt)
  handle_certified cfg peer (view_change vc) =
      handle_with cfg peer (view_change vc) (handle_embedded_vc cfg peer vc)
  handle_certified cfg peer (new_view r v c u) =
      handle_with cfg peer (new_view r v c u) (handle_nv_cert cfg peer c)

  pub handle_embedded_vc : Config → Bool → ViewChange → M (Unit {0})
  handle_embedded_vc cfg peer (vc_message r v l c u) = do
    handle_rvcs cfg peer c
    handle_log cfg peer l

  pub handle_log : Config → Bool → MessageLog → M (Unit {0})
  handle_log cfg peer log_end = return tt
  handle_log cfg peer (log_entry m l) = do new ← handle_certified cfg peer m; handle_log cfg peer l

  pub handle_nv_cert : Config → Bool → NewViewCert → M (Unit {0})
  handle_nv_cert cfg peer cert_end = return tt
  handle_nv_cert cfg peer (cert_entry vc l) = do
    new ← handle_with cfg peer (view_change vc) (handle_embedded_vc cfg peer vc)
    handle_nv_cert cfg peer l

-- The handlers of messages from peers (`peer`) and of own messages. For a Reply makeMessageValidator
-- panics, and makeEmbeddedMessageHandler for an own Hello or Reply.
unfoldable pub handle_message : Config → Bool → Message → M Bool
unfolding handle_request handle_rvc handle validate_hello
handle_message cfg peer (request q) = handle_request cfg peer q
handle_message cfg peer (req_view_change rvc) = handle_rvc cfg peer rvc
handle_message cfg peer (certified m) = handle_certified cfg peer m
handle_message cfg peer (hello r) = handle peer (validate_hello cfg r) (lift panic) (lift panic)
handle_message cfg peer (reply r) = handle peer panic (lift panic) (lift panic)
