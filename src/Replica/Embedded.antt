-- ===== src/Replica/Embedded.antt =====
-- core/message-handling.go: what the elementary changes of the state keep, the handling of a message
-- with all the messages embedded in it keeps.
use minbft.Base.{ℕ, Bool, false, List, [], ◌∷◌, ltb, inc64, update, if◌then◌else◌}
use minbft.Base.Result.{Result, ok, panic, wrap_err, validation, err, unexpected_counter}
use minbft.Messages.{
  Request, ReqViewChange, CertifiedMessage, prepare, commit, view_change, new_view, ViewChange,
  vc_message, MessageLog, log_end, log_entry, NewViewCert, cert_end, cert_entry, Message, hello,
  request, reply, req_view_change, certified, counter, replica_id,
}
use minbft.Replica.{Config, Replica, M, modify, generate_rvc}
use minbft.Replica.Process.{
  process_certified, process_peer, handle, handle_with, handle_request, handle_rvc, handle_rvcs,
  handle_certified, handle_embedded_vc, handle_log, handle_nv_cert, handle_message,
}
use minbft.Replica.Keeps.{
  Operations, Preserves, >>=-Preserves, wrap-Preserves, lift-Preserves, return-Preserves,
  gets-Preserves, if-Preserves,
}
use minbft.Replica.Handlers.{process_content-Preserves}

-- The changes outside of the elementary ones: `lastUI[replicaID] = nextUI`, and those of a timeout.
pub record Advances (P : Replica → Type 0) : Type 0 where
  pub advanced : (r c : ℕ) → Preserves P (modify λ s. record s { last_ui = update s.last_ui r c })
  pub asked : (v : ℕ) → Preserves P (modify λ s. record s { requested = v })
  pub rvc_generated : (cfg : Config) (rvc : ReqViewChange) → Preserves P (generate_rvc cfg rvc)

module _ {cfg : Config} {P : Replica → Type 0} (k : Operations cfg P) (a : Advances P) where
  process_certified-Preserves : (m : CertifiedMessage) → Preserves P (process_certified cfg m)
  unfolding process_certified
  process_certified-Preserves m =
      >>=-Preserves (gets-Preserves (λ s. s.last_ui (replica_id m))) λ last.
        if-Preserves (ltb (counter m) (inc64 last)) (return-Preserves false) (
          if-Preserves (ltb (inc64 last) (counter m)) (lift-Preserves (err unexpected_counter)) (
            >>=-Preserves (process_content-Preserves k m) λ new.
              >>=-Preserves (a.advanced (replica_id m) (inc64 last)) λ _. return-Preserves new))

  handle-Preserves :
      (peer : Bool) (v : Result (Unit {0})) {inner : M (Unit {0})} {process : M Bool}
      → Preserves P inner
      → Preserves P process
      → Preserves P (handle peer v inner process)
  unfolding handle
  handle-Preserves peer v i p =
      >>=-Preserves (lift-Preserves (if peer then wrap_err validation v else ok tt))
        λ _. >>=-Preserves (wrap-Preserves _ i) λ _. wrap-Preserves _ p

  process_peer-Preserves :
      (r : ℕ) {A : Type 0} {process : M A}
      → Preserves P process
      → Preserves P (process_peer cfg r process)
  unfolding process_peer
  process_peer-Preserves r p = if-Preserves (ltb r cfg.n) p (lift-Preserves panic)

  handle_request-Preserves : (peer : Bool) (q : Request) → Preserves P (handle_request cfg peer q)
  unfolding handle_request
  handle_request-Preserves peer q = handle-Preserves peer _ (return-Preserves tt) (k.processed q)

  handle_rvc-Preserves : (peer : Bool) (rvc : ReqViewChange) → Preserves P (handle_rvc cfg peer rvc)
  unfolding handle_rvc
  handle_rvc-Preserves peer rvc =
      handle-Preserves peer _ (return-Preserves tt)
        (process_peer-Preserves rvc.replica_id (k.rvc_processed rvc))

  handle_rvcs-Preserves :
      (peer : Bool) (l : List ReqViewChange) → Preserves P (handle_rvcs cfg peer l)
  unfolding handle_rvcs
  handle_rvcs-Preserves peer [] = return-Preserves tt
  handle_rvcs-Preserves peer (rvc ∷ l) =
      >>=-Preserves (handle_rvc-Preserves peer rvc) λ _. handle_rvcs-Preserves peer l

  handle_with-Preserves :
      (peer : Bool) (m : CertifiedMessage) {inner : M (Unit {0})}
      → Preserves P inner
      → Preserves P (handle_with cfg peer m inner)
  unfolding handle_with
  handle_with-Preserves peer m i =
      handle-Preserves peer _ i
        (process_peer-Preserves (replica_id m) (process_certified-Preserves m))

  mutual
    unfolding handle_certified

    handle_certified-Preserves :
        (peer : Bool) (m : CertifiedMessage) → Preserves P (handle_certified cfg peer m)
    handle_certified-Preserves peer (prepare r v q u) =
        handle_with-Preserves peer (prepare r v q u)
          (>>=-Preserves (handle_request-Preserves peer q) λ _. return-Preserves tt)
    handle_certified-Preserves peer (commit r p u) =
        handle_with-Preserves peer (commit r p u)
          (>>=-Preserves (handle_certified-Preserves peer p) λ _. return-Preserves tt)
    handle_certified-Preserves peer (view_change vc) =
        handle_with-Preserves peer (view_change vc) (handle_embedded_vc-Preserves peer vc)
    handle_certified-Preserves peer (new_view r v c u) =
        handle_with-Preserves peer (new_view r v c u) (handle_nv_cert-Preserves peer c)

    handle_embedded_vc-Preserves :
        (peer : Bool) (vc : ViewChange) → Preserves P (handle_embedded_vc cfg peer vc)
    handle_embedded_vc-Preserves peer (vc_message r v l c u) =
        >>=-Preserves (handle_rvcs-Preserves peer c) λ _. handle_log-Preserves peer l

    handle_log-Preserves : (peer : Bool) (l : MessageLog) → Preserves P (handle_log cfg peer l)
    handle_log-Preserves peer log_end = return-Preserves tt
    handle_log-Preserves peer (log_entry m l) =
        >>=-Preserves (handle_certified-Preserves peer m) λ _. handle_log-Preserves peer l

    handle_nv_cert-Preserves :
        (peer : Bool) (l : NewViewCert) → Preserves P (handle_nv_cert cfg peer l)
    handle_nv_cert-Preserves peer cert_end = return-Preserves tt
    handle_nv_cert-Preserves peer (cert_entry vc l) =
        >>=-Preserves
          (handle_with-Preserves peer (view_change vc) (handle_embedded_vc-Preserves peer vc))
          λ _. handle_nv_cert-Preserves peer l

  pub handle_message-Preserves :
      (peer : Bool) (m : Message) → Preserves P (handle_message cfg peer m)
  unfolding handle_message
  handle_message-Preserves peer (request q) = handle_request-Preserves peer q
  handle_message-Preserves peer (req_view_change rvc) = handle_rvc-Preserves peer rvc
  handle_message-Preserves peer (certified m) = handle_certified-Preserves peer m
  handle_message-Preserves peer (hello r) =
      handle-Preserves peer _ (lift-Preserves panic) (lift-Preserves panic)
  handle_message-Preserves peer (reply r) =
      handle-Preserves peer panic (lift-Preserves panic) (lift-Preserves panic)
