-- ===== src/Streams/Drained.antt =====
-- core/message-handling.go, makeHelloHandler: the messages of the two logs for a peer go out in order.
use minbft.Base.{ℕ, ◌≡◌, refl, sym, ap, ◌∙◌, Bool, true, false, List, [], ◌∷◌, ◌++◌, map, ==_refl}
use mathlib.Core.List.{append_assoc, append-nil}
use minbft.Base.Result.{Result, ok, err, panic}
use minbft.Messages.{Message}
use minbft.Protobuf.{to_pb}
use minbft.Streams.{
  Feed, ReplyChan, logs, Phase, replying, sending, Net, NetConfig, NetEvent, log_message, taken,
  set_phase,
}
use minbft.Streams.Run.{read_log, next_logged, next_queued, take_bytes, on_net, run_net}

-- As many messages as the list has are passed on and taken by the peer, one after the other.
abbrev pub drains : {Bytes : Type 0} → ℕ → Bool → List Message → List (NetEvent Bytes)
drains i broadcast [] = []
drains i broadcast (m ∷ l) = log_message i broadcast ∷ taken i ∷ drains i broadcast l

module _ {Bytes : Type 0} (cfg : NetConfig Bytes) (i : ℕ) where
  abbrev pub encoded : List Message → List Bytes
  encoded l = map (λ m. cfg.encode (to_pb m)) l

  pub run_net_ok :
      (e : NetEvent Bytes) (es : List (NetEvent Bytes)) (net net' : Net Bytes) (b : Bool)
      → on_net cfg e net ≡ (ok b, net')
      → run_net cfg (e ∷ es) net ≡ run_net cfg es net'
  unfolding run_net
  run_net_ok e es net net' b f =
      ap
        (λ (r : Result Bool × Net Bytes). elim r.0 as (λ _. Net Bytes) [
          | panic ↦ r.1
          | ok _ ↦ run_net cfg es r.1
          | err _ ↦ run_net cfg es r.1
        ])
        f

  -- What the run leaves: the channel's next state, and the bytes that went out before.
  pub record Left (c : ReplyChan) (sent : List Bytes) (net : Net Bytes) : Type 0 where
    pub phase : (net.streams i).phase ≡ replying c
    pub out : (net.streams i).out ≡ sent

  taken_next :
      (d : Bytes) (c : ReplyChan) (net : Net Bytes)
      → (net.streams i).phase ≡ sending d c
      → (net' : Net Bytes) × (on_net cfg (taken i) net ≡ (ok true, net'))
        × Left c ((net.streams i).out ++ d ∷ []) net'
  unfolding on_net take_bytes
  taken_next d c net h = (
    (take_bytes i (sending d c) net).1,
    ap (λ p. take_bytes i p net) h,
    record { phase = rw (==_refl i) refl; out = rw (==_refl i) refl },
  )

  pub set_phase_at :
      (p : Phase Bytes) (net : Net Bytes)
      → (((set_phase i p net).streams i).phase ≡ p)
        × (((set_phase i p net).streams i).out ≡ (net.streams i).out)
  unfolding set_phase
  set_phase_at p net = rw (==_refl i) (refl, refl)

  module _ (broadcast : Bool) (chan : List Message → ReplyChan)
      (passes : (m : Message) (l : List Message) (net : Net Bytes)
        → (net.streams i).phase ≡ replying (chan (m ∷ l))
        → on_net cfg (log_message i broadcast) net
          ≡ (ok true, set_phase i (sending (cfg.encode (to_pb m)) (chan l)) net)) where
    drained :
        (l : List Message) (es : List (NetEvent Bytes)) (out : List Bytes) (net : Net Bytes)
        → Left (chan l) out net
        → (net' : Net Bytes) × (run_net cfg (drains i broadcast l ++ es) net ≡ run_net cfg es net')
          × Left (chan []) (out ++ encoded l) net'
    drained [] es out net h =
        (net, refl, record { phase = h.phase; out = h.out ∙ sym (append-nil out) })
    drained (m ∷ l) es out net h =
        let d = cfg.encode (to_pb m) in
        let offered = set_phase i (sending d (chan l)) net in
        let (set, kept) = set_phase_at (sending d (chan l)) net in
        let (mid, e, k) = taken_next d (chan l) offered set in
        let (end, f, g) =
          drained l es (out ++ d ∷ []) mid
            (record { phase = k.phase; out = k.out ∙ ap (λ x. x ++ d ∷ []) (kept ∙ h.out) }) in
        (
          end,
          run_net_ok _ _ net offered true (passes m l net h.phase)
              ∙ run_net_ok _ _ offered mid true e
              ∙ f,
          record { phase = g.phase; out = g.out ∙ append_assoc out (d ∷ []) (encoded l) },
        )

  feed_passes :
      (broadcast : Bool) (h : Message) (b u : Feed) (chan : List Message → ReplyChan) (m : Message)
      (l : List Message) (net : Net Bytes)
      → (net.streams i).phase ≡ replying (logs h b u)
      → next_logged cfg broadcast h b u ≡ sending (cfg.encode (to_pb m)) (chan l)
      → on_net cfg (log_message i broadcast) net
        ≡ (ok true, set_phase i (sending (cfg.encode (to_pb m)) (chan l)) net)
  unfolding on_net read_log
  feed_passes broadcast h b u chan m l net at next =
      ap (λ p. read_log cfg i broadcast p net) at ∙ ap (λ p. (ok true, set_phase i p net)) next

  -- All messages that the two streams have read go out, those of the first before those of the second.
  pub logs_drained :
      (h : Message) (b u : Feed) (es : List (NetEvent Bytes)) (net : Net Bytes)
      → (net.streams i).phase ≡ replying (logs h b u)
      → (net' : Net Bytes) × (run_net cfg
            (drains i true b.queued ++ (drains i false u.queued ++ es))
            net
          ≡ run_net cfg es net')
        × ((net'.streams i).out ≡ (net.streams i).out ++ encoded b.queued ++ encoded u.queued)
  unfolding next_logged next_queued
  logs_drained h b u es net at =
      let (mid, e, k) =
        drained true (λ l. logs h (record b { queued = l }) u)
          (λ m l n p.
            feed_passes true h (record b { queued = m ∷ l }) u
              (λ l. logs h (record b { queued = l }) u) m l n p refl)
          b.queued (drains i false u.queued ++ es) (net.streams i).out net
          (record { phase = at; out = refl }) in
      let empty = record b { queued = [] } in
      let (end, f, g) =
        drained false (λ l. logs h empty (record u { queued = l }))
          (λ m l n p.
            feed_passes false h empty (record u { queued = m ∷ l })
              (λ l. logs h empty (record u { queued = l })) m l n p refl)
          u.queued es ((net.streams i).out ++ encoded b.queued) mid
          (record { phase = k.phase; out = k.out }) in
      (end, e ∙ f, g.out)
