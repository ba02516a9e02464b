-- ===== src/Streams/Ended.antt =====
-- core/message-handling.go: a stream on which a message was refused is dropped for good.
use minbft.Base.{
  ℕ, ◌≡◌, refl, sym, ap, ◌∙◌, inl, inr, Bool, true, false, Bool-cases, List, [], ◌∷◌, ◌==◌, ==_iff,
  ==_refl,
}
use mathlib.Core.Path.{fun_ext}
use minbft.Base.Result.{Error, Result, ok, err, panic}
use minbft.Messages.{Message}
use minbft.Protobuf.Parse.{new_from_binary}
use minbft.Node.{Node}
use minbft.Streams.Others.{is_of, without, on_net_other}
use minbft.Streams.{
  logs_read, Kind, own_connection, from_peer, from_client, Phase, reading, answering, replying,
  sending, ended, Stream, Net, NetConfig, NetEvent, received, lost, stopped, looked_for,
  log_message, next_reply, taken, inside, set_phase, awaiting, handled, greeted, handle_in, parsed,
  receive, lose,
}
use minbft.Streams.Run.{look, read_reply, read_log, take_bytes, on_net, run_net}

module _ {Bytes : Type 0} where
  set_ended :
      (i : ℕ) (net : Net Bytes) → (net.streams i).phase ≡ ended → set_phase i ended net ≡ net
  unfolding set_phase
  set_ended i net h =
      ap (λ (f : ℕ → Stream Bytes). record net { streams = f })
        (fun_ext (λ j. elim (Bool-cases (i == j)) [
          | inr other ↦ rw other refl
          | inl same ↦ rw same (
              ap (λ p. record (net.streams i) { phase = p }) (sym h)
              ∙ ap net.streams ((==_iff i j).0 same))
        ]))

  phase_at :
      (i j : ℕ) (net : Net Bytes)
      → (j == i) ≡ true
      → (net.streams i).phase ≡ ended
      → (net.streams j).phase ≡ ended
  phase_at i j net same h = ap (λ k. (net.streams k).phase) ((==_iff j i).0 same) ∙ h

  -- An event of a stream that has ended does nothing.
  own_event :
      (cfg : NetConfig Bytes) (i : ℕ) (e : NetEvent Bytes) (net : Net Bytes)
      → is_of i e ≡ true
      → (net.streams i).phase ≡ ended
      → on_net cfg e net ≡ (ok false, net)
  unfolding on_net receive lose look read_log read_reply take_bytes
  own_event cfg i (received j b) net o h = rw (phase_at i j net o h) refl
  own_event cfg i (lost j) net o h = rw (phase_at i j net o h) refl
  own_event cfg i (stopped j) net o h =
      ap (λ (n : Net Bytes). (ok false, n)) (set_ended j net (phase_at i j net o h))
  own_event cfg i (looked_for j) net o h = rw (phase_at i j net o h) refl
  own_event cfg i (log_message j m) net o h = rw (phase_at i j net o h) refl
  own_event cfg i (logs_read j x y) net o h = rw (phase_at i j net o h) refl
  own_event cfg i (next_reply j) net o h = rw (phase_at i j net o h) refl
  own_event cfg i (taken j) net o h = rw (phase_at i j net o h) refl
  own_event cfg i (inside e) net o h = cc

  same_rest :
      (r : Result Bool × Net Bytes) (f g : Net Bytes → Net Bytes)
      → f r.1 ≡ g r.1
      → ◌≡◌ {A = Net Bytes}
          (elim r.0 [ panic ↦ r.1 | ok b ↦ f r.1 | err x ↦ f r.1 ])
          (elim r.0 [ panic ↦ r.1 | ok b ↦ g r.1 | err x ↦ g r.1 ])
  same_rest (ok b, n) f g e = e
  same_rest (err x, n) f g e = e
  same_rest (panic, n) f g e = refl

  skipped :
      (r : Result Bool × Net Bytes) (f : Net Bytes → Net Bytes) (net : Net Bytes)
      → r ≡ (ok false, net)
      → ◌≡◌ {A = Net Bytes} (elim r.0 [ panic ↦ r.1 | ok b ↦ f r.1 | err x ↦ f r.1 ]) (f net)
  skipped (ok b, n) f net e = ap (λ r. f r.1) e
  skipped (err y, n) f net e = ap (λ r. f r.1) e
  skipped (panic, n) f net e =
      let first : ◌≡◌ {A = Result Bool} panic (ok false) = ap (λ r. r.0) e in cc

  failed :
      (r : Result Bool × Net Bytes) (f : Net Bytes → Net Bytes) (x : Error)
      → r.0 ≡ err x
      → ◌≡◌ {A = Net Bytes} (elim r.0 [ panic ↦ r.1 | ok b ↦ f r.1 | err y ↦ f r.1 ]) (f r.1)
  failed (ok b, n) f x e = refl
  failed (err y, n) f x e = refl
  failed (panic, n) f x e = cc

  run_net-without :
      (cfg : NetConfig Bytes) (i : ℕ) (es : List (NetEvent Bytes)) (net : Net Bytes)
      → (net.streams i).phase ≡ ended
      → run_net cfg es net ≡ run_net cfg (without i es) net
  unfolding run_net
  run_net-without cfg i [] net h = refl
  run_net-without cfg i (e ∷ es) net h = elim (Bool-cases (is_of i e)) [
    | inl own ↦ rw own (
        skipped (on_net cfg e net) (run_net cfg es) net (own_event cfg i e net own h)
        ∙ run_net-without cfg i es net h)
    | inr other ↦ rw other (
        same_rest (on_net cfg e net) (run_net cfg es) (run_net cfg (without i es)) (
          run_net-without cfg i es (on_net cfg e net).1
            (ap (λ (s : Stream Bytes). s.phase) (on_net_other cfg i e net other) ∙ h)))
  ]

  ended_set : (i : ℕ) (net : Net Bytes) → ((set_phase i ended net).streams i).phase ≡ ended
  unfolding set_phase
  ended_set i net = rw (==_refl i) refl

  handled-ended :
      (i : ℕ) (p : Phase Bytes) (r : Result Bool × Node) (net : Net Bytes) (x : Error)
      → (handled i p r net).0 ≡ err x
      → ((handled i p r net).1.streams i).phase ≡ ended
  unfolding handled
  handled-ended i p (ok b, n) net x e = cc
  handled-ended i p (err y, n) net x e = ended_set i (record net { node = n })
  handled-ended i p (panic, n) net x e = cc

  greeted-ended :
      (i : ℕ) (m : Message) (r : Result (List Message × List Message)) (net : Net Bytes) (x : Error)
      → (greeted i m r net).0 ≡ err x
      → ((greeted i m r net).1.streams i).phase ≡ ended
  unfolding greeted
  greeted-ended i m (ok l) net x e = cc
  greeted-ended i m (err y) net x e = ended_set i net
  greeted-ended i m panic net x e = cc

  handle_in-ended :
      (cfg : NetConfig Bytes) (i : ℕ) (m : Message) (k : Kind) (net : Net Bytes) (x : Error)
      → (handle_in cfg i m k net).0 ≡ err x
      → ((handle_in cfg i m k net).1.streams i).phase ≡ ended
  unfolding handle_in
  handle_in-ended cfg i m own_connection net x e = handled-ended i reading _ net x e
  handle_in-ended cfg i m from_client net x e = handled-ended i (awaiting m) _ net x e
  handle_in-ended cfg i m from_peer net x e = greeted-ended i m _ net x e

  parsed-ended :
      (cfg : NetConfig Bytes) (i : ℕ) (r : Result Message) (net : Net Bytes) (x : Error)
      → (parsed cfg i r net).0 ≡ err x
      → ((parsed cfg i r net).1.streams i).phase ≡ ended
  unfolding parsed
  parsed-ended cfg i (ok m) net x e = handle_in-ended cfg i m (cfg.kind i) net x e
  parsed-ended cfg i (err y) net x e = ended_set i net
  parsed-ended cfg i panic net x e = cc

  receive-ended :
      (cfg : NetConfig Bytes) (i : ℕ) (b : Bytes) (p : Phase Bytes) (net : Net Bytes) (x : Error)
      → (receive cfg i b p net).0 ≡ err x
      → ((receive cfg i b p net).1.streams i).phase ≡ ended
  unfolding receive
  receive-ended cfg i b reading net x e = parsed-ended cfg i (new_from_binary cfg.decode b) net x e
  receive-ended cfg i b (answering q) net x e = cc
  receive-ended cfg i b (replying c) net x e = cc
  receive-ended cfg i b (sending d c) net x e = cc
  receive-ended cfg i b ended net x e = cc

  -- If a message that comes in on a stream cannot be parsed, or its handler returns an error, then
  -- all that happens to this stream afterwards has no effect: the rest of the run is as if it had
  -- not happened, for the replica and for all streams.
  pub run_net-refused :
      (cfg : NetConfig Bytes) (i : ℕ) (b : Bytes) (es : List (NetEvent Bytes)) (net : Net Bytes)
      (x : Error)
      → (on_net cfg (received i b) net).0 ≡ err x
      → run_net cfg (received i b ∷ es) net
        ≡ run_net cfg (without i es) (on_net cfg (received i b) net).1
  unfolding run_net on_net
  run_net-refused cfg i b es net x e =
      failed (on_net cfg (received i b) net) (run_net cfg es) x e
      ∙ run_net-without cfg i es (receive cfg i b (net.streams i).phase net).1
          (receive-ended cfg i b (net.streams i).phase net x e)
