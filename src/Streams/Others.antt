-- ===== src/Streams/Others.antt =====
-- core/message-handling.go: what happens on one stream leaves the others alone.
use minbft.Base.{
  ℕ, ◌≡◌, refl, inl, inr, Bool, false, Bool-cases, List, [], ◌∷◌, ◌==◌, if◌then◌else◌,
}
use minbft.Base.Result.{Result, ok, err, panic}
use minbft.Messages.{Message}
use minbft.Protobuf.Parse.{new_from_binary}
use minbft.ClientState.Reply.{Pass, waits, closes, sends}
use minbft.Node.{Node, client_reply}
use minbft.Streams.{
  logs_read, Kind, own_connection, from_peer, from_client, buffered, logs, Phase, reading,
  answering, replying, sending, ended, Net, NetConfig, NetEvent, received, lost, stopped,
  looked_for, log_message, next_reply, taken, inside, is_inside, set_phase, awaiting, handled,
  greeted, handle_in, parsed, receive, lose,
}
use minbft.Streams.Run.{refresh, passed, look, read_reply, read_log, take_bytes, go_on, on_net}

module _ {Bytes : Type 0} where
  -- Whether an event is one of the stream `i`
  abbrev pub is_of : ℕ → NetEvent Bytes → Bool
  is_of i (received j b) = j == i
  is_of i (lost j) = j == i
  is_of i (stopped j) = j == i
  is_of i (looked_for j) = j == i
  is_of i (log_message j m) = j == i
  is_of i (logs_read j x y) = j == i
  is_of i (next_reply j) = j == i
  is_of i (taken j) = j == i
  is_of i (inside e) = false

  abbrev pub without : ℕ → List (NetEvent Bytes) → List (NetEvent Bytes)
  without i [] = []
  without i (e ∷ es) = if is_of i e then without i es else e ∷ without i es

  module _ (i j : ℕ) (other : (j == i) ≡ false) where
    set_phase_other :
        (p : Phase Bytes) (net : Net Bytes) → (set_phase j p net).streams i ≡ net.streams i
    unfolding set_phase
    set_phase_other p net = rw other refl

    handled_other :
        (p : Phase Bytes) (r : Result Bool × Node) (net : Net Bytes)
        → (handled j p r net).1.streams i ≡ net.streams i
    unfolding handled
    handled_other p (ok b, n) net = set_phase_other p (record net { node = n })
    handled_other p (err e, n) net = set_phase_other ended (record net { node = n })
    handled_other p (panic, n) net = refl

    greeted_other :
        (m : Message) (r : Result (List Message × List Message)) (net : Net Bytes)
        → (greeted j m r net).1.streams i ≡ net.streams i
    unfolding greeted
    greeted_other m (ok l) net = set_phase_other _ net
    greeted_other m (err e) net = set_phase_other ended net
    greeted_other m panic net = refl

    handle_in_other :
        (cfg : NetConfig Bytes) (m : Message) (k : Kind) (net : Net Bytes)
        → (handle_in cfg j m k net).1.streams i ≡ net.streams i
    unfolding handle_in
    handle_in_other cfg m own_connection net = handled_other reading _ net
    handle_in_other cfg m from_client net = handled_other (awaiting m) _ net
    handle_in_other cfg m from_peer net = greeted_other m _ net

    parsed_other :
        (cfg : NetConfig Bytes) (r : Result Message) (net : Net Bytes)
        → (parsed cfg j r net).1.streams i ≡ net.streams i
    unfolding parsed
    parsed_other cfg (ok m) net = handle_in_other cfg m (cfg.kind j) net
    parsed_other cfg (err e) net = set_phase_other ended net
    parsed_other cfg panic net = refl

    receive_other :
        (cfg : NetConfig Bytes) (b : Bytes) (p : Phase Bytes) (net : Net Bytes)
        → (receive cfg j b p net).1.streams i ≡ net.streams i
    unfolding receive
    receive_other cfg b reading net = parsed_other cfg (new_from_binary cfg.decode b) net
    receive_other cfg b (answering q) net = refl
    receive_other cfg b (replying c) net = refl
    receive_other cfg b (sending d c) net = refl
    receive_other cfg b ended net = refl

    lose_other : (p : Phase Bytes) (net : Net Bytes) → (lose j p net).1.streams i ≡ net.streams i
    unfolding lose
    lose_other reading net = set_phase_other ended net
    lose_other (answering q) net = refl
    lose_other (replying c) net = refl
    lose_other (sending d c) net = refl
    lose_other ended net = refl

    passed_other :
        (r : Result Pass) (net : Net Bytes) → (passed j r net).1.streams i ≡ net.streams i
    unfolding passed
    passed_other (ok waits) net = refl
    passed_other (ok closes) net = set_phase_other _ net
    passed_other (ok (sends r)) net = set_phase_other _ net
    passed_other (err e) net = refl
    passed_other panic net = refl

    look_other : (p : Phase Bytes) (net : Net Bytes) → (look j p net).1.streams i ≡ net.streams i
    unfolding look
    look_other (answering q) net = passed_other (client_reply net.node q) net
    look_other reading net = refl
    look_other (replying c) net = refl
    look_other (sending d c) net = refl
    look_other ended net = refl

    read_reply_other :
        (cfg : NetConfig Bytes) (p : Phase Bytes) (net : Net Bytes)
        → (read_reply cfg j p net).1.streams i ≡ net.streams i
    unfolding read_reply
    read_reply_other cfg (replying (buffered o)) net = set_phase_other _ net
    read_reply_other cfg (replying (logs m b u)) net = refl
    read_reply_other cfg reading net = refl
    read_reply_other cfg (answering q) net = refl
    read_reply_other cfg (sending d c) net = refl
    read_reply_other cfg ended net = refl

    read_log_other :
        (cfg : NetConfig Bytes) (m : Bool) (p : Phase Bytes) (net : Net Bytes)
        → (read_log cfg j m p net).1.streams i ≡ net.streams i
    unfolding read_log
    read_log_other cfg m (replying (logs x b u)) net = set_phase_other _ net
    read_log_other cfg m (replying (buffered o)) net = refl
    read_log_other cfg m reading net = refl
    read_log_other cfg m (answering q) net = refl
    read_log_other cfg m (sending d c) net = refl
    read_log_other cfg m ended net = refl

    refresh_other :
        (cfg : NetConfig Bytes) (x y : Bool) (p : Phase Bytes) (net : Net Bytes)
        → (refresh cfg j x y p net).1.streams i ≡ net.streams i
    unfolding refresh
    refresh_other cfg x y (replying c) net = set_phase_other _ net
    refresh_other cfg x y (sending d c) net = set_phase_other _ net
    refresh_other cfg x y reading net = refl
    refresh_other cfg x y (answering q) net = refl
    refresh_other cfg x y ended net = refl

    take_bytes_other :
        (p : Phase Bytes) (net : Net Bytes) → (take_bytes j p net).1.streams i ≡ net.streams i
    unfolding take_bytes
    take_bytes_other (sending b c) net = rw other refl
    take_bytes_other reading net = refl
    take_bytes_other (answering q) net = refl
    take_bytes_other (replying c) net = refl
    take_bytes_other ended net = refl

  -- An event changes no stream but its own.
  pub on_net_other :
      (cfg : NetConfig Bytes) (i : ℕ) (e : NetEvent Bytes) (net : Net Bytes)
      → is_of i e ≡ false
      → (on_net cfg e net).1.streams i ≡ net.streams i
  unfolding on_net go_on
  on_net_other cfg i (received j b) net o = receive_other i j o cfg b (net.streams j).phase net
  on_net_other cfg i (lost j) net o = lose_other i j o (net.streams j).phase net
  on_net_other cfg i (stopped j) net o = set_phase_other i j o ended net
  on_net_other cfg i (looked_for j) net o = look_other i j o (net.streams j).phase net
  on_net_other cfg i (log_message j m) net o = read_log_other i j o cfg m (net.streams j).phase net
  on_net_other cfg i (logs_read j x y) net o = refresh_other i j o cfg x y (net.streams j).phase net
  on_net_other cfg i (next_reply j) net o = read_reply_other i j o cfg (net.streams j).phase net
  on_net_other cfg i (taken j) net o = take_bytes_other i j o (net.streams j).phase net
  on_net_other cfg i (inside e) net o = elim (Bool-cases (is_inside e)) [
    | inl own ↦ rw own refl
    | inr outer ↦ rw outer refl
  ]
