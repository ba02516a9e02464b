-- ===== src/ClientState/Seq/Threads.antt =====
-- Goroutines that call the methods of one client's sequence state, in any interleaving. A wait on
-- the condition variable may end at any time, and the condition is then tested again.
use minbft.Base.{ℕ, ◌≤◌, ◌≡◌, List, [], ◌∷◌, update}
use minbft.ClientState.Seq.{
  SeqState, new_seq_state, not_new, wait_released, wait_retry, captured, attempt_capture,
  set_captured, release, prepare_seq, retire_seq, unprepare_seq,
}

-- Where a goroutine stands that processes a request of the client.
pub data Pc : Type 0 where
  idle : Pc
  trying : (seq : ℕ) → Pc  -- in the loop of `CaptureRequestSeq`
  awaiting : (seq : ℕ) → Pc  -- in its inner loop
  holding : (seq : ℕ) → Pc  -- captured, `release` not yet called
  dropped : (seq : ℕ) → Pc  -- `CaptureRequestSeq` returned false

-- `log` is the sequence of captured identifiers, the newest first.
pub record System : Type 0 where
  pub seqs : SeqState
  pub pc : ℕ → Pc
  pub log : List ℕ

abbrev pub start : System
start = record { seqs = new_seq_state; pc = λ _. idle; log = [] }

abbrev pub move : System → ℕ → Pc → System
move s i p = record s { pc = update s.pc i p }

pub data Step (s t : System) : Type 0 where
  call : (i seq : ℕ) → s.pc i ≡ idle → t ≡ move s i (trying seq) → Step s t
  try_again :
      (i seq : ℕ) → s.pc i ≡ trying seq → attempt_capture s.seqs seq ≡ wait_retry → t ≡ s → Step s t
  try_wait :
      (i seq : ℕ)
      → s.pc i ≡ trying seq
      → attempt_capture s.seqs seq ≡ wait_released
      → t ≡ move s i (awaiting seq)
      → Step s t
  try_old :
      (i seq : ℕ)
      → s.pc i ≡ trying seq
      → attempt_capture s.seqs seq ≡ not_new
      → t ≡ move s i (dropped seq)
      → Step s t
  try_new :
      (i seq : ℕ)
      → s.pc i ≡ trying seq
      → attempt_capture s.seqs seq ≡ captured
      → t ≡ record {
        seqs = set_captured s.seqs seq;
        pc = update s.pc i (holding seq);
        log = seq ∷ s.log;
      }
      → Step s t
  wake :
      (i seq : ℕ)
      → s.pc i ≡ awaiting seq
      → seq ≤ s.seqs.last_released
      → t ≡ move s i (dropped seq)
      → Step s t
  finish :
      (i seq : ℕ)
      → s.pc i ≡ holding seq
      → t ≡ record s { seqs = release s.seqs; pc = update s.pc i idle }
      → Step s t
  again : (i seq : ℕ) → s.pc i ≡ dropped seq → t ≡ move s i idle → Step s t
  prepares : (seq : ℕ) → t ≡ record s { seqs = (prepare_seq s.seqs seq).0 } → Step s t
  retires : (seq : ℕ) → t ≡ record s { seqs = (retire_seq s.seqs seq).0 } → Step s t
  unprepares : t ≡ record s { seqs = unprepare_seq s.seqs } → Step s t

pub data Reach : System → Type 0 where
  begin : Reach start
  next : {s t : System} → Reach s → Step s t → Reach t
