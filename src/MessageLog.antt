-- ===== src/MessageLog.antt =====
-- core/internal/messagelog/messagelog.go: the log of messages for the other replicas, and a goroutine
-- that streams it while messages are appended and the log is reset. Each step is a section under the
-- lock, one channel operation, or the choice of a `select`.
pub mod Streamed
pub mod Tests
use minbft.Base.{ℕ, ◌≡◌, ◌⊎◌, Bool, true, false, List, [], ◌∷◌, ◌++◌, length, drop, if◌then◌else◌}
use minbft.Messages.{Message}

pub data Phase : Type 0 where
  reading : Phase  -- before the section under the read lock
  sending : Phase  -- in the loop over `msgs`
  waiting : Phase  -- in the `select` after it
  stopped : Phase  -- `done`

-- The log, with one stream of it. `added` and `stale` say that the channels `newAdded` and `resetChan`
-- that the stream has read are closed, `batch` is what the loop over `msgs` has left, and `sent` what
-- the channel has got since the stream last noticed a reset.
pub record Stream : Type 0 where
  pub msgs : List Message
  pub added : Bool
  pub stale : Bool
  pub phase : Phase
  pub next : ℕ
  pub batch : List Message
  pub sent : List Message

abbrev pub new_stream : List Message → Stream
new_stream l = record {
  msgs = l;
  added = false;
  stale = false;
  phase = reading;
  next = 0;
  batch = [];
  sent = [];
}

pub append : Stream → Message → Stream
append s m = record s { msgs = s.msgs ++ m ∷ []; added = true }

pub reset : Stream → List Message → Stream
reset s l = record s { msgs = l; stale = true }

-- The `select` with a default: a closed `resetChan` is replaced, and `next` becomes 0.
pub notice_reset : Stream → Stream
notice_reset s = if s.stale then record s { stale = false; next = 0; sent = [] } else s

-- `newAdded := log.newAdded`, `msgs := log.msgs[next:]`, `next = len(log.msgs)`
pub read_batch : Stream → Stream
read_batch s = record s {
  added = false;
  batch = drop s.next s.msgs;
  next = length s.msgs;
  phase = sending;
}

pub read_log : Stream → Stream
unfolding notice_reset read_batch
read_log s = read_batch (notice_reset s)

pub data Step (s t : Stream) : Type 0 where
  appends : (m : Message) → t ≡ append s m → Step s t
  resets : (l : List Message) → t ≡ reset s l → Step s t
  reads : s.phase ≡ reading → t ≡ read_log s → Step s t
  sends :
      (m : Message) (l : List Message)
      → s.phase ≡ sending
      → s.batch ≡ m ∷ l
      → t ≡ record s { batch = l; sent = s.sent ++ m ∷ [] }
      → Step s t
  -- The case of `resetChan` in the loop: `continue loop`
  abandons :
      (m : Message) (l : List Message)
      → s.phase ≡ sending
      → s.batch ≡ m ∷ l
      → s.stale ≡ true
      → t ≡ record s { phase = reading }
      → Step s t
  rests : s.phase ≡ sending → s.batch ≡ [] → t ≡ record s { phase = waiting } → Step s t
  wakes :
      s.phase ≡ waiting
      → (s.added ≡ true) ⊎ (s.stale ≡ true)
      → t ≡ record s { phase = reading }
      → Step s t
  stops : t ≡ record s { phase = stopped } → Step s t

pub data Reach : Stream → Type 0 where
  begin : (l : List Message) → Reach (new_stream l)
  next : {s t : Stream} → Reach s → Step s t → Reach t
