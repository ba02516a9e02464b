-- ===== src/ClientState/Seq.antt =====
-- core/internal/clientstate/request-seq.go: which request identifiers of a client are captured,
-- released, prepared and retired. Each method runs under the state's mutex.
pub mod Threads
pub mod Exclusion
pub mod Progress
pub mod Tests
use minbft.Base.{ℕ, ◌≤◌, ◌≡◌, arith, Bool, true, false, leb, ltb, if◌then◌else◌}
use minbft.Base.Result.{Result, ok, err, not_captured, not_prepared}

pub record SeqState : Type 0 where
  pub last_captured : ℕ
  pub last_released : ℕ
  pub last_prepared : ℕ
  pub last_retired : ℕ

abbrev pub new_seq_state : SeqState
new_seq_state = record { last_captured = 0; last_released = 0; last_prepared = 0; last_retired = 0 }

-- What one pass of the loop in `CaptureRequestSeq` leads to.
pub data Attempt : Type 0 where
  not_new : Attempt  -- returns (false, nil)
  wait_released : Attempt  -- waits in the inner loop, then returns (false, nil)
  wait_retry : Attempt  -- waits, then makes another pass
  captured : Attempt  -- returns (true, release)

unfoldable pub attempt_capture : SeqState → ℕ → Attempt
attempt_capture s seq =
    if leb seq s.last_captured
    then (if ltb s.last_released seq then wait_released else not_new)
    else (if ltb s.last_released s.last_captured then wait_retry else captured)

-- `s.lastCapturedSeq = seq`
unfoldable pub set_captured : SeqState → ℕ → SeqState
set_captured s seq = record s { last_captured = seq }

-- The `release` function that a successful capture returns.
unfoldable pub release : SeqState → SeqState
release s = record s { last_released = s.last_captured }

unfoldable pub prepare_seq : SeqState → ℕ → SeqState × Result Bool
prepare_seq s seq =
    if leb seq s.last_prepared
    then (s, ok false)
    else (if ltb s.last_captured seq
        then (s, err not_captured)
        else (record s { last_prepared = seq }, ok true))

unfoldable pub retire_seq : SeqState → ℕ → SeqState × Result Bool
retire_seq s seq =
    if leb seq s.last_retired
    then (s, ok false)
    else (if ltb s.last_prepared seq
        then (s, err not_prepared)
        else (record s { last_retired = seq }, ok true))

unfoldable pub unprepare_seq : SeqState → SeqState
unprepare_seq s = record s { last_prepared = s.last_retired }

-- The order of the four marks.
pub record IsOrdered (s : SeqState) : Type 0 where
  pub retired : s.last_retired ≤ s.last_prepared
  pub prepared : s.last_prepared ≤ s.last_captured
  pub released : s.last_released ≤ s.last_captured

pub set_captured-IsOrdered :
    (s : SeqState) (seq : ℕ)
    → attempt_capture s seq ≡ captured
    → IsOrdered s
    → IsOrdered (set_captured s seq)
unfolding attempt_capture set_captured
set_captured-IsOrdered s seq e h = ground arith

pub release-IsOrdered : (s : SeqState) → IsOrdered s → IsOrdered (release s)
unfolding release
release-IsOrdered s h = ground arith

pub prepare_seq-IsOrdered : (s : SeqState) (seq : ℕ) → IsOrdered s → IsOrdered (prepare_seq s seq).0
unfolding prepare_seq
prepare_seq-IsOrdered s seq h = ground arith

pub retire_seq-IsOrdered : (s : SeqState) (seq : ℕ) → IsOrdered s → IsOrdered (retire_seq s seq).0
unfolding retire_seq
retire_seq-IsOrdered s seq h = ground arith

pub unprepare_seq-IsOrdered : (s : SeqState) → IsOrdered s → IsOrdered (unprepare_seq s)
unfolding unprepare_seq
unprepare_seq-IsOrdered s h = ground arith
