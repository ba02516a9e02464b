-- ===== src/Timer.antt =====
-- core/internal/backofftimer/timer.go: the view-change timer, whose delay doubles with each start and
-- is reset when it is stopped. A duration is the 64-bit word of a time.Duration.
pub mod Delays
pub mod Tests
use minbft.Base.{ℕ, ◌*◌, ◌%◌, Bool, true, false, List, [], ◌∷◌, u64_mod}

-- `running` says that the `timer` field is not nil.
pub record BackoffTimer : Type 0 where
  pub init_timeout : ℕ
  pub current_timeout : ℕ
  pub running : Bool

abbrev pub new_backoff : ℕ → BackoffTimer
new_backoff d = record { init_timeout = d; current_timeout = d; running = false }

-- Start, which returns the delay that it gives to the timer provider.
pub start : BackoffTimer → BackoffTimer × ℕ
start t = (
  record t { current_timeout = t.current_timeout * 2 % u64_mod; running = true },
  t.current_timeout,
)

pub stop : BackoffTimer → BackoffTimer
stop t = record t { current_timeout = t.init_timeout; running = false }

-- The calls: `true` is a Start, `false` a Stop.
pub run : BackoffTimer → List Bool → BackoffTimer
unfolding start stop
run t [] = t
run t (true ∷ l) = run (start t).0 l
run t (false ∷ l) = run (stop t) l
