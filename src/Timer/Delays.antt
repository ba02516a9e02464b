-- ===== src/Timer/Delays.antt =====
-- core/internal/backofftimer/timer.go: how long a start of the timer takes.
use minbft.Base.{
  ℕ, zero, suc, ◌*◌, ◌%◌, ◌<◌, ◌≡◌, refl, Bool, true, false, List, [], ◌∷◌, arith, u64_mod,
}
use minbft.Timer.{BackoffTimer, new_backoff, start, stop, run}

-- The starts since the last stop, `n` if there was no stop.
abbrev pub starts : ℕ → List Bool → ℕ
starts n [] = n
starts n (true ∷ l) = starts (suc n) l
starts n (false ∷ l) = starts 0 l

abbrev pub doubled : ℕ → ℕ → ℕ
doubled zero d = d
doubled (suc n) d = doubled n d * 2

Doubles : ℕ → ℕ → BackoffTimer → Type 0
Doubles n d t = (t.init_timeout ≡ d) × (t.current_timeout ≡ doubled n d % u64_mod)

run-Doubles :
    (n d : ℕ) (t : BackoffTimer) (l : List Bool)
    → d < u64_mod
    → Doubles n d t
    → Doubles (starts n l) d (run t l)
unfolding run Doubles
run-Doubles n d t [] h k = k
run-Doubles n d t (true ∷ l) h k = run-Doubles (suc n) d (start t).0 l h (k.0, omega (arith, k.1))
run-Doubles n d t (false ∷ l) h k = run-Doubles 0 d (stop t) l h (k.0, omega (arith, h, k.0))

-- After any calls the next start of a timer made for a duration has that duration as its delay,
-- doubled for each start since the last stop, as far as 64 bits hold it.
pub start_delay :
    (d : ℕ) (l : List Bool)
    → d < u64_mod
    → (start (run (new_backoff d) l)).1 ≡ doubled (starts 0 l) d % u64_mod
unfolding start Doubles
start_delay d l h = (run-Doubles 0 d (new_backoff d) l h (refl, omega (arith, h))).1
