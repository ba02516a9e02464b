-- ===== src/ClientState/Seq/Tests.antt =====
-- Two goroutines of one client: the theorems at states that they reach.
use minbft.Base.{ℕ, ◌≡◌, refl, ◌⊎◌, [], ◌∷◌, arith, update}
use minbft.Base.Result.{err, not_captured}
use minbft.ClientState.Seq.{
  new_seq_state, attempt_capture, set_captured, release, prepare_seq, wait_retry,
}
use minbft.ClientState.Seq.Threads.{
  idle, trying, awaiting, holding, dropped, System, move, call, try_new, try_wait, finish, wake,
  Reach, begin, next,
}
use minbft.ClientState.Seq.Exclusion.{capture_exclusive}
use minbft.ClientState.Seq.Progress.{CanReach, IsHeld, trying_progress}

-- Goroutine 0 captures identifier 5; goroutine 1 calls with the same identifier and waits.
abbrev held : System
held = record {
  seqs = set_captured new_seq_state 5;
  pc = update (update (λ _. idle) 0 (trying 5)) 0 (holding 5);
  log = 5 ∷ [];
}

held-Reach : Reach held
unfolding attempt_capture
held-Reach = next (next begin (call 0 5 refl refl)) (try_new 0 5 refl refl refl)

abbrev contended : System
contended = move held 1 (trying 5)

contended-Reach : Reach contended
contended-Reach = next held-Reach (call 1 5 refl refl)

abbrev waiting : System
waiting = move contended 1 (awaiting 5)

waiting-Reach : Reach waiting
unfolding attempt_capture set_captured
waiting-Reach = next contended-Reach (try_wait 1 5 refl refl refl)

abbrev finished : System
finished = record waiting { seqs = release waiting.seqs; pc = update waiting.pc 0 idle }

abbrev woken : System
woken = move finished 1 (dropped 5)

woken-Reach : Reach woken
unfolding set_captured release
woken-Reach = next (next waiting-Reach (finish 0 5 refl refl)) (wake 1 5 refl (omega arith) refl)

-- A later identifier of the same client has to wait for the release.
later_waits : attempt_capture held.seqs 6 ≡ wait_retry
unfolding attempt_capture set_captured
later_waits = refl

uncaptured_fails : (prepare_seq held.seqs 6).1 ≡ err not_captured
unfolding prepare_seq set_captured
uncaptured_fails = refl

capture_exclusive_example : (◌≡◌ {A = ℕ} 0 0) × (◌≡◌ {A = ℕ} 5 5)
capture_exclusive_example = capture_exclusive {s = waiting} 0 0 5 5 waiting-Reach refl refl

trying_progress_example :
    CanReach contended 1 (holding 5) ⊎ CanReach contended 1 (dropped 5) ⊎ IsHeld contended
trying_progress_example = trying_progress {s = contended} 1 5 contended-Reach refl
