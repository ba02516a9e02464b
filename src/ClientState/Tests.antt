-- ===== src/ClientState/Tests.antt =====
-- Calls on the states of two clients.
use minbft.Base.{ℕ, ◌≡◌, refl, List, [], ◌∷◌}
use minbft.ClientState.Seq.{set_captured}
use minbft.ClientState.Provider.{
  State, start, stop_all_timers, new_client_state, find, clients, run_calls, state_or_new, calls_on,
  is_called, contains, run_calls-refines,
}

abbrev timer_calls : List (ℕ × (State → State))
timer_calls =
    (3, λ s. record s { request_timer = start 2 7 s.request_timer })
    ∷ (5, λ s. record s { seq_state = set_captured s.seq_state 4 })
    ∷ (3, stop_all_timers)
    ∷ []

clients_test : clients (run_calls timer_calls []) ≡ 3 ∷ 5 ∷ []
unfolding clients run_calls
clients_test = refl

run_calls-refines_example :
    (state_or_new (find 5 (run_calls timer_calls [])) ≡ calls_on 5 timer_calls new_client_state)
    × (contains 5 (clients (run_calls timer_calls [])) ≡ is_called 5 timer_calls)
run_calls-refines_example = run_calls-refines timer_calls 5
