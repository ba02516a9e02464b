-- ===== src/Timer/Tests.antt =====
-- Two starts, a stop, and three more.
use minbft.Base.{◌≡◌, refl, Bool, true, false, List, [], ◌∷◌}
use minbft.Timer.{new_backoff, start, run}

abbrev calls : List Bool
calls = true ∷ true ∷ false ∷ true ∷ true ∷ true ∷ []

calls_test : (start (run (new_backoff 10) calls)).1 ≡ 80
unfolding run start
calls_test = refl
