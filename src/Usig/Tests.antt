-- ===== src/Usig/Tests.antt =====
-- A UI with a counter of two bytes.
use minbft.Base.{◌≡◌, refl, [], ◌∷◌}
use minbft.Base.Result.{err, short_input}
use minbft.Messages.{Ui}
use minbft.Usig.{marshal_binary, unmarshal_binary}

abbrev some_ui : Ui
some_ui = record { counter = 258; cert = 7 ∷ 9 ∷ [] }

marshal_test : marshal_binary some_ui ≡ 0 ∷ 0 ∷ 0 ∷ 0 ∷ 0 ∷ 0 ∷ 1 ∷ 2 ∷ 7 ∷ 9 ∷ []
unfolding marshal_binary
marshal_test = refl

short_test : unmarshal_binary (1 ∷ 2 ∷ []) ≡ err short_input
unfolding unmarshal_binary
short_test = refl
