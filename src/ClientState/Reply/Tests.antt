-- ===== src/ClientState/Reply/Tests.antt =====
-- Three replies, the second one out of order.
use minbft.Base.{ℕ, ◌≡◌, refl, List, [], ◌∷◌}
use minbft.Base.Result.{ok}
use minbft.Messages.{Reply}
use minbft.ClientState.Reply.{new_reply_state, reply_pass, add_replies, waits, closes, sends}

abbrev answer : ℕ → Reply
answer seq = record { replica_id = 1; client_id = 7; sequence = seq; result = []; signature = [] }

abbrev answers : List Reply
answers = answer 4 ∷ answer 2 ∷ answer 6 ∷ []

answers_test :
    (reply_pass (add_replies new_reply_state answers) 4 ≡ ok closes)
    × (reply_pass (add_replies new_reply_state answers) 6 ≡ ok (sends (answer 6)))
    × (reply_pass (add_replies new_reply_state answers) 7 ≡ ok waits)
unfolding add_replies reply_pass
answers_test = (refl, refl, refl)
