-- ===== src/ClientState/Reply.antt =====
-- core/internal/clientstate/reply.go: the last Reply to a client, and what a channel for a request
-- yields. A nil Reply is `none`; the wait channel wakes a waiting goroutine for another pass.
pub mod Latest
pub mod Tests
use minbft.Base.{ℕ, Option, none, some, List, [], ◌∷◌, leb, ◌==◌, if◌then◌else◌}
use minbft.Base.Result.{Result, ok, panic}
use minbft.Messages.{Reply}

pub record ReplyState : Type 0 where
  pub last_replied_seq : ℕ
  pub reply : Option Reply

abbrev pub new_reply_state : ReplyState
new_reply_state = record { last_replied_seq = 0; reply = none }

unfoldable pub add_reply : ReplyState → Reply → ReplyState
add_reply s r =
    if leb r.sequence s.last_replied_seq
    then s
    else record { reply = some r; last_replied_seq = r.sequence }

-- What one pass of the loop in `ReplyChannel` leads to.
pub data Pass : Type 0 where
  waits : Pass  -- waits for another Reply
  closes : Pass  -- closes the channel
  sends : Reply → Pass  -- sends the Reply and closes the channel

-- `reply.Sequence()` panics on a nil Reply.
unfoldable pub reply_pass : ReplyState → ℕ → Result Pass
reply_pass s seq =
    if leb seq s.last_replied_seq
    then elim s.reply [ none ↦ panic | some r ↦ ok (if r.sequence == seq then sends r else closes) ]
    else ok waits

pub add_replies : ReplyState → List Reply → ReplyState
unfolding add_reply
add_replies s [] = s
add_replies s (r ∷ l) = add_replies (add_reply s r) l
