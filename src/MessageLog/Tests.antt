-- ===== src/MessageLog/Tests.antt =====
-- A stream of a log to which one message is appended, before the log is reset.
use minbft.Base.{◌≡◌, ◌⊎◌, refl, inr, true, [], ◌∷◌, ◌++◌, length, take}
use minbft.Messages.{hello}
use minbft.MessageLog.{
  reading, waiting, Stream, new_stream, append, reset, read_log, appends, resets, reads, sends,
  rests, wakes, Reach, begin, next,
}
use minbft.MessageLog.Streamed.{streamed_prefix, streamed_complete}

abbrev appended : Stream
appended = append (new_stream []) (hello 1)

abbrev read : Stream
read = read_log appended

abbrev delivered : Stream
delivered = record read { batch = []; sent = read.sent ++ hello 1 ∷ [] }

abbrev resting : Stream
resting = record delivered { phase = waiting }

abbrev emptied : Stream
emptied = reset resting []

abbrev awake : Stream
awake = record emptied { phase = reading }

delivered-Reach : Reach delivered
unfolding append read_log
delivered-Reach =
    next (next (next (begin []) (appends (hello 1) refl)) (reads refl refl))
      (sends (hello 1) [] refl refl refl)

resting-Reach : Reach resting
unfolding append read_log
resting-Reach = next delivered-Reach (rests refl refl refl)

awake-Reach : Reach awake
unfolding append read_log reset
awake-Reach = next (next resting-Reach (resets [] refl)) (wakes refl (inr refl) refl)

delivered_test : delivered.sent ≡ hello 1 ∷ []
unfolding append read_log
delivered_test = refl

reread_test : (read_log awake).sent ≡ []
unfolding append read_log reset
reread_test = refl

streamed_prefix_example : delivered.sent ≡ take (length delivered.sent) delivered.msgs
unfolding append read_log
streamed_prefix_example = streamed_prefix delivered-Reach refl

streamed_complete_example :
    (resting.stale ≡ true) ⊎ (resting.added ≡ true) ⊎ (resting.sent ≡ resting.msgs)
streamed_complete_example = streamed_complete resting-Reach refl
