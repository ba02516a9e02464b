-- ===== src/Protobuf/Tests.antt =====
-- A ViewChange with a log and a certificate, there and back; a Commit whose proposal is absent.
use minbft.Base.{ℕ, ◌≡◌, refl, [], ◌∷◌, arith}
use minbft.Base.Result.{ok, err, panic, unknown_type, unmarshal_proposal}
use minbft.Messages.{
  Ui, Request, Message, certified, commit, prepare, view_change, vc_message, log_entry, log_end,
}
use minbft.Usig.{unmarshal_binary}
use minbft.Protobuf.{
  PbMessage, pb_commit, pb_untyped, pb_log_entry, pb_log_end, pb_view_change, pb_vc, absent,
  present, to_pb,
}
use minbft.Protobuf.Parse.{from_pb, new_from_binary}
use minbft.Protobuf.RoundTrip.{MessageWords, Words, new_from_binary-encode}
use minbft.Protobuf.Missing.{lacks_proposal-panic}

abbrev at : ℕ → Ui
at c = record { counter = c; cert = 9 ∷ [] }

abbrev put : Request
put = record { client_id = 7; sequence = 5; operation = []; signature = 1 ∷ [] }

abbrev change : Message
change = certified (
    view_change (
      vc_message 1 2 (log_entry (commit 1 (prepare 0 0 put (at 1)) (at 1)) log_end)
        (record { replica_id = 0; new_view = 2; signature = [] } ∷ []) (at 300)))

change-MessageWords : MessageWords change
unfolding MessageWords Words
change-MessageWords = (((omega arith, omega arith), tt), omega arith)

new_from_binary-encode_example : new_from_binary {Bytes = PbMessage} ok (to_pb change) ≡ ok change
new_from_binary-encode_example =
    new_from_binary-encode {Bytes = PbMessage} (λ p. p) ok change (λ p. refl) change-MessageWords

untyped_test : from_pb (pb_commit 1 (present pb_untyped) []) ≡ err (unmarshal_proposal unknown_type)
unfolding from_pb
untyped_test = refl

abbrev bare : PbMessage
bare = pb_commit 2 (present (pb_commit 1 absent [])) []

lacks_proposal-panic_example : from_pb bare ≡ panic
lacks_proposal-panic_example = lacks_proposal-panic bare refl

abbrev logged : PbMessage
logged =
    pb_view_change
      (pb_vc 1 1 (pb_log_entry bare pb_log_end) [] (0 ∷ 0 ∷ 0 ∷ 0 ∷ 0 ∷ 0 ∷ 0 ∷ 1 ∷ []))

logged_test : from_pb logged ≡ panic
unfolding from_pb unmarshal_binary
logged_test = refl
