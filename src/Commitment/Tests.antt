-- ===== src/Commitment/Tests.antt =====
-- Tests of the commitment collector, and its theorems at concrete inputs.
use minbft.Base.{ℕ, ◌*◌, ◌≤◌, ◌≡◌, refl, true, false, ◌&&◌, List, [], ◌∷◌, arith, leb, All}
use minbft.Base.Result.{ok, err, cannot_accept, non_sequential_primary, unexpected_view}
use minbft.Commitment.{Commitment, collect, run, new_collector}
use minbft.Commitment.Support.{supporters}
use minbft.Commitment.History.{history, committers, Agrees}
use minbft.Commitment.Decisions.{decided}
use minbft.Commitment.Agree.{decided_agree}
use minbft.Commitment.Quorum.{collect_quorum}
use minbft.Commitment.Decides.{collect_decides}

-- Replica `r` commits, as its message `cv`, to the primary's message `cv` of the first view.
abbrev vote : ℕ → ℕ → Commitment
vote r cv = record {
  replica_id = r;
  is_new_view = false;
  view = 0;
  primary_cv = cv;
  replica_cv = cv;
}

-- Three replicas, quorums of two: the primary, replica 0, is one proposal ahead.
abbrev votes : List Commitment
votes = vote 0 1 ∷ vote 0 2 ∷ vote 1 1 ∷ []

-- Replica 1 enters view 1 with a NewView, its third message.
abbrev entering : Commitment
entering = record { replica_id = 1; is_new_view = true; view = 1; primary_cv = 3; replica_cv = 3 }

first_reached : (collect (run (new_collector 2) (vote 0 1 ∷ [])) (vote 1 1)).1 ≡ ok true
unfolding run collect
first_reached = refl

second_open : (collect (run (new_collector 3) votes) (vote 1 2)).1 ≡ ok false
unfolding run collect
second_open = refl

skipped :
    (collect (run (new_collector 2) votes) (vote 1 3)).1
    ≡ err (cannot_accept non_sequential_primary)
unfolding run collect
skipped = refl

-- After the NewView the old view's commitments of that replica are refused.
left_behind :
    (collect (run (new_collector 2) (entering ∷ [])) (vote 1 1)).1
    ≡ err (cannot_accept unexpected_view)
unfolding run collect
left_behind = refl

collect_quorum_example :
    2 ≤ supporters 3 (collect (run (new_collector 2) votes) (vote 1 2)).0.acceptor 0 2
unfolding run collect
collect_quorum_example =
    collect_quorum 3 2 votes (vote 1 2) (omega arith) (omega arith) (omega arith) refl

-- Replica 0 follows replica 1 into view 1: two replicas have committed to its NewView.
abbrev joining : Commitment
joining = record { replica_id = 0; is_new_view = true; view = 1; primary_cv = 3; replica_cv = 4 }

collect_decides_example : true ≡ (
    leb (run (new_collector 2) (vote 0 1 ∷ entering ∷ [])).counter.last_view 1
    && leb 2 (committers 3 (joining ∷ history (new_collector 2) [] (vote 0 1 ∷ entering ∷ [])) 1 3))
unfolding run collect
collect_decides_example =
    collect_decides (λ v. 3 * v) 3 2 (vote 0 1 ∷ entering ∷ []) joining true (omega arith) refl
      (omega arith) (omega arith) ((λ e. cc), ((λ e. (omega arith, refl)), tt))
      (λ e. (omega arith, refl)) refl

-- Two replicas get the same messages in other orders, and one of them not all.
abbrev votes_late : List Commitment
votes_late = vote 2 1 ∷ vote 0 1 ∷ vote 1 1 ∷ vote 0 2 ∷ vote 1 2 ∷ vote 2 2 ∷ []

abbrev votes_early : List Commitment
votes_early = vote 0 1 ∷ vote 0 2 ∷ vote 1 1 ∷ []

late_agree : All (Agrees (λ v. 3 * v)) votes_late
late_agree = ((λ e. cc), ((λ e. cc), ((λ e. cc), ((λ e. cc), ((λ e. cc), ((λ e. cc), tt))))))

decided_test : decided 0 (new_collector 2) [] votes_late ≡ 1 ∷ 2 ∷ []
unfolding decided collect
decided_test = refl

decided_agree_example : decided 0 (new_collector 2) [] votes_early ≡ 1 ∷ []
unfolding decided collect
decided_agree_example =
    decided_agree (λ v. 3 * v) 3 2 0 votes_early votes_late (omega arith) refl (omega arith)
      ((λ e. cc), ((λ e. cc), ((λ e. cc), tt))) (omega arith) late_agree (omega arith)
