-- ===== src/Commitment/Quorum.antt =====
-- The commitment collector reports a proposal as committed only with a quorum behind it.
use minbft.Base.{ℕ, ◌≤◌, ◌≡◌, inl, inr, true, List, [], ◌∷◌, All}
use minbft.Base.Result.{ok}
use minbft.Commitment.{Commitment, Collector, collect, run, new_collector}
use minbft.Commitment.Support.{supporters, IsValid}
use minbft.Commitment.Runs.{collect_cases}
use minbft.Commitment.Invariant.{Inv, new-Inv, count-Inv, count_done}

collect-Inv :
    (n cert_size : ℕ) (s : Collector) (c : Commitment)
    → Inv n cert_size s.acceptor s.counter
    → IsValid n c
    → Inv n cert_size (collect s c).0.acceptor (collect s c).0.counter
collect-Inv n cert_size s c inv valid = elim (collect_cases s c) [
  | inl (acc, e, _) ↦ rw e (count-Inv n cert_size s.acceptor s.counter c inv acc valid)
  | inr (_, e) ↦ rw e inv
]

pub run-Inv :
    (n cert_size : ℕ) (s : Collector) (cs : List Commitment)
    → Inv n cert_size s.acceptor s.counter
    → All (IsValid n) cs
    → Inv n cert_size (run s cs).acceptor (run s cs).counter
unfolding run
run-Inv n cert_size s [] inv valid = inv
run-Inv n cert_size s (c ∷ cs) inv valid =
    run-Inv n cert_size (collect s c).0 cs (collect-Inv n cert_size s c inv valid.0) valid.1

quorum_after :
    (n cert_size : ℕ) (s : Collector) (c : Commitment)
    → Inv n cert_size s.acceptor s.counter
    → IsValid n c
    → (collect s c).1 ≡ ok true
    → cert_size ≤ supporters n (collect s c).0.acceptor c.view c.primary_cv
quorum_after n cert_size s c inv valid e = elim (collect_cases s c) [
  | inl (acc, same, done) ↦
      rw same (count_done n cert_size s.acceptor s.counter c inv acc valid (cc))
  | inr (refused, _) ↦ absurd (refused true e)
]

-- Whatever commitments were collected before, if the collector reports the proposal of a commitment
-- as committed, then at least `cert_size` different replicas have, in the view of the proposal, a
-- last accepted commitment whose primary counter reaches that of the proposal.
pub collect_quorum :
    (n cert_size : ℕ) (cs : List Commitment) (c : Commitment)
    → 1 ≤ cert_size
    → All (IsValid n) cs
    → IsValid n c
    → (collect (run (new_collector cert_size) cs) c).1 ≡ ok true
    → cert_size
      ≤ supporters n (collect (run (new_collector cert_size) cs) c).0.acceptor c.view c.primary_cv
collect_quorum n cert_size cs c pos valid_cs valid e =
    quorum_after n cert_size (run (new_collector cert_size) cs) c
      (run-Inv n cert_size (new_collector cert_size) cs (new-Inv n cert_size pos) valid_cs) valid e
