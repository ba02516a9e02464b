-- ===== src/Commitment/Runs.antt =====
-- One call of the collector: accepted and counted, or refused with no effect.
use minbft.Base.{arith, ◌≡◌, refl, ◌⊎◌, ◌≢◌, inl, inr, Bool}
use minbft.Base.Result.{Result, ok, err, panic}
use minbft.Commitment.{
  Acceptor, Commitment, Collector, record_commitment, accept_commitment, count_commitment,
  count_accepted, collect,
}
use minbft.Commitment.Support.{Accepts, accept_ok}

abbrev pub counted : Collector → Commitment → Collector
counted s c = record {
  acceptor = record_commitment s.acceptor c;
  counter = (count_commitment s.counter c.view c.primary_cv).0;
}

abbrev pub Outcome : Collector → Commitment → Type 0
Outcome s c =
    (Accepts s.acceptor c
      × ((collect s c).0 ≡ counted s c)
      × ((collect s c).1 ≡ ok (count_commitment s.counter c.view c.primary_cv).1))
    ⊎ (((b : Bool) → (collect s c).1 ≢ ok b) × ((collect s c).0 ≡ s))

pub collect_cases : (s : Collector) (c : Commitment) → Outcome s c
unfolding collect count_accepted
collect_cases s c = go (accept_commitment s.acceptor c) refl
  where
    go : (r : Result Acceptor) → accept_commitment s.acceptor c ≡ r → Outcome s c
    go (ok a) e =
        let (acc, same) = accept_ok s.acceptor c e in
        inl (acc, rw (e, collect) (rw same), rw (e, collect) refl)
    go (err x) e = inr (λ b h. ground (arith, e), rw (e, collect) refl)
    go panic e = inr (λ b h. ground (arith, e), rw (e, collect) refl)
