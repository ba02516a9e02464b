-- ===== src/Commitment.antt =====
-- core/commit.go: which replica commitments are accepted, and when a proposal has enough of them.
-- A map of Go that is read with its zero value as the default is a function on identifiers.
pub mod Tests
pub mod Highest
pub mod Support
pub mod Runs
pub mod Invariant
pub mod Quorum
pub mod History
pub mod Exact
pub mod Decides
pub mod Decisions
pub mod Advance
pub mod Agree
use minbft.Base.{
  ℕ, ◌-◌, Bool, true, false, List, [], ◌∷◌, length, replicate, ltb, leb, ◌==◌, not, if◌then◌else◌,
  update, inc64,
}
use minbft.Base.Result.{
  Result, ok, err, panic, ◌>>=◌, ◌>>◌, fail_if, unexpected_view, non_sequential_primary,
  non_sequential_replica, cannot_accept,
}

-- The variables that `makeCommitmentAcceptor` captures.
pub record Acceptor : Type 0 where
  pub replica_views : ℕ → ℕ
  pub last_primary_cvs : ℕ → ℕ
  pub last_replica_cvs : ℕ → ℕ

abbrev pub new_acceptor : Acceptor
new_acceptor = record {
  replica_views = λ _. 0;
  last_primary_cvs = λ _. 0;
  last_replica_cvs = λ _. 0;
}

-- The arguments of `acceptCommitment`.
pub record Commitment : Type 0 where
  pub replica_id : ℕ
  pub is_new_view : Bool
  pub view : ℕ
  pub primary_cv : ℕ
  pub replica_cv : ℕ

pub check_commitment : Acceptor → Commitment → Result (Unit {0})
check_commitment s c =
    if c.is_new_view
    then fail_if (leb c.view (s.replica_views c.replica_id)) unexpected_view
    else do
      fail_if (not (c.view == s.replica_views c.replica_id)) unexpected_view
      fail_if (not (c.primary_cv == inc64 (s.last_primary_cvs c.replica_id))) non_sequential_primary
      fail_if (not (c.replica_cv == inc64 (s.last_replica_cvs c.replica_id))) non_sequential_replica

pub record_commitment : Acceptor → Commitment → Acceptor
record_commitment s c = record {
  replica_views =
      if c.is_new_view then update s.replica_views c.replica_id c.view else s.replica_views;
  last_primary_cvs = update s.last_primary_cvs c.replica_id c.primary_cv;
  last_replica_cvs = update s.last_replica_cvs c.replica_id c.replica_cv;
}

-- No field changes on an error.
pub accept_commitment : Acceptor → Commitment → Result Acceptor
unfolding check_commitment record_commitment
accept_commitment s c = do check_commitment s c; ok (record_commitment s c)

-- The variables that `makeCommitmentCounter` captures.
pub record Counter : Type 0 where
  pub last_view : ℕ
  pub highest : List ℕ

abbrev pub new_counter : ℕ → Counter
new_counter cert_size = record { last_view = 0; highest = replicate (cert_size - 1) 0 }

-- The loop over `highest`: the first smaller entry is replaced; `true` if there is none.
pub raise : List ℕ → ℕ → List ℕ
raise [] cv = []
raise (h ∷ hs) cv = if ltb h cv then cv ∷ hs else h ∷ raise hs cv

pub all_reached : List ℕ → ℕ → Bool
all_reached [] cv = true
all_reached (h ∷ hs) cv = if ltb h cv then false else all_reached hs cv

-- `if view > lastView { ... }`
pub enter_view : Counter → ℕ → Counter
enter_view s view =
    if ltb s.last_view view
    then record { last_view = view; highest = replicate (length s.highest) 0 }
    else s

pub count_commitment : Counter → ℕ → ℕ → Counter × Bool
unfolding raise all_reached enter_view
count_commitment s view primary_cv =
    if ltb view s.last_view
    then (s, false)
    else (let t = enter_view s view in
        (record t { highest = raise t.highest primary_cv }, all_reached t.highest primary_cv))

-- The state under the collector's lock.
pub record Collector : Type 0 where
  pub acceptor : Acceptor
  pub counter : Counter

abbrev pub new_collector : ℕ → Collector
new_collector cert_size = record { acceptor = new_acceptor; counter = new_counter cert_size }

pub count_accepted : Collector → Commitment → Acceptor → Collector × Result Bool
unfolding count_commitment
count_accepted s c a =
    let (k, done) = count_commitment s.counter c.view c.primary_cv in
    (record { acceptor = a; counter = k }, ok done)

-- What `makeCommitmentCollector` does under its lock, up to the execution of the proposal.
unfoldable pub collect : Collector → Commitment → Collector × Result Bool
unfolding accept_commitment count_accepted
collect s c = elim (accept_commitment s.acceptor c) [
  | ok a ↦ count_accepted s c a
  | err e ↦ (s, err (cannot_accept e))
  | panic ↦ (s, panic)
]

unfoldable pub run : Collector → List Commitment → Collector
run s [] = s
run s (c ∷ cs) = run (collect s c).0 cs
