-- ===== src/ClientState/Provider.antt =====
-- core/internal/clientstate/client-state.go and timeout.go: the states of all clients, each of which
-- is made when it is first asked for, and its two timers. Each method runs under a mutex.
use minbft.Base.{
  ℕ, ◌≡◌, refl, sym, ap, ◌∙◌, inl, inr, Bool, true, false, Option, none, some, List, [], ◌∷◌, ◌==◌,
  if◌then◌else◌, Bool-cases, ==_iff, ==_refl,
}
use minbft.ClientState.Seq.{SeqState, new_seq_state}
use minbft.ClientState.Reply.{ReplyState, new_reply_state}

-- `timer` says whether the timer that is there is running.
pub record TimerState : Type 0 where
  pub seq : ℕ
  pub timer : Option Bool

abbrev pub new_timer_state : TimerState
new_timer_state = record { seq = 0; timer = none }

unfoldable pub stopped : Option Bool → Option Bool
stopped none = none
stopped (some running) = some false

-- Start; `timeout` is 0 for a duration that is not positive.
unfoldable pub start : ℕ → ℕ → TimerState → TimerState
unfolding stopped
start timeout seq s =
    if timeout == 0
    then record { seq = seq; timer = stopped s.timer }
    else record { seq = seq; timer = some true }

-- StopAny
unfoldable pub stop_any : TimerState → TimerState
stop_any s = record s { timer = none }

-- Stop
unfoldable pub stop : ℕ → TimerState → TimerState
unfolding stop_any
stop seq s = if s.seq == seq then stop_any s else s

-- clientState
pub record State : Type 0 where
  pub seq_state : SeqState
  pub reply_state : ReplyState
  pub request_timer : TimerState
  pub prepare_timer : TimerState

unfoldable pub new_client_state : State
new_client_state = record {
  seq_state = new_seq_state;
  reply_state = new_reply_state;
  request_timer = new_timer_state;
  prepare_timer = new_timer_state;
}

-- StopAllTimers
unfoldable pub stop_all_timers : State → State
unfolding stop_any
stop_all_timers s = record s {
  request_timer = stop_any s.request_timer;
  prepare_timer = stop_any s.prepare_timer;
}

-- The map of a provider, in the order in which the clients were first asked for
abbrev pub States : Type 0
States = List (ℕ × State)

unfoldable pub find : ℕ → States → Option State
find id [] = none
find id (e ∷ l) = let rest = find id l in if e.0 == id then some e.1 else rest

-- ClientState, which makes the state if it is not there
unfoldable pub client_state : ℕ → States → States
unfolding new_client_state
client_state id [] = (id, new_client_state) ∷ []
client_state id (e ∷ l) = let rest = client_state id l in if e.0 == id then e ∷ l else e ∷ rest

-- A method that is called on the state that ClientState returned changes what the map points to.
unfoldable pub change : ℕ → (State → State) → States → States
change id f [] = []
change id f (e ∷ l) = let rest = change id f l in if e.0 == id then (e.0, f e.1) ∷ l else e ∷ rest

unfoldable pub call : ℕ → (State → State) → States → States
unfolding client_state change
call id f l = change id f (client_state id l)

unfoldable pub clients : States → List ℕ
clients [] = []
clients (e ∷ l) = e.0 ∷ clients l

-- Methods called one after the other, each on the state of a client
unfoldable pub run_calls : List (ℕ × (State → State)) → States → States
unfolding call
run_calls [] l = l
run_calls (c ∷ calls) l = run_calls calls (call c.0 c.1 l)

-- A state for every client: the new one where there is none in the map
abbrev pub state_or_new : Option State → State
state_or_new none = new_client_state
state_or_new (some s) = s

-- The calls on one client's state
abbrev pub calls_on : ℕ → List (ℕ × (State → State)) → State → State
calls_on id [] s = s
calls_on id (c ∷ calls) s = calls_on id calls (if c.0 == id then c.1 s else s)

abbrev pub contains : ℕ → List ℕ → Bool
contains id [] = false
contains id (c ∷ l) = if c == id then true else contains id l

abbrev pub is_called : ℕ → List (ℕ × (State → State)) → Bool
is_called id [] = false
is_called id (c ∷ calls) = if c.0 == id then true else is_called id calls

other_key : (k i j : ℕ) → (k == i) ≡ false → (k == j) ≡ true → (i == j) ≡ false
other_key k i j a b = elim (Bool-cases (i == j)) [
  | inl same ↦
      let at : i ≡ j = (==_iff i j).0 same in
      let no_way : true ≡ false = sym b ∙ ap (λ x. k == x) (sym at) ∙ a in cc
  | inr other ↦ other
]

call-nil : (i : ℕ) (f : State → State) → call i f [] ≡ (i, f new_client_state) ∷ []
unfolding call client_state change
call-nil i f = rw (==_refl i) refl

call-here :
    (i : ℕ) (f : State → State) (e : ℕ × State) (l : States)
    → (e.0 == i) ≡ true
    → call i f (e ∷ l) ≡ (e.0, f e.1) ∷ l
unfolding call client_state change
call-here i f e l here = rw (here, here) refl

call-there :
    (i : ℕ) (f : State → State) (e : ℕ × State) (l : States)
    → (e.0 == i) ≡ false
    → call i f (e ∷ l) ≡ e ∷ call i f l
unfolding call client_state change
call-there i f e l there = rw (there, there) refl

same_test : (k i j : ℕ) → (k == i) ≡ true → (i == j) ≡ (k == j)
same_test k i j here = ap (λ x. x == j) (sym ((==_iff k i).0 here))

find-call :
    (i j : ℕ) (f : State → State) (l : States)
    → state_or_new (find j (call i f l))
      ≡ (if i == j then f (state_or_new (find j l)) else state_or_new (find j l))
unfolding find
find-call i j f [] =
    rw (call-nil i f)
      (elim (Bool-cases (i == j)) [ inl same ↦ rw same refl | inr other ↦ rw other refl ])
find-call i j f (e ∷ l) = elim (Bool-cases (e.0 == i)) [
  | inl here ↦
      rw (call-here i f e l here, same_test e.0 i j here)
        (elim (Bool-cases (e.0 == j)) [ inl same ↦ rw same refl | inr other ↦ rw other refl ])
  | inr there ↦ rw (call-there i f e l there) (elim (Bool-cases (e.0 == j)) [
    | inl same ↦ rw (same, other_key e.0 i j there same) refl
    | inr other ↦ rw other (find-call i j f l)
  ])
]

find-run_calls :
    (id : ℕ) (calls : List (ℕ × (State → State))) (l : States)
    → state_or_new (find id (run_calls calls l)) ≡ calls_on id calls (state_or_new (find id l))
unfolding run_calls
find-run_calls id [] l = refl
find-run_calls id (c ∷ calls) l =
    find-run_calls id calls (call c.0 c.1 l) ∙ ap (calls_on id calls) (find-call c.0 id c.1 l)

-- A call adds the client that it is on, if it is not there.
contains-call :
    (i j : ℕ) (f : State → State) (l : States)
    → contains j (clients (call i f l)) ≡ (if i == j then true else contains j (clients l))
unfolding clients
contains-call i j f [] = rw (call-nil i f) refl
contains-call i j f (e ∷ l) = elim (Bool-cases (e.0 == i)) [
  | inl here ↦
      rw (call-here i f e l here, same_test e.0 i j here)
        (elim (Bool-cases (e.0 == j)) [ inl same ↦ rw same refl | inr other ↦ rw other refl ])
  | inr there ↦ rw (call-there i f e l there) (elim (Bool-cases (e.0 == j)) [
    | inl same ↦ rw (same, other_key e.0 i j there same) refl
    | inr other ↦ rw other (contains-call i j f l)
  ])
]

either_first :
    (b c d : Bool)
    → (if c then true else (if b then true else d)) ≡ (if (if b then true else c) then true else d)
either_first true true d = refl
either_first true false d = refl
either_first false c d = refl

or_false : (b : Bool) → (if b then true else false) ≡ b
or_false true = refl
or_false false = refl

contains-run_calls :
    (id : ℕ) (calls : List (ℕ × (State → State))) (l : States)
    → contains id (clients (run_calls calls l))
      ≡ (if is_called id calls then true else contains id (clients l))
unfolding run_calls
contains-run_calls id [] l = refl
contains-run_calls id (c ∷ calls) l =
    contains-run_calls id calls (call c.0 c.1 l)
    ∙ ap (λ x. if is_called id calls then true else x) (contains-call c.0 id c.1 l)
    ∙ either_first (c.0 == id) (is_called id calls) (contains id (clients l))

-- A provider is a map from all identifiers to states, each the new one at first: after any calls of
-- methods, each on the state that ClientState gives for some client, every client's state is what
-- the calls on that client make of the new one, and Clients has exactly the identifiers that were
-- asked for.
pub run_calls-refines :
    (calls : List (ℕ × (State → State))) (id : ℕ)
    → (state_or_new (find id (run_calls calls [])) ≡ calls_on id calls new_client_state)
      × (contains id (clients (run_calls calls [])) ≡ is_called id calls)
unfolding find clients
run_calls-refines calls id =
    (find-run_calls id calls [], contains-run_calls id calls [] ∙ or_false (is_called id calls))
