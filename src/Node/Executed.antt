-- ===== src/Node/Executed.antt =====
-- core/request.go: the deliveries to the application, in their order. Each keeps its place, and no
-- request of a client is delivered twice.
use minbft.Base.{
  ℕ, ◌<◌, ◌≡◌, refl, ap, ◌∙◌, ◌⊎◌, inl, inr, some, List, [], ◌∷◌, ◌++◌, arith, length, Below,
}
use minbft.Messages.{Request}
use minbft.ClientState.Seq.{attempt_capture, retire_seq, prepare_seq}
use minbft.Replica.{Config, Replica, generate, generate_rvc}
use minbft.Replica.Requests.{
  prepare_request, execute_request, retire_request, unprepare_requests, unprepare_all,
  process_request, capture_request, release_request, apply_request, stop_request_timer,
  start_request_timer, stop_prepare_timer, start_prepare_timer,
}
use minbft.Replica.Commits.{collect_step}
use minbft.Replica.Views.{
  collect_rvc_step, collect_vc_step, advance_expected_view, advance_current_view,
}
use minbft.Replica.Keeps.{Preserves, Elementary}
use minbft.Replica.Changes.{operations}
use minbft.Replica.Embedded.{Advances}
use minbft.Replica.Run.{Event, on_event, on_event-Preserves}
use minbft.Replica.Once.{of_client}
use minbft.Node.{delivery}

-- `after` has been delivered after `before`.
abbrev pub Grown : List Request → List Request → Type 0
Grown before after = (more : List Request) × (after ≡ more ++ before)

Grown-same : {a b c : List Request} → c ≡ b → Grown a b → Grown a c
Grown-same e (k, p) = (k, e ∙ p)

execute_cases :
    (q : Request) (s : Replica)
    → ((execute_request q s).1.delivered ≡ s.delivered)
      ⊎ ((execute_request q s).1.delivered ≡ q ∷ s.delivered)
unfolding execute_request retire_request retire_seq stop_request_timer
execute_cases q s = ground arith

execute_request-Grown :
    (a : List Request) (q : Request) → Preserves (λ s. Grown a s.delivered) (execute_request q)
execute_request-Grown a q = record {
  keeps = λ s p. elim (execute_cases q s) [
    | inl same ↦ Grown-same same p
    | inr more ↦ (q ∷ p.0, more ∙ ap (λ l. q ∷ l) p.1)
  ];
}

prepare_request-delivered :
    (q : Request) (s : Replica) → (prepare_request q s).1.delivered ≡ s.delivered
unfolding prepare_request prepare_seq
prepare_request-delivered q s = ground arith

unprepare_all-delivered :
    (l : List Request) (s : Replica) → (unprepare_all l s).delivered ≡ s.delivered
unfolding unprepare_all
unprepare_all-delivered [] s = refl
unprepare_all-delivered (q ∷ l) s = unprepare_all-delivered l _

process_request-delivered :
    (cfg : Config) (q : Request) (s : Replica) → (process_request cfg q s).1.delivered ≡ s.delivered
unfolding process_request capture_request release_request apply_request attempt_capture
    start_request_timer start_prepare_timer generate
process_request-delivered cfg q s = ground arith

growing : (cfg : Config) (a : List Request) → Elementary cfg (λ s. Grown a s.delivered)
unfolding generate start_request_timer start_prepare_timer stop_prepare_timer unprepare_requests
    collect_step collect_rvc_step collect_vc_step advance_expected_view advance_current_view
growing cfg a = record {
  generated = λ m. record { keeps = λ s h. h };
  request_timer = λ q v. record { keeps = λ s h. h };
  prepare_timer = λ q v _. record { keeps = λ s h. h };
  prepare_timer_stop = λ q. record { keeps = λ s h. h };
  processed = λ q. record { keeps = λ s h. Grown-same (process_request-delivered cfg q s) h };
  prepared = λ q. record { keeps = λ s h. Grown-same (prepare_request-delivered q s) h };
  executed = execute_request-Grown a;
  unprepared = record { keeps = λ s h. Grown-same (unprepare_all-delivered s.prepared s) h };
  collected = λ c. record { keeps = λ s h. h };
  rvc_collected = λ rvc. record { keeps = λ s h. h };
  vc_collected = λ vc. record { keeps = λ s h. h };
  expected = λ v. record { keeps = λ s h. h };
  current = λ v. record { keeps = λ s h. h };
  vc_timer_stop = record { keeps = λ s h. h };
  change_started = λ v. record { keeps = λ s h. h };
  log_reset = record { keeps = λ s h. h };
}

growing_advances : (a : List Request) → Advances (λ s. Grown a s.delivered)
unfolding generate_rvc
growing_advances a = record {
  advanced = λ r c. record { keeps = λ s h. h };
  asked = λ v. record { keeps = λ s h. h };
  rvc_generated = λ cfg rvc. record { keeps = λ s h. h };
}

pub on_event-Grown :
    (cfg : Config) (e : Event) (s : Replica) → Grown s.delivered (on_event cfg e s).1.delivered
on_event-Grown cfg e s =
    (on_event-Preserves (operations (growing cfg s.delivered)) (growing_advances s.delivered)
        e).keeps
      s ([], refl)

pub delivery-lt : (l : List Request) (i : ℕ) {q : Request} → delivery l i ≡ some q → i < length l
unfolding delivery
delivery-lt [] i e = cc
delivery-lt (x ∷ l) i {q} e = ground (arith, delivery-lt l i {q = q})

pub delivery-append :
    (k l : List Request) (i : ℕ) {q : Request}
    → delivery l i ≡ some q
    → delivery (k ++ l) i ≡ some q
unfolding delivery
delivery-append [] l i e = e
delivery-append (x ∷ k) l i e =
    let later = delivery-append k l i e in
    let bound = delivery-lt (k ++ l) i later in ground (arith, later, bound)

-- Every delivered request of the client is below the bound.
delivery-Below :
    (l : List Request) (c b i : ℕ) {q : Request}
    → Below b (of_client c l)
    → delivery l i ≡ some q
    → q.client_id ≡ c
    → q.sequence < b
unfolding delivery
delivery-Below [] c b i h e k = cc
delivery-Below (x ∷ l) c b i {q} h e k =
    ground (arith, delivery-Below l c b i {q = q}, delivery-Below l c x.sequence i {q = q})

-- A request of the client that is not the last one delivered is before it.
pub delivery-injective :
    (l : List Request) (b i j : ℕ) {q p : Request}
    → Below b (of_client q.client_id l)
    → delivery l i ≡ some q
    → delivery l j ≡ some p
    → p.client_id ≡ q.client_id
    → p.sequence ≡ q.sequence
    → i ≡ j
unfolding delivery
delivery-injective [] b i j h e f c s = cc
delivery-injective (x ∷ l) b i j {q = q} {p = p} h e f c s = ground (
  arith,
  delivery-injective l b i j {q = q} {p = p},
  delivery-injective l x.sequence i j {q = q} {p = p},
  delivery-Below l q.client_id x.sequence i {q = q},
  delivery-Below l q.client_id x.sequence j {q = p},
)
