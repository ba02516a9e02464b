-- ===== src/Replica.antt =====
-- The state of one replica that the message handlers of core/message-handling.go share, and the
-- monad of a handler: a Go function that returns an error keeps the changes made before it.
pub mod Requests
pub mod Commits
pub mod Views
pub mod Validate
pub mod Process
pub mod Keeps
pub mod Changes
pub mod Entries
pub mod Setup
pub mod Starts
pub mod OwnLog
pub mod Handlers
pub mod Embedded
pub mod Run
pub mod Once
pub mod Order
pub mod Tests
use minbft.Base.{ℕ, ◌+◌, Bool, true, false, Option, none, List, [], ◌∷◌, ◌++◌, update, inc64}
use minbft.Base.Result.{Error, Result, ok, err, panic}
use minbft.Messages.{
  Ui, Request, Reply, ReqViewChange, Message, CertifiedMessage, prepare, commit, view_change,
  new_view, ViewChange, vc_message, certified, reply, req_view_change,
}
use minbft.ClientState.Seq.{SeqState, new_seq_state}
use minbft.ViewState.{ViewState, new_view_state}
use minbft.Commitment.{Collector, new_collector}
use minbft.ViewChange.{RvcCollector, new_rvc_collector, VcCollector, new_vc_collector}

-- `id`, `config.N()`, the two certificate sizes, and what lies outside of the core: whether the
-- application's authenticator accepts a tag, the certificate of the local USIG, and signatures.
pub record Config : Type 0 where
  pub id : ℕ
  pub n : ℕ
  pub commit_cert_size : ℕ
  pub vc_cert_size : ℕ
  pub verify_usig : CertifiedMessage → Bool
  pub verify_request : Request → Bool
  pub verify_rvc : ReqViewChange → Bool
  pub usig_cert : ℕ → CertifiedMessage → List ℕ
  pub sign_rvc : ReqViewChange → List ℕ

-- A client's timer: the identifier that it was started for, and whether it is running; `request` and
-- `view` are what the function called on its expiration captures.
pub record Timer : Type 0 where
  pub seq : ℕ
  pub running : Bool
  pub view : ℕ
  pub request : Option Request

abbrev pub new_timer : Timer
new_timer = record { seq = 0; running = false; view = 0; request = none }

-- `vc_timer` is the view that a running view-change timer was started for, `requested` the last view
-- that this replica asked for. Maps that are filled with zero values on demand are functions; `usig` is the counter of the local
-- trusted component, and `delivered` the requests handed to the application, the newest first.
pub record Replica : Type 0 where
  pub seqs : ℕ → SeqState
  pub request_timers : ℕ → Timer
  pub prepare_timers : ℕ → Timer
  pub vc_timer : Option ℕ
  pub requested : ℕ
  pub pending : List Request
  pub prepared : List Request
  pub view : ViewState
  pub log : List Message
  pub collector : Collector
  pub last_ui : ℕ → ℕ
  pub rvcs : RvcCollector
  pub vcs : VcCollector
  pub usig : ℕ
  pub delivered : List Request

abbrev pub new_replica : Config → Replica
new_replica cfg = record {
  seqs = λ _. new_seq_state;
  request_timers = λ _. new_timer;
  prepare_timers = λ _. new_timer;
  vc_timer = none;
  requested = 0;
  pending = [];
  prepared = [];
  view = new_view_state;
  log = [];
  collector = new_collector cfg.commit_cert_size;
  last_ui = λ _. 0;
  rvcs = new_rvc_collector;
  vcs = new_vc_collector;
  usig = 0;
  delivered = [];
}

abbrev pub M : Type 0 → Type 0
M A = Replica → Result A × Replica

infixl 5 ◌>>=◌ ◌>>◌
abbrev pub ◌>>=◌ : {A B : Type 0} → M A → (A → M B) → M B
◌>>=◌ m f s = let (r, t) = m s in elim r [ ok a ↦ f a t | err e ↦ (err e, t) | panic ↦ (panic, t) ]

abbrev pub ◌>>◌ : {B : Type 0} → M (Unit {0}) → M B → M B
m >> k = m >>= λ _. k

abbrev pub return : {A : Type 0} → A → M A
return a s = (ok a, s)

abbrev pub lift : {A : Type 0} → Result A → M A
lift r s = (r, s)

abbrev pub gets : {A : Type 0} → (Replica → A) → M A
gets f s = (ok (f s), s)

abbrev pub modify : (Replica → Replica) → M (Unit {0})
modify f s = (ok tt, f s)

abbrev pub wrap : {A : Type 0} → (Error → Error) → M A → M A
wrap w m s =
    let (r, t) = m s in elim r [ ok a ↦ (ok a, t) | err e ↦ (err (w e), t) | panic ↦ (panic, t) ]

-- `SetUI`, with the UI of the local USIG: it increments its counter and certifies the message.
unfoldable pub set_ui : Ui → CertifiedMessage → CertifiedMessage
set_ui u (prepare r v q _) = prepare r v q u
set_ui u (commit r p _) = commit r p u
set_ui u (view_change (vc_message r v l c _)) = view_change (vc_message r v l c u)
set_ui u (new_view r v c _) = new_view r v c u

-- makeGeneratedMessageHandler with makeGeneratedMessageConsumer, for a certified message
unfoldable pub generate : Config → CertifiedMessage → M (Unit {0})
unfolding set_ui
generate cfg m = modify λ s.
    let c = inc64 s.usig in
    record s {
      usig = c;
      log = s.log ++ certified (set_ui (record { counter = c; cert = cfg.usig_cert c m }) m) ∷ [];
    }

-- The same for a ReqViewChange, which is signed.
unfoldable pub generate_rvc : Config → ReqViewChange → M (Unit {0})
generate_rvc cfg m =
    modify λ s. record s {
      log = s.log ++ req_view_change (record m { signature = cfg.sign_rvc m }) ∷ [];
    }

-- A message that is not yet certified.
abbrev pub no_ui : Ui
no_ui = record { counter = 0; cert = [] }
