-- ===== src/Replica/Entries.antt =====
-- core/view-change.go: how the log that a replica keeps grows and starts anew.
use minbft.Base.{
  ℕ, ◌+◌, ◌-◌, ◌<◌, ◌≡◌, ◌⊎◌, refl, ap, false, none, some, List, [], ◌∷◌, ◌++◌, ltb, inc64, u64_mod,
  arith, All, All-append,
}
use minbft.Base.Result.{ok}
use minbft.Messages.{
  Ui, ReqViewChange, Message, hello, request, reply, req_view_change, certified, CertifiedMessage,
  prepare, commit, view_change, new_view, vc_message, log_list, log_of, replica_id, counter,
}
use minbft.ViewChange.{
  transition_view, validate_vc_cert, validate_message_log, validate_view_change, RvcCollector,
}
use minbft.ViewChange.Append.{
  validate_message_log-snoc, validate_message_log-transition, validate_view_change_parts,
}
use minbft.ViewChange.Collect.{RvcInv}
use minbft.Replica.{Config, Replica}
use minbft.Replica.Views.{certified_messages}

-- A ViewChange is one that the validator accepts.
abbrev pub Acceptable : Config → CertifiedMessage → Type 0
Acceptable cfg (view_change vc) = validate_view_change cfg.vc_cert_size vc ≡ ok tt
Acceptable cfg (prepare r v q u) = Unit {0}
Acceptable cfg (commit r p u) = Unit {0}
Acceptable cfg (new_view r v c u) = Unit {0}

pub record OwnLog (cfg : Config) (expected : ℕ) (log : List Message) (usig : ℕ)
    (rvcs : RvcCollector) : Type 0 where
  pub accepted : validate_message_log cfg.id expected (certified_messages log) (inc64 usig) ≡ ok tt
  pub changes : All (Acceptable cfg) (certified_messages log)
  pub bounded : expected < u64_mod
  pub agreed : (rvcs.view ≡ expected) ⊎ (expected ≡ u64_mod - 1)
  pub collecting : RvcInv cfg.vc_cert_size rvcs

abbrev pub Keeping : Config → Replica → Type 0
Keeping cfg s = OwnLog cfg s.view.expected_view s.log s.usig s.rvcs

certified_messages-snoc :
    (l : List Message) (m : CertifiedMessage)
    → certified_messages (l ++ certified m ∷ []) ≡ certified_messages l ++ m ∷ []
unfolding certified_messages
certified_messages-snoc [] m = refl
certified_messages-snoc (hello r ∷ l) m = certified_messages-snoc l m
certified_messages-snoc (request q ∷ l) m = certified_messages-snoc l m
certified_messages-snoc (reply r ∷ l) m = certified_messages-snoc l m
certified_messages-snoc (req_view_change r ∷ l) m = certified_messages-snoc l m
certified_messages-snoc (certified k ∷ l) m = ap (λ t. k ∷ t) (certified_messages-snoc l m)

pub certified_messages-snoc_rvc :
    (l : List Message) (m : ReqViewChange)
    → certified_messages (l ++ req_view_change m ∷ []) ≡ certified_messages l
unfolding certified_messages
certified_messages-snoc_rvc [] m = refl
certified_messages-snoc_rvc (hello r ∷ l) m = certified_messages-snoc_rvc l m
certified_messages-snoc_rvc (request q ∷ l) m = certified_messages-snoc_rvc l m
certified_messages-snoc_rvc (reply r ∷ l) m = certified_messages-snoc_rvc l m
certified_messages-snoc_rvc (req_view_change r ∷ l) m = certified_messages-snoc_rvc l m
certified_messages-snoc_rvc (certified k ∷ l) m = ap (λ t. k ∷ t) (certified_messages-snoc_rvc l m)

log_list-log_of : (l : List CertifiedMessage) → log_list (log_of l) ≡ l
unfolding log_list log_of
log_list-log_of [] = refl
log_list-log_of (m ∷ l) = ap (λ t. m ∷ t) (log_list-log_of l)

plain-Acceptable :
    (cfg : Config) (m : CertifiedMessage) → transition_view m ≡ none → Acceptable cfg m
plain-Acceptable cfg (prepare r v q u) e = tt
plain-Acceptable cfg (commit r p u) e = tt
plain-Acceptable cfg (new_view r v c u) e = tt
plain-Acceptable cfg (view_change vc) e = cc

inc64_bound : (x : ℕ) → inc64 x < u64_mod
inc64_bound x = omega arith

module _ (cfg : Config) where
  -- A Prepare or Commit of the replica with the next counter.
  pub appended :
      (expected usig : ℕ) (log : List Message) (rvcs : RvcCollector) (m : CertifiedMessage)
      → replica_id m ≡ cfg.id
      → counter m ≡ inc64 usig
      → transition_view m ≡ none
      → OwnLog cfg expected log usig rvcs
      → OwnLog cfg expected (log ++ certified m ∷ []) (inc64 usig) rvcs
  appended expected usig log rvcs m own at plain h = record {
    accepted = rw (certified_messages-snoc log m) (
        validate_message_log-snoc cfg.id expected (inc64 usig) (certified_messages log) m
          (inc64_bound usig) own at plain h.accepted);
    changes = rw (certified_messages-snoc log m) (
        All-append (Acceptable cfg) (certified_messages log) (m ∷ []) h.changes
          (plain-Acceptable cfg m plain, tt));
    bounded = h.bounded;
    agreed = h.agreed;
    collecting = h.collecting;
  }

  -- A transition into the expected view, in a log that was reset.
  pub started :
      (expected usig : ℕ) (rvcs : RvcCollector) (m : CertifiedMessage)
      → replica_id m ≡ cfg.id
      → counter m ≡ inc64 usig
      → transition_view m ≡ some expected
      → Acceptable cfg m
      → expected < u64_mod
      → (rvcs.view ≡ expected) ⊎ (expected ≡ u64_mod - 1)
      → RvcInv cfg.vc_cert_size rvcs
      → OwnLog cfg expected (certified m ∷ []) (inc64 usig) rvcs
  unfolding certified_messages
  started expected usig rvcs m own at opens valid bound agree inv = record {
    accepted =
        validate_message_log-transition cfg.id expected (inc64 usig) m (inc64_bound usig) own at
          opens;
    changes = (valid, tt);
    bounded = bound;
    agreed = agree;
    collecting = inv;
  }

  -- The next view of a collector that is at the expected view of its replica.
  pub next_view :
      (collected expected target : ℕ)
      → (collected ≡ expected) ⊎ (expected ≡ u64_mod - 1)
      → expected < u64_mod
      → target ≡ inc64 collected
      → (target ≡ expected + 1) ⊎ (expected ≡ u64_mod - 1)
  next_view collected expected target a b e = ground arith

  -- The ViewChange that is generated with an accepted log and certificate.
  pub change-Acceptable :
      (expected target usig : ℕ) (msgs : List CertifiedMessage) (cert : List ReqViewChange) (u : Ui)
      → target ≡ expected + 1
      → u.counter ≡ inc64 usig
      → validate_message_log cfg.id expected msgs (inc64 usig) ≡ ok tt
      → validate_vc_cert cfg.vc_cert_size target cert ≡ ok tt
      → validate_view_change cfg.vc_cert_size (vc_message cfg.id target (log_of msgs) cert u)
        ≡ ok tt
  change-Acceptable expected target usig msgs cert u e c h k =
      let positive : ltb target 1 ≡ false = ground (arith, e) in
      let before : target - 1 ≡ expected = omega (arith, e) in
      validate_view_change_parts cfg.vc_cert_size cfg.id target (log_of msgs) cert u positive k
        (rw (before, log_list-log_of msgs, c) h)
