-- ===== src/ViewChange/Append.antt =====
-- core/view-change.go, validateMessageLog: a log that is accepted stays so when its replica's next
-- message is appended, and a transition starts one.
use mathlib.Core.List.{reverse, reverse-append, reverse-cons}
use minbft.Base.{
  ℕ, ◌-◌, ◌<◌, ◌≡◌, refl, true, false, none, some, List, [], ◌∷◌, ◌++◌, arith, ◌==◌, ltb, u64_mod,
  inc64,
}
use minbft.Base.Result.{ok}
use minbft.Messages.{
  Ui, ReqViewChange, CertifiedMessage, MessageLog, vc_message, log_list, replica_id, counter,
}
use minbft.ViewChange.{
  transition_view, is_empty, dec64, check_entry, check_log, validate_message_log, validate_vc_cert,
  validate_view_change,
}

dec64-inc64 : (x : ℕ) → x < u64_mod → dec64 (inc64 x) ≡ x
dec64-inc64 x h = omega (arith, h)

-- What is checked of the last message of a log.
check_log_last :
    (replica view next : ℕ) (m : CertifiedMessage) (l : List CertifiedMessage)
    → next < u64_mod
    → replica_id m ≡ replica
    → counter m ≡ next
    → check_entry view (is_empty l) next (transition_view m) ≡ ok tt
    → check_log replica view next l ≡ ok tt
    → check_log replica view (inc64 next) (m ∷ l) ≡ ok tt
unfolding check_log
check_log_last replica view next m l b own at entry rest =
    let same : (replica_id m == replica) ≡ true = ground (arith, own) in
    let follows : (inc64 (counter m) == inc64 next) ≡ true = ground (arith, at) in
    rw (same, follows, dec64-inc64 next b, entry, rest) refl

is_empty-reverse_cons :
    (x : CertifiedMessage) (l : List CertifiedMessage) → is_empty (reverse (x ∷ l)) ≡ false
is_empty-reverse_cons x l = rw (reverse-cons x l) (appended (reverse l))
  where
    appended : (k : List CertifiedMessage) → is_empty (k ++ x ∷ []) ≡ false
    appended [] = refl
    appended (y ∷ k) = refl

-- Before its first message a replica has an empty log.
pub validate_message_log-first : (replica : ℕ) → validate_message_log replica 0 [] (inc64 0) ≡ ok tt
unfolding validate_message_log check_log
validate_message_log-first replica = refl

pub validate_message_log-snoc :
    (replica view next : ℕ) (l : List CertifiedMessage) (m : CertifiedMessage)
    → next < u64_mod
    → replica_id m ≡ replica
    → counter m ≡ next
    → transition_view m ≡ none
    → validate_message_log replica view l next ≡ ok tt
    → validate_message_log replica view (l ++ m ∷ []) (inc64 next) ≡ ok tt
unfolding validate_message_log check_entry check_log
validate_message_log-snoc replica view next [] m b own at plain h =
    check_log_last replica view next m [] b own at (rw plain (ground (arith, h))) refl
validate_message_log-snoc replica view next (x ∷ l) m b own at plain h =
    rw (reverse-append (x ∷ l) (m ∷ [])) (
      check_log_last replica view next m (reverse (x ∷ l)) b own at
        (rw (is_empty-reverse_cons x l, plain) refl) h)

pub validate_message_log-transition :
    (replica view next : ℕ) (m : CertifiedMessage)
    → next < u64_mod
    → replica_id m ≡ replica
    → counter m ≡ next
    → transition_view m ≡ some view
    → validate_message_log replica view (m ∷ []) (inc64 next) ≡ ok tt
unfolding validate_message_log check_entry check_log
validate_message_log-transition replica view next m b own at opens =
    check_log_last replica view next m [] b own at (rw opens (ground arith)) refl

-- A ViewChange of which all parts are accepted.
pub validate_view_change_parts :
    (cert_size replica target : ℕ) (log : MessageLog) (cert : List ReqViewChange) (u : Ui)
    → ltb target 1 ≡ false
    → validate_vc_cert cert_size target cert ≡ ok tt
    → validate_message_log replica (target - 1) (log_list log) u.counter ≡ ok tt
    → validate_view_change cert_size (vc_message replica target log cert u) ≡ ok tt
unfolding validate_view_change
validate_view_change_parts cert_size replica target log cert u positive c l =
    rw (positive, c, l) refl
