-- ===== src/ViewChange/Log.antt =====
-- What a valid message log is: all of one replica, with consecutive counters up to the ViewChange
-- message, from the transition into the view on, or from the very first message in the first view.
use mathlib.Core.List.{reverse, reverse-cons, reverse-reverse}
use minbft.Base.{
  ℕ, ◌+◌, ◌<◌, ◌≡◌, ◌↔◌, ◌⊎◌, refl, sym, subst, inl, inr, Bool, true, false, not, none, some, List,
  [], ◌∷◌, ◌++◌, arith, ◌==◌, All, All-append, u64_mod, inc64, Option-cases,
}
use minbft.Base.Result.{ok, fail_if, >>=-eq-ok}
use minbft.Messages.{CertifiedMessage, replica_id, counter}
use minbft.ViewChange.{
  transition_view, is_empty, dec64, check_entry, check_log, validate_message_log,
}

-- The UI of the message has a counter that verification lets through.
abbrev pub HasCounter : CertifiedMessage → Type 0
HasCounter m = (0 < counter m) × (counter m < u64_mod)

-- Messages of the replica with counters from `c` on, none of them a transition, before `next`.
abbrev pub Follows : ℕ → ℕ → List CertifiedMessage → ℕ → Type 0
Follows replica c [] next = c ≡ next
Follows replica c (m ∷ l) next =
    (replica_id m ≡ replica)
    × (counter m ≡ c)
    × (transition_view m ≡ none)
    × Follows replica (c + 1) l next

-- The first message of a log for `view`.
abbrev pub Opens : ℕ → CertifiedMessage → Type 0
Opens view m =
    (transition_view m ≡ some view) ⊎ ((transition_view m ≡ none) × (view ≡ 0) × (counter m ≡ 1))

abbrev pub IsLog : ℕ → ℕ → List CertifiedMessage → ℕ → Type 0
IsLog replica view [] next = (view ≡ 0) × (next ≡ 1)
IsLog replica view (m ∷ l) next =
    (replica_id m ≡ replica) × Opens view m × Follows replica (counter m + 1) l next

-- The same, read from the end.
abbrev Entry : ℕ → CertifiedMessage → Bool → Type 0
Entry view m true = Opens view m
Entry view m false = transition_view m ≡ none

abbrev Reads : ℕ → ℕ → ℕ → List CertifiedMessage → Type 0
Reads replica view next [] = Unit {0}
Reads replica view next (m ∷ l) =
    (replica_id m ≡ replica)
    × (counter m + 1 ≡ next)
    × Entry view m (is_empty l)
    × Reads replica view (counter m) l

check_entry_iff :
    (view : ℕ) (m : CertifiedMessage) (first : Bool)
    → (check_entry view first (counter m) (transition_view m) ≡ ok tt) ↔ Entry view m first
unfolding check_entry
check_entry_iff view m true = elim (Option-cases (transition_view m)) [
  | inl e ↦ ground (arith, e)
  | inr (v, e) ↦ ground (arith, e)
]
check_entry_iff view m false = elim (Option-cases (transition_view m)) [
  | inl e ↦ ground (arith, e)
  | inr (v, e) ↦ ground (arith, e)
]

check_log-Reads :
    (replica view next : ℕ) (l : List CertifiedMessage)
    → 0 < next
    → next < u64_mod
    → All HasCounter l
    → check_log replica view next l ≡ ok tt
    → Reads replica view next l
unfolding check_log
check_log-Reads replica view next [] p b h e = tt
check_log-Reads replica view next (m ∷ l) p b h e =
    let (_, own, e₁) = >>=-eq-ok (fail_if (not (replica_id m == replica)) _) _ e in
    let (_, follows, e₂) = >>=-eq-ok (fail_if (not (inc64 (counter m) == next)) _) _ e₁ in
    let (_, entry, e₃) =
      >>=-eq-ok (check_entry view (is_empty l) (dec64 next) (transition_view m)) _ e₂ in
    let c : counter m + 1 ≡ next = ground (arith, follows, h.0) in
    let d : dec64 next ≡ counter m = omega (arith, h.0) in
    (
      ground (arith, own),
      c,
      (check_entry_iff view m (is_empty l)).0
          (subst (λ x. check_entry view (is_empty l) x (transition_view m) ≡ ok tt) d entry),
      check_log-Reads replica view (counter m) l h.0.0 h.0.1 h.1
          (subst (λ x. check_log replica view x l ≡ ok tt) d e₃),
    )

Reads-check_log :
    (replica view next : ℕ) (l : List CertifiedMessage)
    → next < u64_mod
    → All HasCounter l
    → Reads replica view next l
    → check_log replica view next l ≡ ok tt
unfolding check_log
Reads-check_log replica view next [] b h r = refl
Reads-check_log replica view next (m ∷ l) b h (own, follows, entry, rest) =
    let d : dec64 next ≡ counter m = omega (arith, h.0) in
    rw d (
      ground (
        arith,
        h.0,
        (check_entry_iff view m (is_empty l)).1 entry,
        Reads-check_log replica view (counter m) l h.0.1 h.1 rest,
      ))

Follows-snoc :
    (replica c next : ℕ) (l : List CertifiedMessage) (m : CertifiedMessage)
    → Follows replica c (l ++ m ∷ []) next ↔ (
        Follows replica c l (counter m)
        × (replica_id m ≡ replica)
        × (transition_view m ≡ none)
        × (counter m + 1 ≡ next))
Follows-snoc replica c next [] m = (
  (λ (own, at, plain, e). (sym at, own, plain, omega arith)),
  (λ (at, own, plain, e). (own, sym at, plain, omega arith)),
)
Follows-snoc replica c next (x ∷ l) m =
    let (to, from) = Follows-snoc replica (c + 1) next l m in
    (
      (λ (own, at, plain, rest). let (a, b, d, e) = to rest in ((own, at, plain, a), b, d, e)),
      (λ (h, b, d, e). (h.0, h.1, h.2, from (h.3, b, d, e))),
    )

is_empty_snoc : (r : List CertifiedMessage) (m : CertifiedMessage) → is_empty (r ++ m ∷ []) ≡ false
is_empty_snoc [] m = refl
is_empty_snoc (x ∷ r) m = refl

abbrev Forward : ℕ → ℕ → ℕ → List CertifiedMessage → CertifiedMessage → Type 0
Forward replica view next r m =
    (replica_id m ≡ replica) × Opens view m × Follows replica (counter m + 1) (reverse r) next

Reads-cons :
    (replica view next : ℕ) (x : CertifiedMessage) (r : List CertifiedMessage)
    (m : CertifiedMessage)
    → Reads replica view (counter x) (r ++ m ∷ []) ↔ Forward replica view (counter x) r m
    → Reads replica view next (x ∷ (r ++ m ∷ [])) ↔ Forward replica view next (x ∷ r) m
Reads-cons replica view next x r m ih = (to, from)
  where
    turn : Follows replica (counter m + 1) (reverse (x ∷ r)) next ↔ (
        Follows replica (counter m + 1) (reverse r) (counter x)
        × (replica_id x ≡ replica)
        × (transition_view x ≡ none)
        × (counter x + 1 ≡ next))
    turn = rw (reverse-cons x r) (Follows-snoc replica (counter m + 1) next (reverse r) x)

    to : Reads replica view next (x ∷ (r ++ m ∷ [])) → Forward replica view next (x ∷ r) m
    to (own, e, entry, rest) =
        let (a, b, c) = ih.0 rest in
        (a, b, turn.1 (c, own, subst (Entry view x) (is_empty_snoc r m) entry, e))

    from : Forward replica view next (x ∷ r) m → Reads replica view next (x ∷ (r ++ m ∷ []))
    from (a, b, f) =
        let (c, own, plain, e) = turn.0 f in
        (own, e, subst (Entry view x) (sym (is_empty_snoc r m)) plain, ih.1 (a, b, c))

Reads-snoc :
    (replica view next : ℕ) (r : List CertifiedMessage) (m : CertifiedMessage)
    → Reads replica view next (r ++ m ∷ []) ↔ Forward replica view next r m
Reads-snoc replica view next [] m =
    ((λ (own, e, o, _). (own, o, e)), (λ (own, o, e). (own, e, o, tt)))
Reads-snoc replica view next (x ∷ r) m =
    Reads-cons replica view next x r m (Reads-snoc replica view (counter x) r m)

All-reverse : (l : List CertifiedMessage) → All HasCounter l → All HasCounter (reverse l)
All-reverse [] h = tt
All-reverse (x ∷ l) h =
    rw (reverse-cons x l) (All-append HasCounter (reverse l) (x ∷ []) (All-reverse l h.1) (h.0, tt))

Reads-IsLog :
    (replica view next : ℕ) (m : CertifiedMessage) (l : List CertifiedMessage)
    → Reads replica view next (reverse (m ∷ l)) ↔ IsLog replica view (m ∷ l) next
Reads-IsLog replica view next m l = rw (reverse-cons m l) (
    subst
      (λ k.
        Reads replica view next (reverse l ++ m ∷ [])
        ↔ ((replica_id m ≡ replica) × Opens view m × Follows replica (counter m + 1) k next))
      (reverse-reverse l) (Reads-snoc replica view next (reverse l) m))

-- For a log and a ViewChange message whose counters are those of verified UIs, the log is accepted
-- exactly if all its messages are the replica's, their counters are consecutive and end right before
-- the ViewChange message, and it begins, and only begins, with the transition into the view: in the
-- first view without one, but then with the replica's first message, or empty before that message.
pub validate_message_log_iff :
    (replica view next : ℕ) (log : List CertifiedMessage)
    → 0 < next
    → next < u64_mod
    → All HasCounter log
    → (validate_message_log replica view log next ≡ ok tt) ↔ IsLog replica view log next
unfolding validate_message_log check_log
validate_message_log_iff replica view next [] p b h =
    ((λ e. ground arith), (λ (first, one). ground arith))
validate_message_log_iff replica view next (m ∷ l) p b h =
    let hr = All-reverse (m ∷ l) h in
    (
      (λ e.
          (Reads-IsLog replica view next m l).0
            (check_log-Reads replica view next (reverse (m ∷ l)) p b hr e)),
      (λ k.
          Reads-check_log replica view next (reverse (m ∷ l)) b hr
            ((Reads-IsLog replica view next m l).1 k)),
    )
