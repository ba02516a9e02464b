-- ===== src/Client/Collect.antt =====
-- client/request.go, collectReplies: the first result that more than `f` replies have. The map from
-- digests to counters of 32 bits is a function, and a digest is a number.
use minbft.Base.{
  ℕ, ◌+◌, ◌%◌, ◌^◌, ◌≤◌, ◌<◌, ◌≡◌, Option, none, some, List, [], ◌∷◌, arith, ltb, ◌==◌, update, bit,
  All, if◌then◌else◌, Bool-cases, inl, inr,
}
use minbft.Messages.{Reply}

unfoldable pub collect_replies : ℕ → (List ℕ → ℕ) → (ℕ → ℕ) → List Reply → Option (ℕ × List ℕ)
collect_replies f digest matching [] = none
collect_replies f digest matching (r ∷ l) =
    let count = (matching (digest r.result) + 1) % 2 ^ 32 in
    let rest = collect_replies f digest (update matching (digest r.result) count) l in
    if ltb f count then some (r.sequence, r.result) else rest

-- How many replies have a result with this digest.
abbrev pub tally : (List ℕ → ℕ) → ℕ → List Reply → ℕ
tally digest d [] = 0
tally digest d (r ∷ l) = bit (digest r.result == d) + tally digest d l

abbrev next_count : (ℕ → ℕ) → (List ℕ → ℕ) → Reply → ℕ
next_count matching digest r = (matching (digest r.result) + 1) % 2 ^ 32

found :
    (f : ℕ) (digest : List ℕ → ℕ) (matching : ℕ → ℕ) (l : List Reply) (seq : ℕ) (result : List ℕ)
    → collect_replies f digest matching l ≡ some (seq, result)
    → f < matching (digest result) + tally digest (digest result) l
unfolding collect_replies
found f digest matching [] seq result e = cc
found f digest matching (r ∷ l) seq result e =
    elim (Bool-cases (ltb f (next_count matching digest r))) [
      | inl t ↦ ground (arith, t)
      | inr t ↦ ground (
        arith,
        t,
        found f digest (update matching (digest r.result) (next_count matching digest r)) l seq
            result,
      )
    ]

missed :
    (f : ℕ) (digest : List ℕ → ℕ) (matching : ℕ → ℕ) (l : List Reply)
    → f + 1 < 2 ^ 32
    → ((d : ℕ) → matching d ≤ f)
    → collect_replies f digest matching l ≡ none
    → (d : ℕ) → matching d + tally digest d l ≤ f
unfolding collect_replies
missed f digest matching [] h k e d = omega (arith, k d)
missed f digest matching (r ∷ l) h k e d =
    elim (Bool-cases (ltb f (next_count matching digest r))) [
      | inl t ↦ ground (arith, t)
      | inr t ↦ ground (
        arith,
        t,
        k d,
        k (digest r.result),
        missed f digest (update matching (digest r.result) (next_count matching digest r)) l h
            (λ j. ground (arith, t, k j)) (ground (arith, t)) d,
      )
    ]

-- A result is sent only if more than `f` replies have its digest.
pub collect_replies_found :
    (f : ℕ) (digest : List ℕ → ℕ) (l : List Reply) (seq : ℕ) (result : List ℕ)
    → collect_replies f digest (λ _. 0) l ≡ some (seq, result)
    → f < tally digest (digest result) l
collect_replies_found f digest l seq result e =
    omega (arith, found f digest (λ _. 0) l seq result e)

-- For a number of faults whose successor fits into 32 bits, the replies that were received leave the
-- client without a result only if no digest has more than `f` of them.
pub collect_replies-none :
    (f : ℕ) (digest : List ℕ → ℕ) (l : List Reply) (d : ℕ)
    → f + 1 < 2 ^ 32
    → collect_replies f digest (λ _. 0) l ≡ none
    → tally digest d l ≤ f
collect_replies-none f digest l d h e =
    omega (arith, missed f digest (λ _. 0) l h (λ j. omega arith) e d)

-- The sequence number sent with a result is that of one of the replies.
pub collect_replies_seq :
    (f : ℕ) (digest : List ℕ → ℕ) (matching : ℕ → ℕ) (l : List Reply) (n seq : ℕ) (result : List ℕ)
    → All (λ r. r.sequence ≡ n) l
    → collect_replies f digest matching l ≡ some (seq, result)
    → seq ≡ n
unfolding collect_replies
collect_replies_seq f digest matching [] n seq result all e = cc
collect_replies_seq f digest matching (r ∷ l) n seq result all e = ground (
  arith,
  all,
  collect_replies_seq f digest (update matching (digest r.result) (next_count matching digest r)) l
      n seq result,
)
