-- ===== src/Commitment/Agree.antt =====
-- Collectors decide the proposals of a view in the primary's order, so that any two of them agree.
use minbft.Base.{
  ℕ, zero, suc, ◌+◌, ◌≤◌, ◌≡◌, refl, sym, ap, ◌∙◌, List, [], ◌∷◌, arith, length, take, All,
  count_below-zero, length-append, take-length, take-append,
}
use native.Mathlib.Decide.{ℕ_discrete}
use minbft.Commitment.{Commitment, new_collector}
use minbft.Commitment.Support.{IsValid}
use minbft.Commitment.History.{Agrees}
use minbft.Commitment.Decides.{new-Tracks}
use minbft.Commitment.Decisions.{decided, count_up, first_cv}
use minbft.Commitment.Advance.{run-InOrder}

count_up_none : (b : ℕ) → count_up b 0 ≡ []
unfolding count_up
count_up_none b = refl

length-count_up : (b k : ℕ) → length (count_up b k) ≡ k
unfolding count_up
length-count_up b zero = refl
length-count_up b (suc k) =
    omega (arith, length-append (count_up b k) ((b + k) ∷ []), length-count_up b k)

-- Let every view have a single NewView, the first one none, and let the commitments be those of valid
-- messages. In whatever order those of different replicas are collected, the collector decides the
-- proposals of each view one after the other by the primary's counter, from the view's first one on:
-- before the first report of a proposal each one before it has been reported.
pub decided-count_up :
    (base : ℕ → ℕ) (n cert_size view : ℕ) (cs : List Commitment)
    → 1 ≤ cert_size
    → base 0 ≡ 0
    → All (IsValid n) cs
    → All (Agrees base) cs
    → decided view (new_collector cert_size) [] cs
      ≡ count_up (first_cv base view) (length (decided view (new_collector cert_size) [] cs))
decided-count_up base n cert_size view cs pos start valid agrees =
    let (k, e) =
      run-InOrder base n cert_size view (new_collector cert_size) [] [] cs
        (new-Tracks base n cert_size pos start)
        (record {
          size = 0;
          row = sym (count_up_none (first_cv base view));
          ahead = λ l. refl;
          reached = λ e x low q. absurd (omega (arith, pos, q, count_below-zero n _ (λ r. refl)));
        })
        valid agrees in
    e ∙ ap (count_up (first_cv base view)) (sym (ap length e ∙ length-count_up _ k))

take-count_up : (b j k : ℕ) → j ≤ k → take j (count_up b k) ≡ count_up b j
unfolding count_up
take-count_up b j zero l = let e : j ≡ 0 = omega arith in rw e refl
take-count_up b j (suc k) l = elim (ℕ_discrete j (suc k)) [
  | yes e ↦ rw e (
      ap (λ m. take m (count_up b (suc k))) (sym (length-count_up b (suc k)))
      ∙ take-length (count_up b (suc k)))
  | no ne ↦
      take-append j (count_up b k) ((b + k) ∷ []) (omega (arith, length-count_up b k))
      ∙ take-count_up b j k (omega arith)
]

-- Let every view have a single NewView, the first one none. Whatever valid commitments two replicas
-- collect, and in whatever orders, in each view the one that has decided fewer proposals has decided
-- the first of those that the other has, in the same order.
pub decided_agree :
    (base : ℕ → ℕ) (n cert_size view : ℕ) (cs ds : List Commitment)
    → 1 ≤ cert_size
    → base 0 ≡ 0
    → All (IsValid n) cs
    → All (Agrees base) cs
    → All (IsValid n) ds
    → All (Agrees base) ds
    → length (decided view (new_collector cert_size) [] cs)
      ≤ length (decided view (new_collector cert_size) [] ds)
    → decided view (new_collector cert_size) [] cs
      ≡ take
          (length (decided view (new_collector cert_size) [] cs))
          (decided view (new_collector cert_size) [] ds)
decided_agree base n cert_size view cs ds pos start valid_cs agrees_cs valid_ds agrees_ds l =
    let a = decided-count_up base n cert_size view cs pos start valid_cs agrees_cs in
    let b = decided-count_up base n cert_size view ds pos start valid_ds agrees_ds in
    let size = length (decided view (new_collector cert_size) [] cs) in
    a
    ∙ sym (
        take-count_up (first_cv base view) size
          (length (decided view (new_collector cert_size) [] ds)) l)
    ∙ ap (take size) (sym b)
