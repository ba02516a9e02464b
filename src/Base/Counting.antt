-- ===== src/Base/Counting.antt =====
-- How many of the first `n` identifiers pass a test; replica identifiers are `0 .. n - 1`.
use Prim.Native.Nat.{ℕ, zero, suc, ◌+◌, ◌≤◌, ◌<◌}
use mathlib.Core.Path.{◌≡◌, refl}
use mathlib.Core.Bool.{Bool, true, false, ◌&&◌}
use mathlib.Core.Logic.{inl, inr}
use minbft.Base.Tests.{Bool-cases}
use native.Mathlib.Decide.{dec_lt}
use native.Mathlib.Omega.{arith}
use mathlib.Core.Logic.{◌≢◌}

abbrev pub bit : Bool → ℕ
bit true = 1
bit false = 0

unfoldable pub count_below : ℕ → (ℕ → Bool) → ℕ
count_below zero p = 0
count_below (suc n) p = count_below n p + bit (p n)

pub count_below_mono :
    (n : ℕ) (p q : ℕ → Bool)
    → ((i : ℕ) → p i ≡ true → q i ≡ true)
    → count_below n p ≤ count_below n q
unfolding count_below
count_below_mono zero p q h = omega arith
count_below_mono (suc n) p q h = ground (arith, h n, count_below_mono n p q h)

pub count_below-le : (n : ℕ) (p : ℕ → Bool) → count_below n p ≤ n
unfolding count_below
count_below-le zero p = omega arith
count_below-le (suc n) p = ground (arith, count_below-le n p)

pub count_below-zero : (n : ℕ) (p : ℕ → Bool) → ((i : ℕ) → p i ≡ false) → count_below n p ≡ 0
unfolding count_below
count_below-zero zero p h = refl
count_below-zero (suc n) p h = ground (arith, h n, count_below-zero n p h)

pub count_below-congr :
    (n : ℕ) (p q : ℕ → Bool) → ((i : ℕ) → i < n → p i ≡ q i) → count_below n p ≡ count_below n q
unfolding count_below
count_below-congr zero p q h = refl
count_below-congr (suc n) p q h =
    ground (arith, h n, count_below-congr n p q (λ i l. h i (omega arith)))

-- A change of the test at one identifier changes the count by that identifier's part.
pub count_below-change :
    (n : ℕ) (p q : ℕ → Bool) (r : ℕ)
    → r < n
    → ((i : ℕ) → i ≢ r → p i ≡ q i)
    → count_below n q + bit (p r) ≡ count_below n p + bit (q r)
unfolding count_below
count_below-change zero p q r l h = absurd (omega arith)
count_below-change (suc n) p q r l h = elim (dec_lt r n) [
  | yes below ↦ ground (arith, h n, count_below-change n p q r below h)
  | no last ↦ ground (arith, count_below-congr n p q (λ i k. h i (omega arith)))
]

-- Two sets of more than `n` members together have one in common.
pub pigeonhole :
    (n : ℕ) (p q : ℕ → Bool)
    → n < count_below n p + count_below n q
    → (r : ℕ) × (r < n) × (p r ≡ true) × (q r ≡ true)
unfolding count_below
pigeonhole zero p q h = absurd (omega arith)
pigeonhole (suc n) p q h = elim (Bool-cases (p n && q n)) [
  | inl both ↦ (n, omega arith, ground arith, ground arith)
  | inr one ↦ let (r, l, a, b) = pigeonhole n p q (ground arith) in (r, omega arith, a, b)
]
