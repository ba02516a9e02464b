-- ===== src/Base/Lists.antt =====
-- Lists measured and cut by native numbers, under the library's names, and predicates over lists.
use Prim.Native.Nat.{ℕ, zero, suc, ◌+◌, ◌≤◌, ◌<◌}
use mathlib.Core.Path.{◌≡◌, refl, ap, ap₂}
use mathlib.Core.List.{List, [], ◌∷◌, ◌++◌}
use mathlib.Core.Option.{Option, none, some}
use mathlib.Core.Logic.{◌⊎◌}
use native.Mathlib.Omega.{arith}
use minbft.Base.Tests.{◌==◌, if◌then◌else◌}

module _ {ℓ} {A : Type ℓ} where
  abbrev pub length : List A → ℕ
  length [] = 0
  length (x ∷ xs) = suc (length xs)

  abbrev pub get_elem? : List A → ℕ → Option A
  get_elem? [] i = none
  get_elem? (x ∷ xs) zero = some x
  get_elem? (x ∷ xs) (suc i) = get_elem? xs i

  abbrev pub take : ℕ → List A → List A
  take zero xs = []
  take (suc n) [] = []
  take (suc n) (x ∷ xs) = x ∷ take n xs

  abbrev pub drop : ℕ → List A → List A
  drop zero xs = xs
  drop (suc n) [] = []
  drop (suc n) (x ∷ xs) = drop n xs

  abbrev pub replicate : ℕ → A → List A
  replicate zero a = []
  replicate (suc n) a = a ∷ replicate n a

  pub length-append : (xs ys : List A) → length (xs ++ ys) ≡ length xs + length ys
  length-append [] ys = omega arith
  length-append (x ∷ xs) ys = omega (arith, length-append xs ys)

  pub length-replicate : (n : ℕ) (a : A) → length (replicate n a) ≡ n
  length-replicate zero a = refl
  length-replicate (suc n) a = ap suc (length-replicate n a)

  -- The property holds of each element; a statement about a given list computes to a tuple.
  abbrev pub All {κ} : (A → Type κ) → List A → Type κ
  All holds [] = Unit
  All holds (first ∷ others) = holds first × All holds others

  pub All-append {κ} :
      (holds : A → Type κ) (front back : List A)
      → All holds front
      → All holds back
      → All holds (front ++ back)
  All-append holds [] back f b = b
  All-append holds (first ∷ others) back f b = (f.0, All-append holds others back f.1 b)

  abbrev pub update : (ℕ → A) → ℕ → A → ℕ → A
  update f i a j = if i == j then a else f j

-- Strictly descending and below `n`.
abbrev pub Below : ℕ → List ℕ → Type 0
Below n [] = Unit {0}
Below n (x ∷ xs) = (x < n) × Below x xs

module _ {ℓ} {A : Type ℓ} where
  pub append_take-drop : (n : ℕ) (xs : List A) → take n xs ++ drop n xs ≡ xs
  append_take-drop zero xs = refl
  append_take-drop (suc n) [] = refl
  append_take-drop (suc n) (x ∷ xs) = ap (λ l. x ∷ l) (append_take-drop n xs)

  pub take-length : (xs : List A) → take (length xs) xs ≡ xs
  take-length [] = refl
  take-length (x ∷ xs) = ap (λ l. x ∷ l) (take-length xs)

  pub take-append : (n : ℕ) (xs ys : List A) → n ≤ length xs → take n (xs ++ ys) ≡ take n xs
  take-append zero xs ys h = refl
  take-append (suc n) [] ys h = absurd (omega (arith, h))
  take-append (suc n) (x ∷ xs) ys h = ap (λ l. x ∷ l) (take-append n xs ys (omega (arith, h)))

  -- A list that begins a prefix of another begins that one.
  pub take-length_append :
      (n : ℕ) (xs ys zs : List A) → xs ++ ys ≡ take n zs → xs ≡ take (length xs) zs
  take-length_append n [] ys zs h = refl
  take-length_append zero (x ∷ xs) ys zs h = cc
  take-length_append (suc n) (x ∷ xs) ys [] h = cc
  take-length_append (suc n) (x ∷ xs) ys (z ∷ zs) h =
      ground (arith, h, take-length_append n xs ys zs)

  -- Lists with beginnings of one length.
  pub append-front :
      (xs ys us vs : List A) → length xs ≡ length ys → xs ++ us ≡ ys ++ vs → (xs ≡ ys) × (us ≡ vs)
  append-front [] [] us vs h e = (refl, e)
  append-front [] (y ∷ ys) us vs h e = absurd (omega (arith, h))
  append-front (x ∷ xs) [] us vs h e = absurd (omega (arith, h))
  append-front (x ∷ xs) (y ∷ ys) us vs h e =
      let heads : x ≡ y = cc in
      let rest = append-front xs ys us vs (omega (arith, h)) cc in
      (ap₂ (λ z l. z ∷ l) heads rest.0, rest.1)

  -- What stands before and after a beginning of known length.
  pub take-front : (n : ℕ) (xs ys : List A) → length xs ≡ n → take n (xs ++ ys) ≡ xs
  take-front zero [] ys e = refl
  take-front zero (x ∷ xs) ys e = absurd (omega (arith, e))
  take-front (suc n) [] ys e = absurd (omega (arith, e))
  take-front (suc n) (x ∷ xs) ys e = ap (λ l. x ∷ l) (take-front n xs ys (omega (arith, e)))

  pub drop-front : (n : ℕ) (xs ys : List A) → length xs ≡ n → drop n (xs ++ ys) ≡ ys
  drop-front zero [] ys e = refl
  drop-front zero (x ∷ xs) ys e = absurd (omega (arith, e))
  drop-front (suc n) [] ys e = absurd (omega (arith, e))
  drop-front (suc n) (x ∷ xs) ys e = drop-front n xs ys (omega (arith, e))

-- An element stands somewhere in the list.
abbrev pub Occurs : {A : Type 0} → A → List A → Type 0
Occurs a [] = ⊥
Occurs a (first ∷ others) = (a ≡ first) ⊎ Occurs a others

pub map-All :
    {A : Type 0} (P Q : A → Type 0) (l : List A) → ((a : A) → P a → Q a) → All P l → All Q l
map-All P Q [] f h = tt
map-All P Q (a ∷ l) f h = (f a h.0, map-All P Q l f h.1)
