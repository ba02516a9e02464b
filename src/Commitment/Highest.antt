-- ===== src/Commitment/Highest.antt =====
-- The array `highest` of the commitment counter: sorted, and how many entries reach a value.
use minbft.Base.{
  ℕ, zero, suc, ◌+◌, ◌≤◌, ◌<◌, ◌≡◌, refl, ◌⊎◌, inl, true, false, List, [], ◌∷◌, arith, length,
  replicate, leb, bit,
}
use minbft.Commitment.{raise, all_reached}

abbrev pub num_ge : ℕ → List ℕ → ℕ
num_ge x [] = 0
num_ge x (h ∷ hs) = bit (leb x h) + num_ge x hs

-- Descending, every entry at most `top`.
abbrev pub Descends : ℕ → List ℕ → Type 0
Descends top [] = Unit {0}
Descends top (h ∷ hs) = (h ≤ top) × Descends h hs

pub Descends-mono : {a b : ℕ} (hs : List ℕ) → a ≤ b → Descends a hs → Descends b hs
Descends-mono [] l d = tt
Descends-mono (h ∷ hs) l d = (omega arith, d.1)

pub num_ge-le-length : (x : ℕ) (hs : List ℕ) → num_ge x hs ≤ length hs
num_ge-le-length x [] = omega arith
num_ge-le-length x (h ∷ hs) = ground (arith, num_ge-le-length x hs)

pub num_ge_above : (x top : ℕ) (hs : List ℕ) → Descends top hs → top < x → num_ge x hs ≡ 0
num_ge_above x top [] d l = refl
num_ge_above x top (h ∷ hs) d l = ground (arith, num_ge_above x h hs d.1)

pub num_ge_anti : (x y : ℕ) (hs : List ℕ) → x ≤ y → num_ge y hs ≤ num_ge x hs
num_ge_anti x y [] l = omega arith
num_ge_anti x y (h ∷ hs) l = ground (arith, num_ge_anti x y hs l)

pub num_ge-replicate : (x n : ℕ) → 0 < x → num_ge x (replicate n 0) ≡ 0
num_ge-replicate x zero l = refl
num_ge-replicate x (suc n) l = ground (arith, num_ge-replicate x n l)

pub Descends-replicate : (n top : ℕ) → Descends top (replicate n 0)
Descends-replicate zero top = tt
Descends-replicate (suc n) top = (omega arith, Descends-replicate n 0)

pub length-raise : (hs : List ℕ) (cv : ℕ) → length (raise hs cv) ≡ length hs
unfolding raise
length-raise [] cv = refl
length-raise (h ∷ hs) cv = ground (arith, length-raise hs cv)

pub raise-Descends :
    (hs : List ℕ) (cv top : ℕ) → cv ≤ top → Descends top hs → Descends top (raise hs cv)
unfolding raise
raise-Descends [] cv top l d = tt
raise-Descends (h ∷ hs) cv top l d =
    ground (arith, raise-Descends hs cv h, Descends-mono {a = h} {b = cv} hs)

-- Above the raised value nothing changes.
pub num_ge-raise_above : (hs : List ℕ) (cv x : ℕ) → cv < x → num_ge x (raise hs cv) ≡ num_ge x hs
unfolding raise
num_ge-raise_above [] cv x l = refl
num_ge-raise_above (h ∷ hs) cv x l = ground (arith, num_ge-raise_above hs cv x l)

-- Below it one entry is gained at most, and only up to one more than reach the value itself.
pub num_ge-raise_le :
    (hs : List ℕ) (cv x top : ℕ)
    → Descends top hs
    → x ≤ cv
    → (num_ge x (raise hs cv) ≤ num_ge x hs) ⊎ (num_ge x (raise hs cv) ≤ num_ge cv hs + 1)
unfolding raise
num_ge-raise_le [] cv x top d l = inl (omega arith)
num_ge-raise_le (h ∷ hs) cv x top d l =
    ground (arith, num_ge-raise_le hs cv x h d.1, num_ge_above x h hs d.1)

pub num_ge_reached : (hs : List ℕ) (cv : ℕ) → all_reached hs cv ≡ true → num_ge cv hs ≡ length hs
unfolding all_reached
num_ge_reached [] cv e = refl
num_ge_reached (h ∷ hs) cv e = ground (arith, num_ge_reached hs cv)

-- Some entry is smaller: the value gains exactly one.
pub num_ge_open :
    (hs : List ℕ) (cv top : ℕ)
    → Descends top hs
    → all_reached hs cv ≡ false
    → (num_ge cv hs < length hs) × (num_ge cv (raise hs cv) ≡ num_ge cv hs + 1)
unfolding all_reached raise
num_ge_open [] cv top d e = cc
num_ge_open (h ∷ hs) cv top d e =
    ground (arith, num_ge_open hs cv h d.1, num_ge_above cv h hs d.1, num_ge-le-length cv hs)

pub raise_reached : (hs : List ℕ) (cv : ℕ) → all_reached hs cv ≡ true → raise hs cv ≡ hs
unfolding all_reached raise
raise_reached [] cv e = refl
raise_reached (h ∷ hs) cv e = ground (arith, raise_reached hs cv)

-- A value that more entries reach than the raised one keeps its number.
pub num_ge-raise_same :
    (hs : List ℕ) (cv x top : ℕ)
    → Descends top hs
    → x ≤ cv
    → num_ge cv hs < num_ge x hs
    → num_ge x (raise hs cv) ≡ num_ge x hs
unfolding raise
num_ge-raise_same [] cv x top d l e = refl
num_ge-raise_same (h ∷ hs) cv x top d l e =
    ground
      (arith, num_ge-raise_same hs cv x h d.1, num_ge_above x h hs d.1, num_ge_above cv h hs d.1)
