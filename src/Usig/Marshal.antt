-- ===== src/Usig/Marshal.antt =====
-- usig/usig.go: a marshalled UI is read back.
use minbft.Base.{
  false, length, ltb, ℕ, zero, suc, ◌+◌, ◌*◌, ◌/◌, ◌%◌, ◌<◌, ◌≡◌, refl, ap, List, [], ◌∷◌, ◌++◌,
  arith, u64_mod, sym, ◌∙◌, length-append, append-front,
}
use minbft.Base.Result.{Result, ok}
use minbft.Messages.{Ui}
use minbft.Usig.{big_endian, from_bytes, marshal_binary, unmarshal_binary}

-- The numbers of `n` bytes are below it.
abbrev pub limit : ℕ → ℕ
limit zero = 1
limit (suc n) = limit n * 256

from_bytes_snoc :
    (x : ℕ) (l : List ℕ) (b : ℕ) → from_bytes x (l ++ b ∷ []) ≡ from_bytes x l * 256 + b
unfolding from_bytes
from_bytes_snoc x [] b = refl
from_bytes_snoc x (c ∷ l) b = from_bytes_snoc (x * 256 + c) l b

pub from_bytes-big_endian : (n x : ℕ) → x < limit n → from_bytes 0 (big_endian n x) ≡ x
unfolding big_endian from_bytes
from_bytes-big_endian zero x h = omega (arith, h)
from_bytes-big_endian (suc n) x h = omega (
  arith,
  from_bytes_snoc 0 (big_endian n (x / 256)) (x % 256),
  from_bytes-big_endian n (x / 256) (omega (arith, h)),
)

marshal_binary_long : (ui : Ui) → ltb (length (marshal_binary ui)) 8 ≡ false
unfolding marshal_binary
marshal_binary_long ui = ground arith

-- A UI whose counter is a uint64 is what unmarshalling gives back for its binary form.
pub unmarshal_binary-marshal_binary :
    (ui : Ui) → ui.counter < u64_mod → unmarshal_binary (marshal_binary ui) ≡ ok ui
unfolding marshal_binary unmarshal_binary
unmarshal_binary-marshal_binary ui h =
    rw (marshal_binary_long ui) (ap read_as (from_bytes-big_endian 8 ui.counter (omega (arith, h))))
  where
    read_as : ℕ → Result Ui
    read_as c = ok (record { counter = c; cert = ui.cert })

pub length-big_endian : (n x : ℕ) → length (big_endian n x) ≡ n
unfolding big_endian
length-big_endian zero x = refl
length-big_endian (suc n) x =
    omega
      (arith, length-append (big_endian n (x / 256)) (x % 256 ∷ []), length-big_endian n (x / 256))

-- Two sequences of bytes that start with a number of `n` bytes.
pub big_endian-append :
    (n x y : ℕ) (l r : List ℕ)
    → x < limit n
    → y < limit n
    → big_endian n x ++ l ≡ big_endian n y ++ r
    → (x ≡ y) × (l ≡ r)
big_endian-append n x y l r hx hy e =
    let (numbers, rest) =
      append-front (big_endian n x) (big_endian n y) l r
        (length-big_endian n x ∙ sym (length-big_endian n y)) e in
    (
      sym (from_bytes-big_endian n x hx) ∙ ap (from_bytes 0) numbers ∙ from_bytes-big_endian n y hy,
      rest,
    )

-- Two sequences of bytes that end with a number of `n` bytes.
pub append-big_endian :
    (n x y : ℕ) (l r : List ℕ)
    → x < limit n
    → y < limit n
    → l ++ big_endian n x ≡ r ++ big_endian n y
    → (l ≡ r) × (x ≡ y)
append-big_endian n x y l r hx hy e =
    let (rest, numbers) = append-front l r (big_endian n x) (big_endian n y) (same_length) e in
    (
      rest,
      sym (from_bytes-big_endian n x hx) ∙ ap (from_bytes 0) numbers ∙ from_bytes-big_endian n y hy,
    )
  where
    same_length : length l ≡ length r
    same_length = omega (
      arith,
      length-append l (big_endian n x),
      length-append r (big_endian n y),
      ap length e,
      length-big_endian n x,
      length-big_endian n y,
    )

pub big_endian-injective :
    (n x y : ℕ) → x < limit n → y < limit n → big_endian n x ≡ big_endian n y → x ≡ y
big_endian-injective n x y hx hy e =
    sym (from_bytes-big_endian n x hx) ∙ ap (from_bytes 0) e ∙ from_bytes-big_endian n y hy
