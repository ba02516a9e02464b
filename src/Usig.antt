-- ===== src/Usig.antt =====
-- usig/usig.go: the binary form of a unique identifier. `binary.Write` and `binary.Read` of the Go
-- library in big-endian order are written out for a uint64; a list of numbers is its bytes.
pub mod Marshal
pub mod Sgx
pub mod Tests
use minbft.Base.{
  ℕ, zero, suc, ◌+◌, ◌*◌, ◌/◌, ◌%◌, List, [], ◌∷◌, ◌++◌, length, ltb, take, drop, if◌then◌else◌,
}
use minbft.Base.Result.{Result, ok, err, panic, short_input}
use minbft.Messages.{Ui}

-- The last `n` bytes of a number, the highest one first.
unfoldable pub big_endian : ℕ → ℕ → List ℕ
big_endian zero x = []
big_endian (suc n) x = big_endian n (x / 256) ++ x % 256 ∷ []

-- The number that some bytes stand for, after those of `x`.
unfoldable pub from_bytes : ℕ → List ℕ → ℕ
from_bytes x [] = x
from_bytes x (b ∷ l) = from_bytes (x * 256 + b) l

unfoldable pub marshal_binary : Ui → List ℕ
unfolding big_endian
marshal_binary ui = big_endian 8 ui.counter ++ ui.cert

unfoldable pub unmarshal_binary : List ℕ → Result Ui
unfolding from_bytes
unmarshal_binary l =
    if ltb (length l) 8
    then err short_input
    else ok (record { counter = from_bytes 0 (take 8 l); cert = drop 8 l })

-- MustUnmarshalUI
pub must_unmarshal : List ℕ → Result Ui
unfolding unmarshal_binary
must_unmarshal l = elim (unmarshal_binary l) [ ok ui ↦ ok ui | err e ↦ panic | panic ↦ panic ]
