-- ===== src/Ledger.antt =====
-- sample/requestconsumer/simpleledger.go: the blocks that the sample application makes of executed
-- requests. `hash` stands for SHA-256 and is a parameter, a height is a `uint64`.
pub mod Bytes
pub mod Chain
pub mod Tamper
pub mod Tests
use minbft.Base.{
  ℕ, ◌-◌, ◌≤◌, Bool, true, false, Option, none, some, List, [], ◌∷◌, ◌++◌, length, take, drop,
  replicate, inc64, ltb, if◌then◌else◌, get_elem?, ◌==◌,
}
use minbft.Base.Result.{Result, ok, err, panic, ◌>>=◌, short_input}
use minbft.Usig.{big_endian, from_bytes}

-- A nil slice is an empty list.
pub record Block : Type 0 where
  pub height : ℕ
  pub prev_hash : List ℕ
  pub payload : List ℕ

-- `copy(dst, src)` for a destination that keeps its bytes beyond the source's length.
abbrev pub copy_into : List ℕ → List ℕ → List ℕ
copy_into dst src = take (length dst) src ++ drop (length src) dst

-- Into an array of 32 zero bytes.
abbrev pub padded : List ℕ → List ℕ
padded h = copy_into (replicate 32 0) h

unfoldable pub marshal_block : Block → List ℕ
marshal_block b = big_endian 8 b.height ++ (padded b.prev_hash ++ b.payload)

-- Hash
abbrev pub block_hash : (List ℕ → List ℕ) → Block → List ℕ
block_hash hash b = hash (marshal_block b)

-- UnmarshalBinary on the block `b`. A reader at its end gives an error even for the array.
unfoldable pub unmarshal_block : Block → List ℕ → Result Block
unmarshal_block b l =
    if ltb (length l) 40
    then err short_input
    else ok (record {
      height = from_bytes 0 (take 8 l);
      prev_hash = copy_into b.prev_hash (take 32 (drop 8 l));
      payload = drop 40 l;
    })

pub record Ledger : Type 0 where
  pub blocks : List Block
  pub count : ℕ

abbrev pub new_ledger : Ledger
new_ledger = record { blocks = []; count = 0 }

-- `l.blocks[l.length-1]`
pub latest_block : Ledger → Result Block
latest_block l = elim (get_elem? l.blocks (l.count - 1)) [ none ↦ panic | some b ↦ ok b ]

pub prev_block_hash : (List ℕ → List ℕ) → Ledger → Result (List ℕ)
unfolding latest_block marshal_block
prev_block_hash hash l =
    if ltb 0 l.count then (do b ← latest_block l; ok (block_hash hash b)) else ok []

-- appendBlock, which returns the block
unfoldable pub append_block : (List ℕ → List ℕ) → Ledger → List ℕ → Result (Ledger × Block)
unfolding prev_block_hash
append_block hash l payload = do
  prev ← prev_block_hash hash l
  let block : Block = record { height = inc64 l.count; prev_hash = prev; payload = payload } in
      ok (record { blocks = l.blocks ++ block ∷ []; count = inc64 l.count }, block)

-- StateDigest: `Sum` of a new hash appends the digest of no bytes to its argument.
unfoldable pub state_digest : (List ℕ → List ℕ) → Ledger → Result (List ℕ)
unfolding latest_block marshal_block
state_digest hash l =
    if l.count == 0 then ok [] else (do b ← latest_block l; ok (marshal_block b ++ hash []))

-- The goroutine of NewSimpleLedger: the requests that were delivered, one after the other.
unfoldable pub deliver_all : (List ℕ → List ℕ) → Ledger → List (List ℕ) → Result Ledger
unfolding append_block
deliver_all hash l [] = ok l
deliver_all hash l (p ∷ ps) = do made ← append_block hash l p; deliver_all hash made.0 ps
