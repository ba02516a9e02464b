-- ===== src/Ledger/Bytes.antt =====
-- sample/requestconsumer/simpleledger.go: the binary form of a block.
use mathlib.Core.List.{append_assoc}
use minbft.Base.{
  ℕ, suc, ◌+◌, ◌<◌, ◌≡◌, refl, sym, ap, ◌∙◌, false, List, [], ◌∷◌, ◌++◌, length, take, drop,
  replicate, length-append, take-front, drop-front, u64_mod, arith, ltb,
}
use minbft.Base.Result.{ok}
use minbft.Usig.{big_endian, from_bytes}
use minbft.Usig.Marshal.{length-big_endian, from_bytes-big_endian}
use minbft.Ledger.{Block, copy_into, padded, marshal_block, unmarshal_block}

pub copy_into_full : (dst src : List ℕ) → length src ≡ length dst → copy_into dst src ≡ src
copy_into_full [] [] e = refl
copy_into_full [] (b ∷ src) e = absurd (omega (arith, e))
copy_into_full (a ∷ dst) [] e = absurd (omega (arith, e))
copy_into_full (a ∷ dst) (b ∷ src) e = ap (λ l. b ∷ l) (copy_into_full dst src (omega (arith, e)))

pub length-copy_into : (dst src : List ℕ) → length (copy_into dst src) ≡ length dst
length-copy_into [] [] = refl
length-copy_into [] (b ∷ src) = refl
length-copy_into (a ∷ dst) [] = refl
length-copy_into (a ∷ dst) (b ∷ src) = ap suc (length-copy_into dst src)

length-padded : (h : List ℕ) → length (padded h) ≡ 32
length-padded h = length-copy_into (replicate 32 0) h

length-marshal_block : (b : Block) → length (marshal_block b) ≡ 40 + length b.payload
unfolding marshal_block
length-marshal_block b = omega (
  arith,
  length-append (big_endian 8 b.height) (padded b.prev_hash ++ b.payload),
  length-append (padded b.prev_hash) b.payload,
  length-big_endian 8 b.height,
  length-padded b.prev_hash,
)

drop_past : (b : Block) → drop 40 (marshal_block b) ≡ b.payload
unfolding marshal_block
drop_past b =
    ap (drop 40) (sym (append_assoc (big_endian 8 b.height) (padded b.prev_hash) b.payload))
    ∙ drop-front 40 (big_endian 8 b.height ++ padded b.prev_hash) b.payload (
        omega (
          arith,
          length-append (big_endian 8 b.height) (padded b.prev_hash),
          length-big_endian 8 b.height,
          length-padded b.prev_hash,
        ))

height_back : (b : Block) → b.height < u64_mod → from_bytes 0 (take 8 (marshal_block b)) ≡ b.height
unfolding marshal_block
height_back b h =
    ap (from_bytes 0) (
      take-front 8 (big_endian 8 b.height) (padded b.prev_hash ++ b.payload)
        (length-big_endian 8 b.height))
    ∙ from_bytes-big_endian 8 b.height (omega (arith, h))

hash_back : (b : Block) → take 32 (drop 8 (marshal_block b)) ≡ padded b.prev_hash
unfolding marshal_block
hash_back b =
    ap (take 32) (
      drop-front 8 (big_endian 8 b.height) (padded b.prev_hash ++ b.payload)
        (length-big_endian 8 b.height))
    ∙ take-front 32 (padded b.prev_hash) b.payload (length-padded b.prev_hash)

-- Unmarshalling the binary form of a block whose height is a uint64 gives back the height and the
-- payload, but the previous hash only as far as the receiving block has room for it: a new block keeps
-- none of it.
pub unmarshal_block-marshal_block :
    (target b : Block)
    → b.height < u64_mod
    → unmarshal_block target (marshal_block b)
      ≡ ok (record b { prev_hash = copy_into target.prev_hash (padded b.prev_hash) })
unfolding unmarshal_block
unmarshal_block-marshal_block target b h =
    let long : ltb (length (marshal_block b)) 40 ≡ false = ground (arith, length-marshal_block b) in
    rw (long, height_back b h, hash_back b, drop_past b) refl
