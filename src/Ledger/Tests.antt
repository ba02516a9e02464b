-- ===== src/Ledger/Tests.antt =====
-- sample/requestconsumer/simpleledger.go: small ledgers, with functions in place of the hash.
use mathlib.Core.List.{reverse}
use minbft.Base.{ℕ, ◌≡◌, ◌⊎◌, refl, List, [], ◌∷◌, ◌++◌, length, replicate, length-replicate, arith}
use minbft.Base.Result.{ok, err, short_input}
use minbft.Usig.{big_endian}
use minbft.Ledger.{
  Block, Ledger, new_ledger, marshal_block, unmarshal_block, state_digest, deliver_all,
}
use minbft.Ledger.Bytes.{unmarshal_block-marshal_block}
use minbft.Ledger.Chain.{chain_ledger, deliver_all-chain}
use minbft.Ledger.Tamper.{Collision, state_digest-deliver_all}

abbrev sum_hash : List ℕ → List ℕ
sum_hash l = replicate 32 (length l)

abbrev payloads : List (List ℕ)
payloads = (4 ∷ []) ∷ [] ∷ (5 ∷ 6 ∷ []) ∷ []

abbrev second : Block
second = record { height = 2; prev_hash = replicate 32 41; payload = [] }

abbrev delivered : Ledger
delivered = record {
  blocks =
      record { height = 1; prev_hash = []; payload = 4 ∷ [] }
      ∷ second
      ∷ record { height = 3; prev_hash = replicate 32 40; payload = 5 ∷ 6 ∷ [] }
      ∷ [];
  count = 3;
}

delivered_test : deliver_all sum_hash new_ledger payloads ≡ ok delivered
unfolding deliver_all big_endian
delivered_test = refl

-- The digest of the state is longer than a hash.
abbrev digest : List ℕ
digest = (0 ∷ 0 ∷ 0 ∷ 0 ∷ 0 ∷ 0 ∷ 0 ∷ 3 ∷ []) ++ (replicate 32 40 ++ (5 ∷ 6 ∷ replicate 32 0))

digest_test : state_digest sum_hash delivered ≡ ok digest
unfolding state_digest big_endian
digest_test = refl

short_test :
    unmarshal_block (record { height = 0; prev_hash = []; payload = [] }) (replicate 39 0)
    ≡ err short_input
unfolding unmarshal_block
short_test = refl

deliver_all-chain_example :
    deliver_all sum_hash new_ledger payloads ≡ ok (chain_ledger sum_hash (reverse payloads))
deliver_all-chain_example = deliver_all-chain sum_hash payloads (omega arith)

unmarshal_block-marshal_block_example :
    unmarshal_block (record { height = 0; prev_hash = []; payload = [] }) (marshal_block second)
    ≡ ok (record { height = 2; prev_hash = []; payload = [] })
unmarshal_block-marshal_block_example =
    unmarshal_block-marshal_block (record { height = 0; prev_hash = []; payload = [] }) second
      (omega arith)

state_digest-deliver_all_example : (payloads ≡ payloads) ⊎ Collision sum_hash
state_digest-deliver_all_example =
    state_digest-deliver_all sum_hash payloads payloads delivered delivered digest
      (λ b. length-replicate 32 (length b)) (omega arith) (omega arith) delivered_test
      delivered_test digest_test digest_test
