-- ===== src/Ledger/Chain.antt =====
-- sample/requestconsumer/simpleledger.go: the ledger is the chain of its payloads.
use mathlib.Core.List.{reverse, reverse_aux}
use minbft.Base.{
  ℕ, zero, suc, ◌+◌, ◌-◌, ◌<◌, ◌≡◌, refl, some, List, [], ◌∷◌, ◌++◌, length, get_elem?,
  length-append, inc64, u64_mod, arith, ltb, true, false, ◌==◌,
}
use minbft.Base.Result.{ok}
use minbft.Ledger.{
  Block, Ledger, new_ledger, marshal_block, latest_block, prev_block_hash, append_block,
  state_digest, deliver_all,
}

module _ (hash : List ℕ → List ℕ) where
  -- The block with this payload on top of those with the payloads of the list, the latest one first.
  abbrev pub block_on : List ℕ → List (List ℕ) → Block
  block_on p [] = record { height = 1; prev_hash = []; payload = p }
  block_on p (q ∷ l) = record {
    height = suc (suc (length l));
    prev_hash = hash (marshal_block (block_on q l));
    payload = p;
  }

  abbrev pub chain : List (List ℕ) → List Block
  chain [] = []
  chain (p ∷ l) = chain l ++ block_on p l ∷ []

  abbrev pub chain_ledger : List (List ℕ) → Ledger
  chain_ledger l = record { blocks = chain l; count = length l }

  length-chain : (l : List (List ℕ)) → length (chain l) ≡ length l
  length-chain [] = refl
  length-chain (p ∷ l) = omega (arith, length-append (chain l) (block_on p l ∷ []), length-chain l)

  get_elem?-snoc :
      (l : List Block) (b : Block) (n : ℕ) → n ≡ length l → get_elem? (l ++ b ∷ []) n ≡ some b
  get_elem?-snoc [] b zero e = refl
  get_elem?-snoc [] b (suc n) e = absurd (omega (arith, e))
  get_elem?-snoc (a ∷ l) b zero e = absurd (omega (arith, e))
  get_elem?-snoc (a ∷ l) b (suc n) e = get_elem?-snoc l b n (omega (arith, e))

  pub latest_block-chain :
      (p : List ℕ) (l : List (List ℕ)) → latest_block (chain_ledger (p ∷ l)) ≡ ok (block_on p l)
  unfolding latest_block
  latest_block-chain p l =
      rw
        (
          get_elem?-snoc (chain l) (block_on p l) (suc (length l) - 1)
              (omega (arith, length-chain l)),
          latest_block,
        )
        refl

  append_block-chain :
      (p : List ℕ) (l : List (List ℕ))
      → suc (length l) < u64_mod
      → append_block hash (chain_ledger l) p ≡ ok (chain_ledger (p ∷ l), block_on p l)
  unfolding append_block prev_block_hash
  append_block-chain p [] h = refl
  append_block-chain p (q ∷ l) h =
      let next : inc64 (suc (length l)) ≡ suc (suc (length l)) = omega (arith, h) in
      let positive : ltb 0 (suc (length l)) ≡ true = ground arith in
      rw (positive, latest_block-chain q l, next) refl

  pub state_digest-chain :
      (p : List ℕ) (l : List (List ℕ))
      → state_digest hash (chain_ledger (p ∷ l)) ≡ ok (marshal_block (block_on p l) ++ hash [])
  unfolding state_digest
  state_digest-chain p l =
      let positive : (suc (length l) == 0) ≡ false = ground arith in
      rw (positive, latest_block-chain p l) refl

  deliver_all-aux :
      (ps l : List (List ℕ))
      → length ps + length l < u64_mod
      → deliver_all hash (chain_ledger l) ps ≡ ok (chain_ledger (reverse_aux ps l))
  unfolding deliver_all
  deliver_all-aux [] l h = refl
  deliver_all-aux (p ∷ ps) l h =
      rw (append_block-chain p l (omega (arith, h))) (deliver_all-aux ps (p ∷ l) (omega (arith, h)))

-- Delivering fewer than 2^64 requests to a new ledger never panics, and makes the chain of their
-- payloads: block by block, the heights count from 1, and each block but the first holds the hash of
-- the binary form of the one before it.
pub deliver_all-chain :
    (hash : List ℕ → List ℕ) (ps : List (List ℕ))
    → length ps < u64_mod
    → deliver_all hash new_ledger ps ≡ ok (chain_ledger hash (reverse ps))
deliver_all-chain hash ps h = deliver_all-aux hash ps [] (omega (arith, h))
