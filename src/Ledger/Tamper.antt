-- ===== src/Ledger/Tamper.antt =====
-- sample/requestconsumer/simpleledger.go: the digest of the state determines what was delivered.
use mathlib.Core.Path.{ap₂}
use mathlib.Core.List.{List-discrete, reverse, reverse_aux, reverse-reverse}
use native.Mathlib.Decide.{ℕ_discrete}
use minbft.Base.{
  ℕ, suc, ◌+◌, ◌<◌, ◌≡◌, ◌≢◌, ◌⊎◌, inl, inr, refl, sym, ap, ◌∙◌, List, [], ◌∷◌, ◌++◌, length,
  replicate, length-append, append-front, u64_mod, arith,
}
use minbft.Base.Result.{ok, ok-injective}
use minbft.Usig.Marshal.{big_endian-append}
use minbft.Ledger.{Block, padded, Ledger, new_ledger, marshal_block, state_digest, deliver_all}
use minbft.Ledger.Bytes.{copy_into_full, length-copy_into}
use minbft.Ledger.Chain.{block_on, chain_ledger, state_digest-chain, deliver_all-chain}

-- A pair of different byte sequences with one hash.
pub Collision : (List ℕ → List ℕ) → Type 0
Collision hash = (a : List ℕ) × (b : List ℕ) × (a ≢ b) × (hash a ≡ hash b)

-- Blocks with equal binary forms.
marshal_block_parts :
    (b c : Block)
    → b.height < u64_mod
    → c.height < u64_mod
    → marshal_block b ≡ marshal_block c
    → (b.height ≡ c.height) × (padded b.prev_hash ≡ padded c.prev_hash) × (b.payload ≡ c.payload)
unfolding marshal_block
marshal_block_parts b c g h e =
    let (heights, rest) =
      big_endian-append 8 b.height c.height (padded b.prev_hash ++ b.payload)
        (padded c.prev_hash ++ c.payload) (omega (arith, g)) (omega (arith, h)) e in
    let parts =
      append-front (padded b.prev_hash) (padded c.prev_hash) b.payload c.payload
        (length-copy_into (replicate 32 0) b.prev_hash
          ∙ sym (length-copy_into (replicate 32 0) c.prev_hash))
        rest in
    (heights, parts.0, parts.1)

module _ (hash : List ℕ → List ℕ) (width : (l : List ℕ) → length (hash l) ≡ 32) where
  padded-hash : (l : List ℕ) → padded (hash l) ≡ hash l
  padded-hash l = copy_into_full (replicate 32 0) (hash l) (width l)

  same_block :
      (p q : List ℕ) (l r : List (List ℕ))
      → suc (length l) < u64_mod
      → suc (length r) < u64_mod
      → marshal_block (block_on hash p l) ≡ marshal_block (block_on hash q r)
      → (p ∷ l ≡ q ∷ r) ⊎ Collision hash
  unfolding Collision
  same_block p q [] [] g h e =
      let (heights, prevs, payloads) =
        marshal_block_parts (block_on hash p []) (block_on hash q []) g h e in
      inl (ap (λ x. x ∷ []) payloads)
  same_block p q [] (y ∷ r) g h e =
      let (heights, prevs, payloads) =
        marshal_block_parts (block_on hash p []) (block_on hash q (y ∷ r)) g h e in
      absurd (omega (arith, heights))
  same_block p q (x ∷ l) [] g h e =
      let (heights, prevs, payloads) =
        marshal_block_parts (block_on hash p (x ∷ l)) (block_on hash q []) g h e in
      absurd (omega (arith, heights))
  same_block p q (x ∷ l) (y ∷ r) g h e =
      let a = marshal_block (block_on hash x l) in
      let b = marshal_block (block_on hash y r) in
      let (heights, prevs, payloads) =
        marshal_block_parts (block_on hash p (x ∷ l)) (block_on hash q (y ∷ r)) g h e in
      let hashes : hash a ≡ hash b = sym (padded-hash a) ∙ prevs ∙ padded-hash b in
      elim (List-discrete ℕ_discrete a b) [
        | no differ ↦ inr (a, b, differ, hashes)
        | yes same ↦ elim (same_block x y l r (omega (arith, g)) (omega (arith, h)) same) [
          | inr collision ↦ inr collision
          | inl rest ↦ inl (ap₂ (λ z k. z ∷ k) payloads rest)
        ]
      ]

  not_empty :
      (p : List ℕ) (l : List (List ℕ)) → ¬ (marshal_block (block_on hash p l) ++ hash [] ≡ [])
  not_empty p l e =
      omega
        (arith, ap length e, width [], length-append (marshal_block (block_on hash p l)) (hash []))

  digest_empty : state_digest hash (chain_ledger hash []) ≡ ok []
  unfolding state_digest
  digest_empty = refl

  same_digest :
      (l r : List (List ℕ)) (d : List ℕ)
      → length l < u64_mod
      → length r < u64_mod
      → state_digest hash (chain_ledger hash l) ≡ ok d
      → state_digest hash (chain_ledger hash r) ≡ ok d
      → (l ≡ r) ⊎ Collision hash
  same_digest [] [] d g h e k = inl refl
  same_digest [] (q ∷ r) d g h e k =
      absurd (
        not_empty q r (ok-injective (sym (state_digest-chain hash q r) ∙ k ∙ sym e ∙ digest_empty)))
  same_digest (p ∷ l) [] d g h e k =
      absurd (
        not_empty p l (ok-injective (sym (state_digest-chain hash p l) ∙ e ∙ sym k ∙ digest_empty)))
  same_digest (p ∷ l) (q ∷ r) d g h e k =
      let a = marshal_block (block_on hash p l) in
      let b = marshal_block (block_on hash q r) in
      let all : a ++ hash [] ≡ b ++ hash [] =
        ok-injective
          (sym (state_digest-chain hash p l) ∙ e ∙ sym k ∙ state_digest-chain hash q r) in
      same_block p q l r g h
        (append-front a b (hash []) (hash [])
          (omega (arith, ap length all, length-append a (hash []), length-append b (hash [])))
          all).0

length-reverse_aux : (xs ys : List (List ℕ)) → length (reverse_aux xs ys) ≡ length xs + length ys
length-reverse_aux [] ys = omega arith
length-reverse_aux (x ∷ xs) ys = omega (arith, length-reverse_aux xs (x ∷ ys))

-- Let the hash have 32 bytes. If two new ledgers are delivered fewer than 2^64 requests each and then
-- have the same state digest, they were delivered the same payloads in the same order, or the hash has
-- a collision.
pub state_digest-deliver_all :
    (hash : List ℕ → List ℕ) (ps qs : List (List ℕ)) (l m : Ledger) (d : List ℕ)
    → ((b : List ℕ) → length (hash b) ≡ 32)
    → length ps < u64_mod
    → length qs < u64_mod
    → deliver_all hash new_ledger ps ≡ ok l
    → deliver_all hash new_ledger qs ≡ ok m
    → state_digest hash l ≡ ok d
    → state_digest hash m ≡ ok d
    → (ps ≡ qs) ⊎ Collision hash
state_digest-deliver_all hash ps qs l m d width g h made_l made_m e k = elim same [
  | inr collision ↦ inr collision
  | inl backwards ↦ inl (sym (reverse-reverse ps) ∙ ap reverse backwards ∙ reverse-reverse qs)
]
  where
    made :
        (xs : List (List ℕ)) (n : Ledger)
        → length xs < u64_mod
        → deliver_all hash new_ledger xs ≡ ok n
        → n ≡ chain_ledger hash (reverse xs)
    made xs n short e = ok-injective (sym e ∙ deliver_all-chain hash xs short)

    same : (reverse ps ≡ reverse qs) ⊎ Collision hash
    same =
        same_digest hash width (reverse ps) (reverse qs) d
          (omega (arith, g, length-reverse_aux ps [])) (omega (arith, h, length-reverse_aux qs []))
          (ap (state_digest hash) (sym (made ps l g made_l)) ∙ e)
          (ap (state_digest hash) (sym (made qs m h made_m)) ∙ k)
