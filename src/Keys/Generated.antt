-- ===== src/Keys/Generated.antt =====
-- sample/authentication/keymanager.go: the store that is loaded from generated key pairs has them all.
use minbft.Base.{
  ℕ, zero, suc, ◌+◌, ◌%◌, ◌^◌, ◌≤◌, ◌≡◌, refl, ap, ◌∙◌, subst, Bool, Option, some, List, arith,
}
use minbft.Base.Result.{ok, ◌>>=◌, >>=-eq-ok, ok-injective}
use minbft.Keys.{KeyPair, Spec, KeyLib, KeyStore}
use minbft.Keys.Parse.{parse_key_pair, parse_key_pairs}
use minbft.Keys.Generate.{Draws, generate_key_pair, generate_pairs}
use minbft.Keys.Loading.{ReadsBack, pair-Parsed}
use minbft.Keys.Pairs.{Elsewhere-trans, HasPublic, HasOwn, Reached, pair-Reached}

module _ {Priv Pub : Type 0} (lib : KeyLib Priv Pub) (draws : Draws Priv Pub) (role : ℕ)
    (spec : Spec) (param : ℕ) where
  -- All generated pairs are loaded.
  pub pairs-Reached :
      (laws : ReadsBack lib) (asked : Bool) (n i m : ℕ) (ks : KeyStore Priv Pub)
      (l : List (Option KeyPair))
      → generate_pairs lib draws spec param n i ≡ ok l
      → i + n ≡ m
      → m ≤ 2 ^ 32
      → HasPublic lib draws role spec param i ks
      → HasOwn lib draws role spec param asked i ks
      → Reached lib draws role spec param asked m ks (parse_key_pairs lib ks role spec l)
  unfolding generate_pairs parse_key_pairs
  pairs-Reached laws asked zero i m ks l e sum small p h =
      let done : i ≡ m = omega arith in
      rw (← ok-injective e) (
        ks,
        refl,
        subst (λ x. HasPublic lib draws role spec param x ks) done p,
        subst (λ x. HasOwn lib draws role spec param asked x ks) done h,
        record { same_id = refl; same_nodes = λ r ne. refl; same_owner = λ r ne. refl },
      )
  pairs-Reached laws asked (suc n) i m ks l e sum small p h =
      let (t, text, e₁) = >>=-eq-ok (generate_key_pair lib draws spec param i) _ e in
      let (rest, more, e₂) = >>=-eq-ok (generate_pairs lib draws spec param n (i + 1)) _ e₁ in
      let (k, here, priv, shown) = pair-Parsed lib draws laws spec param i t text in
      let (mid, first, q, g, same) =
        pair-Reached lib draws role spec param asked i ks k t here priv shown p h in
      let up : suc i ≡ i + 1 = omega arith in
      let word : i % 2 ^ 32 ≡ i = omega (arith, sum, small) in
      let (end, last, q', g', same') =
        pairs-Reached laws asked n (i + 1) m mid rest more (omega (arith, sum)) small
          (subst (λ x. HasPublic lib draws role spec param x mid) up q)
          (subst (λ x. HasOwn lib draws role spec param asked x mid) up g) in
      rw (← ok-injective e₂) (
        end,
        ap
              (λ (x : ℕ).
                parse_key_pair lib ks role spec
                  (some (record { id = x; private_key = t.0; public_key = t.1 }))
                >>= λ ks'. parse_key_pairs lib ks' role spec rest)
              word
            ∙ ap (λ r. r >>= λ ks'. parse_key_pairs lib ks' role spec rest) first
            ∙ last,
        q',
        g',
        Elsewhere-trans role ks mid end same same',
      )
