-- ===== src/Keys/Testnet.antt =====
-- sample/authentication/keymanager.go: a node loads the keys that were generated for a test network.
use minbft.Base.{
  ℕ, zero, suc, ◌+◌, ◌^◌, ◌≤◌, ◌<◌, ◌≡◌, ◌≢◌, refl, sym, ap, ◌∙◌, Bool, true, Option, none, some,
  List, arith, ==_refl, update,
}
use native.Mathlib.Decide.{ℕ_discrete}
use minbft.Base.Result.{ok, >>=-eq-ok, ok-injective}
use Prim.Native.String.{String}
use minbft.Keys.{
  KeyPair, KeySet, Spec, get_key_spec, spec_name, KeyLib, PrivateKey, PublicKeySet, KeyStore,
  private_key, owner_private, node_public_key, key_in,
}
use minbft.Keys.Parse.{load_key_set}
use minbft.Keys.Generate.{Draws, generate_key_pair, generate_pairs, generate_key_set}
use minbft.Keys.Loading.{ReadsBack, key_at, pair-Parsed}
use minbft.Keys.Pairs.{has_owner, Elsewhere, Elsewhere-trans}
use minbft.Keys.Generated.{pairs-Reached}

module _ {Priv Pub : Type 0} (lib : KeyLib Priv Pub) (draws : Draws Priv Pub) where
  -- Every pair was drawn.
  pairs_drawn :
      (laws : ReadsBack lib) (spec : Spec) (param n i j : ℕ) (l : List (Option KeyPair))
      → generate_pairs lib draws spec param n i ≡ ok l
      → i ≤ j
      → j < i + n
      → (k : PrivateKey Priv × Pub) × (key_at lib draws spec param j ≡ some k)
  unfolding generate_pairs
  pairs_drawn laws spec param zero i j l e low high = absurd (omega arith)
  pairs_drawn laws spec param (suc n) i j l e low high =
      let (t, text, e₁) = >>=-eq-ok (generate_key_pair lib draws spec param i) _ e in
      let (rest, more, _) = >>=-eq-ok (generate_pairs lib draws spec param n (i + 1)) _ e₁ in
      elim (ℕ_discrete i j) [
        | yes same ↦
            let (k, here, _, _) = pair-Parsed lib draws laws spec param i t text in
            (k, ap (key_at lib draws spec param) (sym same) ∙ here)
        | no other ↦ pairs_drawn laws spec param n (i + 1) j rest more (omega arith) (omega arith)
      ]

  -- A role's keys in the store are those of the `n` pairs that were drawn for it; the node's own
  -- private key is among them if the role is asked for.
  pub record IsLoaded (asked : Bool) (role : ℕ) (name : String) (param n : ℕ)
      (ks : KeyStore Priv Pub) : Type 0 where
    pub spec : Spec
    pub named : get_key_spec name ≡ ok spec
    pub set : PublicKeySet Pub
    pub found : ks.node_keys role ≡ some set
    pub spec_kept : set.keyspec ≡ spec_name spec
    pub public_keys :
        (j : ℕ)
        → j < n
        → (k : PrivateKey Priv × Pub) × (key_at lib draws spec param j ≡ some k)
          × (node_public_key ks role j ≡ ok (some k.1))
    pub own_key :
        asked ≡ true
        → ks.id < n
        → (k : PrivateKey Priv × Pub) × (key_at lib draws spec param ks.id ≡ some k)
          × (private_key ks role ≡ some k.0)

  -- One key set is loaded, and the others stay.
  pub set-IsLoaded :
      (laws : ReadsBack lib) (asked : Bool) (role : ℕ) (name : String) (param n : ℕ) (set : KeySet)
      (ks : KeyStore Priv Pub)
      → generate_key_set lib draws n name param ≡ ok set
      → n ≤ 2 ^ 32
      → has_owner (ks.owner_keys role) ≡ asked
      → (ks' : KeyStore Priv Pub) × (load_key_set lib ks role (some set) ≡ ok ks')
        × IsLoaded asked role name param n ks'
        × Elsewhere role ks ks'
  unfolding generate_key_set load_key_set node_public_key key_in
  set-IsLoaded laws asked role name param n set ks e small requested =
      let (spec, named, e₁) = >>=-eq-ok (get_key_spec name) _ e in
      let (l, pairs, e₂) = >>=-eq-ok (generate_pairs lib draws spec param n 0) _ e₁ in
      let start : KeyStore Priv Pub = record ks {
        node_keys =
            update ks.node_keys role (some (record { keyspec = spec_name spec; keys = λ _. none }));
      } in
      let (end, done, p, h, same) =
        pairs-Reached lib draws role spec param laws asked n 0 n start l pairs (omega arith) small
          (record {
            set = record { keyspec = spec_name spec; keys = λ _. none };
            found = rw (==_refl role) refl;
            spec_kept = refl;
            keys = λ j k low here. absurd (omega arith);
          })
          (record { requested = requested; own = λ k a low here. absurd (omega arith) }) in
      (
        end,
        rw (← ok-injective e₂, named) done,
        record {
          spec = spec;
          named = named;
          set = p.set;
          found = p.found;
          spec_kept = p.spec_kept;
          public_keys = λ j low.
              let (k, here) =
                pairs_drawn laws spec param n 0 j l pairs (omega arith) (omega arith) in
              (k, here, rw p.found (ap ok (p.keys j k low here)));
          own_key = λ a low.
              let (k, here) =
                pairs_drawn laws spec param n 0 end.id l pairs (omega arith) (omega arith) in
              (k, here, h.own k a low here);
        },
        Elsewhere-trans role ks start end
            (record {
              same_id = refl;
              same_nodes = λ r ne. ground (arith, ne);
              same_owner = λ r ne. refl;
            })
            same,
      )

  -- Loading other roles does not matter.
  pub IsLoaded-Elsewhere :
      (asked : Bool) (role other : ℕ) (name : String) (param n : ℕ) (ks ks' : KeyStore Priv Pub)
      → role ≢ other
      → Elsewhere other ks ks'
      → IsLoaded asked role name param n ks
      → IsLoaded asked role name param n ks'
  unfolding node_public_key private_key
  IsLoaded-Elsewhere asked role other name param n ks ks' ne same h = record {
    spec = h.spec;
    named = h.named;
    set = h.set;
    found = same.same_nodes role ne ∙ h.found;
    spec_kept = h.spec_kept;
    public_keys = λ j low.
        let (k, here, found) = h.public_keys j low in
        (k, here, ap (λ s. key_in s j) (same.same_nodes role ne) ∙ found);
    own_key = λ a low.
        let (k, here, found) = h.own_key a (omega (arith, same.same_id)) in
        (
          k,
          ap (key_at lib draws h.spec param) same.same_id ∙ here,
          ap owner_private (same.same_owner role ne) ∙ found,
        );
  }
