-- ===== src/Keys/Tags.antt =====
-- sample/authentication/authenticator.go: what makes and checks the tags of one role.
use minbft.Base.{ℕ, ◌<◌, ◌≡◌, refl, sym, ap, ◌∙◌, Bool, true, Option, some, List, arith}
use minbft.Base.Result.{Result, ok-injective, wrap_err, bad_tag}
use minbft.Keys.{Spec, ecdsa_spec, sgx_spec, spec_name, get_key_spec, KeyLib, PrivateKey, KeyStore}
use minbft.Keys.Generate.{Draws}
use minbft.Keys.Loading.{key_at}
use minbft.Keys.Testnet.{IsLoaded}
use minbft.Keys.Authenticator.{
  Scheme, Authenticator, check_tag, verify_message_tag, tag_with, generate_message_tag,
}

module _ {Priv Pub : Type 0} (lib : KeyLib Priv Pub) (draws : Draws Priv Pub) (role : ℕ)
    (param n : ℕ) where
  -- Tags of the role's nodes are checked with this scheme and the public keys that were drawn.
  abbrev pub Verifies : Scheme → Spec → Authenticator Priv Pub → Type 0
  Verifies s spec a =
      (check : Scheme → List ℕ → List ℕ → Option Pub → Result (Unit {0})) (j : ℕ) (msg tag : List ℕ)
      → j < n
      → (k : PrivateKey Priv × Pub) × (key_at lib draws spec param j ≡ some k)
        × (verify_message_tag check a role j msg tag
            ≡ wrap_err bad_tag (check s msg tag (some k.1)))

  -- Tags of this role are made with this scheme and the private key that was drawn for the node.
  abbrev pub Generates : Scheme → Spec → ℕ → Authenticator Priv Pub → Type 0
  Generates s spec id a =
      (sign : Scheme → List ℕ → Option (PrivateKey Priv) → Result (List ℕ)) (msg : List ℕ)
      → (k : PrivateKey Priv × Pub) × (key_at lib draws spec param id ≡ some k)
        × (generate_message_tag sign a role msg ≡ sign s msg (some k.0))

  module _ (asked : Bool) (spec : Spec) (a : Authenticator Priv Pub)
      (h : IsLoaded lib draws asked role (spec_name spec) param n a.ks) (same : h.spec ≡ spec)
      (s : Scheme) (there : a.schemes role ≡ some s) where
    pub verifies : Verifies s spec a
    unfolding verify_message_tag check_tag
    verifies check j msg tag low =
        let (k, here, e) = h.public_keys j low in
        (k, ap (λ x. key_at lib draws x param j) (sym same) ∙ here, rw (e, there) refl)

    pub generates : (id : ℕ) → a.ks.id ≡ id → asked ≡ true → id < n → Generates s spec id a
    unfolding generate_message_tag tag_with
    generates id own requested low sign msg =
        let (k, here, e) = h.own_key requested (omega (arith, own, low)) in
        (
          k,
          ap (λ x. key_at lib draws x param id) (sym same)
              ∙ ap (key_at lib draws h.spec param) (sym own)
              ∙ here,
          rw (e, there) refl,
        )

  pub spec_found :
      (asked : Bool) (spec : Spec) (ks : KeyStore Priv Pub)
      (h : IsLoaded lib draws asked role (spec_name spec) param n ks)
      → h.spec ≡ spec
  unfolding get_key_spec spec_name
  spec_found asked ecdsa_spec ks h = sym (ok-injective h.named)
  spec_found asked sgx_spec ks h = sym (ok-injective h.named)
