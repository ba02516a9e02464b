-- ===== src/Keys/Loading.antt =====
-- sample/authentication/keymanager.go: loading the key pairs that were generated for one role.
use minbft.Base.{ℕ, ◌≡◌, refl, inl, inr, Option, none, some, List, arith, Option-cases}
use minbft.Base.Result.{ok}
use Prim.Native.String.{String}
use minbft.Keys.{Spec, ecdsa_spec, sgx_spec, KeyLib, ecdsa, PrivateKey, ecdsa_private, sealed}
use minbft.Keys.Parse.{parse_public_key, parse_private_key}
use minbft.Keys.Generate.{Draws, curve_of, key_texts, usig_texts, generate_key_pair}

-- What the libraries write they read back.
pub record ReadsBack {Priv Pub : Type 0} (lib : KeyLib Priv Pub) : Type 0 where
  pub text : (b : List ℕ) → lib.decode (lib.encode b) ≡ some b
  pub private_form :
      (k : Priv) (b : List ℕ) → lib.marshal_private k ≡ some b → lib.parse_private b ≡ some k
  pub public_form :
      (k : Pub) (b : List ℕ) → lib.marshal_public k ≡ some b → lib.parse_public b ≡ some (ecdsa k)

module _ {Priv Pub : Type 0} (lib : KeyLib Priv Pub) (draws : Draws Priv Pub) where
  abbrev pub drawn_key : Option Priv → Option (PrivateKey Priv × Pub)
  drawn_key none = none
  drawn_key (some k) = some (ecdsa_private k, lib.public_of k)

  abbrev pub drawn_usig : Option (List ℕ × Pub) → Option (PrivateKey Priv × Pub)
  drawn_usig none = none
  drawn_usig (some u) = some (sealed u.0, u.1)

  -- The `i`th pair of keys
  abbrev pub key_at : Spec → ℕ → ℕ → Option (PrivateKey Priv × Pub)
  key_at ecdsa_spec param i = drawn_key (draws.generate_key (curve_of param) i)
  key_at sgx_spec param i = drawn_usig (draws.new_usig i)

  module _ (laws : ReadsBack lib) where
    -- The keys that the texts are parsed to
    abbrev Parsed : Spec → Option (PrivateKey Priv × Pub) → String × String → Type 0
    Parsed spec o t =
        (k : PrivateKey Priv × Pub) × (o ≡ some k)
        × (parse_private_key lib spec t.0 ≡ ok k.0)
        × (parse_public_key lib t.1 ≡ ok k.1)

    key_texts-Parsed :
        (o : Option Priv) (t : String × String)
        → key_texts lib draws o ≡ ok t
        → Parsed ecdsa_spec (drawn_key o) t
    unfolding key_texts parse_private_key parse_public_key
    key_texts-Parsed none t e = cc
    key_texts-Parsed (some k) t e = elim (Option-cases (lib.marshal_private k)) [
      | inl f ↦ ground (arith, f)
      | inr (a, f) ↦ elim (Option-cases (lib.marshal_public (lib.public_of k))) [
        | inl g ↦ ground (arith, f, g)
        | inr (b, g) ↦
            let same : (lib.encode a, lib.encode b) ≡ t = ground (arith, f, g) in
            (
              (ecdsa_private k, lib.public_of k),
              refl,
              rw (← same, laws.text a, laws.private_form k a f) refl,
              rw (← same, laws.text b, laws.public_form (lib.public_of k) b g) refl,
            )
      ]
    ]

    usig_texts-Parsed :
        (o : Option (List ℕ × Pub)) (t : String × String)
        → usig_texts lib draws o ≡ ok t
        → Parsed sgx_spec (drawn_usig o) t
    unfolding usig_texts parse_private_key parse_public_key
    usig_texts-Parsed none t e = cc
    usig_texts-Parsed (some u) t e = elim (Option-cases (lib.marshal_public u.1)) [
      | inl g ↦ ground (arith, g)
      | inr (b, g) ↦
          let same : (lib.encode u.0, lib.encode b) ≡ t = ground (arith, g) in
          (
            (sealed u.0, u.1),
            refl,
            rw (← same, laws.text u.0) refl,
            rw (← same, laws.text b, laws.public_form u.1 b g) refl,
          )
    ]

    -- The texts of a generated pair are parsed to the keys that were drawn.
    pub pair-Parsed :
        (spec : Spec) (param i : ℕ) (t : String × String)
        → generate_key_pair lib draws spec param i ≡ ok t
        → Parsed spec (key_at spec param i) t
    unfolding generate_key_pair
    pair-Parsed ecdsa_spec param i t e =
        key_texts-Parsed (draws.generate_key (curve_of param) i) t e
    pair-Parsed sgx_spec param i t e = usig_texts-Parsed (draws.new_usig i) t e
