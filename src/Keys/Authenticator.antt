-- ===== src/Keys/Authenticator.antt =====
-- sample/authentication/authenticator.go: which scheme each role of the key store gets, and which key
-- and scheme authenticate a message. The schemes themselves are those of Auth; here they are parameters.
use Prim.Native.String.{String}
use text.Mathlib.Text
use minbft.Base.{
  ℕ, Bool, true, false, Option, none, some, List, [], ◌∷◌, ◌++◌, ◌==◌, if◌then◌else◌, update,
}
use minbft.Base.Result.{
  Result, ok, err, panic, ◌>>=◌, wrap_err, unknown_key_spec, wrong_key_spec, unknown_role, bad_tag,
  missing_key, unsupported_usig, usig_start_failed,
}
use minbft.Keys.{
  replica_role, usig_role, client_role, ecdsa_name, sgx_name, KeyFile, KeyLib, PrivateKey,
  ecdsa_private, sealed, OwnerKey, PublicKeySet, KeyStore, private_key, node_public_key,
  node_key_spec,
}
use minbft.Keys.Parse.{load}

-- A scheme of the USIG makes its tags with the enclave that was started with this sealed key, whatever
-- private key it is given.
pub data Scheme : Type 0 where
  public_scheme : Scheme
  usig_scheme : (sealed_key : List ℕ) → Scheme

-- The USIG that `new` is given; one of SGX is known by the sealed key that it was started with.
pub data GivenUsig : Type 0 where
  no_usig : GivenUsig
  sgx_usig : (sealed_key : List ℕ) → GivenUsig
  other_usig : GivenUsig

pub record Authenticator (Priv Pub : Type 0) : Type 0 where
  pub ks : KeyStore Priv Pub
  pub schemes : ℕ → Option Scheme

unfoldable pub given_scheme : GivenUsig → Result (Option Scheme)
given_scheme no_usig = ok none
given_scheme (sgx_usig key) = ok (some (usig_scheme key))
given_scheme other_usig = err unsupported_usig

unfoldable pub scheme_named : GivenUsig → String → Result (Option Scheme)
unfolding given_scheme
scheme_named usig name =
    if Text.◌==◌ name ecdsa_name
    then ok (some public_scheme)
    else (if Text.◌==◌ name sgx_name then given_scheme usig else err unknown_key_spec)

-- `(r == api.USIGAuthen) != (ksName == keySpecSgxEcdsa)`
unfoldable pub differ : Bool → Bool → Bool
differ true true = false
differ true false = true
differ false true = true
differ false false = false

-- One pass of the loop in `new`
unfoldable pub scheme_for : GivenUsig → ℕ → String → Result (Option Scheme)
unfolding scheme_named differ
scheme_for usig role name =
    if differ (role == usig_role) (Text.◌==◌ name sgx_name)
    then err wrong_key_spec
    else scheme_named usig name

-- A role without a scheme stays out of the map.
unfoldable pub set_scheme : (ℕ → Option Scheme) → ℕ → Option Scheme → ℕ → Option Scheme
set_scheme schemes role none = schemes
set_scheme schemes role (some s) = update schemes role (some s)

unfoldable pub role_in : {Pub : Type 0} → ℕ → Option (PublicKeySet Pub) → List ℕ
role_in role none = []
role_in role (some set) = role ∷ []

unfoldable pub check_tag :
    {Pub : Type 0}
    → (Scheme → List ℕ → List ℕ → Option Pub → Result (Unit {0}))
    → Option Scheme
    → List ℕ
    → List ℕ
    → Option Pub
    → Result (Unit {0})
check_tag check none msg tag key = err unknown_role
check_tag check (some s) msg tag key = wrap_err bad_tag (check s msg tag key)

-- The method of a missing scheme is called on nil.
unfoldable pub tag_with :
    {Priv : Type 0}
    → (Scheme → List ℕ → Option (PrivateKey Priv) → Result (List ℕ))
    → Option Scheme
    → List ℕ
    → Option (PrivateKey Priv)
    → Result (List ℕ)
tag_with sign none msg key = panic
tag_with sign (some s) msg key = sign s msg key

module _ {Priv Pub : Type 0} where
  -- NodeRoles; Go leaves the order open.
  unfoldable pub node_roles : KeyStore Priv Pub → List ℕ
  unfolding role_in
  node_roles ks =
      role_in replica_role (ks.node_keys replica_role)
      ++ (role_in usig_role (ks.node_keys usig_role)
          ++ role_in client_role (ks.node_keys client_role))

  unfoldable pub add_schemes :
      KeyStore Priv Pub → GivenUsig → List ℕ → (ℕ → Option Scheme) → Result (ℕ → Option Scheme)
  unfolding scheme_for set_scheme node_key_spec
  add_schemes ks usig [] schemes = ok schemes
  add_schemes ks usig (role ∷ roles) schemes = do
    scheme ← scheme_for usig role (node_key_spec ks role)
    add_schemes ks usig roles (set_scheme schemes role scheme)

  -- `new`
  unfoldable pub new_authenticator : KeyStore Priv Pub → GivenUsig → Result (Authenticator Priv Pub)
  unfolding node_roles add_schemes
  new_authenticator ks usig = do
    schemes ← add_schemes ks usig (node_roles ks) (λ _. none)
    ok (record { ks = ks; schemes = schemes })

  -- NewWithSGXUSIG after the key store is loaded; `starts` says of a sealed key whether sgxusig.New
  -- returns a USIG for it.
  -- `usigKey.([]byte)` panics on a key of another kind.
  unfoldable pub start_usig :
      (List ℕ → Bool)
      → KeyStore Priv Pub
      → Option (PrivateKey Priv)
      → Result (Authenticator Priv Pub)
  unfolding new_authenticator
  start_usig starts ks none = err missing_key
  start_usig starts ks (some (ecdsa_private k)) = panic
  start_usig starts ks (some (sealed bytes)) =
      if starts bytes then new_authenticator ks (sgx_usig bytes) else err usig_start_failed

  -- `ks.ownerKeys[api.USIGAuthen].privateKey`
  unfoldable pub with_usig_key :
      (List ℕ → Bool)
      → KeyStore Priv Pub
      → Option (OwnerKey Priv Pub)
      → Result (Authenticator Priv Pub)
  unfolding start_usig
  with_usig_key starts ks none = panic
  with_usig_key starts ks (some o) = start_usig starts ks o.private_key

  module _ (lib : KeyLib Priv Pub) where
    -- New
    unfoldable pub new_plain : List ℕ → ℕ → Result KeyFile → Result (Authenticator Priv Pub)
    unfolding load new_authenticator
    new_plain roles id parsed = do ks ← load lib roles id parsed; new_authenticator ks no_usig

    -- NewWithSGXUSIG
    unfoldable pub new_with_sgx :
        (List ℕ → Bool) → List ℕ → ℕ → Result KeyFile → Result (Authenticator Priv Pub)
    unfolding load with_usig_key
    new_with_sgx starts roles id parsed = do
      ks ← load lib roles id parsed
      with_usig_key starts ks (ks.owner_keys usig_role)

  -- VerifyMessageAuthenTag
  unfoldable pub verify_message_tag :
      (Scheme → List ℕ → List ℕ → Option Pub → Result (Unit {0}))
      → Authenticator Priv Pub
      → (role id : ℕ) (msg tag : List ℕ) → Result (Unit {0})
  unfolding check_tag node_public_key
  verify_message_tag check a role id msg tag = do
    key ← node_public_key a.ks role id
    check_tag check (a.schemes role) msg tag key

  -- GenerateMessageAuthenTag
  unfoldable pub generate_message_tag :
      (Scheme → List ℕ → Option (PrivateKey Priv) → Result (List ℕ))
      → Authenticator Priv Pub
      → (role : ℕ) (msg : List ℕ) → Result (List ℕ)
  unfolding tag_with private_key
  generate_message_tag sign a role msg = tag_with sign (a.schemes role) msg (private_key a.ks role)
