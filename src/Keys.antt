-- ===== src/Keys.antt =====
-- sample/authentication/keymanager.go: the sample's key store.
pub mod Parse
pub mod Generate
pub mod Loads
pub mod Authenticator
pub mod Tags
pub mod Schemes
pub mod Loading
pub mod Pairs
pub mod Generated
pub mod Testnet
pub mod Tests
use Prim.Native.String.{String}
use text.Mathlib.Text
use minbft.Base.{
  ℕ, Bool, true, false, Option, none, some, List, [], ◌∷◌, ◌==◌, if◌then◌else◌, update,
}
use minbft.Base.Result.{
  Error, Result, ok, err, panic, ◌>>=◌, ◌>>◌, unknown_key_spec, bad_base64, bad_key, not_ecdsa,
  missing_key, no_key_set,
}

-- api.AuthenticationRole, a number
abbrev pub replica_role : ℕ
replica_role = 1

abbrev pub usig_role : ℕ
usig_role = 2

abbrev pub client_role : ℕ
client_role = 3

-- The file, as the YAML library reads it.
pub record KeyPair : Type 0 where
  pub id : ℕ
  pub private_key : String
  pub public_key : String

pub record KeySet : Type 0 where
  pub key_spec : String
  pub keys : List (Option KeyPair)

pub record KeyFile : Type 0 where
  pub replica : Option KeySet
  pub usig : Option KeySet
  pub client : Option KeySet

-- The implementations of the interface `keySpec`
pub data Spec : Type 0 where
  ecdsa_spec : Spec
  sgx_spec : Spec

abbrev pub ecdsa_name : String
ecdsa_name = "ECDSA"

abbrev pub sgx_name : String
sgx_name = "SGX_ECDSA"

-- getKeySpec
unfoldable pub get_key_spec : String → Result Spec
get_key_spec name =
    if Text.◌==◌ name sgx_name
    then ok sgx_spec
    else (if Text.◌==◌ name ecdsa_name then ok ecdsa_spec else err unknown_key_spec)

-- getSpecName
unfoldable pub spec_name : Spec → String
spec_name ecdsa_spec = ecdsa_name
spec_name sgx_spec = sgx_name

-- What x509.ParsePKIXPublicKey may give.
pub data PkixKey (Pub : Type 0) : Type 0 where
  ecdsa : Pub → PkixKey Pub
  other_key : PkixKey Pub

-- The libraries: base64, and the DER forms of keys. `none` is an error.
pub record KeyLib (Priv Pub : Type 0) : Type 0 where
  pub decode : String → Option (List ℕ)
  pub encode : List ℕ → String
  pub parse_private : List ℕ → Option Priv
  pub parse_public : List ℕ → Option (PkixKey Pub)
  pub marshal_private : Priv → Option (List ℕ)
  pub marshal_public : Pub → Option (List ℕ)
  pub public_of : Priv → Pub

-- A private key is one of ECDSA or the sealed key of a USIG.
pub data PrivateKey (Priv : Type 0) : Type 0 where
  ecdsa_private : Priv → PrivateKey Priv
  sealed : List ℕ → PrivateKey Priv

pub record OwnerKey (Priv Pub : Type 0) : Type 0 where
  pub keyspec : String
  pub private_key : Option (PrivateKey Priv)
  pub public_key : Option Pub

pub record PublicKeySet (Pub : Type 0) : Type 0 where
  pub keyspec : String
  pub keys : ℕ → Option Pub

pub record KeyStore (Priv Pub : Type 0) : Type 0 where
  pub id : ℕ
  pub owner_keys : ℕ → Option (OwnerKey Priv Pub)
  pub node_keys : ℕ → Option (PublicKeySet Pub)

unfoldable pub or_error : {A : Type 0} → Error → Option A → Result A
or_error e none = err e
or_error e (some a) = ok a

-- In NodePublicKey an identifier without a key gives nil, and no error.
unfoldable pub key_in : {Pub : Type 0} → Option (PublicKeySet Pub) → ℕ → Result (Option Pub)
key_in none id = err no_key_set
key_in (some set) id = ok (set.keys id)

unfoldable pub set_spec : {Pub : Type 0} → Option (PublicKeySet Pub) → String
set_spec none = ""
set_spec (some set) = set.keyspec

unfoldable pub is_some : {Priv : Type 0} → Option (PrivateKey Priv) → Bool
is_some none = false
is_some (some k) = true

module _ {Priv Pub : Type 0} where
  abbrev pub no_owner : OwnerKey Priv Pub
  no_owner = record { keyspec = ""; private_key = none; public_key = none }

  -- KeySpec, PrivateKey and PublicKey
  unfoldable pub owner_spec : Option (OwnerKey Priv Pub) → String
  owner_spec none = ""
  owner_spec (some o) = o.keyspec

  unfoldable pub owner_private : Option (OwnerKey Priv Pub) → Option (PrivateKey Priv)
  owner_private none = none
  owner_private (some o) = o.private_key

  unfoldable pub owner_public : Option (OwnerKey Priv Pub) → Option Pub
  owner_public none = none
  owner_public (some o) = o.public_key

  unfoldable pub key_spec : KeyStore Priv Pub → ℕ → String
  unfolding owner_spec
  key_spec ks role = owner_spec (ks.owner_keys role)

  unfoldable pub private_key : KeyStore Priv Pub → ℕ → Option (PrivateKey Priv)
  unfolding owner_private
  private_key ks role = owner_private (ks.owner_keys role)

  unfoldable pub public_key : KeyStore Priv Pub → ℕ → Option Pub
  unfolding owner_public
  public_key ks role = owner_public (ks.owner_keys role)

  -- NodePublicKey
  unfoldable pub node_public_key : KeyStore Priv Pub → ℕ → ℕ → Result (Option Pub)
  unfolding key_in
  node_public_key ks role id = key_in (ks.node_keys role) id

  -- NodeKeySpec
  unfoldable pub node_key_spec : KeyStore Priv Pub → ℕ → String
  unfolding set_spec
  node_key_spec ks role = set_spec (ks.node_keys role)

  -- `ks.ownerKeys[r] = &ownerKey{}` for each of the roles
  unfoldable pub owner_roles : List ℕ → ℕ → Option (OwnerKey Priv Pub)
  owner_roles [] role = none
  owner_roles (r ∷ roles) role = if r == role then some no_owner else owner_roles roles role

  -- The last loop of LoadSimpleKeyStore
  unfoldable pub check_own_keys : KeyStore Priv Pub → List ℕ → Result (KeyStore Priv Pub)
  unfolding is_some private_key
  check_own_keys ks [] = ok ks
  check_own_keys ks (r ∷ roles) =
      let rest = check_own_keys ks roles in
      if is_some (private_key ks r) then rest else err missing_key
