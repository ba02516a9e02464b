-- ===== src/Keys/Parse.antt =====
-- sample/authentication/keymanager.go: how the key store is loaded. Go leaves open in which order the
-- three key sets are loaded; it is fixed here, and matters only to which of several errors is returned.
use Prim.Native.String.{String}
use minbft.Base.{ℕ, Option, none, some, List, [], ◌∷◌, ◌==◌, if◌then◌else◌, update}
use minbft.Base.Result.{Result, ok, err, panic, ◌>>=◌, bad_base64, bad_key, not_ecdsa}
use minbft.Keys.{
  replica_role, usig_role, client_role, KeyPair, KeySet, KeyFile, Spec, get_key_spec, spec_name,
  PkixKey, KeyLib, PrivateKey, OwnerKey, PublicKeySet, KeyStore, or_error, owner_roles,
  check_own_keys, ecdsa_spec, sgx_spec, ecdsa, other_key, ecdsa_private, sealed,
}

module _ {Priv Pub : Type 0} (lib : KeyLib Priv Pub) where
  -- parsePublicKey
  unfoldable pub ecdsa_key : PkixKey Pub → Result Pub
  ecdsa_key (ecdsa key) = ok key
  ecdsa_key other_key = err not_ecdsa

  unfoldable pub parse_public_key : String → Result Pub
  unfolding or_error ecdsa_key
  parse_public_key text = do
    der ← or_error bad_base64 (lib.decode text)
    key ← or_error bad_key (lib.parse_public der)
    ecdsa_key key

  -- parsePrivateKey
  unfoldable pub parse_private_key : Spec → String → Result (PrivateKey Priv)
  unfolding or_error
  parse_private_key sgx_spec text = do
    bytes ← or_error bad_base64 (lib.decode text)
    ok (sealed bytes)
  parse_private_key ecdsa_spec text = do
    der ← or_error bad_base64 (lib.decode text)
    key ← or_error bad_key (lib.parse_private der)
    ok (ecdsa_private key)

  -- `pubkeyMap[keypair.ID] = pubKey`; the set of the role is there, since it was just made.
  unfoldable pub add_public : Option (PublicKeySet Pub) → ℕ → Pub → Option (PublicKeySet Pub)
  add_public none id key = none
  add_public (some set) id key = some (record set { keys = update set.keys id (some key) })

  -- The rest of parseKeyPair, for the owner of the role if the pair is the node's own
  unfoldable pub add_owner :
      KeyStore Priv Pub
      → ℕ
      → Spec
      → KeyPair
      → Pub
      → Option (OwnerKey Priv Pub)
      → Result (KeyStore Priv Pub)
  unfolding spec_name parse_private_key
  add_owner ks role spec pair key none = ok ks
  add_owner ks role spec pair key (some owner) =
      if pair.id == ks.id
      then (do
        priv ← parse_private_key spec pair.private_key
        ok (record ks {
          owner_keys = update ks.owner_keys role (
              some (record {
                keyspec = spec_name spec;
                private_key = some priv;
                public_key = some key;
              }));
        }))
      else ok ks

  -- parseKeyPair; a pair that the file leaves empty is a nil pointer.
  unfoldable pub parse_key_pair :
      KeyStore Priv Pub → ℕ → Spec → Option KeyPair → Result (KeyStore Priv Pub)
  unfolding parse_public_key add_public add_owner
  parse_key_pair ks role spec none = panic
  parse_key_pair ks role spec (some pair) = do
    key ← parse_public_key pair.public_key
    add_owner
        (record ks {
          node_keys = update ks.node_keys role (add_public (ks.node_keys role) pair.id key);
        })
        role spec pair key (ks.owner_keys role)

  unfoldable pub parse_key_pairs :
      KeyStore Priv Pub → ℕ → Spec → List (Option KeyPair) → Result (KeyStore Priv Pub)
  unfolding parse_key_pair
  parse_key_pairs ks role spec [] = ok ks
  parse_key_pairs ks role spec (pair ∷ l) = do
    ks' ← parse_key_pair ks role spec pair
    parse_key_pairs ks' role spec l

  -- One pass of the loop over the key sets in LoadSimpleKeyStore
  unfoldable pub load_key_set : KeyStore Priv Pub → ℕ → Option KeySet → Result (KeyStore Priv Pub)
  unfolding get_key_spec spec_name parse_key_pairs
  load_key_set ks role none = ok ks
  load_key_set ks role (some set) = do
    spec ← get_key_spec set.key_spec
    parse_key_pairs
        (record ks {
          node_keys =
              update ks.node_keys role
                (some (record { keyspec = spec_name spec; keys = λ _. none }));
        })
        role spec set.keys

  -- LoadSimpleKeyStore, given what reading the file and the YAML library return
  unfoldable pub load : List ℕ → ℕ → Result KeyFile → Result (KeyStore Priv Pub)
  unfolding load_key_set owner_roles check_own_keys
  load roles id parsed = do
    file ← parsed
    let empty : KeyStore Priv Pub = record {
      id = id;
      owner_keys = owner_roles roles;
      node_keys = λ _. none;
    }
    ks₁ ← load_key_set empty replica_role file.replica
    ks₂ ← load_key_set ks₁ usig_role file.usig
    ks₃ ← load_key_set ks₂ client_role file.client
    check_own_keys ks₃ roles
