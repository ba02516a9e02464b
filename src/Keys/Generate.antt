-- ===== src/Keys/Generate.antt =====
-- sample/authentication/keymanager.go: the keys for a test network. The random choices, and whether
-- the USIG's enclave starts, are parameters.
use minbft.Base.{
  ℕ, zero, suc, ◌+◌, ◌%◌, ◌^◌, Option, none, some, List, [], ◌∷◌, ◌==◌, if◌then◌else◌,
}
use minbft.Base.Result.{Result, ok, err, panic, ◌>>=◌, generation_failed}
use Prim.Native.String.{String}
use minbft.Keys.{
  KeyPair, KeySet, KeyFile, Spec, ecdsa_spec, sgx_spec, sgx_name, get_key_spec, KeyLib, or_error,
}

-- `curve` is the number of bits; `ecdsa.GenerateKey` for the `i`th pair, and the sealed and the public
-- key of the `i`th USIG instance.
pub record Draws (Priv Pub : Type 0) : Type 0 where
  pub generate_key : (curve i : ℕ) → Option Priv
  pub new_usig : (i : ℕ) → Option (List ℕ × Pub)

-- TestnetKeyOpts
pub record TestnetKeyOpts : Type 0 where
  pub number_replicas : ℕ
  pub replica_key_spec : String
  pub replica_sec_param : ℕ
  pub number_clients : ℕ
  pub client_key_spec : String
  pub client_sec_param : ℕ

-- The curve for a security parameter
unfoldable pub curve_of : ℕ → ℕ
curve_of param =
    if param == 224
    then 224
    else (if param == 384 then 384 else (if param == 521 then 521 else 256))

-- An error that makes generateKeyPair panic
unfoldable pub must : {A : Type 0} → Option A → Result A
must none = panic
must (some a) = ok a

module _ {Priv Pub : Type 0} (lib : KeyLib Priv Pub) (draws : Draws Priv Pub) where
  -- generateKeyPair, the private and the public key as text, from the new key or USIG on
  unfoldable pub key_texts : Option Priv → Result (String × String)
  unfolding must
  key_texts none = err generation_failed
  key_texts (some key) = do
    priv ← must (lib.marshal_private key)
    pkix ← must (lib.marshal_public (lib.public_of key))
    ok (lib.encode priv, lib.encode pkix)

  unfoldable pub usig_texts : Option (List ℕ × Pub) → Result (String × String)
  unfolding or_error
  usig_texts none = err generation_failed
  usig_texts (some usig) = do
    pkix ← or_error generation_failed (lib.marshal_public usig.1)
    ok (lib.encode usig.0, lib.encode pkix)

  unfoldable pub generate_key_pair : Spec → ℕ → ℕ → Result (String × String)
  unfolding key_texts usig_texts curve_of
  generate_key_pair ecdsa_spec param i = key_texts (draws.generate_key (curve_of param) i)
  generate_key_pair sgx_spec param i = usig_texts (draws.new_usig i)

  -- The loop of generateKeySet: `n` pairs from the identifier `i` on
  unfoldable pub generate_pairs : Spec → ℕ → ℕ → ℕ → Result (List (Option KeyPair))
  unfolding generate_key_pair
  generate_pairs spec param zero i = ok []
  generate_pairs spec param (suc n) i = do
    text ← generate_key_pair spec param i
    rest ← generate_pairs spec param n (i + 1)
    ok (some (record { id = i % 2 ^ 32; private_key = text.0; public_key = text.1 }) ∷ rest)

  unfoldable pub generate_key_set : ℕ → String → ℕ → Result KeySet
  unfolding get_key_spec generate_pairs
  generate_key_set n name param = do
    spec ← get_key_spec name
    keys ← generate_pairs spec param n 0
    ok (record { key_spec = name; keys = keys })

-- GenerateTestnetKeys, up to the YAML library
unfoldable pub generate_testnet_keys :
    {Priv Pub : Type 0}
    → KeyLib Priv Pub
    → (replica usig client : Draws Priv Pub) → TestnetKeyOpts
    → Result KeyFile
unfolding generate_key_set
generate_testnet_keys lib replica usig client opts = do
  r ← generate_key_set lib replica opts.number_replicas opts.replica_key_spec opts.replica_sec_param
  u ← generate_key_set lib usig opts.number_replicas sgx_name 0
  c ← generate_key_set lib client opts.number_clients opts.client_key_spec opts.client_sec_param
  ok (record { replica = some r; usig = some u; client = some c })
