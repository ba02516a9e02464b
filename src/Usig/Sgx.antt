-- ===== src/Usig/Sgx.antt =====
-- usig/sgx: the USIG around an SGX enclave (sgx-usig.go and usig-enclave.go), and the enclave itself
-- (enclave/usig.c). A call into the enclave is one step, since the caller holds a lock.
pub mod Sequence
pub mod Tests
use minbft.Base.{
  ℕ, zero, suc, ◌+◌, ◌*◌, ◌/◌, ◌%◌, ◌^◌, Bool, true, false, not, Option, none, some, List, [], ◌∷◌,
  ◌++◌, inc64, ltb, length, take, drop, ◌==◌, if◌then◌else◌,
}
use minbft.Base.Result.{
  Error, Result, ok, err, panic, ◌>>=◌, ◌>>◌, fail_if, wrap_err, short_input, sgx_error,
  bad_usig_id, bad_cert, epoch_mismatch, not_ecdsa, bad_signature, extra_bytes, invalid_certificate,
}
use minbft.Messages.{Ui}
use minbft.Usig.{big_endian, from_bytes}

-- `crypto.PublicKey`: an ECDSA key, or one of another kind.
pub data PublicKey (Key : Type 0) : Type 0 where
  ecdsa : Key → PublicKey Key
  other_key : PublicKey Key

-- The libraries: SHA-256, ECDSA, the ASN.1 form of a signature, and the PKIX form of a public key.
pub record Crypto (Key : Type 0) : Type 0 where
  pub hash : List ℕ → List ℕ
  pub verify : Key → List ℕ → (r s : ℕ) → Bool
  pub marshal_signature : (r s : ℕ) → List ℕ
  pub unmarshal_signature : List ℕ → Option (ℕ × ℕ × List ℕ)
  pub marshal_key : PublicKey Key → Result (List ℕ)
  pub parse_key : List ℕ → Result (PublicKey Key)

-- The first `n` bytes of a number, the lowest one first.
unfoldable pub little_endian : ℕ → ℕ → List ℕ
little_endian zero x = []
little_endian (suc n) x = x % 256 ∷ little_endian n (x / 256)

-- usig_cert_data_t
unfoldable pub cert_data : List ℕ → (epoch counter : ℕ) → List ℕ
unfolding little_endian
cert_data digest epoch counter = digest ++ (little_endian 8 epoch ++ little_endian 8 counter)

-- The static variables of the enclave, without the key.
pub record Enclave : Type 0 where
  pub initialized : Bool
  pub epoch : ℕ
  pub counter : ℕ

abbrev pub new_enclave : Enclave
new_enclave = record { initialized = false; epoch = 0; counter = 1 }

-- ecall_usig_init, given the random number and whether a key could be made or unsealed.
unfoldable pub usig_init : Enclave → Option ℕ → Bool → Enclave × Result (Unit {0})
usig_init e rand key = if e.initialized then (e, err sgx_error) else elim rand [
  | none ↦ (e, err sgx_error)
  | some epoch ↦
      if key
      then (record e { epoch = epoch; initialized = true }, ok tt)
      else (record e { epoch = epoch }, err sgx_error)
]

-- What `sgx_ecdsa_sign` makes of some data in one call: nothing, or a signature in words of 32 bits.
abbrev pub Signer : Type 0
Signer = List ℕ → Option (List ℕ × List ℕ)

-- ecall_usig_create_ui
unfoldable pub ecall_create_ui : Enclave → List ℕ → Signer → Enclave × Result (ℕ × List ℕ × List ℕ)
unfolding cert_data
ecall_create_ui e digest sign =
    if not e.initialized
    then (e, err sgx_error)
    else elim (sign (cert_data digest e.epoch e.counter)) [
      | none ↦ (e, err sgx_error)
      | some (x, y) ↦ (record e { counter = inc64 e.counter }, ok (e.counter, x, y))
    ]

-- sgxUint32SliceToBigInt: the bytes of the words, the last word first.
unfoldable pub word_bytes : List ℕ → List ℕ
word_bytes [] = []
word_bytes (w ∷ l) =
    word_bytes l ++ (w / 2 ^ 24 % 256 ∷ w / 2 ^ 16 % 256 ∷ w / 2 ^ 8 % 256 ∷ w % 256 ∷ [])

unfoldable pub sgx_uint32_to_big : List ℕ → ℕ
unfolding word_bytes
sgx_uint32_to_big l = from_bytes 0 (word_bytes l)

-- MakeCert
unfoldable pub make_cert : ℕ → List ℕ → List ℕ
make_cert epoch signature = big_endian 8 epoch ++ signature

-- ParseCert
unfoldable pub parse_cert : List ℕ → Result (ℕ × List ℕ)
parse_cert cert =
    if ltb (length cert) 8 then err short_input else ok (from_bytes 0 (take 8 cert), drop 8 cert)

module _ {Key : Type 0} (lib : Crypto Key) where
  -- sgxEC256SigToASN1
  unfoldable pub signature_bytes : List ℕ → List ℕ → List ℕ
  unfolding sgx_uint32_to_big
  signature_bytes x y = lib.marshal_signature (sgx_uint32_to_big x) (sgx_uint32_to_big y)

  -- USIGEnclave.CreateUI
  unfoldable pub enclave_create_ui : Enclave → List ℕ → Signer → Enclave × Result (ℕ × List ℕ)
  unfolding ecall_create_ui signature_bytes
  enclave_create_ui e digest sign =
      let (t, r) = ecall_create_ui e digest sign in
      (t, do made ← r; ok (made.0, signature_bytes made.1 made.2))

  -- USIG.CreateUI, which adds the epoch
  unfoldable pub create_ui : Enclave → List ℕ → Signer → Enclave × Result Ui
  unfolding enclave_create_ui make_cert
  create_ui e message sign =
      let (t, r) = enclave_create_ui e (lib.hash message) sign in
      (t, do made ← r; ok (record { counter = made.0; cert = make_cert e.epoch made.1 }))

  -- MakeID
  unfoldable pub make_id : ℕ → PublicKey Key → Result (List ℕ)
  make_id epoch key = do bytes ← lib.marshal_key key; ok (big_endian 8 epoch ++ bytes)

  -- ParseID
  unfoldable pub parse_id : List ℕ → Result (ℕ × PublicKey Key)
  parse_id id =
      if ltb (length id) 8
      then err short_input
      else (do key ← lib.parse_key (drop 8 id); ok (from_bytes 0 (take 8 id), key))

  -- VerifySignature from the unmarshalling on, for an ECDSA key
  unfoldable pub check_signature : Key → List ℕ → Option (ℕ × ℕ × List ℕ) → Result (Unit {0})
  check_signature key signed none = err bad_signature
  check_signature key signed (some (r, s, rest)) = do
    fail_if (ltb 0 (length rest)) extra_bytes
    fail_if (not (lib.verify key (lib.hash signed) r s)) invalid_certificate

  unfoldable pub verify_signature :
      PublicKey Key → List ℕ → (epoch counter : ℕ) → List ℕ → Result (Unit {0})
  unfolding check_signature cert_data
  verify_signature other_key digest epoch counter signature = err not_ecdsa
  verify_signature (ecdsa key) digest epoch counter signature =
      check_signature key (cert_data digest epoch counter) (lib.unmarshal_signature signature)

  -- VerifyUI
  unfoldable pub verify_ui : List ℕ → Ui → List ℕ → Result (Unit {0})
  unfolding parse_id parse_cert verify_signature
  verify_ui message ui id = do
    parsed ← wrap_err bad_usig_id (parse_id id)
    cert ← wrap_err bad_cert (parse_cert ui.cert)
    fail_if (not (cert.0 == parsed.0)) epoch_mismatch
    verify_signature parsed.1 (lib.hash message) parsed.0 ui.counter cert.1
