-- ===== src/Auth.antt =====
-- sample/authentication/crypto.go: the authentication schemes of the sample. A private key is what
-- signing under it does in one call; the libraries are those of Usig/Sgx.
pub mod Truncated
pub mod Epoch
pub mod Captured
pub mod Tests
use minbft.Base.{
  ◌==◌, ◌&&◌, if◌then◌else◌, ℕ, Bool, true, false, not, Option, none, some, List, [], ◌∷◌, ◌++◌,
  take,
}
use minbft.Base.Result.{
  Error, Result, ok, err, panic, ◌>>=◌, ◌>>◌, fail_if, wrap_err, invalid_signature, signing_error,
  bad_private_key, unmarshal_ui, bad_fingerprint, bad_cert, bad_usig_id,
}
use minbft.Messages.{Ui}
use minbft.Usig.{marshal_binary, unmarshal_binary}
use minbft.Usig.Sgx.{
  PublicKey, ecdsa, other_key, Crypto, Enclave, Signer, create_ui, make_id, parse_cert, verify_ui,
}

pub data PrivateKey : Type 0 where
  ecdsa_private : (List ℕ → Option (ℕ × ℕ)) → PrivateKey
  other_private : PrivateKey

-- USIG key fingerprint -> captured epoch value, the latest entry first
abbrev pub Epochs : Type 0
Epochs = List (List ℕ × ℕ)

unfoldable pub same_bytes : List ℕ → List ℕ → Bool
same_bytes [] [] = true
same_bytes [] (y ∷ r) = false
same_bytes (x ∷ l) [] = false
same_bytes (x ∷ l) (y ∷ r) = (x == y) && same_bytes l r

unfoldable pub captured_epoch : Epochs → List ℕ → Option ℕ
unfolding same_bytes
captured_epoch [] print = none
captured_epoch ((k, epoch) ∷ l) print =
    let rest = captured_epoch l print in if same_bytes k print then some epoch else rest

module _ {Key : Type 0} (lib : Crypto Key) where
  -- `HashScheme.New().Sum(m)`, which appends the hash of no bytes to its argument
  unfoldable pub sum_of : List ℕ → List ℕ
  sum_of m = m ++ lib.hash []

  -- EcdsaSigCipher.Sign
  unfoldable pub cipher_sign : List ℕ → PrivateKey → Result (List ℕ)
  cipher_sign md other_private = err bad_private_key
  cipher_sign md (ecdsa_private sign) = elim (sign md) [
    | none ↦ err signing_error
    | some (r, s) ↦ ok (lib.marshal_signature r s)
  ]

  -- EcdsaSigCipher.Verify, from the result of the unmarshalling on
  unfoldable pub check_parsed : List ℕ → PublicKey Key → Option (ℕ × ℕ × List ℕ) → Result Bool
  check_parsed md key none = panic
  check_parsed md (ecdsa key) (some (r, s, rest)) = ok (lib.verify key md r s)
  check_parsed md other_key (some parsed) = ok false

  unfoldable pub cipher_verify : List ℕ → List ℕ → PublicKey Key → Result Bool
  unfolding check_parsed
  cipher_verify md sig key = check_parsed md key (lib.unmarshal_signature sig)

  -- GenerateAuthenticationTag and VerifyAuthenticationTag of PublicAuthenScheme
  unfoldable pub generate_tag : List ℕ → PrivateKey → Result (List ℕ)
  unfolding sum_of cipher_sign
  generate_tag m key = cipher_sign (sum_of m) key

  unfoldable pub verify_tag : List ℕ → List ℕ → PublicKey Key → Result (Unit {0})
  unfolding sum_of cipher_verify
  verify_tag m sig key = do
    valid ← cipher_verify (sum_of m) sig key
    fail_if (not valid) invalid_signature

  -- makeUSIGKeyFingerprint
  unfoldable pub key_fingerprint : PublicKey Key → Result (List ℕ)
  key_fingerprint key = do bytes ← lib.marshal_key key; ok (take 8 (lib.hash bytes))

  -- GenerateAuthenticationTag of SGXUSIGAuthenticationScheme
  unfoldable pub generate_usig_tag : Enclave → List ℕ → Signer → Enclave × Result (List ℕ)
  generate_usig_tag e m sign =
      let (t, r) = create_ui lib e m sign in (t, do ui ← r; ok (marshal_binary ui))

  -- The captured epoch, or that of the certificate
  unfoldable pub epoch_of : Option ℕ → Ui → Result ℕ
  epoch_of (some epoch) ui = ok epoch
  epoch_of none ui = do cert ← wrap_err bad_cert (parse_cert ui.cert); ok cert.0

  -- VerifyAuthenticationTag of SGXUSIGAuthenticationScheme up to the capture, with what is captured
  unfoldable pub check_usig_tag : Epochs → List ℕ → List ℕ → PublicKey Key → Result (List ℕ × ℕ)
  unfolding key_fingerprint epoch_of
  check_usig_tag epochs m sig key = do
    ui ← wrap_err unmarshal_ui (unmarshal_binary sig)
    print ← wrap_err bad_fingerprint (key_fingerprint key)
    epoch ← epoch_of (captured_epoch epochs print) ui
    id ← wrap_err bad_usig_id (make_id lib epoch key)
    verify_ui lib m ui id
    ok (print, epoch)

  -- `au.epoch[fingerprint] = epoch`
  unfoldable pub capture : Epochs → Result (List ℕ × ℕ) → Epochs × Result (Unit {0})
  capture epochs (ok captured) = (captured ∷ epochs, ok tt)
  capture epochs (err why) = (epochs, err why)
  capture epochs panic = (epochs, panic)

  unfoldable pub verify_usig_tag :
      Epochs → List ℕ → List ℕ → PublicKey Key → Epochs × Result (Unit {0})
  unfolding check_usig_tag capture
  verify_usig_tag epochs m sig key = capture epochs (check_usig_tag epochs m sig key)
