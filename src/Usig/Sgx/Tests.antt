-- ===== src/Usig/Sgx/Tests.antt =====
-- usig/sgx: an instance with a toy signature, whose first number is the length of what is signed.
use minbft.Base.{
  ℕ, ◌+◌, ◌^◌, ◌≡◌, refl, sym, ap, true, ◌==◌, Option, none, some, List, [], ◌∷◌, ◌++◌, length,
  take, drop, arith, All,
}
use minbft.Base.Result.{
  Result, ok-injective, ok, err, bad_cert, short_input, epoch_mismatch, invalid_certificate,
}
use minbft.Messages.{Ui}
use minbft.Usig.{big_endian, from_bytes}
use minbft.Usig.Sgx.{
  PublicKey, ecdsa, other_key, Crypto, Signer, new_enclave, usig_init, create_ui, make_id,
  verify_ui, sgx_uint32_to_big,
}
use minbft.Usig.Sgx.Sequence.{Call, run_usig, CountsFrom, run_usig-verify_ui}

abbrev read_pair : List ℕ → Option (ℕ × ℕ × List ℕ)
read_pair [] = none
read_pair (r ∷ []) = none
read_pair (r ∷ s ∷ l) = some (r, s, l)

abbrev key_bytes : PublicKey ℕ → Result (List ℕ)
key_bytes (ecdsa k) = ok (k ∷ [])
key_bytes other_key = ok []

abbrev read_key : List ℕ → Result (PublicKey ℕ)
read_key [] = ok other_key
read_key (k ∷ l) = ok (ecdsa k)

abbrev toy : Crypto ℕ
toy = record {
  hash = λ l. length l ∷ [];
  verify = λ k h r s. s == k;
  marshal_signature = λ r s. r ∷ s ∷ [];
  unmarshal_signature = read_pair;
  marshal_key = key_bytes;
  parse_key = read_key;
}

-- The words of the numbers 1 and 2^32 + 5, and a call that fails.
abbrev signing : Signer
signing l = some (1 ∷ [], 5 ∷ 1 ∷ [])

abbrev broken : Signer
broken l = none

abbrev calls : List Call
calls =
    record { message = 7 ∷ []; sign = signing }
    ∷ record { message = 8 ∷ []; sign = broken }
    ∷ record { message = 9 ∷ []; sign = signing }
    ∷ []

abbrev identity : List ℕ
identity = 0 ∷ 0 ∷ 0 ∷ 0 ∷ 0 ∷ 0 ∷ 0 ∷ 3 ∷ 4294967301 ∷ []

abbrev second : Ui
second = record { counter = 2; cert = 0 ∷ 0 ∷ 0 ∷ 0 ∷ 0 ∷ 0 ∷ 0 ∷ 3 ∷ 1 ∷ 4294967301 ∷ [] }

big_test : sgx_uint32_to_big (5 ∷ 1 ∷ []) ≡ 2 ^ 32 + 5
unfolding sgx_uint32_to_big from_bytes
big_test = refl

identity_test : make_id toy 3 (ecdsa (2 ^ 32 + 5)) ≡ ok identity
unfolding make_id big_endian
identity_test = refl

calls_test :
    run_usig toy (usig_init new_enclave (some 3) true).0 calls
    ≡ (7 ∷ [], record second { counter = 1 }) ∷ (9 ∷ [], second) ∷ []
unfolding run_usig usig_init create_ui big_endian from_bytes
calls_test = refl

other_epoch_test : verify_ui toy (9 ∷ []) second (1 ∷ drop 1 identity) ≡ err epoch_mismatch
unfolding verify_ui from_bytes
other_epoch_test = refl

other_key_test : verify_ui toy (9 ∷ []) second (take 8 identity ++ 6 ∷ []) ≡ err invalid_certificate
unfolding verify_ui from_bytes
other_key_test = refl

short_test :
    verify_ui toy (9 ∷ []) (record second { cert = 1 ∷ [] }) identity ≡ err (bad_cert short_input)
unfolding verify_ui from_bytes
short_test = refl

signing_valid :
    (bytes x y : List ℕ)
    → signing bytes ≡ some (x, y)
    → toy.verify (2 ^ 32 + 5) (length bytes ∷ []) (sgx_uint32_to_big x) (sgx_uint32_to_big y) ≡ true
unfolding sgx_uint32_to_big from_bytes
signing_valid bytes x y e =
    let same : 5 ∷ 1 ∷ [] ≡ y = cc in ap (λ l. sgx_uint32_to_big l == 2 ^ 32 + 5) (sym same)

run_usig-verify_ui_example :
    let uis = run_usig toy (usig_init new_enclave (some 3) true).0 calls in
    CountsFrom 1 uis × All (λ p. verify_ui toy p.0 p.1 identity ≡ ok tt) uis
unfolding sgx_uint32_to_big from_bytes
run_usig-verify_ui_example =
    run_usig-verify_ui toy (2 ^ 32 + 5) 3 identity calls (λ r s. refl)
      (λ b e. ap read_key (sym (ok-injective e)))
      (signing_valid, ((λ bytes x y e. cc), (signing_valid, tt))) (omega arith) identity_test
      (omega arith)
