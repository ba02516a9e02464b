-- ===== src/Auth/Tests.antt =====
-- sample/authentication/crypto.go: tags under a toy signature, whose second number is the key.
use minbft.Base.{
  ℕ, ◌≡◌, refl, arith, ◌==◌, Option, none, some, List, [], ◌∷◌, ◌++◌, length, replicate,
}
use minbft.Base.Result.{Result, ok, err, panic, epoch_mismatch, invalid_signature}
use minbft.Usig.{big_endian, from_bytes, unmarshal_binary}
use minbft.Usig.Sgx.{PublicKey, ecdsa, other_key, Crypto, parse_cert, make_id, verify_ui}
use minbft.Auth.{captured_epoch, ecdsa_private, generate_tag, verify_tag, verify_usig_tag}
use minbft.Auth.Truncated.{verify_tag_prefix}
use minbft.Auth.Epoch.{Call, tag_epoch}
use minbft.Auth.Captured.{run_tags, run_tags-tag_epoch}

abbrev read_pair : List ℕ → Option (ℕ × ℕ × List ℕ)
read_pair [] = none
read_pair (r ∷ []) = none
read_pair (r ∷ s ∷ l) = some (r, s, l)

abbrev key_bytes : PublicKey ℕ → Result (List ℕ)
key_bytes (ecdsa k) = ok (k ∷ [])
key_bytes other_key = ok []

abbrev read_key : List ℕ → Result (PublicKey ℕ)
read_key [] = ok other_key
read_key (k ∷ l) = ok (ecdsa k)

abbrev toy : Crypto ℕ
toy = record {
  hash = λ l. length l ∷ [];
  verify = λ k h r s. s == k;
  marshal_signature = λ r s. r ∷ s ∷ [];
  unmarshal_signature = read_pair;
  marshal_key = key_bytes;
  parse_key = read_key;
}

abbrev text : ℕ → List ℕ
text end = replicate 32 7 ++ end ∷ []

tag_test : generate_tag toy (text 1) (ecdsa_private (λ md. some (0, 5))) ≡ ok (0 ∷ 5 ∷ [])
unfolding generate_tag
tag_test = refl

-- A tag that is no signature at all ends the process.
garbage_test : verify_tag toy (text 1) [] (ecdsa 5) ≡ panic
unfolding verify_tag
garbage_test = refl

wrong_key_test : verify_tag toy (text 1) (0 ∷ 5 ∷ []) (ecdsa 6) ≡ err invalid_signature
unfolding verify_tag
wrong_key_test = refl

verify_tag_prefix_example :
    verify_tag toy (text 1) (0 ∷ 5 ∷ []) (ecdsa 5) ≡ verify_tag toy (text 2) (0 ∷ 5 ∷ []) (ecdsa 5)
verify_tag_prefix_example =
    verify_tag_prefix toy (text 1) (text 2) (0 ∷ 5 ∷ []) (ecdsa 5) (λ k md r s. refl) (omega arith)
      (omega arith) refl

-- A UI with a counter, made in an epoch.
abbrev ui_tag : ℕ → ℕ → List ℕ
ui_tag counter epoch =
    0 ∷ 0 ∷ 0 ∷ 0 ∷ 0 ∷ 0 ∷ 0 ∷ counter ∷ 0 ∷ 0 ∷ 0 ∷ 0 ∷ 0 ∷ 0 ∷ 0 ∷ epoch ∷ 0 ∷ 5 ∷ []

abbrev first : Call ℕ
first = record { message = 1 ∷ []; tag = ui_tag 1 3; key = ecdsa 5 }

abbrev restarted : Call ℕ
restarted = record { message = 1 ∷ []; tag = ui_tag 1 4; key = ecdsa 5 }

abbrev later : Call ℕ
later = record { message = 2 ∷ []; tag = ui_tag 2 3; key = ecdsa 5 }

restarted_test :
    (verify_usig_tag toy (run_tags toy [] (first ∷ [])) (1 ∷ []) (ui_tag 1 4) (ecdsa 5)).1
    ≡ err epoch_mismatch
unfolding run_tags verify_usig_tag big_endian from_bytes unmarshal_binary captured_epoch parse_cert
    make_id verify_ui
restarted_test = refl

run_tags-tag_epoch_example : tag_epoch (ui_tag 1 3) ≡ tag_epoch (ui_tag 2 3)
unfolding run_tags verify_usig_tag big_endian from_bytes unmarshal_binary captured_epoch parse_cert
    make_id verify_ui
run_tags-tag_epoch_example = run_tags-tag_epoch toy [] (restarted ∷ []) first later refl refl refl
