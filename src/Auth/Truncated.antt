-- ===== src/Auth/Truncated.antt =====
-- sample/authentication/crypto.go: what a signature of the sample covers.
use minbft.Base.{
  ℕ, ◌≤◌, ◌≡◌, refl, sym, ap, ◌∙◌, not, Option, none, some, List, [], ◌++◌, length, take,
  take-append,
}
use minbft.Base.Result.{ok, fail_if, ◌>>=◌, invalid_signature}
use minbft.Usig.Sgx.{PublicKey, ecdsa, other_key, Crypto}
use minbft.Auth.{sum_of, check_parsed, cipher_verify, verify_tag}

-- Let the ECDSA verification read the first 32 bytes of what it is given as a digest. Then a tag is
-- accepted for a message exactly if it is for every other message with the same first 32 bytes.
pub verify_tag_prefix :
    {Key : Type 0} (lib : Crypto Key) (m n sig : List ℕ) (key : PublicKey Key)
    → ((k : Key) (md : List ℕ) (r s : ℕ) → lib.verify k md r s ≡ lib.verify k (take 32 md) r s)
    → 32 ≤ length m
    → 32 ≤ length n
    → take 32 m ≡ take 32 n
    → verify_tag lib m sig key ≡ verify_tag lib n sig key
unfolding verify_tag cipher_verify sum_of
verify_tag_prefix {Key} lib m n sig key short hm hn same =
    ap (λ v. v >>= λ valid. fail_if (not valid) invalid_signature)
      (checked key (lib.unmarshal_signature sig))
  where
    prefix : take 32 (m ++ lib.hash []) ≡ take 32 (n ++ lib.hash [])
    prefix = take-append 32 m (lib.hash []) hm ∙ same ∙ sym (take-append 32 n (lib.hash []) hn)

    checked :
        (k : PublicKey Key) (p : Option (ℕ × ℕ × List ℕ))
        → check_parsed lib (sum_of lib m) k p ≡ check_parsed lib (sum_of lib n) k p
    checked k none = refl
    checked other_key (some p) = refl
    checked (ecdsa k) (some (r, s, rest)) = ap ok (
        short k (m ++ lib.hash []) r s
        ∙ ap (λ d. lib.verify k d r s) prefix
        ∙ sym (short k (n ++ lib.hash []) r s))
