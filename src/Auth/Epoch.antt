-- ===== src/Auth/Epoch.antt =====
-- sample/authentication/crypto.go: the epoch of a peer's USIG that is captured with its first identifier.
use mathlib.Core.Path.{ap₂}
use minbft.Base.{
  Bool-cases, ◌≢◌, true, ℕ, ◌≡◌, ◌≢◌, ◌⊎◌, inl, inr, refl, sym, ap, ◌∙◌, subst, false, not, Option,
  none, some, List, [], ◌∷◌, ◌++◌, length, length-append, take, drop, take-front, ltb, ◌==◌, arith,
}
use minbft.Base.Result.{
  Result, ok, bad_cert, fail_if, fail_if-eq-ok, wrap_err, wrap_err-eq-ok, >>=-eq-ok, ok-injective,
  ◌>>=◌,
}
use minbft.Messages.{Ui}
use minbft.Usig.{big_endian, from_bytes, unmarshal_binary}
use minbft.Usig.Marshal.{length-big_endian}
use minbft.Usig.Sgx.{PublicKey, Crypto, make_id, parse_id, parse_cert, verify_ui}
use minbft.Auth.{Epochs, same_bytes, captured_epoch, key_fingerprint, epoch_of, check_usig_tag}

-- A call of VerifyAuthenticationTag.
pub record Call (Key : Type 0) : Type 0 where
  pub message : List ℕ
  pub tag : List ℕ
  pub key : PublicKey Key

-- The epoch that a tag, which is a marshalled UI, was made in.
pub tag_epoch : List ℕ → Result ℕ
tag_epoch tag = do ui ← unmarshal_binary tag; cert ← parse_cert ui.cert; ok cert.0

-- The epoch as it is read back from its eight bytes.
abbrev pub stored : ℕ → ℕ
stored epoch = from_bytes 0 (big_endian 8 epoch)

abbrev pub Stored : Epochs → Type 0
Stored [] = Unit {0}
Stored (p ∷ l) = (p.1 ≡ stored p.1) × Stored l

same_bytes_eq : (l r : List ℕ) → same_bytes l r ≡ true → l ≡ r
unfolding same_bytes
same_bytes_eq [] [] e = refl
same_bytes_eq [] (y ∷ r) e = cc
same_bytes_eq (x ∷ l) [] e = cc
same_bytes_eq (x ∷ l) (y ∷ r) e =
    let heads : x ≡ y = ground (arith, e) in
    let rest : same_bytes l r ≡ true = ground (arith, e) in
    ap₂ (λ z k. z ∷ k) heads (same_bytes_eq l r rest)

same_bytes_refl : (l : List ℕ) → same_bytes l l ≡ true
unfolding same_bytes
same_bytes_refl [] = refl
same_bytes_refl (x ∷ l) = ground (arith, same_bytes_refl l)

-- The latest entry of a fingerprint counts.
pub captured_epoch_cases :
    (k : List ℕ) (a : ℕ) (l : Epochs) (print : List ℕ)
    → ((k ≡ print) × (captured_epoch ((k, a) ∷ l) print ≡ some a))
      ⊎ ((k ≢ print) × (captured_epoch ((k, a) ∷ l) print ≡ captured_epoch l print))
unfolding captured_epoch
captured_epoch_cases k a l print = elim (Bool-cases (same_bytes k print)) [
  | inl same ↦ inl (same_bytes_eq k print same, rw same refl)
  | inr other ↦ inr (
    (λ e. let clash : true ≡ false = sym (same_bytes_refl k) ∙ ap (same_bytes k) e ∙ other in cc),
    rw other refl,
  )
]

pub captured-Stored :
    (l : Epochs) (print : List ℕ) (epoch : ℕ)
    → Stored l
    → captured_epoch l print ≡ some epoch
    → epoch ≡ stored epoch
unfolding captured_epoch
captured-Stored [] print epoch h e = cc
captured-Stored ((k, a) ∷ l) print epoch h e = elim (captured_epoch_cases k a l print) [
  | inl (same, found) ↦ let this : a ≡ epoch = cc in subst (λ x. x ≡ stored x) this h.0
  | inr (other, next) ↦ captured-Stored l print epoch h.1 (sym next ∙ e)
]

module _ {Key : Type 0} (lib : Crypto Key) where
  parse_id-stored :
      (epoch : ℕ) (key : PublicKey Key) (id : List ℕ) (parsed : ℕ × PublicKey Key)
      → make_id lib epoch key ≡ ok id
      → parse_id lib id ≡ ok parsed
      → parsed.0 ≡ stored epoch
  unfolding make_id parse_id
  parse_id-stored epoch key id parsed made read =
      let (b, _, e) = >>=-eq-ok (lib.marshal_key key) _ made in
      let same : big_endian 8 epoch ++ b ≡ id = ok-injective e in
      let long : ltb (length id) 8 ≡ false =
        ground (
          arith,
          ap length same,
          length-append (big_endian 8 epoch) b,
          length-big_endian 8 epoch,
        ) in
      let read_on : (lib.parse_key (drop 8 id) >>= λ k. ok (from_bytes 0 (take 8 id), k))
          ≡ ok parsed =
        simp long at read in
      let (k, _, both) = >>=-eq-ok (lib.parse_key (drop 8 id)) _ read_on in
      ap (λ x. x.0) (sym (ok-injective both))
      ∙ ap (λ l. from_bytes 0 (take 8 l)) (sym same)
      ∙ ap (from_bytes 0) (take-front 8 (big_endian 8 epoch) b (length-big_endian 8 epoch))

  verify_ui-epoch :
      (m : List ℕ) (ui : Ui) (id : List ℕ) (epoch : ℕ) (key : PublicKey Key)
      → make_id lib epoch key ≡ ok id
      → verify_ui lib m ui id ≡ ok tt
      → (c : ℕ × List ℕ) × (parse_cert ui.cert ≡ ok c) × (c.0 ≡ stored epoch)
  unfolding verify_ui
  verify_ui-epoch m ui id epoch key made valid =
      let (parsed, read, e₁) = >>=-eq-ok (wrap_err _ (parse_id lib id)) _ valid in
      let (c, cert, e₂) = >>=-eq-ok (wrap_err _ (parse_cert ui.cert)) _ e₁ in
      let (_, same, e₃) = >>=-eq-ok (fail_if (not (c.0 == parsed.0)) _) _ e₂ in
      let equal : c.0 ≡ parsed.0 = ground (arith, fail_if-eq-ok _ _ same) in
      (
        c,
        wrap_err-eq-ok _ (parse_cert ui.cert) cert,
        equal ∙ parse_id-stored epoch key id parsed made (wrap_err-eq-ok _ (parse_id lib id) read),
      )

  epoch_of_cases :
      (known : Option ℕ) (ui : Ui) (epoch : ℕ) (c : ℕ × List ℕ)
      → epoch_of lib known ui ≡ ok epoch
      → parse_cert ui.cert ≡ ok c
      → (known ≡ some epoch) ⊎ ((known ≡ none) × (c.0 ≡ epoch))
  unfolding epoch_of
  epoch_of_cases (some k) ui epoch c e h = inl (ap some (ok-injective e))
  epoch_of_cases none ui epoch c e h =
      let chosen : ok c.0 ≡ ok epoch = sym (ap (λ r. wrap_err bad_cert r >>= λ x. ok x.0) h) ∙ e in
      inr (refl, ok-injective chosen)

  -- What an accepted tag says: the epoch in its UI, as it is stored, is the one that is captured.
  abbrev pub Accepted : Epochs → Call Key → List ℕ → ℕ → Type 0
  Accepted s c print epoch =
      (key_fingerprint lib c.key ≡ ok print)
      × ((in_ui : ℕ) × (tag_epoch c.tag ≡ ok in_ui)
          × (in_ui ≡ stored epoch)
          × ((captured_epoch s print ≡ some epoch)
              ⊎ ((captured_epoch s print ≡ none) × (in_ui ≡ epoch))))

  assembled :
      (s : Epochs) (c : Call Key) (ui : Ui) (print : List ℕ) (epoch : ℕ) (id : List ℕ)
      → unmarshal_binary c.tag ≡ ok ui
      → key_fingerprint lib c.key ≡ ok print
      → epoch_of lib (captured_epoch s print) ui ≡ ok epoch
      → make_id lib epoch c.key ≡ ok id
      → verify_ui lib c.message ui id ≡ ok tt
      → Accepted s c print epoch
  unfolding tag_epoch
  assembled s c ui print epoch id read printed chosen made verified =
      let (cert, parsed, same) = verify_ui-epoch c.message ui id epoch c.key made verified in
      (
        printed,
        (
          cert.0,
          rw (read, parsed) refl,
          same,
          epoch_of_cases (captured_epoch s print) ui epoch cert chosen parsed,
        ),
      )

  pub check_usig_tag-Accepted :
      (s : Epochs) (c : Call Key) (got : List ℕ × ℕ)
      → check_usig_tag lib s c.message c.tag c.key ≡ ok got
      → Accepted s c got.0 got.1
  unfolding check_usig_tag
  check_usig_tag-Accepted s c got e =
      let (ui, read, e₁) = >>=-eq-ok (wrap_err _ (unmarshal_binary c.tag)) _ e in
      let (p, printed, e₂) = >>=-eq-ok (wrap_err _ (key_fingerprint lib c.key)) _ e₁ in
      let (ep, chosen, e₃) = >>=-eq-ok (epoch_of lib (captured_epoch s p) ui) _ e₂ in
      let (id, made, e₄) = >>=-eq-ok (wrap_err _ (make_id lib ep c.key)) _ e₃ in
      let (_, verified, e₅) = >>=-eq-ok (verify_ui lib c.message ui id) _ e₄ in
      subst (λ g. Accepted s c g.0 g.1) (ok-injective e₅)
        (assembled s c ui p ep id (wrap_err-eq-ok _ (unmarshal_binary c.tag) read)
          (wrap_err-eq-ok _ (key_fingerprint lib c.key) printed) chosen
          (wrap_err-eq-ok _ (make_id lib ep c.key) made) verified)
