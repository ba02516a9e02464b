-- ===== src/Base/Result.antt =====
-- What a Go function of the program returns: a value, an error, or no return because it panics.
use mathlib.Core.Path.{◌≡◌, refl, ap}
use mathlib.Core.Bool.{Bool, true, false}

-- The leaves are the messages of `fmt.Errorf` calls; the others wrap an error in a context.
pub data Error : Type 0 where
  unexpected_view : Error
  non_sequential_primary : Error
  non_sequential_replica : Error
  unexpected_commitment_type : Error
  unexpected_proposal_type : Error
  cannot_accept : Error → Error
  not_captured : Error
  not_prepared : Error
  unexpected_counter : Error
  future_view : Error
  cannot_apply : Error → Error
  commit_from_primary : Error
  prepare_from_backup : Error
  invalid_new_view : Error
  insufficient_quorum : Error
  new_view_mismatch : Error
  duplicate_message : Error
  missing_primary_vc : Error
  invalid_vc_cert : Error → Error
  invalid_nv_cert : Error → Error
  invalid_log : Error → Error
  new_view_from_backup : Error
  incomplete_log : Error
  foreign_message : Error
  unexpected_ui : Error
  log_for_unexpected_view : Error
  message_before : Error
  missing_message_before : Error
  zero_counter : Error
  invalid_certificate : Error
  invalid_ui : Error → Error
  invalid_signature : Error
  already_prepared : Error
  not_taken : Error → Error
  out_of_fuel : Error
  would_wait : Error
  unexpected_replica : Error
  unexpected_message : Error
  client_mismatch : Error
  embedded : Error → Error
  validation : Error → Error
  processing : Error → Error
  short_input : Error
  unknown_type : Error
  not_enough_replicas : Error
  sgx_error : Error
  signing_error : Error
  bad_private_key : Error
  bad_fingerprint : Error → Error
  bad_usig_id : Error → Error
  bad_cert : Error → Error
  epoch_mismatch : Error
  not_ecdsa : Error
  bad_signature : Error
  extra_bytes : Error
  unmarshal_wrapper : Error
  unmarshal_ui : Error → Error
  unmarshal_proposal : Error → Error
  unmarshal_log : Error → Error
  unmarshal_cert : Error → Error
  unknown_key_spec : Error
  bad_base64 : Error
  bad_key : Error
  missing_key : Error
  no_key_set : Error
  generation_failed : Error
  wrong_key_spec : Error
  unknown_role : Error
  unsupported_usig : Error
  usig_start_failed : Error
  not_connected : Error
  bad_tag : Error → Error

pub data Result {ℓ} (A : Type ℓ) : Type ℓ where
  ok : A → Result A
  err : Error → Result A
  panic : Result A

-- `if err != nil { return err }` between two calls; a panic ends everything.
abbrev pub ◌>>=◌ {ℓ₁ ℓ₂} : {S : Type ℓ₁} {T : Type ℓ₂} → Result S → (S → Result T) → Result T
panic >>= rest = panic
err why >>= rest = err why
ok value >>= rest = rest value

-- `if bad { return fmt.Errorf(...) }`
abbrev pub fail_if : Bool → Error → Result (Unit {0})
fail_if bad why = elim bad [ true ↦ err why | false ↦ ok tt ]

-- The checks of a validator, one after the other.
abbrev pub ◌>>◌ {ℓ} : {T : Type ℓ} → Result (Unit {0}) → Result T → Result T
check >> rest = check >>= λ _. rest

infixl 5 ◌>>=◌ ◌>>◌
-- `if err != nil { return fmt.Errorf("...: %s", err) }`
abbrev pub wrap_err {ℓ} : {A : Type ℓ} → (Error → Error) → Result A → Result A
wrap_err w (ok a) = ok a
wrap_err w (err e) = err (w e)
wrap_err w panic = panic

value_or {ℓ} : {A : Type ℓ} → A → Result A → A
value_or d (ok a) = a
value_or d (err e) = d
value_or d panic = d

pub ok-injective {ℓ} : {A : Type ℓ} {a b : A} → ok a ≡ ok b → a ≡ b
unfolding value_or
ok-injective {a} e = ap (value_or a) e

-- A sequence succeeds only if its first part does.
pub >>=-eq-ok {ℓ₁ ℓ₂} :
    {S : Type ℓ₁} {T : Type ℓ₂} (first : Result S) (rest : S → Result T) {result : T}
    → (first >>= rest) ≡ ok result
    → (mid : S) × (first ≡ ok mid) × (rest mid ≡ ok result)
>>=-eq-ok panic rest e = cc
>>=-eq-ok (err why) rest e = cc
>>=-eq-ok (ok mid) rest e = (mid, refl, e)

pub wrap_err-eq-ok {ℓ} :
    {A : Type ℓ} (w : Error → Error) (m : Result A) {a : A} → wrap_err w m ≡ ok a → m ≡ ok a
wrap_err-eq-ok w (ok b) h = h
wrap_err-eq-ok w (err e) h = cc
wrap_err-eq-ok w panic h = cc

pub fail_if-eq-ok : (b : Bool) (e : Error) → fail_if b e ≡ ok tt → b ≡ false
fail_if-eq-ok true e h = cc
fail_if-eq-ok false e h = refl
