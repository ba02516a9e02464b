-- ===== src/Usig/Sgx/Sequence.antt =====
-- usig/sgx: the identifiers that one instance creates.
use minbft.Base.{
  ℕ, ◌+◌, ◌<◌, ◌≡◌, ◌⊎◌, refl, ap, ◌∙◌, subst, true, false, some, List, [], ◌∷◌, ◌++◌, inc64, ltb,
  length, length-append, take, drop, take-front, drop-front, ◌==◌, u64_mod, arith, All, Bool-cases,
  Option-cases, inl, inr,
}
use minbft.Base.Result.{Error, Result, sgx_error, >>=-eq-ok, ok-injective, ok, err, panic}
use minbft.Messages.{Ui}
use minbft.Usig.{big_endian, from_bytes}
use minbft.Usig.Marshal.{length-big_endian, from_bytes-big_endian}
use minbft.Usig.Sgx.{
  usig_init, new_enclave, ecdsa, Crypto, cert_data, Enclave, Signer, ecall_create_ui, make_cert,
  parse_cert, signature_bytes, create_ui, make_id, parse_id, check_signature, verify_signature,
  verify_ui, sgx_uint32_to_big,
}

-- A call of CreateUI: the message, and what the enclave's signing does in it.
pub record Call : Type 0 where
  pub message : List ℕ
  pub sign : Signer

abbrev noted : List ℕ → Result Ui → List (List ℕ × Ui) → List (List ℕ × Ui)
noted message (ok ui) rest = (message, ui) ∷ rest
noted message (err why) rest = rest
noted message panic rest = rest

-- The messages that got an identifier, with it, in the order of the calls.
unfoldable pub run_usig : {Key : Type 0} → Crypto Key → Enclave → List Call → List (List ℕ × Ui)
run_usig lib e [] = []
run_usig lib e (c ∷ l) =
    let made = create_ui lib e c.message c.sign in noted c.message made.1 (run_usig lib made.0 l)

-- The identifiers have the counters from `k` on, without a gap.
abbrev pub CountsFrom : ℕ → List (List ℕ × Ui) → Type 0
CountsFrom k [] = Unit {0}
CountsFrom k ((m, ui) ∷ l) = (ui.counter ≡ k) × CountsFrom (k + 1) l

-- What the signing does is a signature under the key.
abbrev pub Signs : {Key : Type 0} → Crypto Key → Key → Call → Type 0
Signs lib key c =
    (bytes x y : List ℕ)
    → c.sign bytes ≡ some (x, y)
    → lib.verify key (lib.hash bytes) (sgx_uint32_to_big x) (sgx_uint32_to_big y) ≡ true

front_long : (n : ℕ) (l : List ℕ) → ltb (length (big_endian 8 n ++ l)) 8 ≡ false
front_long n l = ground (arith, length-append (big_endian 8 n) l, length-big_endian 8 n)

number_back : (n : ℕ) (l : List ℕ) → n < u64_mod → from_bytes 0 (take 8 (big_endian 8 n ++ l)) ≡ n
number_back n l h =
    ap (from_bytes 0) (take-front 8 (big_endian 8 n) l (length-big_endian 8 n))
    ∙ from_bytes-big_endian 8 n (omega (arith, h))

rest_back : (n : ℕ) (l : List ℕ) → drop 8 (big_endian 8 n ++ l) ≡ l
rest_back n l = drop-front 8 (big_endian 8 n) l (length-big_endian 8 n)

parse_cert-make_cert :
    (epoch : ℕ) (signature : List ℕ)
    → epoch < u64_mod
    → parse_cert (make_cert epoch signature) ≡ ok (epoch, signature)
unfolding parse_cert make_cert
parse_cert-make_cert epoch signature h =
    rw (front_long epoch signature, number_back epoch signature h, rest_back epoch signature) refl

module _ {Key : Type 0} (lib : Crypto Key) where
  parse_id-make_id :
      (key : Key) (epoch : ℕ) (id : List ℕ)
      → ((b : List ℕ) → lib.marshal_key (ecdsa key) ≡ ok b → lib.parse_key b ≡ ok (ecdsa key))
      → epoch < u64_mod
      → make_id lib epoch (ecdsa key) ≡ ok id
      → parse_id lib id ≡ ok (epoch, ecdsa key)
  unfolding parse_id make_id
  parse_id-make_id key epoch id back h made =
      let (b, marshalled, e) = >>=-eq-ok (lib.marshal_key (ecdsa key)) _ made in
      let same : big_endian 8 epoch ++ b ≡ id = ok-injective e in
      rw (← same)
        (rw (front_long epoch b, rest_back epoch b, back b marshalled, number_back epoch b h) refl)

  -- A call fails and changes nothing, or its identifier has the enclave's counter, which moves on.
  create_ui_cases :
      (e : Enclave) (m : List ℕ) (sign : Signer)
      → ((r : Error) × (create_ui lib e m sign ≡ (e, err r)))
        ⊎ ((x : List ℕ) × (y : List ℕ) × (sign (cert_data (lib.hash m) e.epoch e.counter)
              ≡ some (x, y))
            × (create_ui lib e m sign ≡ (
              record e { counter = inc64 e.counter },
              ok (record {
                counter = e.counter;
                cert = make_cert e.epoch (signature_bytes lib x y);
              }),
            )))
  unfolding create_ui ecall_create_ui
  create_ui_cases e m sign = elim (Bool-cases e.initialized) [
    | inr off ↦ inl (sgx_error, simp off refl)
    | inl on ↦ elim (Option-cases (sign (cert_data (lib.hash m) e.epoch e.counter))) [
      | inl none_made ↦ inl (sgx_error, simp (on, none_made) refl)
      | inr ((x, y), made) ↦ inr (x, y, made, simp (on, made) refl)
    ]
  ]

  verify_ui-made :
      (key : Key) (epoch counter : ℕ) (id m x y : List ℕ)
      → ((r s : ℕ) → lib.unmarshal_signature (lib.marshal_signature r s) ≡ some (r, s, []))
      → epoch < u64_mod
      → parse_id lib id ≡ ok (epoch, ecdsa key)
      → lib.verify key
          (lib.hash (cert_data (lib.hash m) epoch counter))
          (sgx_uint32_to_big x)
          (sgx_uint32_to_big y)
        ≡ true
      → verify_ui lib m
          (record { counter = counter; cert = make_cert epoch (signature_bytes lib x y) })
          id
        ≡ ok tt
  unfolding verify_ui verify_signature check_signature signature_bytes
  verify_ui-made key epoch counter id m x y back h parsed valid =
      let same : (epoch == epoch) ≡ true = ground arith in
      rw
        (
          parsed,
          parse_cert-make_cert epoch
              (lib.marshal_signature (sgx_uint32_to_big x) (sgx_uint32_to_big y)) h,
          same,
          back (sgx_uint32_to_big x) (sgx_uint32_to_big y),
          valid,
        )
        refl

  run_usig_created :
      (key : Key) (id : List ℕ) (l : List Call) (e : Enclave)
      → ((r s : ℕ) → lib.unmarshal_signature (lib.marshal_signature r s) ≡ some (r, s, []))
      → parse_id lib id ≡ ok (e.epoch, ecdsa key)
      → e.epoch < u64_mod
      → e.counter + length l < u64_mod
      → All (Signs lib key) l
      → CountsFrom e.counter (run_usig lib e l)
        × All (λ p. verify_ui lib p.0 p.1 id ≡ ok tt) (run_usig lib e l)
  unfolding run_usig
  run_usig_created key id [] e back parsed h short signs = (tt, tt)
  run_usig_created key id (c ∷ l) e back parsed h short signs =
      elim (create_ui_cases e c.message c.sign) [
        | inl (why, failed) ↦
            rw failed (run_usig_created key id l e back parsed h (omega (arith, short)) signs.1)
        | inr (x, y, signed, made) ↦
            let next : inc64 e.counter ≡ e.counter + 1 = omega (arith, short) in
            let rest =
              run_usig_created key id l (record e { counter = inc64 e.counter }) back parsed h
                (omega (arith, short)) signs.1 in
            rw made (
              (
                refl,
                subst (λ k. CountsFrom k (run_usig lib (record e { counter = inc64 e.counter }) l))
                    next rest.0,
              ),
              (
                verify_ui-made key e.epoch e.counter id c.message x y back h parsed
                    (signs.0 (cert_data (lib.hash c.message) e.epoch e.counter) x y signed),
                rest.1,
              ),
            )
      ]

-- Let signatures and public keys be read back from what they are written as, and let the enclave's
-- signing either fail or make a signature that is valid under its key. For fewer than 2^64 - 1 calls of
-- a new instance, the identifiers it creates have the counters 1, 2, 3 and so on without a gap, whatever
-- calls fail, and every one is accepted for its message under the instance's identity.
pub run_usig-verify_ui :
    {Key : Type 0} (lib : Crypto Key) (key : Key) (epoch : ℕ) (id : List ℕ) (l : List Call)
    → ((r s : ℕ) → lib.unmarshal_signature (lib.marshal_signature r s) ≡ some (r, s, []))
    → ((b : List ℕ) → lib.marshal_key (ecdsa key) ≡ ok b → lib.parse_key b ≡ ok (ecdsa key))
    → All (Signs lib key) l
    → epoch < u64_mod
    → make_id lib epoch (ecdsa key) ≡ ok id
    → 1 + length l < u64_mod
    → let uis = run_usig lib (usig_init new_enclave (some epoch) true).0 l in
      CountsFrom 1 uis × All (λ p. verify_ui lib p.0 p.1 id ≡ ok tt) uis
unfolding usig_init
run_usig-verify_ui lib key epoch id l back read signs h made short =
    run_usig_created lib key id l (record { initialized = true; epoch = epoch; counter = 1 }) back
      (parse_id-make_id lib key epoch id read h made) h short signs
