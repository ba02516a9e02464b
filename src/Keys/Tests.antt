-- ===== src/Keys/Tests.antt =====
-- The key store on concrete keys: numbers, written as texts of two letters.
use minbft.Base.{
  ℕ, zero, suc, ◌+◌, ◌∙◌, ap, ◌≡◌, refl, sym, Bool, true, false, Option, none, some, List, [], ◌∷◌,
  arith, ◌==◌, if◌then◌else◌, inl, inr,
}
use Prim.Native.String.{String}
use Prim.Native.Char.{code}
use mathlib.Core.Option.{map as map_option, some-injective}
use minbft.Base.Result.{ok}
use minbft.Keys.{replica_role, usig_role, KeyLib, ecdsa, KeyFile}
use minbft.Keys.Parse.{load}
use minbft.Keys.Generate.{Draws, TestnetKeyOpts, generate_testnet_keys}
use minbft.Keys.Loading.{ReadsBack}
use minbft.Keys.Loads.{load-generate_testnet_keys, Loads}
use minbft.Keys.Authenticator.{Authenticator, new_with_sgx}
use minbft.Keys.Schemes.{ecdsa_opts, IsReady, new_with_sgx-IsReady}

-- A number is so many `a` and a `b`.
abbrev write_number : ℕ → String → String
write_number zero s = String.◌∷◌ "b" s
write_number (suc n) s = String.◌∷◌ "a" (write_number n s)

abbrev write : List ℕ → String
write [] = String.[]
write (n ∷ l) = write_number n (write l)

abbrev read : ℕ → String → Option (List ℕ)
read n String.[] = some []
read n (String.◌∷◌ c s) =
    if code c == 97 then read (suc n) s else map_option (λ l. n ∷ l) (read 0 s)

read-write_number :
    (m n k : ℕ) (s : String)
    → m + n ≡ k
    → read m (write_number n s) ≡ map_option (λ l. k ∷ l) (read 0 s)
read-write_number m zero k s e = let same : m ≡ k = omega (arith, e) in rw same refl
read-write_number m (suc n) k s e = read-write_number (suc m) n k s (omega (arith, e))

read-write : (l : List ℕ) → read 0 (write l) ≡ some l
read-write [] = refl
read-write (n ∷ l) =
    read-write_number 0 n n (write l) (omega arith) ∙ ap (map_option (λ r. n ∷ r)) (read-write l)

abbrev one_number : List ℕ → Option ℕ
one_number [] = none
one_number (n ∷ l) = some n

abbrev numbers : KeyLib ℕ ℕ
numbers = record {
  decode = read 0;
  encode = write;
  parse_private = one_number;
  parse_public = λ b. map_option ecdsa (one_number b);
  marshal_private = λ k. some (k ∷ []);
  marshal_public = λ k. some (k ∷ []);
  public_of = λ k. k + 1;
}

numbers-ReadsBack : ReadsBack numbers
numbers-ReadsBack = record {
  text = read-write;
  private_form = λ k b e. rw (← some-injective _ _ e) refl;
  public_form = λ k b e. rw (← some-injective _ _ e) refl;
}

abbrev draws_from : ℕ → Draws ℕ ℕ
draws_from n = record {
  generate_key = λ curve i. some (n + i);
  new_usig = λ i. some (n ∷ i ∷ [], n + i);
}

abbrev three_replicas : TestnetKeyOpts
three_replicas = ecdsa_opts 3 256 1 256

generated :
    (file : KeyFile) × (generate_testnet_keys numbers
        (draws_from 0)
        (draws_from 10)
        (draws_from 20)
        three_replicas
      ≡ ok file)
unfolding generate_testnet_keys
generated = (_, refl)

load-generate_testnet_keys_example :
    Loads numbers
      (draws_from 0)
      (draws_from 10)
      (draws_from 20)
      three_replicas
      (replica_role ∷ usig_role ∷ [])
      (load numbers (replica_role ∷ usig_role ∷ []) 2 (ok generated.0))
      2
load-generate_testnet_keys_example =
    load-generate_testnet_keys numbers (draws_from 0) (draws_from 10) (draws_from 20) three_replicas
      (replica_role ∷ usig_role ∷ []) numbers-ReadsBack 2 generated.0 generated.1 (omega arith)
      (omega arith) (inl (refl, omega arith), (inr (inl (refl, omega arith)), tt))

-- The enclave takes sealed keys of two numbers.
abbrev two_numbers : List ℕ → Bool
two_numbers (a ∷ b ∷ []) = true
two_numbers _ = false

new_with_sgx-IsReady_example :
    (a : Authenticator ℕ ℕ) × (new_with_sgx numbers two_numbers
        (replica_role ∷ usig_role ∷ [])
        2
        (ok generated.0)
      ≡ ok a)
    × IsReady numbers (draws_from 0) (draws_from 10) (draws_from 20) 3 256 1 256 2 a
new_with_sgx-IsReady_example =
    new_with_sgx-IsReady numbers (draws_from 0) (draws_from 10) (draws_from 20) 3 256 1 256
      numbers-ReadsBack two_numbers 2 generated.0 generated.1 (omega arith) (omega arith)
      (omega arith) (λ i u e. ap two_numbers (ap (λ p. p.0) (sym (some-injective _ _ e))))
