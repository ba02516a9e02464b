-- ===== src/Keys/Loads.antt =====
-- sample/authentication/keymanager.go: the whole key store of a test network.
use minbft.Base.{
  ℕ, ◌^◌, ◌≤◌, ◌<◌, ◌≡◌, refl, sym, ap, ◌∙◌, subst, inl, inr, ◌⊎◌, Bool, true, false, none, some,
  List, [], ◌∷◌, arith, All, ◌==◌, if◌then◌else◌, Bool-cases, ==_refl,
}
use minbft.Base.Result.{Result, ok, >>=-eq-ok, ok-injective}
use minbft.Keys.{
  replica_role, usig_role, client_role, KeySet, KeyFile, sgx_name, KeyLib, PrivateKey, KeyStore,
  private_key, owner_roles, is_some, check_own_keys,
}
use minbft.Keys.Parse.{load}
use minbft.Keys.Generate.{Draws, TestnetKeyOpts, generate_key_set, generate_testnet_keys}
use minbft.Keys.Loading.{ReadsBack}
use minbft.Keys.Pairs.{has_owner}
use minbft.Keys.Testnet.{IsLoaded, set-IsLoaded, IsLoaded-Elsewhere}

-- Whether a role is among those that are asked for
abbrev pub asks : List ℕ → ℕ → Bool
asks [] role = false
asks (r ∷ roles) role = if r == role then true else asks roles role

All-weaken : {P Q : ℕ → Type 0} (roles : List ℕ) → ((r : ℕ) → P r → Q r) → All P roles → All Q roles
All-weaken [] f h = tt
All-weaken (r ∷ roles) f h = (f r h.0, All-weaken roles f h.1)

asks_more : (r r' : ℕ) (roles : List ℕ) → asks roles r' ≡ true → asks (r ∷ roles) r' ≡ true
asks_more r r' roles h = elim (Bool-cases (r == r')) [
  | inl same ↦ rw same refl
  | inr other ↦ rw other h
]

requested : (roles : List ℕ) → All (λ r. asks roles r ≡ true) roles
requested [] = tt
requested (r ∷ roles) =
    (rw (==_refl r) refl, All-weaken roles (λ r' h. asks_more r r' roles h) (requested roles))

both : (P Q : ℕ → Type 0) (roles : List ℕ) → All P roles → All Q roles → All (λ r. P r × Q r) roles
both P Q [] p q = tt
both P Q (r ∷ roles) p q = ((p.0, q.0), both P Q roles p.1 q.1)

-- The role has a key for the node: it is one of the replicas, or one of the clients.
abbrev pub HasKey : TestnetKeyOpts → ℕ → ℕ → Type 0
HasKey opts id r =
    ((r ≡ replica_role) × (id < opts.number_replicas))
    ⊎ ((r ≡ usig_role) × (id < opts.number_replicas))
    ⊎ ((r ≡ client_role) × (id < opts.number_clients))

has_owner-asks :
    (Priv Pub : Type 0) (roles : List ℕ) (role : ℕ)
    → has_owner {Priv = Priv} {Pub = Pub} (owner_roles roles role) ≡ asks roles role
unfolding owner_roles
has_owner-asks Priv Pub [] role = refl
has_owner-asks Priv Pub (r ∷ roles) role = elim (Bool-cases (r == role)) [
  | inl same ↦ rw same refl
  | inr other ↦ rw other (has_owner-asks Priv Pub roles role)
]

module _ {Priv Pub : Type 0} where
  own_keys_there :
      (ks : KeyStore Priv Pub) (roles : List ℕ)
      → All (λ r. (k : PrivateKey Priv) × (private_key ks r ≡ some k)) roles
      → check_own_keys ks roles ≡ ok ks
  unfolding check_own_keys is_some
  own_keys_there ks [] h = refl
  own_keys_there ks (r ∷ roles) ((k, e), h) = rw (e, own_keys_there ks roles h) refl

  module _ (lib : KeyLib Priv Pub) (replica usig client : Draws Priv Pub) (opts : TestnetKeyOpts)
      (roles : List ℕ) where
    -- The store has the keys of all three roles, and the node's own ones.
    pub record HasAll (ks : KeyStore Priv Pub) : Type 0 where
      pub replicas :
          IsLoaded lib replica
            (asks roles replica_role)
            replica_role
            opts.replica_key_spec
            opts.replica_sec_param
            opts.number_replicas
            ks
      pub usigs :
          IsLoaded lib usig (asks roles usig_role) usig_role sgx_name 0 opts.number_replicas ks
      pub clients :
          IsLoaded lib client
            (asks roles client_role)
            client_role
            opts.client_key_spec
            opts.client_sec_param
            opts.number_clients
            ks

    own_key-HasAll :
        (ks : KeyStore Priv Pub) (id r : ℕ)
        → ks.id ≡ id
        → HasAll ks
        → HasKey opts id r
        → (asks roles r ≡ true)
        → (k : PrivateKey Priv) × (private_key ks r ≡ some k)
    own_key-HasAll ks id r same h (inl (role, low)) asked =
        let (k, _, e) = h.replicas.own_key (ap (asks roles) (sym role) ∙ asked) (omega arith) in
        (k.0, ap (private_key ks) role ∙ e)
    own_key-HasAll ks id r same h (inr (inl (role, low))) asked =
        let (k, _, e) = h.usigs.own_key (ap (asks roles) (sym role) ∙ asked) (omega arith) in
        (k.0, ap (private_key ks) role ∙ e)
    own_key-HasAll ks id r same h (inr (inr (role, low))) asked =
        let (k, _, e) = h.clients.own_key (ap (asks roles) (sym role) ∙ asked) (omega arith) in
        (k.0, ap (private_key ks) role ∙ e)

    abbrev pub Loads : Result (KeyStore Priv Pub) → ℕ → Type 0
    Loads loaded id = (ks : KeyStore Priv Pub) × (loaded ≡ ok ks) × (ks.id ≡ id) × HasAll ks

    load-HasAll :
        (laws : ReadsBack lib) (id : ℕ) (r u c : KeySet)
        → generate_key_set lib replica opts.number_replicas opts.replica_key_spec
            opts.replica_sec_param
          ≡ ok r
        → generate_key_set lib usig opts.number_replicas sgx_name 0 ≡ ok u
        → generate_key_set lib client opts.number_clients opts.client_key_spec opts.client_sec_param
          ≡ ok c
        → opts.number_replicas ≤ 2 ^ 32
        → opts.number_clients ≤ 2 ^ 32
        → All (HasKey opts id) roles
        → Loads
            (load lib roles id (ok (record { replica = some r; usig = some u; client = some c })))
            id
    unfolding load
    load-HasAll laws id r u c er eu ec small small' known =
        let start : KeyStore Priv Pub = record {
          id = id;
          owner_keys = owner_roles roles;
          node_keys = λ _. none;
        } in
        let (k₁, l₁, h₁, s₁) =
          set-IsLoaded lib replica laws (asks roles replica_role) replica_role opts.replica_key_spec
            opts.replica_sec_param opts.number_replicas r start er small
            (has_owner-asks Priv Pub roles replica_role) in
        let (k₂, l₂, h₂, s₂) =
          set-IsLoaded lib usig laws (asks roles usig_role) usig_role sgx_name 0
            opts.number_replicas u k₁ eu small
            (ap has_owner (s₁.same_owner usig_role (λ x. absurd (omega arith)))
              ∙ has_owner-asks Priv Pub roles usig_role) in
        let (k₃, l₃, h₃, s₃) =
          set-IsLoaded lib client laws (asks roles client_role) client_role opts.client_key_spec
            opts.client_sec_param opts.number_clients c k₂ ec small'
            (ap has_owner (
                s₂.same_owner client_role (λ x. absurd (omega arith))
                ∙ s₁.same_owner client_role (λ x. absurd (omega arith)))
              ∙ has_owner-asks Priv Pub roles client_role) in
        let id_kept : k₃.id ≡ id = s₃.same_id ∙ s₂.same_id ∙ s₁.same_id in
        let all : HasAll k₃ = record {
          replicas =
              IsLoaded-Elsewhere lib replica _ replica_role client_role _ _ _ k₂ k₃
                (λ x. absurd (omega arith)) s₃
                (IsLoaded-Elsewhere lib replica _ replica_role usig_role _ _ _ k₁ k₂
                  (λ x. absurd (omega arith)) s₂ h₁);
          usigs =
              IsLoaded-Elsewhere lib usig _ usig_role client_role _ _ _ k₂ k₃
                (λ x. absurd (omega arith)) s₃ h₂;
          clients = h₃;
        } in
        let own =
          All-weaken roles
            (λ x (p : HasKey opts id x × (asks roles x ≡ true)).
              own_key-HasAll k₃ id x id_kept all p.0 p.1)
            (both (HasKey opts id) (λ x. asks roles x ≡ true) roles known (requested roles)) in
        (k₃, rw (l₁, l₂, l₃) (own_keys_there k₃ roles own), id_kept, all)

    -- Let the libraries read back the keys that they write, and let keys be generated for a test
    -- network of at most 2^32 replicas and 2^32 clients. The key store is loaded from them for every
    -- identifier and roles such that the identifier is that of a replica if a replica's or a USIG's
    -- role is asked for, that of a client if a client's role is, and no other role is. It has, under
    -- every replica's and every client's identifier, the public keys that were drawn for it, and for
    -- every role that is asked for the private key drawn for its own identifier.
    pub load-generate_testnet_keys :
        (laws : ReadsBack lib) (id : ℕ) (file : KeyFile)
        → generate_testnet_keys lib replica usig client opts ≡ ok file
        → opts.number_replicas ≤ 2 ^ 32
        → opts.number_clients ≤ 2 ^ 32
        → All (HasKey opts id) roles
        → Loads (load lib roles id (ok file)) id
    unfolding generate_testnet_keys
    load-generate_testnet_keys laws id file e small small' known =
        let (r, er, e₁) =
          >>=-eq-ok
            (generate_key_set lib replica opts.number_replicas opts.replica_key_spec
              opts.replica_sec_param)
            _ e in
        let (u, eu, e₂) =
          >>=-eq-ok (generate_key_set lib usig opts.number_replicas sgx_name 0) _ e₁ in
        let (c, ec, e₃) =
          >>=-eq-ok
            (generate_key_set lib client opts.number_clients opts.client_key_spec
              opts.client_sec_param)
            _ e₂ in
        subst (λ x. Loads (load lib roles id (ok x)) id) (ok-injective e₃)
          (load-HasAll laws id r u c er eu ec small small' known)
