-- ===== src/Keys/Schemes.antt =====
-- sample/authentication/authenticator.go: a replica's authenticator in a test network.
use minbft.Base.{
  ℕ, ◌^◌, ◌≤◌, ◌<◌, ◌≡◌, refl, sym, ap, ◌∙◌, inl, inr, Bool, true, false, Option, none, some, List,
  [], ◌∷◌, arith, update,
}
use minbft.Base.Result.{ok}
use minbft.Keys.{
  replica_role, usig_role, client_role, ecdsa_name, KeyFile, Spec, ecdsa_spec, sgx_spec, spec_name,
  KeyLib, PrivateKey, sealed, OwnerKey, KeyStore, private_key, owner_private, node_key_spec,
  set_spec,
}
use minbft.Keys.Generate.{Draws, TestnetKeyOpts, generate_testnet_keys}
use minbft.Keys.Loading.{ReadsBack, key_at, drawn_usig}
use mathlib.Core.Option.{some-injective}
use minbft.Keys.Testnet.{IsLoaded}
use minbft.Keys.Loads.{HasAll, load-generate_testnet_keys}
use minbft.Keys.Tags.{Verifies, Generates, verifies, generates, spec_found}
use minbft.Keys.Authenticator.{
  public_scheme, usig_scheme, sgx_usig, Authenticator, given_scheme, scheme_named, scheme_for,
  set_scheme, differ, node_roles, role_in, add_schemes, new_authenticator, start_usig,
  with_usig_key, new_with_sgx,
}

-- The options with the keys that the sample can use
abbrev pub ecdsa_opts : (replicas param clients client_param : ℕ) → TestnetKeyOpts
ecdsa_opts replicas param clients client_param = record {
  number_replicas = replicas;
  replica_key_spec = ecdsa_name;
  replica_sec_param = param;
  number_clients = clients;
  client_key_spec = ecdsa_name;
  client_sec_param = client_param;
}

module _ {Priv Pub : Type 0} (lib : KeyLib Priv Pub) (replica usig client : Draws Priv Pub)
    (replicas param clients client_param : ℕ) where
  abbrev opts : TestnetKeyOpts
  opts = ecdsa_opts replicas param clients client_param

  abbrev peer_roles : List ℕ
  peer_roles = replica_role ∷ usig_role ∷ []

  -- Every role has its scheme.
  abbrev ready : List ℕ → KeyStore Priv Pub → Authenticator Priv Pub
  ready key ks = record {
    ks = ks;
    schemes =
        update
          (update (update (λ _. none) replica_role (some public_scheme)) usig_role
            (some (usig_scheme key)))
          client_role (some public_scheme);
  }

  all_roles :
      (ks : KeyStore Priv Pub)
      → HasAll lib replica usig client opts peer_roles ks
      → node_roles ks ≡ replica_role ∷ usig_role ∷ client_role ∷ []
  unfolding node_roles role_in
  all_roles ks h = rw (h.replicas.found, h.usigs.found, h.clients.found) refl

  keyspec_found :
      (draws : Draws Priv Pub) (role p n : ℕ) (asked : Bool) (spec : Spec) (ks : KeyStore Priv Pub)
      (h : IsLoaded lib draws asked role (spec_name spec) p n ks)
      → node_key_spec ks role ≡ spec_name spec
  unfolding node_key_spec set_spec
  keyspec_found draws role p n asked spec ks h =
      rw h.found (h.spec_kept ∙ ap spec_name (spec_found lib draws role p n asked spec ks h))

  new_authenticator-ready :
      (key : List ℕ) (ks : KeyStore Priv Pub)
      → HasAll lib replica usig client opts peer_roles ks
      → new_authenticator ks (sgx_usig key) ≡ ok (ready key ks)
  unfolding new_authenticator add_schemes scheme_for differ scheme_named given_scheme set_scheme
      spec_name
  new_authenticator-ready key ks h =
      rw
        (
          all_roles ks h,
          keyspec_found replica replica_role param replicas true ecdsa_spec ks h.replicas,
          keyspec_found usig usig_role 0 replicas true sgx_spec ks h.usigs,
          keyspec_found client client_role client_param clients false ecdsa_spec ks h.clients,
        )
        refl

  sealed_drawn :
      (o : Option (List ℕ × Pub)) (k : PrivateKey Priv × Pub)
      → drawn_usig lib usig o ≡ some k
      → (u : List ℕ × Pub) × (o ≡ some u) × (k.0 ≡ sealed u.0)
  sealed_drawn none k e = cc
  sealed_drawn (some u) k e = (u, refl, ap (λ p. p.0) (sym (some-injective _ _ e)))

  key_started :
      (starts : List ℕ → Bool) (ks : KeyStore Priv Pub) (o : Option (OwnerKey Priv Pub))
      (bytes : List ℕ)
      → owner_private o ≡ some (sealed bytes)
      → starts bytes ≡ true
      → with_usig_key starts ks o ≡ new_authenticator ks (sgx_usig bytes)
  unfolding with_usig_key start_usig owner_private
  key_started starts ks none bytes e yes_starts = cc
  key_started starts ks (some o) bytes e yes_starts = rw (e, yes_starts) refl

  started :
      (starts : List ℕ → Bool) (ks : KeyStore Priv Pub)
      → ((i : ℕ) (u : List ℕ × Pub) → usig.new_usig i ≡ some u → starts u.0 ≡ true)
      → ks.id < replicas
      → HasAll lib replica usig client opts peer_roles ks
      → (u : List ℕ × Pub) × (usig.new_usig ks.id ≡ some u)
        × (with_usig_key starts ks (ks.owner_keys usig_role) ≡ ok (ready u.0 ks))
  unfolding private_key spec_name
  started starts ks takes low h =
      let (k, here, e) = h.usigs.own_key refl low in
      let (u, drawn, same) = sealed_drawn (usig.new_usig ks.id) k (
        ap (λ x. key_at lib usig x 0 ks.id)
          (sym (spec_found lib usig usig_role 0 replicas true sgx_spec ks h.usigs))
        ∙ here) in
      (
        u,
        drawn,
        key_started starts ks (ks.owner_keys usig_role) u.0 (e ∙ ap some same) (takes ks.id u drawn)
            ∙ new_authenticator-ready u.0 ks h,
      )

  -- What a replica's authenticator does in the test network.
  pub record IsReady (id : ℕ) (a : Authenticator Priv Pub) : Type 0 where
    pub makes_replica_tags :
        Generates lib replica replica_role param replicas public_scheme ecdsa_spec id a
    pub usig_key : List ℕ × Pub
    pub drawn : usig.new_usig id ≡ some usig_key
    pub makes_usig_tags :
        Generates lib usig usig_role 0 replicas (usig_scheme usig_key.0) sgx_spec id a
    pub checks_replicas :
        Verifies lib replica replica_role param replicas public_scheme ecdsa_spec a
    pub checks_usigs : Verifies lib usig usig_role 0 replicas (usig_scheme usig_key.0) sgx_spec a
    pub checks_clients :
        Verifies lib client client_role client_param clients public_scheme ecdsa_spec a

  ready-IsReady :
      (u : List ℕ × Pub) (ks : KeyStore Priv Pub) (id : ℕ)
      → ks.id ≡ id
      → id < replicas
      → usig.new_usig ks.id ≡ some u
      → HasAll lib replica usig client opts peer_roles ks
      → IsReady id (ready u.0 ks)
  unfolding spec_name
  ready-IsReady u ks id own low drawn h =
      let is₁ = spec_found lib replica replica_role param replicas true ecdsa_spec ks h.replicas in
      let is₂ = spec_found lib usig usig_role 0 replicas true sgx_spec ks h.usigs in
      let is₃ =
        spec_found lib client client_role client_param clients false ecdsa_spec ks h.clients in
      record {
        makes_replica_tags =
            generates lib replica replica_role param replicas true ecdsa_spec (ready u.0 ks)
              h.replicas is₁ public_scheme refl id own refl low;
        usig_key = u;
        drawn = ap usig.new_usig (sym own) ∙ drawn;
        makes_usig_tags =
            generates lib usig usig_role 0 replicas true sgx_spec (ready u.0 ks) h.usigs is₂
              (usig_scheme u.0) refl id own refl low;
        checks_replicas =
            verifies lib replica replica_role param replicas true ecdsa_spec (ready u.0 ks)
              h.replicas is₁ public_scheme refl;
        checks_usigs =
            verifies lib usig usig_role 0 replicas true sgx_spec (ready u.0 ks) h.usigs is₂
              (usig_scheme u.0) refl;
        checks_clients =
            verifies lib client client_role client_param clients false ecdsa_spec (ready u.0 ks)
              h.clients is₃ public_scheme refl;
      }

  -- Let the libraries read back the keys that they write, and let keys be generated for a test
  -- network of at most 2^32 replicas and 2^32 clients, with ECDSA for the replicas' and the clients'
  -- keys. Let the enclave start with every sealed key that was drawn. Then NewWithSGXUSIG returns an
  -- authenticator for every replica's identifier, with the roles of a replica and a USIG. It makes
  -- its tags of a replica by the ECDSA scheme with the private key drawn for this identifier, and
  -- its tags of a USIG by the scheme of the USIG that was started with the sealed key drawn for this
  -- identifier. It checks the tags of every replica, USIG and client with the public key drawn for
  -- that one, by the scheme of the role.
  pub new_with_sgx-IsReady :
      (laws : ReadsBack lib) (starts : List ℕ → Bool) (id : ℕ) (file : KeyFile)
      → generate_testnet_keys lib replica usig client opts ≡ ok file
      → replicas ≤ 2 ^ 32
      → clients ≤ 2 ^ 32
      → id < replicas
      → ((i : ℕ) (u : List ℕ × Pub) → usig.new_usig i ≡ some u → starts u.0 ≡ true)
      → (a : Authenticator Priv Pub) × (new_with_sgx lib starts peer_roles id (ok file) ≡ ok a)
        × IsReady id a
  unfolding new_with_sgx
  new_with_sgx-IsReady laws starts id file e small small' low takes =
      let (ks, loaded, own, h) =
        load-generate_testnet_keys lib replica usig client opts peer_roles laws id file e small
          small' (inl (refl, low), (inr (inl (refl, low)), tt)) in
      let (u, drawn, runs) = started starts ks takes (omega (arith, own, low)) h in
      (ready u.0 ks, rw (loaded, runs) refl, ready-IsReady u ks id own low drawn h)
