-- ===== src/Keys/Pairs.antt =====
-- sample/authentication/keymanager.go: what loading one key pair does to the store.
use minbft.Base.{
  ℕ, suc, ◌<◌, ◌≡◌, ◌≢◌, refl, sym, ap, ◌∙◌, inl, inr, Bool, true, false, Option, none, some, arith,
  ◌==◌, Bool-cases, ==_iff, ==_refl, update,
}
use minbft.Base.Result.{Result, ok}
use Prim.Native.String.{String}
use minbft.Keys.{
  KeyPair, Spec, KeyLib, PrivateKey, OwnerKey, PublicKeySet, KeyStore, private_key, owner_private,
  spec_name,
}
use minbft.Keys.Parse.{parse_public_key, parse_private_key, add_public, add_owner, parse_key_pair}
use minbft.Keys.Generate.{Draws}
use minbft.Keys.Loading.{key_at}

abbrev pub has_owner : {Priv Pub : Type 0} → Option (OwnerKey Priv Pub) → Bool
has_owner none = false
has_owner (some o) = true

-- Everything but the keys of one role is as it was.
pub record Elsewhere {Priv Pub : Type 0} (role : ℕ) (ks ks' : KeyStore Priv Pub) : Type 0 where
  pub same_id : ks'.id ≡ ks.id
  pub same_nodes : (r : ℕ) → r ≢ role → ks'.node_keys r ≡ ks.node_keys r
  pub same_owner : (r : ℕ) → r ≢ role → ks'.owner_keys r ≡ ks.owner_keys r

module _ {Priv Pub : Type 0} (lib : KeyLib Priv Pub) (draws : Draws Priv Pub) (role : ℕ)
    (spec : Spec) (param : ℕ) where
  -- The store has the public keys of the first `i` pairs.
  pub record HasPublic (i : ℕ) (ks : KeyStore Priv Pub) : Type 0 where
    pub set : PublicKeySet Pub
    pub found : ks.node_keys role ≡ some set
    pub spec_kept : set.keyspec ≡ spec_name spec
    pub keys :
        (j : ℕ) (k : PrivateKey Priv × Pub)
        → j < i
        → key_at lib draws spec param j ≡ some k
        → set.keys j ≡ some k.1

  -- If the role is asked for, the store has the node's own private key as soon as it came by.
  pub record HasOwn (asked : Bool) (i : ℕ) (ks : KeyStore Priv Pub) : Type 0 where
    pub requested : has_owner (ks.owner_keys role) ≡ asked
    pub own :
        (k : PrivateKey Priv × Pub)
        → asked ≡ true
        → ks.id < i
        → key_at lib draws spec param ks.id ≡ some k
        → private_key ks role ≡ some k.0

  -- What a step of the loop has to reach.
  abbrev pub Reached : Bool → ℕ → KeyStore Priv Pub → Result (KeyStore Priv Pub) → Type 0
  Reached asked i ks r =
      (ks' : KeyStore Priv Pub) × (r ≡ ok ks')
      × HasPublic i ks'
      × HasOwn asked i ks'
      × Elsewhere role ks ks'

  module _ (asked : Bool) (i : ℕ) (ks : KeyStore Priv Pub) (k : PrivateKey Priv × Pub)
      (here : key_at lib draws spec param i ≡ some k) where
    add_public-HasPublic :
        (h : HasPublic i ks)
        → HasPublic (suc i) (record ks {
          node_keys = update ks.node_keys role (add_public lib (ks.node_keys role) i k.1);
        })
    unfolding add_public
    add_public-HasPublic h = record {
      set = record h.set { keys = update h.set.keys i (some k.1) };
      found = rw (==_refl role, h.found) refl;
      spec_kept = h.spec_kept;
      keys = λ j p l e. elim (Bool-cases (i == j)) [
        | inl same ↦
            let at : i ≡ j = (==_iff i j).0 same in
            let key : some k ≡ some p = sym here ∙ ap (key_at lib draws spec param) at ∙ e in
            rw same (cc)
        | inr other ↦ rw other (h.keys j p (ground arith) e)
      ];
    }

    module _ (pair : KeyPair) (low : pair.id ≡ i)
        (priv : parse_private_key lib spec pair.private_key ≡ ok k.0) (p : HasPublic (suc i) ks)
        (h : HasOwn asked i ks) where
      unasked-Reached : ks.owner_keys role ≡ none → Reached asked (suc i) ks (ok ks)
      unasked-Reached none_there = (
        ks,
        refl,
        p,
        record {
          requested = h.requested;
          own =
              λ q a l e. let no : false ≡ asked = ap has_owner (sym none_there) ∙ h.requested in cc;
        },
        record { same_id = refl; same_nodes = λ r ne. refl; same_owner = λ r ne. refl },
      )

      another-Reached : (i == ks.id) ≡ false → Reached asked (suc i) ks (ok ks)
      another-Reached other = (
        ks,
        refl,
        p,
        record { requested = h.requested; own = λ q a l e. h.own q a (ground arith) e },
        record { same_id = refl; same_nodes = λ r ne. refl; same_owner = λ r ne. refl },
      )

      owner_found : OwnerKey Priv Pub
      owner_found = record {
        keyspec = spec_name spec;
        private_key = some k.0;
        public_key = some k.1;
      }

      own-Reached :
          (i == ks.id) ≡ true
          → asked ≡ true
          → Reached asked
              (suc i)
              ks
              (ok (record ks { owner_keys = update ks.owner_keys role (some owner_found) }))
      unfolding owner_found private_key owner_private
      own-Reached same a = (
        record ks { owner_keys = update ks.owner_keys role (some owner_found) },
        refl,
        record { set = p.set; found = p.found; spec_kept = p.spec_kept; keys = p.keys },
        record {
          requested = rw (==_refl role) (sym a);
          own = λ q _ l e.
              let at : i ≡ ks.id = (==_iff i ks.id).0 same in
              let key : some k ≡ some q = sym here ∙ ap (key_at lib draws spec param) at ∙ e in
              rw (==_refl role) (cc);
        },
        record {
          same_id = refl;
          same_nodes = λ r ne. refl;
          same_owner = λ r ne. ground (arith, ne);
        },
      )

      owner-Reached :
          (o : Option (OwnerKey Priv Pub))
          → ks.owner_keys role ≡ o
          → Reached asked (suc i) ks (add_owner lib ks role spec pair k.1 o)
      unfolding add_owner owner_found
      owner-Reached none e = unasked-Reached e
      owner-Reached (some o) e = elim (Bool-cases (i == ks.id)) [
        | inr other ↦ rw (low, other) (another-Reached other)
        | inl same ↦
            let a : asked ≡ true = sym h.requested ∙ ap has_owner e in
            rw (low, same, priv) (own-Reached same a)
      ]

pub Elsewhere-trans :
    {Priv Pub : Type 0} (role : ℕ) (a b c : KeyStore Priv Pub)
    → Elsewhere role a b
    → Elsewhere role b c
    → Elsewhere role a c
Elsewhere-trans role a b c h k = record {
  same_id = k.same_id ∙ h.same_id;
  same_nodes = λ r ne. k.same_nodes r ne ∙ h.same_nodes r ne;
  same_owner = λ r ne. k.same_owner r ne ∙ h.same_owner r ne;
}

module _ {Priv Pub : Type 0} (lib : KeyLib Priv Pub) (draws : Draws Priv Pub) (role : ℕ)
    (spec : Spec) (param : ℕ) where
  pub pair-Reached :
      (asked : Bool) (i : ℕ) (ks : KeyStore Priv Pub) (k : PrivateKey Priv × Pub)
      (t : String × String)
      → key_at lib draws spec param i ≡ some k
      → parse_private_key lib spec t.0 ≡ ok k.0
      → parse_public_key lib t.1 ≡ ok k.1
      → HasPublic lib draws role spec param i ks
      → HasOwn lib draws role spec param asked i ks
      → Reached lib draws role spec param asked (suc i) ks (
          parse_key_pair lib ks role spec
            (some (record { id = i; private_key = t.0; public_key = t.1 })))
  unfolding parse_key_pair private_key
  pair-Reached asked i ks k t here priv shown p h =
      let added : KeyStore Priv Pub = record ks {
        node_keys = update ks.node_keys role (add_public lib (ks.node_keys role) i k.1);
      } in
      let pair : KeyPair = record { id = i; private_key = t.0; public_key = t.1 } in
      let (ks', e, q, g, same) =
        owner-Reached lib draws role spec param asked i added k here pair refl priv
          (add_public-HasPublic lib draws role spec param asked i ks k here p)
          (record { requested = h.requested; own = h.own }) (ks.owner_keys role) refl in
      (
        ks',
        rw shown e,
        q,
        g,
        Elsewhere-trans role ks added ks'
            (record {
              same_id = refl;
              same_nodes = λ r ne. ground (arith, ne);
              same_owner = λ r ne. refl;
            })
            same,
      )
