-- ===== src/Auth/Captured.antt =====
-- sample/authentication/crypto.go: all accepted identifiers of a peer are of the epoch captured first.
use minbft.Base.{ℕ, ◌≡◌, ◌≢◌, ◌⊎◌, inl, inr, refl, sym, ap, ◌∙◌, subst, none, some, List, [], ◌∷◌}
use minbft.Base.Result.{Result, ok, err, panic, ok-injective}
use minbft.Usig.Sgx.{Crypto}
use minbft.Auth.{Epochs, captured_epoch, key_fingerprint, check_usig_tag, capture, verify_usig_tag}
use minbft.Auth.Epoch.{
  Call, tag_epoch, stored, Stored, captured_epoch_cases, captured-Stored, Accepted,
  check_usig_tag-Accepted,
}

module _ {Key : Type 0} (lib : Crypto Key) where
  abbrev check : Epochs → Call Key → Epochs × Result (Unit {0})
  check s c = verify_usig_tag lib s c.message c.tag c.key

  -- The epochs after some calls, of which some may have failed.
  unfoldable pub run_tags : Epochs → List (Call Key) → Epochs
  run_tags s [] = s
  run_tags s (c ∷ l) = run_tags (verify_usig_tag lib s c.message c.tag c.key).0 l

  -- A call fails and captures nothing, or its tag is accepted.
  check_cases :
      (s : Epochs) (c : Call Key)
      → (((check s c).0 ≡ s) × ((check s c).1 ≢ ok tt))
        ⊎ ((got : List ℕ × ℕ) × ((check s c).0 ≡ got ∷ s) × Accepted lib s c got.0 got.1)
  unfolding verify_usig_tag capture
  check_cases s c =
      decided (check_usig_tag lib s c.message c.tag c.key) (check_usig_tag-Accepted lib s c)
    where
      decided :
          (r : Result (List ℕ × ℕ))
          → ((got : List ℕ × ℕ) → r ≡ ok got → Accepted lib s c got.0 got.1)
          → (((capture lib s r).0 ≡ s) × ((capture lib s r).1 ≢ ok tt))
            ⊎ ((got : List ℕ × ℕ) × ((capture lib s r).0 ≡ got ∷ s) × Accepted lib s c got.0 got.1)
      decided (ok got) h = inr (got, refl, h got refl)
      decided (err why) h = inl (refl, λ e. cc)
      decided panic h = inl (refl, λ e. cc)

  -- Whether the epoch was captured before or not, it is that of the UI.
  epoch_fixed :
      (s : Epochs) (c : Call Key) (print : List ℕ) (epoch : ℕ)
      → Stored s
      → Accepted lib s c print epoch
      → (tag_epoch c.tag ≡ ok epoch) × (epoch ≡ stored epoch)
  epoch_fixed s c print epoch h (_, (in_ui, read, same, inl known)) =
      let back = captured-Stored s print epoch h known in (read ∙ ap ok (same ∙ sym back), back)
  epoch_fixed s c print epoch h (_, (in_ui, read, same, inr (new, first))) =
      (read ∙ ap ok first, sym first ∙ same)

  check-Stored : (s : Epochs) (c : Call Key) → Stored s → Stored (check s c).0
  check-Stored s c h = elim (check_cases s c) [
    | inl (same, _) ↦ subst Stored (sym same) h
    | inr (got, more, accepted) ↦
        subst Stored (sym more) ((epoch_fixed s c got.0 got.1 h accepted).1, h)
  ]

  -- A captured epoch is the one that a tag of the same fingerprint is accepted with.
  kept_epoch :
      (s : Epochs) (p print : List ℕ) (e epoch : ℕ) {in_ui : ℕ}
      → p ≡ print
      → captured_epoch s print ≡ some epoch
      → (captured_epoch s p ≡ some e) ⊎ ((captured_epoch s p ≡ none) × (in_ui ≡ e))
      → some e ≡ some epoch
  kept_epoch s p print e epoch same h (inl known) = sym known ∙ ap (captured_epoch s) same ∙ h
  kept_epoch s p print e epoch same h (inr (new, _)) =
      let no : none ≡ some epoch = sym new ∙ ap (captured_epoch s) same ∙ h in cc

  check-captured :
      (s : Epochs) (c : Call Key) (print : List ℕ) (epoch : ℕ)
      → captured_epoch s print ≡ some epoch
      → captured_epoch (check s c).0 print ≡ some epoch
  check-captured s c print epoch h = elim (check_cases s c) [
    | inl (same, _) ↦ ap (λ t. captured_epoch t print) same ∙ h
    | inr (got, more, (_, (in_ui, _, _, known))) ↦
        ap (λ t. captured_epoch t print) more ∙ elim (captured_epoch_cases got.0 got.1 s print) [
          | inr (other, next) ↦ next ∙ h
          | inl (same, found) ↦ found ∙ kept_epoch s got.0 print got.1 epoch same h known
        ]
  ]

  run_tags-Stored : (s : Epochs) (l : List (Call Key)) → Stored s → Stored (run_tags s l)
  unfolding run_tags
  run_tags-Stored s [] h = h
  run_tags-Stored s (c ∷ l) h = run_tags-Stored (check s c).0 l (check-Stored s c h)

  run_tags-captured :
      (s : Epochs) (l : List (Call Key)) (print : List ℕ) (epoch : ℕ)
      → captured_epoch s print ≡ some epoch
      → captured_epoch (run_tags s l) print ≡ some epoch
  unfolding run_tags
  run_tags-captured s [] print epoch h = h
  run_tags-captured s (c ∷ l) print epoch h =
      run_tags-captured (check s c).0 l print epoch (check-captured s c print epoch h)

  -- What an accepting call leaves.
  finished_check :
      (s : Epochs) (c : Call Key)
      → (check s c).1 ≡ ok tt
      → (got : List ℕ × ℕ) × Accepted lib s c got.0 got.1
        × (captured_epoch (check s c).0 got.0 ≡ some got.1)
  finished_check s c e = elim (check_cases s c) [
    | inl (_, failed) ↦ absurd (failed e)
    | inr (got, more, accepted) ↦ (
      got,
      accepted,
      ap (λ t. captured_epoch t got.0) more ∙ elim (captured_epoch_cases got.0 got.1 s got.0) [
        | inl (_, found) ↦ found
        | inr (other, _) ↦ absurd (other refl)
      ],
    )
  ]

-- Whatever tags were verified before, between and with what results: of two tags that are accepted for
-- keys of one fingerprint the UIs are of one epoch.
pub run_tags-tag_epoch :
    {Key : Type 0} (lib : Crypto Key) (pre mid : List (Call Key)) (a b : Call Key)
    → (verify_usig_tag lib (run_tags lib [] pre) a.message a.tag a.key).1 ≡ ok tt
    → (verify_usig_tag lib (run_tags lib (run_tags lib [] pre) (a ∷ mid)) b.message b.tag b.key).1
      ≡ ok tt
    → key_fingerprint lib a.key ≡ key_fingerprint lib b.key
    → tag_epoch a.tag ≡ tag_epoch b.tag
unfolding run_tags
run_tags-tag_epoch lib pre mid a b ea eb same =
    let s = run_tags lib [] pre in
    let (got, accepted, captured) = finished_check lib s a ea in
    let t = run_tags lib (check lib s a).0 mid in
    let stored_s = run_tags-Stored lib [] pre tt in
    let later = run_tags-captured lib (check lib s a).0 mid got.0 got.1 captured in
    let (got', accepted', _) = finished_check lib t b eb in
    let prints : got'.0 ≡ got.0 = ok-injective (sym accepted'.0 ∙ sym same ∙ accepted.0) in
    let (in_ui, _, _, known) = accepted'.1 in
    let epochs : some got'.1 ≡ some got.1 =
      kept_epoch lib t got'.0 got.0 got'.1 got.1 prints later known in
    let equal : got'.1 ≡ got.1 = cc in
    (epoch_fixed lib s a got.0 got.1 stored_s accepted).0
    ∙ ap ok (sym equal)
    ∙ sym
        (epoch_fixed lib t b got'.0 got'.1
          (run_tags-Stored lib (check lib s a).0 mid (check-Stored lib s a stored_s)) accepted').0
