-- ===== src/Replica/Starts.antt =====
-- core/view-change.go and core/req-view-change.go: the log through the processors that reset it.
use minbft.Base.{
  ℕ, ◌+◌, ◌≡◌, ◌⊎◌, inl, inr, refl, sym, ap, ◌∙◌, subst, Bool, Option, none, some, List, [], ◌∷◌,
  ltb, ◌==◌, inc64, arith, Bool-cases,
}
use minbft.Base.Result.{ok}
use minbft.Messages.{Request, ReqViewChange, ViewChange}
use minbft.ViewState.{advance_expected}
use minbft.ViewChange.{validate_vc_cert, RvcCollector, collect_rvc}
use minbft.ViewChange.Collect.{RvcInv, collect_rvc_next, collect_rvc-RvcInv}
use minbft.Replica.{Config, Replica, M, return, generate}
use minbft.Replica.Requests.{unprepare_requests, unprepare_all}
use minbft.Replica.Views.{
  certified_messages, collect_rvc_step, advance_expected_view, process_rvc, process_nv_cert,
  start_view_change,
}
use minbft.Replica.Keeps.{Preserves}
use minbft.Replica.Entries.{Keeping, started, next_view, change-Acceptable}

module _ (cfg : Config) where
  pub nv_cert-Keeping :
      (v : ℕ) (cert : List ViewChange) → Preserves (Keeping cfg) (process_nv_cert cfg v cert)
  unfolding process_nv_cert generate
  nv_cert-Keeping v cert = record {
    keeps = λ s h. elim (Bool-cases (v == s.view.expected_view)) [
      | inr other ↦ rw other h
      | inl same ↦ rw same (
          started cfg s.view.expected_view s.usig s.rvcs _ refl refl
            (ap some (ground (arith, same))) tt h.bounded h.agreed h.collecting)
    ];
  }

  unprepare_all_kept :
      (l : List Request) (s : Replica)
      → let t = unprepare_all l s in
        (t.view ≡ s.view) × (t.log ≡ s.log) × (t.usig ≡ s.usig) × (t.rvcs ≡ s.rvcs)
  unfolding unprepare_all
  unprepare_all_kept [] s = (refl, refl, refl, refl)
  unprepare_all_kept (q ∷ l) s = unprepare_all_kept l _

  start-Keeping :
      (v : ℕ) (cert : List ReqViewChange) (s : Replica) (collected : RvcCollector)
      → Keeping cfg s
      → v ≡ inc64 s.rvcs.view
      → collected.view ≡ v
      → RvcInv cfg.vc_cert_size collected
      → validate_vc_cert cfg.vc_cert_size v cert ≡ ok tt
      → Keeping cfg (start_view_change cfg v cert (record s { rvcs = collected })).1
  unfolding start_view_change advance_expected_view advance_expected unprepare_requests generate
  start-Keeping v cert s collected h next at inv valid =
      let further = next_view cfg s.rvcs.view s.view.expected_view v h.agreed h.bounded next in
      elim (Bool-cases (ltb s.view.expected_view v)) [
        | inr stay ↦ rw stay (record {
          accepted = h.accepted;
          changes = h.changes;
          bounded = h.bounded;
          agreed = ground (arith, stay, further, at);
          collecting = inv;
        })
        | inl moved ↦
            let kept = unprepare_all_kept s.prepared (record s {
              view = record s.view { expected_view = v };
              log = [];
              vc_timer = some v;
              rvcs = collected;
            }) in
            let after : v ≡ s.view.expected_view + 1 = ground (arith, moved, further, next) in
            rw (moved, kept.0, kept.1, kept.2, kept.3)
              (started cfg v s.usig collected _ refl refl refl
                (change-Acceptable cfg s.view.expected_view v s.usig (certified_messages s.log) cert
                  _ after refl h.accepted valid)
                (omega (arith, next)) (inl at) inv)
      ]

  finish-Keeping :
      (v : ℕ) (new : Bool) (cert : Option (List ReqViewChange)) (t : Replica)
      → ((cert ≡ none) × Keeping cfg t)
        ⊎ ((c : List ReqViewChange) × (cert ≡ some c) × Keeping cfg (start_view_change cfg v c t).1)
      → let finish : M Bool = elim cert [
        | none ↦ return new
        | some c ↦ start_view_change cfg v c
      ] in
        Keeping cfg (finish t).1
  finish-Keeping v new none t (inl (_, h)) = h
  finish-Keeping v new none t (inr (c, e, h)) = cc
  finish-Keeping v new (some k) t (inl (e, h)) = cc
  finish-Keeping v new (some k) t (inr (c, e, h)) =
      let same : c ≡ k = cc in subst (λ x. Keeping cfg (start_view_change cfg v x t).1) same h

  pub rvc-Keeping : (rvc : ReqViewChange) → Preserves (Keeping cfg) (process_rvc cfg rvc)
  unfolding process_rvc collect_rvc_step
  rvc-Keeping rvc = record {
    keeps = λ s h.
        let inv = collect_rvc-RvcInv cfg.vc_cert_size s.rvcs rvc h.collecting in
        finish-Keeping rvc.new_view (collect_rvc cfg.vc_cert_size s.rvcs rvc).1
          (collect_rvc cfg.vc_cert_size s.rvcs rvc).2 _
          (elim (collect_rvc_next cfg.vc_cert_size s.rvcs rvc h.collecting) [
            | inl (nothing, same) ↦ inl (
              nothing,
              record {
                accepted = h.accepted;
                changes = h.changes;
                bounded = h.bounded;
                agreed = ground (arith, h.agreed, same);
                collecting = inv;
              },
            )
            | inr (cert, done, at, next, valid) ↦ inr (
              cert,
              done,
              start-Keeping rvc.new_view cert s (collect_rvc cfg.vc_cert_size s.rvcs rvc).0 h next
                  (at ∙ sym next) inv valid,
            )
          ]);
  }
