-- ===== src/Protobuf/Missing.antt =====
-- messages/protobuf: when parsing a message of a peer panics.
use minbft.Base.{
  ℕ, ◌≡◌, refl, subst, Bool, true, false, ◌||◌, List, arith, length, ltb, Bool-cases, inl, inr,
}
use minbft.Base.Result.{Error, Result, ok, err, panic, ◌>>=◌, wrap_err}
use minbft.Messages.{Message, hello, request, reply, req_view_change, certified}
use minbft.Usig.{unmarshal_binary}
use minbft.Protobuf.{
  PbMessage, PbProposal, PbViewChange, PbLog, PbNewViewCert, pb_hello, pb_request, pb_reply,
  pb_prepare, pb_commit, pb_req_view_change, pb_view_change, pb_new_view, pb_untyped, absent,
  present, pb_vc, pb_log_end, pb_log_entry, pb_cert_end, pb_cert_entry,
}
use minbft.Protobuf.Parse.{
  parse_ui, as_certified, from_pb, proposal_from_pb, vc_from_pb, log_from_pb, nv_cert_from_pb,
}

-- Somewhere in the message is a Commit without a proposal.
mutual
  pub has_absent : PbMessage → Bool
  has_absent (pb_commit r p b) = proposal_has_absent p
  has_absent (pb_view_change vc) = vc_has_absent vc
  has_absent (pb_new_view r v c b) = cert_has_absent c
  has_absent (pb_hello r) = false
  has_absent (pb_request q) = false
  has_absent (pb_reply r) = false
  has_absent (pb_prepare r v q b) = false
  has_absent (pb_req_view_change m) = false
  has_absent pb_untyped = false

  pub proposal_has_absent : PbProposal → Bool
  proposal_has_absent absent = true
  proposal_has_absent (present p) = has_absent p

  pub vc_has_absent : PbViewChange → Bool
  vc_has_absent (pb_vc r v l c b) = log_has_absent l

  pub log_has_absent : PbLog → Bool
  log_has_absent pb_log_end = false
  log_has_absent (pb_log_entry p l) = has_absent p || log_has_absent l

  pub cert_has_absent : PbNewViewCert → Bool
  cert_has_absent pb_cert_end = false
  cert_has_absent (pb_cert_entry vc c) = vc_has_absent vc || cert_has_absent c

-- The message is a Commit whose proposal, or the proposal of its proposal and so on, is absent.
abbrev pub lacks_proposal : PbMessage → Bool
lacks_proposal (pb_commit r absent b) = true
lacks_proposal (pb_commit r (present p) b) = lacks_proposal p
lacks_proposal _ = false

abbrev Returns {ℓ} : {A : Type ℓ} → Result A → Type 0
Returns (ok a) = Unit {0}
Returns (err e) = Unit {0}
Returns panic = ⊥

>>=-Returns :
    {A B : Type 0} (r : Result A) (f : A → Result B)
    → Returns r
    → ((a : A) → Returns (f a))
    → Returns (r >>= f)
>>=-Returns (ok a) f h k = k a
>>=-Returns (err e) f h k = tt
>>=-Returns panic f h k = h

wrap_err-Returns :
    {A : Type 0} (w : Error → Error) (r : Result A) → Returns r → Returns (wrap_err w r)
wrap_err-Returns w (ok a) h = tt
wrap_err-Returns w (err e) h = tt
wrap_err-Returns w panic h = h

parse_ui-Returns : (b : List ℕ) → Returns (parse_ui b)
unfolding parse_ui unmarshal_binary
parse_ui-Returns b = elim (Bool-cases (ltb (length b) 8)) [ inl e ↦ rw e tt | inr e ↦ rw e tt ]

as_certified-Returns : (m : Message) → Returns (as_certified m)
unfolding as_certified
as_certified-Returns (hello r) = tt
as_certified-Returns (request q) = tt
as_certified-Returns (reply r) = tt
as_certified-Returns (req_view_change m) = tt
as_certified-Returns (certified m) = tt

or_left : (a b : Bool) → (a || b) ≡ false → a ≡ false
or_left a b h = ground arith

or_right : (a b : Bool) → (a || b) ≡ false → b ≡ false
or_right a b h = ground arith

mutual
  unfolding from_pb has_absent

  from_pb-Returns : (p : PbMessage) → has_absent p ≡ false → Returns (from_pb p)
  from_pb-Returns (pb_hello r) h = tt
  from_pb-Returns (pb_request q) h = tt
  from_pb-Returns (pb_reply r) h = tt
  from_pb-Returns (pb_req_view_change m) h = tt
  from_pb-Returns pb_untyped h = tt
  from_pb-Returns (pb_prepare r v q b) h = >>=-Returns (parse_ui b) _ (parse_ui-Returns b) (λ u. tt)
  from_pb-Returns (pb_commit r p b) h =
      >>=-Returns (proposal_from_pb p) _ (proposal-Returns p h)
        (λ m. >>=-Returns (parse_ui b) _ (parse_ui-Returns b) (λ u. tt))
  from_pb-Returns (pb_view_change vc) h = >>=-Returns (vc_from_pb vc) _ (vc-Returns vc h) (λ m. tt)
  from_pb-Returns (pb_new_view r v c b) h = >>=-Returns (parse_ui b) _ (parse_ui-Returns b) (λ u.
      >>=-Returns (wrap_err _ (nv_cert_from_pb c)) _
        (wrap_err-Returns _ (nv_cert_from_pb c) (cert-Returns c h)) (λ m. tt))

  proposal-Returns : (p : PbProposal) → proposal_has_absent p ≡ false → Returns (proposal_from_pb p)
  proposal-Returns absent h = cc
  proposal-Returns (present p) h =
      >>=-Returns (wrap_err _ (from_pb p)) _ (wrap_err-Returns _ (from_pb p) (from_pb-Returns p h))
        (λ m. wrap_err-Returns _ (as_certified m) (as_certified-Returns m))

  vc-Returns : (vc : PbViewChange) → vc_has_absent vc ≡ false → Returns (vc_from_pb vc)
  vc-Returns (pb_vc r v l c b) h = >>=-Returns (parse_ui b) _ (parse_ui-Returns b) (λ u.
      >>=-Returns (wrap_err _ (log_from_pb l)) _
        (wrap_err-Returns _ (log_from_pb l) (log-Returns l h)) (λ m. tt))

  log-Returns : (l : PbLog) → log_has_absent l ≡ false → Returns (log_from_pb l)
  log-Returns pb_log_end h = tt
  log-Returns (pb_log_entry p l) h =
      >>=-Returns (from_pb p) _ (from_pb-Returns p (or_left (has_absent p) (log_has_absent l) h))
        (λ typed. >>=-Returns (as_certified typed) _ (as_certified-Returns typed) (λ m.
          >>=-Returns (log_from_pb l) _
            (log-Returns l (or_right (has_absent p) (log_has_absent l) h)) (λ rest. tt)))

  cert-Returns : (c : PbNewViewCert) → cert_has_absent c ≡ false → Returns (nv_cert_from_pb c)
  cert-Returns pb_cert_end h = tt
  cert-Returns (pb_cert_entry vc c) h =
      >>=-Returns (vc_from_pb vc) _
        (vc-Returns vc (or_left (vc_has_absent vc) (cert_has_absent c) h))
        (λ m.
          >>=-Returns (nv_cert_from_pb c) _
            (cert-Returns c (or_right (vc_has_absent vc) (cert_has_absent c) h)) (λ rest. tt))

-- If parsing a message panics, there is a Commit without a proposal in it.
pub panic-has_absent : (p : PbMessage) → from_pb p ≡ panic → has_absent p ≡ true
panic-has_absent p e = elim (Bool-cases (has_absent p)) [
  | inl some_absent ↦ some_absent
  | inr whole ↦ absurd (subst Returns e (from_pb-Returns p whole))
]

-- Parsing panics for every Commit that has no proposal, or whose proposal, after any number of Commits
-- one inside the other, is a Commit that has none.
pub lacks_proposal-panic : (p : PbMessage) → lacks_proposal p ≡ true → from_pb p ≡ panic
unfolding from_pb
lacks_proposal-panic (pb_commit r absent b) h = refl
lacks_proposal-panic (pb_commit r (present p) b) h = rw (lacks_proposal-panic p h)
lacks_proposal-panic (pb_hello r) h = cc
lacks_proposal-panic (pb_request q) h = cc
lacks_proposal-panic (pb_reply r) h = cc
lacks_proposal-panic (pb_prepare r v q b) h = cc
lacks_proposal-panic (pb_req_view_change m) h = cc
lacks_proposal-panic (pb_view_change vc) h = cc
lacks_proposal-panic (pb_new_view r v c b) h = cc
lacks_proposal-panic pb_untyped h = cc
