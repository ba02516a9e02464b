-- ===== src/NewView/Extract.antt =====
-- core/new-view.go, extractPreparedRequests: the requests that a new-view certificate shows prepared.
-- The recursion descends into certificates inside the logs; the fuel counts the levels, and running
-- out of it is an error of its own.
use minbft.Base.{ℕ, zero, suc, ◌+◌, ◌&&◌, not, List, [], ◌∷◌, ◌++◌, length, ltb, if◌then◌else◌}
use minbft.Base.Result.{Result, ok, err, panic, ◌>>=◌, out_of_fuel}
use minbft.Messages.{
  Request, CertifiedMessage, prepare, commit, view_change, new_view, ViewChange, NewViewCert,
  MessageLog, log_end, log_entry, vc_message, cert_end, cert_entry, log_list, cert_list,
}
use minbft.Messages.Vc
use minbft.ViewChange.{is_empty}

-- `vcs` and `maxLog` after the first loop.
pub record Scan : Type 0 where
  pub vcs : List ViewChange
  pub max_log : List CertifiedMessage

-- `l[0].(messages.ViewChange)` is put aside, and what remains is compared with the longest log.
unfoldable pub longest : List CertifiedMessage → List CertifiedMessage → List CertifiedMessage
longest best l = if ltb (length best) (length l) then l else best

unfoldable pub scan_log : List CertifiedMessage → Scan → Scan
unfolding longest
scan_log [] s = s
scan_log (view_change vc ∷ l) s = record { vcs = s.vcs ++ vc ∷ []; max_log = longest s.max_log l }
scan_log (m ∷ l) s = record s { max_log = longest s.max_log (m ∷ l) }

unfoldable pub scan : List ViewChange → Scan → Scan
unfolding scan_log
scan [] s = s
scan (vc ∷ l) s = scan l (scan_log (log_list (Vc.message_log vc)) s)

-- `if comm, ok := m.(messages.Commit); ok { m = comm.Proposal() }`
unfoldable pub proposal : CertifiedMessage → CertifiedMessage
proposal (commit r p u) = p
proposal (prepare r v q u) = prepare r v q u
proposal (view_change vc) = view_change vc
proposal (new_view r v c u) = new_view r v c u

-- The second loop, given what the recursive call returns for a certificate.
unfoldable pub replay :
    (NewViewCert → Result (List Request))
    → List Request
    → List CertifiedMessage
    → Result (List Request)
unfolding proposal
replay inner prepared [] = ok prepared
replay inner prepared (m ∷ l) = elim (proposal m) [
  | prepare r v q u ↦ replay inner (prepared ++ q ∷ []) l
  | new_view r v c u ↦ inner c >>= λ known. replay inner known l
  | commit r p u ↦ panic
  | view_change vc ↦ panic
]

-- One level, given what the recursive call returns for a list of ViewChange messages.
unfoldable pub extract_level :
    (List ViewChange → Result (List Request)) → List ViewChange → Result (List Request)
unfolding scan replay
extract_level inner cert =
    let s = scan cert (record { vcs = []; max_log = [] }) in
    if is_empty s.max_log && not (is_empty s.vcs)
    then inner s.vcs
    else replay (λ c. inner (cert_list c)) [] s.max_log

unfoldable pub extract : ℕ → List ViewChange → Result (List Request)
extract zero cert = err out_of_fuel
extract (suc fuel) cert = extract_level (extract fuel) cert

-- How deep certificates and logs are nested, an upper bound for the levels.
unfoldable mutual
  pub size_message : CertifiedMessage → ℕ
  size_message (prepare r v q u) = 1
  size_message (commit r p u) = suc (size_message p)
  size_message (view_change vc) = suc (size_vc vc)
  size_message (new_view r v c u) = suc (size_cert c)

  pub size_vc : ViewChange → ℕ
  size_vc (vc_message r v l c u) = suc (size_log l)

  pub size_log : MessageLog → ℕ
  size_log log_end = 0
  size_log (log_entry m l) = size_message m + size_log l

  pub size_cert : NewViewCert → ℕ
  size_cert cert_end = 0
  size_cert (cert_entry vc l) = size_vc vc + size_cert l

unfoldable pub extract_prepared : NewViewCert → Result (List Request)
unfolding extract extract_level
extract_prepared cert = extract (suc (size_cert cert)) (cert_list cert)
