-- ===== src/Authen/Content.antt =====
-- messages/authen.go: what the authenticated bytes are meant to say of a message.
use minbft.Base.{ℕ, ◌^◌, ◌<◌, List, [], ◌∷◌, u64_mod}
use minbft.Messages.{
  Message, hello, request, reply, req_view_change, certified, CertifiedMessage, prepare, commit,
  view_change, new_view, NewViewCert, cert_end, cert_entry, replica_id, counter,
}
use minbft.Messages.Vc

-- Lists of numbers are digests; the entries of a new-view certificate are replicas with counters.
pub data Content : Type 0 where
  nothing : Content
  of_request : (seq : ℕ) → List ℕ → Content
  of_reply : (client seq : ℕ) → List ℕ → Content
  of_prepare : (view client seq : ℕ) → List ℕ → Content
  of_commit : (replica : ℕ) → Content → (counter : ℕ) → Content
  of_rvc : (view : ℕ) → Content
  of_vc : (view : ℕ) → Content
  of_nv : (view : ℕ) → List (ℕ × ℕ) → Content

abbrev pub cert_content : NewViewCert → List (ℕ × ℕ)
cert_content cert_end = []
cert_content (cert_entry vc l) = (Vc.replica_id vc, (Vc.ui vc).counter) ∷ cert_content l

unfoldable pub certified_content : (List ℕ → List ℕ) → CertifiedMessage → Content
certified_content hash (prepare r v q u) = of_prepare v q.client_id q.sequence (hash q.operation)
certified_content hash (commit r p u) =
    of_commit (replica_id p) (certified_content hash p) (counter p)
certified_content hash (view_change vc) = of_vc (Vc.new_view vc)
certified_content hash (new_view r v c u) = of_nv v (cert_content c)

unfoldable pub content : (List ℕ → List ℕ) → Message → Content
unfolding certified_content
content hash (hello r) = nothing
content hash (request q) = of_request q.sequence (hash q.operation)
content hash (reply r) = of_reply r.client_id r.sequence (hash r.result)
content hash (req_view_change m) = of_rvc m.new_view
content hash (certified m) = certified_content hash m

abbrev pub CertFits : NewViewCert → Type 0
CertFits cert_end = Unit {0}
CertFits (cert_entry vc l) =
    (Vc.replica_id vc < 2 ^ 32) × ((Vc.ui vc).counter < u64_mod) × CertFits l

abbrev pub Fits : CertifiedMessage → Type 0
Fits (prepare r v q u) = (v < u64_mod) × (q.client_id < 2 ^ 32) × (q.sequence < u64_mod)
Fits (commit r p u) = (replica_id p < 2 ^ 32) × (counter p < u64_mod) × Fits p
Fits (view_change vc) = Vc.new_view vc < u64_mod
Fits (new_view r v c u) = (v < u64_mod) × CertFits c

-- The numbers that are written are within the types of their fields, `uint32` and `uint64`.
abbrev pub MessageFits : Message → Type 0
MessageFits (hello r) = Unit {0}
MessageFits (request q) = q.sequence < u64_mod
MessageFits (reply r) = (r.client_id < 2 ^ 32) × (r.sequence < u64_mod)
MessageFits (req_view_change m) = m.new_view < u64_mod
MessageFits (certified m) = Fits m
