-- ===== src/Authen.antt =====
-- messages/authen.go: the bytes of a message that signatures and certificates of the USIG cover. The
-- tags are ASCII, and `hash` stands for SHA-256.
pub mod Content
pub mod Injective
pub mod Tests
use minbft.Base.{ℕ, List, [], ◌∷◌, ◌++◌}
use minbft.Base.Result.{Result, ok, panic}
use minbft.Messages.{
  Request, Reply, Message, hello, request, reply, req_view_change, certified, CertifiedMessage,
  prepare, commit, view_change, new_view, ViewChange, NewViewCert, cert_end, cert_entry, replica_id,
  counter,
}
use minbft.Messages.Vc
use minbft.Usig.{big_endian}

abbrev pub request_tag : List ℕ
request_tag = 82 ∷ 69 ∷ 81 ∷ 85 ∷ 69 ∷ 83 ∷ 84 ∷ []

abbrev pub reply_tag : List ℕ
reply_tag = 82 ∷ 69 ∷ 80 ∷ 76 ∷ 89 ∷ []

abbrev pub prepare_tag : List ℕ
prepare_tag = 80 ∷ 82 ∷ 69 ∷ 80 ∷ 65 ∷ 82 ∷ 69 ∷ []

abbrev pub commit_tag : List ℕ
commit_tag = 67 ∷ 79 ∷ 77 ∷ 77 ∷ 73 ∷ 84 ∷ []

abbrev pub req_view_change_tag : List ℕ
req_view_change_tag = 82 ∷ 69 ∷ 81 ∷ 45 ∷ 86 ∷ 73 ∷ 69 ∷ 87 ∷ 45 ∷ 67 ∷ 72 ∷ 65 ∷ 78 ∷ 71 ∷ 69 ∷ []

abbrev view_change_tag : List ℕ
view_change_tag = 86 ∷ 73 ∷ 69 ∷ 87 ∷ 45 ∷ 67 ∷ 72 ∷ 65 ∷ 78 ∷ 71 ∷ 69 ∷ []

abbrev new_view_tag : List ℕ
new_view_tag = 78 ∷ 69 ∷ 87 ∷ 45 ∷ 86 ∷ 73 ∷ 69 ∷ 87 ∷ []

abbrev pub tag : CertifiedMessage → List ℕ
tag (prepare r v q u) = prepare_tag
tag (commit r p u) = commit_tag
tag (view_change vc) = view_change_tag
tag (new_view r v c u) = new_view_tag

unfoldable pub write_request : (List ℕ → List ℕ) → Request → List ℕ
write_request hash q = big_endian 8 q.sequence ++ hash q.operation

unfoldable pub write_reply : (List ℕ → List ℕ) → Reply → List ℕ
write_reply hash r = big_endian 4 r.client_id ++ (big_endian 8 r.sequence ++ hash r.result)

-- The loop over a new-view certificate
unfoldable pub write_nv_cert : NewViewCert → List ℕ
write_nv_cert cert_end = []
write_nv_cert (cert_entry vc l) =
    big_endian 4 (Vc.replica_id vc) ++ (big_endian 8 (Vc.ui vc).counter ++ write_nv_cert l)

-- writeAuthenBytes for a certified message; the bytes of a Commit's proposal are AuthenBytes of it.
unfoldable pub write_certified : (List ℕ → List ℕ) → CertifiedMessage → List ℕ
unfolding write_request write_nv_cert
write_certified hash (prepare r v q u) =
    big_endian 8 v ++ (big_endian 4 q.client_id ++ write_request hash q)
write_certified hash (commit r p u) =
    big_endian 4 (replica_id p) ++ ((tag p ++ write_certified hash p) ++ big_endian 8 (counter p))
write_certified hash (view_change vc) = big_endian 8 (Vc.new_view vc)
write_certified hash (new_view r v c u) = big_endian 8 v ++ write_nv_cert c

unfoldable pub authen_bytes : (List ℕ → List ℕ) → Message → Result (List ℕ)
unfolding write_certified write_request write_reply
authen_bytes hash (hello r) = panic
authen_bytes hash (request q) = ok (request_tag ++ write_request hash q)
authen_bytes hash (reply r) = ok (reply_tag ++ write_reply hash r)
authen_bytes hash (req_view_change m) = ok (req_view_change_tag ++ big_endian 8 m.new_view)
authen_bytes hash (certified m) = ok (tag m ++ write_certified hash m)
