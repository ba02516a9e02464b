-- ===== src/Authen/Injective.antt =====
-- messages/authen.go: the authenticated bytes determine the content.
use minbft.Base.{
  ℕ, zero, suc, length, length-append, ◌≡◌, refl, sym, ap, ◌∙◌, List, [], ◌∷◌, ◌++◌, arith,
  append-front,
}
use minbft.Base.Result.{ok, ok-injective}
use minbft.Messages.{
  Message, hello, request, reply, req_view_change, certified, CertifiedMessage, ViewChange, prepare,
  commit, view_change, new_view, NewViewCert, cert_end, cert_entry, replica_id, counter,
}
use minbft.Messages.Vc
use minbft.Usig.{big_endian}
use minbft.Usig.Marshal.{
  length-big_endian, big_endian-append, append-big_endian, big_endian-injective,
}
use minbft.Authen.{
  tag, request_tag, reply_tag, req_view_change_tag, write_request, write_reply, write_nv_cert,
  write_certified, authen_bytes,
}
use minbft.Authen.Content.{
  of_rvc, of_vc, cert_content, CertFits, Fits, MessageFits, certified_content, content,
}

-- The bytes at the positions 0, 2 and 3, which no two tags share.
abbrev byte : ℕ → List ℕ → ℕ
byte i [] = 0
byte zero (b ∷ l) = b
byte (suc i) (b ∷ l) = byte i l

-- What follows equal tags is equal.
untag : (t l r : List ℕ) → t ++ l ≡ t ++ r → l ≡ r
untag t l r e = (append-front t t l r refl e).1

nothing_before : (v : ViewChange) (c : NewViewCert) → ¬ (write_nv_cert (cert_entry v c) ≡ [])
unfolding write_nv_cert
nothing_before v c e =
    let l = big_endian 8 (Vc.ui v).counter ++ write_nv_cert c in
    let same : length (big_endian 4 (Vc.replica_id v) ++ l) ≡ 0 = ap length e in
    omega (
      arith,
      same,
      length-append (big_endian 4 (Vc.replica_id v)) l,
      length-big_endian 4 (Vc.replica_id v),
    )

nv_cert_injective :
    (c d : NewViewCert)
    → CertFits c
    → CertFits d
    → write_nv_cert c ≡ write_nv_cert d
    → cert_content c ≡ cert_content d
unfolding write_nv_cert
nv_cert_injective cert_end cert_end g h e = refl
nv_cert_injective cert_end (cert_entry w d) g h e = absurd (nothing_before w d (sym e))
nv_cert_injective (cert_entry v c) cert_end g h e = absurd (nothing_before v c e)
nv_cert_injective (cert_entry v c) (cert_entry w d) g h e =
    let (ids, e₁) =
      big_endian-append 4 (Vc.replica_id v) (Vc.replica_id w)
        (big_endian 8 (Vc.ui v).counter ++ write_nv_cert c)
        (big_endian 8 (Vc.ui w).counter ++ write_nv_cert d) (omega (arith, g.0))
        (omega (arith, h.0)) e in
    let (counters, e₂) =
      big_endian-append 8 (Vc.ui v).counter (Vc.ui w).counter (write_nv_cert c) (write_nv_cert d)
        (omega (arith, g.1)) (omega (arith, h.1)) e₁ in
    let rest = nv_cert_injective c d g.2 h.2 e₂ in cc

module _ (hash : List ℕ → List ℕ) where
  certified_injective :
      (m n : CertifiedMessage)
      → Fits m
      → Fits n
      → tag m ++ write_certified hash m ≡ tag n ++ write_certified hash n
      → certified_content hash m ≡ certified_content hash n
  unfolding write_certified certified_content write_request
  certified_injective (prepare r v q u) (prepare s w p t) g h e =
      let (views, e₁) =
        big_endian-append 8 v w (big_endian 4 q.client_id ++ write_request hash q)
          (big_endian 4 p.client_id ++ write_request hash p) (omega (arith, g.0))
          (omega (arith, h.0))
          (untag (tag (prepare r v q u)) (write_certified hash (prepare r v q u))
            (write_certified hash (prepare s w p t)) e) in
      let (clients, e₂) =
        big_endian-append 4 q.client_id p.client_id (write_request hash q) (write_request hash p)
          (omega (arith, g.1)) (omega (arith, h.1)) e₁ in
      let (seqs, digests) =
        big_endian-append 8 q.sequence p.sequence (hash q.operation) (hash p.operation)
          (omega (arith, g.2)) (omega (arith, h.2)) e₂ in
      cc
  certified_injective (commit r p u) (commit s q t) g h e =
      let (replicas, e₁) =
        big_endian-append 4 (replica_id p) (replica_id q)
          ((tag p ++ write_certified hash p) ++ big_endian 8 (counter p))
          ((tag q ++ write_certified hash q) ++ big_endian 8 (counter q)) (omega (arith, g.0))
          (omega (arith, h.0))
          (untag (tag (commit r p u)) (write_certified hash (commit r p u))
            (write_certified hash (commit s q t)) e) in
      let (inner, counters) =
        append-big_endian 8 (counter p) (counter q) (tag p ++ write_certified hash p)
          (tag q ++ write_certified hash q) (omega (arith, g.1)) (omega (arith, h.1)) e₁ in
      let proposals = certified_injective p q g.2 h.2 inner in cc
  certified_injective (view_change vc) (view_change wc) g h e = ap of_vc (
      big_endian-injective 8 (Vc.new_view vc) (Vc.new_view wc) (omega (arith, g)) (omega (arith, h))
        (untag (tag (view_change vc)) (big_endian 8 (Vc.new_view vc))
          (big_endian 8 (Vc.new_view wc)) e))
  certified_injective (new_view r v c u) (new_view s w d t) g h e =
      let (views, e₁) =
        big_endian-append 8 v w (write_nv_cert c) (write_nv_cert d) (omega (arith, g.0))
          (omega (arith, h.0))
          (untag (tag (new_view r v c u)) (write_certified hash (new_view r v c u))
            (write_certified hash (new_view s w d t)) e) in
      let certs = nv_cert_injective c d g.1 h.1 e₁ in cc
  certified_injective (prepare r v q u) (commit s p t) g h e = absurd (omega (arith, ap (byte 0) e))
  certified_injective (prepare r v q u) (view_change vc) g h e =
      absurd (omega (arith, ap (byte 0) e))
  certified_injective (prepare r v q u) (new_view s w d t) g h e =
      absurd (omega (arith, ap (byte 0) e))
  certified_injective (commit s p t) (prepare r v q u) g h e = absurd (omega (arith, ap (byte 0) e))
  certified_injective (commit s p t) (view_change vc) g h e = absurd (omega (arith, ap (byte 0) e))
  certified_injective (commit s p t) (new_view r v c u) g h e =
      absurd (omega (arith, ap (byte 0) e))
  certified_injective (view_change vc) (prepare r v q u) g h e =
      absurd (omega (arith, ap (byte 0) e))
  certified_injective (view_change vc) (commit s p t) g h e = absurd (omega (arith, ap (byte 0) e))
  certified_injective (view_change vc) (new_view r v c u) g h e =
      absurd (omega (arith, ap (byte 0) e))
  certified_injective (new_view r v c u) (prepare s w q t) g h e =
      absurd (omega (arith, ap (byte 0) e))
  certified_injective (new_view r v c u) (commit s p t) g h e =
      absurd (omega (arith, ap (byte 0) e))
  certified_injective (new_view r v c u) (view_change vc) g h e =
      absurd (omega (arith, ap (byte 0) e))

-- The tags of the other messages start with this byte.
certified_byte : (m : CertifiedMessage) (l : List ℕ) → ¬ (byte 0 (tag m ++ l) ≡ 82)
certified_byte (prepare r v q u) l e = omega (arith, e)
certified_byte (commit r p u) l e = omega (arith, e)
certified_byte (view_change vc) l e = omega (arith, e)
certified_byte (new_view r v c u) l e = omega (arith, e)

-- With digests of whatever kind, two messages whose numbers are within the types of their fields and
-- that have the same authenticated bytes have the same content. They are of one type. Two Requests
-- agree in the sequence number and the digest of the operation, not necessarily in the client; two
-- Replies in the client, the sequence number and the digest of the result; two Prepares in the view and
-- their Request's client, sequence number and digest of the operation; two Commits in their proposals'
-- content, sender and counter; ReqViewChange and ViewChange messages in the new view, and NewViews in
-- the view and the senders and counters of their certificates.
pub authen_bytes-injective :
    (hash : List ℕ → List ℕ) (m n : Message) (b : List ℕ)
    → MessageFits m
    → MessageFits n
    → authen_bytes hash m ≡ ok b
    → authen_bytes hash n ≡ ok b
    → content hash m ≡ content hash n
unfolding authen_bytes content write_request write_reply
authen_bytes-injective hash (hello r) n b g h e k = cc
authen_bytes-injective hash m (hello s) b g h e k = cc
authen_bytes-injective hash (request q) (request p) b g h e k =
    let (seqs, digests) =
      big_endian-append 8 q.sequence p.sequence (hash q.operation) (hash p.operation)
        (omega (arith, g)) (omega (arith, h))
        (untag request_tag (write_request hash q) (write_request hash p)
          (ok-injective (e ∙ sym k))) in
    cc
authen_bytes-injective hash (reply q) (reply p) b g h e k =
    let (clients, e₁) =
      big_endian-append 4 q.client_id p.client_id (big_endian 8 q.sequence ++ hash q.result)
        (big_endian 8 p.sequence ++ hash p.result) (omega (arith, g.0)) (omega (arith, h.0))
        (untag reply_tag (write_reply hash q) (write_reply hash p) (ok-injective (e ∙ sym k))) in
    let (seqs, digests) =
      big_endian-append 8 q.sequence p.sequence (hash q.result) (hash p.result) (omega (arith, g.1))
        (omega (arith, h.1)) e₁ in
    cc
authen_bytes-injective hash (req_view_change q) (req_view_change p) b g h e k = ap of_rvc (
    big_endian-injective 8 q.new_view p.new_view (omega (arith, g)) (omega (arith, h)) (
      untag req_view_change_tag (big_endian 8 q.new_view) (big_endian 8 p.new_view)
        (ok-injective (e ∙ sym k))))
authen_bytes-injective hash (certified q) (certified p) b g h e k =
    certified_injective hash q p g h (ok-injective (e ∙ sym k))
authen_bytes-injective hash (request q) (reply p) b g h e k =
    absurd (omega (arith, ap (byte 2) (ok-injective (e ∙ sym k))))
authen_bytes-injective hash (request q) (req_view_change p) b g h e k =
    absurd (omega (arith, ap (byte 3) (ok-injective (e ∙ sym k))))
authen_bytes-injective hash (reply q) (request p) b g h e k =
    absurd (omega (arith, ap (byte 2) (ok-injective (e ∙ sym k))))
authen_bytes-injective hash (reply q) (req_view_change p) b g h e k =
    absurd (omega (arith, ap (byte 2) (ok-injective (e ∙ sym k))))
authen_bytes-injective hash (req_view_change q) (request p) b g h e k =
    absurd (omega (arith, ap (byte 3) (ok-injective (e ∙ sym k))))
authen_bytes-injective hash (req_view_change q) (reply p) b g h e k =
    absurd (omega (arith, ap (byte 2) (ok-injective (e ∙ sym k))))
authen_bytes-injective hash (request q) (certified p) b g h e k =
    absurd (certified_byte p (write_certified hash p) (ap (byte 0) (ok-injective (k ∙ sym e))))
authen_bytes-injective hash (certified q) (request p) b g h e k =
    absurd (certified_byte q (write_certified hash q) (ap (byte 0) (ok-injective (e ∙ sym k))))
authen_bytes-injective hash (reply q) (certified p) b g h e k =
    absurd (certified_byte p (write_certified hash p) (ap (byte 0) (ok-injective (k ∙ sym e))))
authen_bytes-injective hash (certified q) (reply p) b g h e k =
    absurd (certified_byte q (write_certified hash q) (ap (byte 0) (ok-injective (e ∙ sym k))))
authen_bytes-injective hash (req_view_change q) (certified p) b g h e k =
    absurd (certified_byte p (write_certified hash p) (ap (byte 0) (ok-injective (k ∙ sym e))))
authen_bytes-injective hash (certified q) (req_view_change p) b g h e k =
    absurd (certified_byte q (write_certified hash q) (ap (byte 0) (ok-injective (e ∙ sym k))))
