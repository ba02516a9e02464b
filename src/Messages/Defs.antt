-- ===== src/Messages/Defs.antt =====
-- messages/api.go: the protocol's messages. Identifiers, views and counters are native numbers,
-- bytes are lists of numbers; the interfaces' getters are the functions below.
use minbft.Base.{ℕ, List, [], ◌∷◌}

-- usig/usig.go: a unique identifier, the counter with the certificate of the trusted component.
pub record Ui : Type 0 where
  pub counter : ℕ
  pub cert : List ℕ

pub record Request : Type 0 where
  pub client_id : ℕ
  pub sequence : ℕ
  pub operation : List ℕ
  pub signature : List ℕ

pub record Reply : Type 0 where
  pub replica_id : ℕ
  pub client_id : ℕ
  pub sequence : ℕ
  pub result : List ℕ
  pub signature : List ℕ

pub record ReqViewChange : Type 0 where
  pub replica_id : ℕ
  pub new_view : ℕ
  pub signature : List ℕ

-- `MessageLog` and `NewViewCert` are the slices `[]CertifiedMessage` and `[]ViewChange`.
mutual
  pub data CertifiedMessage : Type 0 where
    prepare : (replica_id view : ℕ) → Request → Ui → CertifiedMessage
    commit : (replica_id : ℕ) → CertifiedMessage → Ui → CertifiedMessage
    view_change : ViewChange → CertifiedMessage
    new_view : (replica_id view : ℕ) → NewViewCert → Ui → CertifiedMessage

  pub data ViewChange : Type 0 where
    vc_message : (replica_id view : ℕ) → MessageLog → List ReqViewChange → Ui → ViewChange

  pub data MessageLog : Type 0 where
    log_end : MessageLog
    log_entry : CertifiedMessage → MessageLog → MessageLog

  pub data NewViewCert : Type 0 where
    cert_end : NewViewCert
    cert_entry : ViewChange → NewViewCert → NewViewCert

pub data Message : Type 0 where
  hello : (replica_id : ℕ) → Message
  request : Request → Message
  reply : Reply → Message
  req_view_change : ReqViewChange → Message
  certified : CertifiedMessage → Message

-- The slices as lists, and back.
unfoldable pub log_list : MessageLog → List CertifiedMessage
log_list log_end = []
log_list (log_entry m l) = m ∷ log_list l

unfoldable pub log_of : List CertifiedMessage → MessageLog
log_of [] = log_end
log_of (m ∷ l) = log_entry m (log_of l)

unfoldable pub cert_list : NewViewCert → List ViewChange
cert_list cert_end = []
cert_list (cert_entry v l) = v ∷ cert_list l

unfoldable pub cert_of : List ViewChange → NewViewCert
cert_of [] = cert_end
cert_of (v ∷ l) = cert_entry v (cert_of l)
