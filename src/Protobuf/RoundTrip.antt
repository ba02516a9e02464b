-- ===== src/Protobuf/RoundTrip.antt =====
-- messages/protobuf: what is marshalled is read back.
use minbft.Base.{◌<◌, ◌≡◌, refl, u64_mod}
use minbft.Base.Result.{Result, ok}
use minbft.Messages.{
  Ui, Message, hello, request, reply, req_view_change, certified, CertifiedMessage, prepare, commit,
  view_change, new_view, ViewChange, vc_message, MessageLog, log_end, log_entry, NewViewCert,
  cert_end, cert_entry,
}
use minbft.Usig.{marshal_binary}
use minbft.Usig.Marshal.{unmarshal_binary-marshal_binary}
use minbft.Protobuf.{PbMessage, certified_to_pb, vc_to_pb, log_to_pb, nv_cert_to_pb, to_pb}
use minbft.Protobuf.Parse.{
  parse_ui, from_pb, vc_from_pb, log_from_pb, nv_cert_from_pb, new_from_binary,
}

-- Every counter in a message is a uint64.
unfoldable mutual
  pub Words : CertifiedMessage → Type 0
  Words (prepare r v q u) = u.counter < u64_mod
  Words (commit r p u) = Words p × (u.counter < u64_mod)
  Words (view_change vc) = VcWords vc
  Words (new_view r v c u) = CertWords c × (u.counter < u64_mod)

  pub VcWords : ViewChange → Type 0
  VcWords (vc_message r v l c u) = LogWords l × (u.counter < u64_mod)

  pub LogWords : MessageLog → Type 0
  LogWords log_end = Unit {0}
  LogWords (log_entry m l) = Words m × LogWords l

  pub CertWords : NewViewCert → Type 0
  CertWords cert_end = Unit {0}
  CertWords (cert_entry vc c) = VcWords vc × CertWords c

unfoldable pub MessageWords : Message → Type 0
MessageWords (certified m) = Words m
MessageWords (hello r) = Unit {0}
MessageWords (request q) = Unit {0}
MessageWords (reply r) = Unit {0}
MessageWords (req_view_change m) = Unit {0}

parse_ui-marshal : (u : Ui) → u.counter < u64_mod → parse_ui (marshal_binary u) ≡ ok u
unfolding parse_ui
parse_ui-marshal u h = rw (unmarshal_binary-marshal_binary u h)

mutual
  unfolding certified_to_pb from_pb Words

  certified_back : (m : CertifiedMessage) → Words m → from_pb (certified_to_pb m) ≡ ok (certified m)
  certified_back (prepare r v q u) h = rw (parse_ui-marshal u h)
  certified_back (commit r p u) h = rw (certified_back p h.0, parse_ui-marshal u h.1)
  certified_back (view_change vc) h = rw (vc_back vc h)
  certified_back (new_view r v c u) h = rw (parse_ui-marshal u h.1, cert_back c h.0)

  vc_back : (vc : ViewChange) → VcWords vc → vc_from_pb (vc_to_pb vc) ≡ ok vc
  vc_back (vc_message r v l c u) h = rw (parse_ui-marshal u h.1, log_back l h.0)

  log_back : (l : MessageLog) → LogWords l → log_from_pb (log_to_pb l) ≡ ok l
  log_back log_end h = refl
  log_back (log_entry m l) h = rw (certified_back m h.0, log_back l h.1)

  cert_back : (c : NewViewCert) → CertWords c → nv_cert_from_pb (nv_cert_to_pb c) ≡ ok c
  cert_back cert_end h = refl
  cert_back (cert_entry vc c) h = rw (vc_back vc h.0, cert_back c h.1)

from_pb-to_pb : (m : Message) → MessageWords m → from_pb (to_pb m) ≡ ok m
unfolding to_pb from_pb MessageWords
from_pb-to_pb (hello r) h = refl
from_pb-to_pb (request q) h = refl
from_pb-to_pb (reply r) h = refl
from_pb-to_pb (req_view_change m) h = refl
from_pb-to_pb (certified m) h = certified_back m h

-- Let the protocol-buffers library read back what it writes. Every message whose counters, those of the
-- embedded messages included, are 64-bit words is what parsing gives for its binary form.
pub new_from_binary-encode :
    {Bytes : Type 0} (encode : PbMessage → Bytes) (decode : Bytes → Result PbMessage) (m : Message)
    → ((p : PbMessage) → decode (encode p) ≡ ok p)
    → MessageWords m
    → new_from_binary decode (encode (to_pb m)) ≡ ok m
unfolding new_from_binary
new_from_binary-encode encode decode m back h = rw (back (to_pb m)) (from_pb-to_pb m h)
