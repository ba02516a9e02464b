-- ===== src/Client/RequestStream.antt =====
-- client/internal/requestbuffer/requestbuffer.go, supplyRequests: the goroutine that passes the
-- requests of the buffer on to one replica, while the client adds and removes requests. Each step is a
-- section under the lock, one channel operation, or the choice of a `select`.
use minbft.Base.{
  ℕ, ◌<◌, ◌≡◌, Bool, true, false, Option, none, some, List, [], ◌∷◌, ltb, if◌then◌else◌,
}
use minbft.Messages.{Request}
use minbft.Client.RequestBuffer.{Buffer, new_buffer, Held, added, add_request, remove_request}

pub data Phase : Type 0 where
  starting : Phase  -- before `newAdded` is registered
  reading : Phase  -- before the section under the read lock
  offering : Request → Phase  -- in the first `select`
  waiting : Phase  -- in the second `select`
  stopped : Phase  -- cancelled

-- `token` says whether the buffered channel `newAdded` is full, `last` is `lastSeq`, `sent` what the
-- channel has got, and `accepted` all requests that were added, the last one first in both.
pub record Stream : Type 0 where
  pub buffer : Buffer
  pub token : Bool
  pub phase : Phase
  pub last : ℕ
  pub sent : List Request
  pub accepted : List Request

abbrev pub new_stream : Stream
new_stream = record {
  buffer = new_buffer;
  token = false;
  phase = starting;
  last = 0;
  sent = [];
  accepted = [];
}

-- `request != nil && request.Sequence() > lastSeq`
unfoldable pub after_reading : ℕ → Option Held → Phase
after_reading last none = waiting
after_reading last (some h) = if ltb last h.request.sequence then offering h.request else waiting

-- A new request is notified of as soon as `newAdded` is registered.
unfoldable pub notified : Phase → Bool
notified starting = false
notified reading = true
notified (offering q) = true
notified waiting = true
notified stopped = true

pub data Step (s t : Stream) : Type 0 where
  adds :
      (q : Request)
      → (add_request s.buffer q).1 ≡ added
      → t ≡ record s {
        buffer = (add_request s.buffer q).0;
        token = notified s.phase;
        accepted = q ∷ s.accepted;
      }
      → Step s t
  removes : (seq : ℕ) → t ≡ record s { buffer = remove_request s.buffer seq } → Step s t
  registers : s.phase ≡ starting → t ≡ record s { phase = reading } → Step s t
  reads : s.phase ≡ reading → t ≡ record s { phase = after_reading s.last s.buffer.held } → Step s t
  sends :
      (q : Request)
      → s.phase ≡ offering q
      → t ≡ record s { phase = waiting; last = q.sequence; sent = q ∷ s.sent }
      → Step s t
  -- `case <-request.removed`: the request is not held any more, at most a later one is.
  gives_up :
      (q : Request)
      → s.phase ≡ offering q
      → ((h : Held) → s.buffer.held ≡ some h → q.sequence < h.request.sequence)
      → t ≡ record s { phase = waiting }
      → Step s t
  wakes :
      s.phase ≡ waiting
      → s.token ≡ true
      → t ≡ record s { token = false; phase = reading }
      → Step s t
  stops : t ≡ record s { phase = stopped } → Step s t

pub data Reach : Stream → Type 0 where
  begin : Reach new_stream
  next : {s t : Stream} → Reach s → Step s t → Reach t
