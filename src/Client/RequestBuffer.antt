-- ===== src/Client/RequestBuffer.antt =====
-- client/internal/requestbuffer/requestbuffer.go: the buffer for one request and its replies. Each
-- function is what a method does under a lock.
use minbft.Base.{
  ℕ, Bool, true, false, not, Option, none, some, List, [], ◌∷◌, ◌++◌, leb, ◌==◌, update,
  if◌then◌else◌,
}
use minbft.Messages.{Request, Reply}

-- replySet, without its notification channel
pub record ReplySet : Type 0 where
  pub replicas : ℕ → Bool
  pub msgs : List Reply

abbrev pub new_reply_set : ReplySet
new_reply_set = record { replicas = λ _. false; msgs = [] }

unfoldable pub add_to_set : ReplySet → Reply → ReplySet × Bool
add_to_set s r =
    if s.replicas r.replica_id
    then (s, false)
    else (record { replicas = update s.replicas r.replica_id true; msgs = s.msgs ++ r ∷ [] }, true)

-- The `request` in the buffer
pub record Held : Type 0 where
  pub request : Request
  pub replies : ReplySet

pub record Buffer : Type 0 where
  pub last_seq : ℕ
  pub held : Option Held

abbrev pub new_buffer : Buffer
new_buffer = record { last_seq = 0; held = none }

-- What one pass of the loop in `AddRequest` leads to.
pub data Added : Type 0 where
  blocked : Added  -- waits until the request in the buffer is removed
  rejected : Added  -- returns (nil, false)
  added : Added

unfoldable pub add_request : Buffer → Request → Buffer × Added
add_request b q = elim b.held [
  | some h ↦ (b, blocked)
  | none ↦ if leb q.sequence b.last_seq then (b, rejected) else (
    record { last_seq = q.sequence; held = some (record { request = q; replies = new_reply_set }) },
    added,
  )
]

unfoldable pub add_reply : Buffer → Reply → Buffer × Bool
unfolding add_to_set
add_reply b r = elim b.held [
  | none ↦ (b, false)
  | some h ↦ if not (h.request.sequence == r.sequence) then (b, false) else (
    record b { held = some (record h { replies = (add_to_set h.replies r).0 }) },
    (add_to_set h.replies r).1,
  )
]

unfoldable pub remove_request : Buffer → ℕ → Buffer
remove_request b seq = elim b.held [
  | none ↦ b
  | some h ↦ if not (h.request.sequence == seq) then b else record b { held = none }
]
