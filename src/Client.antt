-- ===== src/Client.antt =====
-- client: how a client numbers and signs its requests and which replies it takes.
pub mod RequestBuffer
pub mod Collect
pub mod Held
pub mod Correct
pub mod Supply
pub mod RequestStream
pub mod Streaming
pub mod Streamed
pub mod Incoming
pub mod Wire
pub mod Crash
pub mod Tests
use minbft.Base.Result.{Result, ok, err, panic, ◌>>◌, fail_if, client_mismatch}
use minbft.Base.{ℕ, Bool, true, false, not, ◌==◌, List, [], ◌∷◌, inc64, if◌then◌else◌}
use minbft.Messages.{Request, Reply}
use minbft.Client.RequestBuffer.{Buffer, new_buffer, Added, add_request, add_reply, remove_request}

-- The client's identifier, the faults to tolerate, and the application's authenticator, which accepts
-- a reply, returns an error or panics.
pub record ClientConfig : Type 0 where
  pub id : ℕ
  pub f : ℕ
  pub verify : Reply → Result (Unit {0})
  pub sign : Request → List ℕ
  pub digest : List ℕ → ℕ

-- `nextSeq` of makeSequenceGenerator, and the request buffer.
pub record Client : Type 0 where
  pub next_seq : ℕ
  pub buffer : Buffer

abbrev pub new_client : ℕ → Client
new_client start = record { next_seq = start; buffer = new_buffer }

-- makeRequestConstructor and prepareRequest
pub prepare_request : ClientConfig → ℕ → List ℕ → Request
prepare_request cfg seq op =
    let q : Request = record {
      client_id = cfg.id;
      sequence = seq;
      operation = op;
      signature = [];
    } in
    record q { signature = cfg.sign q }

-- submitRequest, up to the first pass of `AddRequest`: `rejected` makes the source panic.
unfoldable pub submit : ClientConfig → Client → List ℕ → Client × Added
unfolding prepare_request
submit cfg c op =
    let (b, outcome) = add_request c.buffer (prepare_request cfg c.next_seq op) in
    (record { next_seq = inc64 c.next_seq; buffer = b }, outcome)

-- makeReplyAuthenticator
unfoldable pub authenticate : ClientConfig → Reply → Result (Unit {0})
authenticate cfg r = do fail_if (not (r.client_id == cfg.id)) client_mismatch; cfg.verify r

-- makeReplyMessageHandler after the authenticator: an error is only logged.
unfoldable pub consume : Client → Reply → Result (Unit {0}) → Result (Unit {0}) × Client
consume c r (ok a) = (ok tt, record c { buffer = (add_reply c.buffer r).0 })
consume c r (err e) = (ok tt, c)
consume c r panic = (panic, c)

unfoldable pub handle_reply : ClientConfig → Client → Reply → Result (Unit {0}) × Client
unfolding authenticate consume
handle_reply cfg c r = consume c r (authenticate cfg r)

-- An operation of the application, a Reply from a replica, the end of a request. The state after an
-- event is taken also where the process panics.
pub data ClientEvent : Type 0 where
  operation : List ℕ → ClientEvent
  reply_from : Reply → ClientEvent
  removal : (seq : ℕ) → ClientEvent

unfoldable pub client_step : ClientConfig → Client → ClientEvent → Client
unfolding submit handle_reply
client_step cfg c (operation op) = (submit cfg c op).0
client_step cfg c (reply_from r) = (handle_reply cfg c r).1
client_step cfg c (removal seq) = record c { buffer = remove_request c.buffer seq }

unfoldable pub run_client : ClientConfig → Client → List ClientEvent → Client
unfolding client_step
run_client cfg c [] = c
run_client cfg c (e ∷ es) = run_client cfg (client_step cfg c e) es
