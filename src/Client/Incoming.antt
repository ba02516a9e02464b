-- ===== src/Client/Incoming.antt =====
-- client/request.go and client/message-handling.go: a client that makes one call of Request after the
-- other, and reads the bytes that come from the replicas, one message after the other.
use minbft.Base.{ℕ, Option, none, some, List, [], ◌∷◌, inc64}
use minbft.Base.Result.{Result, ok, err, panic}
use minbft.Messages.{Request, Message, hello, request, reply, req_view_change, certified}
use minbft.Protobuf.{PbMessage}
use minbft.Protobuf.Parse.{new_from_binary}
use minbft.Client.{ClientConfig, Client, new_client, prepare_request, handle_reply}
use minbft.Client.RequestBuffer.{
  Buffer, Added, blocked, rejected, added, add_request, remove_request,
}

-- A call of Request is in `AddRequest` with its message, or there is none. Calls at the same time
-- would race for the sequence number.
pub record Caller : Type 0 where
  pub client : Client
  pub waiting : Option Request

abbrev pub new_caller : ℕ → Caller
new_caller start = record { client = new_client start; waiting = none }

-- A call begins; `AddRequest` makes a pass of its loop; a request is finished; a message of some
-- replica comes in.
pub data WireEvent (Bytes : Type 0) : Type 0 where
  submitted : List ℕ → WireEvent Bytes
  attempted : WireEvent Bytes
  finished : (seq : ℕ) → WireEvent Bytes
  arrived : Bytes → WireEvent Bytes

unfoldable pub begin_call : ClientConfig → List ℕ → Client → Option Request → Caller
begin_call cfg op c (some q) = record { client = c; waiting = some q }
begin_call cfg op c none = record {
  client = record c { next_seq = inc64 c.next_seq };
  waiting = some (prepare_request cfg c.next_seq op);
}

-- submitRequest: `panic("Request message rejected")`
unfoldable pub tried : Client → Request → Buffer × Added → Result (Unit {0}) × Caller
tried c q (b, blocked) = (ok tt, record { client = c; waiting = some q })
tried c q (b, rejected) = (panic, record { client = c; waiting = some q })
tried c q (b, added) = (ok tt, record { client = record c { buffer = b }; waiting = none })

unfoldable pub attempt : Client → Option Request → Result (Unit {0}) × Caller
unfolding tried
attempt c none = (ok tt, record { client = c; waiting = none })
attempt c (some q) = tried c q (add_request c.buffer q)

-- makeIncomingMessageHandler: a message that cannot be parsed is skipped, and so is any but a Reply.
unfoldable pub take_message : ClientConfig → Client → Message → Result (Unit {0}) × Client
take_message cfg c (reply r) = handle_reply cfg c r
take_message cfg c (hello r) = (ok tt, c)
take_message cfg c (request q) = (ok tt, c)
take_message cfg c (req_view_change r) = (ok tt, c)
take_message cfg c (certified m) = (ok tt, c)

unfoldable pub take_parsed : ClientConfig → Caller → Result Message → Result (Unit {0}) × Caller
unfolding take_message
take_parsed cfg c (ok m) = let (r, d) = take_message cfg c.client m in (r, record c { client = d })
take_parsed cfg c (err e) = (ok tt, c)
take_parsed cfg c panic = (panic, c)

unfoldable pub finish : Caller → ℕ → Caller
finish c seq = record c { client = record c.client { buffer = remove_request c.client.buffer seq } }

module _ {Bytes : Type 0} (cfg : ClientConfig) (decode : Bytes → Result PbMessage) where
  unfoldable pub wire_step : Caller → WireEvent Bytes → Result (Unit {0}) × Caller
  unfolding begin_call attempt take_parsed finish
  wire_step c (submitted op) = (ok tt, begin_call cfg op c.client c.waiting)
  wire_step c attempted = attempt c.client c.waiting
  wire_step c (finished seq) = (ok tt, finish c seq)
  wire_step c (arrived b) = take_parsed cfg c (new_from_binary decode b)

  -- A panic ends the process.
  unfoldable pub run_wire : Caller → List (WireEvent Bytes) → Result (Unit {0}) × Caller
  unfolding wire_step
  run_wire c [] = (ok tt, c)
  run_wire c (e ∷ es) = elim (wire_step c e).0 [
    | panic ↦ (panic, (wire_step c e).1)
    | ok _ ↦ run_wire (wire_step c e).1 es
    | err _ ↦ run_wire (wire_step c e).1 es
  ]
