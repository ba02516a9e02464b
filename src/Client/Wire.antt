-- ===== src/Client/Wire.antt =====
-- client/message-handling.go: what a client makes of the bytes that come from the replicas.
use minbft.Base.{
  ℕ, ◌≤◌, ◌<◌, ◌≡◌, refl, sym, ap, subst, inl, inr, Bool, false, Option, none, some, List, [], ◌∷◌,
  ◌==◌, leb, Bool-cases, All, All-append, Occurs, take, count_below,
}
use mathlib.Core.Option.{some-injective}
use minbft.Base.Result.{Result, ok, err, panic}
use minbft.Messages.{Request, Reply, Message, hello, request, reply, req_view_change, certified}
use minbft.Protobuf.{PbMessage}
use minbft.Protobuf.Parse.{new_from_binary}
use minbft.Client.{
  ClientConfig, Client, prepare_request, handle_reply, removal, reply_from, client_step,
}
use minbft.Client.RequestBuffer.{
  ReplySet, add_to_set, Held, Buffer, Added, blocked, rejected, added, add_request, add_reply,
  remove_request,
}
use minbft.Client.Held.{
  handle_reply_keeps, Checked, HeldWf, ClientWf, BufferWf, add_request-BufferWf,
  client_step-ClientWf,
}
use minbft.Client.Correct.{held_correct}
use minbft.Client.Collect.{collect_replies}
use minbft.Client.Incoming.{
  Caller, new_caller, WireEvent, submitted, attempted, finished, arrived, begin_call, tried,
  attempt, take_message, take_parsed, finish, wire_step, run_wire,
}

-- A property of the replies that the buffer holds
abbrev pub HeldAll : (Reply → Type 0) → Option Held → Type 0
HeldAll P none = Unit {0}
HeldAll P (some h) = All P h.replies.msgs

module _ (P : Reply → Type 0) where
  add_request-HeldAll :
      (n : ℕ) (o : Option Held) (q : Request)
      → HeldAll P o
      → HeldAll P (add_request (record { last_seq = n; held = o }) q).0.held
  unfolding add_request
  add_request-HeldAll n (some h) q a = a
  add_request-HeldAll n none q a = elim (Bool-cases (leb q.sequence n)) [
    | inl old ↦ rw old tt
    | inr new ↦ rw new tt
  ]

  remove_request-HeldAll :
      (n : ℕ) (o : Option Held) (seq : ℕ)
      → HeldAll P o
      → HeldAll P (remove_request (record { last_seq = n; held = o }) seq).held
  unfolding remove_request
  remove_request-HeldAll n none seq a = tt
  remove_request-HeldAll n (some h) seq a = elim (Bool-cases (h.request.sequence == seq)) [
    | inl same ↦ rw same tt
    | inr other ↦ rw other a
  ]

  add_to_set-All : (s : ReplySet) (r : Reply) → P r → All P s.msgs → All P (add_to_set s r).0.msgs
  unfolding add_to_set
  add_to_set-All s r p a = elim (Bool-cases (s.replicas r.replica_id)) [
    | inl there ↦ rw there a
    | inr new ↦ rw new (All-append P s.msgs (r ∷ []) a (p, tt))
  ]

  add_reply-HeldAll :
      (n : ℕ) (o : Option Held) (r : Reply)
      → P r
      → HeldAll P o
      → HeldAll P (add_reply (record { last_seq = n; held = o }) r).0.held
  unfolding add_reply
  add_reply-HeldAll n none r p a = tt
  add_reply-HeldAll n (some h) r p a = elim (Bool-cases (h.request.sequence == r.sequence)) [
    | inl same ↦ rw same (add_to_set-All h.replies r p a)
    | inr other ↦ rw other a
  ]

  handle_reply-HeldAll :
      (cfg : ClientConfig) (c : Client) (r : Reply)
      → P r
      → HeldAll P c.buffer.held
      → HeldAll P (handle_reply cfg c r).1.buffer.held
  handle_reply-HeldAll cfg c r p a =
      handle_reply_keeps (λ d. HeldAll P d.buffer.held) cfg c r a
        λ own good. add_reply-HeldAll c.buffer.last_seq c.buffer.held r p a

module _ {Bytes : Type 0} (cfg : ClientConfig) (decode : Bytes → Result PbMessage)
    (es : List (WireEvent Bytes)) where
  -- Bytes of the reply came in.
  abbrev pub Came : Reply → Type 0
  Came r = (b : Bytes) × Occurs (arrived b) es × (new_from_binary decode b ≡ ok (reply r))

  -- What is kept of a client: its buffer is well-formed, the replies in it came in, and the request
  -- of the call under way is its own.
  pub record CallerWf (c : Caller) : Type 0 where
    pub client : ClientWf cfg c.client
    pub came : HeldAll Came c.client.buffer.held
    pub own : (q : Request) → c.waiting ≡ some q → q.client_id ≡ cfg.id

  begin_call-CallerWf :
      (op : List ℕ) (c : Client) (o : Option Request)
      → CallerWf (record { client = c; waiting = o })
      → CallerWf (begin_call cfg op c o)
  unfolding begin_call prepare_request
  begin_call-CallerWf op c (some q) w = w
  begin_call-CallerWf op c none w = record {
    client = w.client;
    came = w.came;
    own = λ q e. sym (ap (λ (x : Request). x.client_id) (some-injective _ _ e));
  }

  tried-CallerWf :
      (c : Client) (q : Request) (r : Buffer × Added)
      → add_request c.buffer q ≡ r
      → CallerWf (record { client = c; waiting = some q })
      → CallerWf (tried c q r).1
  unfolding tried
  tried-CallerWf c q (b, blocked) e w = w
  tried-CallerWf c q (b, rejected) e w = w
  tried-CallerWf c q (b, added) e w = record {
    client =
        subst (BufferWf cfg) (ap (λ p. p.0) e)
          (add_request-BufferWf cfg c.buffer.last_seq c.buffer.held q (w.own q refl) w.client);
    came =
        subst (λ (x : Buffer). HeldAll Came x.held) (ap (λ p. p.0) e)
          (add_request-HeldAll Came c.buffer.last_seq c.buffer.held q w.came);
    own = λ p f. let no_such : none ≡ some p = f in cc;
  }

  attempt-CallerWf :
      (c : Client) (o : Option Request)
      → CallerWf (record { client = c; waiting = o })
      → CallerWf (attempt c o).1
  unfolding attempt
  attempt-CallerWf c none w = w
  attempt-CallerWf c (some q) w = tried-CallerWf c q (add_request c.buffer q) refl w

  take_message-CallerWf :
      (c : Caller) (b : Bytes) (m : Message)
      → Occurs (arrived b) es
      → new_from_binary decode b ≡ ok m
      → CallerWf c
      → CallerWf (record c { client = (take_message cfg c.client m).1 })
  unfolding take_message client_step
  take_message-CallerWf c b (reply r) o e w = record {
    client = client_step-ClientWf cfg c.client (reply_from r) w.client;
    came = handle_reply-HeldAll Came cfg c.client r (b, o, e) w.came;
    own = w.own;
  }
  take_message-CallerWf c b (hello r) o e w = w
  take_message-CallerWf c b (request q) o e w = w
  take_message-CallerWf c b (req_view_change r) o e w = w
  take_message-CallerWf c b (certified m) o e w = w

  take_parsed-CallerWf :
      (c : Caller) (b : Bytes) (r : Result Message)
      → Occurs (arrived b) es
      → new_from_binary decode b ≡ r
      → CallerWf c
      → CallerWf (take_parsed cfg c r).1
  unfolding take_parsed
  take_parsed-CallerWf c b (ok m) o e w = take_message-CallerWf c b m o e w
  take_parsed-CallerWf c b (err x) o e w = w
  take_parsed-CallerWf c b panic o e w = w

  pub wire_step-CallerWf :
      (e : WireEvent Bytes) (c : Caller)
      → Occurs e es
      → CallerWf c
      → CallerWf (wire_step cfg decode c e).1
  unfolding wire_step finish client_step
  wire_step-CallerWf (submitted op) c o w = begin_call-CallerWf op c.client c.waiting w
  wire_step-CallerWf attempted c o w = attempt-CallerWf c.client c.waiting w
  wire_step-CallerWf (finished seq) c o w = record {
    client = client_step-ClientWf cfg c.client (removal seq) w.client;
    came = remove_request-HeldAll Came c.client.buffer.last_seq c.client.buffer.held seq w.came;
    own = w.own;
  }
  wire_step-CallerWf (arrived b) c o w =
      take_parsed-CallerWf c b (new_from_binary decode b) o refl w

module _ {Bytes : Type 0} (cfg : ClientConfig) (decode : Bytes → Result PbMessage) where
  rest_keeps :
      {P : Caller → Type 0} (r : Result (Unit {0}) × Caller)
      (rest : Caller → Result (Unit {0}) × Caller)
      → ((c : Caller) → P c → P (rest c).1)
      → P r.1
      → P
          (elim r.0 as (λ _. Result (Unit {0}) × Caller) [
            | panic ↦ (panic, r.1)
            | ok _ ↦ rest r.1
            | err _ ↦ rest r.1
          ]).1
  rest_keeps (ok b, c) rest k h = k c h
  rest_keeps (err x, c) rest k h = k c h
  rest_keeps (panic, c) rest k h = h

  run_wire_keeps :
      (P : Caller → Type 0) (es : List (WireEvent Bytes))
      → ((e : WireEvent Bytes) (c : Caller) → Occurs e es → P c → P (wire_step cfg decode c e).1)
      → (c : Caller) → P c
      → P (run_wire cfg decode c es).1
  unfolding run_wire
  run_wire_keeps P [] k c h = h
  run_wire_keeps P (e ∷ es) k c h =
      rest_keeps {P = P} (wire_step cfg decode c e) (λ d. run_wire cfg decode d es)
        (run_wire_keeps P es (λ d m o. k d m (inr o))) (k e c (inl refl) h)

  -- Let the authenticator accept only replies of the n replicas, of which f at most are
  -- faulty. Whatever bytes come in from the replicas, and whatever the client does in between,
  -- if some of the replies to its request, in the order in which they came, make it report a
  -- result, then a replica that is not faulty sent an authentic reply to this client and
  -- request whose result has the same digest, the bytes of this reply came in, and the request
  -- that is finished is that one.
  pub wire_correct :
      (n : ℕ) (faulty : ℕ → Bool) (start : ℕ) (es : List (WireEvent Bytes)) (h : Held) (k seq : ℕ)
      (result : List ℕ)
      → ((r : Reply) → cfg.verify r ≡ ok tt → r.replica_id < n)
      → count_below n faulty ≤ cfg.f
      → (run_wire cfg decode (new_caller start) es).1.client.buffer.held ≡ some h
      → collect_replies cfg.f cfg.digest (λ _. 0) (take k h.replies.msgs) ≡ some (seq, result)
      → (seq ≡ h.request.sequence)
        × ((r : Reply) × (Checked cfg h.request.sequence r × Came cfg decode es r)
            × (faulty r.replica_id ≡ false)
            × (cfg.digest r.result ≡ cfg.digest result))
  wire_correct n faulty start es h k seq result known few holds done =
      let c = (run_wire cfg decode (new_caller start) es).1 in
      let w : CallerWf cfg decode es c =
        run_wire_keeps (CallerWf cfg decode es) es (wire_step-CallerWf cfg decode es)
          (new_caller start) (record { client = tt; came = tt; own = λ q e. cc }) in
      held_correct cfg n faulty c.client.buffer.last_seq h k seq result (Came cfg decode es) known
        few (subst (HeldWf cfg c.client.buffer.last_seq) holds w.client)
        (subst (HeldAll (Came cfg decode es)) holds w.came) done
