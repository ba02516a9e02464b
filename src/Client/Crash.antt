-- ===== src/Client/Crash.antt =====
-- client/request.go and client/message-handling.go: what a client cannot stand.
use minbft.Base.{
  ℕ, suc, ◌+◌, ◌<◌, ◌≡◌, ◌≢◌, refl, sym, ap, ◌∙◌, subst, inl, inr, ◌⊎◌, true, false, Option, none,
  some, List, [], ◌∷◌, Occurs, arith, leb, ◌==◌, Bool-cases, u64_mod, length,
}
use minbft.Base.Result.{client_mismatch, Result, ok, err, panic, ◌>>=◌, wrap_err, unmarshal_wrapper}
use minbft.Messages.{Request, Reply, Message, hello, request, reply, req_view_change, certified}
use minbft.Protobuf.{PbMessage}
use minbft.Protobuf.Parse.{from_pb, new_from_binary}
use minbft.Protobuf.Missing.{has_absent, panic-has_absent}
use minbft.Client.{authenticate, consume, ClientConfig, Client, prepare_request, handle_reply}
use minbft.Client.RequestBuffer.{
  Held, Buffer, Added, blocked, rejected, added, add_request, add_reply,
}
use minbft.Client.Held.{handle_reply_keeps}
use minbft.Client.Streaming.{remove_request_last}
use minbft.Client.Incoming.{
  Caller, new_caller, WireEvent, submitted, attempted, finished, arrived, begin_call, tried,
  attempt, take_message, take_parsed, finish, wire_step, run_wire,
}

-- The request of a call has a number above the last one that was added, and below the next one.
abbrev Behind : ℕ → ℕ → Option Request → Type 0
Behind last next none = last < next
Behind last next (some q) = (last < q.sequence) × (q.sequence < next)

-- There are numbers for so many further calls.
abbrev Numbered : ℕ → Caller → Type 0
Numbered k c =
    Behind c.client.buffer.last_seq c.client.next_seq c.waiting × (c.client.next_seq + k < u64_mod)

begin_call-Numbered :
    (cfg : ClientConfig) (op : List ℕ) (c : Client) (o : Option Request) (k : ℕ)
    → Numbered (suc k) (record { client = c; waiting = o })
    → Numbered k (begin_call cfg op c o)
unfolding begin_call prepare_request
begin_call-Numbered cfg op c (some q) k h = omega arith
begin_call-Numbered cfg op c none k h = omega arith

-- A request with a new number is added, or it has to wait.
add_request_passes :
    (n : ℕ) (o : Option Held) (q : Request)
    → n < q.sequence
    → (add_request (record { last_seq = n; held = o }) q
        ≡ (record { last_seq = n; held = o }, blocked))
      ⊎ (((add_request (record { last_seq = n; held = o }) q).1 ≡ added)
          × ((add_request (record { last_seq = n; held = o }) q).0.last_seq ≡ q.sequence))
unfolding add_request
add_request_passes n (some h) q low = inl refl
add_request_passes n none q low =
    let new : leb q.sequence n ≡ false = ground arith in rw new (inr (refl, refl))

tried-Numbered :
    (c : Client) (q : Request) (r : Buffer × Added) (k : ℕ)
    → (r ≡ (c.buffer, blocked)) ⊎ ((r.1 ≡ added) × (r.0.last_seq ≡ q.sequence))
    → Numbered (suc k) (record { client = c; waiting = some q })
    → ((tried c q r).0 ≡ ok tt) × Numbered k (tried c q r).1
unfolding tried
tried-Numbered c q (b, blocked) k o h = (refl, omega arith)
tried-Numbered c q (b, rejected) k (inl e) h =
    let no_way : rejected ≡ blocked = ap (λ p. p.1) e in cc
tried-Numbered c q (b, rejected) k (inr e) h = cc
tried-Numbered c q (b, added) k (inl e) h = let no_way : added ≡ blocked = ap (λ p. p.1) e in cc
tried-Numbered c q (b, added) k (inr e) h = (refl, omega (arith, e.1))

attempt-Numbered :
    (c : Client) (o : Option Request) (k : ℕ)
    → Numbered (suc k) (record { client = c; waiting = o })
    → ((attempt c o).0 ≡ ok tt) × Numbered k (attempt c o).1
unfolding attempt
attempt-Numbered c none k h = (refl, omega arith)
attempt-Numbered c (some q) k h =
    tried-Numbered c q (add_request c.buffer q) k
      (add_request_passes c.buffer.last_seq c.buffer.held q h.0.0) h

Behind-same :
    (last last' next : ℕ) (o : Option Request)
    → last' ≡ last
    → Behind last next o
    → Behind last' next o
Behind-same last last' next o e h = subst (λ x. Behind x next o) (sym e) h

add_reply_last :
    (n : ℕ) (o : Option Held) (r : Reply)
    → (add_reply (record { last_seq = n; held = o }) r).0.last_seq ≡ n
unfolding add_reply
add_reply_last n none r = refl
add_reply_last n (some h) r = elim (Bool-cases (h.request.sequence == r.sequence)) [
  | inl same ↦ rw same refl
  | inr other ↦ rw other refl
]

handle_reply_numbers :
    (cfg : ClientConfig) (c : Client) (r : Reply)
    → ((handle_reply cfg c r).1.buffer.last_seq ≡ c.buffer.last_seq)
      × ((handle_reply cfg c r).1.next_seq ≡ c.next_seq)
handle_reply_numbers cfg c r =
    handle_reply_keeps (λ d. (d.buffer.last_seq ≡ c.buffer.last_seq) × (d.next_seq ≡ c.next_seq))
      cfg c r (refl, refl) λ own good. (add_reply_last c.buffer.last_seq c.buffer.held r, refl)

consume-panic :
    (c : Client) (r : Reply) (v : Result (Unit {0})) → (consume c r v).0 ≡ panic → v ≡ panic
unfolding consume
consume-panic c r (ok a) e = cc
consume-panic c r (err x) e = cc
consume-panic c r panic e = refl

-- Handling a reply panics only if the authenticator does, on a reply to this client.
handle_reply-panic :
    (cfg : ClientConfig) (c : Client) (r : Reply)
    → (handle_reply cfg c r).0 ≡ panic
    → (r.client_id ≡ cfg.id) × (cfg.verify r ≡ panic)
unfolding handle_reply authenticate
handle_reply-panic cfg c r e =
    let f = consume-panic c r (authenticate cfg r) e in
    elim (Bool-cases (r.client_id == cfg.id)) [
      | inl own ↦ (ground (arith, own), rw own at f)
      | inr other ↦ let no_way : err client_mismatch ≡ panic = rw other at f in cc
    ]

take_message_numbers :
    (cfg : ClientConfig) (c : Client) (m : Message)
    → ((take_message cfg c m).1.buffer.last_seq ≡ c.buffer.last_seq)
      × ((take_message cfg c m).1.next_seq ≡ c.next_seq)
unfolding take_message
take_message_numbers cfg c (reply r) = handle_reply_numbers cfg c r
take_message_numbers cfg c (hello r) = (refl, refl)
take_message_numbers cfg c (request q) = (refl, refl)
take_message_numbers cfg c (req_view_change r) = (refl, refl)
take_message_numbers cfg c (certified m) = (refl, refl)

take_parsed-Numbered :
    (cfg : ClientConfig) (c : Caller) (r : Result Message) (k : ℕ)
    → Numbered (suc k) c
    → Numbered k (take_parsed cfg c r).1
unfolding take_parsed
take_parsed-Numbered cfg c (ok m) k h =
    let (last, next) = take_message_numbers cfg c.client m in
    (
      subst (λ x. Behind (take_message cfg c.client m).1.buffer.last_seq x c.waiting) (sym next)
          (Behind-same c.client.buffer.last_seq (take_message cfg c.client m).1.buffer.last_seq
            c.client.next_seq c.waiting last h.0),
      omega (arith, next, h.1),
    )
take_parsed-Numbered cfg c (err x) k h = (h.0, omega (arith, h.1))
take_parsed-Numbered cfg c panic k h = (h.0, omega (arith, h.1))

module _ {Bytes : Type 0} (cfg : ClientConfig) (decode : Bytes → Result PbMessage) where
  -- Bytes of a message with a Commit that has no proposal, or of a reply to this client on which the
  -- authenticator panics.
  abbrev pub Deadly : Bytes → Type 0
  Deadly b =
      ((p : PbMessage) × (decode b ≡ ok p) × (has_absent p ≡ true))
      ⊎ ((r : Reply) × (new_from_binary decode b ≡ ok (reply r))
          × (r.client_id ≡ cfg.id)
          × (cfg.verify r ≡ panic))

  abbrev pub Struck : List (WireEvent Bytes) → Type 0
  Struck es = (b : Bytes) × Occurs (arrived b) es × Deadly b

module _ {Bytes : Type 0} (cfg : ClientConfig) (decode : Bytes → Result PbMessage)
    (reads : (b : Bytes) → decode b ≢ panic) where
  decoded :
      (b : Bytes) (r : Result PbMessage)
      → decode b ≡ r
      → (wrap_err (λ _. unmarshal_wrapper) r >>= from_pb) ≡ panic
      → (p : PbMessage) × (decode b ≡ ok p) × (has_absent p ≡ true)
  decoded b (ok p) g f = (p, g, panic-has_absent p f)
  decoded b (err x) g f = cc
  decoded b panic g f = absurd (reads b g)

  take_parsed-panic :
      (c : Caller) (b : Bytes) (r : Result Message)
      → new_from_binary decode b ≡ r
      → (take_parsed cfg c r).0 ≡ panic
      → Deadly cfg decode b
  unfolding take_parsed take_message new_from_binary
  take_parsed-panic c b (ok (reply r)) g e =
      let (own, stuck) = handle_reply-panic cfg c.client r e in inr (r, g, own, stuck)
  take_parsed-panic c b (ok (hello r)) g e = cc
  take_parsed-panic c b (ok (request q)) g e = cc
  take_parsed-panic c b (ok (req_view_change r)) g e = cc
  take_parsed-panic c b (ok (certified m)) g e = cc
  take_parsed-panic c b (err x) g e = cc
  take_parsed-panic c b panic g e = inl (decoded b (decode b) refl g)

  step_panic :
      (r : Result (Unit {0}) × Caller) (rest : Caller → Result (Unit {0}) × Caller)
      → (elim r.0 as (λ _. Result (Unit {0}) × Caller) [
        | panic ↦ (panic, r.1)
        | ok _ ↦ rest r.1
        | err _ ↦ rest r.1
      ]).0
        ≡ panic
      → (r.0 ≡ panic) ⊎ ((rest r.1).0 ≡ panic)
  step_panic (ok b, c) rest e = inr e
  step_panic (err x, c) rest e = inr e
  step_panic (panic, c) rest e = inl refl

  Struck-later :
      (e : WireEvent Bytes) (es : List (WireEvent Bytes))
      → Struck cfg decode es
      → Struck cfg decode (e ∷ es)
  Struck-later e es (b, o, d) = (b, inr o, d)

  run_panic :
      (es : List (WireEvent Bytes)) (c : Caller)
      → Numbered (length es) c
      → (run_wire cfg decode c es).0 ≡ panic
      → Struck cfg decode es
  unfolding run_wire wire_step finish
  run_panic [] c h e = cc
  run_panic (submitted op ∷ es) c h e = Struck-later (submitted op) es (
      run_panic es (begin_call cfg op c.client c.waiting)
        (begin_call-Numbered cfg op c.client c.waiting (length es) h) e)
  run_panic (attempted ∷ es) c h e =
      let (fine, left) = attempt-Numbered c.client c.waiting (length es) h in
      elim (step_panic (attempt c.client c.waiting) (λ d. run_wire cfg decode d es) e) [
        | inl here ↦ let no_way : ok tt ≡ panic = sym fine ∙ here in cc
        | inr later ↦
            Struck-later attempted es (run_panic es (attempt c.client c.waiting).1 left later)
      ]
  run_panic (finished seq ∷ es) c h e = Struck-later (finished seq) es (
      run_panic es (finish c seq)
        (
          Behind-same c.client.buffer.last_seq (finish c seq).client.buffer.last_seq
              c.client.next_seq c.waiting
              (remove_request_last c.client.buffer.last_seq c.client.buffer.held seq) h.0,
          omega (arith, h.1),
        )
        e)
  run_panic (arrived b ∷ es) c h e =
      elim (step_panic (take_parsed cfg c (new_from_binary decode b))
        (λ d. run_wire cfg decode d es) e) [
          | inl here ↦ (b, inl refl, take_parsed-panic c b (new_from_binary decode b) refl here)
          | inr later ↦ Struck-later (arrived b) es (
              run_panic es (take_parsed cfg c (new_from_binary decode b)).1
                (take_parsed-Numbered cfg c (new_from_binary decode b) (length es) h) later)
        ]

  -- Let the protocol-buffers library not panic, and let the sequence numbers begin above 0 and
  -- not reach the end of 64 bits. A client that makes one call of Request after the other, and
  -- panics, has got a message in which there is a Commit without a proposal, or a reply to it on
  -- which the application's authenticator panics: no request of its own is rejected, and nothing
  -- else that comes in stops it.
  pub run_wire-panic :
      (start : ℕ) (es : List (WireEvent Bytes))
      → 0 < start
      → start + length es < u64_mod
      → (run_wire cfg decode (new_caller start) es).0 ≡ panic
      → Struck cfg decode es
  run_wire-panic start es low high e = run_panic es (new_caller start) (low, high) e
