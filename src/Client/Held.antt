-- ===== src/Client/Held.antt =====
-- client: what holds of the buffer of a client, whatever it submits and receives.
use minbft.Base.{
  not, ℕ, ◌≡◌, refl, false, leb, Option, none, some, List, [], ◌∷◌, ◌++◌, arith, ◌==◌, All,
  All-append, Bool-cases, inl, inr,
}
use minbft.Base.Result.{Result, ok, err, panic, >>=-eq-ok, fail_if, fail_if-eq-ok, client_mismatch}
use minbft.Messages.{Request, Reply}
use minbft.Client.{
  authenticate, consume, handle_reply, ClientConfig, Client, prepare_request, ClientEvent,
  operation, reply_from, removal, client_step, run_client,
}
use minbft.Client.RequestBuffer.{
  ReplySet, new_reply_set, add_to_set, Held, Buffer, add_request, add_reply, remove_request,
}

-- The replies of replicas other than `id`.
abbrev pub Others : ℕ → List Reply → Type 0
Others id = All (λ r. (r.replica_id == id) ≡ false)

-- No two replies of one replica.
abbrev pub Distinct : List Reply → Type 0
Distinct [] = Unit {0}
Distinct (r ∷ l) = Others r.replica_id l × Distinct l

-- What the client has checked of a reply to the request with number `seq`.
abbrev pub Checked : ClientConfig → ℕ → Reply → Type 0
Checked cfg seq r = (r.client_id ≡ cfg.id) × (cfg.verify r ≡ ok tt) × (r.sequence ≡ seq)

pub record SetWf (cfg : ClientConfig) (seq : ℕ) (s : ReplySet) : Type 0 where
  pub checked : All (Checked cfg seq) s.msgs
  pub distinct : Distinct s.msgs
  pub others : (id : ℕ) → s.replicas id ≡ false → Others id s.msgs

abbrev pub HeldWf : ClientConfig → ℕ → Option Held → Type 0
HeldWf cfg last none = Unit {0}
HeldWf cfg last (some h) =
    (h.request.sequence ≡ last)
    × (h.request.client_id ≡ cfg.id)
    × SetWf cfg h.request.sequence h.replies

Distinct-snoc :
    (l : List Reply) (r : Reply) → Distinct l → Others r.replica_id l → Distinct (l ++ r ∷ [])
Distinct-snoc [] r d o = (tt, tt)
Distinct-snoc (x ∷ l) r d o = (
  All-append (λ y. (y.replica_id == x.replica_id) ≡ false) l (r ∷ []) d.0 (ground (arith, o), tt),
  Distinct-snoc l r d.1 o.1,
)

add_to_set-SetWf :
    (cfg : ClientConfig) (seq : ℕ) (s : ReplySet) (r : Reply)
    → Checked cfg seq r
    → SetWf cfg seq s
    → SetWf cfg seq (add_to_set s r).0
unfolding add_to_set
add_to_set-SetWf cfg seq s r c w = elim (Bool-cases (s.replicas r.replica_id)) [
  | inl old ↦ rw old w
  | inr new ↦ rw new (record {
    checked = All-append (Checked cfg seq) s.msgs (r ∷ []) w.checked (c, tt);
    distinct = Distinct-snoc s.msgs r w.distinct (w.others r.replica_id new);
    others = λ id e.
        All-append (λ y. (y.replica_id == id) ≡ false) s.msgs (r ∷ [])
          (w.others id (ground (arith, e))) (ground (arith, e), tt);
  })
]

new_set-SetWf : (cfg : ClientConfig) (seq : ℕ) → SetWf cfg seq new_reply_set
new_set-SetWf cfg seq = record { checked = tt; distinct = tt; others = λ id e. tt }

-- The request in the buffer is this client's and has the last number that was added.
abbrev pub ClientWf : ClientConfig → Client → Type 0
ClientWf cfg c = HeldWf cfg c.buffer.last_seq c.buffer.held

abbrev pub BufferWf : ClientConfig → Buffer → Type 0
BufferWf cfg b = HeldWf cfg b.last_seq b.held

pub add_request-BufferWf :
    (cfg : ClientConfig) (last : ℕ) (h : Option Held) (q : Request)
    → q.client_id ≡ cfg.id
    → HeldWf cfg last h
    → BufferWf cfg (add_request (record { last_seq = last; held = h }) q).0
unfolding add_request
add_request-BufferWf cfg last (some h) q e w = w
add_request-BufferWf cfg last none q e w = elim (Bool-cases (leb q.sequence last)) [
  | inl old ↦ rw old w
  | inr new ↦ rw new (refl, e, new_set-SetWf cfg q.sequence)
]

add_reply-BufferWf :
    (cfg : ClientConfig) (last : ℕ) (h : Option Held) (r : Reply)
    → r.client_id ≡ cfg.id
    → cfg.verify r ≡ ok tt
    → HeldWf cfg last h
    → BufferWf cfg (add_reply (record { last_seq = last; held = h }) r).0
unfolding add_reply
add_reply-BufferWf cfg last none r e v w = w
add_reply-BufferWf cfg last (some h) r e v w =
    elim (Bool-cases (h.request.sequence == r.sequence)) [
      | inl same ↦ rw same (
        w.0,
        w.1,
        add_to_set-SetWf cfg h.request.sequence h.replies r (e, v, ground (arith, same)) w.2,
      )
      | inr other ↦ rw other w
    ]

remove_request-BufferWf :
    (cfg : ClientConfig) (last : ℕ) (h : Option Held) (seq : ℕ)
    → HeldWf cfg last h
    → BufferWf cfg (remove_request (record { last_seq = last; held = h }) seq)
unfolding remove_request
remove_request-BufferWf cfg last none seq w = w
remove_request-BufferWf cfg last (some h) seq w = elim (Bool-cases (h.request.sequence == seq)) [
  | inl same ↦ rw same tt
  | inr other ↦ rw other w
]

consume_keeps :
    (P : Client → Type 0) (c : Client) (r : Reply) (v : Result (Unit {0}))
    → P c
    → (v ≡ ok tt → P (record c { buffer = (add_reply c.buffer r).0 }))
    → P (consume c r v).1
unfolding consume
consume_keeps P c r (ok tt) p f = f refl
consume_keeps P c r (err e) p f = p
consume_keeps P c r panic p f = p

-- Only a reply to this client that is authentic is added to the buffer.
pub handle_reply_keeps :
    (P : Client → Type 0) (cfg : ClientConfig) (c : Client) (r : Reply)
    → P c
    → (r.client_id ≡ cfg.id
        → cfg.verify r ≡ ok tt
        → P (record c { buffer = (add_reply c.buffer r).0 }))
    → P (handle_reply cfg c r).1
unfolding handle_reply authenticate
handle_reply_keeps P cfg c r p f = consume_keeps P c r (authenticate cfg r) p λ e.
    let (_, own, good) =
      >>=-eq-ok (fail_if (not (r.client_id == cfg.id)) client_mismatch) (λ _. cfg.verify r) e in
    let same : (not (r.client_id == cfg.id)) ≡ false = fail_if-eq-ok _ client_mismatch own in
    f (ground (arith, same)) good

pub client_step-ClientWf :
    (cfg : ClientConfig) (c : Client) (e : ClientEvent)
    → ClientWf cfg c
    → ClientWf cfg (client_step cfg c e)
unfolding client_step
client_step-ClientWf cfg c (operation op) w =
    add_request-BufferWf cfg c.buffer.last_seq c.buffer.held (prepare_request cfg c.next_seq op)
      refl w
client_step-ClientWf cfg c (removal seq) w =
    remove_request-BufferWf cfg c.buffer.last_seq c.buffer.held seq w
client_step-ClientWf cfg c (reply_from r) w =
    handle_reply_keeps (ClientWf cfg) cfg c r w
      λ own good. add_reply-BufferWf cfg c.buffer.last_seq c.buffer.held r own good w

pub run_client-ClientWf :
    (cfg : ClientConfig) (es : List ClientEvent) (c : Client)
    → ClientWf cfg c
    → ClientWf cfg (run_client cfg c es)
unfolding run_client
run_client-ClientWf cfg [] c w = w
run_client-ClientWf cfg (e ∷ es) c w =
    run_client-ClientWf cfg es (client_step cfg c e) (client_step-ClientWf cfg c e w)
