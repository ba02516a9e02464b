-- ===== src/Client/Correct.antt =====
-- client: a result that the client gets is one that a correct replica sent.
use minbft.Base.{
  ℕ, zero, suc, ◌+◌, ◌≤◌, ◌<◌, ◌≡◌, ap, subst, Bool, false, some, List, [], ◌∷◌, arith, ◌==◌,
  update, take, bit, All, map-All, count_below, count_below-change, Bool-cases, inl, inr,
}
use minbft.Base.Result.{ok}
use minbft.Messages.{Reply}
use minbft.Client.{ClientConfig, new_client, ClientEvent, run_client}
use minbft.Client.RequestBuffer.{Held}
use minbft.Client.Held.{Distinct, Checked, HeldWf, run_client-ClientWf}
use minbft.Client.Collect.{tally, collect_replies, collect_replies_found, collect_replies_seq}

pair-All : (P Q : Reply → Type 0) (l : List Reply) → All P l → All Q l → All (λ r. P r × Q r) l
pair-All P Q [] p q = tt
pair-All P Q (r ∷ l) p q = ((p.0, q.0), pair-All P Q l p.1 q.1)

All-take : (P : Reply → Type 0) (k : ℕ) (l : List Reply) → All P l → All P (take k l)
All-take P zero l p = tt
All-take P (suc k) [] p = tt
All-take P (suc k) (r ∷ l) p = (p.0, All-take P k l p.1)

Distinct-take : (k : ℕ) (l : List Reply) → Distinct l → Distinct (take k l)
Distinct-take zero l d = tt
Distinct-take (suc k) [] d = tt
Distinct-take (suc k) (r ∷ l) d =
    (All-take (λ x. (x.replica_id == r.replica_id) ≡ false) k l d.0, Distinct-take k l d.1)

-- Among replies of different replicas, more than the faulty ones, is one of a replica that is not.
sender :
    (n : ℕ) (faulty : ℕ → Bool) (digest : List ℕ → ℕ) (d : ℕ) (P : Reply → Type 0) (l : List Reply)
    → Distinct l
    → All (λ r. r.replica_id < n) l
    → All P l
    → count_below n faulty < tally digest d l
    → (r : Reply) × P r × (faulty r.replica_id ≡ false) × (digest r.result ≡ d)
sender n faulty digest d P [] k b p h = absurd (omega arith)
sender n faulty digest d P (r ∷ l) k b p h = elim (Bool-cases (digest r.result == d)) [
  | inr other ↦ sender n faulty digest d P l k.1 b.1 p.1 (ground (arith, other))
  | inl same ↦ elim (Bool-cases (faulty r.replica_id)) [
    | inr good ↦ (r, p.0, good, ground (arith, same))
    | inl bad ↦
        let (r', (q, ne), good, e) =
          sender n (update faulty r.replica_id false) digest d
            (λ x. P x × ((x.replica_id == r.replica_id) ≡ false)) l k.1 b.1
            (pair-All P (λ x. (x.replica_id == r.replica_id) ≡ false) l p.1 k.0)
            (omega (arith, h, one_less, ap bit bad, ap bit same)) in
        (r', q, ground (arith, good, ne), e)
  ]
]
  where
    one_less :
        count_below n (update faulty r.replica_id false) + bit (faulty r.replica_id)
        ≡ count_below n faulty
    one_less = ground (
      arith,
      count_below-change n faulty (update faulty r.replica_id false) r.replica_id b.0
          (λ i ne. ground (arith, ne)),
    )

-- The same of what the buffer holds, where the replies in it have a further property.
pub held_correct :
    (cfg : ClientConfig) (n : ℕ) (faulty : ℕ → Bool) (last : ℕ) (h : Held) (k seq : ℕ)
    (result : List ℕ) (P : Reply → Type 0)
    → ((r : Reply) → cfg.verify r ≡ ok tt → r.replica_id < n)
    → count_below n faulty ≤ cfg.f
    → HeldWf cfg last (some h)
    → All P h.replies.msgs
    → collect_replies cfg.f cfg.digest (λ _. 0) (take k h.replies.msgs) ≡ some (seq, result)
    → (seq ≡ h.request.sequence)
      × ((r : Reply) × (Checked cfg h.request.sequence r × P r)
          × (faulty r.replica_id ≡ false)
          × (cfg.digest r.result ≡ cfg.digest result))
held_correct cfg n faulty last h k seq result P known few w p done =
    let l = take k h.replies.msgs in
    let checked = All-take (Checked cfg h.request.sequence) k h.replies.msgs w.2.checked in
    (
      collect_replies_seq cfg.f cfg.digest (λ _. 0) l h.request.sequence seq result
          (map-All (Checked cfg h.request.sequence) (λ r. r.sequence ≡ h.request.sequence) l
            (λ r c. c.2) checked)
          done,
      sender n faulty cfg.digest (cfg.digest result) (λ r. Checked cfg h.request.sequence r × P r) l
          (Distinct-take k h.replies.msgs w.2.distinct)
          (map-All (Checked cfg h.request.sequence) (λ r. r.replica_id < n) l (λ r c. known r c.1)
            checked)
          (pair-All (Checked cfg h.request.sequence) P l checked (All-take P k h.replies.msgs p))
          (omega (arith, few, collect_replies_found cfg.f cfg.digest l seq result done)),
    )

every_reply : (l : List Reply) → All (λ _. Unit {0}) l
every_reply [] = tt
every_reply (r ∷ l) = (tt, every_reply l)

-- Let the authenticator accept only replies of the n replicas, of which f at most are faulty. Whatever
-- a client has submitted and received, if some of the replies to its request, in the order in which
-- they came, make it report a result, then a replica that is not faulty sent an authentic reply to
-- this client and request whose result has the same digest, and the request that is finished is that
-- one.
pub result_correct :
    (cfg : ClientConfig) (n : ℕ) (faulty : ℕ → Bool) (start : ℕ) (es : List ClientEvent) (h : Held)
    (k seq : ℕ) (result : List ℕ)
    → ((r : Reply) → cfg.verify r ≡ ok tt → r.replica_id < n)
    → count_below n faulty ≤ cfg.f
    → (run_client cfg (new_client start) es).buffer.held ≡ some h
    → collect_replies cfg.f cfg.digest (λ _. 0) (take k h.replies.msgs) ≡ some (seq, result)
    → (seq ≡ h.request.sequence)
      × ((r : Reply) × Checked cfg h.request.sequence r
          × (faulty r.replica_id ≡ false)
          × (cfg.digest r.result ≡ cfg.digest result))
result_correct cfg n faulty start es h k seq result known few holds done =
    let w : HeldWf cfg (run_client cfg (new_client start) es).buffer.last_seq (some h) =
      subst (HeldWf cfg (run_client cfg (new_client start) es).buffer.last_seq) holds
        (run_client-ClientWf cfg es (new_client start) tt) in
    let (same, (r, (checked, _), good, e)) =
      held_correct cfg n faulty (run_client cfg (new_client start) es).buffer.last_seq h k seq
        result (λ _. Unit {0}) known few w (every_reply h.replies.msgs) done in
    (same, (r, checked, good, e))
