-- ===== src/ClientState/Reply/Latest.antt =====
-- core/internal/clientstate/reply.go: which Reply a request gets.
use minbft.Base.{
  ℕ, Bool-cases, ltb, ltb-false, ltb→lt, ◌<◌, ◌≡◌, refl, sym, ◌⊎◌, inl, inr, none, some, List, [],
  ◌∷◌, leb, if◌then◌else◌, arith,
}
use minbft.Base.Result.{ok}
use minbft.Messages.{Reply}
use minbft.ClientState.Reply.{
  ReplyState, new_reply_state, add_reply, reply_pass, add_replies, waits, closes, sends,
}

-- The greatest sequence number among the Replies, and `n`.
abbrev pub latest : ℕ → List Reply → ℕ
latest n [] = n
latest n (r ∷ l) = latest (if leb r.sequence n then n else r.sequence) l

-- The state knows the last Reply by its sequence number.
abbrev Known : ReplyState → Type 0
Known s =
    ((s.last_replied_seq ≡ 0) × (s.reply ≡ none))
    ⊎ ((r : Reply) × (s.reply ≡ some r) × (r.sequence ≡ s.last_replied_seq))

add_reply-Known : (s : ReplyState) (r : Reply) → Known s → Known (add_reply s r)
unfolding add_reply
add_reply-Known s r h = elim (Bool-cases (leb r.sequence s.last_replied_seq)) [
  | inl e ↦ rw e h
  | inr e ↦ rw e (inr (r, refl, refl))
]

run-Known :
    (s : ReplyState) (l : List Reply)
    → Known s
    → Known (add_replies s l) × ((add_replies s l).last_replied_seq ≡ latest s.last_replied_seq l)
unfolding add_replies add_reply
run-Known s [] h = (h, refl)
run-Known s (r ∷ l) h =
    let (k, e) = run-Known (add_reply s r) l (add_reply-Known s r h) in (k, ground (arith, e))

abbrev Passes : ReplyState → ℕ → Type 0
Passes s seq =
    ((s.last_replied_seq < seq) × (reply_pass s seq ≡ ok waits))
    ⊎ ((seq < s.last_replied_seq) × (reply_pass s seq ≡ ok closes))
    ⊎ ((seq ≡ s.last_replied_seq)
        × ((r : Reply) × (r.sequence ≡ seq) × (reply_pass s seq ≡ ok (sends r))))

Known-Passes : (s : ReplyState) (seq : ℕ) → 0 < seq → Known s → Passes s seq
unfolding reply_pass
Known-Passes s seq h (inl (zero_seq, nil)) =
    inl (omega (arith, h, zero_seq), ground (arith, h, zero_seq))
Known-Passes s seq h (inr (r, is, same)) = elim (Bool-cases (ltb s.last_replied_seq seq)) [
  | inl e ↦ inl (ltb→lt s.last_replied_seq seq e, ground (arith, e))
  | inr n ↦ elim (Bool-cases (ltb seq s.last_replied_seq)) [
    | inl e ↦ inr (inl (ltb→lt seq s.last_replied_seq e, ground (arith, e, is, same)))
    | inr n' ↦ inr (
        inr (
          omega (arith, ltb-false s.last_replied_seq seq n, ltb-false seq s.last_replied_seq n'),
          (
            r,
            omega (
              arith,
              same,
              ltb-false s.last_replied_seq seq n,
              ltb-false seq s.last_replied_seq n',
            ),
            ground (arith, n, n', is, same),
          ),
        ))
  ]
]

-- After any Replies a request with a positive sequence number waits exactly while that number is
-- above all of theirs; at their greatest number it gets a Reply with that number, below it none. No
-- pass panics.
pub reply_pass-latest :
    (l : List Reply) (seq : ℕ)
    → 0 < seq
    → let s = add_replies new_reply_state l in
      ((latest 0 l < seq) × (reply_pass s seq ≡ ok waits))
      ⊎ ((seq < latest 0 l) × (reply_pass s seq ≡ ok closes))
      ⊎ ((seq ≡ latest 0 l)
          × ((r : Reply) × (r.sequence ≡ seq) × (reply_pass s seq ≡ ok (sends r))))
unfolding reply_pass
reply_pass-latest l seq h =
    let (k, e) = run-Known new_reply_state l (inl (refl, refl)) in
    rw (sym e) (Known-Passes (add_replies new_reply_state l) seq h k)
