-- ===== src/ClientState/Seq/Exclusion.antt =====
-- What holds of the goroutines of one client in every reachable state.
use minbft.Base.{ℕ, suc, ◌≤◌, ◌<◌, ◌≡◌, ◌≢◌, refl, List, [], ◌∷◌, arith, update, Below}
use minbft.ClientState.Seq.{
  SeqState, attempt_capture, set_captured, release, prepare_seq, retire_seq, unprepare_seq,
  IsOrdered, prepare_seq-IsOrdered, retire_seq-IsOrdered, unprepare_seq-IsOrdered, wait_released,
  not_new, captured,
}
use minbft.ClientState.Seq.Threads.{
  Pc, idle, trying, awaiting, holding, dropped, System, start, move, Step, call, try_again,
  try_wait, try_old, try_new, wake, finish, again, prepares, retires, unprepares, Reach, begin,
  next,
}

-- What a goroutine knows of the shared marks.
abbrev pub Knows : SeqState → Pc → Type 0
Knows s idle = Unit {0}
Knows s (trying q) = Unit {0}
Knows s (awaiting q) = q ≤ s.last_captured
Knows s (holding q) = (s.last_captured ≡ q) × (s.last_released < q)
Knows s (dropped q) = q ≤ s.last_released

pub record Inv (s : System) : Type 0 where
  pub ordered : IsOrdered s.seqs
  pub knows : (i : ℕ) → Knows s.seqs (s.pc i)
  pub sole : (i j a b : ℕ) → s.pc i ≡ holding a → s.pc j ≡ holding b → i ≡ j
  pub holder :
      s.seqs.last_released < s.seqs.last_captured
      → (i : ℕ) × (s.pc i ≡ holding s.seqs.last_captured)
  pub logged : Below (suc s.seqs.last_captured) s.log

start-Inv : Inv start
start-Inv = record {
  ordered = record { retired = omega arith; prepared = omega arith; released = omega arith };
  knows = λ i. tt;
  sole = λ i j a b e f. cc;
  holder = λ l. absurd (omega arith);
  logged = tt;
}

-- A goroutine that neither takes nor gives up the identifier.
abbrev IsQuiet : Pc → Type 0
IsQuiet (holding q) = ⊥
IsQuiet _ = Unit {0}

not_holding : (p : Pc) (a : ℕ) → IsQuiet p → p ≡ holding a → ⊥
not_holding idle a h e = cc
not_holding (trying q) a h e = cc
not_holding (awaiting q) a h e = cc
not_holding (holding q) a h e = h
not_holding (dropped q) a h e = cc

move-Inv :
    (s : System) (i : ℕ) (p q : Pc)
    → s.pc i ≡ p
    → IsQuiet p
    → IsQuiet q
    → Knows s.seqs q
    → Inv s
    → Inv (move s i q)
move-Inv s i p q e hp hq k inv = record {
  ordered = inv.ordered;
  knows = λ j. ground (arith, inv.knows j);
  sole = λ j l a b f g. ground (arith, inv.sole j l a b, not_holding q a hq, not_holding q b hq);
  holder = λ l.
      let (h, is) = inv.holder l in (h, ground (arith, is, not_holding p s.seqs.last_captured hp));
  logged = inv.logged;
}

-- A method that touches neither the captured nor the released mark.
seqs-Inv :
    (s : System) (q : SeqState)
    → q.last_captured ≡ s.seqs.last_captured
    → q.last_released ≡ s.seqs.last_released
    → IsOrdered q
    → Inv s
    → Inv (record s { seqs = q })
seqs-Inv s q c r o inv = record {
  ordered = o;
  knows = λ i. knows_same (s.pc i) (inv.knows i);
  sole = inv.sole;
  holder = λ l. let (h, is) = inv.holder (omega arith) in (h, rw c is);
  logged = rw c inv.logged;
}
  where
    knows_same : (p : Pc) → Knows s.seqs p → Knows q p
    knows_same idle k = tt
    knows_same (trying x) k = tt
    knows_same (awaiting x) k = omega arith
    knows_same (holding x) k = omega arith
    knows_same (dropped x) k = omega arith

Below-mono : {m n : ℕ} (xs : List ℕ) → m ≤ n → Below m xs → Below n xs
Below-mono [] l b = tt
Below-mono (x ∷ xs) l b = (omega arith, b.1)

-- What the other goroutines know stays true when `seq` is captured.
other-Knows :
    (s : SeqState) (seq : ℕ) (p : Pc)
    → attempt_capture s seq ≡ captured
    → Knows s p
    → Knows (set_captured s seq) p
unfolding attempt_capture set_captured
other-Knows s seq idle c k = tt
other-Knows s seq (trying q) c k = tt
other-Knows s seq (awaiting q) c k = ground arith
other-Knows s seq (holding q) c k = absurd (ground arith)
other-Knows s seq (dropped q) c k = k

-- What the other goroutines know stays true when goroutine `i` releases.
released-Knows :
    (s : System) (i j seq : ℕ)
    → s.pc i ≡ holding seq
    → Inv s
    → (p : Pc) → s.pc j ≡ p
    → Knows s.seqs p
    → i ≢ j
    → Knows (release s.seqs) p
unfolding release
released-Knows s i j seq e inv idle f k ne = tt
released-Knows s i j seq e inv (trying q) f k ne = tt
released-Knows s i j seq e inv (awaiting q) f k ne = k
released-Knows s i j seq e inv (holding q) f k ne = absurd (ne (inv.sole i j seq q e f))
released-Knows s i j seq e inv (dropped q) f k ne = omega (arith, inv.ordered.released)

-- A capture: nobody else holds an identifier, and the new one is above all before it.
capture-Inv :
    (s : System) (i seq : ℕ)
    → s.pc i ≡ trying seq
    → attempt_capture s.seqs seq ≡ captured
    → Inv s
    → Inv (record {
      seqs = set_captured s.seqs seq;
      pc = update s.pc i (holding seq);
      log = seq ∷ s.log;
    })
unfolding attempt_capture set_captured
capture-Inv s i seq e c inv = record {
  ordered = ground arith;
  knows = λ j. ground (arith, other-Knows s.seqs seq (s.pc j) c (inv.knows j));
  sole = λ j l a b f g. ground (arith, inv.knows j, inv.knows l);
  holder = λ l. (i, ground arith);
  logged = (omega arith, Below-mono s.log (ground arith) inv.logged);
}

finish-Inv :
    (s : System) (i seq : ℕ)
    → s.pc i ≡ holding seq
    → Inv s
    → Inv (record s { seqs = release s.seqs; pc = update s.pc i idle })
unfolding release
finish-Inv s i seq e inv = record {
  ordered = ground arith;
  knows = λ j. ground (arith, released-Knows s i j seq e inv (s.pc j) refl (inv.knows j));
  sole = λ j l a b f g. ground (arith, inv.sole j l a b);
  holder = λ l. absurd (omega arith);
  logged = inv.logged;
}

waits_below :
    (s : SeqState) (seq : ℕ) → attempt_capture s seq ≡ wait_released → seq ≤ s.last_captured
unfolding attempt_capture
waits_below s seq e = ground arith

old_released : (s : SeqState) (seq : ℕ) → attempt_capture s seq ≡ not_new → seq ≤ s.last_released
unfolding attempt_capture
old_released s seq e = ground arith

abbrev Keeps : SeqState → SeqState → Type 0
Keeps s t = (t.last_captured ≡ s.last_captured) × (t.last_released ≡ s.last_released)

prepare-Keeps : (s : SeqState) (seq : ℕ) → Keeps s (prepare_seq s seq).0
unfolding prepare_seq
prepare-Keeps s seq = ground arith

retire-Keeps : (s : SeqState) (seq : ℕ) → Keeps s (retire_seq s seq).0
unfolding retire_seq
retire-Keeps s seq = ground arith

unprepare-Keeps : (s : SeqState) → Keeps s (unprepare_seq s)
unfolding unprepare_seq
unprepare-Keeps s = (refl, refl)

Step-Inv : {s t : System} → Step s t → Inv s → Inv t
Step-Inv {s} (call i seq e u) inv = rw u (move-Inv s i idle (trying seq) e tt tt tt inv)
Step-Inv (try_again i seq e a u) inv = rw u inv
Step-Inv {s} (try_wait i seq e a u) inv =
    rw u (move-Inv s i (trying seq) (awaiting seq) e tt tt (waits_below s.seqs seq a) inv)
Step-Inv {s} (try_old i seq e a u) inv =
    rw u (move-Inv s i (trying seq) (dropped seq) e tt tt (old_released s.seqs seq a) inv)
Step-Inv {s} (try_new i seq e a u) inv = rw u (capture-Inv s i seq e a inv)
Step-Inv {s} (wake i seq e a u) inv = rw u (move-Inv s i (awaiting seq) (dropped seq) e tt tt a inv)
Step-Inv {s} (finish i seq e u) inv = rw u (finish-Inv s i seq e inv)
Step-Inv {s} (again i seq e u) inv = rw u (move-Inv s i (dropped seq) idle e tt tt tt inv)
Step-Inv {s} (prepares seq u) inv = rw u (
    seqs-Inv s (prepare_seq s.seqs seq).0 (prepare-Keeps s.seqs seq).0 (prepare-Keeps s.seqs seq).1
      (prepare_seq-IsOrdered s.seqs seq inv.ordered) inv)
Step-Inv {s} (retires seq u) inv = rw u (
    seqs-Inv s (retire_seq s.seqs seq).0 (retire-Keeps s.seqs seq).0 (retire-Keeps s.seqs seq).1
      (retire_seq-IsOrdered s.seqs seq inv.ordered) inv)
Step-Inv {s} (unprepares u) inv = rw u (
    seqs-Inv s (unprepare_seq s.seqs) (unprepare-Keeps s.seqs).0 (unprepare-Keeps s.seqs).1
      (unprepare_seq-IsOrdered s.seqs inv.ordered) inv)

pub Reach-Inv : {s : System} → Reach s → Inv s
Reach-Inv begin = start-Inv
Reach-Inv (next r st) = Step-Inv st (Reach-Inv r)

-- In every reachable state at most one goroutine holds a captured identifier: two that do are the
-- same one, with the same identifier.
pub capture_exclusive :
    {s : System} (i j a b : ℕ)
    → Reach s
    → s.pc i ≡ holding a
    → s.pc j ≡ holding b
    → (i ≡ j) × (a ≡ b)
capture_exclusive i j a b r e f =
    let inv = Reach-Inv r in (inv.sole i j a b e f, ground (arith, inv.knows i, inv.knows j))

-- In every reachable state the identifiers captured so far are strictly increasing, so none was
-- captured twice, all lie at or below the captured mark, and the retired, prepared and captured marks
-- are in this order.
pub captures_increase :
    {s : System}
    → Reach s
    → Below (suc s.seqs.last_captured) s.log
      × (s.seqs.last_retired ≤ s.seqs.last_prepared)
      × (s.seqs.last_prepared ≤ s.seqs.last_captured)
captures_increase r =
    let inv = Reach-Inv r in (inv.logged, inv.ordered.retired, inv.ordered.prepared)

-- In every reachable state a capture that returned false did so for an identifier at or below the
-- released mark: it returns only after the identifier, or a greater one, has been released.
pub dropped-released :
    {s : System} (i a : ℕ) → Reach s → s.pc i ≡ dropped a → a ≤ s.seqs.last_released
dropped-released i a r e = let inv = Reach-Inv r in ground (arith, inv.knows i)
