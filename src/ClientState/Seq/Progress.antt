-- ===== src/ClientState/Seq/Progress.antt =====
-- A goroutine that waits for an identifier waits for another one that holds it.
use minbft.Base.{ℕ, ◌<◌, ◌≡◌, refl, ◌⊎◌, inl, inr, arith}
use native.Mathlib.Decide.{dec_le}
use minbft.ClientState.Seq.{SeqState, attempt_capture, not_new, captured}
use minbft.ClientState.Seq.Threads.{
  Pc, trying, awaiting, holding, dropped, System, Step, try_old, try_new, wake, Reach,
}
use minbft.ClientState.Seq.Exclusion.{Reach-Inv}

-- A step after which goroutine `i` is at `p`.
abbrev pub CanReach : System → ℕ → Pc → Type 0
CanReach s i p = (t : System) × Step s t × (t.pc i ≡ p)

abbrev pub IsHeld : System → Type 0
IsHeld s = (j : ℕ) × (s.pc j ≡ holding s.seqs.last_captured)

attempt_cases :
    (s : SeqState) (seq : ℕ)
    → (attempt_capture s seq ≡ not_new)
      ⊎ (attempt_capture s seq ≡ captured)
      ⊎ ((s.last_released < s.last_captured) × (s.last_released < seq))
unfolding attempt_capture
attempt_cases s seq = ground arith

-- In every reachable state a goroutine in the loop of a capture gets the identifier or returns false
-- in a step of its own, or some goroutine holds the greatest captured identifier.
pub trying_progress :
    {s : System} (i seq : ℕ)
    → Reach s
    → s.pc i ≡ trying seq
    → CanReach s i (holding seq) ⊎ CanReach s i (dropped seq) ⊎ IsHeld s
trying_progress {s} i seq r e = elim (attempt_cases s.seqs seq) [
  | inl old ↦ inr (inl (_, try_old i seq e old refl, ground arith))
  | inr (inl new) ↦ inl (_, try_new i seq e new refl, ground arith)
  | inr (inr (busy, _)) ↦ inr (inr ((Reach-Inv r).holder busy))
]

-- In every reachable state a goroutine that waits for its identifier to be released returns false in
-- a step of its own, or some goroutine holds the greatest captured identifier.
pub awaiting_progress :
    {s : System} (i seq : ℕ)
    → Reach s
    → s.pc i ≡ awaiting seq
    → CanReach s i (dropped seq) ⊎ IsHeld s
awaiting_progress {s} i seq r e = elim (dec_le seq s.seqs.last_released) [
  | yes done ↦ inl (_, wake i seq e done refl, ground arith)
  | no busy ↦ let inv = Reach-Inv r in inr (inv.holder (ground (arith, inv.knows i)))
]
