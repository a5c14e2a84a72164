-- ===== src/Dag/Search.antt =====
-- dag/graph.rs and dag/traversal.rs: the loop that the walks over the graph share. It takes the head
-- of the pending nodes and offers each of their neighbours: one that was not seen yet is recorded,
-- put out and made pending. A stack puts it before the others, a queue behind them.
pub mod Scan
pub mod Invariant
pub mod Loop
use claw_branch.Shared.{
  ℕ, zero, suc, Bool, true, false, Option, none, some, List, [], ◌∷◌, ◌++◌, any, ◌==◌,
  if◌then◌else◌,
}

pub data Discipline : Type 0 where
  stack queue : Discipline

abbrev pub pend : Discipline → ℕ → List ℕ → List ℕ
pend stack v pending = v ∷ pending
pend queue v pending = pending ++ v ∷ []

pub record Search : Type 0 where
  pub seen : List ℕ
  pub output : List ℕ
  pub pending : List ℕ

abbrev pub is_seen : ℕ → Search → Bool
is_seen v s = any (λ u. u == v) s.seen

module _ (d : Discipline) where
  -- `if seen.insert(v) { output.push(v); pending.push(v) }`
  unfoldable pub offer : ℕ → Search → Search
  offer v s =
      if is_seen v s
      then s
      else record { seen = v ∷ s.seen; output = s.output ++ v ∷ []; pending = pend d v s.pending }

  unfoldable pub scan : List ℕ → Search → Search
  unfolding offer
  scan [] s = s
  scan (v ∷ vs) s = scan vs (offer v s)

-- The `while` loop, on fuel; `none` means that the fuel ran out.
unfoldable pub loop : Discipline → (ℕ → List ℕ) → ℕ → Search → Option (List ℕ)
unfolding scan
loop d next zero s = elim s.pending [ [] ↦ some s.output | _ ∷ _ ↦ none ]
loop d next (suc fuel) s = elim s.pending [
  | [] ↦ some s.output
  | u ∷ rest ↦ loop d next fuel (scan d (next u) (record s { pending = rest }))
]
