-- ===== src/Dag/Depth.antt =====
-- dag/graph.rs, `depth_of`, and dag/traversal.rs, `bfs_depth_map`: the breadth-first search from all
-- the roots. `none` stands for fuel that ran out and for an index that is out of range.
pub mod Spread
pub mod Bounded
pub mod Measured
pub mod Exact
use claw_branch.Shared.{
  ℕ, zero, suc, Bool, true, false, Option, none, some, List, [], ◌∷◌, ◌++◌, keep, is_empty, length,
  ◌==◌, if◌then◌else◌,
}
use claw_branch.Failure.{BranchResult, ok, err, dag_node_not_found}
use claw_branch.Types.{Uuid}
use claw_branch.Dag.{DagInner, index_of}
use claw_branch.Dag.Query.{
  Direction, incoming, outgoing, get_elem?, node_indices, Walk, and_then, found, node_of,
}

-- `depth_map` and `queue`; the map is read with `index_of`, as the graph's own.
pub record Levels : Type 0 where
  pub depths : List (ℕ × ℕ)
  pub queue : List ℕ

abbrev pub has_depth : ℕ → Levels → Bool
has_depth v s = elim (index_of v s.depths) [ none ↦ false | some _ ↦ true ]

-- `if let Entry::Vacant(entry) = depth_map.entry(v) { entry.insert(d); queue.push_back(v) }`
unfoldable pub enter : ℕ → ℕ → Levels → Levels
enter d v s =
    if has_depth v s then s else record { depths = (v, d) ∷ s.depths; queue = s.queue ++ v ∷ [] }

unfoldable pub enter_all : ℕ → List ℕ → Levels → Levels
unfolding enter
enter_all d [] s = s
enter_all d (v ∷ vs) s = enter_all d vs (enter d v s)

-- The `while` loop, on fuel.
unfoldable pub level_loop : (ℕ → List ℕ) → ℕ → Levels → Option (List (ℕ × ℕ))
unfolding enter_all
level_loop next zero s = elim s.queue [ [] ↦ some s.depths | _ ∷ _ ↦ none ]
level_loop next (suc fuel) s = elim s.queue [
  | [] ↦ some s.depths
  | u ∷ rest ↦ elim (index_of u s.depths) [
    | none ↦ none
    | some d ↦ level_loop next fuel (enter_all (suc d) (next u) (record s { queue = rest }))
  ]
]

module _ (neighbors_directed : DagInner → ℕ → Direction → List ℕ) where
  -- The nodes of in-degree 0. Each index comes once, so inserting it is entering it.
  unfoldable pub root_nodes : DagInner → List ℕ
  root_nodes g =
      keep (λ n. is_empty (neighbors_directed g n incoming)) (node_indices (length g.nodes))

  unfoldable pub depth_map : DagInner → Option (List (ℕ × ℕ))
  unfolding level_loop root_nodes
  depth_map g =
      level_loop (λ u. neighbors_directed g u outgoing) (length g.nodes)
        (enter_all 0 (root_nodes g) (record { depths = []; queue = [] }))

  unfoldable pub depth_of : Uuid → DagInner → Walk ℕ
  unfolding depth_map
  depth_of id g = and_then (node_of id g) (λ target. and_then (found (depth_map g)) (λ depths.
      elim (index_of target depths) [
        | none ↦ some (err (dag_node_not_found id))
        | some d ↦ some (ok d)
      ]))
