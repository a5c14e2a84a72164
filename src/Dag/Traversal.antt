-- ===== src/Dag/Traversal.antt =====
-- dag/traversal.rs. `toposort` is petgraph's: an order of the nodes, or a node of a cycle. The sets
-- of identifiers are kept as nodes while a walk runs and read at its end: in a well-formed graph an
-- identifier stands at one node.
pub mod Descent
pub mod Paths
pub mod Routes
pub mod Common
use claw_branch.Shared.{
  ℕ, zero, suc, ◌-◌, Bool, true, false, not, Option, none, some, List, [], ◌∷◌, ◌++◌, any, keep,
  is_empty, length, ◌==◌, ltb, if◌then◌else◌,
}
use claw_branch.Failure.{BranchResult, ok, err, dag_cycle, dag_node_not_found}
use claw_branch.Types.{Uuid}
use claw_branch.Dag.{DagInner, index_of}
use claw_branch.Dag.Search.{Search, stack, queue, loop}
use claw_branch.Dag.Query.{
  Direction, incoming, outgoing, get_elem?, weights, node_indices, Walk, and_then, found, node_of,
  contains,
}
use claw_branch.Dag.Depth.{depth_map, depth_of}

-- The nodes of a graph in topological order, or a node on a cycle.
pub data Sorted : Type 0 where
  order : List ℕ → Sorted
  cycle : (node_id : ℕ) → Sorted

abbrev pub concat_walks : (ℕ → Option (List (List ℕ))) → List ℕ → Option (List (List ℕ))
concat_walks f [] = some []
concat_walks f (v ∷ vs) =
    let rest = concat_walks f vs in
    elim (f v) [ none ↦ none | some ps ↦ elim rest [ none ↦ none | some qs ↦ some (ps ++ qs) ] ]

-- The paths that one call adds to `results`. A neighbour leaves `visited` and `path` again after
-- its own call, so that the next one finds them unchanged.
unfoldable pub dfs_paths :
    (ℕ → List ℕ) → ℕ → (target : ℕ) → ℕ → (visited path : List ℕ) → Option (List (List ℕ))
dfs_paths next zero target current visited path = none
dfs_paths next (suc fuel) target current visited path =
    let deeper =
      concat_walks (λ v. dfs_paths next fuel target v (v ∷ visited) (path ++ v ∷ []))
        (keep (λ v. not (any (λ u. u == v) visited)) (next current)) in
    if current == target then some (path ∷ []) else deeper

-- The paths, read as identifiers.
unfoldable pub named_paths : DagInner → List (List ℕ) → Option (List (List Uuid))
unfolding weights
named_paths g [] = some []
named_paths g (p ∷ ps) =
    let rest = named_paths g ps in
    elim (weights g p) [
      | none ↦ none
      | some w ↦ elim rest [ none ↦ none | some ws ↦ some (w ∷ ws) ]
    ]

-- The depth of an identifier in the map of depths, 0 where it has none.
abbrev pub depth_or_zero : DagInner → List (ℕ × ℕ) → Uuid → ℕ
depth_or_zero g depths id = elim (index_of id g.node_index) [
  | none ↦ 0
  | some n ↦ elim (index_of n depths) [ none ↦ 0 | some d ↦ d ]
]

-- `max_by`: greater depth, then smaller identifier.
abbrev pub beats : (Uuid → ℕ) → Uuid → Uuid → Bool
beats depth y x = if depth y == depth x then ltb y x else ltb (depth x) (depth y)

abbrev pub deepest : (Uuid → ℕ) → List Uuid → Option Uuid
deepest depth [] = none
deepest depth (x ∷ xs) = elim (deepest depth xs) [
  | none ↦ some x
  | some y ↦ some (if beats depth y x then y else x)
]

module _ (neighbors_directed : DagInner → ℕ → Direction → List ℕ) where
  unfoldable pub dfs_ancestor_set : Uuid → DagInner → Walk (List Uuid)
  unfolding weights loop
  dfs_ancestor_set id g = and_then (node_of id g) (λ start.
      and_then
        (found (
          loop stack (λ u. neighbors_directed g u incoming) (suc (length g.nodes))
            (record { seen = []; output = []; pending = start ∷ [] })))
        (λ out. found (weights g out)))

  unfoldable pub all_paths : Uuid → Uuid → DagInner → Walk (List (List Uuid))
  unfolding dfs_paths named_paths
  all_paths source target g = and_then (node_of source g) (λ from_n.
      and_then (node_of target g) (λ to_n.
        and_then
          (found (
            dfs_paths (λ u. neighbors_directed g u outgoing) (suc (length g.nodes)) to_n from_n
              (from_n ∷ []) (from_n ∷ [])))
          (λ results. found (named_paths g results))))

  unfoldable pub lowest_common_ancestor : Uuid → Uuid → DagInner → Walk (Option Uuid)
  unfolding dfs_ancestor_set depth_map
  lowest_common_ancestor a b g =
      if a == b
      then some (ok (some a))
      else and_then (found (depth_map neighbors_directed g)) (λ depths.
        and_then (dfs_ancestor_set a g) (λ a_ancestors.
          and_then (dfs_ancestor_set b g) (λ b_ancestors. some (
            ok (
              deepest (depth_or_zero g depths)
                (keep (contains (b ∷ b_ancestors)) (a ∷ a_ancestors)))))))

  unfoldable pub subtree_of : Uuid → DagInner → Walk (List Uuid)
  unfolding weights loop
  subtree_of id g = and_then (node_of id g) (λ root_n.
      and_then
        (found (
          loop queue (λ u. neighbors_directed g u outgoing) (suc (length g.nodes))
            (record { seen = root_n ∷ []; output = []; pending = root_n ∷ [] })))
        (λ out. found (weights g out)))

  unfoldable pub leaves : DagInner → Walk (List Uuid)
  unfolding weights
  leaves g = found (
      weights g
        (keep (λ n. is_empty (neighbors_directed g n outgoing)) (node_indices (length g.nodes))))

  unfoldable pub divergence_depth : Uuid → Uuid → DagInner → Walk ℕ
  unfolding lowest_common_ancestor depth_of
  divergence_depth branch_a branch_b g =
      and_then (lowest_common_ancestor branch_a branch_b g) (λ common. elim common [
        | none ↦ some (err (dag_node_not_found branch_a))
        | some lca ↦ and_then (depth_of neighbors_directed branch_a g) (λ depth_a.
            and_then (depth_of neighbors_directed lca g)
              (λ depth_lca. some (ok (depth_a - depth_lca))))
      ])

module _ (toposort : DagInner → Sorted) where
  abbrev pub in_order : DagInner → Sorted → Walk (List Uuid)
  in_order g (order ns) = found (weights g ns)
  in_order g (cycle n) = elim (get_elem? g.nodes n) [
    | none ↦ none
    | some id ↦ some (err (dag_cycle id id))
  ]

  unfoldable pub topological_sort : DagInner → Walk (List Uuid)
  unfolding weights
  topological_sort g = in_order g (toposort g)

  unfoldable pub merge_order : List Uuid → DagInner → Walk (List Uuid)
  unfolding topological_sort
  merge_order branches g =
      and_then (topological_sort g) (λ full_order. some (ok (keep (contains branches) full_order)))
