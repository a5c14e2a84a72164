-- ===== src/Dag.antt =====
-- dag/graph.rs, building the graph of branches: petgraph's `DiGraph` is its node weights, indexed by
-- position, and its edges in the order of insertion; its cycle test is a parameter.
pub mod Search
pub mod Query
pub mod Depth
pub mod Traversal
pub mod Serializer
use claw_branch.Shared.{
  ℕ, Text, Bool, ◌&&◌, Option, none, some, List, [], ◌∷◌, ◌++◌, any, length, ◌==◌, if◌then◌else◌,
}
use claw_branch.Failure.{BranchResult, ok, err, dag_cycle}
use claw_branch.Types.{Uuid, Time}

pub record EdgeMeta : Type 0 where
  pub forked_at : Time
  pub merge_cursor : Option Text

pub record Edge : Type 0 where
  pub source : ℕ
  pub target : ℕ
  pub meta : EdgeMeta

pub record DagInner : Type 0 where
  pub nodes : List Uuid
  pub edges : List Edge
  pub node_index : List (Uuid × ℕ)

abbrev pub index_of : Uuid → List (Uuid × ℕ) → Option ℕ
index_of id [] = none
index_of id ((j, i) ∷ m) = if id == j then some i else index_of id m

-- `add_node` and `ensure_or_insert`: the node's index, and the graph with it.
unfoldable pub ensure_or_insert : Uuid → DagInner → ℕ × DagInner
ensure_or_insert id g = elim (index_of id g.node_index) [
  | some i ↦ (i, g)
  | none ↦ (
    length g.nodes,
    record g { nodes = g.nodes ++ id ∷ []; node_index = (id, length g.nodes) ∷ g.node_index },
  )
]

unfoldable pub add_node : Uuid → DagInner → BranchResult ℕ × DagInner
unfolding ensure_or_insert
add_node id g = let (i, g') = ensure_or_insert id g in (ok i, g')

abbrev pub joins : ℕ → ℕ → Edge → Bool
joins p c e = (e.source == p) && (e.target == c)

-- An edge that would close a cycle is taken back; the nodes that were inserted for it stay.
unfoldable pub add_edge_meta :
    (DagInner → Bool) → Uuid → Uuid → EdgeMeta → DagInner → BranchResult (Unit {0}) × DagInner
unfolding ensure_or_insert
add_edge_meta is_cyclic_directed parent_id child_id meta g =
    if parent_id == child_id
    then (err (dag_cycle parent_id child_id), g)
    else let (p, g₁) = ensure_or_insert parent_id g in
      let (c, g₂) = ensure_or_insert child_id g₁ in
      if any (joins p c) g₂.edges
      then (ok tt, g₂)
      else let e : Edge = record { source = p; target = c; meta = meta } in
        let g₃ : DagInner = record g₂ { edges = g₂.edges ++ e ∷ [] } in
        if is_cyclic_directed g₃ then (err (dag_cycle parent_id child_id), g₂) else (ok tt, g₃)

unfoldable pub add_edge :
    (DagInner → Bool) → Uuid → Uuid → Time → DagInner → BranchResult (Unit {0}) × DagInner
unfolding add_edge_meta
add_edge is_cyclic_directed parent_id child_id now g =
    add_edge_meta is_cyclic_directed parent_id child_id
      (record { forked_at = now; merge_cursor = none }) g
