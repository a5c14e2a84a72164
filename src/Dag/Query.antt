-- ===== src/Dag/Query.antt =====
-- dag/graph.rs, the queries. `neighbors_directed` is petgraph's; an answer of `none` means that a
-- loop ran out of fuel or that an index is out of range, where the source would panic.
pub mod Index
pub mod Walked
pub mod Lineage
pub mod Grown
use claw_branch.Shared.{
  ℕ, zero, suc, Bool, true, false, Option, none, some, List, [], ◌∷◌, ◌++◌, any, keep, is_empty,
  length, ◌==◌, ltb, if◌then◌else◌, map,
}
use claw_branch.Failure.{BranchResult, ok, err, dag_node_not_found}
use claw_branch.Types.{Uuid}
use claw_branch.Dag.{DagInner, Edge, EdgeMeta, index_of}
use claw_branch.Dag.Search.{Search, stack, loop}

pub data Direction : Type 0 where
  incoming outgoing : Direction

abbrev pub get_elem? : {A : Type 0} → List A → ℕ → Option A
get_elem? [] i = none
get_elem? (a ∷ l) zero = some a
get_elem? (a ∷ l) (suc i) = get_elem? l i

-- `inner.graph[n]`, for each `n` of a list.
unfoldable pub weights : DagInner → List ℕ → Option (List Uuid)
weights g [] = some []
weights g (n ∷ ns) =
    let rest = weights g ns in
    elim (get_elem? g.nodes n) [
      | none ↦ none
      | some w ↦ elim rest [ none ↦ none | some ws ↦ some (w ∷ ws) ]
    ]

-- `node_indices`
abbrev pub node_indices : ℕ → List ℕ
node_indices zero = []
node_indices (suc n) = node_indices n ++ n ∷ []

-- The result of a walk that may fail to end: `none`, an error or a value.
abbrev pub Walk : Type 0 → Type 0
Walk A = Option (BranchResult A)

abbrev pub and_then : {A B : Type 0} → Walk A → (A → Walk B) → Walk B
and_then none f = none
and_then (some (err e)) f = some (err e)
and_then (some (ok a)) f = f a

abbrev pub found : {A : Type 0} → Option A → Walk A
found none = none
found (some a) = some (ok a)

abbrev pub node_of : Uuid → DagInner → Walk ℕ
node_of id g = elim (index_of id g.node_index) [
  | none ↦ some (err (dag_node_not_found id))
  | some i ↦ some (ok i)
]

abbrev pub contains : List Uuid → Uuid → Bool
contains ids id = any (λ a. a == id) ids

abbrev pub find_first : (Uuid → Bool) → List Uuid → Option Uuid
find_first p [] = none
find_first p (x ∷ xs) = if p x then some x else find_first p xs

abbrev pub smallest : List Uuid → Option Uuid
smallest [] = none
smallest (x ∷ xs) = elim (smallest xs) [ none ↦ some x | some y ↦ some (if ltb y x then y else x) ]

unfoldable pub node_count : DagInner → ℕ
node_count g = length g.nodes

unfoldable pub all_nodes : DagInner → List Uuid
all_nodes g = g.nodes

-- `filter_map` over the edges: the endpoints of an edge, as identifiers.
unfoldable pub all_edges : DagInner → Option (List (Uuid × Uuid × EdgeMeta))
all_edges g = go g.edges
  where
    go : List Edge → Option (List (Uuid × Uuid × EdgeMeta))
    go [] = some []
    go (e ∷ es) =
        let rest = go es in
        elim (get_elem? g.nodes e.source) [
          | none ↦ none
          | some p ↦ elim (get_elem? g.nodes e.target) [
            | none ↦ none
            | some c ↦ elim rest [ none ↦ none | some r ↦ some ((p, c, e.meta) ∷ r) ]
          ]
        ]

module _ (neighbors_directed : DagInner → ℕ → Direction → List ℕ) where
  -- The first parent that petgraph lists.
  unfoldable pub parent_of : Uuid → DagInner → Walk (Option Uuid)
  unfolding weights
  parent_of id g = and_then (node_of id g) (λ i. elim (neighbors_directed g i incoming) [
    | [] ↦ some (ok none)
    | p ∷ _ ↦ elim (get_elem? g.nodes p) [ none ↦ none | some w ↦ some (ok (some w)) ]
  ])

  unfoldable pub children_of : Uuid → DagInner → Walk (List Uuid)
  unfolding weights
  children_of id g =
      and_then (node_of id g) (λ i. found (weights g (neighbors_directed g i outgoing)))

  -- Indices are put out as they are found; their identifiers are read at the end.
  unfoldable pub ancestors_of : Uuid → DagInner → Walk (List Uuid)
  unfolding weights loop
  ancestors_of id g = and_then (node_of id g) (λ start.
      and_then
        (found (
          loop stack (λ u. neighbors_directed g u incoming) (suc (length g.nodes))
            (record { seen = []; output = []; pending = start ∷ [] })))
        (λ out. found (weights g out)))

  unfoldable pub is_ancestor : Uuid → Uuid → DagInner → Walk Bool
  unfolding ancestors_of
  is_ancestor ancestor_id descendant_id g =
      if ancestor_id == descendant_id
      then some (ok true)
      else and_then (ancestors_of descendant_id g) (λ ids. some (ok (contains ids ancestor_id)))

  unfoldable pub find_merge_base : Uuid → Uuid → DagInner → Walk (Option Uuid)
  unfolding ancestors_of
  find_merge_base a b g =
      if a == b
      then some (ok (some a))
      else and_then (ancestors_of a g) (λ a_ancestors.
        let a_set = a_ancestors ++ a ∷ [] in
        if contains a_set b
        then some (ok (some b))
        else and_then (ancestors_of b g)
            (λ b_ancestors. some (ok (find_first (contains a_set) b_ancestors))))

  -- The smallest of the identifiers without a parent.
  unfoldable pub root : DagInner → Walk (Option Uuid)
  unfolding weights
  root g =
      and_then
        (found (
          weights g (
            keep (λ n. is_empty (neighbors_directed g n incoming))
              (node_indices (length g.nodes)))))
        (λ ids. some (ok (smallest ids)))
