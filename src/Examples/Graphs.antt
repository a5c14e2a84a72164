-- ===== src/Examples/Graphs.antt =====
-- dag/graph.rs and dag/traversal.rs at a chain of three branches, with its neighbours read off the
-- list of edges.
use claw_branch.Shared.{
  ℕ, ◌≤◌, ◌<◌, arith, ◌≡◌, ◌≢◌, refl, sym, subst, ◌↔◌, ◌⊎◌, Bool, true, not, Option, none, some,
  List, [], ◌∷◌, any, all, In, Distinct, ◌==◌, ==_iff, ltb, if◌then◌else◌,
}
use mathlib.Core.Bool.{true≢false}
use claw_branch.Failure.{BranchResult, ok}
use claw_branch.Types.{Uuid}
use claw_branch.Dag.{Edge, EdgeMeta, DagInner, joins, add_edge_meta}
use claw_branch.Dag.Query.{
  Direction, incoming, outgoing, weights, ancestors_of, find_merge_base, node_count,
}
use claw_branch.Dag.Query.Index.{Joins, WellFormed, ListsNeighbors, none≢some}
use claw_branch.Dag.Query.Walked.{Chain, once, again, Linked}
use claw_branch.Dag.Query.Lineage.{
  Known, Ancestor, AncestorOrSelf, ancestors_of-exact, find_merge_base-common,
}
use claw_branch.Dag.Query.Grown.{Acyclic, FindsCycles, Extended, add_edge_meta-Extended}
use claw_branch.Dag.Depth.{depth_map, depth_of}
use claw_branch.Dag.Depth.Exact.{Below, depth_of-bounded}
use claw_branch.Dag.Serializer.{NodeRow, EdgeRow, Tables, edge_rows, load_graph}
use claw_branch.Dag.Serializer.Loaded.{own_nodes, load_graph_complete}
use claw_branch.Dag.Traversal.{all_paths, lowest_common_ancestor, subtree_of, depth_or_zero}
use claw_branch.Dag.Traversal.Descent.{subtree_of-exact}
use claw_branch.Dag.Traversal.Routes.{SimplePath, all_paths-exact}
use claw_branch.Dag.Traversal.Common.{lowest_common_ancestor-deepest}

-- Edges that go up in the order of the nodes.
abbrev rising : List Edge → Bool
rising es = all (λ e. ltb e.source e.target) es

abbrev is_cyclic : DagInner → Bool
is_cyclic g = not (rising g.edges)

rising-lt : (u v : ℕ) (es : List Edge) → rising es ≡ true → any (joins u v) es ≡ true → u < v
rising-lt u v [] r h = absurd (true≢false (sym h))
rising-lt u v (e ∷ es) r h = ground (arith, rising-lt u v es, ==_iff e.source u, ==_iff e.target v)

Chain-lt :
    (es : List Edge)
    → rising es ≡ true
    → (u v : ℕ) → Chain (λ i j. any (joins i j) es ≡ true) u v
    → u < v
Chain-lt es r u v (once h) = rising-lt u v es r h
Chain-lt es r u v (again {b = w} k h) = omega (arith, Chain-lt es r u w k, rising-lt w v es r h)

is_cyclic-FindsCycles : FindsCycles is_cyclic
is_cyclic-FindsCycles g h u k = let l = Chain-lt g.edges (ground arith) u u k in omega (arith, l)

abbrev sources : ℕ → List Edge → List ℕ
sources v [] = []
sources v (e ∷ es) = let rest = sources v es in if e.target == v then e.source ∷ rest else rest

abbrev targets : ℕ → List Edge → List ℕ
targets u [] = []
targets u (e ∷ es) = let rest = targets u es in if e.source == u then e.target ∷ rest else rest

abbrev neighbors : DagInner → ℕ → Direction → List ℕ
neighbors g n incoming = sources n g.edges
neighbors g n outgoing = targets n g.edges

sources-joins : (u v : ℕ) (es : List Edge) → In u (sources v es) ↔ (any (joins u v) es ≡ true)
sources-joins u v [] = (λ h. absurd h, λ h. absurd (true≢false (sym h)))
sources-joins u v (e ∷ es) =
    ground (arith, sources-joins u v es, ==_iff e.source u, ==_iff e.target v)

targets-joins : (u v : ℕ) (es : List Edge) → In v (targets u es) ↔ (any (joins u v) es ≡ true)
targets-joins u v [] = (λ h. absurd h, λ h. absurd (true≢false (sym h)))
targets-joins u v (e ∷ es) =
    ground (arith, targets-joins u v es, ==_iff e.source u, ==_iff e.target v)

neighbors-ListsNeighbors : ListsNeighbors neighbors
neighbors-ListsNeighbors g u v = (sources-joins u v g.edges, targets-joins u v g.edges)

abbrev no_meta : EdgeMeta
no_meta = record { forked_at = 0; merge_cursor = none }

abbrev empty : DagInner
empty = record { nodes = []; edges = []; node_index = [] }

abbrev pair : DagInner
pair = record {
  nodes = 70 ∷ 71 ∷ [];
  edges = record { source = 0; target = 1; meta = no_meta } ∷ [];
  node_index = (71, 1) ∷ (70, 0) ∷ [];
}

abbrev lineage : DagInner
lineage = record {
  nodes = 70 ∷ 71 ∷ 72 ∷ [];
  edges =
      record { source = 0; target = 1; meta = no_meta }
      ∷ record { source = 1; target = 2; meta = no_meta }
      ∷ [];
  node_index = (72, 2) ∷ (71, 1) ∷ (70, 0) ∷ [];
}

pair-built : add_edge_meta is_cyclic 70 71 no_meta empty ≡ (ok tt, pair)
unfolding add_edge_meta
pair-built = refl

lineage-built : add_edge_meta is_cyclic 71 72 no_meta pair ≡ (ok tt, lineage)
unfolding add_edge_meta
lineage-built = refl

no-Chain : (u v : ℕ) → ¬ Chain (λ i j. any (joins i j) [] ≡ true) u v
no-Chain u v (once h) = true≢false (sym h)
no-Chain u v (again k h) = true≢false (sym h)

empty-WellFormed : WellFormed empty
empty-WellFormed = (
  λ id i. (λ h. absurd (none≢some i h), λ h. absurd (none≢some id h)),
  λ u v h. absurd (true≢false (sym h)),
)

add_edge_meta-Extended_example :
    Extended 70 71 empty
      (add_edge_meta is_cyclic 70 71 no_meta empty).0
      (add_edge_meta is_cyclic 70 71 no_meta empty).1
add_edge_meta-Extended_example =
    add_edge_meta-Extended is_cyclic is_cyclic-FindsCycles 70 71 no_meta empty empty-WellFormed
      (λ u. no-Chain u u)

pair-Extended : Extended 70 71 empty (ok tt) pair
pair-Extended =
    subst (λ (r : BranchResult (Unit {0}) × DagInner). Extended 70 71 empty r.0 r.1) pair-built
      add_edge_meta-Extended_example

lineage-Extended : Extended 71 72 pair (ok tt) lineage
lineage-Extended =
    subst (λ (r : BranchResult (Unit {0}) × DagInner). Extended 71 72 pair r.0 r.1) lineage-built
      (add_edge_meta-Extended is_cyclic is_cyclic-FindsCycles 71 72 no_meta pair pair-Extended.0
        pair-Extended.1)

abbrev middle : Uuid
middle = 71

abbrev youngest : Uuid
youngest = 72

ancestors_of-lineage : ancestors_of neighbors 72 lineage ≡ some (ok (71 ∷ 70 ∷ []))
unfolding ancestors_of
ancestors_of-lineage = refl

depth_of-lineage : depth_of neighbors 72 lineage ≡ some (ok 2)
unfolding depth_of
depth_of-lineage = refl

lowest_common_ancestor-lineage :
    lowest_common_ancestor neighbors 72 71 lineage ≡ some (ok (some 71))
unfolding lowest_common_ancestor
lowest_common_ancestor-lineage = refl

all_paths-lineage : all_paths neighbors 70 72 lineage ≡ some (ok ((70 ∷ 71 ∷ 72 ∷ []) ∷ []))
unfolding all_paths
all_paths-lineage = refl

ancestors_of-exact_example :
    (ids : List Uuid) × (ancestors_of neighbors 72 lineage ≡ some (ok ids))
    × Distinct ids
    × ((a : Uuid) → In a ids ↔ Ancestor lineage 72 a)
ancestors_of-exact_example =
    ancestors_of-exact neighbors neighbors-ListsNeighbors lineage 72 lineage-Extended.0 (2, refl)

find_merge_base-common_example :
    (base : Option Uuid) × (find_merge_base neighbors 71 72 lineage ≡ some (ok base))
    × ((c : Uuid) → base ≡ some c → AncestorOrSelf lineage 71 c × AncestorOrSelf lineage 72 c)
    × (base ≡ none → (c : Uuid) → AncestorOrSelf lineage 71 c → ¬ AncestorOrSelf lineage 72 c)
find_merge_base-common_example =
    find_merge_base-common neighbors neighbors-ListsNeighbors lineage 71 72 lineage-Extended.0
      (1, refl) (2, refl)

subtree_of-exact_example :
    (ids : List Uuid) × (subtree_of neighbors 70 lineage ≡ some (ok ids))
    × Distinct ids
    × ((b : Uuid) → In b ids ↔ (Ancestor lineage b 70 × (b ≢ 70)))
subtree_of-exact_example =
    subtree_of-exact neighbors neighbors-ListsNeighbors lineage 70 lineage-Extended.0 (0, refl)

depth_of-bounded_example :
    (r : BranchResult ℕ) × (depth_of neighbors 72 lineage ≡ some r)
    × ((d : ℕ) → r ≡ ok d → Below lineage 2 d × (d < node_count lineage))
    × ((d : ℕ) → Below lineage 2 d → (e : ℕ) × (r ≡ ok e))
depth_of-bounded_example =
    depth_of-bounded neighbors neighbors-ListsNeighbors lineage 72 2 lineage-Extended.0 refl

all_paths-exact_example :
    (results : List (List Uuid)) × (all_paths neighbors 70 72 lineage ≡ some (ok results))
    × ((w : List Uuid)
        → In w results ↔ ((p : List ℕ) × SimplePath lineage 0 2 p × (weights lineage p ≡ some w)))
all_paths-exact_example =
    all_paths-exact neighbors neighbors-ListsNeighbors lineage 70 72 0 2 lineage-Extended.0 refl
      refl

lowest_common_ancestor-deepest_example :
    (lca : Option Uuid) × (depths : List (ℕ × ℕ)) × (lowest_common_ancestor neighbors 71 72 lineage
      ≡ some (ok lca))
    × (depth_map neighbors lineage ≡ some depths)
    × ((c : Uuid)
        → lca ≡ some c
        → AncestorOrSelf lineage 71 c
          × AncestorOrSelf lineage 72 c
          × ((middle ≡ youngest)
              ⊎ ((d : Uuid)
                  → AncestorOrSelf lineage 71 d
                  → AncestorOrSelf lineage 72 d
                  → depth_or_zero lineage depths d ≤ depth_or_zero lineage depths c)))
    × (lca ≡ none → (c : Uuid) → AncestorOrSelf lineage 71 c → ¬ AncestorOrSelf lineage 72 c)
lowest_common_ancestor-deepest_example =
    lowest_common_ancestor-deepest neighbors neighbors-ListsNeighbors lineage 71 72
      lineage-Extended.0 (1, refl) (2, refl)

abbrev stored_graph : Tables
stored_graph = record {
  dag_nodes =
      record { branch_id = 70; workspace_id = 1; added_at = 0 }
      ∷ record { branch_id = 71; workspace_id = 1; added_at = 0 }
      ∷ [];
  dag_edges = record { parent_id = 70; child_id = 71; meta = no_meta } ∷ [];
}

abbrev loaded_pair : DagInner
loaded_pair = record {
  nodes = 70 ∷ 71 ∷ [];
  edges = record { source = 0; target = 1; meta = no_meta } ∷ [];
  node_index = (71, 1) ∷ (70, 0) ∷ [];
}

load_graph-pair : load_graph is_cyclic 1 stored_graph ≡ some (ok loaded_pair)
unfolding load_graph
load_graph-pair = refl

load_graph_complete_example :
    (r : BranchResult DagInner) × (load_graph is_cyclic 1 stored_graph ≡ some r)
    × ((g : DagInner)
        → r ≡ ok g
        → WellFormed g
          × Acyclic g.edges
          × ((n : NodeRow) → In n (own_nodes 1 stored_graph) → Known g n.branch_id)
          × ((e : EdgeRow)
              → In e (edge_rows 1 stored_graph)
              → Linked g (Joins g) e.parent_id e.child_id))
load_graph_complete_example = load_graph_complete is_cyclic is_cyclic-FindsCycles 1 stored_graph
