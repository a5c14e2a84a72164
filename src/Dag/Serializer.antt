-- ===== src/Dag/Serializer.antt =====
-- dag/serializer.rs: the tables of the graph in the registry's database, and the graph that is loaded
-- of them. Rows hold decoded values; sqlx opens the database with SQLite's foreign keys on. A hash
-- map is walked in the order of its entries.
pub mod Order
pub mod Loaded
use claw_branch.Shared.{
  ℕ, zero, suc, ◌+◌, ◌-◌, Text, codes, Bool, true, false, not, ◌&&◌, ◌||◌, Option, none, some, List,
  [], ◌∷◌, ◌++◌, any, keep, length, ◌==◌, if◌then◌else◌,
}
use claw_branch.Failure.{BranchResult, ok, err, ◌>>=◌, ◌>>◌, database}
use claw_branch.Types.{Uuid, Time}
use claw_branch.Dag.{EdgeMeta, DagInner, index_of, add_node, add_edge_meta}
use claw_branch.Dag.Query.{get_elem?}

pub record NodeRow : Type 0 where
  pub branch_id : Uuid
  pub workspace_id : Uuid
  pub added_at : Time

-- A row of `dag_edges`, and an `EdgeRecord`.
pub record EdgeRow : Type 0 where
  pub parent_id : Uuid
  pub child_id : Uuid
  pub meta : EdgeMeta

pub record Tables : Type 0 where
  pub dag_nodes : List NodeRow
  pub dag_edges : List EdgeRow

abbrev pub is_node : Uuid → NodeRow → Bool
is_node id n = n.branch_id == id

abbrev pub is_edge : Uuid → Uuid → EdgeRow → Bool
is_edge p c e = (e.parent_id == p) && (e.child_id == c)

-- `INSERT OR IGNORE`
unfoldable pub save_node : Time → Uuid → Uuid → Tables → Tables
save_node now branch_id workspace_id t =
    if any (is_node branch_id) t.dag_nodes then t else record t {
      dag_nodes =
          t.dag_nodes
          ++ record { branch_id = branch_id; workspace_id = workspace_id; added_at = now } ∷ [];
    }

-- `INSERT OR IGNORE` does not ignore a foreign key.
unfoldable pub save_edge : Uuid → Uuid → Time → Tables → BranchResult (Unit {0}) × Tables
save_edge p c forked_at t =
    if any (is_edge p c) t.dag_edges
    then (ok tt, t)
    else if any (is_node p) t.dag_nodes && any (is_node c) t.dag_nodes
    then (
      ok tt,
      record t {
        dag_edges =
            t.dag_edges
            ++ record {
              parent_id = p;
              child_id = c;
              meta = record { forked_at = forked_at; merge_cursor = none };
            }
              ∷ [];
      },
    )
    else (err (database (codes "FOREIGN KEY constraint failed")), t)

unfoldable pub delete_node : Uuid → Tables → Tables
delete_node id t = record {
  dag_nodes = keep (λ n. not (is_node id n)) t.dag_nodes;
  dag_edges = keep (λ (e : EdgeRow). not ((e.parent_id == id) || (e.child_id == id))) t.dag_edges;
}

unfoldable pub update_cursors : Uuid → Uuid → Text → List EdgeRow → List EdgeRow
update_cursors p c cursor [] = []
update_cursors p c cursor (e ∷ es) =
    let rest = update_cursors p c cursor es in
    if is_edge p c e
    then record e { meta = record e.meta { merge_cursor = some cursor } } ∷ rest
    else e ∷ rest

unfoldable pub update_edge_cursor : Uuid → Uuid → Text → Tables → Tables
unfolding update_cursors
update_edge_cursor p c cursor t = record t { dag_edges = update_cursors p c cursor t.dag_edges }

abbrev pub in_workspace : Uuid → NodeRow → Bool
in_workspace w n = n.workspace_id == w

-- `edge_rows`: both ends are nodes of the workspace.
unfoldable pub edge_rows : Uuid → Tables → List EdgeRow
edge_rows w t =
    let own = keep (in_workspace w) t.dag_nodes in
    keep (λ (e : EdgeRow). any (is_node e.parent_id) own && any (is_node e.child_id) own)
      t.dag_edges

-- The locals of Kahn's algorithm: the indices of the edges by their parent, the degrees, the queue.
pub record Kahn : Type 0 where
  pub out_edges : List (Uuid × List ℕ)
  pub in_degree : List (Uuid × ℕ)
  pub queue : List Uuid
  pub insert_order : List ℕ

unfoldable pub push_edge : Uuid → ℕ → List (Uuid × List ℕ) → List (Uuid × List ℕ)
push_edge p i [] = (p, i ∷ []) ∷ []
push_edge p i ((q, is) ∷ m) = if p == q then (q, is ++ i ∷ []) ∷ m else (q, is) ∷ push_edge p i m

-- `entry(id).and_modify(|d| *d += n).or_insert(n)`, for 1 and 0.
unfoldable pub add_degree : Uuid → ℕ → List (Uuid × ℕ) → List (Uuid × ℕ)
add_degree id n [] = (id, n) ∷ []
add_degree id n ((j, d) ∷ m) = if id == j then (j, d + n) ∷ m else (j, d) ∷ add_degree id n m

-- The loop over `edges.iter().enumerate()`.
unfoldable pub count_edges : ℕ → List EdgeRow → Kahn → Kahn
unfolding push_edge add_degree
count_edges i [] k = k
count_edges i (e ∷ es) k = count_edges (suc i) es (record k {
  out_edges = push_edge e.parent_id i k.out_edges;
  in_degree = add_degree e.parent_id 0 (add_degree e.child_id 1 k.in_degree);
})

unfoldable pub sources : List (Uuid × ℕ) → List Uuid
sources [] = []
sources ((id, d) ∷ m) = let rest = sources m in if d == 0 then id ∷ rest else rest

-- `out_edges.remove(&parent)`
unfoldable pub take_out : Uuid → List (Uuid × List ℕ) → List ℕ × List (Uuid × List ℕ)
take_out p [] = ([], [])
take_out p ((q, is) ∷ m) =
    let (found, rest) = take_out p m in if p == q then (is, m) else (found, (q, is) ∷ rest)

-- `*in_degree.entry(child).or_insert(1)`, lowered by one, and what it becomes.
unfoldable pub lower : Uuid → List (Uuid × ℕ) → ℕ × List (Uuid × ℕ)
lower id [] = (0, (id, 0) ∷ [])
lower id ((j, d) ∷ m) =
    let (n, rest) = lower id m in if id == j then (d - 1, (j, d - 1) ∷ m) else (n, (j, d) ∷ rest)

-- The `for` loop over the edges of one parent. `edges[idx]` is in range by construction.
unfoldable pub visit_edges : List EdgeRow → List ℕ → Kahn → Kahn
unfolding lower
visit_edges edges [] k = k
visit_edges edges (i ∷ is) k = elim (get_elem? edges i) [
  | none ↦ visit_edges edges is k
  | some e ↦
      let (d, degrees) = lower e.child_id k.in_degree in
      visit_edges edges is (record k {
        in_degree = degrees;
        insert_order = k.insert_order ++ i ∷ [];
        queue = if d == 0 then k.queue ++ e.child_id ∷ [] else k.queue;
      })
]

-- The `while` loop, on fuel.
unfoldable pub kahn_loop : List EdgeRow → ℕ → Kahn → Option (List ℕ)
unfolding take_out visit_edges
kahn_loop edges zero k = elim k.queue [ [] ↦ some k.insert_order | _ ∷ _ ↦ none ]
kahn_loop edges (suc fuel) k = elim k.queue [
  | [] ↦ some k.insert_order
  | parent ∷ rest ↦
      let (is, out) = take_out parent k.out_edges in
      kahn_loop edges fuel (visit_edges edges is (record k { out_edges = out; queue = rest }))
]

-- `if !insert_order.contains(&i) { insert_order.push(i) }` for every index from `i` on.
unfoldable pub append_missing : ℕ → List EdgeRow → List ℕ → List ℕ
append_missing i [] order = order
append_missing i (e ∷ es) order =
    append_missing (suc i) es (if any (λ j. j == i) order then order else order ++ i ∷ [])

unfoldable pub start_of : List EdgeRow → Kahn
unfolding count_edges sources
start_of edges =
    let k =
      count_edges 0 edges
        (record { out_edges = []; in_degree = []; queue = []; insert_order = [] }) in
    record k { queue = sources k.in_degree }

-- The order in which the edges are inserted; `none` when the fuel runs out.
unfoldable pub insert_order_of : List EdgeRow → Option (List ℕ)
unfolding start_of kahn_loop append_missing
insert_order_of edges =
    let k = start_of edges in
    elim (kahn_loop edges (length k.in_degree + length edges) k) [
      | none ↦ none
      | some order ↦ some (append_missing 0 edges order)
    ]

unfoldable pub add_nodes : List NodeRow → DagInner → DagInner
unfolding add_node
add_nodes [] g = g
add_nodes (n ∷ ns) g = add_nodes ns (add_node n.branch_id g).1

unfoldable pub insert_edges :
    (DagInner → Bool) → List EdgeRow → List ℕ → DagInner → BranchResult DagInner
unfolding add_edge_meta
insert_edges is_cyclic_directed edges [] g = ok g
insert_edges is_cyclic_directed edges (i ∷ is) g = elim (get_elem? edges i) [
  | none ↦ insert_edges is_cyclic_directed edges is g
  | some e ↦
      let (r, g') = add_edge_meta is_cyclic_directed e.parent_id e.child_id e.meta g in
      r >>= λ _. insert_edges is_cyclic_directed edges is g'
]

unfoldable pub load_graph : (DagInner → Bool) → Uuid → Tables → Option (BranchResult DagInner)
unfolding edge_rows insert_order_of add_nodes insert_edges
load_graph is_cyclic_directed w t =
    let edges = edge_rows w t in
    let g =
      add_nodes (keep (in_workspace w) t.dag_nodes)
        (record { nodes = []; edges = []; node_index = [] }) in
    elim (insert_order_of edges) [
      | none ↦ none
      | some order ↦ some (insert_edges is_cyclic_directed edges order g)
    ]
