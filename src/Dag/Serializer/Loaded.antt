-- ===== src/Dag/Serializer/Loaded.antt =====
-- The graph that is loaded of the tables.
use claw_branch.Shared.{
  ℕ, suc, ◌≡◌, refl, sym, ap, ◌∙◌, subst, inl, inr, ⊎_elim, Bool, true, some, Option-cases, List,
  [], ◌∷◌, keep, any, In,
}
use mathlib.Core.Bool.{true≢false}
use claw_branch.Failure.{BranchResult, ok, ok-eq, then-ok}
use claw_branch.Types.{Uuid}
use claw_branch.Dag.{DagInner, joins, ensure_or_insert, add_node, add_edge_meta}
use claw_branch.Dag.Query.{get_elem?}
use claw_branch.Dag.Query.Index.{WellFormed, Joins, some-eq, none≢some, get_elem?-lt}
use claw_branch.Dag.Query.Walked.{Chain, once, again, Linked}
use claw_branch.Dag.Query.Lineage.{Known}
use claw_branch.Dag.Query.Grown.{
  Acyclic, FindsCycles, Extended, ensure_or_insert-Inserted, add_edge_meta-Extended,
}
use claw_branch.Dag.Serializer.{
  NodeRow, EdgeRow, Tables, in_workspace, edge_rows, add_nodes, insert_edges, load_graph,
}
use claw_branch.Dag.Serializer.Order.{insert_order_of-all}

-- A graph that holds what another one held.
abbrev Holds : DagInner → DagInner → Type 0
Holds g g' =
    ((j : Uuid) → Known g j → Known g' j)
    × ((a b : Uuid) → Linked g (Joins g) a b → Linked g' (Joins g') a b)

add_nodes-WellFormed :
    (ns : List NodeRow) (g : DagInner)
    → WellFormed g
    → WellFormed (add_nodes ns g)
      × ((add_nodes ns g).edges ≡ g.edges)
      × ((j : Uuid) → Known g j → Known (add_nodes ns g) j)
      × ((n : NodeRow) → In n ns → Known (add_nodes ns g) n.branch_id)
unfolding add_nodes add_node
add_nodes-WellFormed [] g w = (w, refl, λ j k. k, λ n h. absurd h)
add_nodes-WellFormed (n ∷ ns) g w =
    let (i, g') = ensure_or_insert n.branch_id g in
    let (w', e, k, s) = ensure_or_insert-Inserted n.branch_id g w in
    let (v, t, l, m) = add_nodes-WellFormed ns g' w' in
    (
      v,
      t ∙ s,
      λ j (x, h). l j (x, k j x h),
      λ r h.
          ⊎_elim
            (λ (q : r ≡ n).
              subst (λ (y : NodeRow). Known (add_nodes ns g') y.branch_id) (sym q)
                (l n.branch_id (i, e)))
            (m r) h,
    )

-- What `add_edge_meta` leaves holds what it was given.
Extended-Holds :
    (a b : Uuid) (g g' : DagInner) (r : BranchResult (Unit {0}))
    → WellFormed g
    → Extended a b g r g'
    → Holds g g'
Extended-Holds a b g g' r w ((x, _), _, k, _, _, stay) = (
  λ j (i, h). (i, k j i h),
  λ c d (i, j, p, q, e).
      (i, j, (x c i).0 (k c i ((w.0 c i).1 p)), (x d j).0 (k d j ((w.0 d j).1 q)), stay i j e),
)

module _ (is_cyclic_directed : DagInner → Bool) (finds : FindsCycles is_cyclic_directed)
    (edges : List EdgeRow) where
  -- An edge row that stands in the graph.
  abbrev Present : DagInner → ℕ → Type 0
  Present g i =
      (e : EdgeRow) → get_elem? edges i ≡ some e → Linked g (Joins g) e.parent_id e.child_id

  insert_edges-Present :
      (is : List ℕ) (g g' : DagInner)
      → WellFormed g
      → Acyclic g.edges
      → insert_edges is_cyclic_directed edges is g ≡ ok g'
      → WellFormed g' × Acyclic g'.edges × Holds g g' × ((i : ℕ) → In i is → Present g' i)
  unfolding insert_edges
  insert_edges-Present [] g g' w y h =
      subst
        (λ (x : DagInner).
          WellFormed x × Acyclic x.edges × Holds g x × ((i : ℕ) → In i [] → Present x i))
        (ok-eq g g' h) (w, y, (λ j k. k, λ a b l. l), λ i b. absurd b)
  insert_edges-Present (i ∷ is) g g' w y h = elim (Option-cases (get_elem? edges i)) [
    | inl q ↦
        let (v, z, o, p) = insert_edges-Present is g g' w y (rw (insert_edges, q) at h) in
        (
          v,
          z,
          o,
          λ j k. ⊎_elim (λ (s : j ≡ i) e u. absurd (none≢some e (sym q ∙ (rw s at u)))) (p j) k,
        )
    | inr (e, q) ↦
        let r = add_edge_meta is_cyclic_directed e.parent_id e.child_id e.meta g in
        let x =
          add_edge_meta-Extended is_cyclic_directed finds e.parent_id e.child_id e.meta g w y in
        let (u, done, rest) =
          then-ok r.0 (λ _. insert_edges is_cyclic_directed edges is r.1) g'
            (rw (insert_edges, q) at h) in
        let (v, z, (kn, ln), p) = insert_edges-Present is r.1 g' x.0 x.1 rest in
        let (kn₀, ln₀) = Extended-Holds e.parent_id e.child_id g r.1 r.0 w x in
        (
          v,
          z,
          (λ j k. kn j (kn₀ j k), λ a b l. ln a b (ln₀ a b l)),
          λ j k.
              ⊎_elim
                (λ (s : j ≡ i) f t.
                  let same = some-eq e f (sym q ∙ (rw s at t)) in
                  subst (λ (d : EdgeRow). Linked g' (Joins g') d.parent_id d.child_id) same
                    (ln e.parent_id e.child_id (x.3 done)))
                (p j) k,
        )
  ]

In-get_elem? : {A : Type 0} (xs : List A) (x : A) → In x xs → (i : ℕ) × (get_elem? xs i ≡ some x)
In-get_elem? [] x h = absurd h
In-get_elem? (y ∷ ys) x (inl e) = (0, ap some (sym e))
In-get_elem? (y ∷ ys) x (inr h) = let (i, e) = In-get_elem? ys x h in (suc i, e)

abbrev pub none_loaded : DagInner
none_loaded = record { nodes = []; edges = []; node_index = [] }

abbrev pub own_nodes : Uuid → Tables → List NodeRow
own_nodes w t = keep (in_workspace w) t.dag_nodes

none_loaded-WellFormed : WellFormed none_loaded
none_loaded-WellFormed = (
  λ id i. (λ h. absurd (none≢some i h), λ h. absurd (none≢some id h)),
  λ u v h. absurd (true≢false (sym h)),
)

no-walk : (u v : ℕ) → ¬ Chain (λ i j. any (joins i j) [] ≡ true) u v
no-walk u v (once h) = true≢false (sym h)
no-walk u v (again k h) = true≢false (sym h)

-- Loading ends. When it does not fail, the graph is well-formed and without cycles, every node row
-- of the workspace has a node in it, and every edge row whose ends are nodes of the workspace is an
-- edge of it.
pub load_graph_complete :
    (is_cyclic_directed : DagInner → Bool)
    → FindsCycles is_cyclic_directed
    → (w : Uuid) (t : Tables)
    → (r : BranchResult DagInner) × (load_graph is_cyclic_directed w t ≡ some r)
      × ((g : DagInner)
          → r ≡ ok g
          → WellFormed g
            × Acyclic g.edges
            × ((n : NodeRow) → In n (own_nodes w t) → Known g n.branch_id)
            × ((e : EdgeRow) → In e (edge_rows w t) → Linked g (Joins g) e.parent_id e.child_id))
unfolding load_graph
load_graph_complete is_cyclic_directed finds w t =
    let edges = edge_rows w t in
    let (order, e, all_in) = insert_order_of-all edges in
    let (v, s, _, known) =
      add_nodes-WellFormed (own_nodes w t) none_loaded none_loaded-WellFormed in
    let start = add_nodes (own_nodes w t) none_loaded in
    (
      insert_edges is_cyclic_directed edges order start,
      rw (load_graph, e) refl,
      λ g h.
          let (a, b, (keeps, _), p) =
            insert_edges-Present is_cyclic_directed finds edges order start g v
              (subst Acyclic (sym s) (λ u. no-walk u u)) h in
          (
            a,
            b,
            λ n i. keeps n.branch_id (known n i),
            λ x i.
                let (j, q) = In-get_elem? edges x i in
                p j (all_in j (get_elem?-lt edges j x q)) x q,
          ),
    )
