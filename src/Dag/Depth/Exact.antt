-- ===== src/Dag/Depth/Exact.antt =====
-- The depth of a branch, over the edges of the graph.
use claw_branch.Shared.{
  ℕ, zero, suc, ◌<◌, arith, ◌≡◌, refl, sym, subst, ◌∙◌, ◌↔◌, inl, inr, ⊎_elim, true, some,
  Option-cases, List, [], ◌∷◌, length, is_empty, In, In-keep, keep-In, In-append,
}
use mathlib.Core.Bool.{true≢false}
use claw_branch.Failure.{BranchResult, ok, err, dag_node_not_found, ok-eq, ok≢err}
use claw_branch.Types.{Uuid}
use claw_branch.Dag.{DagInner, index_of}
use claw_branch.Dag.Query.{
  Direction, incoming, outgoing, node_indices, and_then, node_of, found, node_count,
}
use claw_branch.Dag.Query.Index.{
  Joins, WellFormed, ListsNeighbors, none≢some, In-node_indices, length-node_indices,
}
use claw_branch.Dag.Depth.{enter_all, level_loop, root_nodes, depth_map, depth_of}
use claw_branch.Dag.Depth.Spread.{Far, here, step, keys-index_of}
use claw_branch.Dag.Depth.Measured.{enter_all-Measured}

-- A node without a parent, and the walks down from one.
abbrev pub RootNode : DagInner → ℕ → Type 0
RootNode g v = (v < length g.nodes) × ((u : ℕ) → ¬ Joins g u v)

-- A chain of `d` edges from a root down to a node.
pub data Below (g : DagInner) : ℕ → ℕ → Type 0 where
  top : {v : ℕ} → RootNode g v → Below g v 0
  down : {u v d : ℕ} → Below g u d → Joins g u v → Below g v (suc d)

empty-In : (xs : List ℕ) → is_empty xs ≡ true → (v : ℕ) → ¬ In v xs
empty-In [] h v i = i
empty-In (x ∷ xs) h v i = true≢false (sym h)

In-empty : (xs : List ℕ) → ((v : ℕ) → ¬ In v xs) → is_empty xs ≡ true
In-empty [] h = refl
In-empty (x ∷ xs) h = absurd (h x (inl refl))

In-node_indices-lt : (v n : ℕ) → In v (node_indices n) → v < n
In-node_indices-lt v zero h = absurd h
In-node_indices-lt v (suc n) h =
    ⊎_elim (λ i. omega (arith, In-node_indices-lt v n i))
      (λ i. ⊎_elim (λ e. omega (arith, e)) (λ b. absurd b) i)
      (In-append v (node_indices n) (n ∷ []) h)

module _ (neighbors_directed : DagInner → ℕ → Direction → List ℕ)
    (law : ListsNeighbors neighbors_directed) where
  abbrev children : DagInner → ℕ → List ℕ
  children g u = neighbors_directed g u outgoing

  root_nodes-RootNode :
      (g : DagInner) (v : ℕ) → In v (root_nodes neighbors_directed g) ↔ RootNode g v
  unfolding root_nodes
  root_nodes-RootNode g v =
      let orphan = λ (n : ℕ). is_empty (neighbors_directed g n incoming) in
      (
        λ h.
            let (i, e) = In-keep orphan (node_indices (length g.nodes)) h in
            (
              In-node_indices-lt v (length g.nodes) i,
              λ u j. empty-In (neighbors_directed g v incoming) e u ((law g u v).0.1 j),
            ),
        λ (l, n).
            keep-In orphan (node_indices (length g.nodes)) (In-node_indices v (length g.nodes) l)
              (In-empty (neighbors_directed g v incoming) (λ u h. n u ((law g u v).0.0 h))),
      )

  Far-Below : (g : DagInner) (v d : ℕ) → Far (RootNode g) (children g) v d → Below g v d
  Far-Below g v d (here h) = top h
  Far-Below g v d (step {u = u} {d = c} f i) = down (Far-Below g u c f) ((law g u v).1.0 i)

  Below-Far : (g : DagInner) (v d : ℕ) → Below g v d → Far (RootNode g) (children g) v d
  Below-Far g v d (top h) = here h
  Below-Far g v d (down {u = u} {d = c} b i) = step (Below-Far g u c b) ((law g u v).1.1 i)

  pub depth_map-measured :
      (g : DagInner)
      → WellFormed g
      → (m : List (ℕ × ℕ)) × (depth_map neighbors_directed g ≡ some m)
        × ((v d : ℕ) → index_of v m ≡ some d → Below g v d × (d < length g.nodes))
        × ((v d : ℕ) → Below g v d → (e : ℕ) × (index_of v m ≡ some e))
  unfolding depth_map
  depth_map-measured g (x, r) =
      let n = length g.nodes in
      let univ = node_indices n in
      let (m, e, (k, c)) =
        enter_all-Measured (RootNode g) (children g) univ
          (λ u v h. In-node_indices v n (r u v ((law g u v).1.0 h)).1)
          (root_nodes neighbors_directed g) (root_nodes-RootNode g)
          (λ v h. In-node_indices v n h.0) in
      (
        m,
        subst
            (λ f.
              level_loop (children g) f
                (enter_all 0 (root_nodes neighbors_directed g) (record { depths = []; queue = [] }))
              ≡ some m)
            (length-node_indices n) e,
        λ v d h.
            let (f, l) = k v d h in (Far-Below g v d f, omega (arith, l, length-node_indices n)),
        λ v d b. keys-index_of v m (c v d (Below-Far g v d b)),
      )

-- On a well-formed graph `depth_of` returns for every known branch. A depth that it returns is below
-- the number of nodes and is the length of a walk from a root to the branch; it fails only on a
-- branch that no walk from a root leads to.
pub depth_of-bounded :
    (neighbors_directed : DagInner → ℕ → Direction → List ℕ)
    → ListsNeighbors neighbors_directed
    → (g : DagInner) (id : Uuid) (i : ℕ) → WellFormed g
    → index_of id g.node_index ≡ some i
    → (r : BranchResult ℕ) × (depth_of neighbors_directed id g ≡ some r)
      × ((d : ℕ) → r ≡ ok d → Below g i d × (d < node_count g))
      × ((d : ℕ) → Below g i d → (e : ℕ) × (r ≡ ok e))
unfolding depth_of node_count
depth_of-bounded neighbors_directed law g id i w k =
    let (m, e, exact, complete) = depth_map-measured neighbors_directed law g w in
    elim (Option-cases (index_of i m)) [
      | inl q ↦ (
        err (dag_node_not_found id),
        rw (depth_of, and_then, node_of, k, found, e, q) refl,
        λ d h. absurd (ok≢err d (dag_node_not_found id) (sym h)),
        λ d b. let (x, p) = complete i d b in absurd (none≢some x (sym q ∙ p)),
      )
      | inr (d, q) ↦ (
        ok d,
        rw (depth_of, and_then, node_of, k, found, e, q) refl,
        λ c h. subst (λ y. Below g i y × (y < length g.nodes)) (ok-eq d c h) (exact i d q),
        λ c b. (d, refl),
      )
    ]
