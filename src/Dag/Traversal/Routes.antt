-- ===== src/Dag/Traversal/Routes.antt =====
-- The paths between two branches.
use claw_branch.Shared.{
  ℕ, suc, ◌<◌, arith, ◌≡◌, refl, sym, ◌∙◌, subst, ◌↔◌, inl, inr, ⊎_elim, some, List, [], ◌∷◌,
  length, In, Distinct,
}
use claw_branch.Failure.{ok}
use claw_branch.Types.{Uuid}
use claw_branch.Dag.{DagInner, index_of}
use claw_branch.Dag.Query.{Direction, outgoing, weights, node_indices, and_then, node_of, found}
use claw_branch.Dag.Query.Index.{
  Joins, WellFormed, ListsNeighbors, get_elem?-lt, some-eq, weights-listed, In-node_indices,
  length-node_indices,
}
use claw_branch.Dag.Traversal.{all_paths, named_paths}
use claw_branch.Dag.Traversal.Paths.{Steps, end_of, Listed, dfs_paths-Listed, dfs_paths-some}

-- The nodes after `u` along the edges of the graph.
abbrev pub Along : DagInner → ℕ → List ℕ → Type 0
Along g u [] = Unit
Along g u (v ∷ vs) = Joins g u v × Along g v vs

-- A path along the edges from one node to another on which no node comes twice.
abbrev pub SimplePath : DagInner → ℕ → ℕ → List ℕ → Type 0
SimplePath g i j p =
    (rest : List ℕ) × (p ≡ i ∷ rest) × Along g i rest × (end_of i rest ≡ j) × Distinct p

named_paths-In :
    (g : DagInner) (ps : List (List ℕ))
    → ((p : List ℕ) → In p ps → (n : ℕ) → In n p → n < length g.nodes)
    → (ws : List (List Uuid)) × (named_paths g ps ≡ some ws)
      × ((w : List Uuid) → In w ws ↔ ((p : List ℕ) × In p ps × (weights g p ≡ some w)))
unfolding named_paths
named_paths-In g [] h = ([], refl, λ w. (λ b. absurd b, λ k. absurd k.1))
named_paths-In g (p ∷ ps) h =
    let (w, e, _) = weights-listed g p (h p (inl refl)) in
    let (ws, q, k) = named_paths-In g ps (λ r i. h r (inr i)) in
    (
      w ∷ ws,
      rw (named_paths, e, q) refl,
      λ v. (
        λ i.
            ⊎_elim (λ (r : v ≡ w). (p, inl refl, rw r e))
              (λ j. let (x, a, b) = (k v).0 j in (x, inr a, b)) i,
        λ (x, a, b).
            ⊎_elim (λ (r : x ≡ p). inl (sym (some-same w v (sym e ∙ (rw r at b)))))
              (λ j. inr ((k v).1 (x, j, b))) a,
      ),
    )
  where
    some-same : (x y : List Uuid) → some x ≡ some y → x ≡ y
    some-same x y z = some-eq x y z

module _ (neighbors_directed : DagInner → ℕ → Direction → List ℕ)
    (law : ListsNeighbors neighbors_directed) where
  abbrev children : DagInner → ℕ → List ℕ
  children g u = neighbors_directed g u outgoing

  Steps-Along : (g : DagInner) (u : ℕ) (vs : List ℕ) → Steps (children g) u vs ↔ Along g u vs
  Steps-Along g u [] = (λ h. h, λ h. h)
  Steps-Along g u (v ∷ vs) =
      let (down, up) = Steps-Along g v vs in
      (λ (i, s). ((law g u v).1.0 i, down s), λ (i, s). ((law g u v).1.1 i, up s))

  Along-lt :
      (g : DagInner) (u : ℕ) (vs : List ℕ)
      → WellFormed g
      → Along g u vs
      → (n : ℕ) → In n vs
      → n < length g.nodes
  Along-lt g u [] w a n i = absurd i
  Along-lt g u (v ∷ vs) (x, r) (j, a) n i =
      ⊎_elim (λ (q : n ≡ v). rw q (r u v j).1) (Along-lt g v vs (x, r) a n) i

  Listed-SimplePath :
      (g : DagInner) (i j : ℕ) (ps : List (List ℕ))
      → Listed (children g) j i (i ∷ []) (i ∷ []) ps
      → (p : List ℕ) → In p ps ↔ SimplePath g i j p
  Listed-SimplePath g i j ps k p = (
    λ h.
        let (rest, e, (s, q, d, a)) = (k p).0 h in
        (rest, e, (Steps-Along g i rest).0 s, q, subst Distinct (sym e) (λ x. a i x (inl refl), d)),
    λ (rest, e, s, q, d).
        let (n, d') = subst Distinct e d in
        (k p).1 (
          rest,
          e,
          (
            (Steps-Along g i rest).1 s,
            q,
            d',
            λ v x y. ⊎_elim (λ (z : v ≡ i). n (subst (λ u. In u rest) z x)) (λ b. b) y,
          ),
        ),
  )

  -- `all_paths` ends on two known branches of a well-formed graph: it lists the identifiers along
  -- each path between them on which no node comes twice, and nothing else.
  pub all_paths-exact :
      (g : DagInner) (source target : Uuid) (i j : ℕ)
      → WellFormed g
      → index_of source g.node_index ≡ some i
      → index_of target g.node_index ≡ some j
      → (results : List (List Uuid)) × (all_paths neighbors_directed source target g
          ≡ some (ok results))
        × ((w : List Uuid)
            → In w results ↔ ((p : List ℕ) × SimplePath g i j p × (weights g p ≡ some w)))
  unfolding all_paths
  all_paths-exact g source target i j (x, r) ei ej =
      let n = length g.nodes in
      let lt = get_elem?-lt g.nodes i source ((x source i).0 ei) in
      let (ps, q) =
        dfs_paths-some (children g) j (node_indices n)
          (λ u v h. In-node_indices v n (r u v ((law g u v).1.0 h)).1) (suc n) i (i ∷ []) (i ∷ [])
          (λ b. b, tt)
          (λ v h. ⊎_elim (λ (z : v ≡ i). rw z (In-node_indices i n lt)) (λ b. absurd b) h)
          (omega (arith, length-node_indices n)) in
      let simple =
        Listed-SimplePath g i j ps
          (dfs_paths-Listed (children g) j (suc n) i (i ∷ []) (i ∷ []) ps (inl refl) q) in
      let (ws, e, k) = named_paths-In g ps (λ p h m o.
        let (rest, z, s, _, _) = (simple p).0 h in
        ⊎_elim (λ (y : m ≡ i). rw y lt) (Along-lt g i rest (x, r) s m) (subst (λ l. In m l) z o)) in
      (
        ws,
        rw (all_paths, and_then, node_of, ei, ej, found, q, e) refl,
        λ w. (
          λ h. let (p, a, b) = (k w).0 h in (p, (simple p).0 a, b),
          λ (p, a, b). (k w).1 (p, (simple p).1 a, b),
        ),
      )
