-- ===== src/Dag/Traversal/Descent.antt =====
-- The walk down from a branch.
use claw_branch.Shared.{
  ℕ, suc, ◌≡◌, ◌≢◌, refl, sym, ◌∙◌, ◌↔◌, inl, ⊎_elim, some, List, [], ◌∷◌, length, In, Distinct,
}
use claw_branch.Failure.{ok}
use claw_branch.Types.{Uuid}
use claw_branch.Dag.{DagInner, index_of}
use claw_branch.Dag.Search.{queue, loop}
use claw_branch.Dag.Query.{Direction, outgoing, weights, and_then, node_of, found}
use claw_branch.Dag.Query.Index.{Joins, WellFormed, ListsNeighbors, get_elem?-lt, some-eq}
use claw_branch.Dag.Query.Walked.{Chain, once, again, walk-listed, same_index}
use claw_branch.Dag.Query.Lineage.{Known, Ancestor}
use claw_branch.Dag.Traversal.{subtree_of}

-- A chain read from its other end.
Chain-front : {R : Uuid → Uuid → Type 0} {a b c : Uuid} → R a b → Chain R b c → Chain R a c
Chain-front r (once s) = again (once r) s
Chain-front r (again k s) = again (Chain-front r k) s

Chain-flip :
    {R S : Uuid → Uuid → Type 0} {a b : Uuid}
    → ((x y : Uuid) → R x y → S y x)
    → Chain R a b
    → Chain S b a
Chain-flip {a = a} {b = b} f (once r) = once (f a b r)
Chain-flip {R = R} {S = S} {b = c} f (again {b = b} k r) = Chain-front (f b c r) (Chain-flip f k)

module _ (neighbors_directed : DagInner → ℕ → Direction → List ℕ) where
  subtree_of-listed :
      (g : DagInner) (id : Uuid) (i : ℕ) (out : List ℕ) (ws : List Uuid)
      → index_of id g.node_index ≡ some i
      → loop queue
          (λ u. neighbors_directed g u outgoing)
          (suc (length g.nodes))
          (record { seen = i ∷ []; output = []; pending = i ∷ [] })
        ≡ some out
      → weights g out ≡ some ws
      → subtree_of neighbors_directed id g ≡ some (ok ws)
  unfolding subtree_of
  subtree_of-listed g id i out ws e q r = rw (subtree_of, and_then, node_of, e, found, q, r) refl

  -- `subtree_of` ends on every known branch of a well-formed graph: it lists each other branch that
  -- has the given one as an ancestor once, and no other.
  pub subtree_of-exact :
      ListsNeighbors neighbors_directed
      → (g : DagInner) (id : Uuid) → WellFormed g
      → Known g id
      → (ids : List Uuid) × (subtree_of neighbors_directed id g ≡ some (ok ids))
        × Distinct ids
        × ((b : Uuid) → In b ids ↔ (Ancestor g b id × (b ≢ id)))
  subtree_of-exact law g id (indexed, in_range) (i, e) =
      let known = (indexed id i).0 e in
      let (out, ws, q, r, single, listed) =
        walk-listed g (Joins g) (λ u. neighbors_directed g u outgoing) indexed
          (λ u v. (law g u v).1) (λ u v h. (in_range u v h).1) queue i id (i ∷ []) (id ∷ []) known
          (λ h. h, tt) (λ u h. ⊎_elim (λ p. p) (λ b. absurd b) h)
          (λ u b f. (
            λ h. ⊎_elim (λ p. inl (some-eq b id (sym f ∙ (rw p known)))) (λ x. absurd x) h,
            λ h.
                ⊎_elim (λ p. inl (same_index g u i id indexed (rw p at f) known)) (λ x. absurd x) h,
          ))
          (get_elem?-lt g.nodes i id known) in
      (
        ws,
        subtree_of-listed g id i out ws e q r,
        single,
        λ b. (
          λ h.
              let (c, n) = (listed b).0 h in
              (Chain-flip (λ x y (u, v, p, s, j). (v, u, s, p, j)) c, λ p. n (inl p)),
          λ (c, n).
              (listed b).1
                (Chain-flip (λ x y (u, v, p, s, j). (v, u, s, p, j)) c, λ h. ⊎_elim n (λ x. x) h),
        ),
      )
