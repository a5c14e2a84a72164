-- ===== src/Dag/Traversal/Common.antt =====
-- The lowest common ancestor.
use claw_branch.Shared.{
  ℕ, ◌≤◌, arith, ◌≡◌, refl, sym, ◌∙◌, subst, ◌⊎◌, inl, inr, ⊎_elim, Bool-cases, Option, none, some,
  Option-cases, List, [], ◌∷◌, In, In-keep, keep, keep-In, ◌==◌, ==_iff, if◌then◌else◌,
}
use claw_branch.Failure.{ok}
use claw_branch.Types.{Uuid}
use claw_branch.Dag.{DagInner}
use claw_branch.Dag.Query.{Direction, and_then, found, contains, ancestors_of}
use claw_branch.Dag.Query.Index.{WellFormed, ListsNeighbors, some-eq, none≢some}
use claw_branch.Dag.Query.Lineage.{Known, AncestorOrSelf, contains-In, ancestors_of-exact}
use claw_branch.Dag.Depth.{depth_map}
use claw_branch.Dag.Depth.Exact.{depth_map-measured}
use claw_branch.Dag.Traversal.{
  dfs_ancestor_set, lowest_common_ancestor, deepest, beats, depth_or_zero,
}

deepest-some : (depth : Uuid → ℕ) (x : Uuid) (xs : List Uuid) → ¬ (deepest depth (x ∷ xs) ≡ none)
deepest-some depth x xs h = elim (Option-cases (deepest depth xs)) [
  | inl e ↦ none≢some x (sym h ∙ rw e refl)
  | inr (y, e) ↦ none≢some (if beats depth y x then y else x) (sym h ∙ rw e refl)
]

deepest-empty :
    (depth : Uuid → ℕ) (ys : List Uuid) → deepest depth ys ≡ none → (d : Uuid) → ¬ In d ys
deepest-empty depth [] e d j = j
deepest-empty depth (y ∷ ys) e d j = deepest-some depth y ys e

-- The choice stands in the list and no member is deeper.
deepest-max :
    (depth : Uuid → ℕ) (xs : List Uuid) (c : Uuid)
    → deepest depth xs ≡ some c
    → In c xs × ((d : Uuid) → In d xs → depth d ≤ depth c)
deepest-max depth [] c h = absurd (none≢some c h)
deepest-max depth (x ∷ xs) c h = elim (Option-cases (deepest depth xs)) [
  | inl e ↦
      let q = some-eq x c (rw e at h) in
      (
        inl (sym q),
        λ d i.
            ⊎_elim (λ (p : d ≡ x). rw (p, q) (omega arith))
              (λ j. absurd (deepest-empty depth xs e d j)) i,
      )
  | inr (y, e) ↦
      let (i, m) = deepest-max depth xs y e in
      elim (Bool-cases (beats depth y x)) [
        | inl b ↦
            let q = some-eq y c (rw (e, b) at h) in
            (
              inr (subst (λ z. In z xs) q i),
              λ d j.
                  ⊎_elim (λ (p : d ≡ x). rw (p, sym q) (ground (arith, ==_iff (depth y) (depth x))))
                    (λ k. rw (sym q) (m d k)) j,
            )
        | inr b ↦
            let q = some-eq x c (rw (e, b) at h) in
            (
              inl (sym q),
              λ d j.
                  ⊎_elim (λ (p : d ≡ x). rw (p, q) (omega arith))
                    (λ (k : In d xs).
                      rw (sym q) (ground (arith, m d k, ==_iff (depth y) (depth x))))
                    j,
            )
      ]
]

module _ (neighbors_directed : DagInner → ℕ → Direction → List ℕ) where
  dfs_ancestor_set-ancestors_of :
      (id : Uuid) (g : DagInner)
      → dfs_ancestor_set neighbors_directed id g ≡ ancestors_of neighbors_directed id g
  unfolding dfs_ancestor_set ancestors_of
  dfs_ancestor_set-ancestors_of id g = refl

  -- `lowest_common_ancestor` ends on two known branches. What it returns is above both or one of them
  -- itself, and no such branch has a greater depth in the map of depths, which exists; it returns
  -- `None` only when there is no such branch.
  pub lowest_common_ancestor-deepest :
      ListsNeighbors neighbors_directed
      → (g : DagInner) (a b : Uuid) → WellFormed g
      → Known g a
      → Known g b
      → (lca : Option Uuid) × (depths : List (ℕ × ℕ)) × (lowest_common_ancestor neighbors_directed a
            b g
          ≡ some (ok lca))
        × (depth_map neighbors_directed g ≡ some depths)
        × ((c : Uuid)
            → lca ≡ some c
            → AncestorOrSelf g a c
              × AncestorOrSelf g b c
              × ((a ≡ b)
                  ⊎ ((d : Uuid)
                      → AncestorOrSelf g a d
                      → AncestorOrSelf g b d
                      → depth_or_zero g depths d ≤ depth_or_zero g depths c)))
        × (lca ≡ none → (c : Uuid) → AncestorOrSelf g a c → ¬ AncestorOrSelf g b c)
  unfolding lowest_common_ancestor
  lowest_common_ancestor-deepest law g a b w ka kb =
      let (depths, e, _, _) = depth_map-measured neighbors_directed law g w in
      elim (Bool-cases (a == b)) [
        | inl q ↦ (
          some a,
          depths,
          rw (lowest_common_ancestor, q) refl,
          e,
          λ c h.
              let p = some-eq a c h in
              (inl (sym p), inl (sym p ∙ (==_iff a b).0 q), inl ((==_iff a b).0 q)),
          λ h. absurd (none≢some a (sym h)),
        )
        | inr q ↦
            let (above_a, qa, sa, la) = ancestors_of-exact neighbors_directed law g a w ka in
            let (above_b, qb, sb, lb) = ancestors_of-exact neighbors_directed law g b w kb in
            let common = keep (contains (b ∷ above_b)) (a ∷ above_a) in
            let shared : (c : Uuid) → In c common → AncestorOrSelf g a c × AncestorOrSelf g b c =
              λ c i.
                let (j, t) = In-keep (contains (b ∷ above_b)) (a ∷ above_a) i in
                (
                  ⊎_elim inl (λ k. inr ((la c).0 k)) j,
                  ⊎_elim inl (λ k. inr ((lb c).0 k)) ((contains-In (b ∷ above_b) c).0 t),
                ) in
            let member : (c : Uuid) → AncestorOrSelf g a c → AncestorOrSelf g b c → In c common =
              λ c x y.
                keep-In (contains (b ∷ above_b)) (a ∷ above_a)
                  (⊎_elim inl (λ k. inr ((la c).1 k)) x)
                  ((contains-In (b ∷ above_b) c).1 (⊎_elim inl (λ k. inr ((lb c).1 k)) y)) in
            let depth = depth_or_zero g depths in
            (
              deepest depth common,
              depths,
              rw
                  (
                    lowest_common_ancestor,
                    q,
                    and_then,
                    e,
                    found,
                    dfs_ancestor_set-ancestors_of a g,
                    qa,
                    dfs_ancestor_set-ancestors_of b g,
                    qb,
                  )
                  refl,
              e,
              λ c h.
                  let (i, m) = deepest-max depth common c h in
                  let (x, y) = shared c i in (x, y, inr (λ d u v. m d (member d u v))),
              λ h c x y. deepest-empty depth common h c (member c x y),
            )
      ]
