-- ===== src/Dag/Query/Lineage.antt =====
-- Ancestors and common ancestors of a well-formed graph.
use claw_branch.Shared.{
  ℕ, suc, arith, ◌≡◌, refl, sym, ◌∙◌, subst, ◌↔◌, ◌⊎◌, inl, inr, ⊎_elim, Bool, true, false,
  Bool-cases, Option, none, some, List, [], ◌∷◌, ◌++◌, length, In, Distinct, ◌==◌, ==_iff,
  In-append, In-append_left, In-append_right,
}
use mathlib.Core.Bool.{true≢false}
use claw_branch.Failure.{ok}
use claw_branch.Types.{Uuid}
use claw_branch.Dag.{DagInner, index_of}
use claw_branch.Dag.Search.{stack, loop}
use claw_branch.Dag.Query.{
  Direction, incoming, weights, ancestors_of, is_ancestor, find_merge_base, contains, find_first,
  and_then, node_of, found,
}
use claw_branch.Dag.Query.Index.{
  Joins, WellFormed, ListsNeighbors, get_elem?-lt, none≢some, some-eq,
}
use claw_branch.Dag.Query.Walked.{Chain, Linked, walk-listed}

-- A branch above another one in the graph, by one edge or more.
abbrev pub Ancestor : DagInner → Uuid → Uuid → Type 0
Ancestor g id a = Chain (Linked g (λ i j. Joins g j i)) id a

abbrev pub AncestorOrSelf : DagInner → Uuid → Uuid → Type 0
AncestorOrSelf g id a = (a ≡ id) ⊎ Ancestor g id a

abbrev pub Known : DagInner → Uuid → Type 0
Known g id = (i : ℕ) × (index_of id g.node_index ≡ some i)

pub contains-In : (ids : List Uuid) (a : Uuid) → (contains ids a ≡ true) ↔ In a ids
contains-In [] a = (λ h. cc, λ h. absurd h)
contains-In (x ∷ xs) a = ground (arith, contains-In xs a)

find_first-In :
    (p : Uuid → Bool) (xs : List Uuid) (a : Uuid)
    → find_first p xs ≡ some a
    → In a xs × (p a ≡ true)
find_first-In p [] a h = cc
find_first-In p (x ∷ xs) a h = elim (Bool-cases (p x)) [
  | inl e ↦ let q = some-eq x a (rw e at h) in (inl (sym q), subst (λ y. p y ≡ true) q e)
  | inr e ↦ let (i, q) = find_first-In p xs a (rw e at h) in (inr i, q)
]

find_first-none :
    (p : Uuid → Bool) (xs : List Uuid) (a : Uuid) → find_first p xs ≡ none → In a xs → p a ≡ false
find_first-none p [] a h i = absurd i
find_first-none p (x ∷ xs) a h i = elim (Bool-cases (p x)) [
  | inl e ↦ absurd (none≢some x (sym (rw e at h)))
  | inr e ↦ ⊎_elim (λ (q : a ≡ x). rw q e) (find_first-none p xs a (rw e at h)) i
]

module _ (neighbors_directed : DagInner → ℕ → Direction → List ℕ) where
  ancestors_of-listed :
      (g : DagInner) (id : Uuid) (i : ℕ) (out : List ℕ) (ws : List Uuid)
      → index_of id g.node_index ≡ some i
      → loop stack
          (λ u. neighbors_directed g u incoming)
          (suc (length g.nodes))
          (record { seen = []; output = []; pending = i ∷ [] })
        ≡ some out
      → weights g out ≡ some ws
      → ancestors_of neighbors_directed id g ≡ some (ok ws)
  unfolding ancestors_of
  ancestors_of-listed g id i out ws e q r =
      rw (ancestors_of, and_then, node_of, e, found, q, r) refl

  -- `ancestors_of` ends on every branch of a well-formed graph: it lists each branch above the given
  -- one once, and no other.
  pub ancestors_of-exact :
      ListsNeighbors neighbors_directed
      → (g : DagInner) (id : Uuid) → WellFormed g
      → Known g id
      → (ids : List Uuid) × (ancestors_of neighbors_directed id g ≡ some (ok ids))
        × Distinct ids
        × ((a : Uuid) → In a ids ↔ Ancestor g id a)
  unfolding ancestors_of
  ancestors_of-exact law g id (indexed, in_range) (i, e) =
      let known = (indexed id i).0 e in
      let (out, ws, q, r, single, listed) =
        walk-listed g (λ u v. Joins g v u) (λ u. neighbors_directed g u incoming) indexed
          (λ u v. (law g v u).0) (λ u v h. (in_range v u h).0) stack i id [] [] known tt
          (λ u h. absurd h) (λ u b f. (λ h. h, λ h. h)) (get_elem?-lt g.nodes i id known) in
      (
        ws,
        ancestors_of-listed g id i out ws e q r,
        single,
        λ a. (λ h. ((listed a).0 h).0, λ c. (listed a).1 (c, λ h. h)),
      )

  -- The test of ancestry answers on branches that are known, and it decides the relation.
  pub is_ancestor-exact :
      ListsNeighbors neighbors_directed
      → (g : DagInner) (a id : Uuid) → WellFormed g
      → Known g id
      → (answer : Bool) × (is_ancestor neighbors_directed a id g ≡ some (ok answer))
        × ((answer ≡ true) ↔ AncestorOrSelf g id a)
  unfolding is_ancestor
  is_ancestor-exact law g a id w k = elim (Bool-cases (a == id)) [
    | inl e ↦ (true, rw (is_ancestor, e) refl, (λ _. inl ((==_iff a id).0 e), λ _. refl))
    | inr e ↦
        let (ids, q, single, listed) = ancestors_of-exact law g id w k in
        (
          contains ids a,
          rw (is_ancestor, e, q) refl,
          (
            λ h. inr ((listed a).0 ((contains-In ids a).0 h)),
            λ h.
                ⊎_elim (λ (p : a ≡ id). ground (arith, ==_iff a id))
                  (λ c. (contains-In ids a).1 ((listed a).1 c)) h,
          ),
        )
  ]

  -- `find_merge_base` ends on two known branches; what it returns is above both or one of them
  -- itself, and it returns `None` only when no branch is.
  pub find_merge_base-common :
      ListsNeighbors neighbors_directed
      → (g : DagInner) (a b : Uuid) → WellFormed g
      → Known g a
      → Known g b
      → (base : Option Uuid) × (find_merge_base neighbors_directed a b g ≡ some (ok base))
        × ((c : Uuid) → base ≡ some c → AncestorOrSelf g a c × AncestorOrSelf g b c)
        × (base ≡ none → (c : Uuid) → AncestorOrSelf g a c → ¬ AncestorOrSelf g b c)
  unfolding find_merge_base
  find_merge_base-common law g a b w ka kb = elim (Bool-cases (a == b)) [
    | inl e ↦ (
      some a,
      rw (find_merge_base, e) refl,
      λ c h. let q = some-eq a c h in (inl (sym q), inl (sym q ∙ (==_iff a b).0 e)),
      λ h. absurd (none≢some a (sym h)),
    )
    | inr e ↦
        let (above_a, qa, sa, la) = ancestors_of-exact law g a w ka in
        let (above_b, qb, sb, lb) = ancestors_of-exact law g b w kb in
        let set = above_a ++ a ∷ [] in
        let above : (c : Uuid) → contains set c ≡ true → AncestorOrSelf g a c = λ c h.
          ⊎_elim (λ i. inr ((la c).0 i)) (λ i. ⊎_elim inl (λ x. absurd x) i)
            (In-append c above_a (a ∷ []) ((contains-In set c).0 h)) in
        let member : (c : Uuid) → AncestorOrSelf g a c → contains set c ≡ true = λ c h.
          (contains-In set c).1 (
            ⊎_elim (λ q. In-append_right c above_a (a ∷ []) (inl q))
              (λ i. In-append_left c above_a (a ∷ []) ((la c).1 i)) h) in
        elim (Bool-cases (contains set b)) [
          | inl f ↦ (
            some b,
            rw (find_merge_base, e, qa, f) refl,
            λ c h. let q = some-eq b c h in (subst (AncestorOrSelf g a) q (above b f), inl (sym q)),
            λ h. absurd (none≢some b (sym h)),
          )
          | inr f ↦ (
            find_first (contains set) above_b,
            rw (find_merge_base, e, qa, f, qb) refl,
            λ c h.
                let (i, p) = find_first-In (contains set) above_b c h in
                (above c p, inr ((lb c).0 i)),
            λ h c x y. true≢false (
                sym (member c x)
                ∙ ⊎_elim (λ (q : c ≡ b). rw q f)
                    (λ i. find_first-none (contains set) above_b c h ((lb c).1 i)) y),
          )
        ]
  ]
