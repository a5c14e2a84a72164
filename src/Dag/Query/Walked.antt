-- ===== src/Dag/Query/Walked.antt =====
-- A search over the indices, read as a walk over the identifiers of the branches.
use claw_branch.Shared.{
  ℕ, suc, ◌<◌, arith, ◌≡◌, sym, ◌∙◌, subst, ◌↔◌, inl, ⊎_elim, some, List, [], ◌∷◌, length, In,
  Distinct,
}
use claw_branch.Types.{Uuid}
use claw_branch.Dag.{DagInner}
use claw_branch.Dag.Search.{Discipline, Search, loop}
use claw_branch.Dag.Search.Invariant.{Reached, one, more}
use claw_branch.Dag.Search.Loop.{loop-Answer}
use claw_branch.Dag.Query.{get_elem?, weights, node_indices}
use claw_branch.Dag.Query.Index.{
  Indexed, some-eq, weights-listed, weights-Distinct, length-node_indices, In-node_indices,
  get_elem?-some,
}

-- One step or more of a relation.
pub data Chain (R : Uuid → Uuid → Type 0) (a : Uuid) : Uuid → Type 0 where
  once : {b : Uuid} → R a b → Chain R a b
  again : {b c : Uuid} → Chain R a b → R b c → Chain R a c

-- A relation between nodes, as one between their identifiers.
abbrev pub Linked : DagInner → (ℕ → ℕ → Type 0) → Uuid → Uuid → Type 0
Linked g J a b =
    (i : ℕ) × (j : ℕ) × (get_elem? g.nodes i ≡ some a) × (get_elem? g.nodes j ≡ some b) × J i j

pub same_index :
    (g : DagInner) (i j : ℕ) (a : Uuid)
    → Indexed g
    → get_elem? g.nodes i ≡ some a
    → get_elem? g.nodes j ≡ some a
    → i ≡ j
same_index g i j a x e f = some-eq i j (sym ((x a i).1 e) ∙ (x a j).1 f)

module _ (g : DagInner) (J : ℕ → ℕ → Type 0) (next : ℕ → List ℕ) (indexed : Indexed g)
    (steps : (u v : ℕ) → In v (next u) ↔ J u v)
    (in_range : (u v : ℕ) → J u v → v < length g.nodes) where
  Reached-lt : (i v : ℕ) → Reached next i v → v < length g.nodes
  Reached-lt i v (one h) = in_range i v ((steps i v).0 h)
  Reached-lt i v (more {u = u} r h) = in_range u v ((steps u v).0 h)

  Reached-Chain :
      (i v : ℕ) (a b : Uuid)
      → get_elem? g.nodes i ≡ some a
      → get_elem? g.nodes v ≡ some b
      → Reached next i v
      → Chain (Linked g J) a b
  Reached-Chain i v a b e f (one h) = once (i, v, e, f, (steps i v).0 h)
  Reached-Chain i v a b e f (more {u = u} r h) =
      let (m, q) = get_elem?-some g.nodes u (Reached-lt i u r) in
      again (Reached-Chain i u a m e q r) (u, v, q, f, (steps u v).0 h)

  Chain-Reached :
      (i : ℕ) (a b : Uuid)
      → get_elem? g.nodes i ≡ some a
      → Chain (Linked g J) a b
      → (v : ℕ) × (get_elem? g.nodes v ≡ some b) × Reached next i v
  Chain-Reached i a b e (once (k, v, p, q, h)) =
      (v, q, one ((steps i v).1 (subst (λ u. J u v) (same_index g k i a indexed p e) h)))
  Chain-Reached i a b e (again {b = m} r (k, v, p, q, h)) =
      let (u, f, w) = Chain-Reached i a m e r in
      (v, q, more w ((steps u v).1 (subst (λ x. J x v) (same_index g k u m indexed p f) h)))

  module _ (d : Discipline) (start : ℕ) (id : Uuid) (before : List ℕ) (ids : List Uuid)
      (known : get_elem? g.nodes start ≡ some id) (single : Distinct before)
      (only : (u : ℕ) → In u before → u ≡ start)
      (named : (u : ℕ) (b : Uuid) → get_elem? g.nodes u ≡ some b → In u before ↔ In b ids) where
    abbrev initial : Search
    initial = record { seen = before; output = []; pending = start ∷ [] }

    -- The walk ends, and it lists each identifier that is reached, but those it began with.
    pub walk-listed :
        start < length g.nodes
        → (out : List ℕ) × (ws : List Uuid) × (loop d next (suc (length g.nodes)) initial
            ≡ some out)
          × (weights g out ≡ some ws)
          × Distinct ws
          × ((b : Uuid) → In b ws ↔ (Chain (Linked g J) id b × (¬ In b ids)))
    walk-listed lt =
        let univ = node_indices (length g.nodes) in
        let (out, e, (single_out, answer)) =
          loop-Answer d next start before univ
            (λ u v h. In-node_indices v (length g.nodes) (in_range u v ((steps u v).0 h)))
            (suc (length g.nodes)) initial
            (
              (λ v h. ⊎_elim inl (λ b. absurd b) h),
              (λ v h. absurd h),
              (λ v. (inl, λ h. ⊎_elim (λ b. b) (λ b. absurd b) h)),
              (
                single,
                tt,
                λ v h.
                    In-node_indices v (length g.nodes)
                      (subst (λ u. u < length g.nodes) (sym (only v h)) lt),
              ),
            )
            (λ u h. ⊎_elim (λ q. inl (inl q)) (λ i. inl (inl (only u i))) h)
            (omega (arith, length-node_indices (length g.nodes))) in
        let lts = λ (v : ℕ) (h : In v out). Reached-lt start v ((answer v).0 h).0 in
        let (ws, q, listed) = weights-listed g out lts in
        (
          out,
          ws,
          e,
          q,
          weights-Distinct g out ws indexed single_out lts q,
          λ b. (
            λ h.
                let (v, i, f) = (listed b).0 h in
                let (r, n) = (answer v).0 i in
                (Reached-Chain start v id b known f r, λ k. n ((named v b f).1 k)),
            λ (c, n).
                let (v, f, r) = Chain-Reached start id b known c in
                (listed b).1 (v, (answer v).1 (r, λ k. n ((named v b f).0 k)), f),
          ),
        )
