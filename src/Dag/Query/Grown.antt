-- ===== src/Dag/Query/Grown.antt =====
-- Nodes and edges that are added to a well-formed graph.
use claw_branch.Shared.{
  ℕ, zero, suc, ◌<◌, arith, ◌≡◌, refl, sym, ap, ◌∙◌, subst, ◌⊎◌, inl, inr, ⊎_elim, Bool, true,
  false, Bool-cases, ◌||◌, none, some, Option-cases, List, [], ◌∷◌, ◌++◌, any, length,
  length-append, ◌==◌, ==_iff, ==_refl,
}
use mathlib.Core.Bool.{true≢false}
use claw_branch.Failure.{BranchResult, BranchError, ok, err, is_err, dag_cycle}
use claw_branch.Types.{Uuid}
use claw_branch.Dag.{DagInner, Edge, EdgeMeta, joins, index_of, ensure_or_insert, add_edge_meta}
use claw_branch.Dag.Query.{get_elem?}
use claw_branch.Dag.Query.Walked.{Chain, Linked}
use claw_branch.Dag.Query.Index.{Indexed, Joins, WellFormed, get_elem?-lt, none≢some, some-eq}

get_elem?-old :
    {A : Type 0} (xs ys : List A) (i : ℕ) → i < length xs → get_elem? (xs ++ ys) i ≡ get_elem? xs i
get_elem?-old [] ys i h = absurd (omega arith)
get_elem?-old (x ∷ xs) ys zero h = refl
get_elem?-old (x ∷ xs) ys (suc i) h = get_elem?-old xs ys i (omega arith)

get_elem?-last : {A : Type 0} (xs : List A) (x : A) → get_elem? (xs ++ x ∷ []) (length xs) ≡ some x
get_elem?-last [] x = refl
get_elem?-last (y ∷ xs) x = get_elem?-last xs x

-- The graph with one more node.
abbrev grown : Uuid → DagInner → DagInner
grown id g = record g {
  nodes = g.nodes ++ id ∷ [];
  node_index = (id, length g.nodes) ∷ g.node_index;
}

last_index :
    (id j : Uuid) (xs : List Uuid) (i : ℕ)
    → get_elem? (xs ++ id ∷ []) i ≡ some j
    → (i < length xs) ⊎ ((i ≡ length xs) × (j ≡ id))
last_index id j [] zero h = inr (refl, sym (some-eq id j h))
last_index id j [] (suc i) h = absurd (none≢some j h)
last_index id j (x ∷ xs) zero h = inl (omega arith)
last_index id j (x ∷ xs) (suc i) h =
    ⊎_elim (λ l. inl (omega (arith, l))) (λ (e, q). inr (ap suc e, q)) (last_index id j xs i h)

grown-Indexed :
    (id : Uuid) (g : DagInner) → index_of id g.node_index ≡ none → Indexed g → Indexed (grown id g)
grown-Indexed id g fresh x j i = elim (Bool-cases (j == id)) [
  | inl e ↦
      let q = (==_iff j id).0 e in
      (
        λ h.
            let p = some-eq (length g.nodes) i (rw e at h) in
            subst (λ k. get_elem? (g.nodes ++ id ∷ []) k ≡ some j) p
              (rw q (get_elem?-last g.nodes id)),
        λ h. rw e (
            ⊎_elim
              (λ l. absurd (
                none≢some i (
                  sym fresh
                  ∙ (x id i).1 (sym (get_elem?-old g.nodes (id ∷ []) i l) ∙ (rw q at h)))))
              (λ (p, _). ap some (sym p)) (last_index id j g.nodes i h)),
      )
  | inr e ↦ (
    λ h.
        let k = (x j i).0 (rw e at h) in
        get_elem?-old g.nodes (id ∷ []) i (get_elem?-lt g.nodes i j k) ∙ k,
    λ h. rw e (
        ⊎_elim (λ l. (x j i).1 (sym (get_elem?-old g.nodes (id ∷ []) i l) ∙ h))
          (λ (_, q). absurd (true≢false (sym ((==_iff j id).1 q) ∙ e)))
          (last_index id j g.nodes i h)),
  )
]

abbrev pub Inserted : Uuid → DagInner → ℕ → DagInner → Type 0
Inserted id g i g' =
    WellFormed g'
    × (index_of id g'.node_index ≡ some i)
    × ((j : Uuid) (k : ℕ) → index_of j g.node_index ≡ some k → index_of j g'.node_index ≡ some k)
    × (g'.edges ≡ g.edges)

ensure_or_insert-new :
    (id : Uuid) (g : DagInner)
    → index_of id g.node_index ≡ none
    → ensure_or_insert id g ≡ (length g.nodes, grown id g)
unfolding ensure_or_insert
ensure_or_insert-new id g e = rw (ensure_or_insert, e) refl

ensure_or_insert-old :
    (id : Uuid) (g : DagInner) (i : ℕ)
    → index_of id g.node_index ≡ some i
    → ensure_or_insert id g ≡ (i, g)
unfolding ensure_or_insert
ensure_or_insert-old id g i e = rw (ensure_or_insert, e) refl

pub grown-Inserted :
    (id : Uuid) (g : DagInner)
    → WellFormed g
    → index_of id g.node_index ≡ none
    → Inserted id g (length g.nodes) (grown id g)
grown-Inserted id g (x, r) e = (
  (
    grown-Indexed id g e x,
    λ u v h.
        let (a, b) = r u v h in
        let l = length-append g.nodes (id ∷ []) in (omega (arith, a, l), omega (arith, b, l)),
  ),
  rw (==_refl id) refl,
  λ j k h. elim (Bool-cases (j == id)) [
    | inl q ↦ absurd (none≢some k (sym e ∙ (rw ((==_iff j id).0 q) at h)))
    | inr q ↦ rw q h
  ],
  refl,
)

pub ensure_or_insert-Inserted :
    (id : Uuid) (g : DagInner)
    → WellFormed g
    → Inserted id g (ensure_or_insert id g).0 (ensure_or_insert id g).1
ensure_or_insert-Inserted id g w = elim (Option-cases (index_of id g.node_index)) [
  | inl e ↦
      subst (λ (r : ℕ × DagInner). Inserted id g r.0 r.1) (sym (ensure_or_insert-new id g e))
        (grown-Inserted id g w e)
  | inr (i, e) ↦
      subst (λ (r : ℕ × DagInner). Inserted id g r.0 r.1) (sym (ensure_or_insert-old id g i e))
        (w, e, λ j k h. h, refl)
]

any-snoc :
    {A : Type 0} (p : A → Bool) (xs : List A) (y : A) → any p (xs ++ y ∷ []) ≡ (any p xs || p y)
any-snoc p [] y = ground arith
any-snoc p (x ∷ xs) y = ground (arith, any-snoc p xs y)

-- An edge between two known nodes.
joined-WellFormed :
    (g : DagInner) (p c : ℕ) (a b : Uuid) (m : EdgeMeta)
    → WellFormed g
    → index_of a g.node_index ≡ some p
    → index_of b g.node_index ≡ some c
    → WellFormed (record g { edges = g.edges ++ record { source = p; target = c; meta = m } ∷ [] })
joined-WellFormed g p c a b m (x, r) ea eb = (
  x,
  λ u v h.
      let e : Edge = record { source = p; target = c; meta = m } in
      let old = r u v in
      let lp = get_elem?-lt g.nodes p a ((x a p).0 ea) in
      let lc = get_elem?-lt g.nodes c b ((x b c).0 eb) in
      elim (Bool-cases (any (joins u v) g.edges)) [
        | inl q ↦ old q
        | inr q ↦ ground (arith, any-snoc (joins u v) g.edges e, ==_iff p u, ==_iff c v)
      ],
)

-- No walk along the edges leads back to its start.
abbrev pub Acyclic : List Edge → Type 0
Acyclic edges = (u : ℕ) → ¬ Chain (λ i j. any (joins i j) edges ≡ true) u u

abbrev pub Extended : Uuid → Uuid → DagInner → BranchResult (Unit {0}) → DagInner → Type 0
Extended a b g r g' =
    WellFormed g'
    × Acyclic g'.edges
    × ((j : Uuid) (k : ℕ) → index_of j g.node_index ≡ some k → index_of j g'.node_index ≡ some k)
    × (r ≡ ok tt → Linked g' (Joins g') a b)
    × (is_err r ≡ true → g'.edges ≡ g.edges)
    × ((i j : ℕ) → Joins g i j → Joins g' i j)

-- petgraph's test, where it answers that there is no cycle.
abbrev pub FindsCycles : (DagInner → Bool) → Type 0
FindsCycles is_cyclic_directed = (g : DagInner) → is_cyclic_directed g ≡ false → Acyclic g.edges

abbrev refused : BranchError → BranchResult (Unit {0})
refused e = err e

err≢ok : (e : BranchError) → ¬ (refused e ≡ ok tt)
err≢ok e h = cc

ok-not-err : ¬ (false ≡ true)
ok-not-err h = cc

-- `add_edge_meta` on a well-formed graph without cycles leaves one, whatever it returns, and every
-- branch keeps its node. When it succeeds the parent is joined to the child; when it fails the edges
-- are those it was given, and no edge is lost in any case.
pub add_edge_meta-Extended :
    (is_cyclic_directed : DagInner → Bool)
    → FindsCycles is_cyclic_directed
    → (a b : Uuid) (m : EdgeMeta) (g : DagInner) → WellFormed g
    → Acyclic g.edges
    → Extended a b g
        (add_edge_meta is_cyclic_directed a b m g).0
        (add_edge_meta is_cyclic_directed a b m g).1
unfolding add_edge_meta
add_edge_meta-Extended is_cyclic_directed finds a b m g w y = elim (Bool-cases (a == b)) [
  | inl e ↦ rw e (w, y, λ j k h. h, λ h. absurd (err≢ok (dag_cycle a b) h), λ h. refl, λ i j h. h)
  | inr e ↦
      let (p, g₁) = ensure_or_insert a g in
      let (c, g₂) = ensure_or_insert b g₁ in
      let (w₁, e₁, k₁, s₁) = ensure_or_insert-Inserted a g w in
      let (w₂, e₂, k₂, s₂) = ensure_or_insert-Inserted b g₁ w₁ in
      let keeps = λ (j : Uuid) (k : ℕ) (h : index_of j g.node_index ≡ some k). k₂ j k (k₁ j k h) in
      let same = s₂ ∙ s₁ in
      let y₂ = subst Acyclic (sym same) y in
      let stay : (i j : ℕ) → Joins g i j → Joins g₂ i j = λ i j h. rw same h in
      let node_a = (w₂.0 a p).0 (k₂ a p e₁) in
      let node_b = (w₂.0 b c).0 e₂ in
      let new : Edge = record { source = p; target = c; meta = m } in
      let g₃ : DagInner = record g₂ { edges = g₂.edges ++ new ∷ [] } in
      elim (Bool-cases (any (joins p c) g₂.edges)) [
        | inl f ↦
            rw (e, f)
              (w₂, y₂, keeps, λ h. (p, c, node_a, node_b, f), λ h. absurd (ok-not-err h), stay)
        | inr f ↦ elim (Bool-cases (is_cyclic_directed g₃)) [
          | inl q ↦
              rw (e, f, q) (w₂, y₂, keeps, λ h. absurd (err≢ok (dag_cycle a b) h), λ h. same, stay)
          | inr q ↦
              rw (e, f, q)
                (
                  joined-WellFormed g₂ p c a b m w₂ (k₂ a p e₁) e₂,
                  finds g₃ q,
                  keeps,
                  λ h. (
                    p,
                    c,
                    node_a,
                    node_b,
                    ground (arith, any-snoc (joins p c) g₂.edges new, ==_refl p, ==_refl c),
                  ),
                  λ h. absurd (ok-not-err h),
                  λ i j h. ground (arith, any-snoc (joins i j) g₂.edges new, stay i j h),
                )
        ]
      ]
]
