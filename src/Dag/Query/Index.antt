-- ===== src/Dag/Query/Index.antt =====
-- Nodes by index: what a well-formed graph is, and reading the identifiers of a list of nodes.
use claw_branch.Shared.{
  ℕ, zero, suc, ◌<◌, arith, ◌≡◌, refl, sym, ◌∙◌, subst, ◌↔◌, inl, inr, ⊎_elim, true, none, some,
  Bool-cases, ◌==◌, ==_iff, List, [], ◌∷◌, any, length, length-append, In, Distinct, In-append_left,
  In-append_right,
}
use claw_branch.Types.{Uuid}
use claw_branch.Dag.{DagInner, joins, index_of}
use claw_branch.Dag.Query.{Direction, incoming, outgoing, get_elem?, weights, node_indices}

-- The index map and the nodes agree, and an edge joins two nodes.
abbrev pub Indexed : DagInner → Type 0
Indexed g =
    (id : Uuid) (i : ℕ) → (index_of id g.node_index ≡ some i) ↔ (get_elem? g.nodes i ≡ some id)

abbrev pub Joins : DagInner → ℕ → ℕ → Type 0
Joins g u v = any (joins u v) g.edges ≡ true

abbrev pub InRange : DagInner → Type 0
InRange g = (u v : ℕ) → Joins g u v → (u < length g.nodes) × (v < length g.nodes)

abbrev pub WellFormed : DagInner → Type 0
WellFormed g = Indexed g × InRange g

-- petgraph's documented answer: the nodes at the other ends of the edges into or out of a node.
abbrev pub ListsNeighbors : (DagInner → ℕ → Direction → List ℕ) → Type 0
ListsNeighbors neighbors_directed =
    (g : DagInner) (u v : ℕ)
    → (In u (neighbors_directed g v incoming) ↔ Joins g u v)
      × (In v (neighbors_directed g u outgoing) ↔ Joins g u v)

pub some-eq : {A : Type 0} (x y : A) → some x ≡ some y → x ≡ y
some-eq x y h = cc

pub none≢some : {A : Type 0} (y : A) → ¬ (none ≡ some y)
none≢some y h = cc

pub length-node_indices : (n : ℕ) → length (node_indices n) ≡ n
length-node_indices zero = refl
length-node_indices (suc n) =
    omega (arith, length-append (node_indices n) (n ∷ []), length-node_indices n)

pub In-node_indices : (i n : ℕ) → i < n → In i (node_indices n)
In-node_indices i zero h = absurd (omega arith)
In-node_indices i (suc n) h = elim (Bool-cases (i == n)) [
  | inl e ↦ In-append_right i (node_indices n) (n ∷ []) (inl ((==_iff i n).0 e))
  | inr e ↦
      In-append_left i (node_indices n) (n ∷ []) (In-node_indices i n (ground (arith, ==_iff i n)))
]

pub get_elem?-some :
    {A : Type 0} (xs : List A) (i : ℕ) → i < length xs → (a : A) × (get_elem? xs i ≡ some a)
get_elem?-some [] i h = absurd (omega arith)
get_elem?-some (x ∷ xs) zero h = (x, refl)
get_elem?-some (x ∷ xs) (suc i) h = get_elem?-some xs i (omega arith)

pub get_elem?-lt :
    {A : Type 0} (xs : List A) (i : ℕ) (a : A) → get_elem? xs i ≡ some a → i < length xs
get_elem?-lt [] i a h = cc
get_elem?-lt (x ∷ xs) zero a h = omega arith
get_elem?-lt (x ∷ xs) (suc i) a h = omega (arith, get_elem?-lt xs i a h)

-- The identifiers of a list of nodes in range.
pub weights-listed :
    (g : DagInner) (ns : List ℕ)
    → ((n : ℕ) → In n ns → n < length g.nodes)
    → (ws : List Uuid) × (weights g ns ≡ some ws)
      × ((w : Uuid) → In w ws ↔ ((n : ℕ) × In n ns × (get_elem? g.nodes n ≡ some w)))
unfolding weights
weights-listed g [] h = ([], refl, λ w. (λ b. absurd b, λ k. absurd k.1))
weights-listed g (n ∷ ns) h =
    let (w, e) = get_elem?-some g.nodes n (h n (inl refl)) in
    let (ws, q, k) = weights-listed g ns (λ m i. h m (inr i)) in
    (
      w ∷ ws,
      rw (weights, e, q) refl,
      λ v. (
        λ i.
            ⊎_elim (λ (p : v ≡ w). (n, inl refl, rw p e))
              (λ j. let (m, a, b) = (k v).0 j in (m, inr a, b)) i,
        λ (m, a, b).
            ⊎_elim (λ (p : m ≡ n). inl (some-eq v w (sym (rw p at b) ∙ e)))
              (λ j. inr ((k v).1 (m, j, b))) a,
      ),
    )

-- Different nodes of a graph whose index map is right have different identifiers.
pub weights-Distinct :
    (g : DagInner) (ns : List ℕ) (ws : List Uuid)
    → Indexed g
    → Distinct ns
    → ((n : ℕ) → In n ns → n < length g.nodes)
    → weights g ns ≡ some ws
    → Distinct ws
unfolding weights
weights-Distinct g [] ws x d h q = subst Distinct (some-eq [] ws q) tt
weights-Distinct g (n ∷ ns) ws x d h q =
    let (w, e) = get_elem?-some g.nodes n (h n (inl refl)) in
    let (vs, r, k) = weights-listed g ns (λ m i. h m (inr i)) in
    subst Distinct (some-eq (w ∷ vs) ws (rw (weights, e, r) at q)) (
      λ i.
          let (m, a, b) = (k w).0 i in
          d.0 (subst (λ j. In j ns) (some-eq m n (sym ((x w m).1 b) ∙ (x w n).1 e)) a),
      weights-Distinct g ns vs x d.1 (λ m i. h m (inr i)) r,
    )
