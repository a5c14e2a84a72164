-- ===== src/Dag/Serializer/Order.antt =====
-- Kahn's loop: it ends, and with the indices that it leaves out every edge gets its turn.
use claw_branch.Shared.{
  ℕ, zero, suc, ◌+◌, ◌≤◌, ◌<◌, arith, ◌≡◌, refl, ap, inl, inr, ⊎_elim, true, false, Bool-cases,
  some, Option-cases, List, [], ◌∷◌, ◌++◌, List-cases, any, In, In-append_left, In-append_right,
  length, length-append, ◌==◌, ==_iff, if◌then◌else◌,
}
use claw_branch.Types.{Uuid}
use claw_branch.Dag.Query.{get_elem?}
use claw_branch.Dag.Serializer.{
  EdgeRow, Kahn, push_edge, add_degree, count_edges, sources, take_out, lower, visit_edges,
  kahn_loop, append_missing, start_of, insert_order_of,
}

-- How many edges still wait for their parent.
abbrev total : List (Uuid × List ℕ) → ℕ
total [] = 0
total ((p, is) ∷ m) = length is + total m

push_edge-total :
    (p : Uuid) (i : ℕ) (m : List (Uuid × List ℕ)) → total (push_edge p i m) ≡ suc (total m)
unfolding push_edge
push_edge-total p i [] = refl
push_edge-total p i ((q, is) ∷ m) = elim (Bool-cases (p == q)) [
  | inl e ↦ rw e (omega (arith, length-append is (i ∷ [])))
  | inr e ↦ rw e (omega (arith, push_edge-total p i m))
]

count_edges-total :
    (i : ℕ) (es : List EdgeRow) (k : Kahn)
    → total (count_edges i es k).out_edges ≡ length es + total k.out_edges
unfolding count_edges
count_edges-total i [] k = omega arith
count_edges-total i (e ∷ es) k =
    let next : Kahn = record k {
      out_edges = push_edge e.parent_id i k.out_edges;
      in_degree = add_degree e.parent_id 0 (add_degree e.child_id 1 k.in_degree);
    } in
    omega (arith, count_edges-total (suc i) es next, push_edge-total e.parent_id i k.out_edges)

length-sources : (m : List (Uuid × ℕ)) → length (sources m) ≤ length m
unfolding sources
length-sources [] = omega arith
length-sources ((id, d) ∷ m) = elim (Bool-cases (d == 0)) [
  | inl e ↦ rw e (omega (arith, length-sources m))
  | inr e ↦ rw e (omega (arith, length-sources m))
]

take_out-total :
    (p : Uuid) (m : List (Uuid × List ℕ))
    → length (take_out p m).0 + total (take_out p m).1 ≡ total m
unfolding take_out
take_out-total p [] = refl
take_out-total p ((q, is) ∷ m) = elim (Bool-cases (p == q)) [
  | inl e ↦ rw e refl
  | inr e ↦ rw e (omega (arith, take_out-total p m))
]

-- A pass over the edges of a parent queues at most as many children.
visit_edges-queue :
    (edges : List EdgeRow) (is : List ℕ) (k : Kahn)
    → (length (visit_edges edges is k).queue ≤ length k.queue + length is)
      × ((visit_edges edges is k).out_edges ≡ k.out_edges)
unfolding visit_edges
visit_edges-queue edges [] k = (omega arith, refl)
visit_edges-queue edges (i ∷ is) k = elim (Option-cases (get_elem? edges i)) [
  | inl e ↦ rw (visit_edges, e) (let (l, q) = visit_edges-queue edges is k in (omega (arith, l), q))
  | inr (x, e) ↦
      let (d, degrees) = lower x.child_id k.in_degree in
      let next : Kahn = record k {
        in_degree = degrees;
        insert_order = k.insert_order ++ i ∷ [];
        queue = if d == 0 then k.queue ++ x.child_id ∷ [] else k.queue;
      } in
      let (l, q) = visit_edges-queue edges is next in
      rw (visit_edges, e)
        (
          ⊎_elim
              (λ (b : (d == 0) ≡ true). omega (
                arith,
                l,
                ap (λ c. length (if c then k.queue ++ x.child_id ∷ [] else k.queue)) b,
                length-append k.queue (x.child_id ∷ []),
              ))
              (λ (b : (d == 0) ≡ false).
                omega (
                  arith,
                  l,
                  ap (λ c. length (if c then k.queue ++ x.child_id ∷ [] else k.queue)) b,
                ))
              (Bool-cases (d == 0)),
          q,
        )
]

kahn_loop-some :
    (edges : List EdgeRow) (fuel : ℕ) (k : Kahn)
    → length k.queue + total k.out_edges ≤ fuel
    → (order : List ℕ) × (kahn_loop edges fuel k ≡ some order)
unfolding kahn_loop
kahn_loop-some edges zero k h = elim (List-cases k.queue) [
  | inl e ↦ (k.insert_order, rw e refl)
  | inr (p, rest, e) ↦ absurd (omega (arith, ap length e, h))
]
kahn_loop-some edges (suc fuel) k h = elim (List-cases k.queue) [
  | inl e ↦ (k.insert_order, rw e refl)
  | inr (p, rest, e) ↦
      let (is, out) = take_out p k.out_edges in
      let next : Kahn = record k { out_edges = out; queue = rest } in
      let (l, same) = visit_edges-queue edges is next in
      let (order, q) =
        kahn_loop-some edges fuel (visit_edges edges is next)
          (omega (arith, l, ap total same, take_out-total p k.out_edges, ap length e, h)) in
      (order, rw e q)
]

append_missing-old :
    (i : ℕ) (es : List EdgeRow) (order : List ℕ) (j : ℕ)
    → In j order
    → In j (append_missing i es order)
unfolding append_missing
append_missing-old i [] order j h = h
append_missing-old i (e ∷ es) order j h = elim (Bool-cases (any (λ k. k == i) order)) [
  | inl q ↦ rw (append_missing, q) (append_missing-old (suc i) es order j h)
  | inr q ↦
      rw (append_missing, q)
        (append_missing-old (suc i) es (order ++ i ∷ []) j (In-append_left j order (i ∷ []) h))
]

any-In : (i : ℕ) (order : List ℕ) → any (λ k. k == i) order ≡ true → In i order
any-In i [] h = cc
any-In i (k ∷ order) h = ground (arith, any-In i order, ==_iff k i)

append_missing-In :
    (i : ℕ) (es : List EdgeRow) (order : List ℕ) (j : ℕ)
    → i ≤ j
    → j < i + length es
    → In j (append_missing i es order)
unfolding append_missing
append_missing-In i [] order j l u = absurd (omega (arith, l, u))
append_missing-In i (e ∷ es) order j l u = elim (Bool-cases (any (λ k. k == i) order)) [
  | inl q ↦
      rw (append_missing, q)
        (elim (Bool-cases (j == i)) [
          | inl s ↦ append_missing-old (suc i) es order j (rw ((==_iff j i).0 s) (any-In i order q))
          | inr s ↦
              append_missing-In (suc i) es order j (ground (arith, ==_iff j i)) (omega (arith, u))
        ])
  | inr q ↦
      rw (append_missing, q)
        (elim (Bool-cases (j == i)) [
          | inl s ↦
              append_missing-old (suc i) es (order ++ i ∷ []) j
                (In-append_right j order (i ∷ []) (inl ((==_iff j i).0 s)))
          | inr s ↦
              append_missing-In (suc i) es (order ++ i ∷ []) j (ground (arith, ==_iff j i))
                (omega (arith, u))
        ])
]

-- The order is found, and every edge stands in it.
pub insert_order_of-all :
    (edges : List EdgeRow)
    → (order : List ℕ) × (insert_order_of edges ≡ some order)
      × ((j : ℕ) → j < length edges → In j order)
unfolding insert_order_of start_of
insert_order_of-all edges =
    let none_yet : Kahn = record {
      out_edges = [];
      in_degree = [];
      queue = [];
      insert_order = [];
    } in
    let k = count_edges 0 edges none_yet in
    let (order, e) =
      kahn_loop-some edges (length k.in_degree + length edges)
        (record k { queue = sources k.in_degree })
        (omega (arith, length-sources k.in_degree, count_edges-total 0 edges none_yet)) in
    (
      append_missing 0 edges order,
      rw (insert_order_of, start_of, e) refl,
      λ j h. append_missing-In 0 edges order j (omega arith) (omega (arith, h)),
    )
