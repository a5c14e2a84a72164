-- ===== src/Dag/Search/Loop.antt =====
-- The loop as a whole: what it keeps, how long it runs, and what it has put out when it ends.
use claw_branch.Shared.{
  ℕ, zero, suc, ◌+◌, ◌≤◌, arith, ◌≡◌, refl, ap, subst, ◌⊎◌, inl, inr, ⊎_elim, ◌↔◌, none, some, List,
  [], ◌∷◌, length, In, Distinct, pigeonhole, List-cases,
}
use claw_branch.Dag.Search.{Discipline, Search, scan, loop}
use claw_branch.Dag.Search.Scan.{pend-In, scan-keeps, scan-grows, scan-all, scan-work}
use claw_branch.Dag.Search.Invariant.{
  Reached, one, more, AtOrReached, Sound, Complete, Pending-visit, Output-visit, Counted-visit,
  Single-visit,
}

some-eq : (x y : List ℕ) → some x ≡ some y → x ≡ y
some-eq x y h = cc

none≢some : (y : List ℕ) → ¬ (none ≡ some y)
none≢some y h = cc

module _ (d : Discipline) (next : ℕ → List ℕ) (from : ℕ) (before univ : List ℕ)
    (bounded : (u v : ℕ) → In v (next u) → In v univ) where
  -- The state after the head of the pending nodes was taken and its neighbours were offered.
  abbrev turn : ℕ → List ℕ → Search → Search
  turn u rest s = scan d (next u) (record s { pending = rest })

  turn-Sound :
      (u : ℕ) (rest : List ℕ) (s : Search)
      → s.pending ≡ u ∷ rest
      → Sound next from before univ s
      → Sound next from before univ (turn u rest s)
  turn-Sound u rest s e (p, o, c, x) =
      let a : AtOrReached next from u = p u (rw e (inl refl)) in
      scan-keeps d (Sound next from before univ) (next u)
        (λ v r i n k. (
          Pending-visit next from before univ d u v r a i k.0,
          Output-visit next from before univ d u v r a i n k.2 k.1,
          Counted-visit next from before univ d v r k.2,
          Single-visit next from before univ d v r (bounded u v i) n k.2 k.3,
        ))
        (record s { pending = rest }) (λ v h. p v (rw e (inr h)), o, c, x)

  -- What was seen before or is pending now, over a pass.
  turn-pending :
      (u : ℕ) (rest : List ℕ) (s : Search) (w : ℕ)
      → (In w (turn u rest s).seen → In w s.seen ⊎ In w (turn u rest s).pending)
        × (In w rest → In w (turn u rest s).pending)
  turn-pending u rest s w =
      scan-keeps d
        (λ (r : Search).
          (In w r.seen → In w s.seen ⊎ In w r.pending) × (In w rest → In w r.pending))
        (next u)
        (λ v r i n k. (
          λ h.
              ⊎_elim (λ q. inr (pend-In d v w r.pending (inl q)))
                (λ g. ⊎_elim inl (λ p. inr (pend-In d v w r.pending (inr p))) (k.0 g)) h,
          λ h. pend-In d v w r.pending (inr (k.1 h)),
        ))
        (record s { pending = rest }) (inl, λ h. h)

  turn-Complete :
      (u : ℕ) (rest : List ℕ) (s : Search)
      → s.pending ≡ u ∷ rest
      → Complete next from before univ s
      → Complete next from before univ (turn u rest s)
  turn-Complete u rest s e k w h =
      let r : Search = record s { pending = rest } in
      let old : (w ≡ from) ⊎ In w s.seen
          → In w (turn u rest s).pending ⊎ ((x : ℕ) → In x (next w) → In x (turn u rest s).seen) =
        λ g.
          ⊎_elim
            (λ p.
              ⊎_elim (λ q. inr (λ x i. scan-all d x (next u) r (rw q at i)))
                (λ i. inl ((turn-pending u rest s w).1 i)) (rw e at p))
            (λ f. inr (λ x i. scan-grows d x (next u) r (f x i))) (k w g) in
      ⊎_elim (λ q. old (inl q)) (λ g. ⊎_elim (λ i. old (inr i)) inl ((turn-pending u rest s w).0 g))
        h

  Reached-seen :
      (s : Search)
      → s.pending ≡ []
      → Complete next from before univ s
      → (v : ℕ) → Reached next from v
      → In v s.seen
  Reached-seen s e k v (one h) = ⊎_elim (λ b. absurd (rw e at b)) (λ f. f v h) (k from (inl refl))
  Reached-seen s e k v (more {u = u} r h) =
      ⊎_elim (λ b. absurd (rw e at b)) (λ f. f v h) (k u (inr (Reached-seen s e k u r)))

  -- The nodes that a finished search has put out.
  abbrev pub Answer : List ℕ → Type 0
  Answer out = Distinct out × ((v : ℕ) → In v out ↔ (Reached next from v × (¬ In v before)))

  end-Answer :
      (s : Search)
      → s.pending ≡ []
      → Sound next from before univ s
      → Complete next from before univ s
      → Answer s.output
  end-Answer s e (p, o, c, x) k = (
    x.1,
    λ v. (o v, λ h. ⊎_elim (λ b. absurd (h.1 b)) (λ i. i) ((c v).0 (Reached-seen s e k v h.0))),
  )

  -- What was put out at the end, when there is an end.
  loop-Sound :
      (fuel : ℕ) (s : Search) (out : List ℕ)
      → loop d next fuel s ≡ some out
      → Sound next from before univ s
      → Complete next from before univ s
      → Answer out
  unfolding loop
  loop-Sound zero s out h i k = elim (List-cases s.pending) [
    | inl e ↦ subst Answer (some-eq s.output out (rw e at h)) (end-Answer s e i k)
    | inr (u, rest, e) ↦ absurd (none≢some out (rw e at h))
  ]
  loop-Sound (suc fuel) s out h i k = elim (List-cases s.pending) [
    | inl e ↦ subst Answer (some-eq s.output out (rw e at h)) (end-Answer s e i k)
    | inr (u, rest, e) ↦
        loop-Sound fuel (turn u rest s) out (rw e at h) (turn-Sound u rest s e i)
          (turn-Complete u rest s e k)
  ]

  -- Every turn uses up one pending node, and a node becomes pending once.
  loop-ends :
      (fuel : ℕ) (s : Search)
      → Sound next from before univ s
      → length s.pending + length univ ≤ fuel + length s.seen
      → (out : List ℕ) × (loop d next fuel s ≡ some out)
  unfolding loop
  loop-ends zero s i h = elim (List-cases s.pending) [
    | inl e ↦ (s.output, rw e refl)
    | inr (u, rest, e) ↦ absurd (omega (arith, pigeonhole s.seen univ i.3.0 i.3.2, ap length e, h))
  ]
  loop-ends (suc fuel) s i h = elim (List-cases s.pending) [
    | inl e ↦ (s.output, rw e refl)
    | inr (u, rest, e) ↦
        let r : Search = record s { pending = rest } in
        let (out, q) =
          loop-ends fuel (turn u rest s) (turn-Sound u rest s e i)
            (omega (arith, scan-work d (next u) r, ap length e, h)) in
        (out, rw e q)
  ]

  pub loop-Answer :
      (fuel : ℕ) (s : Search)
      → Sound next from before univ s
      → Complete next from before univ s
      → length s.pending + length univ ≤ fuel + length s.seen
      → (out : List ℕ) × (loop d next fuel s ≡ some out) × Answer out
  loop-Answer fuel s i k h =
      let (out, q) = loop-ends fuel s i h in (out, q, loop-Sound fuel s out q i k)
