-- ===== src/Dag/Depth/Measured.antt =====
-- The depth of a branch: the loop over the levels from its first state to its last.
use claw_branch.Shared.{
  ℕ, zero, suc, ◌+◌, ◌≤◌, ◌<◌, arith, ◌≡◌, refl, ap, ◌∙◌, ◌↔◌, inl, inr, ⊎_elim, some, List, [],
  ◌∷◌, List-cases, length, In, pigeonhole,
}
use claw_branch.Dag.{index_of}
use claw_branch.Dag.Query.Index.{none≢some}
use claw_branch.Dag.Depth.{Levels, enter_all, level_loop}
use claw_branch.Dag.Depth.Spread.{
  Far, here, keys, length-keys, keys-index_of, enter_all-keeps, enter_all-grows, enter_all-keys,
  Levelled, visit-Levelled,
}
use claw_branch.Dag.Depth.Bounded.{
  Closed, enter_all-work, enter_all-Closed, turn-Levelled, turn-Closed, Far-keys,
}

module _ (start : ℕ → Type 0) (next : ℕ → List ℕ) (univ : List ℕ)
    (bounded : (u v : ℕ) → In v (next u) → In v univ) where
  -- The map gives a node the length of a walk from a start, and every node with one is in it.
  abbrev pub Measured : List (ℕ × ℕ) → Type 0
  Measured m =
      ((v d : ℕ) → index_of v m ≡ some d → Far start next v d × (d < length univ))
      × ((v d : ℕ) → Far start next v d → In v (keys m))

  abbrev Started : Levels → Type 0
  Started s = (v : ℕ) → start v → In v (keys s.depths)

  size : (s : Levels) → Levelled start next univ s → length s.depths ≤ length univ
  size s (k, q, x, r) = omega (arith, pigeonhole (keys s.depths) univ x r, length-keys s.depths)

  end-Measured :
      (s : Levels)
      → s.queue ≡ []
      → Levelled start next univ s
      → Closed start next univ bounded s
      → Started s
      → Measured s.depths
  end-Measured s e y c b = (
    λ v d h. let (f, l) = y.0 v d h in (f, omega (arith, l, size s y)),
    Far-keys start next univ bounded s e c b,
  )

  level_loop-turn :
      (fuel d u : ℕ) (rest : List ℕ) (s : Levels)
      → s.queue ≡ u ∷ rest
      → index_of u s.depths ≡ some d
      → level_loop next (suc fuel) s
        ≡ level_loop next fuel (enter_all (suc d) (next u) (record s { queue = rest }))
  unfolding level_loop
  level_loop-turn fuel d u rest s e q = rw (level_loop, e, q) refl

  pub level_loop-Measured :
      (fuel : ℕ) (s : Levels)
      → Levelled start next univ s
      → Closed start next univ bounded s
      → Started s
      → length s.queue + length univ ≤ fuel + length s.depths
      → (m : List (ℕ × ℕ)) × (level_loop next fuel s ≡ some m) × Measured m
  unfolding level_loop
  level_loop-Measured zero s y c b h = elim (List-cases s.queue) [
    | inl e ↦ (s.depths, rw e refl, end-Measured s e y c b)
    | inr (u, rest, e) ↦ absurd (omega (arith, size s y, ap length e, h))
  ]
  level_loop-Measured (suc fuel) s y c b h = elim (List-cases s.queue) [
    | inl e ↦ (s.depths, rw e refl, end-Measured s e y c b)
    | inr (u, rest, e) ↦
        let r : Levels = record s { queue = rest } in
        let (d, q) = keys-index_of u s.depths (y.1 u (rw e (inl refl))) in
        let (m, p, k) =
          level_loop-Measured fuel (enter_all (suc d) (next u) r)
            (turn-Levelled start next univ bounded d u rest s e q y)
            (turn-Closed start next univ bounded d u rest s e c)
            (λ v i. enter_all-grows v (suc d) (next u) r (b v i))
            (omega (arith, enter_all-work (suc d) (next u) r, ap length e, h)) in
        (m, level_loop-turn fuel d u rest s e q ∙ p, k)
  ]

  -- The first state: the starts, entered with depth 0.
  pub enter_all-Measured :
      (roots : List ℕ)
      → ((v : ℕ) → In v roots ↔ start v)
      → ((v : ℕ) → start v → In v univ)
      → (m : List (ℕ × ℕ)) × (level_loop next
            (length univ)
            (enter_all 0 roots (record { depths = []; queue = [] }))
          ≡ some m)
        × Measured m
  enter_all-Measured roots only i =
      let s : Levels = record { depths = []; queue = [] } in
      level_loop-Measured (length univ) (enter_all 0 roots s)
        (enter_all-keeps (Levelled start next univ) 0 roots
          (λ v r j n y.
            visit-Levelled start next univ 0 v r (here ((only v).0 j)) (omega arith)
              (i v ((only v).0 j)) n y)
          s (λ v d h. absurd (none≢some d h), λ v h. absurd h, tt, λ v h. absurd h))
        (λ u h.
          ⊎_elim (λ b. absurd b) inl ((enter_all-Closed start next univ bounded 0 roots s u).0 h))
        (λ v h. enter_all-keys v 0 roots s ((only v).1 h)) (omega (arith, enter_all-work 0 roots s))
