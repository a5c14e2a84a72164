-- ===== src/Dag/Depth/Bounded.antt =====
-- The loop over the levels, and the depth of a branch.
use claw_branch.Shared.{
  ℕ, suc, ◌+◌, ◌<◌, arith, ◌≡◌, refl, ◌⊎◌, inl, inr, ⊎_elim, some, List, [], ◌∷◌, length,
  length-append, In, In-append_left, In-append_right,
}
use claw_branch.Dag.{index_of}
use claw_branch.Dag.Depth.{Levels, enter_all}
use claw_branch.Dag.Depth.Spread.{
  Far, here, step, keys, enter_all-keeps, enter_all-grows, enter_all-keys, Levelled, visit-Levelled,
}

pub enter_all-work :
    (d : ℕ) (vs : List ℕ) (s : Levels)
    → length (enter_all d vs s).queue + length s.depths
      ≡ length s.queue + length (enter_all d vs s).depths
enter_all-work d vs s =
    enter_all-keeps
      (λ (r : Levels). length r.queue + length s.depths ≡ length s.queue + length r.depths) d vs
      (λ v r i e p. omega (arith, length-append r.queue (v ∷ []), p)) s refl

module _ (start : ℕ → Type 0) (next : ℕ → List ℕ) (univ : List ℕ)
    (bounded : (u v : ℕ) → In v (next u) → In v univ) where
  abbrev pub Closed : Levels → Type 0
  Closed s =
      (u : ℕ)
      → In u (keys s.depths)
      → In u s.queue ⊎ ((w : ℕ) → In w (next u) → In w (keys s.depths))

  pub enter_all-Closed :
      (d : ℕ) (vs : List ℕ) (s : Levels) (u : ℕ)
      → (In u (keys (enter_all d vs s).depths)
          → In u (keys s.depths) ⊎ In u (enter_all d vs s).queue)
        × (In u s.queue → In u (enter_all d vs s).queue)
  enter_all-Closed d vs s u =
      enter_all-keeps
        (λ (r : Levels).
          (In u (keys r.depths) → In u (keys s.depths) ⊎ In u r.queue)
          × (In u s.queue → In u r.queue))
        d vs
        (λ v r i n k. (
          λ h.
              ⊎_elim (λ q. inr (In-append_right u r.queue (v ∷ []) (inl q)))
                (λ g. ⊎_elim inl (λ j. inr (In-append_left u r.queue (v ∷ []) j)) (k.0 g)) h,
          λ h. In-append_left u r.queue (v ∷ []) (k.1 h),
        ))
        s (inl, λ h. h)

  abbrev pub turn : ℕ → ℕ → List ℕ → Levels → Levels
  turn d u rest s = enter_all (suc d) (next u) (record s { queue = rest })

  pub turn-Levelled :
      (d u : ℕ) (rest : List ℕ) (s : Levels)
      → s.queue ≡ u ∷ rest
      → index_of u s.depths ≡ some d
      → Levelled start next univ s
      → Levelled start next univ (turn d u rest s)
  turn-Levelled d u rest s e h (k, q, x, r) =
      (enter_all-keeps (λ (t : Levels). Levelled start next univ t × (d < length t.depths)) (suc d)
        (next u)
        (λ v t i n (y, l). (
          visit-Levelled start next univ (suc d) v t (step (k u d h).0 i) (omega (arith, l))
              (bounded u v i) n y,
          omega (arith, l),
        ))
        (record s { queue = rest }) ((k, λ v j. q v (rw e (inr j)), x, r), (k u d h).1)).0

  pub turn-Closed :
      (d u : ℕ) (rest : List ℕ) (s : Levels)
      → s.queue ≡ u ∷ rest
      → Closed s
      → Closed (turn d u rest s)
  turn-Closed d u rest s e k w h =
      let r : Levels = record s { queue = rest } in
      let (back, kept) = enter_all-Closed (suc d) (next u) r w in
      ⊎_elim
        (λ g.
          ⊎_elim
            (λ p.
              ⊎_elim (λ q. inr (λ x i. enter_all-keys x (suc d) (next u) r (rw q at i)))
                (λ j. inl (kept j)) (rw e at p))
            (λ f. inr (λ x i. enter_all-grows x (suc d) (next u) r (f x i))) (k w g))
        inl (back h)

  pub Far-keys :
      (s : Levels)
      → s.queue ≡ []
      → Closed s
      → ((v : ℕ) → start v → In v (keys s.depths))
      → (v d : ℕ) → Far start next v d
      → In v (keys s.depths)
  Far-keys s e k roots v d (here h) = roots v h
  Far-keys s e k roots v d (step {u = u} {d = c} f i) =
      ⊎_elim (λ j. absurd (rw e at j)) (λ g. g v i) (k u (Far-keys s e k roots u c f))
