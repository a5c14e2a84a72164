-- ===== src/Dag/Depth/Spread.antt =====
-- What entering the nodes of one level keeps.
use claw_branch.Shared.{
  ℕ, suc, ◌<◌, arith, ◌≡◌, refl, sym, ap, ◌∙◌, inl, inr, ⊎_elim, false, Bool-cases, some,
  Option-cases, List, [], ◌∷◌, ◌++◌, length, In, Distinct, In-append, ◌==◌, ==_iff,
}
use mathlib.Core.Bool.{true≢false}
use claw_branch.Dag.{index_of}
use claw_branch.Dag.Query.Index.{some-eq, none≢some}
use claw_branch.Dag.Depth.{Levels, has_depth, enter, enter_all}

-- A walk of `d` edges from one of the starts.
pub data Far (start : ℕ → Type 0) (next : ℕ → List ℕ) : ℕ → ℕ → Type 0 where
  here : {v : ℕ} → start v → Far start next v 0
  step : {u v d : ℕ} → Far start next u d → In v (next u) → Far start next v (suc d)

abbrev pub keys : List (ℕ × ℕ) → List ℕ
keys [] = []
keys ((v, d) ∷ m) = v ∷ keys m

pub length-keys : (m : List (ℕ × ℕ)) → length (keys m) ≡ length m
length-keys [] = refl
length-keys ((v, d) ∷ m) = ap suc (length-keys m)

pub keys-index_of : (v : ℕ) (m : List (ℕ × ℕ)) → In v (keys m) → (d : ℕ) × (index_of v m ≡ some d)
keys-index_of v [] h = absurd h
keys-index_of v ((w, e) ∷ m) h = elim (Bool-cases (v == w)) [
  | inl q ↦ (e, rw q refl)
  | inr q ↦
      let (d, r) =
        keys-index_of v m
          (⊎_elim (λ (p : v ≡ w). absurd (ground (arith, ==_iff v w))) (λ i. i) h) in
      (d, rw q r)
]

pub index_of-keys : (v d : ℕ) (m : List (ℕ × ℕ)) → index_of v m ≡ some d → In v (keys m)
index_of-keys v d [] h = absurd (none≢some d h)
index_of-keys v d ((w, e) ∷ m) h = elim (Bool-cases (v == w)) [
  | inl q ↦ inl ((==_iff v w).0 q)
  | inr q ↦ inr (index_of-keys v d m (rw q at h))
]

-- The state after a node without a depth was entered.
abbrev pub visit : ℕ → ℕ → Levels → Levels
visit d v s = record { depths = (v, d) ∷ s.depths; queue = s.queue ++ v ∷ [] }

fresh-keys : (v : ℕ) (s : Levels) → has_depth v s ≡ false → ¬ In v (keys s.depths)
fresh-keys v s h i =
    let (d, e) = keys-index_of v s.depths i in true≢false (sym (rw (has_depth, e) refl) ∙ h)

pub enter_all-keeps :
    (P : Levels → Type 0) (d : ℕ) (vs : List ℕ)
    → ((v : ℕ) (s : Levels) → In v vs → ¬ In v (keys s.depths) → P s → P (visit d v s))
    → (s : Levels) → P s
    → P (enter_all d vs s)
unfolding enter_all
enter_all-keeps P d [] k s p = p
enter_all-keeps P d (v ∷ vs) k s p = elim (Bool-cases (has_depth v s)) [
  | inl e ↦ rw (enter, e) (enter_all-keeps P d vs (λ w r i. k w r (inr i)) s p)
  | inr e ↦
      rw (enter, e)
        (enter_all-keeps P d vs (λ w r i. k w r (inr i)) (visit d v s)
          (k v s (inl refl) (fresh-keys v s e) p))
]

pub enter_all-grows :
    (w d : ℕ) (vs : List ℕ) (s : Levels)
    → In w (keys s.depths)
    → In w (keys (enter_all d vs s).depths)
enter_all-grows w d vs s h =
    enter_all-keeps (λ (r : Levels). In w (keys r.depths)) d vs (λ v r i e p. inr p) s h

enter-keys : (d v : ℕ) (s : Levels) → In v (keys (enter d v s).depths)
unfolding enter
enter-keys d v s = elim (Option-cases (index_of v s.depths)) [
  | inl e ↦ rw (has_depth, e) (inl refl)
  | inr (x, e) ↦ rw (has_depth, e) (index_of-keys v x s.depths e)
]

pub enter_all-keys :
    (w d : ℕ) (vs : List ℕ) (s : Levels) → In w vs → In w (keys (enter_all d vs s).depths)
unfolding enter_all
enter_all-keys w d [] s h = absurd h
enter_all-keys w d (v ∷ vs) s (inr h) = enter_all-keys w d vs (enter d v s) h
enter_all-keys w d (v ∷ vs) s (inl e) =
    enter_all-grows w d vs (enter d v s) (rw e (enter-keys d v s))

module _ (start : ℕ → Type 0) (next : ℕ → List ℕ) (univ : List ℕ) where
  -- Each entry is a walk's length, below the number of entries; the queue's nodes have entries.
  abbrev pub Levelled : Levels → Type 0
  Levelled s =
      ((v d : ℕ) → index_of v s.depths ≡ some d → Far start next v d × (d < length s.depths))
      × ((v : ℕ) → In v s.queue → In v (keys s.depths))
      × Distinct (keys s.depths)
      × ((v : ℕ) → In v (keys s.depths) → In v univ)

  pub visit-Levelled :
      (d v : ℕ) (s : Levels)
      → Far start next v d
      → d < suc (length s.depths)
      → In v univ
      → ¬ In v (keys s.depths)
      → Levelled s
      → Levelled (visit d v s)
  visit-Levelled d v s f l i n (k, q, x, r) = (
    λ w e h. elim (Bool-cases (w == v)) [
      | inl p ↦
          let y = some-eq d e (rw p at h) in (rw ((==_iff w v).0 p, sym y) f, omega (arith, y, l))
      | inr p ↦ let (a, b) = k w e (rw p at h) in (a, omega (arith, b))
    ],
    λ w h.
        ⊎_elim (λ j. inr (q w j)) (λ j. ⊎_elim inl (λ b. absurd b) j)
          (In-append w s.queue (v ∷ []) h),
    (n, x),
    λ w h. ⊎_elim (λ (p : w ≡ v). rw p i) (r w) h,
  )
