-- ===== src/Dag/Search/Invariant.antt =====
-- What a visit keeps of the state of the search, and the nodes that a search is about.
use claw_branch.Shared.{
  ℕ, ◌≡◌, ◌⊎◌, inl, inr, ⊎_elim, ◌↔◌, false, List, [], ◌∷◌, In, Distinct, In-append, In-append_left,
  In-append_right, subst_In,
}
use claw_branch.Dag.Search.{Discipline, Search, is_seen}
use claw_branch.Dag.Search.Scan.{visit, unseen-In, In-pend, Distinct-snoc}

-- The nodes at the end of a walk of one step or more.
pub data Reached (next : ℕ → List ℕ) (from : ℕ) : ℕ → Type 0 where
  one : {v : ℕ} → In v (next from) → Reached next from v
  more : {u v : ℕ} → Reached next from u → In v (next u) → Reached next from v

abbrev pub AtOrReached : (ℕ → List ℕ) → ℕ → ℕ → Type 0
AtOrReached next from v = (v ≡ from) ⊎ Reached next from v

pub step-Reached :
    (next : ℕ → List ℕ) (from u v : ℕ)
    → AtOrReached next from u
    → In v (next u)
    → Reached next from v
step-Reached next from u v (inl e) h = one (rw e at h)
step-Reached next from u v (inr r) h = more r h

module _ (next : ℕ → List ℕ) (from : ℕ) (before univ : List ℕ) where
  abbrev pub Pending : Search → Type 0
  Pending s = (v : ℕ) → In v s.pending → AtOrReached next from v

  abbrev pub Output : Search → Type 0
  Output s = (v : ℕ) → In v s.output → Reached next from v × (¬ In v before)

  abbrev pub Counted : Search → Type 0
  Counted s = (v : ℕ) → In v s.seen ↔ (In v before ⊎ In v s.output)

  abbrev pub Single : Search → Type 0
  Single s = Distinct s.seen × Distinct s.output × ((v : ℕ) → In v s.seen → In v univ)

  abbrev pub Sound : Search → Type 0
  Sound s = Pending s × Output s × Counted s × Single s

  -- A node that is at the start or seen is pending, or all its neighbours are seen.
  abbrev pub Complete : Search → Type 0
  Complete s =
      (u : ℕ) → (u ≡ from) ⊎ In u s.seen → In u s.pending ⊎ ((w : ℕ) → In w (next u) → In w s.seen)

  pub Pending-visit :
      (d : Discipline) (u v : ℕ) (s : Search)
      → AtOrReached next from u
      → In v (next u)
      → Pending s
      → Pending (visit d v s)
  Pending-visit d u v s a i p w h =
      ⊎_elim (λ e. rw e (inr (step-Reached next from u v a i))) (p w) (In-pend d v w s.pending h)

  pub Output-visit :
      (d : Discipline) (u v : ℕ) (s : Search)
      → AtOrReached next from u
      → In v (next u)
      → is_seen v s ≡ false
      → Counted s
      → Output s
      → Output (visit d v s)
  Output-visit d u v s a i e c o w h =
      ⊎_elim (o w)
        (λ k.
          ⊎_elim
            (λ q. (
              rw q (step-Reached next from u v a i),
              λ b. unseen-In v s e ((c v).1 (inl (subst_In before q b))),
            ))
            (λ b. absurd b) k)
        (In-append w s.output (v ∷ []) h)

  pub Counted-visit : (d : Discipline) (v : ℕ) (s : Search) → Counted s → Counted (visit d v s)
  Counted-visit d v s c w = (
    λ h.
        ⊎_elim (λ e. inr (In-append_right w s.output (v ∷ []) (inl e)))
          (λ k. ⊎_elim inl (λ o. inr (In-append_left w s.output (v ∷ []) o)) ((c w).0 k)) h,
    λ h.
        ⊎_elim (λ b. inr ((c w).1 (inl b)))
          (λ k.
            ⊎_elim (λ o. inr ((c w).1 (inr o))) (λ q. ⊎_elim inl (λ b. absurd b) q)
              (In-append w s.output (v ∷ []) k))
          h,
  )

  pub Single-visit :
      (d : Discipline) (v : ℕ) (s : Search)
      → In v univ
      → is_seen v s ≡ false
      → Counted s
      → Single s
      → Single (visit d v s)
  Single-visit d v s i e c (ds, o, r) = (
    (unseen-In v s e, ds),
    Distinct-snoc s.output v o (λ h. unseen-In v s e ((c v).1 (inr h))),
    λ w h. ⊎_elim (λ q. rw q i) (r w) h,
  )
