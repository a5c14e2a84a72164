-- ===== src/Dag/Search/Scan.antt =====
-- What one pass over the neighbours of a node does to the state of the search.
use claw_branch.Shared.{
  ℕ, suc, ◌+◌, arith, ◌≡◌, refl, sym, subst, ◌⊎◌, inl, inr, ⊎_elim, true, false, Bool-cases, List,
  [], ◌∷◌, ◌++◌, any, length, In, Distinct, ◌==◌, length-append, In-append, In-append_left,
  In-append_right,
}
use claw_branch.Dag.Search.{Discipline, stack, queue, pend, Search, is_seen, offer, scan}

pub seen-In : (v : ℕ) (s : Search) → is_seen v s ≡ true → In v s.seen
seen-In v s h = go s.seen h
  where
    go : (us : List ℕ) → any (λ u. u == v) us ≡ true → In v us
    go [] h = cc
    go (u ∷ us) h = ground (arith, go us)

pub unseen-In : (v : ℕ) (s : Search) → is_seen v s ≡ false → ¬ In v s.seen
unseen-In v s h = go s.seen h
  where
    go : (us : List ℕ) → any (λ u. u == v) us ≡ false → ¬ In v us
    go [] h k = k
    go (u ∷ us) h k = ground (arith, go us)

pub In-pend : (d : Discipline) (v w : ℕ) (ps : List ℕ) → In w (pend d v ps) → (w ≡ v) ⊎ In w ps
In-pend stack v w ps h = h
In-pend queue v w ps h = ⊎_elim inr (λ k. ⊎_elim inl (λ b. absurd b) k) (In-append w ps (v ∷ []) h)

pub pend-In : (d : Discipline) (v w : ℕ) (ps : List ℕ) → (w ≡ v) ⊎ In w ps → In w (pend d v ps)
pend-In stack v w ps h = h
pend-In queue v w ps (inl e) = In-append_right w ps (v ∷ []) (inl e)
pend-In queue v w ps (inr h) = In-append_left w ps (v ∷ []) h

length-pend : (d : Discipline) (v : ℕ) (ps : List ℕ) → length (pend d v ps) ≡ suc (length ps)
length-pend stack v ps = refl
length-pend queue v ps = omega (arith, length-append ps (v ∷ []))

pub Distinct-snoc : (xs : List ℕ) (v : ℕ) → Distinct xs → ¬ In v xs → Distinct (xs ++ v ∷ [])
Distinct-snoc [] v d n = (λ h. h, tt)
Distinct-snoc (x ∷ xs) v d n = (
  λ h. ⊎_elim d.0 (λ k. ⊎_elim (λ e. n (inl (sym e))) (λ b. b) k) (In-append x xs (v ∷ []) h),
  Distinct-snoc xs v d.1 (λ h. n (inr h)),
)

-- The state after a node that was not seen.
abbrev pub visit : Discipline → ℕ → Search → Search
visit d v s = record {
  seen = v ∷ s.seen;
  output = s.output ++ v ∷ [];
  pending = pend d v s.pending;
}

module _ (d : Discipline) where
  offer-old : (v : ℕ) (s : Search) → is_seen v s ≡ true → offer d v s ≡ s
  unfolding offer
  offer-old v s e = rw e refl

  offer-visit : (v : ℕ) (s : Search) → is_seen v s ≡ false → offer d v s ≡ visit d v s
  unfolding offer
  offer-visit v s e = rw e refl

  offer-seen : (v : ℕ) (s : Search) → In v (offer d v s).seen
  offer-seen v s = elim (Bool-cases (is_seen v s)) [
    | inl e ↦ subst (λ (r : Search). In v r.seen) (sym (offer-old v s e)) (seen-In v s e)
    | inr e ↦ subst (λ (r : Search). In v r.seen) (sym (offer-visit v s e)) (inl refl)
  ]

  -- What every visit of an unseen neighbour keeps, the pass over the neighbours keeps.
  pub scan-keeps :
      (P : Search → Type 0) (vs : List ℕ)
      → ((v : ℕ) (s : Search) → In v vs → is_seen v s ≡ false → P s → P (visit d v s))
      → (s : Search) → P s
      → P (scan d vs s)
  unfolding scan
  scan-keeps P [] k s p = p
  scan-keeps P (v ∷ vs) k s p = elim (Bool-cases (is_seen v s)) [
    | inl e ↦ rw (offer-old v s e) (scan-keeps P vs (λ w r h. k w r (inr h)) s p)
    | inr e ↦
        rw (offer-visit v s e)
          (scan-keeps P vs (λ w r h. k w r (inr h)) (visit d v s) (k v s (inl refl) e p))
  ]

  pub scan-grows : (w : ℕ) (vs : List ℕ) (s : Search) → In w s.seen → In w (scan d vs s).seen
  scan-grows w vs s h = scan-keeps (λ (r : Search). In w r.seen) vs (λ v r i e p. inr p) s h

  pub scan-all : (w : ℕ) (vs : List ℕ) (s : Search) → In w vs → In w (scan d vs s).seen
  unfolding scan
  scan-all w [] s h = absurd h
  scan-all w (v ∷ vs) s (inr h) = scan-all w vs (offer d v s) h
  scan-all w (v ∷ vs) s (inl q) = scan-grows w vs (offer d v s) (rw q (offer-seen v s))

  -- Every node that becomes seen becomes pending, and none else.
  pub scan-work :
      (vs : List ℕ) (s : Search)
      → length (scan d vs s).pending + length s.seen ≡ length s.pending + length (scan d vs s).seen
  scan-work vs s =
      scan-keeps
        (λ (r : Search). length r.pending + length s.seen ≡ length s.pending + length r.seen) vs
        (λ v r i e p. omega (arith, length-pend d v r.pending, p)) s refl
