-- ===== src/Naming/Unique.antt =====
-- branch/naming.rs: the candidates that `make_unique` tries.
use mathlib.Core.List.{reverse-reverse}
use claw_branch.Shared.{
  ℕ, zero, suc, ◌+◌, ◌-◌, ◌*◌, ◌/◌, ◌==◌, ==_iff, ⊎_elim, ◌≤◌, ◌<◌, Text, text_eq, text_eq→≡,
  text_eq_refl, true, false, some, List, [], ◌∷◌, ◌++◌, reverse, length, ◌≡◌, refl, sym, ap, ◌∙◌,
  arith, Bool-cases, inl, inr, ◌⊎◌, In, Distinct, pigeonhole,
}
use claw_branch.Naming.{digits_rev, show, taken, candidate, unique_loop, make_unique}

-- The number that digits in reverse stand for.
value : Text → ℕ
value [] = 0
value (d ∷ ds) = d - b'0' + 10 * value ds

value-digits_rev : (f n : ℕ) → n < f → value (digits_rev f n) ≡ n
unfolding value digits_rev
value-digits_rev zero n h = absurd (omega arith)
value-digits_rev (suc f) n h = ground (arith, value-digits_rev f (n / 10))

show-injective : (m n : ℕ) → show m ≡ show n → m ≡ n
unfolding show
show-injective m n h =
    let e =
      sym (reverse-reverse (digits_rev (suc m) m))
      ∙ ap reverse h
      ∙ reverse-reverse (digits_rev (suc n) n) in
    sym (value-digits_rev (suc m) m (omega arith))
    ∙ ap value e
    ∙ value-digits_rev (suc n) n (omega arith)

cancel-append : (s t u : Text) → s ++ t ≡ s ++ u → t ≡ u
cancel-append [] t u h = h
cancel-append (c ∷ s) t u h = cancel-append s t u (cc)

candidate-injective : (s : Text) (m n : ℕ) → candidate s m ≡ candidate s n → m ≡ n
unfolding candidate
candidate-injective s m n h =
    show-injective m n (cc (cancel-append s (b'-' ∷ show m) (b'-' ∷ show n) h))

taken-In : (s : Text) (existing : List Text) → taken s existing ≡ true → In s existing
unfolding taken
taken-In s [] h = cc
taken-In s (e ∷ es) h = elim (Bool-cases (text_eq e s)) [
  | inl p ↦ inl (sym (text_eq→≡ e s p))
  | inr p ↦ inr (taken-In s es (rw p at h))
]

pub In-taken : (s : Text) (existing : List Text) → In s existing → taken s existing ≡ true
unfolding taken
In-taken s [] h = absurd h
In-taken s (e ∷ es) (inl p) = rw (← p, text_eq_refl) refl
In-taken s (e ∷ es) (inr p) = ground (arith, In-taken s es p)

-- The candidates from one index on.
abbrev candidates : Text → ℕ → ℕ → List Text
candidates s zero i = []
candidates s (suc f) i = candidate s i ∷ candidates s f (i + 1)

length-candidates : (s : Text) (f i : ℕ) → length (candidates s f i) ≡ f
length-candidates s zero i = refl
length-candidates s (suc f) i = ap suc (length-candidates s f (i + 1))

not-In-candidates : (s : Text) (f i j : ℕ) → j < i → ¬ In (candidate s j) (candidates s f i)
not-In-candidates s zero i j h p = p
not-In-candidates s (suc f) i j h (inl e) = absurd (omega (arith, candidate-injective s j i e))
not-In-candidates s (suc f) i j h (inr p) = not-In-candidates s f (i + 1) j (omega arith) p

Distinct-candidates : (s : Text) (f i : ℕ) → Distinct (candidates s f i)
Distinct-candidates s zero i = tt
Distinct-candidates s (suc f) i =
    (not-In-candidates s f (i + 1) i (omega arith), Distinct-candidates s f (i + 1))

module _ (slug : Text) (existing : List Text) where
  -- A result is the first free candidate; without one all the candidates tried are taken.
  abbrev FirstFree : ℕ → ℕ → Text → Type 0
  FirstFree f index r =
      (k : ℕ) × (index ≤ k)
      × (k < index + f)
      × (r ≡ candidate slug k)
      × (taken r existing ≡ false)
      × ((j : ℕ) → index ≤ j → j < k → taken (candidate slug j) existing ≡ true)

  first_at :
      (index k : ℕ)
      → taken (candidate slug index) existing ≡ true
      → ((j : ℕ) → index + 1 ≤ j → j < k → taken (candidate slug j) existing ≡ true)
      → (j : ℕ) → index ≤ j
      → j < k
      → taken (candidate slug j) existing ≡ true
  first_at index k old first j l h = elim (Bool-cases (j == index)) [
    | inl e ↦ rw ((==_iff j index).0 e) old
    | inr e ↦ first j (ground arith) h
  ]

  unique_loop-cases :
      (f index : ℕ)
      → ((r : Text) × (unique_loop f slug existing index ≡ some r) × FirstFree f index r)
        ⊎ ((a : Text) → In a (candidates slug f index) → In a existing)
  unfolding unique_loop
  unique_loop-cases zero index = inr (λ a h. absurd h)
  unique_loop-cases (suc f) index = elim (Bool-cases (taken (candidate slug index) existing)) [
    | inr free ↦ inl (
      candidate slug index,
      rw free refl,
      (index, omega arith, omega arith, refl, free, λ j l h. absurd (omega arith)),
    )
    | inl old ↦ elim (unique_loop-cases f (index + 1)) [
      | inl (r, e, (k, l, u, c, free, first)) ↦
          inl (r, rw old e, (k, omega arith, omega arith, c, free, first_at index k old first))
      | inr all ↦
          inr (λ a h. ⊎_elim (λ q. rw q (taken-In (candidate slug index) existing old)) (all a) h)
    ]
  ]

  -- One candidate more than there are slugs cannot all be taken.
  unique_loop_total :
      (f index : ℕ)
      → length existing < f
      → (r : Text) × (unique_loop f slug existing index ≡ some r) × FirstFree f index r
  unique_loop_total f index h = elim (unique_loop-cases f index) [
    | inl found ↦ found
    | inr all ↦ absurd (
        omega (
          arith,
          length-candidates slug f index,
          pigeonhole (candidates slug f index) existing (Distinct-candidates slug f index) all,
        ))
  ]

-- `make_unique` returns: the slug itself if no branch has it, else the first of slug-2, slug-3, ...
-- that no branch has. The number is at most the number of branches plus two, so the `u32` counter
-- does not wrap below 2^32 - 3 branches.
pub make_unique_first :
    (slug : Text) (existing : List Text)
    → (r : Text) × (make_unique slug existing ≡ some r)
      × (taken r existing ≡ false)
      × ((r ≡ slug)
          ⊎ (taken slug existing ≡ true)
            × ((k : ℕ) × (2 ≤ k)
                × (k ≤ length existing + 2)
                × (r ≡ candidate slug k)
                × ((j : ℕ) → 2 ≤ j → j < k → taken (candidate slug j) existing ≡ true)))
unfolding make_unique
make_unique_first slug existing = elim (Bool-cases (taken slug existing)) [
  | inr free ↦ (slug, rw free refl, free, inl refl)
  | inl old ↦
      let (r, e, (k, l, u, c, free, first)) =
        unique_loop_total slug existing (suc (length existing)) 2 (omega arith) in
      (r, rw old e, free, inr (old, (k, l, omega arith, c, first)))
]
