-- ===== src/Merge/Union/Arrays.antt =====
-- merge/resolver.rs: the union of two arrays, item by item.
use claw_branch.Shared.{
  ℕ, suc, Bool, true, false, Option, none, some, List, [], ◌∷◌, ◌++◌, In, ◌≡◌, refl, sym, ap, arith,
  Bool-cases, Option-cases, inl, inr, ◌⊎◌, ⊎_elim, subst, In-append_left, In-append_right,
}
use claw_branch.Json.{ℤ, Value, array, Items, nil, cons}
use claw_branch.Merge.Union.{
  same_identity, find_identity, mark, consume, no_flags, unconsumed, append, merge_value,
  merge_items,
}

abbrev pub list_of : Items → List Value
list_of nil = []
list_of (cons x xs) = x ∷ list_of xs

-- The items of an array.
abbrev pub items_of : Value → List Value
items_of (array xs) = list_of xs
items_of _ = []

list_of-append : (xs ys : Items) → list_of (append xs ys) ≡ list_of xs ++ list_of ys
unfolding append
list_of-append nil ys = refl
list_of-append (cons x xs) ys = ap (λ r. x ∷ r) (list_of-append xs ys)

-- Where the item found stands.
FoundAt : Value → Value → Items → ℕ → Value → Type 0
FoundAt x y ys i z =
    ((same_identity x y ≡ true) × (i ≡ 0) × (y ≡ z))
    ⊎ ((j : ℕ) × (i ≡ suc j) × (find_identity x ys ≡ some (j, z)))

find_identity-FoundAt :
    (x y : Value) (ys : Items) (i : ℕ) (z : Value)
    → find_identity x (cons y ys) ≡ some (i, z)
    → FoundAt x y ys i z
unfolding find_identity FoundAt
find_identity-FoundAt x y ys i z h = elim (Bool-cases (same_identity x y)) [
  | inl s ↦ inl (s, ground arith, ground arith)
  | inr s ↦ elim (Option-cases (find_identity x ys)) [
    | inl n ↦ absurd (ground arith)
    | inr ((j, u), f) ↦ inr (j, ground arith, ground arith)
  ]
]

-- The item found has the identity, and is one of the array.
find_identity_sound :
    (x : Value) (ys : Items) (i : ℕ) (z : Value)
    → find_identity x ys ≡ some (i, z)
    → (same_identity x z ≡ true) × In z (list_of ys)
unfolding FoundAt find_identity
find_identity_sound x nil i z h = cc
find_identity_sound x (cons y ys) i z h =
    ⊎_elim (λ (s, p, q). (rw (← q) s, inl (sym q)))
      (λ (j, p, f). let (s, m) = find_identity_sound x ys j z f in (s, inr m))
      (find_identity-FoundAt x y ys i z h)

unconsumed-none : (ys : Items) (y : Value) → In y (list_of ys) → In y (list_of (unconsumed ys []))
unfolding unconsumed
unconsumed-none nil y m = m
unconsumed-none (cons z ys) y m = ⊎_elim inl (λ q. inr (unconsumed-none ys y q)) m

-- The flags mark only items of which `W` holds.
abbrev Flagged : (Value → Type 0) → Items → List Bool → Type 0
Flagged W nil flags = Unit
Flagged W (cons y ys) [] = Unit
Flagged W (cons y ys) (b ∷ flags) = (b ≡ true → W y) × Flagged W ys flags

module _ (W : Value → Type 0) where
  Flagged-mark :
      (x : Value) (ys : Items) (flags : List Bool) (i : ℕ) (z : Value)
      → find_identity x ys ≡ some (i, z)
      → W z
      → Flagged W ys flags
      → Flagged W ys (mark i flags)
  unfolding mark FoundAt
  Flagged-mark x nil flags i z e w h = tt
  Flagged-mark x (cons y ys) [] i z e w h = tt
  Flagged-mark x (cons y ys) (b ∷ flags) i z e w h =
      ⊎_elim (λ (s, p, q). rw p (λ _. rw q w, h.1))
        (λ (j, p, f). rw p (h.0, Flagged-mark x ys flags j z f w h.1))
        (find_identity-FoundAt x y ys i z e)

  Flagged-consume :
      (xs ys : Items) (flags : List Bool)
      → ((x z : Value) (i : ℕ) → In x (list_of xs) → find_identity x ys ≡ some (i, z) → W z)
      → Flagged W ys flags
      → Flagged W ys (consume xs ys flags)
  unfolding consume
  Flagged-consume nil ys flags w h = h
  Flagged-consume (cons x xs) ys flags w h = elim (Option-cases (find_identity x ys)) [
    | inl n ↦ rw (n, consume) (Flagged-consume xs ys flags (λ u z i m. w u z i (inr m)) h)
    | inr ((i, z), f) ↦
        rw (f, consume)
          (Flagged-consume xs ys (mark i flags) (λ u z i m. w u z i (inr m))
            (Flagged-mark x ys flags i z f (w x z i (inl refl) f) h))
  ]

  Flagged-no_flags : (ys : Items) → Flagged W ys (no_flags ys)
  unfolding no_flags
  Flagged-no_flags nil = tt
  Flagged-no_flags (cons y ys) = (λ e. cc, Flagged-no_flags ys)

  -- What is not flagged is pushed.
  Flagged-unconsumed :
      (ys : Items) (flags : List Bool) (y : Value)
      → Flagged W ys flags
      → In y (list_of ys)
      → W y ⊎ In y (list_of (unconsumed ys flags))
  unfolding unconsumed
  Flagged-unconsumed nil flags y h m = absurd m
  Flagged-unconsumed (cons z ys) [] y h m = inr (unconsumed-none (cons z ys) y m)
  Flagged-unconsumed (cons z ys) (true ∷ flags) y h m =
      ⊎_elim (λ p. inl (rw p (h.0 refl))) (Flagged-unconsumed ys flags y h.1) m
  Flagged-unconsumed (cons z ys) (false ∷ flags) y h m =
      ⊎_elim (λ p. inr (inl p))
        (λ q. ⊎_elim inl (λ r. inr (inr r)) (Flagged-unconsumed ys flags y h.1 q)) m

-- What the loop pushes for an item of ours.
abbrev pushed : Option (ℕ × Value) → Value → Option ℤ → Option ℤ → Value
pushed none x s t = x
pushed (some (i, y)) x s t = merge_value x y s t

merge_items-cons :
    (x : Value) (xs ys : Items) (s t : Option ℤ)
    → list_of (merge_items (cons x xs) ys s t)
      ≡ pushed (find_identity x ys) x s t ∷ list_of (merge_items xs ys s t)
unfolding merge_value
merge_items-cons x xs ys s t = elim (Option-cases (find_identity x ys)) [
  | inl e ↦ rw (e, merge_items) refl
  | inr (p, e) ↦ rw (e, merge_items) refl
]

merge_value-arrays :
    (xs ys : Items) (s t : Option ℤ)
    → items_of (merge_value (array xs) (array ys) s t)
      ≡ list_of (append (merge_items xs ys s t) (unconsumed ys (consume xs ys (no_flags ys))))
unfolding merge_value
merge_value-arrays xs ys s t = refl

module _ (s t : Option ℤ) where
  -- An item of ours stands in the union as it is, or merged with an item of theirs of its identity.
  abbrev pub OursKept : Items → Value → List Value → Type 0
  OursKept ys x union =
      In x union
      ⊎ ((y : Value) × In y (list_of ys)
          × (same_identity x y ≡ true)
          × In (merge_value x y s t) union)

  abbrev pub TheirsKept : Items → Value → List Value → Type 0
  TheirsKept xs y union =
      In y union
      ⊎ ((x : Value) × In x (list_of xs)
          × (same_identity x y ≡ true)
          × In (merge_value x y s t) union)

  pushed-In :
      (xs ys : Items) (x : Value)
      → In x (list_of xs)
      → In (pushed (find_identity x ys) x s t) (list_of (merge_items xs ys s t))
  pushed-In nil ys x m = absurd m
  pushed-In (cons z xs) ys x m = rw (merge_items-cons z xs ys s t) (
      ⊎_elim (λ p. inl (ap (λ u. pushed (find_identity u ys) u s t) p))
        (λ q. inr (pushed-In xs ys x q)) m)

  merge_items-In :
      (xs ys : Items) (x z : Value) (i : ℕ)
      → In x (list_of xs)
      → find_identity x ys ≡ some (i, z)
      → In (merge_value x z s t) (list_of (merge_items xs ys s t))
  merge_items-In xs ys x z i m e =
      subst (λ o. In (pushed o x s t) (list_of (merge_items xs ys s t))) e (pushed-In xs ys x m)

  merge_items-Kept :
      (xs ys : Items) (x : Value)
      → In x (list_of xs)
      → OursKept ys x (list_of (merge_items xs ys s t))
  merge_items-Kept xs ys x m = elim (Option-cases (find_identity x ys)) [
    | inl n ↦
        inl (
          subst (λ o. In (pushed o x s t) (list_of (merge_items xs ys s t))) n
            (pushed-In xs ys x m))
    | inr ((i, y), f) ↦
        let (same, found) = find_identity_sound x ys i y f in
        inr (y, found, same, merge_items-In xs ys x y i m f)
  ]

  theirs-Kept :
      (xs ys : Items) (y : Value)
      → In y (list_of ys)
      → ((x : Value) × In x (list_of xs)
          × (same_identity x y ≡ true)
          × In (merge_value x y s t) (list_of (merge_items xs ys s t)))
        ⊎ In y (list_of (unconsumed ys (consume xs ys (no_flags ys))))
  theirs-Kept xs ys y m =
      let W : Value → Type 0 = λ z.
        (x : Value) × In x (list_of xs)
        × (same_identity x z ≡ true)
        × In (merge_value x z s t) (list_of (merge_items xs ys s t)) in
      Flagged-unconsumed W ys (consume xs ys (no_flags ys)) y
        (Flagged-consume W xs ys (no_flags ys)
          (λ x z i p e. (x, p, (find_identity_sound x ys i z e).0, merge_items-In xs ys x z i p e))
          (Flagged-no_flags W ys))
        m

  -- The union of two arrays loses no item: each item of either side stands in it as it is, or
  -- merged with an item of the other side that has its identity.
  pub merge_value-kept :
      (xs ys : Items)
      → ((x : Value)
          → In x (list_of xs)
          → OursKept ys x (items_of (merge_value (array xs) (array ys) s t)))
        × ((y : Value)
            → In y (list_of ys)
            → TheirsKept xs y (items_of (merge_value (array xs) (array ys) s t)))
  merge_value-kept xs ys =
      let merged = merge_items xs ys s t in
      let rest = unconsumed ys (consume xs ys (no_flags ys)) in
      rw (merge_value-arrays xs ys s t, list_of-append merged rest)
        (
          λ x m.
              ⊎_elim (λ p. inl (In-append_left x (list_of merged) (list_of rest) p))
                (λ (y, f, e, p).
                  inr (
                    y,
                    f,
                    e,
                    In-append_left (merge_value x y s t) (list_of merged) (list_of rest) p,
                  ))
                (merge_items-Kept xs ys x m),
          λ y m.
              ⊎_elim
                (λ (x, f, e, p).
                  inr (
                    x,
                    f,
                    e,
                    In-append_left (merge_value x y s t) (list_of merged) (list_of rest) p,
                  ))
                (λ p. inl (In-append_right y (list_of merged) (list_of rest) p))
                (theirs-Kept xs ys y m),
        )
