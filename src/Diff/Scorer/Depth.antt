-- ===== src/Diff/Scorer/Depth.antt =====
-- How deep the recursion of the similarity goes.
use claw_branch.Shared.{
  ℕ, zero, suc, ◌<◌, ◌≤◌, max, arith, Text, text_eq, Bool-cases, Option, some, List, [], ◌∷◌,
  is_empty, length, ◌≡◌, refl, inl, inr,
}
use claw_branch.Json.{
  Value, null, bool, number, string, array, object, Number, Map, empty, entry, get, keys, value_eq,
}
use claw_branch.Types.{F64}
use claw_branch.Floats.{Floats}
use claw_branch.Diff.{get_or_null, union_keys}
use claw_branch.Diff.Scorer.{sum_similar, object_similarity, by_kind, score_field_similarity}

-- How many objects stand inside one another.
mutual
  pub depth : Value → ℕ
  depth (object m) = suc (map_depth m)
  depth null = 0
  depth (bool b) = 0
  depth (number n) = 0
  depth (string s) = 0
  depth (array a) = 0

  pub map_depth : Map → ℕ
  map_depth empty = 0
  map_depth (entry k v m) = max (depth v) (map_depth m)

get_or_null-depth : (k : Text) (m : Map) → depth (get_or_null k m) ≤ map_depth m
unfolding get_or_null get depth
get_or_null-depth k empty = omega arith
get_or_null-depth k (entry j v m) = elim (Bool-cases (text_eq k j)) [
  | inl e ↦ rw (get_or_null, get, e) (omega arith)
  | inr e ↦ rw (get_or_null, get, e) (omega (arith, get_or_null-depth k m))
]

module _ (f : Floats) (ratio : Text → Text → F64) (as_f64 : Number → F64)
    (show : Value → Text) where
  abbrev Answers : (Value → Value → Option F64) → ℕ → Type 0
  Answers similar n = (a b : Value) → depth a < n → (x : F64) × (similar a b ≡ some x)

  sum_similar-some :
      (similar : Value → Value → Option F64) (n : ℕ)
      → Answers similar n
      → (a b : Map) → map_depth a < n
      → (ks : List Text) (acc : F64)
      → (x : F64) × (sum_similar f ratio as_f64 show similar a b ks acc ≡ some x)
  unfolding sum_similar
  sum_similar-some similar n ans a b h [] acc = (acc, refl)
  sum_similar-some similar n ans a b h (k ∷ ks) acc =
      let (x, e) =
        ans (get_or_null k a) (get_or_null k b) (omega (arith, get_or_null-depth k a, h)) in
      let (y, q) = sum_similar-some similar n ans a b h ks (f.add acc x) in
      (y, rw (sum_similar, e) q)

  object_similarity-some :
      (similar : Value → Value → Option F64) (n : ℕ)
      → Answers similar n
      → (a b : Map) → map_depth a < n
      → (x : F64) × (object_similarity f ratio as_f64 show similar a b ≡ some x)
  unfolding object_similarity
  object_similarity-some similar n ans a b h =
      let ks = union_keys (keys b) (union_keys (keys a) []) in
      elim (Bool-cases (is_empty ks)) [
        | inl e ↦ (f.of_nat 1, rw (object_similarity, e) refl)
        | inr e ↦
            let (total, q) = sum_similar-some similar n ans a b h ks (f.of_nat 0) in
            (f.div total (f.of_nat (length ks)), rw (object_similarity, e, q) refl)
      ]

  by_kind-some :
      (similar : Value → Value → Option F64) (n : ℕ)
      → Answers similar n
      → (a b : Value) → depth a < suc n
      → (x : F64) × (by_kind f ratio as_f64 show similar a b ≡ some x)
  unfolding by_kind depth
  by_kind-some similar n ans (object a) (object b) h =
      object_similarity-some similar n ans a b (omega (arith, h))
  by_kind-some similar n ans (string a) (string b) h = (_, refl)
  by_kind-some similar n ans (number a) (number b) h = (_, refl)
  by_kind-some similar n ans (array a) (array b) h = (_, refl)
  by_kind-some similar n ans null b h = (_, refl)
  by_kind-some similar n ans (bool a) b h = (_, refl)
  by_kind-some similar n ans (object a) null h = (_, refl)
  by_kind-some similar n ans (object a) (bool b) h = (_, refl)
  by_kind-some similar n ans (object a) (number b) h = (_, refl)
  by_kind-some similar n ans (object a) (string b) h = (_, refl)
  by_kind-some similar n ans (object a) (array b) h = (_, refl)
  by_kind-some similar n ans (string a) null h = (_, refl)
  by_kind-some similar n ans (string a) (bool b) h = (_, refl)
  by_kind-some similar n ans (string a) (number b) h = (_, refl)
  by_kind-some similar n ans (string a) (array b) h = (_, refl)
  by_kind-some similar n ans (string a) (object b) h = (_, refl)
  by_kind-some similar n ans (number a) null h = (_, refl)
  by_kind-some similar n ans (number a) (bool b) h = (_, refl)
  by_kind-some similar n ans (number a) (string b) h = (_, refl)
  by_kind-some similar n ans (number a) (array b) h = (_, refl)
  by_kind-some similar n ans (number a) (object b) h = (_, refl)
  by_kind-some similar n ans (array a) null h = (_, refl)
  by_kind-some similar n ans (array a) (bool b) h = (_, refl)
  by_kind-some similar n ans (array a) (number b) h = (_, refl)
  by_kind-some similar n ans (array a) (string b) h = (_, refl)
  by_kind-some similar n ans (array a) (object b) h = (_, refl)

  -- The similarity of two values is found on more fuel than objects stand inside one another in the
  -- first value.
  pub score_field_similarity-some :
      (fuel : ℕ) (a b : Value)
      → depth a < fuel
      → (x : F64) × (score_field_similarity f ratio as_f64 show fuel a b ≡ some x)
  unfolding score_field_similarity
  score_field_similarity-some zero a b h = absurd (omega (arith, h))
  score_field_similarity-some (suc fuel) a b h = elim (Bool-cases (value_eq a b)) [
    | inl e ↦ (f.of_nat 1, rw (score_field_similarity, e) refl)
    | inr e ↦
        let (x, q) =
          by_kind-some (score_field_similarity f ratio as_f64 show fuel) fuel
            (λ c d. score_field_similarity-some fuel c d) a b h in
        (x, rw (score_field_similarity, e) q)
  ]
