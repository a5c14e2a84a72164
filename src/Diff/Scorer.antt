-- ===== src/Diff/Scorer.antt =====
-- diff/scorer.rs: scores of diffs and similarities of values. `ratio` stands for the ratio of
-- `TextDiff::from_chars`, `as_f64` for serde_json's reading of a number, `show` for its printed form.
pub mod Depth
use claw_branch.Shared.{
  ℕ, zero, suc, Text, text_eq, ◌&&◌, Option, none, some, List, [], ◌∷◌, is_empty, any, keep, length,
  max, ◌==◌, if◌then◌else◌,
}
use claw_branch.Json.{
  Value, string, number, object, array, Number, Items, nil, cons, Map, keys, value_eq,
}
use claw_branch.Types.{F64, DiffResult}
use claw_branch.Floats.{Floats}
use claw_branch.Diff.{union_keys, add_key, get_or_null}

module _ (f : Floats) (ratio : Text → Text → F64) (as_f64 : Number → F64)
    (show : Value → Text) where
  abbrev pub clamp : F64 → F64
  clamp x = f.fmin (f.fmax x (f.of_nat 0)) (f.of_nat 1)

  unfoldable pub score : DiffResult → ℕ → F64
  score d total_entities_base =
      let numerator =
        f.add (f.add (f.of_nat d.stats.n_added) (f.of_nat d.stats.n_removed))
          (f.mul (f.of_nat d.stats.n_modified) (f.percent 50)) in
      clamp (f.div numerator (f.of_nat (max total_entities_base 1)))

  unfoldable pub string_similarity : Text → Text → F64
  string_similarity a b =
      if is_empty a && is_empty b
      then f.of_nat 1
      else if is_empty a
      then f.of_nat 0
      else if is_empty b
      then f.of_nat 0
      else ratio a b

  unfoldable pub numeric_similarity : F64 → F64 → F64
  numeric_similarity a b =
      let greatest = f.fmax (f.fmax (f.fabs a) (f.fabs b)) (f.of_nat 1) in
      clamp (f.sub (f.of_nat 1) (f.div (f.fabs (f.sub a b)) greatest))

  -- The printed elements, as a set.
  unfoldable pub printed : Items → List Text → List Text
  unfolding add_key
  printed nil acc = acc
  printed (cons v vs) acc = printed vs (add_key (show v) acc)

  unfoldable pub array_jaccard : Items → Items → F64
  unfolding printed union_keys text_eq
  array_jaccard a b =
      let a_set = printed a [] in
      let b_set = printed b [] in
      let both = length (keep (λ t. any (text_eq t) b_set) a_set) in
      let either = length (union_keys b_set a_set) in
      if either == 0 then f.of_nat 1 else f.div (f.of_nat both) (f.of_nat either)

  -- The sum over the keys, from the left.
  unfoldable pub sum_similar :
      (Value → Value → Option F64) → Map → Map → List Text → F64 → Option F64
  unfolding get_or_null
  sum_similar similar a b [] acc = some acc
  sum_similar similar a b (k ∷ ks) acc = elim (similar (get_or_null k a) (get_or_null k b)) [
    | none ↦ none
    | some x ↦ sum_similar similar a b ks (f.add acc x)
  ]

  unfoldable pub object_similarity : (Value → Value → Option F64) → Map → Map → Option F64
  unfolding sum_similar union_keys keys
  object_similarity similar a b =
      let ks = union_keys (keys b) (union_keys (keys a) []) in
      if is_empty ks then some (f.of_nat 1) else elim (sum_similar similar a b ks (f.of_nat 0)) [
        | none ↦ none
        | some total ↦ some (f.div total (f.of_nat (length ks)))
      ]

  -- The `match (a, b)`.
  unfoldable pub by_kind : (Value → Value → Option F64) → Value → Value → Option F64
  unfolding string_similarity numeric_similarity object_similarity array_jaccard
  by_kind similar (string a) (string b) = some (string_similarity a b)
  by_kind similar (number a) (number b) = some (numeric_similarity (as_f64 a) (as_f64 b))
  by_kind similar (object a) (object b) = object_similarity similar a b
  by_kind similar (array a) (array b) = some (array_jaccard a b)
  by_kind similar _ _ = some (f.of_nat 0)

  -- The recursion, on fuel.
  unfoldable pub score_field_similarity : ℕ → Value → Value → Option F64
  unfolding value_eq by_kind
  score_field_similarity zero a b = none
  score_field_similarity (suc fuel) a b =
      if value_eq a b then some (f.of_nat 1) else by_kind (score_field_similarity fuel) a b
