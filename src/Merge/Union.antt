-- ===== src/Merge/Union.antt =====
-- merge/resolver.rs: `merge_json_union` and its helpers.
pub mod Objects
pub mod Arrays
use claw_branch.Shared.{
  ℕ, zero, suc, Text, codes, Bool, true, false, not, Option, none, some, List, [], ◌∷◌,
  if◌then◌else◌,
}
use claw_branch.Json.{
  ℤ, pos, Value, null, bool, number, string, array, object, Items, nil, cons, Map, empty, entry,
  leb_ℤ, value_eq, get, insert, contains_key, as_i64, parse_i64,
}

-- `extract_timestamp`
unfoldable pub extract_timestamp : Map → Option ℤ
unfolding get as_i64 parse_i64
extract_timestamp m = elim (get (codes "updated_at") m) [
  | none ↦ none
  | some v ↦ elim v [ number n ↦ as_i64 n | string s ↦ parse_i64 s | _ ↦ none ]
]

-- `a.or(b)`
abbrev pub or_else : Option ℤ → Option ℤ → Option ℤ
or_else none b = b
or_else (some a) b = some a

-- `unwrap_or_default`
abbrev pub or_zero : Option ℤ → ℤ
or_zero none = pos 0
or_zero (some a) = a

-- The last case of the `match`: two scalars, or values of different shape.
unfoldable pub newer : Value → Value → Option ℤ → Option ℤ → Value
unfolding leb_ℤ
newer ours theirs ours_time theirs_time =
    if leb_ℤ (or_zero ours_time) (or_zero theirs_time) then theirs else ours

unfoldable pub same_ids : Option Value → Option Value → Value → Value → Bool
unfolding value_eq
same_ids (some i) (some j) left right = value_eq i j
same_ids (some i) none left right = value_eq left right
same_ids none j left right = value_eq left right

unfoldable pub same_identity : Value → Value → Bool
unfolding value_eq get same_ids
same_identity (object l) (object r) =
    same_ids (get (codes "id") l) (get (codes "id") r) (object l) (object r)
same_identity left right = value_eq left right

-- `theirs_array.iter().enumerate().find(...)`: the index and the item.
unfoldable pub find_identity : Value → Items → Option (ℕ × Value)
unfolding same_identity
find_identity x nil = none
find_identity x (cons y ys) =
    let rest = find_identity x ys in
    if same_identity x y
    then some (0, y)
    else elim rest [ none ↦ none | some (i, z) ↦ some (suc i, z) ]

-- `consumed[index] = true`
unfoldable pub mark : ℕ → List Bool → List Bool
mark i [] = []
mark zero (b ∷ bs) = true ∷ bs
mark (suc i) (b ∷ bs) = b ∷ mark i bs

-- What the loop over `ours_array` does to `consumed_theirs`.
unfoldable pub consume : Items → Items → List Bool → List Bool
unfolding find_identity mark
consume nil ys flags = flags
consume (cons x xs) ys flags =
    consume xs ys (elim (find_identity x ys) [ none ↦ flags | some (i, y) ↦ mark i flags ])

-- `vec![false; theirs_array.len()]`
unfoldable pub no_flags : Items → List Bool
no_flags nil = []
no_flags (cons y ys) = false ∷ no_flags ys

-- The loop that pushes what was not consumed.
unfoldable pub unconsumed : Items → List Bool → Items
unconsumed nil flags = nil
unconsumed (cons y ys) [] = cons y (unconsumed ys [])
unconsumed (cons y ys) (b ∷ flags) =
    let rest = unconsumed ys flags in if b then rest else cons y rest

unfoldable pub append : Items → Items → Items
append nil ys = ys
append (cons x xs) ys = cons x (append xs ys)

-- The second loop over the fields: those of theirs that are not merged yet.
unfoldable pub fill : Map → Map → Map
unfolding contains_key insert
fill merged empty = merged
fill merged (entry k v theirs) =
    fill (if not (contains_key k merged) then insert k v merged else merged) theirs

-- `merge_json_union_with_timestamp_context`, with its loop over `ours_obj` (after `merged`) and the
-- values that the loop of `merge_arrays_by_identity` over `ours_array` pushes.
unfoldable mutual
  unfolding extract_timestamp newer find_identity consume no_flags unconsumed append fill insert get

  pub merge_value : Value → Value → Option ℤ → Option ℤ → Value
  merge_value (object ours) (object theirs) s t = object (
      fill
        (merge_fields ours theirs empty (or_else (extract_timestamp ours) s)
          (or_else (extract_timestamp theirs) t))
        theirs)
  merge_value (array ours) (array theirs) s t = array (
      append (merge_items ours theirs s t)
        (unconsumed theirs (consume ours theirs (no_flags theirs))))
  merge_value null theirs s t = theirs
  merge_value ours null s t = ours
  merge_value ours theirs s t = newer ours theirs s t

  pub merge_fields : Map → Map → Map → Option ℤ → Option ℤ → Map
  merge_fields empty theirs merged s t = merged
  merge_fields (entry k v ours) theirs merged s t =
      merge_fields ours theirs
        (insert k (elim (get k theirs) [ none ↦ v | some w ↦ merge_value v w s t ]) merged) s t

  pub merge_items : Items → Items → Option ℤ → Option ℤ → Items
  merge_items nil theirs s t = nil
  merge_items (cons x xs) theirs s t =
      cons (elim (find_identity x theirs) [ none ↦ x | some (i, y) ↦ merge_value x y s t ])
        (merge_items xs theirs s t)

unfoldable pub merge_json_union : Value → Value → Value
unfolding merge_value
merge_json_union ours theirs = merge_value ours theirs none none
