-- ===== src/Examples/Unions.antt =====
-- merge/conflict.rs and merge/resolver.rs at small values.
use claw_branch.Shared.{
  ℕ, Text, codes, false, none, some, [], ◌∷◌, if◌then◌else◌, ◌≡◌, ◌↔◌, refl, inl, In, ⊎_elim,
  text_eq, text_eq_iff, Distinct,
}
use claw_branch.Json.{
  pos, Value, null, number, string, array, object, Items, nil, cons, Map, empty, entry, get, keys,
  as_i64, leb_ℤ, integer,
}
use claw_branch.Types.{memory_record, FieldDiff, EntityDiff, modified, MergeConflict}
use claw_branch.Merge.Conflict.{detect_conflicts}
use claw_branch.Merge.Conflict.Exact.{Reports, detect_conflicts-exact}
use claw_branch.Merge.Union.{merge_value, merge_json_union, extract_timestamp, or_else}
use claw_branch.Merge.Union.Objects.{
  fields_of, TimeOf, merged_field, merge_value-get, merge_json_union-newer,
}
use claw_branch.Merge.Union.Arrays.{list_of, items_of, OursKept, TheirsKept, merge_value-kept}
use claw_branch.Merge.Resolver.{MergeStrategy, manual, field_level, no_strategy, with_strategy}

abbrev pub note_change : Text → FieldDiff
note_change s = record { field = codes "note"; before = string (codes "old"); after = string s }

abbrev pub changed_to : Text → EntityDiff
changed_to s = record {
  entity_id = codes "a";
  entity_type = memory_record;
  diff_kind = modified;
  field_diffs = note_change s ∷ [];
}

abbrev ours_side : EntityDiff
ours_side = changed_to (codes "mine")

abbrev theirs_side : EntityDiff
theirs_side = changed_to (codes "yours")

abbrev pub note_conflict : MergeConflict
note_conflict = record {
  entity_id = codes "a";
  entity_type = memory_record;
  base_value = null;
  ours_value = string (codes "mine");
  theirs_value = string (codes "yours");
  conflicting_fields = codes "note" ∷ [];
}

detected : In note_conflict (detect_conflicts ours_side theirs_side (object empty))
unfolding detect_conflicts
detected = inl refl

detect_conflicts-exact_example :
    In note_conflict (detect_conflicts ours_side theirs_side (object empty)) ↔ (
      (f : Text) × (v : Value) × (w : Value) × Reports ours_side theirs_side
        (object empty)
        f
        v
        w
        note_conflict)
detect_conflicts-exact_example =
    detect_conflicts-exact ours_side theirs_side (object empty) note_conflict refl

abbrev by_note : MergeStrategy
by_note = field_level (with_strategy (codes "note") manual no_strategy)

abbrev stamped : Text → ℕ → Map
stamped s t =
    entry (codes "note") (string s) (entry (codes "updated_at") (number (integer (pos t))) empty)

abbrev mine : Map
mine = stamped (codes "mine") 5

abbrev yours : Map
yours = stamped (codes "yours") 9

merge_run :
    get (codes "note") (fields_of (merge_json_union (object mine) (object yours)))
    ≡ some (string (codes "yours"))
unfolding merge_json_union get
merge_run = refl

two_fields : text_eq (codes "note") (codes "updated_at") ≡ false
unfolding text_eq
two_fields = refl

Distinct-mine : Distinct (keys mine)
unfolding keys
Distinct-mine = (
  (λ h.
      ⊎_elim (λ e. cc ((text_eq_iff (codes "note") (codes "updated_at")).1 e, two_fields)) absurd
        h),
  ((λ h. h), tt),
)

merge_value-get_example :
    get (codes "note") (fields_of (merge_value (object mine) (object yours) none none))
    ≡ merged_field
        (get (codes "note") mine)
        (get (codes "note") yours)
        (or_else (extract_timestamp mine) none)
        (or_else (extract_timestamp yours) none)
merge_value-get_example = merge_value-get mine yours none none (codes "note") Distinct-mine

mine_note : get (codes "note") mine ≡ some (string (codes "mine"))
unfolding get
mine_note = refl

yours_note : get (codes "note") yours ≡ some (string (codes "yours"))
unfolding get
yours_note = refl

mine_time : TimeOf (get (codes "updated_at") mine) (pos 5)
unfolding get as_i64
mine_time = inl refl

yours_time : TimeOf (get (codes "updated_at") yours) (pos 9)
unfolding get as_i64
yours_time = inl refl

merge_json_union-newer_example :
    get (codes "note") (fields_of (merge_json_union (object mine) (object yours)))
    ≡ some (if leb_ℤ (pos 5) (pos 9) then string (codes "yours") else string (codes "mine"))
merge_json_union-newer_example =
    merge_json_union-newer mine yours (codes "note") (string (codes "mine"))
      (string (codes "yours")) Distinct-mine mine_note yours_note refl refl (pos 5) (pos 9)
      mine_time yours_time

abbrev tag : Text → Items → Items
tag s xs = cons (string s) xs

abbrev our_tags : Items
our_tags = tag (codes "x") (tag (codes "y") nil)

abbrev their_tags : Items
their_tags = tag (codes "y") (tag (codes "z") nil)

merge_value-kept_example :
    ((x : Value)
      → In x (list_of our_tags)
      → OursKept none none their_tags x
          (items_of (merge_value (array our_tags) (array their_tags) none none)))
    × ((y : Value)
        → In y (list_of their_tags)
        → TheirsKept none none our_tags y
            (items_of (merge_value (array our_tags) (array their_tags) none none)))
merge_value-kept_example = merge_value-kept none none our_tags their_tags
