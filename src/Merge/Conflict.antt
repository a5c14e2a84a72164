-- ===== src/Merge/Conflict.antt =====
-- merge/conflict.rs: the fields that both sides changed to different values.
pub mod Exact
use claw_branch.Shared.{
  Text, text_eq, Bool, true, false, not, Option, none, some, List, [], ◌∷◌, if◌then◌else◌, Dict,
  lookup, put,
}
use claw_branch.Json.{Value, null, value_eq, get, as_object}
use claw_branch.Types.{FieldDiff, EntityDiff, MergeConflict}

-- `field_diffs.iter().map(|fd| (field, after)).collect()` into a hash map, after `acc`.
unfoldable pub collect_changes : List FieldDiff → Dict Value → Dict Value
unfolding put
collect_changes [] acc = acc
collect_changes (fd ∷ fds) acc = collect_changes fds (put fd.field fd.after acc)

abbrev pub changes : EntityDiff → Dict Value
changes d = collect_changes d.field_diffs []

-- `base_entity.get(field).cloned().unwrap_or(Value::Null)`
unfoldable pub base_value_of : Text → Value → Value
unfolding get
base_value_of f base = elim (as_object base) [
  | none ↦ null
  | some m ↦ elim (get f m) [ none ↦ null | some v ↦ v ]
]

unfoldable pub conflict_at : EntityDiff → Value → Text → Value → Value → MergeConflict
unfolding base_value_of
conflict_at ours base f v w = record {
  entity_id = ours.entity_id;
  entity_type = ours.entity_type;
  base_value = base_value_of f base;
  ours_value = v;
  theirs_value = w;
  conflicting_fields = f ∷ [];
}

-- The loop over `ours_changes`.
unfoldable pub conflicts_of : EntityDiff → Value → Dict Value → Dict Value → List MergeConflict
unfolding lookup value_eq conflict_at
conflicts_of ours base [] theirs = []
conflicts_of ours base ((f, v) ∷ rest) theirs =
    let later = conflicts_of ours base rest theirs in
    elim (lookup f theirs) [
      | none ↦ later
      | some w ↦ if value_eq v w then later else conflict_at ours base f v w ∷ later
    ]

unfoldable pub detect_conflicts : EntityDiff → EntityDiff → Value → List MergeConflict
unfolding text_eq collect_changes conflicts_of
detect_conflicts ours theirs base =
    if not (text_eq ours.entity_id theirs.entity_id)
    then []
    else conflicts_of ours base (changes ours) (changes theirs)

unfoldable pub is_trivially_resolvable : MergeConflict → Bool
unfolding value_eq
is_trivially_resolvable c = value_eq c.ours_value c.theirs_value
