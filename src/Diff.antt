-- ===== src/Diff.antt =====
-- diff/extractor.rs and diff/scorer.rs: the diff of two branch databases. A hash set of ids is
-- walked in the order of first insertion.
pub mod Scorer
pub mod Fields
pub mod Entities
use claw_branch.Shared.{
  ℕ, suc, ◌+◌, Text, text_eq, Bool, true, false, Option, none, some, List, [], ◌∷◌, ◌++◌, any,
  is_empty, length, ◌==◌, if◌then◌else◌, Dict, lookup, dict_keys,
}
use claw_branch.Json.{Value, null, Map, empty, value_eq, get, keys, as_object}
use claw_branch.Types.{
  Uuid, Time, F64, EntityType, memory_record, session, tool_output, DiffKind, added, removed,
  modified, unchanged, FieldDiff, EntityDiff, DiffStats, no_stats, DiffResult, Branch,
}
use claw_branch.Floats.{Floats}
use claw_branch.Database.{Sqlite, Db, fetch_all_entities}

-- `HashSet::insert`
unfoldable pub add_key : Text → List Text → List Text
unfolding text_eq
add_key k acc = if any (text_eq k) acc then acc else acc ++ k ∷ []

-- `collect` into a set, after `acc`.
unfoldable pub union_keys : List Text → List Text → List Text
union_keys [] acc = acc
union_keys (k ∷ ks) acc = union_keys ks (add_key k acc)

-- `map.get(field).cloned().unwrap_or(Value::Null)`
unfoldable pub get_or_null : Text → Map → Value
unfolding get
get_or_null k m = elim (get k m) [ none ↦ null | some v ↦ v ]

-- The loop over `all_fields`.
unfoldable pub field_diffs_of : Map → Map → List Text → List FieldDiff
unfolding get_or_null value_eq
field_diffs_of a b [] = []
field_diffs_of a b (k ∷ ks) =
    let rest = field_diffs_of a b ks in
    if value_eq (get_or_null k a) (get_or_null k b)
    then rest
    else record { field = k; before = get_or_null k a; after = get_or_null k b } ∷ rest

-- `value.as_object().cloned().unwrap_or_default()`
abbrev pub object_or_empty : Value → Map
object_or_empty v = elim (as_object v) [ none ↦ empty | some m ↦ m ]

unfoldable pub compare_entity_values : Text → EntityType → Value → Value → EntityDiff
unfolding union_keys add_key field_diffs_of keys
compare_entity_values entity_id entity_type a b =
    let a_obj = object_or_empty a in
    let b_obj = object_or_empty b in
    let diffs = field_diffs_of a_obj b_obj (union_keys (keys a_obj ++ keys b_obj) []) in
    record {
      entity_id = entity_id;
      entity_type = entity_type;
      diff_kind = if is_empty diffs then unchanged else modified;
      field_diffs = diffs;
    }

-- An entity that one side lacks, or both.
abbrev pub bare : Text → EntityType → DiffKind → EntityDiff
bare id t k = record { entity_id = id; entity_type = t; diff_kind = k; field_diffs = [] }

-- The `match (map_a.get(id), map_b.get(id))` of `diff_entity`, and of `diff` but for the last case,
-- which `diff` marks as unreachable.
unfoldable pub entity_diff : Text → EntityType → Option Value → Option Value → EntityDiff
unfolding compare_entity_values
entity_diff id t (some _) none = bare id t removed
entity_diff id t none (some _) = bare id t added
entity_diff id t (some a) (some b) = compare_entity_values id t a b
entity_diff id t none none = bare id t unchanged

abbrev pub count_kind : DiffKind → DiffStats → DiffStats
count_kind added s = record s { n_added = s.n_added + 1 }
count_kind removed s = record s { n_removed = s.n_removed + 1 }
count_kind modified s = record s { n_modified = s.n_modified + 1 }
count_kind unchanged s = record s { n_unchanged = s.n_unchanged + 1 }

-- The loop over the ids of one table.
unfoldable pub diff_ids :
    EntityType → Dict Value → Dict Value → List Text → DiffStats → List EntityDiff × DiffStats
unfolding lookup entity_diff
diff_ids t a b [] s = ([], s)
diff_ids t a b (id ∷ ids) s =
    let ed = entity_diff id t (lookup id a) (lookup id b) in
    let (eds, s') = diff_ids t a b ids (count_kind ed.diff_kind s) in (ed ∷ eds, s')

abbrev pub all_types : List EntityType
all_types = memory_record ∷ session ∷ tool_output ∷ []

unfoldable pub all_ids : Dict Value → Dict Value → List Text
unfolding union_keys add_key dict_keys
all_ids a b = union_keys (dict_keys a ++ dict_keys b) []

module _ (sql : Sqlite) where
  -- The loop over the entity types.
  unfoldable pub diff_types : Db → Db → List EntityType → DiffStats → List EntityDiff × DiffStats
  unfolding fetch_all_entities diff_ids all_ids
  diff_types a b [] s = ([], s)
  diff_types a b (t ∷ ts) s =
      let map_a = fetch_all_entities sql a t in
      let map_b = fetch_all_entities sql b t in
      let ids = all_ids map_a map_b in
      let (eds, s') =
        diff_ids t map_a map_b ids (record s { total_entities = s.total_entities + length ids }) in
      let (rest, s'') = diff_types a b ts s' in (eds ++ rest, s'')

  unfoldable pub diff_entity : Text → EntityType → Db → Db → EntityDiff
  unfolding fetch_all_entities entity_diff lookup
  diff_entity id t a b =
      entity_diff id t (lookup id (fetch_all_entities sql a t))
        (lookup id (fetch_all_entities sql b t))

-- diff/scorer.rs
unfoldable pub score_divergence : Floats → DiffStats → F64
score_divergence f s =
    if s.total_entities == 0
    then f.of_nat 0
    else f.div (f.of_nat (s.n_added + s.n_removed + s.n_modified)) (f.of_nat s.total_entities)

abbrev pub types_or_all : Option (List EntityType) → List EntityType
types_or_all none = all_types
types_or_all (some ts) = ts

-- `DiffExtractor::diff`: `now` is the clock's reading.
unfoldable pub diff :
    Sqlite → Floats → Time → Uuid → Db → Uuid → Db → Option (List EntityType) → DiffResult
unfolding diff_types score_divergence
diff sql f now a_id a b_id b types =
    let (eds, s) = diff_types sql a b (types_or_all types) no_stats in
    record {
      branch_a_id = a_id;
      branch_b_id = b_id;
      compared_at = now;
      entity_diffs = eds;
      stats = s;
      divergence_score = score_divergence f s;
    }
