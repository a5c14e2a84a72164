-- ===== src/Examples/Diffs.antt =====
-- diff/extractor.rs at two small databases.
use claw_branch.Shared.{
  ◌+◌, Text, codes, true, Option, none, some, List, [], ◌∷◌, length, ◌≡◌, ◌↔◌, refl, inl, In, ◌==◌,
  leb,
}
use claw_branch.Json.{Value, null, string, object, Map, empty, entry}
use claw_branch.Types.{
  EntityType, memory_record, session, tool_output, EntityDiff, modified, unchanged, FieldDiff,
  DiffResult,
}
use claw_branch.Floats.{Floats}
use claw_branch.Database.{Sqlite, Db}
use claw_branch.Diff.{compare_entity_values, diff, diff_entity}
use claw_branch.Diff.Fields.{DiffersAt, compare_entity_values-exact}
use claw_branch.Diff.Entities.{counted, diff-counted, diff_entity-mirror, mirror}

-- A database with the table of memory records alone, two text columns wide; it accepts every row.
abbrev columns_of : EntityType → List Text
columns_of memory_record = codes "id" ∷ codes "note" ∷ []
columns_of session = []
columns_of tool_output = []

abbrev text_cell : EntityType → Text → Option Text → Value
text_cell t c none = null
text_cell t c (some s) = string s

abbrev pub small_sqlite : Sqlite
small_sqlite = record { columns = columns_of; cell = text_cell; accepts = λ t r. true }

-- Whole numbers in place of doubles.
abbrev pub whole : Floats
whole = record {
  of_nat = λ n. n;
  percent = λ n. 0;
  add = λ a b. a + b;
  sub = λ a b. a;
  mul = λ a b. a;
  div = λ a b. a;
  fmin = λ a b. a;
  fmax = λ a b. b;
  fabs = λ a. a;
  neg = λ a. a;
  exp = λ a. a;
  fle = leb;
  feq = λ a b. a == b;
}

abbrev pub note : Text → Text → Map
note id s = entry (codes "id") (string id) (entry (codes "note") (string s) empty)

abbrev pub db_of : List (Text × Value) → Db
db_of rows = record { memory_records = rows; sessions = []; tool_outputs = [] }

abbrev pub base_rows : Db
base_rows = db_of ((codes "a", object (note (codes "a") (codes "old"))) ∷ [])

abbrev pub changed_rows : Db
changed_rows = db_of ((codes "a", object (note (codes "a") (codes "new"))) ∷ [])

abbrev changed_note : FieldDiff
changed_note = record {
  field = codes "note";
  before = string (codes "old");
  after = string (codes "new");
}

one_change :
    (compare_entity_values
      (codes "a")
      memory_record
      (object (note (codes "a") (codes "old")))
      (object (note (codes "a") (codes "new")))).field_diffs
    ≡ changed_note ∷ []
unfolding compare_entity_values
one_change = refl

abbrev changed_entity : EntityDiff
changed_entity = record {
  entity_id = codes "a";
  entity_type = memory_record;
  diff_kind = modified;
  field_diffs = changed_note ∷ [];
}

abbrev run_diff : DiffResult
run_diff = diff small_sqlite whole 9 1 base_rows 2 changed_rows none

diff_run : run_diff.entity_diffs ≡ changed_entity ∷ []
unfolding diff
diff_run = refl

compare_entity_values-exact_example :
    In changed_note
      (compare_entity_values
        (codes "a")
        memory_record
        (object (note (codes "a") (codes "old")))
        (object (note (codes "a") (codes "new")))).field_diffs
    ↔ DiffersAt (note (codes "a") (codes "old")) (note (codes "a") (codes "new")) changed_note
compare_entity_values-exact_example =
    compare_entity_values-exact (codes "a") memory_record (note (codes "a") (codes "old"))
      (note (codes "a") (codes "new")) changed_note

diff-counted_example :
    (counted run_diff.stats ≡ run_diff.stats.total_entities)
    × (length run_diff.entity_diffs ≡ run_diff.stats.total_entities)
diff-counted_example = diff-counted small_sqlite whole 9 1 base_rows 2 changed_rows none

abbrev same_entity_diff : EntityDiff
same_entity_diff = record changed_entity { diff_kind = unchanged; field_diffs = [] }

listed_self :
    In same_entity_diff (diff small_sqlite whole 9 1 base_rows 2 base_rows none).entity_diffs
unfolding diff
listed_self = inl refl

diff_entity-mirror_example :
    (diff_entity small_sqlite (codes "a") memory_record changed_rows base_rows).diff_kind
    ≡ mirror (diff_entity small_sqlite (codes "a") memory_record base_rows changed_rows).diff_kind
diff_entity-mirror_example =
    diff_entity-mirror small_sqlite (codes "a") memory_record base_rows changed_rows
