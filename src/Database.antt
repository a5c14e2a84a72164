-- ===== src/Database.antt =====
-- A branch database as the crate sees it through its SQL: for each entity table the rows by id, each
-- row the JSON object that `json_object` builds of it. SQLite itself is a parameter: which columns
-- a table has, what a column gives back of the text bound to it, and which rows the table's
-- constraints accept. A table without columns does not exist. The id is the only UNIQUE column, and all
-- files have one schema.

use claw_branch.Shared.{
  Text, codes, text_eq, Bool, true, false, ◌&&◌, Option, none, some, List, [], ◌∷◌, any, is_empty,
  if◌then◌else◌, Dict, put, remove,
}
use claw_branch.Failure.{BranchResult, ok, err, database}
use claw_branch.Json.{
  Value, null, bool, number, string, array, object, Number, Map, empty, entry, insert,
}
use claw_branch.Types.{EntityType, memory_record, session, tool_output}

-- The columns of an `INSERT` with the text bound to each; `none` is NULL.
abbrev pub Row : Type 0
Row = List (Text × Option Text)

pub record Sqlite : Type 0 where
  pub columns : EntityType → List Text
  pub cell : EntityType → Text → Option Text → Value
  pub accepts : EntityType → Row → Bool

pub record Db : Type 0 where
  pub memory_records : Dict Value
  pub sessions : Dict Value
  pub tool_outputs : Dict Value

unfoldable pub table : EntityType → Db → Dict Value
table memory_record db = db.memory_records
table session db = db.sessions
table tool_output db = db.tool_outputs

unfoldable pub set_table : EntityType → Dict Value → Db → Db
set_table memory_record t db = record db { memory_records = t }
set_table session t db = record db { sessions = t }
set_table tool_output t db = record db { tool_outputs = t }

-- The text bound to a column that the statement names.
abbrev pub bound : Text → Row → Option (Option Text)
bound c [] = none
bound c ((d, v) ∷ row) = if text_eq c d then some v else bound c row

module _ (sql : Sqlite) where
  -- The row that `INSERT OR REPLACE` leaves: a column that the statement does not name is NULL.
  unfoldable pub stored : EntityType → Row → List Text → Map
  stored t row [] = empty
  stored t row (c ∷ cs) =
      insert c (elim (bound c row) [ none ↦ sql.cell t c none | some v ↦ sql.cell t c v ])
        (stored t row cs)

  -- Every column that the statement names is one of the table.
  unfoldable pub known : EntityType → Row → Bool
  known t [] = true
  known t ((c, v) ∷ row) =
      let rest = known t row in if any (text_eq c) (sql.columns t) then rest else false

  -- `INSERT OR REPLACE INTO t (columns) VALUES (...)`, the id bound to `id`.
  unfoldable pub insert_or_replace : EntityType → Text → Row → Db → BranchResult Db
  unfolding table set_table stored known put
  insert_or_replace t id row db =
      if known t row && sql.accepts t row
      then ok (set_table t (put id (object (stored t row (sql.columns t))) (table t db)) db)
      else err (database (codes "insert"))

  -- `DELETE FROM t WHERE id = ?`
  unfoldable pub delete_row : EntityType → Text → Db → BranchResult Db
  unfolding table set_table remove
  delete_row t id db =
      if is_empty (sql.columns t)
      then err (database (codes "no such table"))
      else ok (set_table t (remove id (table t db)) db)

  -- diff/extractor.rs, `fetch_all_entities`
  unfoldable pub fetch_all_entities : Db → EntityType → Dict Value
  unfolding table
  fetch_all_entities db t = if is_empty (sql.columns t) then [] else table t db

-- serde_json's `Display`, for the values that have no text of their own.
pub record Printer : Type 0 where
  pub show_number : Number → Text
  pub show_value : Value → Text

-- merge/applier.rs `json_to_sqlite_str`, commit/selective.rs `json_to_str`
unfoldable pub json_to_sqlite_str : Printer → Value → Option Text
json_to_sqlite_str p null = none
json_to_sqlite_str p (bool b) = some (if b then codes "1" else codes "0")
json_to_sqlite_str p (number n) = some (p.show_number n)
json_to_sqlite_str p (string s) = some s
json_to_sqlite_str p (array a) = some (p.show_value (array a))
json_to_sqlite_str p (object m) = some (p.show_value (object m))

abbrev pub id_key : Text
id_key = codes "id"

-- The columns of an object, but for its own "id".
unfoldable pub value_columns : Printer → Map → Row
unfolding json_to_sqlite_str
value_columns p empty = []
value_columns p (entry k v m) =
    let rest = value_columns p m in
    if text_eq k id_key then rest else (k, json_to_sqlite_str p v) ∷ rest

-- The columns and values of `build_upsert_sql`: "id" stands first, with the entity's id.
unfoldable pub upsert_row : Printer → Text → Map → Row
unfolding value_columns
upsert_row p entity_id m = (id_key, some entity_id) ∷ value_columns p m

-- `upsert_entity_tx`: a value that is no object writes nothing.
unfoldable pub upsert_entity : Sqlite → Printer → EntityType → Text → Value → Db → BranchResult Db
unfolding insert_or_replace upsert_row
upsert_entity sql p t entity_id (object m) db =
    insert_or_replace sql t entity_id (upsert_row p entity_id m) db
upsert_entity sql p t entity_id _ db = ok db
