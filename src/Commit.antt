-- ===== src/Commit.antt =====
-- commit/selective.rs: the selected entities of a source branch are written to a target branch in one
-- transaction, and the commit is recorded in the registry after it.
pub mod Cherry
pub mod Validator
pub mod Writes
pub mod Made
pub mod Whole
use claw_branch.Shared.{
  ℕ, ◌+◌, Text, codes, Bool, true, false, not, Option, none, some, List, [], ◌∷◌, ◌++◌, is_empty,
  map, Dict, lookup, dict_keys, put, if◌then◌else◌,
}
use claw_branch.Failure.{
  BranchResult, BranchError, ok, err, ◌>>=◌, ◌>>◌, refuse_if, commit_validation_failed,
}
use claw_branch.Json.{Value, object, Map, empty, get, insert, map_len, as_object}
use claw_branch.Types.{
  Uuid, Time, Branch, EntityType, memory_record, session, tool_output, CommitLogEntry, CommitResult,
}
use claw_branch.Database.{Sqlite, Printer, Db, fetch_all_entities, upsert_entity}
use claw_branch.Registry.{Store, insert_commit_log}
use claw_branch.Registry
use claw_branch.Merge.ThreeWay.{Files, open_db}
use claw_branch.Commit.Cherry.{CherryPick, EntitySelection}
use claw_branch.Commit.Validator.{ValidationReport, validate}

-- The loop over the field names: the object that is written, and how many fields the source has.
unfoldable pub copy_fields : List Text → Map → Map → ℕ → Map × ℕ
unfolding get insert
copy_fields [] source_obj merged_obj n = (merged_obj, n)
copy_fields (f ∷ fs) source_obj merged_obj n = elim (get f source_obj) [
  | none ↦ copy_fields fs source_obj merged_obj n
  | some v ↦ copy_fields fs source_obj (insert f v merged_obj) (n + 1)
]

-- Fields are copied between objects only; another value of the target stays as it is.
abbrev pub merge_selected : List Text → Value → Value → Value × ℕ
merge_selected fields (object source_obj) (object merged_obj) =
    let (m, n) = copy_fields fields source_obj merged_obj 0 in (object m, n)
merge_selected fields source_val merged = (merged, 0)

abbrev pub field_count : Value → ℕ
field_count (object m) = map_len m
field_count _ = 0

abbrev pub object_or : Option Value → Value
object_or none = object empty
object_or (some v) = v

-- `final_val`, and what is added to `fields_updated`.
unfoldable pub final_val : Option (List Text) → Option Value → Value → Value × ℕ
unfolding copy_fields map_len
final_val none target_val source_val = (source_val, field_count source_val)
final_val (some fields) target_val source_val =
    merge_selected fields source_val (object_or target_val)

-- The locals of the loop, with the database as the transaction sees it.
pub record Progress : Type 0 where
  pub committed_entity_count : ℕ
  pub fields_updated : ℕ
  pub all_entity_ids : List Text
  pub tx : Db

unfoldable pub ids_to_process : EntitySelection → Dict Value → List Text
ids_to_process sel source_map =
    if is_empty sel.entity_ids then dict_keys source_map else sel.entity_ids

module _ (sql : Sqlite) (p : Printer) (target : Db) where
  -- One entity. The target's row is read from `target_pool`, outside the transaction.
  unfoldable pub commit_entity :
      EntitySelection → Dict Value → Text → Progress → BranchResult Progress
  unfolding lookup final_val upsert_entity fetch_all_entities
  commit_entity sel source_map entity_id s = elim (lookup entity_id source_map) [
    | none ↦ ok s
    | some source_val ↦
        let (v, n) =
          final_val sel.fields (lookup entity_id (fetch_all_entities sql target sel.entity_type))
            source_val in
        upsert_entity sql p sel.entity_type entity_id v s.tx >>= λ tx'. ok (record {
          committed_entity_count = s.committed_entity_count + 1;
          fields_updated = s.fields_updated + n;
          all_entity_ids = s.all_entity_ids ++ entity_id ∷ [];
          tx = tx';
        })
  ]

  unfoldable pub commit_entities :
      EntitySelection → Dict Value → List Text → Progress → BranchResult Progress
  unfolding commit_entity
  commit_entities sel source_map [] s = ok s
  commit_entities sel source_map (id ∷ ids) s =
      commit_entity sel source_map id s >>= λ s'. commit_entities sel source_map ids s'

  unfoldable pub commit_selections : Db → List EntitySelection → Progress → BranchResult Progress
  unfolding fetch_all_entities ids_to_process commit_entities dict_keys
  commit_selections source [] s = ok s
  commit_selections source (sel ∷ sels) s =
      let source_map = fetch_all_entities sql source sel.entity_type in
      commit_entities sel source_map (ids_to_process sel source_map) s >>= λ s'.
      commit_selections source sels s'

abbrev pub first_type : List EntitySelection → Option EntityType
first_type [] = none
first_type (sel ∷ sels) = some sel.entity_type

abbrev pub log_entry : Uuid → Time → CherryPick → List Text → CommitLogEntry
log_entry log_id now cherry ids = record {
  id = log_id;
  branch_id = cherry.target_branch_id;
  entity_type = first_type cherry.entity_selections;
  entity_ids = ids;
  op_kind = codes "cherry_pick";
  committed_at = now;
  message = cherry.message;
}

-- Registry and target database after a commit, beside its result.
abbrev pub Outcome : Type 0
Outcome = BranchResult CommitResult × Store × Db

abbrev pub result_of : ℕ → CherryPick → Time → Progress → CommitResult
result_of elapsed cherry now s = record {
  committed_entity_count = s.committed_entity_count;
  fields_updated = s.fields_updated;
  duration_ms = elapsed;
  target_branch_id = cherry.target_branch_id;
  committed_at = now;
}

-- The errors with which `tx.commit()` and the log's `INSERT` fail for a reason outside the model.
pub record Faults : Type 0 where
  pub on_commit : Option BranchError
  pub on_log : Option BranchError

-- After `tx.commit()`: the log is written when the target already is.
unfoldable pub record_commit : Uuid → Time → Faults → ℕ → CherryPick → Progress → Store → Outcome
unfolding insert_commit_log
record_commit log_id now faults elapsed cherry s store =
    let (logged, store') =
      insert_commit_log faults.on_log (log_entry log_id now cherry s.all_entity_ids) store in
    (logged >> ok (result_of elapsed cherry now s), store', s.tx)

abbrev pub start_of : Db → Progress
start_of target = record {
  committed_entity_count = 0;
  fields_updated = 0;
  all_entity_ids = [];
  tx = target;
}

-- `SelectiveCommit::commit`, on the two databases that the pools are open on. `show_uuid` is the
-- printed form of an identifier, `log_id` the identifier of the log's entry.
module _ (sql : Sqlite) (p : Printer) (show_uuid : Uuid → Text) (log_id : Uuid) (now : Time)
    (faults : Faults) where
  unfoldable pub commit_valid : ℕ → CherryPick → Db → Db → Store → Outcome
  unfolding commit_selections record_commit
  commit_valid elapsed cherry source_db target_db store =
      elim (commit_selections sql p target_db source_db cherry.entity_selections
        (start_of target_db)) [
          | err e ↦ (err e, store, target_db)
          | ok s ↦ elim faults.on_commit [
            | some e ↦ (err e, store, target_db)
            | none ↦ record_commit log_id now faults elapsed cherry s store
          ]
        ]

  unfoldable pub commit : Uuid → ℕ → CherryPick → Db → Db → Store → Outcome
  unfolding Registry.get validate commit_valid
  commit workspace_id elapsed cherry source_db target_db store =
      elim (Registry.get store workspace_id cherry.source_branch_id) [
        | err e ↦ (err e, store, target_db)
        | ok source ↦ elim (Registry.get store workspace_id cherry.target_branch_id) [
          | err e ↦ (err e, store, target_db)
          | ok target ↦
              let report = validate sql show_uuid cherry source target source_db in
              if report.is_ok then commit_valid elapsed cherry source_db target_db store else (
                err (commit_validation_failed cherry.target_branch_id report.violations),
                store,
                target_db,
              )
        ]
      ]

  abbrev pub every : EntityType → EntitySelection
  every t = record { entity_type = t; entity_ids = []; fields = none }

  unfoldable pub commit_all : Uuid → ℕ → Uuid → Uuid → Db → Db → Store → Outcome
  unfolding commit
  commit_all workspace_id elapsed source_branch_id target_branch_id source_db target_db store =
      commit workspace_id elapsed
        (record {
          source_branch_id = source_branch_id;
          target_branch_id = target_branch_id;
          entity_selections = every memory_record ∷ every session ∷ every tool_output ∷ [];
          message = some (codes "commit_all");
        })
        source_db target_db store

-- `from_store`: the paths of the two branches, and their databases.
unfoldable pub from_store :
    Store → Uuid → Uuid → Uuid → Files → BranchResult ((Text × Db) × (Text × Db))
unfolding Registry.get open_db
from_store store source_id target_id workspace_id files = do
  source ← Registry.get store workspace_id source_id
  target ← Registry.get store workspace_id target_id
  source_pool ← open_db source.db_path files
  target_pool ← open_db target.db_path files
  ok ((source.db_path, source_pool), (target.db_path, target_pool))

-- commit/history.rs
unfoldable pub recent_commits : Store → Uuid → ℕ → List CommitLogEntry
unfolding Registry.list_commits
recent_commits store branch_id limit = Registry.list_commits store branch_id limit
