-- ===== src/Merge/Applier.antt =====
-- merge/applier.rs: resolved changes are written to the target database, in one transaction.
pub mod Batch
use claw_branch.Shared.{ℕ, suc, ◌+◌, Text, Bool, true, false, List, [], ◌∷◌, if◌then◌else◌}
use claw_branch.Failure.{BranchResult, ok, err, ◌>>=◌, merge_conflict_unresolved}
use claw_branch.Json.{Value, string, object, Map, empty, insert}
use claw_branch.Types.{
  EntityType, DiffKind, added, removed, modified, unchanged, FieldDiff, EntityDiff,
}
use claw_branch.Database.{Sqlite, Printer, Db, delete_row, upsert_entity, id_key}
use claw_branch.Merge.Resolver.{ResolvedValue, use_ours, use_theirs, escalate, merged}

-- The loop that inserts the new values of the fields.
unfoldable pub insert_afters : List FieldDiff → Map → Map
unfolding insert
insert_afters [] m = m
insert_afters (fd ∷ fds) m = insert_afters fds (insert fd.field fd.after m)

unfoldable pub reconstruct_from_field_diffs : EntityDiff → Value
unfolding insert_afters
reconstruct_from_field_diffs d =
    object (insert_afters d.field_diffs (insert id_key (string d.entity_id) empty))

-- One resolved change: the diff and how it was resolved.
abbrev pub Change : Type 0
Change = EntityDiff × ResolvedValue

module _ (sql : Sqlite) (p : Printer) where
  -- `apply_value`, `apply_value_tx`
  unfoldable pub apply_value : DiffKind → EntityType → Text → Value → Db → BranchResult Db
  unfolding delete_row upsert_entity
  apply_value removed t id v db = delete_row sql t id db
  apply_value added t id v db = upsert_entity sql p t id v db
  apply_value modified t id v db = upsert_entity sql p t id v db
  apply_value unchanged t id v db = upsert_entity sql p t id v db

  -- `apply_change`, outside a transaction.
  unfoldable pub apply_change : EntityType → EntityDiff → ResolvedValue → Db → BranchResult Db
  unfolding apply_value reconstruct_from_field_diffs
  apply_change t d use_ours db = ok db
  apply_change t d escalate db = err (merge_conflict_unresolved (d.entity_id ∷ []))
  apply_change t d use_theirs db =
      apply_value d.diff_kind t d.entity_id (reconstruct_from_field_diffs d) db
  apply_change t d (merged v) db = apply_value d.diff_kind t d.entity_id v db

  -- The loop of `apply_batch`, with its counter and the database as the transaction sees it.
  unfoldable pub apply_loop : List Change → ℕ → Db → BranchResult (ℕ × Db)
  unfolding apply_value reconstruct_from_field_diffs
  apply_loop [] count db = ok (count, db)
  apply_loop ((d, use_ours) ∷ cs) count db = apply_loop cs count db
  apply_loop ((d, escalate) ∷ cs) count db = err (merge_conflict_unresolved (d.entity_id ∷ []))
  apply_loop ((d, use_theirs) ∷ cs) count db =
      apply_value d.diff_kind d.entity_type d.entity_id (reconstruct_from_field_diffs d) db
      >>= λ db'. apply_loop cs (count + 1) db'
  apply_loop ((d, merged v) ∷ cs) count db =
      apply_value d.diff_kind d.entity_type d.entity_id v db >>= λ db'.
      apply_loop cs (count + 1) db'

-- `tx.commit()` keeps what the transaction wrote; a transaction that is dropped is rolled back.
unfoldable pub commit_or_rollback : BranchResult (ℕ × Db) → Db → BranchResult ℕ × Db
commit_or_rollback (ok (n, db')) db = (ok n, db')
commit_or_rollback (err e) db = (err e, db)

unfoldable pub apply_batch : Sqlite → Printer → List Change → Db → BranchResult ℕ × Db
unfolding apply_loop commit_or_rollback
apply_batch sql p changes db = commit_or_rollback (apply_loop sql p changes 0 db) db
