-- ===== src/Types.antt =====
-- types.rs: the domain types. A UUID and a time stamp are numbers, ordered as the source orders
-- them; an `f64` is its bit pattern, on which only `Floats` computes (see Floats.antt).
-- The counters are kept as numbers; where the source adds to a `u32` or `u64`, the model writes the
-- sum out.
pub mod Storage
use claw_branch.Shared.{ℕ, Text, codes, text_eq, Bool, true, false, Option, none, some, List}
use claw_branch.Json.{Value, ℤ}

abbrev pub Uuid : Type 0
Uuid = ℕ

abbrev pub Time : Type 0
Time = ℕ

abbrev pub F64 : Type 0
F64 = ℕ

pub data EntityType : Type 0 where
  memory_record session tool_output : EntityType

unfoldable pub table_name : EntityType → Text
table_name memory_record = codes "memory_records"
table_name session = codes "sessions"
table_name tool_output = codes "tool_outputs"

unfoldable pub as_str : EntityType → Text
as_str memory_record = codes "memory_record"
as_str session = codes "session"
as_str tool_output = codes "tool_output"

-- `Debug`, as in the keys of a diff summary.
unfoldable pub debug_name : EntityType → Text
debug_name memory_record = codes "MemoryRecord"
debug_name session = codes "Session"
debug_name tool_output = codes "ToolOutput"

abbrev pub type_eq : EntityType → EntityType → Bool
type_eq memory_record memory_record = true
type_eq session session = true
type_eq tool_output tool_output = true
type_eq _ _ = false

pub data DiffKind : Type 0 where
  added removed modified unchanged : DiffKind

-- `matches!(kind, DiffKind::Unchanged)`
abbrev pub is_unchanged : DiffKind → Bool
is_unchanged unchanged = true
is_unchanged _ = false

pub record FieldDiff : Type 0 where
  pub field : Text
  pub before : Value
  pub after : Value

pub record EntityDiff : Type 0 where
  pub entity_id : Text
  pub entity_type : EntityType
  pub diff_kind : DiffKind
  pub field_diffs : List FieldDiff

pub record DiffStats : Type 0 where
  pub n_added : ℕ
  pub n_removed : ℕ
  pub n_modified : ℕ
  pub n_unchanged : ℕ
  pub total_entities : ℕ

abbrev pub no_stats : DiffStats
no_stats = record {
  n_added = 0;
  n_removed = 0;
  n_modified = 0;
  n_unchanged = 0;
  total_entities = 0;
}

pub record DiffResult : Type 0 where
  pub branch_a_id : Uuid
  pub branch_b_id : Uuid
  pub compared_at : Time
  pub entity_diffs : List EntityDiff
  pub stats : DiffStats
  pub divergence_score : F64

pub record MergeConflict : Type 0 where
  pub entity_id : Text
  pub entity_type : EntityType
  pub base_value : Value
  pub ours_value : Value
  pub theirs_value : Value
  pub conflicting_fields : List Text

pub record MergeResult : Type 0 where
  pub source_branch_id : Uuid
  pub target_branch_id : Uuid
  pub base_branch_id : Uuid
  pub applied : ℕ
  pub skipped : ℕ
  pub conflicts : List MergeConflict
  pub duration_ms : ℕ
  pub success : Bool

pub data BranchStatus : Type 0 where
  active dormant : BranchStatus
  merged : (merged_into : Uuid) (merged_at : Time) → BranchStatus
  discarded : (discarded_at : Time) → BranchStatus
  archived orphan purged : BranchStatus

unfoldable pub is_live : BranchStatus → Bool
is_live active = true
is_live dormant = true
is_live _ = false

unfoldable pub can_commit : BranchStatus → Bool
can_commit active = true
can_commit _ = false

unfoldable pub kind : BranchStatus → Text
kind active = codes "active"
kind dormant = codes "dormant"
kind (merged _ _) = codes "merged"
kind (discarded _) = codes "discarded"
kind archived = codes "archived"
kind orphan = codes "orphan"
kind purged = codes "purged"

pub record BranchMetrics : Type 0 where
  pub op_count : ℕ
  pub memory_record_count : ℤ
  pub session_count : ℤ
  pub tool_output_count : ℤ
  pub bytes_on_disk : ℕ
  pub divergence_score : F64
  pub created_entity_count : ℕ
  pub updated_entity_count : ℕ
  pub deleted_entity_count : ℕ
  pub last_activity_at : Option Time

pub record Branch : Type 0 where
  pub id : Uuid
  pub name : Text
  pub slug : Text
  pub parent_id : Option Uuid
  pub status : BranchStatus
  pub db_path : Text
  pub snapshot_path : Text
  pub workspace_id : Uuid
  pub created_at : Time
  pub updated_at : Time
  pub forked_from_cursor : Option Text
  pub description : Option Text
  pub metadata : Value
  pub metrics : BranchMetrics

pub record CommitLogEntry : Type 0 where
  pub id : Uuid
  pub branch_id : Uuid
  pub entity_type : Option EntityType
  pub entity_ids : List Text
  pub op_kind : Text
  pub committed_at : Time
  pub message : Option Text

pub record CommitResult : Type 0 where
  pub committed_entity_count : ℕ
  pub fields_updated : ℕ
  pub duration_ms : ℕ
  pub target_branch_id : Uuid
  pub committed_at : Time
