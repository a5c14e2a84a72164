-- ===== src/Metrics.antt =====
-- metrics/: the divergence formulas, the tracker and the report on a workspace. `file_len` stands for
-- the length of a file, 0 where there is none.
pub mod Persisted
use claw_branch.Shared.{
  ℕ, suc, ◌+◌, ◌-◌, ◌%◌, ◌^◌, Text, codes, Bool, true, false, ◌&&◌, Option, none, some, List, [],
  ◌∷◌, keep, map, is_empty, length, leb, ltb, max, dict_keys, if◌then◌else◌,
}
use claw_branch.Failure.{BranchResult, ok, err, ◌>>=◌, ◌>>◌}
use claw_branch.Json.{ℤ, pos, negsuc}
use claw_branch.Types.{
  Uuid, Time, F64, Branch, BranchMetrics, DiffResult, EntityType, memory_record, session,
  tool_output, is_live,
}
use claw_branch.Floats.{Floats}
use claw_branch.Database.{Sqlite, Db, table}
use claw_branch.Registry.{Store, get, list, update_metrics, count_commits}
use claw_branch.Lifecycle.{Settings}
use claw_branch.Diff.{diff}
use claw_branch.Merge.ThreeWay.{Files, open_db}

module _ (f : Floats) where
  -- metrics/divergence.rs
  unfoldable pub compute_score : DiffResult → ℕ → F64
  compute_score d base_entity_count =
      let numerator =
        f.add (f.add (f.of_nat d.stats.n_added) (f.of_nat d.stats.n_removed))
          (f.mul (f.of_nat d.stats.n_modified) (f.percent 50)) in
      f.fmin (f.div numerator (f.of_nat (max base_entity_count 1))) (f.of_nat 1)

  unfoldable pub divergence_label : F64 → Text
  divergence_label score =
      if f.feq score (f.of_nat 0)
      then codes "identical"
      else if f.fle score (f.percent 5)
      then codes "minimal"
      else if f.fle score (f.percent 25)
      then codes "moderate"
      else if f.fle score (f.percent 75)
      then codes "significant"
      else codes "diverged"

  unfoldable pub time_weighted_score : F64 → F64 → F64 → F64
  time_weighted_score score age_days decay_factor =
      f.mul score (f.exp (f.mul (f.neg age_days) decay_factor))

-- `as u64` of an `i64` sum.
abbrev pub to_u64 : ℤ → ℕ
to_u64 (pos n) = n % 2 ^ 64
to_u64 (negsuc n) = 2 ^ 64 - 1 - n % 2 ^ 64

infixl 60 ◌+ℤ◌
abbrev pub ◌+ℤ◌ : ℤ → ℤ → ℤ
pos a +ℤ pos b = pos (a + b)
negsuc a +ℤ negsuc b = negsuc (suc (a + b))
pos a +ℤ negsuc b = if leb (suc b) a then pos (a - suc b) else negsuc (b - a)
negsuc a +ℤ pos b = if leb (suc a) b then pos (b - suc a) else negsuc (a - b)

-- `count_table`: a table that does not exist counts 0.
unfoldable pub count_table : Sqlite → EntityType → Db → ℤ
unfolding table dict_keys
count_table sql t db = if is_empty (sql.columns t) then pos 0 else pos (length (table t db))

pub data OpKind : Type 0 where
  insertion update deletion : OpKind

module _ (sql : Sqlite) (f : Floats) (cfg : Settings) (now : Time) (file_len : Text → ℕ) where
  -- The score against the parent; where the parent or its file is missing, the score stays.
  unfoldable pub score_of : Branch → Store → Files → F64
  unfolding get open_db diff compute_score
  score_of b s files = elim b.parent_id [
    | none ↦ f.of_nat 0
    | some parent_id ↦ elim (get s cfg.workspace_id parent_id) [
      | err e ↦ b.metrics.divergence_score
      | ok parent ↦ elim (open_db b.db_path files) [
        | err e ↦ b.metrics.divergence_score
        | ok db ↦ elim (open_db parent.db_path files) [
          | err e ↦ b.metrics.divergence_score
          | ok parent_db ↦ compute_score f (diff sql f now b.id db parent.id parent_db none) (
              to_u64 (
                parent.metrics.memory_record_count +ℤ parent.metrics.session_count
                +ℤ parent.metrics.tool_output_count))
        ]
      ]
    ]
  ]

  unfoldable pub measured : Branch → Db → Store → Files → BranchMetrics
  unfolding count_table count_commits score_of
  measured b db s files = record b.metrics {
    op_count = count_commits s b.id;
    memory_record_count = count_table sql memory_record db;
    session_count = count_table sql session db;
    tool_output_count = count_table sql tool_output db;
    bytes_on_disk = file_len b.db_path;
    divergence_score = score_of b s files;
  }

  unfoldable pub refresh : Branch → Files → Store → BranchResult BranchMetrics × Store
  unfolding open_db measured update_metrics
  refresh b files s = elim (open_db b.db_path files) [
    | err e ↦ (err e, s)
    | ok db ↦
        let m = measured b db s files in let (r, s') = update_metrics b.id m s in (r >> ok m, s')
  ]

  abbrev pub and_rest :
      Uuid
      → BranchResult BranchMetrics × Store
      → (Store → BranchResult (List (Uuid × BranchMetrics)) × Store)
      → BranchResult (List (Uuid × BranchMetrics)) × Store
  and_rest id (err e, s) k = (err e, s)
  and_rest id (ok m, s) k = let (r, s') = k s in (r >>= λ ms. ok ((id, m) ∷ ms), s')

  unfoldable pub refresh_loop :
      List Branch → Files → Store → BranchResult (List (Uuid × BranchMetrics)) × Store
  unfolding refresh
  refresh_loop [] files s = (ok [], s)
  refresh_loop (b ∷ bs) files s = and_rest b.id (refresh b files s) (λ s'. refresh_loop bs files s')

  unfoldable pub refresh_all :
      Uuid → Files → Store → BranchResult (List (Uuid × BranchMetrics)) × Store
  unfolding list refresh_loop
  refresh_all workspace_id files s = refresh_loop (list s workspace_id none) files s

  -- The counters that one operation raises.
  unfoldable pub tracked : OpKind → BranchMetrics → BranchMetrics
  tracked k m =
      let n = record m { op_count = m.op_count + 1; last_activity_at = some now } in
      elim k [
        | insertion ↦ record n { created_entity_count = n.created_entity_count + 1 }
        | update ↦ record n { updated_entity_count = n.updated_entity_count + 1 }
        | deletion ↦ record n { deleted_entity_count = n.deleted_entity_count + 1 }
      ]

  unfoldable pub track_op : Uuid → OpKind → Store → BranchResult (Unit {0}) × Store
  unfolding get tracked update_metrics
  track_op id k s = elim (get s cfg.workspace_id id) [
    | err e ↦ (err e, s)
    | ok b ↦ update_metrics id (tracked k b.metrics) s
  ]

-- types.rs
pub record WorkspaceReport : Type 0 where
  pub branch_count : ℕ
  pub total_disk_bytes : ℕ
  pub avg_divergence_score : F64
  pub most_active_branch : Option Uuid
  pub stale_branch_ids : List Uuid
  pub report_at : Time

abbrev pub sum_bytes : List Branch → ℕ
sum_bytes [] = 0
sum_bytes (b ∷ bs) = b.metrics.bytes_on_disk + sum_bytes bs

-- `sum::<f64>()`, from the left.
abbrev pub sum_scores : Floats → F64 → List Branch → F64
sum_scores f acc [] = acc
sum_scores f acc (b ∷ bs) = sum_scores f (f.add acc b.metrics.divergence_score) bs

-- `max_by_key`: the last of the branches with the most operations.
abbrev pub most_active : List Branch → Option Branch
most_active [] = none
most_active (b ∷ bs) = elim (most_active bs) [
  | none ↦ some b
  | some c ↦ some (if leb b.metrics.op_count c.metrics.op_count then c else b)
]

abbrev pub is_stale : Time → Branch → Bool
is_stale cutoff b = elim b.metrics.last_activity_at [ none ↦ true | some t ↦ ltb t cutoff ]

abbrev pub id_of : Option Branch → Option Uuid
id_of none = none
id_of (some b) = some b.id

unfoldable pub workspace_report : Floats → Time → Time → Uuid → Store → WorkspaceReport
unfolding list is_live
workspace_report f now stale_cutoff workspace_id s =
    let live = keep (λ (b : Branch). is_live b.status) (list s workspace_id none) in
    record {
      branch_count = length live;
      total_disk_bytes = sum_bytes live;
      avg_divergence_score =
          if is_empty live
          then f.of_nat 0
          else f.div (sum_scores f (f.of_nat 0) live) (f.of_nat (length live));
      most_active_branch = id_of (most_active live);
      stale_branch_ids = map (λ (b : Branch). b.id) (keep (is_stale stale_cutoff) live);
      report_at = now;
    }
