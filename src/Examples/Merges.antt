-- ===== src/Examples/Merges.antt =====
-- merge/applier.rs and merge/three_way.rs at small branches: theirs changed a row, ours did not.
use claw_branch.Shared.{
  text_eq_iff, ℕ, Text, codes, text_eq, true, false, none, some, List, [], ◌∷◌, keep, is_empty,
  lookup, ◌≡◌, ◌≢◌, refl,
}
use claw_branch.Failure.{BranchResult, ok, is_err}
use claw_branch.Json.{null, object}
use claw_branch.Types.{EntityType, EntityDiff, memory_record, Branch, active, MergeResult}
use claw_branch.Database.{table, Printer}
use claw_branch.Registry.{Store, get, default_metrics}
use claw_branch.Lifecycle.{Settings}
use claw_branch.Engine
use claw_branch.Engine.Target.{merge-source_only}
use claw_branch.Merge.Resolver.{MergeStrategy, manual, merged, escalate, use_ours}
use claw_branch.Merge.Applier.{Change, apply_batch}
use claw_branch.Merge.Applier.Batch.{
  row, names, writes, escalates, apply_batch-writes, apply_batch-atomic,
}
use claw_branch.Merge.ThreeWay.{
  Files, merge, preview, preview_of, preview_loop, index_by_id, diff_branches, result_of,
}
use claw_branch.Merge.ThreeWay.Plan.{left_open}
use claw_branch.Merge.ThreeWay.Outcome.{succeeded}
use mathlib.Core.List.{Permᴰ}
use claw_branch.Merge.ThreeWay.Guarantees.{merge-refused, merge-conflicts, merge-frame}
use claw_branch.Examples.Diffs.{small_sqlite, whole, note, db_of, base_rows, changed_rows}
use claw_branch.Examples.Unions.{changed_to}

abbrev pub plain : Printer
plain = record { show_number = λ n. []; show_value = λ v. [] }

abbrev written : Change
written = (changed_to (codes "new"), merged (object (note (codes "a") (codes "new"))))

abbrev skipped : Change
skipped = (changed_to (codes "old"), use_ours)

abbrev stuck : Change
stuck = (changed_to (codes "old"), escalate)

abbrev batch : List Change
batch = skipped ∷ written ∷ []

batch_run : apply_batch small_sqlite plain batch base_rows ≡ (ok 1, changed_rows)
unfolding apply_batch
batch_run = refl

batch_ok : (apply_batch small_sqlite plain batch base_rows).0 ≡ ok 1
unfolding apply_batch
batch_ok = refl

apply_batch-writes_example :
    (1 ≡ writes batch)
    × ((t : EntityType) (id : Text)
        → names t id batch ≡ false
        → row t id (apply_batch small_sqlite plain batch base_rows).1 ≡ row t id base_rows)
apply_batch-writes_example = apply_batch-writes small_sqlite plain batch base_rows 1 batch_ok

apply_batch-atomic_example :
    (escalates (written ∷ stuck ∷ []) ≡ true
      → is_err (apply_batch small_sqlite plain (written ∷ stuck ∷ []) base_rows).0 ≡ true)
    × (is_err (apply_batch small_sqlite plain (written ∷ stuck ∷ []) base_rows).0 ≡ true
        → (apply_batch small_sqlite plain (written ∷ stuck ∷ []) base_rows).1 ≡ base_rows)
apply_batch-atomic_example = apply_batch-atomic small_sqlite plain (written ∷ stuck ∷ []) base_rows

abbrev branch_at : ℕ → Text → Branch
branch_at n path = record {
  id = n;
  name = path;
  slug = path;
  parent_id = none;
  status = active;
  db_path = path;
  snapshot_path = path;
  workspace_id = 1;
  created_at = 0;
  updated_at = 0;
  forked_from_cursor = none;
  description = none;
  metadata = null;
  metrics = default_metrics;
}

abbrev base_branch : Branch
base_branch = branch_at 1 (codes "base")

abbrev pub ours_branch : Branch
ours_branch = branch_at 2 (codes "ours")

abbrev pub theirs_branch : Branch
theirs_branch = branch_at 3 (codes "theirs")

-- Theirs has the new note; ours has the base's.
abbrev one_sided : Files
one_sided =
    (codes "base", base_rows) ∷ (codes "ours", base_rows) ∷ (codes "theirs", changed_rows) ∷ []

-- Both changed the note, to different texts.
abbrev both_sided : Files
both_sided =
    (codes "base", base_rows)
    ∷ (codes "ours", db_of ((codes "a", object (note (codes "a") (codes "mine"))) ∷ []))
    ∷ (codes "theirs", changed_rows)
    ∷ []

abbrev merging : MergeStrategy → Files → BranchResult MergeResult × Files
merging s files =
    merge small_sqlite plain whole 9 base_branch ours_branch theirs_branch s none 4 files

one_sided_result :
    (merging manual one_sided).0 ≡ ok (result_of base_branch ours_branch theirs_branch 4 1 [] true)
unfolding merge
one_sided_result = refl

one_sided_ours : lookup (codes "ours") (merging manual one_sided).1 ≡ some changed_rows
unfolding merge lookup text_eq
one_sided_ours = refl

both_sided_open : succeeded (merging manual both_sided).0 ≡ false
unfolding merge result_of
both_sided_open = refl

merge-refused_example : (merging manual both_sided).1 ≡ both_sided
merge-refused_example =
    merge-refused small_sqlite plain whole 9 base_branch ours_branch theirs_branch manual none 4
      both_sided both_sided_open

merge-conflicts_example :
    (os : List EntityDiff) × (ts : List EntityDiff) × (diff_branches small_sqlite plain whole 9
        base_branch ours_branch none one_sided
      ≡ ok os)
    × (diff_branches small_sqlite plain whole 9 base_branch theirs_branch none one_sided ≡ ok ts)
    × (preview small_sqlite plain whole 9 base_branch ours_branch theirs_branch none one_sided
        ≡ ok (preview_of (preview_loop (index_by_id os []) ts)))
    × ((ts' : List EntityDiff)
        → Permᴰ ts ts'
        → Permᴰ []
            (keep (left_open manual) (preview_of (preview_loop (index_by_id os []) ts')).conflicts)
          × (true
              ≡ is_empty (
                  keep
                    (left_open manual)
                    (preview_of (preview_loop (index_by_id os []) ts')).conflicts)))
unfolding result_of
merge-conflicts_example =
    merge-conflicts small_sqlite plain whole 9 base_branch ours_branch theirs_branch manual none 4
      one_sided (result_of base_branch ours_branch theirs_branch 4 1 [] true) one_sided_result

base_file : lookup (codes "base") one_sided ≡ some base_rows
unfolding lookup text_eq
base_file = refl

ours_file : lookup (codes "ours") one_sided ≡ some base_rows
unfolding lookup text_eq
ours_file = refl

theirs_file : lookup (codes "theirs") one_sided ≡ some changed_rows
unfolding lookup text_eq
theirs_file = refl

other_row : row memory_record (codes "b") base_rows ≡ row memory_record (codes "b") changed_rows
unfolding lookup text_eq table
other_row = refl

merge-frame_example :
    (row memory_record (codes "b") changed_rows ≡ row memory_record (codes "b") base_rows)
    × ((path : Text)
        → path ≢ codes "ours"
        → lookup path (merging manual one_sided).1 ≡ lookup path one_sided)
merge-frame_example =
    merge-frame small_sqlite plain whole 9 base_branch ours_branch theirs_branch manual none 4
      one_sided memory_record (codes "b") base_rows changed_rows base_rows changed_rows base_file
      theirs_file ours_file one_sided_ours other_row

abbrev registry : Store
registry = record {
  rows = base_branch ∷ record ours_branch { parent_id = some 1 } ∷ theirs_branch ∷ [];
  metrics_rows = [];
  commits = [];
}

abbrev settings : Settings
settings = record {
  workspace_id = 1;
  max_branches_per_workspace = 9;
  trunk_branch_name = codes "base";
}

source_found : get registry 1 2 ≡ ok (record ours_branch { parent_id = some 1 })
unfolding get
source_found = refl

path_apart : text_eq (codes "theirs") (codes "ours") ≡ false
unfolding text_eq
path_apart = refl

other_path : codes "theirs" ≢ codes "ours"
unfolding text_eq
other_path e = cc ((text_eq_iff (codes "theirs") (codes "ours")).1 e, path_apart)

merge-source_only_example :
    lookup
      (codes "theirs")
      (Engine.merge small_sqlite plain whole 9 settings 2 3 manual 4 registry one_sided).1
    ≡ lookup (codes "theirs") one_sided
merge-source_only_example =
    merge-source_only small_sqlite plain whole 9 settings 2 3 manual 4 registry one_sided
      (record ours_branch { parent_id = some 1 }) (codes "theirs") source_found other_path
