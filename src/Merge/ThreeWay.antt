-- ===== src/Merge/ThreeWay.antt =====
-- merge/three_way.rs: the merge of the branch `theirs` into the branch `ours`, over their base. The
-- database files are a dictionary from their paths; `elapsed` is the clock's reading at the end.
pub mod Plan
pub mod Outcome
pub mod Guarantees
pub mod Order
use claw_branch.Shared.{
  ℕ, ◌+◌, ◌*◌, Text, codes, text_eq, Bool, true, false, Option, none, some, List, [], ◌∷◌, ◌++◌,
  any, is_empty, length, if◌then◌else◌, Dict, lookup, put,
}
use claw_branch.Failure.{BranchResult, ok, err, ◌>>=◌, database}
use claw_branch.Json.{Value, null, string, object, empty, insert}
use claw_branch.Types.{
  Time, EntityType, DiffKind, added, removed, modified, unchanged, is_unchanged, FieldDiff,
  EntityDiff, DiffResult, MergeConflict, MergeResult, Branch,
}
use claw_branch.Floats.{Floats}
use claw_branch.Database.{Sqlite, Printer, Db, id_key}
use claw_branch.Diff.{diff}
use claw_branch.Merge.Conflict.{detect_conflicts}
use claw_branch.Merge.Resolver.{
  MergeStrategy, ResolvedValue, use_ours, use_theirs, escalate, merged, resolve_batch,
}
use claw_branch.Merge.Applier.{Change, insert_afters, apply_batch}

abbrev pub Files : Type 0
Files = Dict Db

-- `connect_with`, for a file that must exist.
unfoldable pub open_db : Text → Files → BranchResult Db
unfolding lookup
open_db path files = elim (lookup path files) [
  | none ↦ err (database (codes "unable to open database file"))
  | some db ↦ ok db
]

-- `ours_by_id`: the later of two diffs with one id stays.
unfoldable pub index_by_id : List EntityDiff → Dict EntityDiff → Dict EntityDiff
unfolding put
index_by_id [] acc = acc
index_by_id (d ∷ ds) acc =
    index_by_id ds (if is_unchanged d.diff_kind then acc else put d.entity_id d acc)

-- The fields of theirs that ours does not have, after those of ours.
unfoldable pub combine : List FieldDiff → List FieldDiff → List FieldDiff → List FieldDiff
unfolding text_eq
combine ours [] acc = acc
combine ours (fd ∷ fds) acc =
    combine ours fds
      (if any (λ (g : FieldDiff). text_eq fd.field g.field) ours then acc else acc ++ fd ∷ [])

unfoldable pub merge_field_diffs : EntityDiff → EntityDiff → EntityDiff
unfolding combine
merge_field_diffs ours theirs = record {
  entity_id = ours.entity_id;
  entity_type = ours.entity_type;
  diff_kind = modified;
  field_diffs = combine ours.field_diffs theirs.field_diffs ours.field_diffs;
}

unfoldable pub theirs_entity_to_resolved : EntityDiff → ResolvedValue
unfolding insert_afters insert
theirs_entity_to_resolved d = elim d.diff_kind [
  | removed ↦ merged null
  | _ ↦ merged (object (insert_afters d.field_diffs (insert id_key (string d.entity_id) empty)))
]

-- What the loop over theirs has pushed: the changes to apply and the conflicts that stay.
abbrev pub Plan : Type 0
Plan = List Change × List MergeConflict

-- The loop over the resolved conflicts of one entity.
unfoldable pub sort_out : EntityDiff → List (MergeConflict × ResolvedValue) → Plan
sort_out theirs [] = ([], [])
sort_out theirs ((c, r) ∷ rs) =
    let (cs, left) = sort_out theirs rs in
    elim r [
      | escalate ↦ (cs, c ∷ left)
      | use_ours ↦ ((theirs, use_ours) ∷ cs, left)
      | use_theirs ↦ ((theirs, use_theirs) ∷ cs, left)
      | merged v ↦ ((theirs, merged v) ∷ cs, left)
    ]

-- The conflicts of an entity of theirs: none where ours did not change it. The base value is the
-- empty object.
unfoldable pub conflicts_with : Dict EntityDiff → EntityDiff → List MergeConflict
unfolding lookup detect_conflicts
conflicts_with ours_by_id theirs = elim (lookup theirs.entity_id ours_by_id) [
  | none ↦ []
  | some ours ↦ detect_conflicts ours theirs (object empty)
]

-- The change of an entity of theirs that has no conflict.
unfoldable pub auto_change : Dict EntityDiff → EntityDiff → Change
unfolding lookup merge_field_diffs theirs_entity_to_resolved
auto_change ours_by_id theirs = elim (lookup theirs.entity_id ours_by_id) [
  | none ↦ (theirs, theirs_entity_to_resolved theirs)
  | some ours ↦ (merge_field_diffs ours theirs, use_ours)
]

-- One turn of the loop over theirs, for a diff that is not unchanged.
unfoldable pub plan_entity : MergeStrategy → Dict EntityDiff → EntityDiff → BranchResult Plan
unfolding conflicts_with auto_change resolve_batch sort_out
plan_entity s ours_by_id theirs =
    let conflicts = conflicts_with ours_by_id theirs in
    if is_empty conflicts
    then ok (auto_change ours_by_id theirs ∷ [], [])
    else (resolve_batch conflicts s >>= λ rs. ok (sort_out theirs rs))

unfoldable pub plan : MergeStrategy → Dict EntityDiff → List EntityDiff → BranchResult Plan
unfolding plan_entity
plan s ours_by_id [] = ok ([], [])
plan s ours_by_id (d ∷ ds) =
    let rest = plan s ours_by_id ds in
    if is_unchanged d.diff_kind then rest else do
      (changes, left) ← plan_entity s ours_by_id d
      (changes', left') ← rest
      ok (changes ++ changes', left ++ left')

-- `MergeResult`
unfoldable pub result_of :
    Branch → Branch → Branch → ℕ → ℕ → List MergeConflict → Bool → MergeResult
result_of base ours theirs elapsed applied conflicts success = record {
  source_branch_id = theirs.id;
  target_branch_id = ours.id;
  base_branch_id = base.id;
  applied = applied;
  skipped = 0;
  conflicts = conflicts;
  duration_ms = elapsed;
  success = success;
}

pub record MergePreview : Type 0 where
  pub auto_resolved : ℕ
  pub conflicts : List MergeConflict
  pub estimated_duration_ms : ℕ

-- The loop of `preview`: its counter and its conflicts.
unfoldable pub preview_loop : Dict EntityDiff → List EntityDiff → ℕ × List MergeConflict
unfolding conflicts_with
preview_loop ours_by_id [] = (0, [])
preview_loop ours_by_id (d ∷ ds) =
    let (n, cs) = preview_loop ours_by_id ds in
    let conflicts = conflicts_with ours_by_id d in
    if is_unchanged d.diff_kind
    then (n, cs)
    else if is_empty conflicts
    then (n + 1, cs)
    else (n, conflicts ++ cs)

abbrev pub ms_per_entity : ℕ
ms_per_entity = 2

unfoldable pub preview_of : ℕ × List MergeConflict → MergePreview
preview_of (n, cs) = record {
  auto_resolved = n;
  conflicts = cs;
  estimated_duration_ms = (n + length cs) * ms_per_entity;
}

module _ (sql : Sqlite) (p : Printer) (f : Floats) (now : Time) where
  -- `DiffExtractor::diff`, from the branches' files.
  unfoldable pub diff_branches :
      Branch → Branch → Option (List EntityType) → Files → BranchResult (List EntityDiff)
  unfolding open_db diff
  diff_branches a b types files = do
    db_a ← open_db a.db_path files
    db_b ← open_db b.db_path files
    ok (diff sql f now a.id db_a b.id db_b types).entity_diffs

  -- `merge` from the plan on.
  unfoldable pub carry_out :
      Branch → Branch → Branch → ℕ → Files → Plan → BranchResult MergeResult × Files
  unfolding open_db apply_batch put result_of
  carry_out base ours theirs elapsed files (changes, c ∷ left) =
      (ok (result_of base ours theirs elapsed 0 (c ∷ left) false), files)
  carry_out base ours theirs elapsed files (changes, []) = elim (open_db ours.db_path files) [
    | err e ↦ (err e, files)
    | ok db ↦
        let (r, db') = apply_batch sql p changes db in
        (r >>= λ n. ok (result_of base ours theirs elapsed n [] true), put ours.db_path db' files)
  ]

  unfoldable pub merge_plan :
      Branch
      → Branch
      → Branch
      → MergeStrategy
      → Option (List EntityType)
      → Files
      → BranchResult Plan
  unfolding diff_branches index_by_id plan
  merge_plan base ours theirs s types files = do
    ours_diffs ← diff_branches base ours types files
    theirs_diffs ← diff_branches base theirs types files
    plan s (index_by_id ours_diffs []) theirs_diffs

  unfoldable pub merge :
      Branch
      → Branch
      → Branch
      → MergeStrategy
      → Option (List EntityType)
      → ℕ
      → Files
      → BranchResult MergeResult × Files
  unfolding merge_plan carry_out
  merge base ours theirs s types elapsed files = elim (merge_plan base ours theirs s types files) [
    | err e ↦ (err e, files)
    | ok pl ↦ carry_out base ours theirs elapsed files pl
  ]

  unfoldable pub preview :
      Branch → Branch → Branch → Option (List EntityType) → Files → BranchResult MergePreview
  unfolding diff_branches index_by_id preview_loop preview_of
  preview base ours theirs types files = do
    ours_diffs ← diff_branches base ours types files
    theirs_diffs ← diff_branches base theirs types files
    ok (preview_of (preview_loop (index_by_id ours_diffs []) theirs_diffs))
