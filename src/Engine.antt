-- ===== src/Engine.antt =====
-- engine.rs: the calls that merge two branches of the registry.
pub mod Target
pub mod Calls
use claw_branch.Shared.{
  ℕ, Text, Bool, true, false, not, Option, none, some, List, ◌==◌, if◌then◌else◌,
}
use claw_branch.Failure.{
  BranchResult, ok, err, ◌>>=◌, ◌>>◌, refuse_if, workspace_isolation_violation,
}
use claw_branch.Types.{Uuid, Time, Branch, MergeResult}
use claw_branch.Floats.{Floats}
use claw_branch.Database.{Sqlite, Printer}
use claw_branch.Registry.{Store, get}
use claw_branch.Lifecycle.{Settings}
use claw_branch.Merge.Resolver.{MergeStrategy}
use claw_branch.Merge.ThreeWay.{Files, MergePreview}
use claw_branch.Merge.ThreeWay

unfoldable pub ensure_workspace_access : Settings → Branch → BranchResult (Unit {0})
ensure_workspace_access cfg b =
    refuse_if (not (b.workspace_id == cfg.workspace_id))
      (workspace_isolation_violation cfg.workspace_id b.workspace_id)

-- The three branches of a merge: the base is the parent of the source, or the target.
unfoldable pub branches_of :
    Settings → Uuid → Uuid → Store → BranchResult (Branch × Branch × Branch)
unfolding get ensure_workspace_access
branches_of cfg source target s = do
  source_branch ← get s cfg.workspace_id source
  target_branch ← get s cfg.workspace_id target
  ensure_workspace_access cfg source_branch
  ensure_workspace_access cfg target_branch
  base_branch ←
      get s cfg.workspace_id (elim source_branch.parent_id [ none ↦ target | some id ↦ id ])
  ensure_workspace_access cfg base_branch
  ok (base_branch, source_branch, target_branch)

module _ (sql : Sqlite) (p : Printer) (f : Floats) (now : Time) (cfg : Settings) where
  -- The source stands where `ThreeWayMerger::merge` has ours, the target where it has theirs.
  unfoldable pub merge :
      Uuid → Uuid → MergeStrategy → ℕ → Store → Files → BranchResult MergeResult × Files
  unfolding branches_of ThreeWay.merge
  merge source target strategy elapsed s files = elim (branches_of cfg source target s) [
    | err e ↦ (err e, files)
    | ok (base, ours, theirs) ↦
        ThreeWay.merge sql p f now base ours theirs strategy none elapsed files
  ]

  unfoldable pub merge_preview : Uuid → Uuid → Store → Files → BranchResult MergePreview
  unfolding branches_of ThreeWay.preview
  merge_preview source target s files = do
    (base, ours, theirs) ← branches_of cfg source target s
    ThreeWay.preview sql p f now base ours theirs none files
