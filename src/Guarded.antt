-- ===== src/Guarded.antt =====
-- guarded.rs: the engine's calls behind the access check of a session. The guard is a parameter: its
-- answer for an action on a resource, or its failure.
pub mod Refused
use claw_branch.Shared.{ℕ, Text, codes, Bool, true, false, Option, none, some, List}
use claw_branch.Failure.{BranchResult, ok, err, ◌>>=◌, ◌>>◌, permission_denied}
use claw_branch.Types.{
  Uuid, Branch, BranchMetrics, DiffResult, MergeResult, CommitResult, BranchMetrics,
}
use claw_branch.Registry.{Store}
use claw_branch.Lifecycle.{Settings, World}
use claw_branch.Merge.Resolver.{MergeStrategy}
use claw_branch.Merge.ThreeWay.{Files}
use claw_branch.Commit.Cherry.{EntitySelection}
use claw_branch.Engine
use claw_branch.Engine.Calls.{Workspace, Host}
use claw_branch.Engine.Calls

-- `claw_guard::AccessResult`, and `Err` with its message.
pub data Access : Type 0 where
  allow mask : Access
  deny failure : (reason : Text) → Access

-- `claw_guard::Guard::check_access` for a session: the action and the resource.
abbrev pub Guard : Type 0
Guard = Text → Text → Access

abbrev pub verdict : Access → BranchResult (Unit {0})
verdict allow = ok tt
verdict (deny reason) = err (permission_denied reason)
verdict mask = err (permission_denied (codes "masked access not applicable to branch ops"))
verdict (failure message) = err (permission_denied message)

unfoldable pub check : Guard → Text → Text → BranchResult (Unit {0})
check guard action resource = verdict (guard action resource)

unfoldable pub check_read : Guard → Text → BranchResult (Unit {0})
unfolding check
check_read guard resource = check guard (codes "read") resource

unfoldable pub check_write : Guard → Text → BranchResult (Unit {0})
unfolding check
check_write guard resource = check guard (codes "write") resource

abbrev pub gated :
    {A : Type 0}
    → BranchResult (Unit {0})
    → (Workspace → BranchResult A × Workspace)
    → Workspace
    → BranchResult A × Workspace
gated (ok _) call w = call w
gated (err e) call w = (err e, w)

-- A call that changes the registry and the graph, or the registry or the files alone.
abbrev pub on_world :
    {A : Type 0} → (World → BranchResult A × World) → Workspace → BranchResult A × Workspace
on_world call w = let (r, v) = call w.world in (r, record w { world = v })

abbrev pub on_store :
    {A : Type 0} → (Store → BranchResult A × Store) → Workspace → BranchResult A × Workspace
on_store call w =
    let (r, s) = call w.world.store in (r, record w { world = record w.world { store = s } })

abbrev pub on_files :
    {A : Type 0} → (Files → BranchResult A × Files) → Workspace → BranchResult A × Workspace
on_files call w = let (r, f) = call w.files in (r, record w { files = f })

abbrev pub dropped : {A : Type 0} → BranchResult A × Workspace → BranchResult (Unit {0}) × Workspace
dropped (r, w) = (r >>= λ _. ok tt, w)

module _ (guard : Guard) (cfg : Settings) (h : Host) where
  unfoldable pub fork_trunk : Text → Workspace → BranchResult Branch × Workspace
  unfolding check_write Calls.fork_trunk
  fork_trunk name =
      gated (check_write guard (codes "branch:fork_trunk")) (on_world (Calls.fork_trunk cfg h name))

  unfoldable pub fork : Uuid → Text → Workspace → BranchResult Branch × Workspace
  unfolding check_write Calls.fork
  fork parent_id name =
      gated (check_write guard (codes "branch:fork"))
        (on_world (Calls.fork cfg h parent_id name none))

  unfoldable pub merge :
      Uuid → Uuid → MergeStrategy → Workspace → BranchResult MergeResult × Workspace
  unfolding check_write Engine.merge
  merge source target strategy = gated (check_write guard (codes "branch:merge")) (λ w.
      on_files
        (Engine.merge h.sql h.printer h.floats h.now cfg source target strategy h.elapsed
          w.world.store)
        w)

  unfoldable pub commit_to_trunk : Uuid → Workspace → BranchResult (Unit {0}) × Workspace
  unfolding check_write Calls.commit_to_trunk
  commit_to_trunk branch_id =
      gated (check_write guard (codes "branch:commit_to_trunk"))
        (λ w. dropped (Calls.commit_to_trunk cfg h branch_id w))

  unfoldable pub discard : Uuid → Workspace → BranchResult (Unit {0}) × Workspace
  unfolding check_write Calls.discard
  discard branch_id =
      gated (check_write guard (codes "branch:discard"))
        (on_store (Calls.discard cfg h.now branch_id))

  unfoldable pub cherry_pick :
      Uuid
      → Uuid
      → List EntitySelection
      → Option Text
      → Workspace
      → BranchResult CommitResult × Workspace
  unfolding check_write Calls.cherry_pick
  cherry_pick source target selections message =
      gated (check_write guard (codes "branch:cherry_pick"))
        (Calls.cherry_pick cfg h source target selections message)

  unfoldable pub diff : Uuid → Uuid → Workspace → BranchResult DiffResult
  unfolding check_read Calls.diff
  diff source target w = check_read guard (codes "branch:diff") >> Calls.diff cfg h source target w

  unfoldable pub compare_branches : Uuid → Uuid → Workspace → BranchResult DiffResult
  unfolding check_read Calls.compare_branches
  compare_branches source target w =
      check_read guard (codes "branch:compare") >> Calls.compare_branches cfg h source target w

  unfoldable pub list_branches : Workspace → BranchResult (List Branch)
  unfolding check_read Calls.list
  list_branches w = check_read guard (codes "branch:list") >> Calls.list cfg none w.world.store

  unfoldable pub trunk : Workspace → BranchResult Branch
  unfolding check_read Calls.trunk
  trunk w = check_read guard (codes "branch:trunk") >> Calls.trunk cfg w.world.store

  unfoldable pub get_metrics :
      (Text → ℕ) → Uuid → Workspace → BranchResult BranchMetrics × Workspace
  unfolding check_read Calls.metrics
  get_metrics file_len branch_id =
      gated (check_read guard (codes "branch:get_metrics")) (Calls.metrics cfg h file_len branch_id)
