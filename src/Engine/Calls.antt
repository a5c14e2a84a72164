-- ===== src/Engine/Calls.antt =====
-- engine.rs: the calls of the engine on its registry, its graph and the files of its branches. The
-- calls compose the lifecycle, the diff, the commit and the collector. A fork's copy of the parent's
-- file is the machine's, as in Lifecycle.antt.
pub mod Written
use claw_branch.Shared.{
  ℕ, Text, text_eq, codes, Bool, true, false, Option, none, some, List, [], ◌∷◌, ◌++◌, map, reverse,
  put, lookup, if◌then◌else◌,
}
use claw_branch.Failure.{
  BranchResult, BranchError, ok, err, ◌>>=◌, ◌>>◌, naming_error, branch_not_found,
  branch_already_exists,
}
use claw_branch.Types.{
  Uuid, Time, Branch, BranchStatus, EntityType, DiffResult, MergeResult, CommitResult,
  BranchMetrics,
}
use claw_branch.Floats.{Floats}
use claw_branch.Database.{Sqlite, Printer, Db}
use claw_branch.Naming.{validate}
use claw_branch.Registry.{Store}
use claw_branch.Registry
use claw_branch.Lifecycle.{Settings, World, Machine, Outside}
use claw_branch.Lifecycle
use claw_branch.Diff
use claw_branch.Merge.Resolver.{MergeStrategy}
use claw_branch.Merge.ThreeWay.{Files, open_db}
use claw_branch.Commit.{Outcome, Faults, from_store, commit_all}
use claw_branch.Commit
use claw_branch.Commit.Cherry.{CherryPick, EntitySelection}
use claw_branch.Dag.{DagInner}
use claw_branch.Dag.Query.{Direction, Walk, and_then, ancestors_of}
use claw_branch.Metrics.{WorkspaceReport}
use claw_branch.Metrics
use claw_branch.Gc.{GcReport}
use claw_branch.Gc
use claw_branch.Engine.{ensure_workspace_access}
use claw_branch.Engine

pub record Workspace : Type 0 where
  pub world : World
  pub files : Files

-- What the calls take from outside: SQLite, printing, the doubles, the clock, the identifiers that
-- the calls draw, the time a call takes, the faults of a commit, and the answers of the file system.
pub record Host : Type 0 where
  pub sql : Sqlite
  pub printer : Printer
  pub floats : Floats
  pub outside : Outside
  pub machine : Machine
  pub log_id : Uuid
  pub now : Time
  pub elapsed : ℕ
  pub faults : Faults

module _ (cfg : Settings) where
  unfoldable pub get : Uuid → Store → BranchResult Branch
  unfolding Registry.get ensure_workspace_access
  get id s = do
    branch ← Registry.get s cfg.workspace_id id
    ensure_workspace_access cfg branch
    ok branch

  unfoldable pub get_by_name : Text → Store → BranchResult Branch
  unfolding Registry.get_by_name
  get_by_name name s = Registry.get_by_name s cfg.workspace_id name

  abbrev pub ensure_all : List Branch → BranchResult (Unit {0})
  ensure_all [] = ok tt
  ensure_all (b ∷ bs) = ensure_workspace_access cfg b >> ensure_all bs

  unfoldable pub list : Option BranchStatus → Store → BranchResult (List Branch)
  unfolding Registry.list ensure_workspace_access
  list status s =
      let branches = Registry.list s cfg.workspace_id status in ensure_all branches >> ok branches

  -- A miss is `None`, as `BranchNotFound` or as `BranchAlreadyExists` with the trunk's name.
  abbrev pub absent_or : BranchResult Branch → BranchResult (Option Branch)
  absent_or (ok b) = ok (some b)
  absent_or (err (branch_not_found _)) = ok none
  absent_or (err (branch_already_exists name)) =
      if text_eq name cfg.trunk_branch_name then ok none else err (branch_already_exists name)
  absent_or (err e) = err e

  unfoldable pub trunk_opt : Store → BranchResult (Option Branch)
  unfolding Registry.get_by_slug text_eq
  trunk_opt s = absent_or (Registry.get_by_slug s cfg.workspace_id cfg.trunk_branch_name)

  abbrev pub or_missing : Option Branch → BranchResult Branch
  or_missing none = err (naming_error (codes "trunk branch not found"))
  or_missing (some b) = ok b

  unfoldable pub trunk : Store → BranchResult Branch
  unfolding trunk_opt
  trunk s = trunk_opt s >>= or_missing

  -- The checks of a call, then its work; a check that fails changes nothing.
  abbrev pub checked :
      {A B S : Type 0} → BranchResult A → (A → S → BranchResult B × S) → S → BranchResult B × S
  checked (ok a) f s = f a s
  checked (err e) f s = (err e, s)

  unfoldable pub discard : Time → Uuid → Store → BranchResult (Unit {0}) × Store
  unfolding get Lifecycle.discard
  discard now id s = checked (get id s) (λ _. Lifecycle.discard cfg now id) s

  unfoldable pub archive : Time → Uuid → Store → BranchResult (Unit {0}) × Store
  unfolding get Lifecycle.archive
  archive now id s = checked (get id s) (λ _. Lifecycle.archive cfg now id) s

  module _ (h : Host) where
    unfoldable pub fork : Uuid → Text → Option Text → World → BranchResult Branch × World
    unfolding get Lifecycle.fork
    fork parent_id name description w =
        checked (get parent_id w.store)
          (λ _. Lifecycle.fork cfg h.outside h.machine parent_id name description) w

    unfoldable pub fork_trunk : Text → World → BranchResult Branch × World
    unfolding trunk validate Lifecycle.fork
    fork_trunk name w =
        checked (validate name >> trunk w.store)
          (λ (b : Branch). Lifecycle.fork cfg h.outside h.machine b.id name none) w

    unfoldable pub diff : Uuid → Uuid → Workspace → BranchResult DiffResult
    unfolding get open_db Diff.diff
    diff a b w = do
      branch_a ← Registry.get w.world.store cfg.workspace_id a
      branch_b ← Registry.get w.world.store cfg.workspace_id b
      ensure_workspace_access cfg branch_a
      ensure_workspace_access cfg branch_b
      db_a ← open_db branch_a.db_path w.files
      db_b ← open_db branch_b.db_path w.files
      ok (Diff.diff h.sql h.floats h.now branch_a.id db_a branch_b.id db_b none)

    unfoldable pub compare_branches : Uuid → Uuid → Workspace → BranchResult DiffResult
    unfolding diff
    compare_branches a b w = diff a b w

    -- What a commit on opened databases leaves: the registry, and the target's file.
    abbrev pub close : Text → Outcome → Workspace → BranchResult CommitResult × Workspace
    close path (r, store, db) w =
        (r, record { world = record w.world { store = store }; files = put path db w.files })

    abbrev pub access_both : Uuid → Uuid → Store → BranchResult (Unit {0})
    access_both a b s = do
      source ← Registry.get s cfg.workspace_id a
      target ← Registry.get s cfg.workspace_id b
      ensure_workspace_access cfg source
      ensure_workspace_access cfg target

    unfoldable pub commit : CherryPick → Workspace → BranchResult CommitResult × Workspace
    unfolding Registry.get ensure_workspace_access from_store Commit.commit put
    commit cherry w =
        checked
          (access_both cherry.source_branch_id cherry.target_branch_id w.world.store
            >> from_store w.world.store cherry.source_branch_id cherry.target_branch_id
                cfg.workspace_id w.files)
          (λ ((_, source_db), (path, target_db)). close path (
            Commit.commit h.sql h.printer h.outside.uuid_text h.log_id h.now h.faults
              cfg.workspace_id h.elapsed cherry source_db target_db w.world.store))
          w

    unfoldable pub cherry_pick :
        Uuid
        → Uuid
        → List EntitySelection
        → Option Text
        → Workspace
        → BranchResult CommitResult × Workspace
    unfolding commit
    cherry_pick source_id target_id selections message w =
        commit
          (record {
            source_branch_id = source_id;
            target_branch_id = target_id;
            entity_selections = selections;
            message = message;
          })
          w

    unfoldable pub commit_to_trunk : Uuid → Workspace → BranchResult CommitResult × Workspace
    unfolding get trunk from_store commit_all put
    commit_to_trunk source_id w =
        checked (get source_id w.world.store >>= λ _. trunk w.world.store)
          (λ (t : Branch).
            checked (from_store w.world.store source_id t.id cfg.workspace_id w.files)
              (λ ((_, source_db), (path, target_db)). close path (
                commit_all h.sql h.printer h.outside.uuid_text h.log_id h.now h.faults
                  cfg.workspace_id h.elapsed source_id t.id source_db target_db w.world.store)))
          w

    abbrev pub stored :
        {A : Type 0} → BranchResult A × Store → Workspace → BranchResult A × Workspace
    stored (r, s) w = (r, record w { world = record w.world { store = s } })

    -- `file_len` is the length of a file, 0 where there is none.
    unfoldable pub metrics : (Text → ℕ) → Uuid → Workspace → BranchResult BranchMetrics × Workspace
    unfolding Registry.get Metrics.refresh
    metrics file_len branch_id w =
        checked (Registry.get w.world.store cfg.workspace_id branch_id)
          (λ (b : Branch).
            stored (Metrics.refresh h.sql h.floats cfg h.now file_len b w.files w.world.store))
          w

    unfoldable pub workspace_report : Time → Store → WorkspaceReport
    unfolding Metrics.workspace_report
    workspace_report stale_cutoff s =
        Metrics.workspace_report h.floats h.now stale_cutoff cfg.workspace_id s

-- Root first, the branch itself last.
unfoldable pub lineage : (DagInner → ℕ → Direction → List ℕ) → Uuid → DagInner → Walk (List Uuid)
unfolding ancestors_of
lineage neighbors_directed branch_id g =
    and_then (ancestors_of neighbors_directed branch_id g)
      (λ ancestors. some (ok (reverse ancestors ++ branch_id ∷ [])))

-- `BranchEngine::gc`
unfoldable pub gc :
    (Text → ℕ) → (Text → Text) → Time → Settings → Host → Store → BranchResult GcReport × Store
unfolding Gc.collect
gc size hash_path cutoff cfg h s =
    Gc.collect size hash_path cutoff h.now cfg.workspace_id h.elapsed s
