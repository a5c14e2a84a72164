-- ===== src/Examples/Settings.antt =====
-- config.rs, engine.rs and guarded.rs at a workspace of two branches.
use claw_branch.Shared.{
  Text, codes, true, false, ◌↔◌, none, some, [], ◌∷◌, lookup, text_eq, ◌≡◌, ◌≢◌, refl,
  if◌then◌else◌,
}
use claw_branch.Failure.{ok, err, permission_denied}
use claw_branch.Registry.{get}
use claw_branch.Lifecycle.{Settings}
use claw_branch.Config.{BranchConfig, BranchConfigBuilder, System, builder, build}
use claw_branch.Config.Builder
use claw_branch.Config.Valid.{Valid, Settled, build-exact}
use claw_branch.Engine.Calls.{Workspace, Host, commit}
use claw_branch.Engine.Calls.Written.{commit-target_only}
use claw_branch.Guarded.{Guard, allow, deny}
use claw_branch.Guarded.Refused.{ask_discard, resource, by_engine, by_guarded, guarded_refines}
use claw_branch.Examples.Diffs.{small_sqlite, whole, base_rows, changed_rows}
use claw_branch.Examples.Merges.{plain, ours_branch}
use claw_branch.Examples.Lives.{outside, machine}
use claw_branch.Examples.Picks.{no_faults, registry, pick_of}

abbrev pub own : Settings
own = record { workspace_id = 1; max_branches_per_workspace = 9; trunk_branch_name = codes "trunk" }

abbrev host : Host
host = record {
  sql = small_sqlite;
  printer = plain;
  floats = whole;
  outside = outside;
  machine = machine;
  log_id = 8;
  now = 9;
  elapsed = 4;
  faults = no_faults;
}

abbrev workspace : Workspace
workspace = record {
  world = record { store = registry; dag = record { nodes = []; edges = []; node_index = [] } };
  files = (codes "ours", base_rows) ∷ (codes "theirs", changed_rows) ∷ [];
}

commit_written :
    lookup (codes "ours") (commit own host (pick_of (codes "a")) workspace).1.files
    ≡ some changed_rows
unfolding commit lookup text_eq
commit_written = refl

target_found : get registry 1 2 ≡ ok ours_branch
unfolding get
target_found = refl

theirs_not_ours : codes "theirs" ≢ codes "ours"
theirs_not_ours e = cc

commit-target_only_example :
    (lookup (codes "theirs") (commit own host (pick_of (codes "a")) workspace).1.files
      ≡ lookup (codes "theirs") workspace.files)
    × ((commit own host (pick_of (codes "a")) workspace).1.world.dag ≡ workspace.world.dag)
    × ((commit own host (pick_of (codes "a")) workspace).1.world.store.rows
        ≡ workspace.world.store.rows)
commit-target_only_example =
    commit-target_only own host (pick_of (codes "a")) workspace ours_branch (codes "theirs")
      target_found theirs_not_ours

-- A guard that lets nobody discard.
abbrev strict : Guard
strict action asked = if text_eq asked (codes "branch:discard") then deny (codes "no") else allow

guarded_refines_example :
    (strict (codes "write") (resource (ask_discard 2)) ≡ allow
      → by_guarded own host strict (ask_discard 2) workspace
        ≡ by_engine own host (ask_discard 2) workspace)
    × (strict (codes "write") (resource (ask_discard 2)) ≢ allow
        → (reason : Text) × (by_guarded own host strict (ask_discard 2) workspace
            ≡ (err (permission_denied reason), workspace)))
guarded_refines_example = guarded_refines strict own host (ask_discard 2) workspace

abbrev no_system : System
no_system = record {
  var = λ key. none;
  join = λ dir name. name;
  create_parent = λ path. ok tt;
  parse_uuid = λ s. none;
  parse_number = λ s. none;
  parse_float = λ s. none;
  parse_bool = λ s. none;
  uuid_text = λ id. [];
}

abbrev given : BranchConfigBuilder
given = Builder.divergence_threshold 1 (Builder.workspace_id 5 builder)

abbrev settled : BranchConfig
settled = record {
  workspace_id = 5;
  branches_dir = codes "./branches";
  registry_db_path = codes "branch_registry.db";
  max_branches_per_workspace = 50;
  max_branch_age_days = none;
  snapshot_compression = false;
  gc_interval_secs = 3600;
  gc_orphan_threshold_secs = 86400;
  divergence_threshold = 1;
  auto_metrics = true;
  metrics_refresh_interval_secs = 300;
  trunk_branch_name = codes "trunk";
}

build_run : build whole no_system given ≡ ok settled
unfolding build builder Builder.divergence_threshold Builder.workspace_id
build_run = refl

build-exact_example : (build whole no_system given ≡ ok settled) ↔ (
    Settled whole no_system given settled
    × Valid whole settled
    × (no_system.create_parent settled.branches_dir ≡ ok tt)
    × (no_system.create_parent settled.registry_db_path ≡ ok tt))
build-exact_example = build-exact whole no_system given settled
