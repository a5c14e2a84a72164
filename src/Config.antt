-- ===== src/Config.antt =====
-- config.rs: the configuration of a workspace, its builder and the reading of the environment. Paths,
-- variables, directories and the parsers of the standard library are parameters; the nil UUID is 0.
pub mod Builder
pub mod Valid
use claw_branch.Shared.{
  ℕ, Text, codes, ◌++◌, Bool, true, false, not, ◌&&◌, ◌||◌, Option, none, some, ltb, ◌==◌,
  if◌then◌else◌,
}
use claw_branch.Failure.{BranchResult, ok, err, ◌>>=◌, ◌>>◌, refuse_if, naming_error}
use claw_branch.Types.{Uuid, F64}
use claw_branch.Floats.{Floats}

pub record BranchConfig : Type 0 where
  pub workspace_id : Uuid
  pub branches_dir : Text
  pub registry_db_path : Text
  pub max_branches_per_workspace : ℕ
  pub max_branch_age_days : Option ℕ
  pub snapshot_compression : Bool
  pub gc_interval_secs : ℕ
  pub gc_orphan_threshold_secs : ℕ
  pub divergence_threshold : F64
  pub auto_metrics : Bool
  pub metrics_refresh_interval_secs : ℕ
  pub trunk_branch_name : Text

pub record BranchConfigBuilder : Type 0 where
  pub workspace_id : Option Uuid
  pub branches_dir : Option Text
  pub registry_db_path : Option Text
  pub max_branches_per_workspace : Option ℕ
  pub max_branch_age_days : Option (Option ℕ)
  pub snapshot_compression : Option Bool
  pub gc_interval_secs : Option ℕ
  pub gc_orphan_threshold_secs : Option ℕ
  pub divergence_threshold : Option F64
  pub auto_metrics : Option Bool
  pub metrics_refresh_interval_secs : Option ℕ
  pub trunk_branch_name : Option Text

unfoldable pub builder : BranchConfigBuilder
builder = record {
  workspace_id = none;
  branches_dir = none;
  registry_db_path = none;
  max_branches_per_workspace = none;
  max_branch_age_days = none;
  snapshot_compression = none;
  gc_interval_secs = none;
  gc_orphan_threshold_secs = none;
  divergence_threshold = none;
  auto_metrics = none;
  metrics_refresh_interval_secs = none;
  trunk_branch_name = none;
}

-- The operating system and the standard library: `env::var`, `Path::join`, `create_dir_all` of a
-- path's parent, `FromStr`, and a UUID's text.
pub record System : Type 0 where
  pub var : Text → Option Text
  pub join : Text → Text → Text
  pub create_parent : Text → BranchResult (Unit {0})
  pub parse_uuid : Text → Option Uuid
  pub parse_number : Text → Option ℕ
  pub parse_float : Text → Option F64
  pub parse_bool : Text → Option Bool
  pub uuid_text : Uuid → Text

abbrev pub unwrap_or {ℓ} : {A : Type ℓ} → A → Option A → A
unwrap_or d none = d
unwrap_or d (some a) = a

module _ (f : Floats) (os : System) where
  abbrev pub default_threshold : F64
  default_threshold = f.percent 80

  abbrev pub out_of_range : F64 → Bool
  out_of_range x = not (f.fle (f.of_nat 0) x && f.fle x (f.of_nat 1)) || f.feq x (f.of_nat 0)

  -- What `build` returns once nothing is refused.
  abbrev pub assembled : BranchConfigBuilder → BranchConfig
  assembled b =
      let dir = unwrap_or (codes "./branches") b.branches_dir in
      record {
        workspace_id = unwrap_or 0 b.workspace_id;
        branches_dir = dir;
        registry_db_path = unwrap_or (os.join dir (codes "branch_registry.db")) b.registry_db_path;
        max_branches_per_workspace = unwrap_or 50 b.max_branches_per_workspace;
        max_branch_age_days = unwrap_or none b.max_branch_age_days;
        snapshot_compression = unwrap_or false b.snapshot_compression;
        gc_interval_secs = unwrap_or 3600 b.gc_interval_secs;
        gc_orphan_threshold_secs = unwrap_or 86400 b.gc_orphan_threshold_secs;
        divergence_threshold = unwrap_or default_threshold b.divergence_threshold;
        auto_metrics = unwrap_or true b.auto_metrics;
        metrics_refresh_interval_secs = unwrap_or 300 b.metrics_refresh_interval_secs;
        trunk_branch_name = unwrap_or (codes "trunk") b.trunk_branch_name;
      }

  unfoldable pub build : BranchConfigBuilder → BranchResult BranchConfig
  build b =
      let c = assembled b in
      do
        refuse_if (c.workspace_id == 0) (naming_error (codes "workspace_id must not be nil"))
        refuse_if (ltb c.max_branches_per_workspace 1)
            (naming_error (codes "max_branches_per_workspace must be at least 1"))
        refuse_if (out_of_range c.divergence_threshold)
            (naming_error (codes "divergence_threshold must be within (0.0, 1.0]"))
        os.create_parent c.branches_dir
        os.create_parent c.registry_db_path
        ok c

  unfoldable pub default_for_workspace : Uuid → Text → BranchConfig
  default_for_workspace id base_dir =
      let workspace_root = os.join base_dir (os.uuid_text id) in
      record {
        workspace_id = id;
        branches_dir = os.join workspace_root (codes "branches");
        registry_db_path = os.join workspace_root (codes "branch_registry.db");
        max_branches_per_workspace = 50;
        max_branch_age_days = none;
        snapshot_compression = false;
        gc_interval_secs = 3600;
        gc_orphan_threshold_secs = 86400;
        divergence_threshold = f.percent 80;
        auto_metrics = true;
        metrics_refresh_interval_secs = 300;
        trunk_branch_name = codes "trunk";
      }

  abbrev pub parsed {ℓ} : {A : Type ℓ} → Text → Option A → BranchResult A
  parsed key none = err (naming_error (codes "invalid value for " ++ key))
  parsed key (some a) = ok a

  unfoldable pub parse_env_or_default {ℓ} :
      {A : Type ℓ} → (Text → Option A) → Text → A → BranchResult A
  parse_env_or_default parse key default = elim (os.var key) [
    | none ↦ ok default
    | some value ↦ parsed key (parse value)
  ]

  unfoldable pub parse_optional_env {ℓ} :
      {A : Type ℓ} → (Text → Option A) → Text → BranchResult (Option A)
  parse_optional_env parse key = elim (os.var key) [
    | none ↦ ok none
    | some value ↦ parsed key (parse value) >>= λ a. ok (some a)
  ]

  abbrev pub workspace_var : BranchResult Uuid
  workspace_var = elim (os.var (codes "CLAW_BRANCH_WORKSPACE_ID")) [
    | none ↦ err (naming_error (codes "missing or invalid CLAW_BRANCH_WORKSPACE_ID"))
    | some value ↦ elim (os.parse_uuid value) [
      | none ↦ err (naming_error (codes "missing or invalid CLAW_BRANCH_WORKSPACE_ID"))
      | some id ↦ ok id
    ]
  ]

  abbrev pub env_dir : Text
  env_dir = unwrap_or (codes "./branches") (os.var (codes "CLAW_BRANCH_DIR"))

  unfoldable pub from_env : BranchResult BranchConfig
  unfolding parse_env_or_default parse_optional_env build
  from_env = do
    id ← workspace_var
    max ← parse_env_or_default os.parse_number (codes "CLAW_BRANCH_MAX") 50
    age ← parse_optional_env os.parse_number (codes "CLAW_BRANCH_MAX_AGE_DAYS")
    interval ← parse_env_or_default os.parse_number (codes "CLAW_BRANCH_GC_INTERVAL") 3600
    orphan ← parse_env_or_default os.parse_number (codes "CLAW_BRANCH_GC_ORPHAN_THRESHOLD") 86400
    threshold ←
        parse_env_or_default os.parse_float (codes "CLAW_BRANCH_DIVERGENCE_THRESHOLD")
          (f.percent 80)
    metrics ← parse_env_or_default os.parse_bool (codes "CLAW_BRANCH_AUTO_METRICS") true
    refresh ←
        parse_env_or_default os.parse_number (codes "CLAW_BRANCH_METRICS_REFRESH_INTERVAL") 300
    build (record {
      workspace_id = some id;
      branches_dir = some env_dir;
      registry_db_path = some (
          unwrap_or (os.join env_dir (codes "branch_registry.db"))
            (os.var (codes "CLAW_BRANCH_REGISTRY")));
      max_branches_per_workspace = some max;
      max_branch_age_days = some age;
      snapshot_compression = some false;
      gc_interval_secs = some interval;
      gc_orphan_threshold_secs = some orphan;
      divergence_threshold = some threshold;
      auto_metrics = some metrics;
      metrics_refresh_interval_secs = some refresh;
      trunk_branch_name =
          some (unwrap_or (codes "trunk") (os.var (codes "CLAW_BRANCH_TRUNK_NAME")));
    })
