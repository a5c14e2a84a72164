-- ===== src/Config/Builder.antt =====
-- config.rs: the setters of the builder.
use claw_branch.Shared.{ℕ, Text, Bool, Option, some}
use claw_branch.Types.{Uuid, F64}
use claw_branch.Config.{BranchConfigBuilder}

unfoldable pub workspace_id : Uuid → BranchConfigBuilder → BranchConfigBuilder
workspace_id x b = record b { workspace_id = some x }

unfoldable pub branches_dir : Text → BranchConfigBuilder → BranchConfigBuilder
branches_dir x b = record b { branches_dir = some x }

unfoldable pub registry_db_path : Text → BranchConfigBuilder → BranchConfigBuilder
registry_db_path x b = record b { registry_db_path = some x }

unfoldable pub max_branches_per_workspace : ℕ → BranchConfigBuilder → BranchConfigBuilder
max_branches_per_workspace x b = record b { max_branches_per_workspace = some x }

unfoldable pub max_branch_age_days : Option ℕ → BranchConfigBuilder → BranchConfigBuilder
max_branch_age_days x b = record b { max_branch_age_days = some x }

unfoldable pub snapshot_compression : Bool → BranchConfigBuilder → BranchConfigBuilder
snapshot_compression x b = record b { snapshot_compression = some x }

unfoldable pub gc_interval_secs : ℕ → BranchConfigBuilder → BranchConfigBuilder
gc_interval_secs x b = record b { gc_interval_secs = some x }

unfoldable pub gc_orphan_threshold_secs : ℕ → BranchConfigBuilder → BranchConfigBuilder
gc_orphan_threshold_secs x b = record b { gc_orphan_threshold_secs = some x }

unfoldable pub divergence_threshold : F64 → BranchConfigBuilder → BranchConfigBuilder
divergence_threshold x b = record b { divergence_threshold = some x }

unfoldable pub auto_metrics : Bool → BranchConfigBuilder → BranchConfigBuilder
auto_metrics x b = record b { auto_metrics = some x }

unfoldable pub metrics_refresh_interval_secs : ℕ → BranchConfigBuilder → BranchConfigBuilder
metrics_refresh_interval_secs x b = record b { metrics_refresh_interval_secs = some x }

unfoldable pub trunk_branch_name : Text → BranchConfigBuilder → BranchConfigBuilder
trunk_branch_name x b = record b { trunk_branch_name = some x }
