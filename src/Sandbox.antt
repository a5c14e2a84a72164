-- ===== src/Sandbox.antt =====
-- sandbox/: a simulation on a branch of its own, and what becomes of it. The agent is a parameter: its
-- answer, and the database that it leaves. `short_id` stands for the first eight characters of the
-- environment's identifier, `show_error` and `show_score` for the printed forms.
use claw_branch.Shared.{
  ℕ, Text, codes, Bool, not, ◌&&◌, Option, none, some, List, [], ◌∷◌, ◌++◌, is_empty, put, ◌==◌,
  if◌then◌else◌,
}
use claw_branch.Failure.{BranchResult, BranchError, ok, err, ◌>>=◌, sandbox_error}
use claw_branch.Json.{Value}
use claw_branch.Types.{Uuid, Time, F64, Branch, BranchMetrics, DiffResult}
use claw_branch.Floats.{Floats}
use claw_branch.Database.{Sqlite, Db}
use claw_branch.Registry.{Store}
use claw_branch.Lifecycle.{Settings, World, Machine, Outside, fork, discard}
use claw_branch.Diff.{diff}
use claw_branch.Merge.ThreeWay.{Files, open_db}

-- types.rs
pub record SimulationOutcome : Type 0 where
  pub agent_output : Value
  pub ops_executed : ℕ
  pub duration_ms : ℕ

pub record SimulationScenario : Type 0 where
  pub name : Text
  pub description : Text
  pub max_ops : Option ℕ
  pub timeout_secs : Option ℕ
  pub seed_data : Option Value

pub data SandboxStatus : Type 0 where
  running abandoned : SandboxStatus
  completed : (outcome : SimulationOutcome) → SandboxStatus
  failed : (message : Text) → SandboxStatus

pub record SimulationEnvironment : Type 0 where
  pub id : Uuid
  pub label : Text
  pub branch : Branch
  pub parent_branch_id : Uuid
  pub started_at : Time
  pub scenario : SimulationScenario
  pub status : SandboxStatus

module _ (cfg : Settings) (o : Outside) (mc : Machine) (id : Uuid) (short_id : Text) where
  abbrev pub branch_name : SimulationScenario → Text
  branch_name scenario = codes "sandbox/" ++ scenario.name ++ codes "/" ++ short_id

  unfoldable pub setup :
      Branch → SimulationScenario → World → BranchResult SimulationEnvironment × World
  unfolding fork
  setup parent scenario w =
      let (r, w') = fork cfg o mc parent.id (branch_name scenario) (some scenario.description) w in
      (
        r >>= λ b. ok (record {
          id = id;
          label = branch_name scenario;
          branch = b;
          parent_branch_id = parent.id;
          started_at = mc.now;
          scenario = scenario;
          status = running;
        }),
        w',
      )

abbrev pub torn_down :
    SimulationEnvironment
    → BranchResult (Unit {0}) × Store
    → BranchResult (Unit {0}) × SimulationEnvironment × Store
torn_down env (err e, s) = (err e, env, s)
torn_down env (ok u, s) = (ok u, record env { status = abandoned }, s)

unfoldable pub teardown :
    Settings
    → Time
    → SimulationEnvironment
    → Store
    → BranchResult (Unit {0}) × SimulationEnvironment × Store
unfolding discard
teardown cfg now env s = torn_down env (discard cfg now env.branch.id s)

-- What the agent function does on the branch's database; `none` when it did not end in time.
abbrev pub Agent : Type 0
Agent = Db → Option (BranchResult Value) × Db

abbrev pub Run : Type 0
Run = BranchResult SimulationOutcome × SimulationEnvironment × Files

module _ (show_error : BranchError → Text) (show_number : ℕ → Text) (elapsed : ℕ) where
  abbrev pub outcome_of : Value → SimulationOutcome
  outcome_of v = record { agent_output = v; ops_executed = 1; duration_ms = elapsed }

  abbrev pub timed_out : ℕ → Text
  timed_out timeout_secs = codes "sandbox timed out after " ++ show_number timeout_secs ++ codes "s"

  -- The `match agent_result`; what the agent wrote stays.
  unfoldable pub concluded : ℕ → Option (BranchResult Value) → SimulationEnvironment → Files → Run
  concluded timeout_secs (some (ok v)) env files =
      (ok (outcome_of v), record env { status = completed (outcome_of v) }, files)
  concluded timeout_secs (some (err e)) env files =
      (err e, record env { status = failed (show_error e) }, files)
  concluded timeout_secs none env files = (
    err (sandbox_error (timed_out timeout_secs)),
    record env { status = failed (timed_out timeout_secs) },
    files,
  )

  unfoldable pub run_with_timeout : Agent → ℕ → SimulationEnvironment → Files → Run
  unfolding open_db concluded put
  run_with_timeout agent timeout_secs env files = elim (open_db env.branch.db_path files) [
    | err e ↦ (err e, env, files)
    | ok db ↦
        let (r, db') = agent db in concluded timeout_secs r env (put env.branch.db_path db' files)
  ]

  -- `run` awaits the agent without a limit: it answers for an agent that ends.
  unfoldable pub run : (Db → BranchResult Value × Db) → SimulationEnvironment → Files → Run
  unfolding run_with_timeout
  run agent env files =
      run_with_timeout (λ db. let (r, db') = agent db in (some r, db')) 0 env files

-- sandbox/evaluator.rs
pub data Recommendation : Type 0 where
  to_commit to_discard : Recommendation
  needs_review : (notes : List Text) → Recommendation

pub record EvaluationReport : Type 0 where
  pub diff : DiffResult
  pub metrics : BranchMetrics
  pub recommendation : Recommendation

module _ (f : Floats) (show_score : F64 → Text) where
  abbrev pub notes_on : DiffResult → F64 → List Text
  notes_on d threshold =
      if f.fle threshold d.divergence_score
      then (codes "divergence score "
          ++ show_score d.divergence_score
          ++ codes " meets or exceeds threshold "
          ++ show_score threshold)
        ∷ []
      else []

  abbrev pub is_idle : DiffResult → BranchMetrics → Bool
  is_idle d m =
      (m.op_count == 0)
      && (d.stats.n_added == 0)
      && (d.stats.n_modified == 0)
      && (d.stats.n_removed == 0)

  unfoldable pub recommend : DiffResult → BranchMetrics → F64 → Recommendation
  recommend d m threshold =
      let notes = notes_on d threshold in
      if is_idle d m
      then to_discard
      else if not (is_empty notes)
      then needs_review notes
      else to_commit

  unfoldable pub report_of :
      Sqlite → Time → F64 → SimulationEnvironment → Branch → Db → Db → EvaluationReport
  unfolding diff recommend
  report_of sql now threshold env parent db parent_db =
      let d = diff sql f now env.branch.id db parent.id parent_db none in
      record {
        diff = d;
        metrics = env.branch.metrics;
        recommendation = recommend d env.branch.metrics threshold;
      }

  unfoldable pub evaluate :
      Sqlite → Time → F64 → SimulationEnvironment → Branch → Files → BranchResult EvaluationReport
  unfolding open_db report_of
  evaluate sql now threshold env parent files = do
    db ← open_db env.branch.db_path files
    parent_db ← open_db parent.db_path files
    ok (report_of sql now threshold env parent db parent_db)
