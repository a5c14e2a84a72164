-- ===== src/Examples/Picks.antt =====
-- commit/ at small branches: the source's note is picked for the target.
use claw_branch.Shared.{Text, codes, true, ◌↔◌, none, some, ◌⊎◌, [], ◌∷◌, ◌≡◌, refl}
use claw_branch.Failure.{BranchError, ok, err, is_err, database}
use claw_branch.Types.{Uuid, memory_record, CommitResult}
use claw_branch.Registry.{Store}
use claw_branch.Commit.{Outcome, Faults, commit, log_entry}
use claw_branch.Commit.Cherry.{CherryPick}
use claw_branch.Commit.Validator.{validate}
use claw_branch.Commit.Validator.Exact.{Sound, validate-exact}
use claw_branch.Commit.Whole.{commit-atomic}
use claw_branch.Examples.Diffs.{small_sqlite, base_rows, changed_rows}
use claw_branch.Examples.Merges.{plain, ours_branch, theirs_branch}

abbrev pub registry : Store
registry = record { rows = ours_branch ∷ theirs_branch ∷ []; metrics_rows = []; commits = [] }

abbrev pub pick_of : Text → CherryPick
pick_of id = record {
  source_branch_id = 3;
  target_branch_id = 2;
  entity_selections =
      record { entity_type = memory_record; entity_ids = id ∷ []; fields = none } ∷ [];
  message = none;
}

abbrev nameless : Uuid → Text
nameless n = []

abbrev pub no_faults : Faults
no_faults = record { on_commit = none; on_log = none }

abbrev locked : BranchError
locked = database (codes "database is locked")

abbrev log_locked : Faults
log_locked = record { on_commit = none; on_log = some locked }

abbrev committing : Faults → Text → Outcome
committing faults id =
    commit small_sqlite plain nameless 8 9 faults 1 4 (pick_of id) changed_rows base_rows registry

abbrev picked : CommitResult
picked = record {
  committed_entity_count = 1;
  fields_updated = 2;
  duration_ms = 4;
  target_branch_id = 2;
  committed_at = 9;
}

commit_run : committing no_faults (codes "a") ≡ (
  ok picked,
  record registry { commits = log_entry 8 9 (pick_of (codes "a")) (codes "a" ∷ []) ∷ [] },
  changed_rows,
)
unfolding commit
commit_run = refl

commit_missing : is_err (committing no_faults (codes "b")).0 ≡ true
unfolding commit
commit_missing = refl

-- The log is locked: the target is written, and the registry knows nothing of it.
commit_unlogged : committing log_locked (codes "a") ≡ (err locked, registry, changed_rows)
unfolding commit
commit_unlogged = refl

commit_locked : (committing log_locked (codes "a")).0 ≡ err locked
unfolding commit
commit_locked = refl

commit-atomic_example :
    ((committing log_locked (codes "a")).1 ≡ registry)
    × (((committing log_locked (codes "a")).2 ≡ base_rows) ⊎ (log_locked.on_log ≡ some locked))
commit-atomic_example =
    commit-atomic small_sqlite plain nameless 8 9 log_locked 1 4 (pick_of (codes "a")) changed_rows
      base_rows registry locked refl commit_locked

validate-exact_example :
    ((validate small_sqlite nameless
        (pick_of (codes "a"))
        theirs_branch
        ours_branch
        changed_rows).is_ok
      ≡ true)
    ↔ Sound small_sqlite (pick_of (codes "a")) theirs_branch ours_branch changed_rows
validate-exact_example =
    validate-exact small_sqlite nameless (pick_of (codes "a")) theirs_branch ours_branch
      changed_rows
