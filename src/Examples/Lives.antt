-- ===== src/Examples/Lives.antt =====
-- branch/lifecycle.rs at a small registry: trunk, a discarded branch, and a fork.
use claw_branch.Shared.{
  Text, ℕ, text_eq, ◌+◌, ◌≤◌, codes, false, none, some, List, [], ◌∷◌, ◌==◌, ◌≡◌, refl, ⊎_elim,
  arith,
}
use claw_branch.Failure.{BranchResult, ok}
use claw_branch.Json.{null, pos}
use claw_branch.Types.{Branch, BranchStatus, active, dormant, discarded, purged}
use claw_branch.Shared.{In}
use claw_branch.Gc.{GcReport, collect}
use claw_branch.Gc.Purged.{Expired, Numbers, collect_lem}
use claw_branch.Registry.{
  list, violates_unique, insert, update_status, delete, Store, default_metrics, count_active,
}
use claw_branch.Registry.Unique.{UniqueRows, AllApart, UniqueRows-AllApart, store-UniqueRows}
use claw_branch.Registry.Rows.{status_of, UniqueIds}
use claw_branch.Lifecycle.{Settings, Manifest, World, Machine, Outside, fork, forked}
use claw_branch.Lifecycle.Status.{
  Command, to_activate, to_deactivate, to_archive, to_restore, perform, run, Stays, perform-Stays,
}
use claw_branch.Lifecycle.Closed.{run-closed}
use claw_branch.Lifecycle.Fork.{Admitted, fork-Admitted}
use claw_branch.Registry.Inserted.{inserted}
use claw_branch.Naming.{to_ascii_lowercase}

abbrev trunk_row : Branch
trunk_row = record {
  id = 1;
  name = codes "trunk";
  slug = codes "trunk";
  parent_id = none;
  status = active;
  db_path = codes "t";
  snapshot_path = codes "t";
  workspace_id = 5;
  created_at = 0;
  updated_at = 0;
  forked_from_cursor = none;
  description = none;
  metadata = null;
  metrics = default_metrics;
}

abbrev old_row : Branch
old_row = record trunk_row { id = 2; name = codes "old"; slug = codes "old"; status = discarded 3 }

abbrev registry : Store
registry = record { rows = trunk_row ∷ old_row ∷ []; metrics_rows = []; commits = [] }

abbrev pub settings : Settings
settings = record {
  workspace_id = 5;
  max_branches_per_workspace = 2;
  trunk_branch_name = codes "trunk";
}

abbrev any_snapshot : Branch → BranchResult (Unit {0})
any_snapshot b = ok tt

registry-UniqueIds : UniqueIds registry
registry-UniqueIds = ((λ h. ⊎_elim (λ e. omega arith) absurd h), ((λ h. h), tt))

old_status : status_of 2 registry ≡ some (discarded 3)
old_status = refl

trunk_sleeps :
    status_of 1 (perform settings any_snapshot (to_deactivate 8 1) registry) ≡ some dormant
unfolding perform
trunk_sleeps = refl

perform-Stays_example :
    Stays 1 registry (perform settings any_snapshot (to_deactivate 8 1) registry)
perform-Stays_example =
    perform-Stays settings any_snapshot (to_deactivate 8 1) registry registry-UniqueIds

abbrev calls : List Command
calls = to_activate 8 2 ∷ to_archive 9 1 ∷ to_restore 10 2 ∷ []

run-closed_example : status_of 2 (run settings any_snapshot calls registry) ≡ some (discarded 3)
run-closed_example =
    run-closed settings any_snapshot calls registry 2 (discarded 3) registry-UniqueIds old_status
      refl

abbrev pub outside : Outside
outside = record {
  to_lowercase = λ c. to_ascii_lowercase (c ∷ []);
  is_whitespace = λ c. c == b' ';
  is_cyclic_directed = λ g. false;
  uuid_text = λ u. u ∷ [];
}

abbrev snapshot : Manifest
snapshot = record {
  snapshot_db_path = codes "n";
  memory_records = pos 0;
  sessions = pos 0;
  tool_outputs = pos 0;
  file_size_bytes = 10;
  content_id = codes "c";
}

abbrev pub machine : Machine
machine = record { new_id = 7; now = 4; cursor = ok (codes "1"); snapshot = ok snapshot }

abbrev world : World
world = record { store = registry; dag = record { nodes = []; edges = []; node_index = [] } }

abbrev child : Branch
child =
    forked settings outside machine trunk_row 1 (codes "dev") (codes "dev") none (codes "1")
      snapshot

fork_run : (fork settings outside machine 1 (codes "dev") none world).0 ≡ ok child
unfolding fork forked
fork_run = refl

fork-Admitted_example :
    (parent : Branch) × Admitted settings outside 1 (codes "dev") registry parent child.slug
    × (child.parent_id ≡ some 1)
    × (child.status ≡ active)
    × ((fork settings outside machine 1 (codes "dev") none world).1.store ≡ inserted child registry)
    × (count_active
          (fork settings outside machine 1 (codes "dev") none world).1.store
          parent.workspace_id
        ≡ count_active registry parent.workspace_id + 1)
    × (count_active
          (fork settings outside machine 1 (codes "dev") none world).1.store
          parent.workspace_id
        ≤ 2)
fork-Admitted_example =
    fork-Admitted settings outside machine 1 (codes "dev") none world child fork_run

fresh_slug : text_eq (codes "old") (codes "trunk") ≡ false
unfolding text_eq
fresh_slug = refl

registry-UniqueRows : UniqueRows registry.rows
unfolding violates_unique
registry-UniqueRows = ((rw fresh_slug refl, tt), (tt, tt))

store-UniqueRows_example :
    ((b : Branch) → AllApart (insert b registry).1.rows)
    × ((id : ℕ) (st : BranchStatus) (now : ℕ) → AllApart (update_status id st now registry).1.rows)
    × ((id : ℕ) → AllApart (delete id registry).1.rows)
store-UniqueRows_example =
    store-UniqueRows registry (UniqueRows-AllApart registry.rows registry-UniqueRows)

abbrev sized : Text → ℕ
sized p = 10

abbrev hashed : Text → Text
hashed p = p

purge_run : status_of 2 (collect sized hashed 5 9 5 0 registry).1 ≡ some purged
unfolding collect
purge_run = refl

collect_lem_example :
    (r : GcReport) × ((collect sized hashed 5 9 5 0 registry).0 ≡ ok r)
    × Numbers (Expired 5) (list registry 5 none) r.branches_purged
    × ((b : Branch)
        → In b (list registry 5 none)
        → Expired 5 b
        → status_of b.id (collect sized hashed 5 9 5 0 registry).1 ≡ some purged)
    × ((i : ℕ)
        → ((b : Branch) → In b (list registry 5 none) → b.id ≡ i → ¬ Expired 5 b)
        → status_of i (collect sized hashed 5 9 5 0 registry).1 ≡ status_of i registry)
collect_lem_example = collect_lem sized hashed 5 9 5 0 registry
