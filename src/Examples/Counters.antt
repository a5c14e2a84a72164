-- ===== src/Examples/Counters.antt =====
-- metrics/tracker.rs at a registry of two branches.
use claw_branch.Shared.{ℕ, Text, ◌≡◌, ◌≢◌, refl}
use claw_branch.Failure.{ok}
use claw_branch.Types.{Uuid, BranchMetrics}
use claw_branch.Registry.{get}
use claw_branch.Metrics.{insertion, track_op}
use claw_branch.Metrics.Persisted.{IsTracked, track_op-get}
use claw_branch.Examples.Diffs.{small_sqlite, whole}
use claw_branch.Examples.Merges.{ours_branch}
use claw_branch.Examples.Picks.{registry}
use claw_branch.Examples.Settings.{own}

abbrev no_file : Text → ℕ
no_file path = 0

own_found : get registry 1 2 ≡ ok ours_branch
unfolding get
own_found = refl

track_op-get_example :
    ((track_op small_sqlite whole own 9 no_file 2 insertion registry).0 ≡ ok tt)
    × ((n : BranchMetrics) × IsTracked 9 insertion ours_branch.metrics n
        × (get (track_op small_sqlite whole own 9 no_file 2 insertion registry).1 1 2
            ≡ ok (record ours_branch { metrics = n })))
    × ((j : Uuid)
        → j ≢ 2
        → get (track_op small_sqlite whole own 9 no_file 2 insertion registry).1 1 j
          ≡ get registry 1 j)
track_op-get_example =
    track_op-get small_sqlite whole own 9 no_file 2 insertion registry ours_branch own_found
