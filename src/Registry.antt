-- ===== src/Registry.antt =====
-- branch/store.rs: the registry database, its three tables as lists of rows in the order of insertion.
-- A row holds its decoded values (a status goes through `to_storage` and `from_storage`, see
-- Types/Storage.antt); the counters of a branch stand in the table of metrics and are joined to it
-- when it is read. sqlx opens the database with SQLite's foreign keys on.
pub mod Rows
pub mod Unique
pub mod Inserted
use claw_branch.Shared.{
  ℕ, ◌+◌, ◌<◌, Text, codes, text_eq, Bool, true, false, ◌&&◌, ◌||◌, not, Option, none, some, List,
  [], ◌∷◌, ◌++◌, any, keep, map, take, length, ==_refl, ◌==◌, leb, if◌then◌else◌,
}
use claw_branch.Failure.{
  BranchResult, BranchError, ok, err, ◌>>=◌, database, branch_not_found, branch_already_exists,
}
use claw_branch.Json.{pos}
use claw_branch.Types.{
  Uuid, Time, Branch, BranchStatus, BranchMetrics, CommitLogEntry, is_live, kind,
}

pub record Store : Type 0 where
  pub rows : List Branch
  pub metrics_rows : List (Uuid × BranchMetrics)
  pub commits : List CommitLogEntry

-- `BranchMetrics::default()`; the bits of 0.0 are 0.
abbrev pub default_metrics : BranchMetrics
default_metrics = record {
  op_count = 0;
  memory_record_count = pos 0;
  session_count = pos 0;
  tool_output_count = pos 0;
  bytes_on_disk = 0;
  divergence_score = 0;
  created_entity_count = 0;
  updated_entity_count = 0;
  deleted_entity_count = 0;
  last_activity_at = none;
}

-- The `LEFT JOIN` of the metrics: a branch without a row of metrics has the default ones.
unfoldable pub metrics_of : Uuid → List (Uuid × BranchMetrics) → BranchMetrics
metrics_of id [] = default_metrics
metrics_of id ((i, m) ∷ ms) = if id == i then m else metrics_of id ms

-- `branch_from_row`
unfoldable pub branch_from_row : Store → Branch → Branch
unfolding metrics_of
branch_from_row s b = record b { metrics = metrics_of b.id s.metrics_rows }

abbrev pub find : (Branch → Bool) → List Branch → Option Branch
find q [] = none
find q (b ∷ bs) = if q b then some b else find q bs

unfoldable pub get : Store → Uuid → Uuid → BranchResult Branch
unfolding branch_from_row
get s workspace_id id =
    elim (find (λ (b : Branch). (b.workspace_id == workspace_id) && (b.id == id)) s.rows) [
      | none ↦ err (branch_not_found id)
      | some b ↦ ok (branch_from_row s b)
    ]

-- A miss is reported as `BranchAlreadyExists`, as the source has it.
unfoldable pub get_by_slug : Store → Uuid → Text → BranchResult Branch
unfolding branch_from_row text_eq
get_by_slug s workspace_id slug =
    elim (find (λ (b : Branch). (b.workspace_id == workspace_id) && text_eq b.slug slug) s.rows) [
      | none ↦ err (branch_already_exists slug)
      | some b ↦ ok (branch_from_row s b)
    ]

unfoldable pub get_by_name : Store → Uuid → Text → BranchResult Branch
unfolding branch_from_row text_eq
get_by_name s workspace_id name =
    elim (find (λ (b : Branch). (b.workspace_id == workspace_id) && text_eq b.name name) s.rows) [
      | none ↦ err (branch_already_exists name)
      | some b ↦ ok (branch_from_row s b)
    ]

-- `ORDER BY created_at ASC`; rows of one time keep their order.
unfoldable pub by_created_at : Branch → List Branch → List Branch
by_created_at b [] = b ∷ []
by_created_at b (c ∷ cs) =
    let rest = by_created_at b cs in if leb b.created_at c.created_at then b ∷ c ∷ cs else c ∷ rest

unfoldable pub order_by_created_at : List Branch → List Branch
unfolding by_created_at
order_by_created_at [] = []
order_by_created_at (b ∷ bs) = by_created_at b (order_by_created_at bs)

abbrev pub in_workspace : Uuid → Branch → Bool
in_workspace w b = b.workspace_id == w

unfoldable pub list : Store → Uuid → Option BranchStatus → List Branch
unfolding branch_from_row order_by_created_at kind text_eq
list s w status =
    let branches = map (branch_from_row s) (order_by_created_at (keep (in_workspace w) s.rows)) in
    elim status [
      | none ↦ branches
      | some expected ↦ keep (λ (b : Branch). text_eq (kind b.status) (kind expected)) branches
    ]

abbrev pub has_id : Uuid → Branch → Bool
has_id id b = b.id == id

-- `INSERT ... ON CONFLICT(branch_id) DO UPDATE`
unfoldable pub upsert_metrics :
    Uuid → BranchMetrics → List (Uuid × BranchMetrics) → List (Uuid × BranchMetrics)
upsert_metrics id m [] = (id, m) ∷ []
upsert_metrics id m ((i, n) ∷ ms) = if id == i then (i, m) ∷ ms else (i, n) ∷ upsert_metrics id m ms

unfoldable pub update_metrics : Uuid → BranchMetrics → Store → BranchResult (Unit {0}) × Store
unfolding upsert_metrics
update_metrics id m s =
    if any (has_id id) s.rows
    then (ok tt, record s { metrics_rows = upsert_metrics id m s.metrics_rows })
    else (err (database (codes "FOREIGN KEY constraint failed")), s)

-- `PRIMARY KEY` and `UNIQUE(workspace_id, slug)`
unfoldable pub violates_unique : Branch → Branch → Bool
unfolding text_eq
violates_unique b c =
    (b.id == c.id) || ((b.workspace_id == c.workspace_id) && text_eq b.slug c.slug)

unfoldable pub insert : Branch → Store → BranchResult (Unit {0}) × Store
unfolding violates_unique update_metrics
insert b s =
    if any (violates_unique b) s.rows
    then (err (branch_already_exists b.name), s)
    else update_metrics b.id b.metrics (record s { rows = s.rows ++ b ∷ [] })

-- `UPDATE branches SET status = ?, updated_at = ? WHERE id = ?`
unfoldable pub set_status : Uuid → BranchStatus → Time → List Branch → List Branch
set_status id status now [] = []
set_status id status now (b ∷ bs) =
    (if b.id == id then record b { status = status; updated_at = now } else b)
    ∷ set_status id status now bs

unfoldable pub update_status : Uuid → BranchStatus → Time → Store → BranchResult (Unit {0}) × Store
unfolding set_status
update_status id status now s =
    if any (has_id id) s.rows
    then (ok tt, record s { rows = set_status id status now s.rows })
    else (err (branch_not_found id), s)

abbrev pub drop_metrics : Uuid → Store → Store
drop_metrics id s = record s {
  metrics_rows = keep (λ (m : Uuid × BranchMetrics). not (m.0 == id)) s.metrics_rows;
}

-- Two statements, not in one transaction: a branch that still has commits loses its metrics and stays.
unfoldable pub delete : Uuid → Store → BranchResult (Unit {0}) × Store
delete id s =
    let s' = drop_metrics id s in
    if any (λ (c : CommitLogEntry). c.branch_id == id) s.commits && any (has_id id) s.rows
    then (err (database (codes "FOREIGN KEY constraint failed")), s')
    else if any (has_id id) s.rows
    then (ok tt, record s' { rows = keep (λ b. not (has_id id b)) s.rows })
    else (err (branch_not_found id), s')

unfoldable pub count : Store → Uuid → ℕ
count s w = length (keep (in_workspace w) s.rows)

-- The statuses 'active' and 'dormant' are the live ones.
unfoldable pub count_active : Store → Uuid → ℕ
unfolding is_live
count_active s w = length (keep (λ b. in_workspace w b && is_live b.status) s.rows)

-- `fault` is the error of a statement that fails for another reason than the constraints: a locked
-- or a full database.
unfoldable pub insert_commit_log :
    Option BranchError → CommitLogEntry → Store → BranchResult (Unit {0}) × Store
insert_commit_log (some fault) entry s = (err fault, s)
insert_commit_log none entry s =
    if any (λ (c : CommitLogEntry). c.id == entry.id) s.commits
    then (err (database (codes "UNIQUE constraint failed")), s)
    else if any (has_id entry.branch_id) s.rows
    then (ok tt, record s { commits = s.commits ++ entry ∷ [] })
    else (err (database (codes "FOREIGN KEY constraint failed")), s)

-- `ORDER BY committed_at DESC`
unfoldable pub by_committed_at : CommitLogEntry → List CommitLogEntry → List CommitLogEntry
by_committed_at e [] = e ∷ []
by_committed_at e (c ∷ cs) =
    let rest = by_committed_at e cs in
    if leb c.committed_at e.committed_at then e ∷ c ∷ cs else c ∷ rest

unfoldable pub order_by_committed_at : List CommitLogEntry → List CommitLogEntry
unfolding by_committed_at
order_by_committed_at [] = []
order_by_committed_at (e ∷ es) = by_committed_at e (order_by_committed_at es)

abbrev pub of_branch : Uuid → CommitLogEntry → Bool
of_branch id c = c.branch_id == id

unfoldable pub list_commits : Store → Uuid → ℕ → List CommitLogEntry
unfolding order_by_committed_at
list_commits s id limit = take limit (order_by_committed_at (keep (of_branch id) s.commits))

unfoldable pub count_commits : Store → Uuid → ℕ
count_commits s id = length (keep (of_branch id) s.commits)
