-- ===== src/Lifecycle.antt =====
-- branch/lifecycle.rs: the life of a branch. What the file system answers is a parameter: the
-- snapshot that `create_snapshot` makes, the cursor that the parent's database gives, and whether
-- the snapshot of an archived branch still verifies. A fresh UUID and the time are inputs.
pub mod Status
pub mod Closed
pub mod Fork
use claw_branch.Shared.{
  ℕ, Text, codes, text_eq, Bool, true, false, not, Option, none, some, List, [], ◌∷◌, any, map, leb,
  if◌then◌else◌,
}
use claw_branch.Failure.{
  BranchResult, ok, err, ◌>>=◌, ◌>>◌, refuse_if, branch_not_active, branch_limit_exceeded,
  branch_already_exists, naming_error,
}
use claw_branch.Json.{Value, ℤ, string, object, entry, empty}
use claw_branch.Types.{
  Uuid, Time, Branch, BranchMetrics, BranchStatus, active, dormant, merged, discarded, archived,
  orphan, purged, is_live, kind,
}
use claw_branch.Naming.{validate, slugify, make_unique, taken}
use claw_branch.Registry.{Store, default_metrics, get, list, insert, update_status, count_active}
use claw_branch.Dag.{DagInner, add_node, add_edge}

-- The part of `SnapshotManifest` that a fork uses.
pub record Manifest : Type 0 where
  pub snapshot_db_path : Text
  pub memory_records : ℤ
  pub sessions : ℤ
  pub tool_outputs : ℤ
  pub file_size_bytes : ℕ
  pub content_id : Text

pub record Settings : Type 0 where
  pub workspace_id : Uuid
  pub max_branches_per_workspace : ℕ
  pub trunk_branch_name : Text

-- The two parts of the engine that the life of a branch changes.
pub record World : Type 0 where
  pub store : Store
  pub dag : DagInner

-- What the machine gives to one fork.
pub record Machine : Type 0 where
  pub new_id : Uuid
  pub now : Time
  pub cursor : BranchResult Text
  pub snapshot : BranchResult Manifest

-- Code of other crates: `char::to_lowercase`, `char::is_whitespace`, petgraph's cycle test and the
-- text of a UUID.
pub record Outside : Type 0 where
  pub to_lowercase : ℕ → Text
  pub is_whitespace : ℕ → Bool
  pub is_cyclic_directed : DagInner → Bool
  pub uuid_text : Uuid → Text

abbrev pub metrics_from : Manifest → Time → BranchMetrics
metrics_from m now = record default_metrics {
  memory_record_count = m.memory_records;
  session_count = m.sessions;
  tool_output_count = m.tool_outputs;
  bytes_on_disk = m.file_size_bytes;
  last_activity_at = some now;
}

-- `json!({"content_id": ..., key: value})`; serde_json keeps the keys in order.
abbrev pub origin : Text → Text → Manifest → Value
origin key value m =
    object (entry (codes "content_id") (string m.content_id) (entry key (string value) empty))

-- `if !status.is_live() { return Err(BranchNotActive) }`
unfoldable pub require_live : Branch → BranchResult (Unit {0})
unfolding is_live kind
require_live b = refuse_if (not (is_live b.status)) (branch_not_active b.id (kind b.status))

module _ (cfg : Settings) (o : Outside) where
  unfoldable pub trunk : Uuid → Machine → Manifest → Branch
  trunk workspace_id mc m = record {
    id = mc.new_id;
    name = cfg.trunk_branch_name;
    slug = cfg.trunk_branch_name;
    parent_id = none;
    status = active;
    db_path = m.snapshot_db_path;
    snapshot_path = m.snapshot_db_path;
    workspace_id = workspace_id;
    created_at = mc.now;
    updated_at = mc.now;
    forked_from_cursor = none;
    description = some (codes "Primary trunk branch");
    metadata = origin (codes "role") (codes "trunk") m;
    metrics = metrics_from m mc.now;
  }

  -- The branch is inserted, then the DAG learns of it.
  unfoldable pub create_trunk : Uuid → Machine → World → BranchResult Branch × World
  unfolding trunk insert add_node
  create_trunk workspace_id mc w = elim mc.snapshot [
    | err e ↦ (err e, w)
    | ok m ↦
        let b = trunk workspace_id mc m in
        let (r, s) = insert b w.store in
        elim r [
          | err e ↦ (err e, record w { store = s })
          | ok _ ↦
              let (i, g) = add_node b.id w.dag in (i >>= λ _. ok b, record { store = s; dag = g })
        ]
  ]

  -- The tests that open `fork`: the parent and the slug of the new branch. A missing slug would mean
  -- that the fuel of `make_unique` ran out.
  unfoldable pub admit : Uuid → Text → Store → BranchResult (Branch × Text)
  unfolding validate get require_live count_active list slugify make_unique taken
  admit parent_id name s = do
    validate name
    parent ← get s cfg.workspace_id parent_id
    require_live parent
    refuse_if (leb cfg.max_branches_per_workspace (count_active s parent.workspace_id))
        branch_limit_exceeded
    elim (make_unique (slugify o.to_lowercase o.is_whitespace name)
        (map (λ (b : Branch). b.slug) (list s parent.workspace_id none))) [
          | none ↦ err (naming_error (codes "out of fuel"))
          | some slug ↦
              if taken slug (map (λ (b : Branch). b.slug) (list s parent.workspace_id none))
              then err (branch_already_exists slug)
              else ok (parent, slug)
        ]

  unfoldable pub forked :
      Machine → Branch → Uuid → Text → Text → Option Text → Text → Manifest → Branch
  forked mc parent parent_id name slug description cursor m = record {
    id = mc.new_id;
    name = name;
    slug = slug;
    parent_id = some parent_id;
    status = active;
    db_path = m.snapshot_db_path;
    snapshot_path = m.snapshot_db_path;
    workspace_id = parent.workspace_id;
    created_at = mc.now;
    updated_at = mc.now;
    forked_from_cursor = some cursor;
    description = description;
    metadata = origin (codes "forked_from") (o.uuid_text parent_id) m;
    metrics = metrics_from m mc.now;
  }

  -- The branch that `fork` inserts, or the error that it returns before it has changed anything.
  unfoldable pub prepare : Machine → Uuid → Text → Option Text → Store → BranchResult Branch
  unfolding admit forked
  prepare mc parent_id name description s = do
    (parent, slug) ← admit parent_id name s
    cursor ← mc.cursor
    m ← mc.snapshot
    ok (forked mc parent parent_id name slug description cursor m)

  -- From the insertion on. A failure of the DAG leaves the inserted row.
  unfoldable pub enter : Time → Uuid → Branch → World → BranchResult Branch × World
  unfolding insert add_node add_edge
  enter now parent_id b w =
      let (r, s) = insert b w.store in
      elim r [
        | err e ↦ (err e, record w { store = s })
        | ok _ ↦
            let (i, g) = add_node parent_id w.dag in
            elim i [
              | err e ↦ (err e, record { store = s; dag = g })
              | ok _ ↦
                  let (j, g') = add_edge o.is_cyclic_directed parent_id b.id now g in
                  (j >>= λ _. ok b, record { store = s; dag = g' })
            ]
      ]

  unfoldable pub fork : Machine → Uuid → Text → Option Text → World → BranchResult Branch × World
  unfolding prepare enter
  fork mc parent_id name description w = elim (prepare mc parent_id name description w.store) [
    | err e ↦ (err e, w)
    | ok b ↦ enter mc.now parent_id b w
  ]

-- `Err(BranchNotActive { id, status })`
abbrev pub refused : {A : Type 0} → BranchStatus → Uuid → Store → BranchResult A × Store
refused st id s = (err (branch_not_active id (kind st)), s)

-- `get`, then the rest of the transition.
abbrev pub with_branch :
    {A : Type 0}
    → Settings
    → Uuid
    → Store
    → (Branch → BranchResult A × Store)
    → BranchResult A × Store
with_branch cfg id s f = elim (get s cfg.workspace_id id) [ err e ↦ (err e, s) | ok b ↦ f b ]

-- `self.store.get(...)` at the end.
abbrev pub reread : Settings → Uuid → BranchResult (Unit {0}) × Store → BranchResult Branch × Store
reread cfg id (r, s) = (r >> get s cfg.workspace_id id, s)

module _ (cfg : Settings) (now : Time) (id : Uuid) where
  -- The `match branch.status` of `activate`.
  unfoldable pub on_activate : BranchStatus → Store → BranchResult (Unit {0}) × Store
  unfolding update_status kind
  on_activate dormant s = update_status id active now s
  on_activate active s = (ok tt, s)
  on_activate st s = refused st id s

  unfoldable pub activate : Store → BranchResult (Unit {0}) × Store
  unfolding get on_activate
  activate s = with_branch cfg id s (λ b. on_activate b.status s)

  unfoldable pub on_deactivate : BranchStatus → Store → BranchResult (Unit {0}) × Store
  unfolding update_status kind
  on_deactivate active s = update_status id dormant now s
  on_deactivate st s = refused st id s

  unfoldable pub deactivate : Store → BranchResult (Unit {0}) × Store
  unfolding get on_deactivate
  deactivate s = with_branch cfg id s (λ b. on_deactivate b.status s)

  unfoldable pub on_discard : BranchStatus → Store → BranchResult (Unit {0}) × Store
  unfolding update_status kind is_live
  on_discard st s =
      if not (is_live st) then refused st id s else update_status id (discarded now) now s

  unfoldable pub discard : Store → BranchResult (Unit {0}) × Store
  unfolding get on_discard
  discard s = with_branch cfg id s (λ b. on_discard b.status s)

  unfoldable pub on_archive : BranchStatus → Store → BranchResult (Unit {0}) × Store
  unfolding update_status kind is_live
  on_archive st s = if not (is_live st) then refused st id s else update_status id archived now s

  unfoldable pub archive : Store → BranchResult (Unit {0}) × Store
  unfolding get on_archive
  archive s = with_branch cfg id s (λ b. on_archive b.status s)

  -- `checked` stands for the load of the manifest and `verify_snapshot`.
  unfoldable pub on_restore :
      BranchStatus → BranchResult (Unit {0}) → Store → BranchResult Branch × Store
  unfolding get update_status kind
  on_restore archived checked s = elim checked [
    | err e ↦ (err e, s)
    | ok _ ↦ reread cfg id (update_status id active now s)
  ]
  on_restore st checked s = refused st id s

  unfoldable pub restore_archived :
      (Branch → BranchResult (Unit {0})) → Store → BranchResult Branch × Store
  unfolding get on_restore
  restore_archived verified s = with_branch cfg id s (λ b. on_restore b.status (verified b) s)
