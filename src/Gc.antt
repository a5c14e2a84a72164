-- ===== src/Gc.antt =====
-- snapshot/gc.rs: which branches the garbage collector purges, and what it reports. The removal of the
-- files is left out; `size` stands for the length of a file that exists, 0 for one that does not,
-- `hash_path` for `with_extension("hash")`, and `cutoff` for the time before which a branch is old.
pub mod Purged
use claw_branch.Shared.{
  ℕ, ◌+◌, Text, Bool, true, false, List, [], ◌∷◌, ltb, Option, none, some, if◌then◌else◌,
}
use claw_branch.Failure.{BranchResult, ok, err, is_not_found}
use claw_branch.Types.{
  Uuid, Time, Branch, BranchStatus, active, dormant, merged, discarded, archived, orphan, purged,
}
use claw_branch.Registry.{Store, get, list, update_status}

pub record GcReport : Type 0 where
  pub branches_purged : ℕ
  pub bytes_freed : ℕ
  pub duration_ms : ℕ

abbrev pub status_expired : BranchStatus → Time → Time → Bool
status_expired (discarded at) updated_at cutoff = ltb at cutoff
status_expired orphan updated_at cutoff = ltb updated_at cutoff
status_expired st updated_at cutoff = false

unfoldable pub should_purge : Time → Branch → Bool
should_purge cutoff b = status_expired b.status b.updated_at cutoff

module _ (size : Text → ℕ) (hash_path : Text → Text) (cutoff now : Time) where
  -- The loop of `run`: an update that fails ends it.
  unfoldable pub purge_loop : List Branch → ℕ → ℕ → Store → BranchResult (ℕ × ℕ) × Store
  unfolding should_purge update_status
  purge_loop [] count bytes s = (ok (count, bytes), s)
  purge_loop (b ∷ bs) count bytes s =
      let kept = purge_loop bs count bytes s in
      let (r, s') = update_status b.id purged now s in
      let rest =
        purge_loop bs (count + 1) (bytes + size b.db_path + size (hash_path b.db_path)) s' in
      if should_purge cutoff b then elim r [ err e ↦ (err e, s') | ok _ ↦ rest ] else kept

  abbrev pub report : ℕ → BranchResult (ℕ × ℕ) × Store → BranchResult GcReport × Store
  report elapsed (ok (count, bytes), s) =
      (ok (record { branches_purged = count; bytes_freed = bytes; duration_ms = elapsed }), s)
  report elapsed (err e, s) = (err e, s)

  -- `SnapshotGc::run`
  unfoldable pub collect : Uuid → ℕ → Store → BranchResult GcReport × Store
  unfolding purge_loop list
  collect workspace_id elapsed s = report elapsed (purge_loop (list s workspace_id none) 0 0 s)

abbrev pub discarded_before : Time → BranchStatus → Bool
discarded_before cutoff (discarded at) = ltb at cutoff
discarded_before cutoff st = false

-- The loop of `purge_discarded`; a path without a parent is not counted.
unfoldable pub purge_discarded_loop :
    (Text → Bool) → Time → Time → List Branch → ℕ → Store → BranchResult ℕ × Store
unfolding update_status
purge_discarded_loop has_parent cutoff now [] deleted s = (ok deleted, s)
purge_discarded_loop has_parent cutoff now (b ∷ bs) deleted s =
    let kept = purge_discarded_loop has_parent cutoff now bs deleted s in
    let (r, s') = update_status b.id purged now s in
    let rest =
      purge_discarded_loop has_parent cutoff now bs
        (if has_parent b.db_path then deleted + 1 else deleted) s' in
    if discarded_before cutoff b.status then elim r [ err e ↦ (err e, s') | ok _ ↦ rest ] else kept

unfoldable pub purge_discarded : (Text → Bool) → Time → Time → Uuid → Store → BranchResult ℕ × Store
unfolding purge_discarded_loop list
purge_discarded has_parent cutoff now workspace_id s =
    purge_discarded_loop has_parent cutoff now (list s workspace_id none) 0 s

-- An entry of the directory of branches: its path, whether it is a directory, and the identifier that
-- its name gives (`parse_branch_dir_uuid`).
pub record DirEntry : Type 0 where
  pub path : Text
  pub is_dir : Bool
  pub parsed_id : Option Uuid

abbrev pub is_unknown : BranchResult Branch → Bool
is_unknown (ok b) = false
is_unknown (err e) = is_not_found e

abbrev pub is_orphan : Uuid → Store → Option Uuid → Bool
is_orphan workspace_id s none = true
is_orphan workspace_id s (some id) = is_unknown (get s workspace_id id)

-- `collect_orphans`, on the entries that `read_dir` gives.
unfoldable pub collect_orphans : Uuid → Store → List DirEntry → List Text
unfolding get is_not_found
collect_orphans workspace_id s [] = []
collect_orphans workspace_id s (e ∷ es) =
    let rest = collect_orphans workspace_id s es in
    if e.is_dir
    then (if is_orphan workspace_id s e.parsed_id then e.path ∷ rest else rest)
    else rest
