-- ===== src/Guarded/Refused.antt =====
-- The calls that write, as one type of requests.
use claw_branch.Shared.{Text, codes, Option, none, List, ◌≡◌, ◌≢◌, refl, ap, ◌∙◌}
use claw_branch.Failure.{BranchResult, err, permission_denied}
use claw_branch.Types.{Uuid, Branch, MergeResult, CommitResult}
use claw_branch.Lifecycle.{Settings}
use claw_branch.Merge.Resolver.{MergeStrategy}
use claw_branch.Commit.Cherry.{EntitySelection}
use claw_branch.Engine
use claw_branch.Engine.Calls.{Workspace, Host}
use claw_branch.Engine.Calls
use claw_branch.Guarded.{
  Access, allow, deny, mask, failure, Guard, verdict, check, check_write, gated, on_world, on_store,
  on_files, dropped,
}
use claw_branch.Guarded

pub data Request : Type 0 where
  ask_fork_trunk : (name : Text) → Request
  ask_fork : (parent_id : Uuid) (name : Text) → Request
  ask_merge : (source target : Uuid) → MergeStrategy → Request
  ask_commit_to_trunk ask_discard : (branch_id : Uuid) → Request
  ask_cherry_pick :
      (source target : Uuid) → List EntitySelection → (message : Option Text) → Request

abbrev pub Answer : Request → Type 0
Answer (ask_fork_trunk _) = Branch
Answer (ask_fork _ _) = Branch
Answer (ask_merge _ _ _) = MergeResult
Answer (ask_commit_to_trunk _) = Unit
Answer (ask_discard _) = Unit
Answer (ask_cherry_pick _ _ _ _) = CommitResult

-- The resource that each request is checked for.
abbrev pub resource : Request → Text
resource (ask_fork_trunk _) = codes "branch:fork_trunk"
resource (ask_fork _ _) = codes "branch:fork"
resource (ask_merge _ _ _) = codes "branch:merge"
resource (ask_commit_to_trunk _) = codes "branch:commit_to_trunk"
resource (ask_discard _) = codes "branch:discard"
resource (ask_cherry_pick _ _ _ _) = codes "branch:cherry_pick"

module _ (cfg : Settings) (h : Host) where
  -- The engine's own answer.
  abbrev pub by_engine : (q : Request) → Workspace → BranchResult (Answer q) × Workspace
  by_engine (ask_fork_trunk name) w = on_world (Calls.fork_trunk cfg h name) w
  by_engine (ask_fork parent_id name) w = on_world (Calls.fork cfg h parent_id name none) w
  by_engine (ask_merge source target strategy) w =
      on_files
        (Engine.merge h.sql h.printer h.floats h.now cfg source target strategy h.elapsed
          w.world.store)
        w
  by_engine (ask_commit_to_trunk id) w = dropped (Calls.commit_to_trunk cfg h id w)
  by_engine (ask_discard id) w = on_store (Calls.discard cfg h.now id) w
  by_engine (ask_cherry_pick source target selections message) w =
      Calls.cherry_pick cfg h source target selections message w

  abbrev pub by_guarded : Guard → (q : Request) → Workspace → BranchResult (Answer q) × Workspace
  by_guarded guard (ask_fork_trunk name) w = Guarded.fork_trunk guard cfg h name w
  by_guarded guard (ask_fork parent_id name) w = Guarded.fork guard cfg h parent_id name w
  by_guarded guard (ask_merge source target strategy) w =
      Guarded.merge guard cfg h source target strategy w
  by_guarded guard (ask_commit_to_trunk id) w = Guarded.commit_to_trunk guard cfg h id w
  by_guarded guard (ask_discard id) w = Guarded.discard guard cfg h id w
  by_guarded guard (ask_cherry_pick source target selections message) w =
      Guarded.cherry_pick guard cfg h source target selections message w

  by_guarded-gated :
      (guard : Guard) (q : Request) (w : Workspace)
      → by_guarded guard q w ≡ gated (verdict (guard (codes "write") (resource q))) (by_engine q) w
  unfolding check check_write Guarded.fork_trunk Guarded.fork Guarded.merge Guarded.commit_to_trunk
      Guarded.discard Guarded.cherry_pick
  by_guarded-gated guard (ask_fork_trunk name) w = refl
  by_guarded-gated guard (ask_fork parent_id name) w = refl
  by_guarded-gated guard (ask_merge source target strategy) w = refl
  by_guarded-gated guard (ask_commit_to_trunk id) w = refl
  by_guarded-gated guard (ask_discard id) w = refl
  by_guarded-gated guard (ask_cherry_pick source target selections message) w = refl

  refusal :
      (a : Access) → a ≢ allow → (reason : Text) × (verdict a ≡ err (permission_denied reason))
  refusal allow n = absurd (n refl)
  refusal (deny reason) n = (reason, refl)
  refusal mask n = (codes "masked access not applicable to branch ops", refl)
  refusal (failure message) n = (message, refl)

-- A request that writes is answered as the engine answers it when the guard allows writing its
-- resource. Otherwise, whether the guard denies it, masks it or fails, it is refused as not
-- permitted, and the registry, the graph and the files stay as they are.
pub guarded_refines :
    (guard : Guard) (cfg : Settings) (h : Host) (q : Request) (w : Workspace)
    → (guard (codes "write") (resource q) ≡ allow
        → by_guarded cfg h guard q w ≡ by_engine cfg h q w)
      × (guard (codes "write") (resource q) ≢ allow
          → (reason : Text) × (by_guarded cfg h guard q w ≡ (err (permission_denied reason), w)))
guarded_refines guard cfg h q w =
    let through = by_guarded-gated cfg h guard q w in
    (
      λ e. through ∙ ap (λ a. gated (verdict a) (by_engine cfg h q) w) e,
      λ n.
          let (reason, e) = refusal cfg h (guard (codes "write") (resource q)) n in
          (reason, through ∙ ap (λ v. gated v (by_engine cfg h q) w) e),
    )
