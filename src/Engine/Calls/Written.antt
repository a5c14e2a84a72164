-- ===== src/Engine/Calls/Written.antt =====
-- engine.rs: what a commit through the engine may change.
use claw_branch.Shared.{
  Text, text_eq, text_eq_iff, Bool-cases, lookup, put, lookup-put, ◌≡◌, ◌≢◌, refl, sym, ap, ◌∙◌,
  inl, inr,
}
use claw_branch.Failure.{BranchResult, BranchError, ok, err, ◌>>◌, Result-cases, then-ok, ok-eq}
use claw_branch.Types.{Uuid, Branch, CommitResult}
use claw_branch.Database.{Db}
use claw_branch.Registry.{Store}
use claw_branch.Registry
use claw_branch.Lifecycle.{Settings}
use claw_branch.Merge.ThreeWay.{Files, open_db}
use claw_branch.Commit.{from_store}
use claw_branch.Commit
use claw_branch.Commit.Cherry.{CherryPick}
use claw_branch.Commit.Whole.{commit-rows}
use claw_branch.Engine.Calls.{Workspace, Host, access_both, checked, close, commit}

-- The path that `from_store` opens for writing is the target's.
from_store-path :
    (s : Store) (source target w : Uuid) (files : Files) (b : Branch)
    (x : (Text × Db) × (Text × Db))
    → Registry.get s w target ≡ ok b
    → from_store s source target w files ≡ ok x
    → x.1.0 ≡ b.db_path
unfolding from_store
from_store-path s source target w files b x g h =
    let (sb, _, q₁) = then-ok (Registry.get s w source) _ x h in
    let (tb, e, q₂) = then-ok (Registry.get s w target) _ x q₁ in
    let (sp, _, q₃) = then-ok (open_db sb.db_path files) _ x q₂ in
    let (tp, _, q₄) = then-ok (open_db tb.db_path files) _ x q₃ in
    ap (λ (y : (Text × Db) × (Text × Db)). y.1.0)
      (sym (ok-eq ((sb.db_path, sp), (tb.db_path, tp)) x q₄))
    ∙ ap (λ (y : Branch). y.db_path) (ok-eq tb b (sym e ∙ g))

lookup-put_other :
    (j k : Text) (v : Db) (files : Files) → j ≢ k → lookup j (put k v files) ≡ lookup j files
lookup-put_other j k v files n = elim (Bool-cases (text_eq j k)) [
  | inl e ↦ absurd (n ((text_eq_iff j k).0 e))
  | inr e ↦ lookup-put j k v files ∙ rw e refl
]

abbrev checks : Settings → Host → CherryPick → Workspace → BranchResult ((Text × Db) × (Text × Db))
checks cfg h cherry w =
    access_both cfg h cherry.source_branch_id cherry.target_branch_id w.world.store
    >> from_store w.world.store cherry.source_branch_id cherry.target_branch_id cfg.workspace_id
        w.files

module _ (cfg : Settings) (h : Host) (cherry : CherryPick) (w : Workspace) where
  abbrev closed : (Text × Db) × (Text × Db) → Workspace → BranchResult CommitResult × Workspace
  closed x v =
      close cfg h x.1.0
        (Commit.commit h.sql h.printer h.outside.uuid_text h.log_id h.now h.faults cfg.workspace_id
          h.elapsed cherry x.0.1 x.1.1 w.world.store)
        v

  commit-err :
      (e : BranchError) → checks cfg h cherry w ≡ err e → commit cfg h cherry w ≡ (err e, w)
  unfolding commit
  commit-err e q = ap (λ (c : BranchResult ((Text × Db) × (Text × Db))). checked cfg c closed w) q

  commit-ok :
      (x : (Text × Db) × (Text × Db))
      → checks cfg h cherry w ≡ ok x
      → commit cfg h cherry w ≡ closed x w
  unfolding commit
  commit-ok x q = ap (λ (c : BranchResult ((Text × Db) × (Text × Db))). checked cfg c closed w) q

-- A commit writes no file but the target's, and neither the graph nor a row of the registry.
pub commit-target_only :
    (cfg : Settings) (h : Host) (cherry : CherryPick) (w : Workspace) (b : Branch) (path : Text)
    → Registry.get w.world.store cfg.workspace_id cherry.target_branch_id ≡ ok b
    → path ≢ b.db_path
    → (lookup path (commit cfg h cherry w).1.files ≡ lookup path w.files)
      × ((commit cfg h cherry w).1.world.dag ≡ w.world.dag)
      × ((commit cfg h cherry w).1.world.store.rows ≡ w.world.store.rows)
commit-target_only cfg h cherry w b path g n = elim (Result-cases (checks cfg h cherry w)) [
  | inr (e, q) ↦
      let same = commit-err cfg h cherry w e q in
      (
        ap (λ (x : BranchResult CommitResult × Workspace). lookup path x.1.files) same,
        ap (λ (x : BranchResult CommitResult × Workspace). x.1.world.dag) same,
        ap (λ (x : BranchResult CommitResult × Workspace). x.1.world.store.rows) same,
      )
  | inl (x, q) ↦
      let same = commit-ok cfg h cherry w x q in
      let (_, _, opened) =
        then-ok (access_both cfg h cherry.source_branch_id cherry.target_branch_id w.world.store) _
          x q in
      let target =
        from_store-path w.world.store cherry.source_branch_id cherry.target_branch_id
          cfg.workspace_id w.files b x g opened in
      (
        ap (λ (y : BranchResult CommitResult × Workspace). lookup path y.1.files) same
            ∙ lookup-put_other path x.1.0
                (Commit.commit h.sql h.printer h.outside.uuid_text h.log_id h.now h.faults
                  cfg.workspace_id h.elapsed cherry x.0.1 x.1.1 w.world.store).2
                w.files (λ e. n (e ∙ target)),
        ap (λ (y : BranchResult CommitResult × Workspace). y.1.world.dag) same,
        ap (λ (y : BranchResult CommitResult × Workspace). y.1.world.store.rows) same
            ∙ commit-rows h.sql h.printer h.outside.uuid_text h.log_id h.now h.faults
                cfg.workspace_id h.elapsed cherry x.0.1 x.1.1 w.world.store,
      )
]
