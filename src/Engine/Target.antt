-- ===== src/Engine/Target.antt =====
-- engine.rs: which file a merge of two branches writes.
use claw_branch.Shared.{ℕ, Text, none, some, lookup, ◌≡◌, ◌≢◌, inl, inr, refl, sym, ap, ◌∙◌}
use claw_branch.Failure.{BranchResult, BranchError, ok, err, then-ok, ok-eq, Result-cases}
use claw_branch.Types.{Uuid, Time, Branch}
use claw_branch.Floats.{Floats}
use claw_branch.Database.{Sqlite, Printer}
use claw_branch.Registry.{Store, get}
use claw_branch.Lifecycle.{Settings}
use claw_branch.Merge.Resolver.{MergeStrategy}
use claw_branch.Merge.ThreeWay.{Files}
use claw_branch.Merge.ThreeWay
use claw_branch.Merge.ThreeWay.Guarantees.{merge-other}
use claw_branch.Engine.{branches_of, merge, ensure_workspace_access}

module _ (sql : Sqlite) (p : Printer) (f : Floats) (now : Time) (cfg : Settings)
    (source target : Uuid) (strategy : MergeStrategy) (elapsed : ℕ) (s : Store)
    (files : Files) where
  abbrev chosen : BranchResult (Branch × Branch × Branch)
  chosen = branches_of cfg source target s

  merge-ok :
      (x : Branch × Branch × Branch)
      → chosen ≡ ok x
      → merge sql p f now cfg source target strategy elapsed s files
        ≡ ThreeWay.merge sql p f now x.0 x.1 x.2 strategy none elapsed files
  unfolding merge
  merge-ok x q = rw (q, merge) refl

  merge-err :
      (e : BranchError)
      → chosen ≡ err e
      → merge sql p f now cfg source target strategy elapsed s files ≡ (err e, files)
  unfolding merge
  merge-err e q = rw (q, merge) refl

  chosen-source :
      (b : Branch) (x : Branch × Branch × Branch)
      → get s cfg.workspace_id source ≡ ok b
      → chosen ≡ ok x
      → x.1 ≡ b
  unfolding branches_of ensure_workspace_access
  chosen-source b x h q =
      let (sb, e, q₁) = then-ok (get s cfg.workspace_id source) _ x q in
      let (tb, _, q₂) = then-ok (get s cfg.workspace_id target) _ x q₁ in
      let (_, _, q₃) = then-ok (ensure_workspace_access cfg sb) _ x q₂ in
      let (_, _, q₄) = then-ok (ensure_workspace_access cfg tb) _ x q₃ in
      let (base, _, q₅) =
        then-ok (get s cfg.workspace_id (elim sb.parent_id [ none ↦ target | some id ↦ id ])) _ x
          q₄ in
      let (_, _, q₆) = then-ok (ensure_workspace_access cfg base) _ x q₅ in
      ap (λ (y : Branch × Branch × Branch). y.1) (sym (ok-eq (base, sb, tb) x q₆))
      ∙ ok-eq sb b (sym e ∙ h)

  -- A merge of a source branch into a target branch writes no file but the source's: every other
  -- file, the target's with its own path among them, is what it was.
  pub merge-source_only :
      (b : Branch) (path : Text)
      → get s cfg.workspace_id source ≡ ok b
      → path ≢ b.db_path
      → lookup path (merge sql p f now cfg source target strategy elapsed s files).1
        ≡ lookup path files
  merge-source_only b path h n = elim (Result-cases chosen) [
    | inr (e, q) ↦ ap (λ x. lookup path x.1) (merge-err e q)
    | inl (x, q) ↦
        ap (λ y. lookup path y.1) (merge-ok x q)
        ∙ merge-other sql p f now x.0 x.1 x.2 strategy none elapsed files path
            (λ e. n (e ∙ ap (λ (c : Branch). c.db_path) (chosen-source b x h q)))
  ]
