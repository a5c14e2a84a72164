-- ===== src/Config/Valid.antt =====
-- What a configuration that `build` returns satisfies.
use claw_branch.Shared.{
  Bool, true, false, codes, Option, none, some, ◌↔◌, ap, ◌∙◌, ltb, ◌==◌, ==_iff, ◌≤◌, ◌≡◌, ◌≢◌,
  refl, sym, subst, arith,
}
use claw_branch.Failure.{BranchError, ok, refuse_if, then-ok, ok-eq}
use claw_branch.Floats.{Floats}
use claw_branch.Config.{
  BranchConfig, BranchConfigBuilder, System, unwrap_or, out_of_range, assembled, build,
}

-- A workspace, room for a branch, and a threshold in (0, 1].
abbrev pub Valid : Floats → BranchConfig → Type 0
Valid f c =
    (c.workspace_id ≢ 0)
    × (1 ≤ c.max_branches_per_workspace)
    × (f.fle (f.of_nat 0) c.divergence_threshold ≡ true)
    × (f.fle c.divergence_threshold (f.of_nat 1) ≡ true)
    × (f.feq c.divergence_threshold (f.of_nat 0) ≡ false)

not_refused : (b : Bool) (e : BranchError) (u : Unit {0}) → refuse_if b e ≡ ok u → b ≡ false
not_refused true e u h = absurd cc
not_refused false e u h = refl

in_range :
    (f : Floats) (os : System) (c : BranchConfig)
    → (c.workspace_id == 0) ≡ false
    → ltb c.max_branches_per_workspace 1 ≡ false
    → out_of_range f os c.divergence_threshold ≡ false
    → Valid f c
in_range f os c w m t = (
  λ e. ground (arith, ==_iff c.workspace_id 0),
  ground arith,
  ground arith,
  ground arith,
  ground arith,
)

admitted :
    (f : Floats) (os : System) (c : BranchConfig)
    → Valid f c
    → ((c.workspace_id == 0) ≡ false)
      × (ltb c.max_branches_per_workspace 1 ≡ false)
      × (out_of_range f os c.divergence_threshold ≡ false)
admitted f os c (w, m, l, u, z) =
    (ground (arith, ==_iff c.workspace_id 0), ground arith, ground arith)

-- What `build` assembles is what it returns, once nothing is refused.
build-assembled :
    (f : Floats) (os : System) (b : BranchConfigBuilder)
    → ((c : BranchConfig)
        → build f os b ≡ ok c
        → (c ≡ assembled f os b)
          × Valid f c
          × (os.create_parent c.branches_dir ≡ ok tt)
          × (os.create_parent c.registry_db_path ≡ ok tt))
      × (Valid f (assembled f os b)
          → os.create_parent (assembled f os b).branches_dir ≡ ok tt
          → os.create_parent (assembled f os b).registry_db_path ≡ ok tt
          → build f os b ≡ ok (assembled f os b))
unfolding build
build-assembled f os b =
    let d = assembled f os b in
    (
      λ c h.
          let (u₁, e₁, h₁) = then-ok (refuse_if (d.workspace_id == 0) _) _ c h in
          let (u₂, e₂, h₂) = then-ok (refuse_if (ltb d.max_branches_per_workspace 1) _) _ c h₁ in
          let (u₃, e₃, h₃) =
            then-ok (refuse_if (out_of_range f os d.divergence_threshold) _) _ c h₂ in
          let (u₄, e₄, h₄) = then-ok (os.create_parent d.branches_dir) _ c h₃ in
          let (u₅, e₅, h₅) = then-ok (os.create_parent d.registry_db_path) _ c h₄ in
          let same = ok-eq d c h₅ in
          (
            sym same,
            subst (Valid f) same (
                in_range f os d (not_refused _ _ u₁ e₁) (not_refused _ _ u₂ e₂)
                  (not_refused _ _ u₃ e₃)),
            subst (λ (x : BranchConfig). os.create_parent x.branches_dir ≡ ok tt) same e₄,
            subst (λ (x : BranchConfig). os.create_parent x.registry_db_path ≡ ok tt) same e₅,
          ),
      λ v p q. let (w, m, t) = admitted f os d v in rw (build, w, m, t, p, q) refl,
    )

-- A setting that was given, or its default.
abbrev pub or_default {ℓ} : {A : Type ℓ} → Option A → A → A
or_default none d = d
or_default (some x) d = x

unwrap_or-default {ℓ} : {A : Type ℓ} → (o : Option A) (d : A) → unwrap_or d o ≡ or_default o d
unwrap_or-default none d = refl
unwrap_or-default (some x) d = refl

-- Every setting of a configuration is the one that was given, or the default.
pub record Settled (f : Floats) (os : System) (b : BranchConfigBuilder) (c : BranchConfig)
    : Type 0 where
  pub on_workspace_id : c.workspace_id ≡ or_default b.workspace_id 0
  pub on_branches_dir : c.branches_dir ≡ or_default b.branches_dir (codes "./branches")
  pub on_registry_db_path :
      c.registry_db_path
      ≡ or_default b.registry_db_path (os.join c.branches_dir (codes "branch_registry.db"))
  pub on_max_branches_per_workspace :
      c.max_branches_per_workspace ≡ or_default b.max_branches_per_workspace 50
  pub on_max_branch_age_days : c.max_branch_age_days ≡ or_default b.max_branch_age_days none
  pub on_snapshot_compression : c.snapshot_compression ≡ or_default b.snapshot_compression false
  pub on_gc_interval_secs : c.gc_interval_secs ≡ or_default b.gc_interval_secs 3600
  pub on_gc_orphan_threshold_secs :
      c.gc_orphan_threshold_secs ≡ or_default b.gc_orphan_threshold_secs 86400
  pub on_divergence_threshold :
      c.divergence_threshold ≡ or_default b.divergence_threshold (f.percent 80)
  pub on_auto_metrics : c.auto_metrics ≡ or_default b.auto_metrics true
  pub on_metrics_refresh_interval_secs :
      c.metrics_refresh_interval_secs ≡ or_default b.metrics_refresh_interval_secs 300
  pub on_trunk_branch_name : c.trunk_branch_name ≡ or_default b.trunk_branch_name (codes "trunk")

module _ (f : Floats) (os : System) (b : BranchConfigBuilder) where
  assembled-Settled : Settled f os b (assembled f os b)
  assembled-Settled = record {
    on_workspace_id = unwrap_or-default b.workspace_id 0;
    on_branches_dir = unwrap_or-default b.branches_dir (codes "./branches");
    on_registry_db_path =
        unwrap_or-default b.registry_db_path
          (os.join (assembled f os b).branches_dir (codes "branch_registry.db"));
    on_max_branches_per_workspace = unwrap_or-default b.max_branches_per_workspace 50;
    on_max_branch_age_days = unwrap_or-default b.max_branch_age_days none;
    on_snapshot_compression = unwrap_or-default b.snapshot_compression false;
    on_gc_interval_secs = unwrap_or-default b.gc_interval_secs 3600;
    on_gc_orphan_threshold_secs = unwrap_or-default b.gc_orphan_threshold_secs 86400;
    on_divergence_threshold = unwrap_or-default b.divergence_threshold (f.percent 80);
    on_auto_metrics = unwrap_or-default b.auto_metrics true;
    on_metrics_refresh_interval_secs = unwrap_or-default b.metrics_refresh_interval_secs 300;
    on_trunk_branch_name = unwrap_or-default b.trunk_branch_name (codes "trunk");
  }

  Settled-assembled : (c : BranchConfig) → Settled f os b c → c ≡ assembled f os b
  Settled-assembled c s =
      let dir = s.on_branches_dir ∙ sym (unwrap_or-default b.branches_dir (codes "./branches")) in
      λ i. record {
        workspace_id = (s.on_workspace_id ∙ sym (unwrap_or-default b.workspace_id 0)) i;
        branches_dir = dir i;
        registry_db_path =
            (s.on_registry_db_path
                ∙ sym (
                    unwrap_or-default b.registry_db_path
                      (os.join c.branches_dir (codes "branch_registry.db")))
                ∙ ap (λ x. unwrap_or (os.join x (codes "branch_registry.db")) b.registry_db_path)
                    dir)
              i;
        max_branches_per_workspace =
            (s.on_max_branches_per_workspace
                ∙ sym (unwrap_or-default b.max_branches_per_workspace 50))
              i;
        max_branch_age_days =
            (s.on_max_branch_age_days ∙ sym (unwrap_or-default b.max_branch_age_days none)) i;
        snapshot_compression =
            (s.on_snapshot_compression ∙ sym (unwrap_or-default b.snapshot_compression false)) i;
        gc_interval_secs =
            (s.on_gc_interval_secs ∙ sym (unwrap_or-default b.gc_interval_secs 3600)) i;
        gc_orphan_threshold_secs =
            (s.on_gc_orphan_threshold_secs
                ∙ sym (unwrap_or-default b.gc_orphan_threshold_secs 86400))
              i;
        divergence_threshold =
            (s.on_divergence_threshold
                ∙ sym (unwrap_or-default b.divergence_threshold (f.percent 80)))
              i;
        auto_metrics = (s.on_auto_metrics ∙ sym (unwrap_or-default b.auto_metrics true)) i;
        metrics_refresh_interval_secs =
            (s.on_metrics_refresh_interval_secs
                ∙ sym (unwrap_or-default b.metrics_refresh_interval_secs 300))
              i;
        trunk_branch_name =
            (s.on_trunk_branch_name ∙ sym (unwrap_or-default b.trunk_branch_name (codes "trunk")))
              i;
      }

  -- `build` returns only a configuration of the settings that were given, the defaults in place of
  -- those that were not: "./branches" with "branch_registry.db" in the directory, 50 branches of any
  -- age, no compression, a collection each hour of what is a day old, a threshold of 80 percent,
  -- metrics each 300 seconds, a branch "trunk". And it returns it exactly when the workspace is not
  -- nil, there is room for one branch, the threshold is in (0, 1] and the two directories can be made.
  pub build-exact :
      (c : BranchConfig)
      → (build f os b ≡ ok c) ↔ (
          Settled f os b c
          × Valid f c
          × (os.create_parent c.branches_dir ≡ ok tt)
          × (os.create_parent c.registry_db_path ≡ ok tt))
  build-exact c =
      let (sound, complete) = build-assembled f os b in
      (
        λ h.
            let (same, v, p, q) = sound c h in
            (subst (Settled f os b) (sym same) assembled-Settled, v, p, q),
        λ (s, v, p, q).
            let same = Settled-assembled c s in
            complete (subst (Valid f) same v)
              (subst (λ (x : BranchConfig). os.create_parent x.branches_dir ≡ ok tt) same p)
              (subst (λ (x : BranchConfig). os.create_parent x.registry_db_path ≡ ok tt) same q)
            ∙ ap ok (sym same),
      )
