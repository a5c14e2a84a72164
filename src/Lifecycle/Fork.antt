-- ===== src/Lifecycle/Fork.antt =====
-- branch/lifecycle.rs: what a fork adds to the registry, and under which conditions.
use claw_branch.Shared.{
  codes, ◌+◌, ◌≤◌, ◌<◌, Text, Bool, true, false, not, Option, none, some, List, map, leb,
  if◌then◌else◌, ◌≡◌, inl, inr, ⊎_elim, refl, sym, ap, ◌∙◌, arith, subst,
}
use claw_branch.Failure.{
  BranchResult, BranchError, ok, err, ◌>>=◌, ◌>>◌, refuse_if, Result-cases, then-ok, ok-eq, ok≢err,
  branch_already_exists, naming_error,
}
use claw_branch.Types.{Uuid, Time, Branch, active, is_live}
use claw_branch.Naming.{validate, slugify, make_unique, taken}
use claw_branch.Naming.Unique.{make_unique_first}
use claw_branch.Registry.{Store, get, list, insert, count_active}
use claw_branch.Dag.{DagInner, add_node, add_edge}
use claw_branch.Lifecycle.{
  Settings, Outside, Machine, Manifest, World, admit, forked, prepare, enter, fork, require_live,
}
use claw_branch.Registry.Inserted.{inserted, insert-cases, count_active-inserted}

past_refusal :
    {A : Type 0} (bad : Bool) (e : BranchError) (k : BranchResult A) (x : A)
    → (refuse_if bad e >> k) ≡ ok x
    → (bad ≡ false) × (k ≡ ok x)
past_refusal true e k x h = absurd (ok≢err x e (sym h))
past_refusal false e k x h = (refl, h)

past_unit :
    {A : Type 0} (m : BranchResult (Unit {0})) (k : BranchResult A) (x : A)
    → (m >> k) ≡ ok x
    → (m ≡ ok tt) × (k ≡ ok x)
past_unit (ok tt) k x h = (refl, h)
past_unit (err e) k x h = absurd (ok≢err x e (sym h))

abbrev pub slugs_of : Store → Uuid → List Text
slugs_of s w = map (λ (b : Branch). b.slug) (list s w none)

module _ (cfg : Settings) (o : Outside) where
  -- What `fork` demands of the parent, and of the slug that it chooses.
  abbrev pub Admitted : Uuid → Text → Store → Branch → Text → Type 0
  Admitted parent_id name s parent slug =
      (validate name ≡ ok tt)
      × (get s cfg.workspace_id parent_id ≡ ok parent)
      × (is_live parent.status ≡ true)
      × (count_active s parent.workspace_id < cfg.max_branches_per_workspace)
      × (make_unique (slugify o.to_lowercase o.is_whitespace name) (slugs_of s parent.workspace_id)
          ≡ some slug)
      × (taken slug (slugs_of s parent.workspace_id) ≡ false)

  abbrev choose : Text → Branch → Store → BranchResult (Branch × Text)
  choose name parent s =
      elim (make_unique (slugify o.to_lowercase o.is_whitespace name)
        (slugs_of s parent.workspace_id)) [
          | none ↦ err (naming_error (codes "out of fuel"))
          | some slug ↦
              if taken slug (slugs_of s parent.workspace_id)
              then err (branch_already_exists slug)
              else ok (parent, slug)
        ]

  chosen :
      (name : Text) (parent : Branch) (s : Store) (slug : Text)
      → make_unique (slugify o.to_lowercase o.is_whitespace name) (slugs_of s parent.workspace_id)
        ≡ some slug
      → taken slug (slugs_of s parent.workspace_id) ≡ false
      → choose name parent s ≡ ok (parent, slug)
  chosen name parent s slug e t = rw (e, choose, t) refl

  admit-Admitted :
      (parent_id : Uuid) (name : Text) (s : Store) (x : Branch × Text)
      → admit cfg o parent_id name s ≡ ok x
      → Admitted parent_id name s x.0 x.1
  unfolding admit require_live
  admit-Admitted parent_id name s x h =
      let (named, h₁) = past_unit (validate name) _ x h in
      let (parent, got, h₂) = then-ok (get s cfg.workspace_id parent_id) _ x h₁ in
      let (live, h₃) = past_refusal (not (is_live parent.status)) _ _ x h₂ in
      let (few, h₄) =
        past_refusal (leb cfg.max_branches_per_workspace (count_active s parent.workspace_id)) _ _ x
          h₃ in
      let (slug, made, free, _) =
        make_unique_first (slugify o.to_lowercase o.is_whitespace name)
          (slugs_of s parent.workspace_id) in
      let same = ok-eq (parent, slug) x (sym (chosen name parent s slug made free) ∙ h₄) in
      subst (λ (y : Branch × Text). Admitted parent_id name s y.0 y.1) same
        (named, got, ground arith, ground arith, made, free)

module _ (cfg : Settings) (o : Outside) (now : Time) (parent_id : Uuid) (b : Branch)
    (w : World) where
  enter-refused :
      (e : BranchError) (s : Store)
      → insert b w.store ≡ (err e, s)
      → enter cfg o now parent_id b w ≡ (err e, record w { store = s })
  unfolding enter
  enter-refused e s q =
      rw (q, enter)
        (ap (λ (x : BranchResult (Unit {0}) × Store). (err e, record w { store = x.1 })) q)

  -- The DAG's part of a fork.
  abbrev linked : BranchResult (Unit {0}) × DagInner
  linked = add_edge o.is_cyclic_directed parent_id b.id now (add_node parent_id w.dag).1

  enter-done :
      (s : Store)
      → insert b w.store ≡ (ok tt, s)
      → enter cfg o now parent_id b w
        ≡ (linked.0 >>= λ _. ok b, record { store = s; dag = linked.1 })
  unfolding enter add_node
  enter-done s q =
      rw (q, enter, add_node)
        (ap
          (λ (x : BranchResult (Unit {0}) × Store).
            (linked.0 >>= λ _. ok b, record w { store = x.1; dag = linked.1 }))
          q)

  -- Entering a branch succeeds only with that branch, and only if its row was inserted.
  enter-ok :
      (x : Branch)
      → (enter cfg o now parent_id b w).0 ≡ ok x
      → (b ≡ x) × ((enter cfg o now parent_id b w).1.store ≡ inserted b w.store)
  enter-ok x h =
      ⊎_elim
        (λ q. absurd (
          ok≢err x (branch_already_exists b.name) (
            sym h
            ∙ ap (λ (r : BranchResult Branch × World). r.0)
                (enter-refused (branch_already_exists b.name) w.store q))))
        (λ q.
          let done = enter-done (inserted b w.store) q in
          let (_, _, e) =
            then-ok linked.0 (λ _. ok b) x
              (sym (ap (λ (r : BranchResult Branch × World). r.0) done) ∙ h) in
          (ok-eq b x e, ap (λ (r : BranchResult Branch × World). r.1.store) done))
        (insert-cases b w.store)

active-live : is_live active ≡ true
unfolding is_live
active-live = refl

forked-fields :
    (cfg : Settings) (o : Outside) (mc : Machine) (parent : Branch) (parent_id : Uuid)
    (name slug : Text) (description : Option Text) (cursor : Text) (m : Manifest)
    → ((forked cfg o mc parent parent_id name slug description cursor m).workspace_id
        ≡ parent.workspace_id)
      × ((forked cfg o mc parent parent_id name slug description cursor m).parent_id
          ≡ some parent_id)
      × ((forked cfg o mc parent parent_id name slug description cursor m).status ≡ active)
      × ((forked cfg o mc parent parent_id name slug description cursor m).slug ≡ slug)
unfolding forked
forked-fields cfg o mc parent parent_id name slug description cursor m = (refl, refl, refl, refl)

module _ (cfg : Settings) (o : Outside) (mc : Machine) (parent_id : Uuid) (name : Text)
    (description : Option Text) (w : World) where
  abbrev made : BranchResult Branch
  made = prepare cfg o mc parent_id name description w.store

  fork-err :
      (e : BranchError) → made ≡ err e → fork cfg o mc parent_id name description w ≡ (err e, w)
  unfolding fork
  fork-err e q = rw (q, fork) refl

  fork-enter :
      (b : Branch)
      → made ≡ ok b
      → fork cfg o mc parent_id name description w ≡ enter cfg o mc.now parent_id b w
  unfolding fork
  fork-enter b q = rw (q, fork) refl

  prepared :
      (b : Branch)
      → made ≡ ok b
      → (parent : Branch) × (slug : Text) × Admitted cfg o parent_id name w.store parent slug
        × (cursor : Text) × (m : Manifest) × (forked cfg o mc parent parent_id name slug description
              cursor m
            ≡ b)
  unfolding prepare
  prepared b h =
      let (x, a, h₁) = then-ok (admit cfg o parent_id name w.store) _ b h in
      let (cursor, _, h₂) = then-ok mc.cursor _ b h₁ in
      let (m, _, h₃) = then-ok mc.snapshot _ b h₂ in
      (
        x.0,
        x.1,
        admit-Admitted cfg o parent_id name w.store x a,
        cursor,
        m,
        ok-eq (forked cfg o mc x.0 parent_id name x.1 description cursor m) b h₃,
      )

  -- A fork that succeeds was admitted: its name is valid, its parent is a live branch of the
  -- workspace, fewer branches were live than the limit, and its slug is the first free one. It adds
  -- the new branch to the registry as an active child of the parent and changes no other row, so
  -- that no more branches are live than the limit allows.
  pub fork-Admitted :
      (b : Branch)
      → (fork cfg o mc parent_id name description w).0 ≡ ok b
      → (parent : Branch) × Admitted cfg o parent_id name w.store parent b.slug
        × (b.parent_id ≡ some parent_id)
        × (b.status ≡ active)
        × ((fork cfg o mc parent_id name description w).1.store ≡ inserted b w.store)
        × (count_active (fork cfg o mc parent_id name description w).1.store parent.workspace_id
            ≡ count_active w.store parent.workspace_id + 1)
        × (count_active (fork cfg o mc parent_id name description w).1.store parent.workspace_id
            ≤ cfg.max_branches_per_workspace)
  fork-Admitted b h = elim (Result-cases made) [
    | inr (e, q) ↦
        absurd (ok≢err b e (sym h ∙ ap (λ (r : BranchResult Branch × World). r.0) (fork-err e q)))
    | inl (b', q) ↦
        let entered = fork-enter b' q in
        let (same, store) =
          enter-ok cfg o mc.now parent_id b' w b
            (sym (ap (λ (r : BranchResult Branch × World). r.0) entered) ∙ h) in
        let (parent, slug, adm, cursor, m, shape) = prepared b' q in
        let (home, mother, live, tag) =
          forked-fields cfg o mc parent parent_id name slug description cursor m in
        let its : forked cfg o mc parent parent_id name slug description cursor m ≡ b =
          shape ∙ same in
        let kept : (fork cfg o mc parent_id name description w).1.store ≡ inserted b w.store =
          ap (λ (r : BranchResult Branch × World). r.1.store) entered
          ∙ store
          ∙ ap (λ (x : Branch). inserted x w.store) same in
        let more =
          ap (λ s. count_active s parent.workspace_id) kept
          ∙ count_active-inserted parent.workspace_id b w.store
              (sym (ap (λ (x : Branch). x.workspace_id) its) ∙ home)
              (ap (λ st. is_live st) (sym (ap (λ (x : Branch). x.status) its) ∙ live)
                ∙ active-live) in
        (
          parent,
          subst (Admitted cfg o parent_id name w.store parent)
              (sym tag ∙ ap (λ (x : Branch). x.slug) its) adm,
          sym (ap (λ (x : Branch). x.parent_id) its) ∙ mother,
          sym (ap (λ (x : Branch). x.status) its) ∙ live,
          kept,
          more,
          omega (arith, more, adm.3),
        )
  ]
