-- ===== src/Merge/ThreeWay/Plan.antt =====
-- merge/three_way.rs: what the plan of a merge leaves to apply and to a person.
use claw_branch.Shared.{
  Text, Bool, false, not, ◌&&◌, ◌||◌, none, some, List, [], ◌∷◌, ◌++◌, map, keep, keep-append,
  if◌then◌else◌, Dict, lookup, In, ◌≡◌, inl, inr, refl, sym, ap, ◌∙◌, arith, Bool-cases, List-cases,
  subst, Option-cases,
}
use claw_branch.Failure.{BranchResult, ok, ◌>>=◌}
use claw_branch.Json.{object, empty}
use claw_branch.Types.{EntityType, is_unchanged, EntityDiff, MergeConflict}
use claw_branch.Merge.Conflict.{detect_conflicts, is_trivially_resolvable}
use claw_branch.Merge.Conflict.Exact.{detect_conflicts-not-trivial}
use claw_branch.Merge.Resolver.{
  MergeStrategy, ResolvedValue, use_ours, use_theirs, escalate, merged, resolve,
}
use claw_branch.Merge.Resolver.Total.{
  deciding, is_manual, escalated, resolve-escalated, resolve_batch_lem,
}
use claw_branch.Merge.Applier.{Change}
use claw_branch.Merge.Applier.Batch.{same_entity, names}
use claw_branch.Merge.ThreeWay.{
  Plan, sort_out, conflicts_with, auto_change, plan_entity, plan, preview_loop,
  theirs_entity_to_resolved, merge_field_diffs,
}

keep-same :
    {A : Type 0} (q r : A → Bool) (xs : List A)
    → ((x : A) → In x xs → q x ≡ r x)
    → keep q xs ≡ keep r xs
keep-same q r [] h = refl
keep-same q r (x ∷ xs) h =
    let later = keep-same q r xs (λ y i. h y (inr i)) in rw (h x (inl refl), later) refl

names-append :
    (t : EntityType) (id : Text) (cs ds : List Change)
    → names t id (cs ++ ds) ≡ (names t id cs || names t id ds)
names-append t id [] ds = refl
names-append t id ((d, use_ours) ∷ cs) ds = names-append t id cs ds
names-append t id ((d, use_theirs) ∷ cs) ds = ground (arith, names-append t id cs ds)
names-append t id ((d, escalate) ∷ cs) ds = ground (arith, names-append t id cs ds)
names-append t id ((d, merged v) ∷ cs) ds = ground (arith, names-append t id cs ds)

-- The conflicts that a strategy leaves to a person.
abbrev pub left_open : MergeStrategy → MergeConflict → Bool
left_open s c = is_manual (deciding c.conflicting_fields s)

-- Whether a diff of the list, other than an unchanged one, is that of the entity.
abbrev pub touched : EntityType → Text → List EntityDiff → Bool
touched t id [] = false
touched t id (d ∷ ds) =
    (not (is_unchanged d.diff_kind) && same_entity t id d.entity_type d.entity_id)
    || touched t id ds

module _ (o : Dict EntityDiff) (d : EntityDiff) where
  conflicts_with-none : lookup d.entity_id o ≡ none → conflicts_with o d ≡ []
  unfolding conflicts_with
  conflicts_with-none e = rw (e, conflicts_with) refl

  conflicts_with-some :
      (ours : EntityDiff)
      → lookup d.entity_id o ≡ some ours
      → conflicts_with o d ≡ detect_conflicts ours d (object empty)
  unfolding conflicts_with
  conflicts_with-some ours e = rw (e, conflicts_with) refl

  conflicts_with-not-trivial :
      (c : MergeConflict) → In c (conflicts_with o d) → is_trivially_resolvable c ≡ false
  conflicts_with-not-trivial c h = elim (Option-cases (lookup d.entity_id o)) [
    | inl e ↦ absurd (subst (In c) (conflicts_with-none e) h)
    | inr (ours, e) ↦
        detect_conflicts-not-trivial ours d (object empty) c
          (subst (In c) (conflicts_with-some ours e) h)
  ]

module _ (s : MergeStrategy) (d : EntityDiff) where
  sort_out-step :
      (c : MergeConflict) (r : ResolvedValue) (rs : List (MergeConflict × ResolvedValue))
      → (sort_out d ((c, r) ∷ rs)).1
        ≡ (if escalated r then c ∷ (sort_out d rs).1 else (sort_out d rs).1)
  unfolding sort_out
  sort_out-step c use_ours rs = refl
  sort_out-step c use_theirs rs = refl
  sort_out-step c escalate rs = refl
  sort_out-step c (merged v) rs = refl

  sort_out-left :
      (cs : List MergeConflict)
      → (sort_out d (map (λ c. (c, resolve c s)) cs)).1 ≡ keep (λ c. escalated (resolve c s)) cs
  unfolding sort_out
  sort_out-left [] = refl
  sort_out-left (c ∷ cs) =
      sort_out-step c (resolve c s) (map (λ x. (x, resolve x s)) cs) ∙ rw (sort_out-left cs) refl

  sort_out-names :
      (t : EntityType) (id : Text) (rs : List (MergeConflict × ResolvedValue))
      → same_entity t id d.entity_type d.entity_id ≡ false
      → names t id (sort_out d rs).0 ≡ false
  unfolding sort_out
  sort_out-names t id [] h = refl
  sort_out-names t id ((c, use_ours) ∷ rs) h = sort_out-names t id rs h
  sort_out-names t id ((c, escalate) ∷ rs) h = sort_out-names t id rs h
  sort_out-names t id ((c, use_theirs) ∷ rs) h = rw h (sort_out-names t id rs h)
  sort_out-names t id ((c, merged v) ∷ rs) h = rw h (sort_out-names t id rs h)

module _ (o : Dict EntityDiff) (d : EntityDiff) (t : EntityType) (id : Text) where
  names-one :
      (r : ResolvedValue)
      → same_entity t id d.entity_type d.entity_id ≡ false
      → names t id ((d, r) ∷ []) ≡ false
  names-one use_ours h = refl
  names-one use_theirs h = rw h refl
  names-one escalate h = rw h refl
  names-one (merged v) h = rw h refl

  auto_change-none :
      lookup d.entity_id o ≡ none → auto_change o d ≡ (d, theirs_entity_to_resolved d)
  unfolding auto_change
  auto_change-none e = rw (e, auto_change) refl

  auto_change-some :
      (ours : EntityDiff)
      → lookup d.entity_id o ≡ some ours
      → auto_change o d ≡ (merge_field_diffs ours d, use_ours)
  unfolding auto_change
  auto_change-some ours e = rw (e, auto_change) refl

  auto_change-names :
      same_entity t id d.entity_type d.entity_id ≡ false → names t id (auto_change o d ∷ []) ≡ false
  auto_change-names h = elim (Option-cases (lookup d.entity_id o)) [
    | inl e ↦
        ap (λ c. names t id (c ∷ [])) (auto_change-none e)
        ∙ names-one (theirs_entity_to_resolved d) h
    | inr (ours, e) ↦ ap (λ c. names t id (c ∷ [])) (auto_change-some ours e)
  ]

-- What a plan owes: the conflicts that its strategy leaves open are those of `cs`, and an entity
-- that is not touched is not named.
abbrev pub Keeps :
    MergeStrategy → List MergeConflict → (EntityType → Text → Bool) → BranchResult Plan → Type 0
Keeps s cs touches r =
    (pl : Plan) × (r ≡ ok pl)
    × (pl.1 ≡ keep (left_open s) cs)
    × ((t : EntityType) (id : Text) → touches t id ≡ false → names t id pl.0 ≡ false)

module _ (s : MergeStrategy) (o : Dict EntityDiff) where
  escalated-open :
      (d : EntityDiff)
      → keep (λ c. escalated (resolve c s)) (conflicts_with o d)
        ≡ keep (left_open s) (conflicts_with o d)
  escalated-open d =
      keep-same (λ c. escalated (resolve c s)) (left_open s) (conflicts_with o d)
        (λ c i. resolve-escalated c s ∙ rw (conflicts_with-not-trivial o d c i) refl)

  plan_entity-Keeps :
      (d : EntityDiff)
      → Keeps s
          (conflicts_with o d)
          (λ t id. same_entity t id d.entity_type d.entity_id)
          (plan_entity s o d)
  unfolding plan_entity
  plan_entity-Keeps d = elim (List-cases (conflicts_with o d)) [
    | inl e ↦
        ((auto_change o d ∷ [], []), rw e refl, rw e refl, λ t id h. auto_change-names o d t id h)
    | inr (c, cs, e) ↦ (
      sort_out d (map (λ x. (x, resolve x s)) (conflicts_with o d)),
      rw (resolve_batch_lem (conflicts_with o d) s, e) refl,
      sort_out-left s d (conflicts_with o d) ∙ escalated-open d,
      λ t id h. sort_out-names s d t id (map (λ x. (x, resolve x s)) (conflicts_with o d)) h,
    )
  ]

-- Two plans that follow one another.
both_Keep :
    (s : MergeStrategy) (cs cs' : List MergeConflict) (touches touches' : EntityType → Text → Bool)
    (r r' : BranchResult Plan)
    → Keeps s cs touches r
    → Keeps s cs' touches' r'
    → Keeps s
        (cs ++ cs')
        (λ t id. touches t id || touches' t id)
        (r >>= λ pl. r' >>= λ pl'. ok (pl.0 ++ pl'.0, pl.1 ++ pl'.1))
both_Keep s cs cs' touches touches' r r' (pl, e, l, n) (pl', e', l', n') = (
  (pl.0 ++ pl'.0, pl.1 ++ pl'.1),
  rw (e, e') refl,
  rw (l, l') (sym (keep-append (left_open s) cs cs')),
  λ t id h. names-append t id pl.0 pl'.0 ∙ rw (n t id (ground arith), n' t id (ground arith)) refl,
)

module _ (s : MergeStrategy) (o : Dict EntityDiff) where
  preview-step :
      (d : EntityDiff) (ds : List EntityDiff)
      → is_unchanged d.diff_kind ≡ false
      → (preview_loop o (d ∷ ds)).1 ≡ conflicts_with o d ++ (preview_loop o ds).1
  unfolding preview_loop
  preview-step d ds h = elim (List-cases (conflicts_with o d)) [
    | inl e ↦ rw (h, e) refl
    | inr (c, cs, e) ↦ rw (h, e) refl
  ]

  pub plan-Keeps :
      (ds : List EntityDiff) → Keeps s (preview_loop o ds).1 (λ t id. touched t id ds) (plan s o ds)
  unfolding plan preview_loop
  plan-Keeps [] = (([], []), refl, refl, λ t id h. refl)
  plan-Keeps (d ∷ ds) = elim (Bool-cases (is_unchanged d.diff_kind)) [
    | inl e ↦ rw e (plan-Keeps ds)
    | inr e ↦
        let (pl, p, l, n) =
          both_Keep s (conflicts_with o d) (preview_loop o ds).1
            (λ t id. same_entity t id d.entity_type d.entity_id) (λ t id. touched t id ds)
            (plan_entity s o d) (plan s o ds) (plan_entity-Keeps s o d) (plan-Keeps ds) in
        (
          pl,
          rw e p,
          l ∙ ap (keep (left_open s)) (sym (preview-step d ds e)),
          λ t id h. n t id (rw e at h),
        )
  ]
