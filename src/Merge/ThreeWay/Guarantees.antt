-- ===== src/Merge/ThreeWay/Guarantees.antt =====
-- merge/three_way.rs: `merge` and `preview` as wholes.
use claw_branch.Shared.{
  ℕ, Text, text_eq→≡, true, false, not, ◌&&◌, Option, none, some, List, [], ◌∷◌, keep, is_empty,
  lookup, In, ◌≡◌, ◌≢◌, inl, inr, refl, sym, ap, ◌∙◌, arith, Bool-cases, subst,
}
use mathlib.Core.List.{Permᴰ}
use claw_branch.Merge.ThreeWay.Order.{rearranged, keep-Perm, Perm-is_empty, preview_loop-Perm}
use claw_branch.Failure.{
  BranchResult, BranchError, ok, err, ◌>>=◌, Result-cases, then-ok, ok-eq, ok≢err,
}
use claw_branch.Types.{
  unchanged, Uuid, Time, EntityType, is_unchanged, EntityDiff, MergeResult, Branch,
}
use claw_branch.Floats.{Floats}
use claw_branch.Json.{Value}
use claw_branch.Database.{fetch_all_entities, Sqlite, Printer, Db}
use claw_branch.Merge.Resolver.{MergeStrategy}
use claw_branch.Merge.Applier.Batch.{type_eq→≡, row, names, same_entity}
use claw_branch.Merge.ThreeWay.{
  Files, Plan, index_by_id, diff_branches, plan, preview_loop, preview_of, carry_out, merge_plan,
  merge, preview,
}
use claw_branch.Merge.ThreeWay.Plan.{left_open, touched, plan-Keeps}
use claw_branch.Merge.ThreeWay.Outcome.{
  succeeded, carried-refused, carried-conflicts, carried-row, carried-other, open_db-some, some-eq,
}
use claw_branch.Diff.{diff, entity_diff, compare_entity_values}
use claw_branch.Diff.Entities.{diff-Listed, self-unchanged}

touched-In :
    (t : EntityType) (id : Text) (ds : List EntityDiff)
    → touched t id ds ≡ true
    → (d : EntityDiff) × In d ds
      × (is_unchanged d.diff_kind ≡ false)
      × (same_entity t id d.entity_type d.entity_id ≡ true)
touched-In t id [] h = absurd cc
touched-In t id (d ∷ ds) h =
    elim (Bool-cases
      (not (is_unchanged d.diff_kind) && same_entity t id d.entity_type d.entity_id)) [
        | inl e ↦ (d, inl refl, ground arith, ground arith)
        | inr e ↦ let (d', i, k, q) = touched-In t id ds (ground arith) in (d', inr i, k, q)
      ]

same_row :
    (sql : Sqlite) (t : EntityType) (id : Text) (a b : Db)
    → row t id a ≡ row t id b
    → lookup id (fetch_all_entities sql a t) ≡ lookup id (fetch_all_entities sql b t)
unfolding fetch_all_entities
same_row sql t id a b h = elim (Bool-cases (is_empty (sql.columns t))) [
  | inl e ↦ rw e refl
  | inr e ↦ rw e h
]

entity_diff-names :
    (id : Text) (t : EntityType) (x y : Option Value)
    → ((entity_diff id t x y).entity_id ≡ id) × ((entity_diff id t x y).entity_type ≡ t)
unfolding entity_diff compare_entity_values
entity_diff-names id t none none = (refl, refl)
entity_diff-names id t none (some b) = (refl, refl)
entity_diff-names id t (some a) none = (refl, refl)
entity_diff-names id t (some a) (some b) = (refl, refl)

no_diff :
    (d : EntityDiff) (t t' : EntityType) (id id' : Text) (a b : EntityType → Text → Option Value)
    → a t id ≡ b t id
    → d ≡ entity_diff id' t' (a t' id') (b t' id')
    → is_unchanged d.diff_kind ≡ false
    → ¬ (same_entity t id d.entity_type d.entity_id ≡ true)
no_diff d t t' id id' a b h made k q =
    let (i, u) = entity_diff-names id' t' (a t' id') (b t' id') in
    let at_type : t ≡ t' =
      type_eq→≡ t d.entity_type (ground arith) ∙ ap (λ (x : EntityDiff). x.entity_type) made ∙ u in
    let at_id : id ≡ id' =
      text_eq→≡ id d.entity_id (ground arith) ∙ ap (λ (x : EntityDiff). x.entity_id) made ∙ i in
    let agree : a t' id' ≡ b t' id' =
      subst (λ y. a y id' ≡ b y id') at_type (subst (λ y. a t y ≡ b t y) at_id h) in
    let same : d.diff_kind ≡ unchanged =
      ap (λ (x : EntityDiff). x.diff_kind) made
      ∙ ap (λ y. (entity_diff id' t' (a t' id') y).diff_kind) (sym agree)
      ∙ self-unchanged id' t' (a t' id') in
    cc (ap is_unchanged same, k)

-- An entity whose rows agree is not touched by the diff of the two databases.
diff-untouched :
    (sql : Sqlite) (f : Floats) (now : Time) (a_id : Uuid) (a : Db) (b_id : Uuid) (b : Db)
    (types : Option (List EntityType)) (t : EntityType) (id : Text)
    → row t id a ≡ row t id b
    → touched t id (diff sql f now a_id a b_id b types).entity_diffs ≡ false
diff-untouched sql f now a_id a b_id b types t id h =
    elim (Bool-cases (touched t id (diff sql f now a_id a b_id b types).entity_diffs)) [
      | inr e ↦ e
      | inl e ↦
          let (d, i, k, q) = touched-In t id (diff sql f now a_id a b_id b types).entity_diffs e in
          let (t', _, (id', _, made)) = (diff-Listed sql f now a_id a b_id b types d).0 i in
          absurd (
            no_diff d t t' id id' (λ u j. lookup j (fetch_all_entities sql a u))
              (λ u j. lookup j (fetch_all_entities sql b u)) (same_row sql t id a b h) made k q)
    ]

module _ (sql : Sqlite) (p : Printer) (f : Floats) (now : Time) (base ours theirs : Branch)
    (s : MergeStrategy) (types : Option (List EntityType)) (elapsed : ℕ) (files : Files) where
  abbrev planned : BranchResult Plan
  planned = merge_plan sql p f now base ours theirs s types files

  merge-ok :
      (pl : Plan)
      → planned ≡ ok pl
      → merge sql p f now base ours theirs s types elapsed files
        ≡ carry_out sql p f now base ours theirs elapsed files pl
  unfolding merge
  merge-ok pl h = rw (h, merge) refl

  merge-err :
      (e : BranchError)
      → planned ≡ err e
      → merge sql p f now base ours theirs s types elapsed files ≡ (err e, files)
  unfolding merge
  merge-err e h = rw (h, merge) refl

  previewed :
      (os ts : List EntityDiff)
      → diff_branches sql p f now base ours types files ≡ ok os
      → diff_branches sql p f now base theirs types files ≡ ok ts
      → preview sql p f now base ours theirs types files
        ≡ ok (preview_of (preview_loop (index_by_id os []) ts))
  unfolding preview
  previewed os ts o u = rw (o, u, preview) refl

  -- A plan that was made has the diffs of both sides, and keeps what it owes.
  merge_plan-Keeps :
      (pl : Plan)
      → planned ≡ ok pl
      → (ours_diffs : List EntityDiff) × (theirs_diffs : List EntityDiff) × (diff_branches sql p f
            now base ours types files
          ≡ ok ours_diffs)
        × (diff_branches sql p f now base theirs types files ≡ ok theirs_diffs)
        × (pl.1 ≡ keep (left_open s) (preview_loop (index_by_id ours_diffs []) theirs_diffs).1)
        × ((t : EntityType) (id : Text)
            → touched t id theirs_diffs ≡ false
            → names t id pl.0 ≡ false)
  unfolding merge_plan
  merge_plan-Keeps pl h =
      let after : List EntityDiff → List EntityDiff → BranchResult Plan =
        λ os ts. plan s (index_by_id os []) ts in
      let theirs_side = diff_branches sql p f now base theirs types files in
      let (os, o, rest) =
        then-ok (diff_branches sql p f now base ours types files) (λ os. theirs_side >>= after os)
          pl h in
      let (ts, u, made) = then-ok theirs_side (after os) pl rest in
      let (pl', made', left, unnamed) = plan-Keeps s (index_by_id os []) ts in
      let same = ok-eq pl' pl (sym made' ∙ made) in
      (
        os,
        ts,
        o,
        u,
        ap (λ (x : Plan). x.1) (sym same) ∙ left,
        λ t id q. subst (λ (x : Plan). names t id x.0 ≡ false) same (unnamed t id q),
      )

  -- A merge that reports no success leaves every branch's database as it was: the one where conflicts
  -- stay open, and the one that fails.
  pub merge-refused :
      succeeded (merge sql p f now base ours theirs s types elapsed files).0 ≡ false
      → (merge sql p f now base ours theirs s types elapsed files).1 ≡ files
  merge-refused h = elim (Result-cases planned) [
    | inr (e, q) ↦ ap (λ x. x.1) (merge-err e q)
    | inl (pl, q) ↦
        ap (λ x. x.1) (merge-ok pl q)
        ∙ carried-refused sql p f now base ours theirs elapsed files pl
            (ap (λ x. succeeded x.0) (sym (merge-ok pl q)) ∙ h)
  ]

  -- A merge that returns reports, in some order, those of the preview's conflicts whose field the
  -- strategy leaves to a person, in whatever order the preview walks the diffs of theirs, and reports
  -- success exactly when there are none.
  pub merge-conflicts :
      (r : MergeResult)
      → (merge sql p f now base ours theirs s types elapsed files).0 ≡ ok r
      → (os : List EntityDiff) × (ts : List EntityDiff) × (diff_branches sql p f now base ours types
            files
          ≡ ok os)
        × (diff_branches sql p f now base theirs types files ≡ ok ts)
        × (preview sql p f now base ours theirs types files
            ≡ ok (preview_of (preview_loop (index_by_id os []) ts)))
        × ((ts' : List EntityDiff)
            → Permᴰ ts ts'
            → Permᴰ r.conflicts
                (keep (left_open s) (preview_of (preview_loop (index_by_id os []) ts')).conflicts)
              × (r.success
                  ≡ is_empty (
                      keep
                        (left_open s)
                        (preview_of (preview_loop (index_by_id os []) ts')).conflicts)))
  unfolding preview_of
  merge-conflicts r h = elim (Result-cases planned) [
    | inr (e, q) ↦ absurd (ok≢err r e (sym h ∙ ap (λ x. x.0) (merge-err e q)))
    | inl (pl, q) ↦
        let (os, ts, o, u, left, _) = merge_plan-Keeps pl q in
        let (cs, good) =
          carried-conflicts sql p f now base ours theirs elapsed files pl r
            (sym (ap (λ x. x.0) (merge-ok pl q)) ∙ h) in
        (
          os,
          ts,
          o,
          u,
          previewed os ts o u,
          λ ts' walk.
              let same =
                keep-Perm (left_open s) (preview_loop-Perm (index_by_id os []) ts ts' walk) in
              (rearranged (cs ∙ left) refl same, good ∙ ap is_empty left ∙ Perm-is_empty same),
        )
  ]

  opened :
      (base_db theirs_db : Db)
      → lookup base.db_path files ≡ some base_db
      → lookup theirs.db_path files ≡ some theirs_db
      → diff_branches sql p f now base theirs types files
        ≡ ok (diff sql f now base.id base_db theirs.id theirs_db types).entity_diffs
  unfolding diff_branches
  opened base_db theirs_db hb ht =
      rw
        (
          open_db-some base.db_path files base_db hb,
          open_db-some theirs.db_path files theirs_db ht,
          diff_branches,
        )
        refl

  -- No file but that of ours is written.
  pub merge-other :
      (path : Text)
      → path ≢ ours.db_path
      → lookup path (merge sql p f now base ours theirs s types elapsed files).1 ≡ lookup path files
  merge-other path n = elim (Result-cases planned) [
    | inr (e, q) ↦ ap (λ x. lookup path x.1) (merge-err e q)
    | inl (pl, q) ↦
        ap (λ x. lookup path x.1) (merge-ok pl q)
        ∙ carried-other sql p f now base ours theirs elapsed files pl path n
  ]

  -- Where the files of the three branches exist, a merge, successful or not, writes no file but that
  -- of ours, and in it only entities that theirs changed: where base and theirs have the same row, or
  -- both none, the row of ours stays.
  pub merge-frame :
      (t : EntityType) (id : Text) (base_db theirs_db ours_db ours_db' : Db)
      → lookup base.db_path files ≡ some base_db
      → lookup theirs.db_path files ≡ some theirs_db
      → lookup ours.db_path files ≡ some ours_db
      → lookup ours.db_path (merge sql p f now base ours theirs s types elapsed files).1
        ≡ some ours_db'
      → row t id base_db ≡ row t id theirs_db
      → (row t id ours_db' ≡ row t id ours_db)
        × ((path : Text)
            → path ≢ ours.db_path
            → lookup path (merge sql p f now base ours theirs s types elapsed files).1
              ≡ lookup path files)
  merge-frame t id base_db theirs_db ours_db ours_db' hb ht ho ho' h = elim (Result-cases planned) [
    | inr (e, q) ↦
        let same = ap (λ x. x.1) (merge-err e q) in
        (
          ap (row t id) (some-eq ours_db' ours_db (sym ho' ∙ ap (lookup ours.db_path) same ∙ ho)),
          λ path n. ap (lookup path) same,
        )
    | inl (pl, q) ↦
        let done = ap (λ x. x.1) (merge-ok pl q) in
        let (_, ts, _, u, _, unnamed) = merge_plan-Keeps pl q in
        let its = ok-eq _ ts (sym (opened base_db theirs_db hb ht) ∙ u) in
        let untouched =
          ap (touched t id) (sym its)
          ∙ diff-untouched sql f now base.id base_db theirs.id theirs_db types t id h in
        (
          carried-row sql p f now base ours theirs elapsed files pl ours_db ours_db' t id ho
              (ap (lookup ours.db_path) (sym done) ∙ ho') (unnamed t id untouched),
          λ path n.
              ap (lookup path) done
              ∙ carried-other sql p f now base ours theirs elapsed files pl path n,
        )
  ]
