-- ===== src/Commit/Validator/Exact.antt =====
-- When the validator lets a commit pass.
use claw_branch.Shared.{
  Text, Bool, true, false, ◌&&◌, ◌||◌, Option, none, some, List, [], ◌∷◌, ◌++◌, is_empty, all, In,
  lookup, ◌≡◌, ◌≢◌, ◌↔◌, ◌⊎◌, ⊎_elim, refl, sym, ◌∙◌, arith, Bool-cases, inl, inr,
}
use claw_branch.Types.{
  Uuid, Branch, BranchStatus, active, dormant, merged, discarded, archived, orphan, purged,
  EntityType,
}
use claw_branch.Json.{Value}
use claw_branch.Database.{Sqlite, Db, table}
use claw_branch.Commit.Cherry.{CherryPick, EntitySelection}
use claw_branch.Commit.Validator.{
  is_source_status, is_target_status, exists, status_violations, missing_ids, check_selections,
  validate,
}

-- Every entity that a selection names is in the source, where the source has its table.
abbrev pub is_present : Sqlite → Db → EntitySelection → Bool
is_present sql db sel =
    is_empty sel.entity_ids
    || (is_empty (sql.columns sel.entity_type)
        || all (λ id. exists sel.entity_type id db) sel.entity_ids)

is_empty-append : (xs ys : List Text) → is_empty (xs ++ ys) ≡ (is_empty xs && is_empty ys)
is_empty-append [] ys = refl
is_empty-append (x ∷ xs) ys = refl

module _ (sql : Sqlite) (show_uuid : Uuid → Text) where
  missing_ids-empty :
      (source : Branch) (db : Db) (t : EntityType) (ids : List Text)
      → is_empty (missing_ids sql show_uuid source db t ids) ≡ all (λ id. exists t id db) ids
  unfolding missing_ids
  missing_ids-empty source db t [] = refl
  missing_ids-empty source db t (id ∷ ids) = elim (Bool-cases (exists t id db)) [
    | inl e ↦ rw e (missing_ids-empty source db t ids)
    | inr e ↦ rw e refl
  ]

  check_selections-empty :
      (source : Branch) (db : Db) (sels : List EntitySelection)
      → is_empty (check_selections sql show_uuid source db sels).0 ≡ all (is_present sql db) sels
  unfolding check_selections
  check_selections-empty source db [] = refl
  check_selections-empty source db (sel ∷ sels) =
      let rest = check_selections-empty source db sels in
      elim (Bool-cases (is_empty sel.entity_ids)) [
        | inl e ↦ rw e rest
        | inr e ↦ elim (Bool-cases (is_empty (sql.columns sel.entity_type))) [
          | inl q ↦ rw (e, q) rest
          | inr q ↦
              rw (e, q)
                (is_empty-append
                    (missing_ids sql show_uuid source db sel.entity_type sel.entity_ids)
                    (check_selections sql show_uuid source db sels).0
                  ∙ rw (missing_ids-empty source db sel.entity_type sel.entity_ids, rest) refl)
        ]
      ]

  status_violations-empty :
      (source target : Branch)
      → is_empty (status_violations sql show_uuid source target)
        ≡ (is_source_status source.status && is_target_status target.status)
  unfolding status_violations
  status_violations-empty source target = elim (Bool-cases (is_source_status source.status)) [
    | inl e ↦ elim (Bool-cases (is_target_status target.status)) [
      | inl q ↦ rw (e, q) refl
      | inr q ↦ rw (e, q) refl
    ]
    | inr e ↦ rw e refl
  ]

-- The three checks as one test.
validate-passes :
    (sql : Sqlite) (show_uuid : Uuid → Text) (cherry : CherryPick) (source target : Branch)
    (db : Db)
    → (validate sql show_uuid cherry source target db).is_ok ≡ (
        (is_source_status source.status && is_target_status target.status)
        && all (is_present sql db) cherry.entity_selections)
unfolding validate
validate-passes sql show_uuid cherry source target db =
    is_empty-append (status_violations sql show_uuid source target)
      (check_selections sql show_uuid source db cherry.entity_selections).0
    ∙ rw
        (
          status_violations-empty sql show_uuid source target,
          check_selections-empty sql show_uuid source db cherry.entity_selections,
        )
        refl

-- What a pick has to satisfy.
pub record Sound (sql : Sqlite) (cherry : CherryPick) (source target : Branch) (db : Db)
    : Type 0 where
  pub live_source : (source.status ≡ active) ⊎ (source.status ≡ dormant)
  pub active_target : target.status ≡ active
  pub there :
      (sel : EntitySelection) (id : Text)
      → In sel cherry.entity_selections
      → sql.columns sel.entity_type ≢ []
      → In id sel.entity_ids
      → (v : Value) × (lookup id (table sel.entity_type db) ≡ some v)

source_status :
    (st : BranchStatus) → (is_source_status st ≡ true) ↔ ((st ≡ active) ⊎ (st ≡ dormant))
source_status active = (λ h. inl refl, λ h. refl)
source_status dormant = (λ h. inr refl, λ h. refl)
source_status (merged i t) = (λ h. cc, λ h. ⊎_elim (λ e. cc) (λ e. cc) h)
source_status (discarded t) = (λ h. cc, λ h. ⊎_elim (λ e. cc) (λ e. cc) h)
source_status archived = (λ h. cc, λ h. ⊎_elim (λ e. cc) (λ e. cc) h)
source_status orphan = (λ h. cc, λ h. ⊎_elim (λ e. cc) (λ e. cc) h)
source_status purged = (λ h. cc, λ h. ⊎_elim (λ e. cc) (λ e. cc) h)

target_status : (st : BranchStatus) → (is_target_status st ≡ true) ↔ (st ≡ active)
target_status active = (λ h. refl, λ h. refl)
target_status dormant = (λ h. cc, λ h. cc)
target_status (merged i t) = (λ h. cc, λ h. cc)
target_status (discarded t) = (λ h. cc, λ h. cc)
target_status archived = (λ h. cc, λ h. cc)
target_status orphan = (λ h. cc, λ h. cc)
target_status purged = (λ h. cc, λ h. cc)

all-In : {A : Type 0} (q : A → Bool) (xs : List A) (x : A) → all q xs ≡ true → In x xs → q x ≡ true
all-In q [] x h i = absurd i
all-In q (y ∷ ys) x h (inl e) = rw e (ground arith)
all-In q (y ∷ ys) x h (inr i) = all-In q ys x (ground arith) i

In-all :
    {A : Type 0} (q : A → Bool) (xs : List A) → ((x : A) → In x xs → q x ≡ true) → all q xs ≡ true
In-all q [] h = refl
In-all q (y ∷ ys) h = rw (h y (inl refl)) (In-all q ys (λ x i. h x (inr i)))

is_some_iff :
    (o : Option Value)
    → (elim o [ none ↦ false | some v ↦ true ] ≡ true) ↔ ((v : Value) × (o ≡ some v))
is_some_iff none = (λ h. cc, λ (v, q). cc)
is_some_iff (some v) = (λ h. (v, refl), λ h. refl)

exists_row :
    (t : EntityType) (id : Text) (db : Db)
    → (exists t id db ≡ true) ↔ ((v : Value) × (lookup id (table t db) ≡ some v))
exists_row t id db = is_some_iff (lookup id (table t db))

no_columns : (cs : List Text) → (cs ≢ []) → is_empty cs ≡ false
no_columns [] h = absurd (h refl)
no_columns (c ∷ cs) h = refl

some_columns : (cs : List Text) → is_empty cs ≡ false → cs ≢ []
some_columns [] h = cc
some_columns (c ∷ cs) h = λ e. cc

present-there :
    (sql : Sqlite) (db : Db) (sel : EntitySelection) (id : Text)
    → is_present sql db sel ≡ true
    → sql.columns sel.entity_type ≢ []
    → In id sel.entity_ids
    → exists sel.entity_type id db ≡ true
present-there sql db sel id h c i =
    all-In (λ j. exists sel.entity_type j db) sel.entity_ids id
      (all_there (is_empty sel.entity_ids) (named sel.entity_ids i)
        (no_columns (sql.columns sel.entity_type) c) h)
      i
  where
    named : (ids : List Text) → In id ids → is_empty ids ≡ false
    named [] j = absurd j
    named (k ∷ ks) j = refl

    all_there : (x : Bool) {y z : Bool} → x ≡ false → y ≡ false → (x || (y || z)) ≡ true → z ≡ true
    all_there x e f g = ground arith

there-present :
    (sql : Sqlite) (db : Db) (sel : EntitySelection)
    → (sql.columns sel.entity_type ≢ []
        → (id : Text) → In id sel.entity_ids
        → exists sel.entity_type id db ≡ true)
    → is_present sql db sel ≡ true
there-present sql db sel h = elim (Bool-cases (is_empty (sql.columns sel.entity_type))) [
  | inl e ↦ ground arith
  | inr e ↦
      let every =
        In-all (λ j. exists sel.entity_type j db) sel.entity_ids
          (h (some_columns (sql.columns sel.entity_type) e)) in
      ground arith
]

-- The validator passes a pick exactly when the source is active or dormant, the target is active,
-- and every entity that a selection names, of a type that has a table, has a row in the source.
pub validate-exact :
    (sql : Sqlite) (show_uuid : Uuid → Text) (cherry : CherryPick) (source target : Branch)
    (db : Db)
    → ((validate sql show_uuid cherry source target db).is_ok ≡ true)
      ↔ Sound sql cherry source target db
validate-exact sql show_uuid cherry source target db =
    let passes = validate-passes sql show_uuid cherry source target db in
    (
      λ h.
          let both = sym passes ∙ h in
          record {
            live_source = (source_status source.status).0 (ground arith);
            active_target = (target_status target.status).0 (ground arith);
            there = λ sel id i c j. (exists_row sel.entity_type id db).0 (
                present-there sql db sel id
                  (all-In (is_present sql db) cherry.entity_selections sel (ground arith) i) c j);
          },
      λ v.
          let s = (source_status source.status).1 v.live_source in
          let t = (target_status target.status).1 v.active_target in
          let a = In-all (is_present sql db) cherry.entity_selections (λ sel i.
            there-present sql db sel
              (λ c id j. (exists_row sel.entity_type id db).1 (v.there sel id i c j))) in
          passes ∙ rw (s, t, a) refl,
    )
