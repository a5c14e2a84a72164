-- ===== src/Merge/ThreeWay/Outcome.antt =====
-- merge/three_way.rs: a merge from its plan on: what it reports and what it leaves untouched.
use claw_branch.Shared.{
  codes, ℕ, Text, text_eq, text_eq_refl, text_eq→≡, Bool, true, false, none, some, List, [], ◌∷◌,
  is_empty, lookup, put, lookup-put, ◌≡◌, ◌≢◌, inl, inr, refl, sym, ap, ◌∙◌, Bool-cases,
  Option-cases,
}
use claw_branch.Failure.{
  BranchResult, BranchError, ok, err, ◌>>=◌, is_err, Result-cases, ok-eq, ok≢err, database,
}
use claw_branch.Types.{Time, EntityType, MergeConflict, MergeResult, Branch}
use claw_branch.Floats.{Floats}
use claw_branch.Database.{Sqlite, Printer, Db}
use claw_branch.Merge.Applier.{Change, apply_batch}
use claw_branch.Merge.Applier.Batch.{row, names, apply_batch-writes, apply_batch-atomic}
use claw_branch.Merge.ThreeWay.{Files, Plan, open_db, result_of, carry_out}

-- Whether the merge reported that it was carried out.
abbrev pub succeeded : BranchResult MergeResult → Bool
succeeded (ok r) = r.success
succeeded (err e) = false

pub some-eq : (v w : Db) → some v ≡ some w → v ≡ w
some-eq v w h = cc

put-same : (k : Text) (v : Db) (m : Files) → lookup k m ≡ some v → put k v m ≡ m
unfolding lookup put
put-same k v [] h = cc
put-same k v ((j, w) ∷ m) h = elim (Bool-cases (text_eq k j)) [
  | inl e ↦ rw e (ap (λ u. (j, u) ∷ m) (some-eq v w (sym (rw e at h))))
  | inr e ↦ rw e (ap (λ r. (j, w) ∷ r) (put-same k v m (rw e at h)))
]

pub open_db-some :
    (path : Text) (files : Files) (db : Db)
    → lookup path files ≡ some db
    → open_db path files ≡ ok db
unfolding open_db
open_db-some path files db e = rw (e, open_db) refl

open_missing :
    (path : Text) (files : Files)
    → lookup path files ≡ none
    → open_db path files ≡ err (database (codes "unable to open database file"))
unfolding open_db
open_missing path files e = rw (e, open_db) refl

open_db-none :
    (path : Text) (files : Files) (db : Db)
    → lookup path files ≡ none
    → ¬ (open_db path files ≡ ok db)
unfolding open_db
open_db-none path files db e h =
    ok≢err db (database (codes "unable to open database file")) (sym h ∙ open_missing path files e)

open_db-ok :
    (path : Text) (files : Files) (db : Db)
    → open_db path files ≡ ok db
    → lookup path files ≡ some db
unfolding open_db
open_db-ok path files db h = elim (Option-cases (lookup path files)) [
  | inl e ↦ absurd (open_db-none path files db e h)
  | inr (d, e) ↦ e ∙ ap some (ok-eq d db (sym (open_db-some path files d e) ∙ h))
]

then-failed :
    (r : BranchResult ℕ) (g : ℕ → MergeResult)
    → ((n : ℕ) → (g n).success ≡ true)
    → succeeded (r >>= λ n. ok (g n)) ≡ false
    → is_err r ≡ true
then-failed (ok n) g h q = cc (h n, q)
then-failed (err e) g h q = refl

then-result :
    (r : BranchResult ℕ) (g : ℕ → MergeResult) (x : MergeResult)
    → (r >>= λ n. ok (g n)) ≡ ok x
    → (n : ℕ) × (g n ≡ x)
then-result (ok n) g x q = (n, ok-eq (g n) x q)
then-result (err e) g x q = absurd (ok≢err x e (sym q))

module _ (sql : Sqlite) (p : Printer) (f : Floats) (now : Time) (base ours theirs : Branch)
    (elapsed : ℕ) (files : Files) where
  abbrev pub carried : Plan → BranchResult MergeResult × Files
  carried pl = carry_out sql p f now base ours theirs elapsed files pl

  result-success : (n : ℕ) → (result_of base ours theirs elapsed n [] true).success ≡ true
  unfolding result_of
  result-success n = refl

  result-conflicts :
      (n : ℕ) (cs : List MergeConflict) (b : Bool)
      → (result_of base ours theirs elapsed n cs b).conflicts ≡ cs
  unfolding result_of
  result-conflicts n cs b = refl

  result-succeeds :
      (n : ℕ) (cs : List MergeConflict) (b : Bool)
      → (result_of base ours theirs elapsed n cs b).success ≡ b
  unfolding result_of
  result-succeeds n cs b = refl

  -- A plan with open conflicts is not carried out.
  carry_out-open :
      (changes : List Change) (c : MergeConflict) (cs : List MergeConflict)
      → carried (changes, c ∷ cs)
        ≡ (ok (result_of base ours theirs elapsed 0 (c ∷ cs) false), files)
  unfolding carry_out
  carry_out-open changes c cs = refl

  carry_out-missing :
      (changes : List Change) (e : BranchError)
      → open_db ours.db_path files ≡ err e
      → carried (changes, []) ≡ (err e, files)
  unfolding carry_out
  carry_out-missing changes e h = rw (h, carry_out) refl

  carry_out-applied :
      (changes : List Change) (db : Db)
      → open_db ours.db_path files ≡ ok db
      → carried (changes, []) ≡ (
        (apply_batch sql p changes db).0 >>= λ n. ok (result_of base ours theirs elapsed n [] true),
        put ours.db_path (apply_batch sql p changes db).1 files,
      )
  unfolding carry_out
  carry_out-applied changes db h = rw (h, carry_out) refl

  pub carried-refused : (pl : Plan) → succeeded (carried pl).0 ≡ false → (carried pl).1 ≡ files
  carried-refused (changes, c ∷ cs) h = ap (λ x. x.1) (carry_out-open changes c cs)
  carried-refused (changes, []) h = elim (Result-cases (open_db ours.db_path files)) [
    | inr (e, o) ↦ ap (λ x. x.1) (carry_out-missing changes e o)
    | inl (db, o) ↦
        let q = carry_out-applied changes db o in
        let (_, back) = apply_batch-atomic sql p changes db in
        let failed =
          then-failed (apply_batch sql p changes db).0
            (λ n. result_of base ours theirs elapsed n [] true) (λ n. result-success n)
            (ap (λ x. succeeded x.0) (sym q) ∙ h) in
        ap (λ x. x.1) q
        ∙ ap (λ d. put ours.db_path d files) (back failed)
        ∙ put-same ours.db_path db files (open_db-ok ours.db_path files db o)
  ]

  pub carried-conflicts :
      (pl : Plan) (r : MergeResult)
      → (carried pl).0 ≡ ok r
      → (r.conflicts ≡ pl.1) × (r.success ≡ is_empty pl.1)
  carried-conflicts (changes, c ∷ cs) r h =
      let e =
        ok-eq (result_of base ours theirs elapsed 0 (c ∷ cs) false) r
          (sym (ap (λ x. x.0) (carry_out-open changes c cs)) ∙ h) in
      (
        sym (ap (λ (x : MergeResult). x.conflicts) e) ∙ result-conflicts 0 (c ∷ cs) false,
        sym (ap (λ (x : MergeResult). x.success) e) ∙ result-succeeds 0 (c ∷ cs) false,
      )
  carried-conflicts (changes, []) r h = elim (Result-cases (open_db ours.db_path files)) [
    | inr (e, o) ↦ absurd (ok≢err r e (sym h ∙ ap (λ x. x.0) (carry_out-missing changes e o)))
    | inl (db, o) ↦
        let q = sym (ap (λ x. x.0) (carry_out-applied changes db o)) ∙ h in
        let (n, e) =
          then-result (apply_batch sql p changes db).0
            (λ n. result_of base ours theirs elapsed n [] true) r q in
        (
          sym (ap (λ (x : MergeResult). x.conflicts) e) ∙ result-conflicts n [] true,
          sym (ap (λ (x : MergeResult). x.success) e) ∙ result-succeeds n [] true,
        )
  ]

  pub carried-row :
      (pl : Plan) (db db' : Db) (t : EntityType) (id : Text)
      → lookup ours.db_path files ≡ some db
      → lookup ours.db_path (carried pl).1 ≡ some db'
      → names t id pl.0 ≡ false
      → row t id db' ≡ row t id db
  carried-row (changes, c ∷ cs) db db' t id o o' n = ap (row t id) (
      some-eq db' db (sym o' ∙ ap (λ x. lookup ours.db_path x.1) (carry_out-open changes c cs) ∙ o))
  carried-row (changes, []) db db' t id o o' n =
      let q = carry_out-applied changes db (open_db-some ours.db_path files db o) in
      let written = (apply_batch sql p changes db).1 in
      let here = some-eq db' written (
        sym o'
        ∙ ap (λ x. lookup ours.db_path x.1) q
        ∙ lookup-put ours.db_path ours.db_path written files
        ∙ rw text_eq_refl refl) in
      ap (row t id) here ∙ elim (Result-cases (apply_batch sql p changes db).0) [
        | inl (k, e) ↦ (apply_batch-writes sql p changes db k e).1 t id n
        | inr (e, h) ↦ ap (row t id) ((apply_batch-atomic sql p changes db).1 (rw h refl))
      ]

  pub carried-other :
      (pl : Plan) (path : Text)
      → path ≢ ours.db_path
      → lookup path (carried pl).1 ≡ lookup path files
  carried-other (changes, c ∷ cs) path n = ap (λ x. lookup path x.1) (carry_out-open changes c cs)
  carried-other (changes, []) path n = elim (Result-cases (open_db ours.db_path files)) [
    | inr (e, o) ↦ ap (λ x. lookup path x.1) (carry_out-missing changes e o)
    | inl (db, o) ↦
        ap (λ x. lookup path x.1) (carry_out-applied changes db o)
        ∙ lookup-put path ours.db_path (apply_batch sql p changes db).1 files
        ∙ elim (Bool-cases (text_eq path ours.db_path)) [
          | inl e ↦ absurd (n (text_eq→≡ path ours.db_path e))
          | inr e ↦ rw e refl
        ]
  ]
