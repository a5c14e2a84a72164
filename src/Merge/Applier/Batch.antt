-- ===== src/Merge/Applier/Batch.antt =====
-- merge/applier.rs: what a batch writes, counts and leaves alone.
use claw_branch.Shared.{
  subst, codes, is_empty, ℕ, suc, ◌+◌, Text, text_eq, Bool, true, false, ◌&&◌, ◌||◌, Option, List,
  [], ◌∷◌, if◌then◌else◌, Dict, lookup, put, remove, lookup-put, lookup-remove, ◌≡◌, ◌⊎◌, refl, sym,
  ap, ◌∙◌, arith, Bool-cases, inl, inr, ⊎_elim,
}
use claw_branch.Failure.{
  BranchResult, BranchError, ok, err, ◌>>=◌, database, branch_limit_exceeded, is_err, ok-eq, ok-eq,
}
use claw_branch.Json.{Value, null, bool, number, string, array, object}
use claw_branch.Types.{
  EntityType, type_eq, DiffKind, added, removed, modified, unchanged, EntityDiff,
}
use claw_branch.Database.{
  Sqlite, Printer, Db, table, set_table, insert_or_replace, delete_row, upsert_entity, upsert_row,
  known, stored,
}
use claw_branch.Merge.Resolver.{use_ours, use_theirs, escalate, merged}
use claw_branch.Merge.Applier.{
  reconstruct_from_field_diffs, Change, apply_value, apply_loop, commit_or_rollback, apply_batch,
}

-- The row of an entity.
abbrev pub row : EntityType → Text → Db → Option Value
row t id db = lookup id (table t db)

-- Whether a write to `t'`, `id'` is a write to `t`, `id`.
abbrev pub same_entity : EntityType → Text → EntityType → Text → Bool
same_entity t id t' id' = type_eq t t' && text_eq id id'

table-set_table :
    (t t' : EntityType) (m : Dict Value) (db : Db)
    → table t (set_table t' m db) ≡ (if type_eq t t' then m else table t db)
unfolding table set_table
table-set_table t t' m db = ground arith

pub type_eq→≡ : (t t' : EntityType) → type_eq t t' ≡ true → t ≡ t'
type_eq→≡ t t' h = ground arith

set_table-row :
    (t t' : EntityType) (id : Text) (m : Dict Value) (db : Db)
    → (lookup id m ≡ row t' id db) ⊎ (type_eq t t' ≡ false)
    → row t id (set_table t' m db) ≡ row t id db
set_table-row t t' id m db h = elim (Bool-cases (type_eq t t')) [
  | inl e ↦
      ap (lookup id) (table-set_table t t' m db ∙ rw e refl)
      ∙ ⊎_elim (λ p. p ∙ ap (λ s. row s id db) (sym (type_eq→≡ t t' e))) (λ q. cc (q, e)) h
  | inr e ↦ ap (lookup id) (table-set_table t t' m db ∙ rw e refl)
]

other_row :
    (t t' : EntityType) (id id' : Text)
    → same_entity t id t' id' ≡ false
    → (text_eq id id' ≡ false) ⊎ (type_eq t t' ≡ false)
other_row t t' id id' h = ground arith

-- A table's `put` and `remove` leave every other entity's row alone.
put-row :
    (t t' : EntityType) (id id' : Text) (v : Value) (db : Db)
    → same_entity t id t' id' ≡ false
    → row t id (set_table t' (put id' v (table t' db)) db) ≡ row t id db
put-row t t' id id' v db n = set_table-row t t' id (put id' v (table t' db)) db (
    ⊎_elim (λ e. inl (lookup-put id id' v (table t' db) ∙ rw e refl)) inr (other_row t t' id id' n))

remove-row :
    (t t' : EntityType) (id id' : Text) (db : Db)
    → same_entity t id t' id' ≡ false
    → row t id (set_table t' (remove id' (table t' db)) db) ≡ row t id db
remove-row t t' id id' db n = set_table-row t t' id (remove id' (table t' db)) db (
    ⊎_elim (λ e. inl (lookup-remove id id' (table t' db) ∙ rw e refl)) inr
      (other_row t t' id id' n))

-- A write that is guarded: it happened, or it failed.
if-row :
    (b : Bool) (x db db' : Db) (e : BranchError) (t : EntityType) (id : Text)
    → (if b then ok x else err e) ≡ ok db'
    → row t id x ≡ row t id db
    → row t id db' ≡ row t id db
if-row true x db db' e t id h same = subst (λ d. row t id d ≡ row t id db) (ok-eq x db' h) same
if-row false x db db' e t id h same = cc

unless-row :
    (b : Bool) (x db db' : Db) (e : BranchError) (t : EntityType) (id : Text)
    → (if b then err e else ok x) ≡ ok db'
    → row t id x ≡ row t id db
    → row t id db' ≡ row t id db
unless-row true x db db' e t id h same = cc
unless-row false x db db' e t id h same = if-row true x db db' e t id h same

module _ (sql : Sqlite) (p : Printer) (t : EntityType) (id : Text) where
  delete_row-row :
      (t' : EntityType) (id' : Text) (db db' : Db)
      → same_entity t id t' id' ≡ false
      → delete_row sql t' id' db ≡ ok db'
      → row t id db' ≡ row t id db
  unfolding delete_row
  delete_row-row t' id' db db' n h =
      unless-row (is_empty (sql.columns t')) (set_table t' (remove id' (table t' db)) db) db db'
        (database (codes "no such table")) t id h (remove-row t t' id id' db n)

  pub upsert_entity-row :
      (t' : EntityType) (id' : Text) (v : Value) (db db' : Db)
      → same_entity t id t' id' ≡ false
      → upsert_entity sql p t' id' v db ≡ ok db'
      → row t id db' ≡ row t id db
  unfolding upsert_entity insert_or_replace
  upsert_entity-row t' id' null db db' n h = if-row true db db db' branch_limit_exceeded t id h refl
  upsert_entity-row t' id' (bool _) db db' n h =
      if-row true db db db' branch_limit_exceeded t id h refl
  upsert_entity-row t' id' (number _) db db' n h =
      if-row true db db db' branch_limit_exceeded t id h refl
  upsert_entity-row t' id' (string _) db db' n h =
      if-row true db db db' branch_limit_exceeded t id h refl
  upsert_entity-row t' id' (array _) db db' n h =
      if-row true db db db' branch_limit_exceeded t id h refl
  upsert_entity-row t' id' (object m) db db' n h =
      let r = upsert_row p id' m in
      if-row (known sql t' r && sql.accepts t' r)
        (set_table t' (put id' (object (stored sql t' r (sql.columns t'))) (table t' db)) db) db db'
        (database (codes "insert")) t id h
        (put-row t t' id id' (object (stored sql t' r (sql.columns t'))) db n)

  apply_value-row :
      (k : DiffKind) (t' : EntityType) (id' : Text) (v : Value) (db db' : Db)
      → same_entity t id t' id' ≡ false
      → apply_value sql p k t' id' v db ≡ ok db'
      → row t id db' ≡ row t id db
  unfolding apply_value
  apply_value-row removed t' id' v db db' n h = delete_row-row t' id' db db' n h
  apply_value-row added t' id' v db db' n h = upsert_entity-row t' id' v db db' n h
  apply_value-row modified t' id' v db db' n h = upsert_entity-row t' id' v db db' n h
  apply_value-row unchanged t' id' v db db' n h = upsert_entity-row t' id' v db db' n h

-- Whether a change of the list, other than one resolved to ours, names the entity.
abbrev pub names : EntityType → Text → List Change → Bool
names t id [] = false
names t id ((d, use_ours) ∷ cs) = names t id cs
names t id ((d, use_theirs) ∷ cs) = same_entity t id d.entity_type d.entity_id || names t id cs
names t id ((d, escalate) ∷ cs) = same_entity t id d.entity_type d.entity_id || names t id cs
names t id ((d, merged v) ∷ cs) = same_entity t id d.entity_type d.entity_id || names t id cs

-- How many changes of the list are not resolved to ours.
abbrev pub writes : List Change → ℕ
writes [] = 0
writes ((d, use_ours) ∷ cs) = writes cs
writes ((d, use_theirs) ∷ cs) = suc (writes cs)
writes ((d, escalate) ∷ cs) = suc (writes cs)
writes ((d, merged v) ∷ cs) = suc (writes cs)

-- The loop of a batch: what succeeds has counted the changes that are not resolved to ours, and an
-- entity that none of them names keeps its row.
module _ (sql : Sqlite) (p : Printer) where
  abbrev written : EntityDiff → Value → Db → BranchResult Db
  written d v db = apply_value sql p d.diff_kind d.entity_type d.entity_id v db

  and_then :
      (cs : List Change) (n : ℕ) (r : BranchResult Db) (x : ℕ × Db)
      → (r >>= λ db'. apply_loop sql p cs (n + 1) db') ≡ ok x
      → (db' : Db) × (r ≡ ok db') × (apply_loop sql p cs (n + 1) db' ≡ ok x)
  and_then cs n (ok db') x h = (db', refl, h)
  and_then cs n (err e) x h = absurd cc

  apply_loop-count :
      (cs : List Change) (n : ℕ) (db : Db) (x : ℕ × Db)
      → apply_loop sql p cs n db ≡ ok x
      → x.0 ≡ n + writes cs
  unfolding apply_loop
  apply_loop-count [] n db x h = omega (arith, ap (λ (y : ℕ × Db). y.0) (ok-eq (n, db) x h))
  apply_loop-count ((d, use_ours) ∷ cs) n db x h = apply_loop-count cs n db x h
  apply_loop-count ((d, escalate) ∷ cs) n db x h = absurd cc
  apply_loop-count ((d, use_theirs) ∷ cs) n db x h =
      let (db', _, rest) = and_then cs n (written d (reconstruct_from_field_diffs d) db) x h in
      omega (arith, apply_loop-count cs (n + 1) db' x rest)
  apply_loop-count ((d, merged v) ∷ cs) n db x h =
      let (db', _, rest) = and_then cs n (written d v db) x h in
      omega (arith, apply_loop-count cs (n + 1) db' x rest)

  apply_loop-row :
      (t : EntityType) (id : Text) (cs : List Change) (n : ℕ) (db : Db) (x : ℕ × Db)
      → names t id cs ≡ false
      → apply_loop sql p cs n db ≡ ok x
      → row t id x.1 ≡ row t id db
  unfolding apply_loop
  apply_loop-row t id [] n db x q h = ap (λ (y : ℕ × Db). row t id y.1) (sym (ok-eq (n, db) x h))
  apply_loop-row t id ((d, use_ours) ∷ cs) n db x q h = apply_loop-row t id cs n db x q h
  apply_loop-row t id ((d, escalate) ∷ cs) n db x q h = absurd cc
  apply_loop-row t id ((d, use_theirs) ∷ cs) n db x q h =
      let (db', e, rest) = and_then cs n (written d (reconstruct_from_field_diffs d) db) x h in
      apply_loop-row t id cs (n + 1) db' x (ground arith) rest
      ∙ apply_value-row sql p t id d.diff_kind d.entity_type d.entity_id
          (reconstruct_from_field_diffs d) db db' (ground arith) e
  apply_loop-row t id ((d, merged v) ∷ cs) n db x q h =
      let (db', e, rest) = and_then cs n (written d v db) x h in
      apply_loop-row t id cs (n + 1) db' x (ground arith) rest
      ∙ apply_value-row sql p t id d.diff_kind d.entity_type d.entity_id v db db' (ground arith) e

abbrev pub escalates : List Change → Bool
escalates [] = false
escalates ((d, escalate) ∷ cs) = true
escalates ((d, use_ours) ∷ cs) = escalates cs
escalates ((d, use_theirs) ∷ cs) = escalates cs
escalates ((d, merged v) ∷ cs) = escalates cs

module _ (sql : Sqlite) (p : Printer) where
  then-is_err :
      (r : BranchResult Db) (f : Db → BranchResult (ℕ × Db))
      → ((db : Db) → is_err (f db) ≡ true)
      → is_err (r >>= f) ≡ true
  then-is_err (ok db) f h = h db
  then-is_err (err e) f h = refl

  apply_loop-escalates :
      (cs : List Change) (n : ℕ) (db : Db)
      → escalates cs ≡ true
      → is_err (apply_loop sql p cs n db) ≡ true
  unfolding apply_loop
  apply_loop-escalates [] n db h = cc
  apply_loop-escalates ((d, escalate) ∷ cs) n db h = refl
  apply_loop-escalates ((d, use_ours) ∷ cs) n db h = apply_loop-escalates cs n db h
  apply_loop-escalates ((d, use_theirs) ∷ cs) n db h =
      then-is_err (written sql p d (reconstruct_from_field_diffs d) db)
        (λ db'. apply_loop sql p cs (n + 1) db') (λ db'. apply_loop-escalates cs (n + 1) db' h)
  apply_loop-escalates ((d, merged v) ∷ cs) n db h =
      then-is_err (written sql p d v db) (λ db'. apply_loop sql p cs (n + 1) db')
        (λ db'. apply_loop-escalates cs (n + 1) db' h)

  -- What a finished loop says of the batch, whether it is committed or rolled back.
  committed :
      (r : BranchResult (ℕ × Db)) (db : Db) (n : ℕ)
      → (commit_or_rollback r db).0 ≡ ok n
      → (r ≡ ok (n, (commit_or_rollback r db).1))
  unfolding commit_or_rollback
  committed (ok (m, db')) db n h = ap (λ k. ok (k, db')) (ok-eq m n h)
  committed (err e) db n h = absurd cc

  rolled_back :
      (r : BranchResult (ℕ × Db)) (db : Db)
      → (is_err (commit_or_rollback r db).0 ≡ is_err r)
        × (is_err r ≡ true → (commit_or_rollback r db).1 ≡ db)
  unfolding commit_or_rollback
  rolled_back (ok (m, db')) db = (refl, λ h. absurd cc)
  rolled_back (err e) db = (refl, λ h. refl)

-- A batch that succeeds reports how many of its changes are not resolved to ours, and the row of an
-- entity that no other change names is what it was.
pub apply_batch-writes :
    (sql : Sqlite) (p : Printer) (changes : List Change) (db : Db) (n : ℕ)
    → (apply_batch sql p changes db).0 ≡ ok n
    → (n ≡ writes changes)
      × ((t : EntityType) (id : Text)
          → names t id changes ≡ false
          → row t id (apply_batch sql p changes db).1 ≡ row t id db)
unfolding apply_batch
apply_batch-writes sql p changes db n h =
    let e = committed sql p (apply_loop sql p changes 0 db) db n h in
    let x : ℕ × Db = (n, (commit_or_rollback (apply_loop sql p changes 0 db) db).1) in
    (
      omega (arith, apply_loop-count sql p changes 0 db x e),
      λ t id q. apply_loop-row sql p t id changes 0 db x q e,
    )

-- A batch that holds an escalated conflict fails, and a batch that fails, for this or for a write
-- that the database refuses, leaves the database as it was, the changes before the failure included.
pub apply_batch-atomic :
    (sql : Sqlite) (p : Printer) (changes : List Change) (db : Db)
    → (escalates changes ≡ true → is_err (apply_batch sql p changes db).0 ≡ true)
      × (is_err (apply_batch sql p changes db).0 ≡ true → (apply_batch sql p changes db).1 ≡ db)
unfolding apply_batch
apply_batch-atomic sql p changes db =
    let (same, back) = rolled_back sql p (apply_loop sql p changes 0 db) db in
    (λ h. same ∙ apply_loop-escalates sql p changes 0 db h, λ h. back (sym same ∙ h))
