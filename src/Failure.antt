-- ===== src/Failure.antt =====
-- error.rs: the errors of the crate, its result type, and the tests that group them.
-- A wrapped third-party error (sqlx, std::io, serde_json, the migrator) is kept as its message.
use claw_branch.Shared.{◌≢◌, ℕ, Text, Bool, true, false, List, ◌≡◌, refl, ◌⊎◌, inl, inr}

pub data BranchError : Type 0 where
  invalid_config permission_denied invalid_branch_name : Text → BranchError
  workspace_isolation_violation : (expected found : ℕ) → BranchError
  branch_limit_exceeded : BranchError
  database migration io serialization : Text → BranchError
  branch_not_found : ℕ → BranchError
  branch_already_exists : Text → BranchError
  branch_not_active : (id : ℕ) (status : Text) → BranchError
  snapshot_failed : (branch_id : ℕ) (reason : Text) → BranchError
  snapshot_corrupt snapshot_hash_missing : (branch_id : ℕ) (path : Text) → BranchError
  merge_conflict_unresolved : (entity_ids : List Text) → BranchError
  merge_incompatible_base : (ours theirs : ℕ) (reason : Text) → BranchError
  dag_cycle cycle_detected : (from to : ℕ) → BranchError
  dag_node_not_found : ℕ → BranchError
  diff_failed : (branch_a branch_b : ℕ) (reason : Text) → BranchError
  commit_validation_failed : (branch_id : ℕ) (violations : List Text) → BranchError
  sandbox_error metrics_error naming_error orphaned_snapshot : Text → BranchError

-- `BranchResult<T>`.
pub data BranchResult {ℓ} (A : Type ℓ) : Type ℓ where
  ok : A → BranchResult A
  err : BranchError → BranchResult A

-- The `?` operator.
infixl 5 ◌>>=◌ ◌>>◌
abbrev pub ◌>>=◌ {ℓ κ} :
    {A : Type ℓ} {B : Type κ} → BranchResult A → (A → BranchResult B) → BranchResult B
ok a >>= f = f a
err e >>= f = err e

abbrev pub ◌>>◌ {ℓ} : {B : Type ℓ} → BranchResult (Unit {0}) → BranchResult B → BranchResult B
m >> k = m >>= λ _. k

-- `if bad { return Err(e) }`
abbrev pub refuse_if : Bool → BranchError → BranchResult (Unit {0})
refuse_if true e = err e
refuse_if false e = ok tt

abbrev pub is_err {ℓ} : {A : Type ℓ} → BranchResult A → Bool
is_err (ok a) = false
is_err (err e) = true

unfoldable pub is_not_found : BranchError → Bool
is_not_found (branch_not_found _) = true
is_not_found (dag_node_not_found _) = true
is_not_found _ = false

unfoldable pub is_merge_conflict : BranchError → Bool
is_merge_conflict (merge_conflict_unresolved _) = true
is_merge_conflict (merge_incompatible_base _ _ _) = true
is_merge_conflict _ = false

unfoldable pub is_snapshot_error : BranchError → Bool
is_snapshot_error (snapshot_failed _ _) = true
is_snapshot_error (snapshot_corrupt _ _) = true
is_snapshot_error (snapshot_hash_missing _ _) = true
is_snapshot_error (orphaned_snapshot _) = true
is_snapshot_error _ = false

unfoldable pub is_dag_error : BranchError → Bool
is_dag_error (dag_cycle _ _) = true
is_dag_error (cycle_detected _ _) = true
is_dag_error (dag_node_not_found _) = true
is_dag_error _ = false

pub Result-cases {ℓ} :
    {A : Type ℓ} (r : BranchResult A) → ((a : A) × (r ≡ ok a)) ⊎ ((e : BranchError) × (r ≡ err e))
Result-cases (ok a) = inl (a, refl)
Result-cases (err e) = inr (e, refl)

pub ok-eq {ℓ} : {A : Type ℓ} (a b : A) → ok a ≡ ok b → a ≡ b
ok-eq a b h = cc

pub err-eq {ℓ} :
    {A : Type ℓ} (r : BranchResult A) (d e : BranchError) → r ≡ err d → r ≡ err e → d ≡ e
err-eq r d e p q = cc

pub ok≢err {ℓ} : {A : Type ℓ} (a : A) (e : BranchError) → ok a ≢ err e
ok≢err a e h = cc

-- A chain that succeeds has succeeded at its first link.
pub then-ok {ℓ κ} :
    {A : Type ℓ} {B : Type κ} (r : BranchResult A) (f : A → BranchResult B) (b : B)
    → (r >>= f) ≡ ok b
    → (a : A) × (r ≡ ok a) × (f a ≡ ok b)
then-ok (ok a) f b h = (a, refl, h)
then-ok (err e) f b h = absurd cc
