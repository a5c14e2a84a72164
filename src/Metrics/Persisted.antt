-- ===== src/Metrics/Persisted.antt =====
-- The counters of a branch after an operation was tracked.
use claw_branch.Shared.{
  ℕ, ◌+◌, Text, subst, Bool, true, ◌&&◌, Bool-cases, some, Option-cases, List, [], ◌∷◌, ◌≡◌, ◌≢◌,
  refl, sym, ap, ◌∙◌, inl, inr, ◌==◌, ==_iff, ==_refl, arith,
}
use claw_branch.Failure.{BranchResult, ok, ok-eq, ok≢err, branch_not_found}
use claw_branch.Types.{Uuid, Time, Branch, BranchMetrics}
use claw_branch.Floats.{Floats}
use claw_branch.Database.{Sqlite}
use claw_branch.Registry.{
  Store, get, find, metrics_of, upsert_metrics, update_metrics, branch_from_row,
}
use claw_branch.Lifecycle.{Settings}
use claw_branch.Commit.Whole.{get-has_id}
use claw_branch.Metrics.{OpKind, insertion, update, deletion, tracked, track_op}

metrics_of-upsert_metrics :
    (id : Uuid) (m : BranchMetrics) (ms : List (Uuid × BranchMetrics))
    → metrics_of id (upsert_metrics id m ms) ≡ m
unfolding metrics_of upsert_metrics
metrics_of-upsert_metrics id m [] = rw (==_refl id) refl
metrics_of-upsert_metrics id m ((i, n) ∷ ms) = elim (Bool-cases (id == i)) [
  | inl e ↦ rw (upsert_metrics, e, metrics_of, e) refl
  | inr e ↦ rw (upsert_metrics, e, metrics_of, e) (metrics_of-upsert_metrics id m ms)
]

metrics_of-other :
    (id j : Uuid) (m : BranchMetrics) (ms : List (Uuid × BranchMetrics))
    → j ≢ id
    → metrics_of j (upsert_metrics id m ms) ≡ metrics_of j ms
unfolding metrics_of upsert_metrics
metrics_of-other id j m [] n = ground (arith, ==_iff j id)
metrics_of-other id j m ((i, k) ∷ ms) n = elim (Bool-cases (id == i)) [
  | inl e ↦ rw (upsert_metrics, e) (ground (arith, ==_iff j i, ==_iff id i))
  | inr e ↦
      rw (upsert_metrics, e)
        (elim (Bool-cases (j == i)) [
          | inl q ↦ rw (metrics_of, q) refl
          | inr q ↦ rw (metrics_of, q) (metrics_of-other id j m ms n)
        ])
]

abbrev with_metrics : Uuid → BranchMetrics → Store → Store
with_metrics id m s = record s { metrics_rows = upsert_metrics id m s.metrics_rows }

find-true : (q : Branch → Bool) (bs : List Branch) (c : Branch) → find q bs ≡ some c → q c ≡ true
find-true q [] c h = absurd cc
find-true q (b ∷ bs) c h = elim (Bool-cases (q b)) [
  | inl e ↦ subst (λ x. q x ≡ true) (some-eq b c (rw e at h)) e
  | inr e ↦ find-true q bs c (rw e at h)
]
  where
    some-eq : (x y : Branch) → some x ≡ some y → x ≡ y
    some-eq x y z = cc

-- The row that `get` reads, or none for an error.
get-row :
    (s : Store) (w id : Uuid) (b : Branch)
    → get s w id ≡ ok b
    → (c : Branch) × (find (λ (x : Branch). (x.workspace_id == w) && (x.id == id)) s.rows ≡ some c)
      × (c.id ≡ id)
      × (b ≡ branch_from_row s c)
unfolding get
get-row s w id b h =
    elim (Option-cases (find (λ (x : Branch). (x.workspace_id == w) && (x.id == id)) s.rows)) [
      | inl e ↦ absurd (ok≢err b (branch_not_found id) (sym (rw (get, e) at h)))
      | inr (c, e) ↦ (
        c,
        e,
        own_id c (find-true (λ (x : Branch). (x.workspace_id == w) && (x.id == id)) s.rows c e),
        sym (ok-eq (branch_from_row s c) b (rw (get, e) at h)),
      )
    ]
  where
    own_id : (c : Branch) → ((c.workspace_id == w) && (c.id == id)) ≡ true → c.id ≡ id
    own_id c z = ground (arith, ==_iff c.id id)

get-own :
    (s : Store) (w id : Uuid) (b : Branch) (m : BranchMetrics)
    → get s w id ≡ ok b
    → get (with_metrics id m s) w id ≡ ok (record b { metrics = m })
unfolding get branch_from_row
get-own s w id b m h =
    let (c, e, same, from) = get-row s w id b h in
    rw (get, e)
      (ap (λ (k : BranchMetrics). ok (record c { metrics = k }))
          (ap (λ j. metrics_of j (upsert_metrics id m s.metrics_rows)) same
            ∙ metrics_of-upsert_metrics id m s.metrics_rows)
        ∙ ap (λ (x : Branch). ok (record x { metrics = m })) (sym from))

get-other :
    (s : Store) (w id j : Uuid) (m : BranchMetrics)
    → j ≢ id
    → get (with_metrics id m s) w j ≡ get s w j
unfolding get branch_from_row
get-other s w id j m n =
    elim (Option-cases (find (λ (x : Branch). (x.workspace_id == w) && (x.id == j)) s.rows)) [
      | inl e ↦ rw (get, e) refl
      | inr (c, e) ↦
          let q = find-true (λ (x : Branch). (x.workspace_id == w) && (x.id == j)) s.rows c e in
          rw (get, e)
            (ap (λ (k : BranchMetrics). ok (record c { metrics = k }))
              (metrics_of-other id c.id m s.metrics_rows (λ z. n (own_id c q ∙ z))))
    ]
  where
    own_id : (c : Branch) → ((c.workspace_id == w) && (c.id == j)) ≡ true → j ≡ c.id
    own_id c z = ground (arith, ==_iff c.id j)

-- By how much a kind of operation raises the counters of created, updated and deleted entities.
abbrev pub created_by : OpKind → ℕ
created_by insertion = 1
created_by update = 0
created_by deletion = 0

abbrev pub updated_by : OpKind → ℕ
updated_by insertion = 0
updated_by update = 1
updated_by deletion = 0

abbrev pub deleted_by : OpKind → ℕ
deleted_by insertion = 0
deleted_by update = 0
deleted_by deletion = 1

-- The metrics after an operation: what has changed, and what has not.
pub record IsTracked (now : Time) (k : OpKind) (m n : BranchMetrics) : Type 0 where
  pub one_more : n.op_count ≡ m.op_count + 1
  pub active_now : n.last_activity_at ≡ some now
  pub created : n.created_entity_count ≡ m.created_entity_count + created_by k
  pub updated : n.updated_entity_count ≡ m.updated_entity_count + updated_by k
  pub deleted : n.deleted_entity_count ≡ m.deleted_entity_count + deleted_by k
  pub same_records : n.memory_record_count ≡ m.memory_record_count
  pub same_sessions : n.session_count ≡ m.session_count
  pub same_outputs : n.tool_output_count ≡ m.tool_output_count
  pub same_bytes : n.bytes_on_disk ≡ m.bytes_on_disk
  pub same_score : n.divergence_score ≡ m.divergence_score

tracked-IsTracked :
    (sql : Sqlite) (f : Floats) (cfg : Settings) (now : Time) (file_len : Text → ℕ) (k : OpKind)
    (m : BranchMetrics)
    → IsTracked now k m (tracked sql f cfg now file_len k m)
unfolding tracked
tracked-IsTracked sql f cfg now file_len insertion m = record {
  one_more = refl;
  active_now = refl;
  created = refl;
  updated = omega arith;
  deleted = omega arith;
  same_records = refl;
  same_sessions = refl;
  same_outputs = refl;
  same_bytes = refl;
  same_score = refl;
}
tracked-IsTracked sql f cfg now file_len update m = record {
  one_more = refl;
  active_now = refl;
  created = omega arith;
  updated = refl;
  deleted = omega arith;
  same_records = refl;
  same_sessions = refl;
  same_outputs = refl;
  same_bytes = refl;
  same_score = refl;
}
tracked-IsTracked sql f cfg now file_len deletion m = record {
  one_more = refl;
  active_now = refl;
  created = omega arith;
  updated = omega arith;
  deleted = refl;
  same_records = refl;
  same_sessions = refl;
  same_outputs = refl;
  same_bytes = refl;
  same_score = refl;
}

-- An operation that is tracked on a branch of the workspace succeeds: the branch then reads with one
-- operation more, the time as its last activity, the counter of the operation's kind raised by one
-- and all else as it was, and every other branch reads as before.
pub track_op-get :
    (sql : Sqlite) (f : Floats) (cfg : Settings) (now : Time) (file_len : Text → ℕ) (id : Uuid)
    (k : OpKind) (s : Store) (b : Branch)
    → get s cfg.workspace_id id ≡ ok b
    → ((track_op sql f cfg now file_len id k s).0 ≡ ok tt)
      × ((n : BranchMetrics) × IsTracked now k b.metrics n
          × (get (track_op sql f cfg now file_len id k s).1 cfg.workspace_id id
              ≡ ok (record b { metrics = n })))
      × ((j : Uuid)
          → j ≢ id
          → get (track_op sql f cfg now file_len id k s).1 cfg.workspace_id j
            ≡ get s cfg.workspace_id j)
unfolding track_op update_metrics
track_op-get sql f cfg now file_len id k s b h =
    let m = tracked sql f cfg now file_len k b.metrics in
    let done : track_op sql f cfg now file_len id k s ≡ (ok tt, with_metrics id m s) =
      rw (track_op, h, update_metrics, get-has_id s cfg.workspace_id id b h) refl in
    (
      ap (λ (r : BranchResult (Unit {0}) × Store). r.0) done,
      (
        m,
        tracked-IsTracked sql f cfg now file_len k b.metrics,
        ap (λ (r : BranchResult (Unit {0}) × Store). get r.1 cfg.workspace_id id) done
            ∙ get-own s cfg.workspace_id id b m h,
      ),
      λ j n.
          ap (λ (r : BranchResult (Unit {0}) × Store). get r.1 cfg.workspace_id j) done
          ∙ get-other s cfg.workspace_id id j m n,
    )
