-- ===== src/Gc/Purged.antt =====
-- snapshot/gc.rs: the registry after a run of the garbage collector.
use claw_branch.Shared.{
  ℕ, ◌+◌, Text, Bool, true, false, ◌&&◌, ◌||◌, none, some, List, [], ◌∷◌, any, keep, length, map,
  All, leb, if◌then◌else◌, ◌≡◌, inl, inr, refl, sym, ap, ◌∙◌, arith, Bool-cases, ◌==◌, ==_iff,
  ==_refl, subst, In, ◌<◌, ◌⊎◌,
}
use claw_branch.Failure.{BranchResult, ok, err, ok-eq, ok≢err}
use claw_branch.Types.{
  Uuid, Time, Branch, BranchStatus, active, dormant, merged, discarded, archived, orphan, purged,
}
use claw_branch.Registry.{
  Store, has_id, in_workspace, list, update_status, set_status, branch_from_row, by_created_at,
  order_by_created_at,
}
use claw_branch.Registry.Rows.{status_of, set_status-same, set_status-other}
use claw_branch.Gc.{GcReport, status_expired, should_purge, purge_loop, collect, report}

-- Every branch of the list has a row.
abbrev Present : List Branch → List Branch → Type 0
Present bs rows = All (λ (b : Branch). any (has_id b.id) rows ≡ true) bs

any-set_status :
    (i id : Uuid) (st : BranchStatus) (now : Time) (rows : List Branch)
    → any (has_id i) (set_status id st now rows) ≡ any (has_id i) rows
unfolding set_status
any-set_status i id st now [] = refl
any-set_status i id st now (b ∷ bs) = elim (Bool-cases (b.id == id)) [
  | inl e ↦ rw (e, any-set_status i id st now bs) refl
  | inr e ↦ rw (e, any-set_status i id st now bs) refl
]

Present-set_status :
    (id : Uuid) (st : BranchStatus) (now : Time) (bs rows : List Branch)
    → Present bs rows
    → Present bs (set_status id st now rows)
Present-set_status id st now [] rows h = tt
Present-set_status id st now (b ∷ bs) rows h =
    (any-set_status b.id id st now rows ∙ h.0, Present-set_status id st now bs rows h.1)

updated :
    (id : Uuid) (st : BranchStatus) (now : Time) (s : Store)
    → any (has_id id) s.rows ≡ true
    → update_status id st now s ≡ (ok tt, record s { rows = set_status id st now s.rows })
unfolding update_status
updated id st now s e = rw (e, update_status) refl

-- Whether the list has an expired branch of that id.
abbrev pub expired : Time → Uuid → List Branch → Bool
expired cutoff i bs = any (λ (b : Branch). should_purge cutoff b && (b.id == i)) bs

module _ (size : Text → ℕ) (hash_path : Text → Text) (cutoff now : Time) where
  abbrev after : List Branch → ℕ → ℕ → Store → BranchResult (ℕ × ℕ) × Store
  after = purge_loop size hash_path cutoff now

  abbrev with_purged : Branch → Store → Store
  with_purged b s = record s { rows = set_status b.id purged now s.rows }

  purge_loop-kept :
      (b : Branch) (bs : List Branch) (count bytes : ℕ) (s : Store)
      → should_purge cutoff b ≡ false
      → after (b ∷ bs) count bytes s ≡ after bs count bytes s
  unfolding purge_loop
  purge_loop-kept b bs count bytes s e = rw (e, purge_loop) refl

  purge_loop-purged :
      (b : Branch) (bs : List Branch) (count bytes : ℕ) (s : Store)
      → should_purge cutoff b ≡ true
      → any (has_id b.id) s.rows ≡ true
      → after (b ∷ bs) count bytes s
        ≡ after bs
            (count + 1)
            (bytes + size b.db_path + size (hash_path b.db_path))
            (with_purged b s)
  unfolding purge_loop
  purge_loop-purged b bs count bytes s e h =
      rw (e, h)
        (ap
          (λ (x : BranchResult (Unit {0}) × Store).
            after bs (count + 1) (bytes + size b.db_path + size (hash_path b.db_path)) x.1)
          (updated b.id purged now s h))

  status-step :
      (i : Uuid) (b : Branch) (bs : List Branch) (s : Store)
      → any (has_id b.id) s.rows ≡ true
      → (if expired cutoff i bs then some purged else status_of i (with_purged b s))
        ≡ (if (b.id == i) || expired cutoff i bs then some purged else status_of i s)
  status-step i b bs s h = elim (Bool-cases (b.id == i)) [
    | inl e ↦
        let same : status_of i (with_purged b s) ≡ some purged =
          subst (λ j. status_of j (with_purged b s) ≡ some purged) ((==_iff b.id i).0 e)
            (set_status-same b.id purged now s.rows h) in
        rw (e, same) (ground arith)
    | inr e ↦
        rw
          (
            e,
            set_status-other i b.id purged now s.rows
                (λ q. cc (ap (λ j. b.id == j) q, e, ==_refl b.id)),
          )
          refl
  ]

  -- What the loop owes: a result, its counter, and the statuses.
  abbrev Purges : List Branch → ℕ → Store → BranchResult (ℕ × ℕ) × Store → Type 0
  Purges bs count s out =
      (bytes : ℕ) × (out.0 ≡ ok (count + length (keep (should_purge cutoff) bs), bytes))
      × ((i : Uuid)
          → status_of i out.1 ≡ (if expired cutoff i bs then some purged else status_of i s))

  purge_loop-Purges :
      (bs : List Branch) (count bytes : ℕ) (s : Store)
      → Present bs s.rows
      → Purges bs count s (after bs count bytes s)
  unfolding purge_loop
  purge_loop-Purges [] count bytes s h = (bytes, ap (λ n. ok (n, bytes)) (omega arith), λ i. refl)
  purge_loop-Purges (b ∷ bs) count bytes s h = elim (Bool-cases (should_purge cutoff b)) [
    | inr e ↦ rw e (purge_loop-Purges bs count bytes s h.1)
    | inl e ↦
        let s' = with_purged b s in
        let eq = purge_loop-purged b bs count bytes s e h.0 in
        let (by, r, st) =
          purge_loop-Purges bs (count + 1) (bytes + size b.db_path + size (hash_path b.db_path)) s'
            (Present-set_status b.id purged now bs s.rows h.1) in
        (
          by,
          ap (λ (x : BranchResult (ℕ × ℕ) × Store). x.0) eq
              ∙ r
              ∙ ap (λ n. ok (n, by)) (rw e (omega arith)),
          λ i.
              ap (λ (x : BranchResult (ℕ × ℕ) × Store). status_of i x.1) eq
              ∙ st i
              ∙ rw e (status-step i b bs s h.0),
        )
  ]

module _ (rows : List Branch) where
  abbrev There : Branch → Type 0
  There b = any (has_id b.id) rows ≡ true

  There-keep : (q : Branch → Bool) (bs : List Branch) → All There bs → All There (keep q bs)
  There-keep q [] h = tt
  There-keep q (b ∷ bs) h = elim (Bool-cases (q b)) [
    | inl e ↦ rw e (h.0, There-keep q bs h.1)
    | inr e ↦ rw e (There-keep q bs h.1)
  ]

  There-by_created_at :
      (b : Branch) (bs : List Branch) → There b → All There bs → All There (by_created_at b bs)
  unfolding by_created_at
  There-by_created_at b [] t h = (t, tt)
  There-by_created_at b (c ∷ cs) t h = elim (Bool-cases (leb b.created_at c.created_at)) [
    | inl e ↦ rw e (t, h)
    | inr e ↦ rw e (h.0, There-by_created_at b cs t h.1)
  ]

  There-order_by_created_at : (bs : List Branch) → All There bs → All There (order_by_created_at bs)
  unfolding order_by_created_at
  There-order_by_created_at [] h = tt
  There-order_by_created_at (b ∷ bs) h =
      There-by_created_at b (order_by_created_at bs) h.0 (There-order_by_created_at bs h.1)

  There-branch_from_row :
      (s : Store) (bs : List Branch) → All There bs → All There (map (branch_from_row s) bs)
  unfolding branch_from_row
  There-branch_from_row s [] h = tt
  There-branch_from_row s (b ∷ bs) h = (h.0, There-branch_from_row s bs h.1)

There-cons : (b : Branch) (rows bs : List Branch) → All (There rows) bs → All (There (b ∷ rows)) bs
There-cons b rows [] h = tt
There-cons b rows (c ∷ cs) h = (ground (arith, h.0), There-cons b rows cs h.1)

There-rows : (rows : List Branch) → All (There rows) rows
There-rows [] = tt
There-rows (b ∷ bs) = (rw (==_refl b.id) refl, There-cons b bs bs (There-rows bs))

Present-list : (s : Store) (w : Uuid) → Present (list s w none) s.rows
unfolding list
Present-list s w =
    There-branch_from_row s.rows s (order_by_created_at (keep (in_workspace w) s.rows)) (
      There-order_by_created_at s.rows (keep (in_workspace w) s.rows)
        (There-keep s.rows (in_workspace w) s.rows (There-rows s.rows)))

module _ (size : Text → ℕ) (hash_path : Text → Text) (cutoff now : Time) (elapsed : ℕ) where
  report-store :
      (out : BranchResult (ℕ × ℕ) × Store)
      → (report size hash_path cutoff now elapsed out).1 ≡ out.1
  report-store (ok (n, bytes), s) = refl
  report-store (err e, s) = refl

  report-ok :
      (out : BranchResult (ℕ × ℕ) × Store) (n bytes : ℕ)
      → out.0 ≡ ok (n, bytes)
      → (report size hash_path cutoff now elapsed out).0
        ≡ ok (record { branches_purged = n; bytes_freed = bytes; duration_ms = elapsed })
  report-ok (ok (m, b), s) n bytes h =
      ap
        (λ (x : ℕ × ℕ).
          ok (record { branches_purged = x.0; bytes_freed = x.1; duration_ms = elapsed }))
        (ok-eq (m, b) (n, bytes) h)
  report-ok (err e, s) n bytes h = absurd (ok≢err (n, bytes) e (sym h))

-- The report, and the statuses after a run.
collect-purged :
    (size : Text → ℕ) (hash_path : Text → Text) (cutoff now : Time) (w : Uuid) (elapsed : ℕ)
    (s : Store)
    → (r : GcReport) × ((collect size hash_path cutoff now w elapsed s).0 ≡ ok r)
      × (r.branches_purged ≡ length (keep (should_purge cutoff) (list s w none)))
      × ((i : Uuid)
          → status_of i (collect size hash_path cutoff now w elapsed s).1
            ≡ (if expired cutoff i (list s w none) then some purged else status_of i s))
unfolding collect
collect-purged size hash_path cutoff now w elapsed s =
    let (bytes, r, st) =
      purge_loop-Purges size hash_path cutoff now (list s w none) 0 0 s (Present-list s w) in
    let out = after size hash_path cutoff now (list s w none) 0 0 s in
    let n = length (keep (should_purge cutoff) (list s w none)) in
    (
      record { branches_purged = n; bytes_freed = bytes; duration_ms = elapsed },
      report-ok size hash_path cutoff now elapsed out n bytes
          (r ∙ ap (λ k. ok (k, bytes)) (omega arith)),
      refl,
      λ i. ap (status_of i) (report-store size hash_path cutoff now elapsed out) ∙ st i,
    )

-- A branch that was discarded before the cutoff, or is an orphan last updated before it.
abbrev pub Expired : Time → Branch → Type 0
Expired cutoff b =
    ((at : Time) × (b.status ≡ discarded at) × (at < cutoff))
    ⊎ ((b.status ≡ orphan) × (b.updated_at < cutoff))

-- As many members of a list satisfy a predicate.
abbrev pub Numbers : (Branch → Type 0) → List Branch → ℕ → Type 0
Numbers P [] n = n ≡ 0
Numbers P (b ∷ bs) n = (P b × (m : ℕ) × (n ≡ m + 1) × Numbers P bs m) ⊎ ((¬ P b) × Numbers P bs n)

status-Expired :
    (cutoff updated_at : Time) (st : BranchStatus)
    → status_expired st updated_at cutoff ≡ true
    → ((at : Time) × (st ≡ discarded at) × (at < cutoff)) ⊎ ((st ≡ orphan) × (updated_at < cutoff))
status-Expired cutoff u (discarded at) h = inl (at, refl, ground arith)
status-Expired cutoff u orphan h = inr (refl, ground arith)
status-Expired cutoff u active h = cc
status-Expired cutoff u dormant h = cc
status-Expired cutoff u (merged i t) h = cc
status-Expired cutoff u archived h = cc
status-Expired cutoff u purged h = cc

should_purge-Expired :
    (cutoff : Time) (b : Branch) → should_purge cutoff b ≡ true → Expired cutoff b
unfolding should_purge
should_purge-Expired cutoff b h = status-Expired cutoff b.updated_at b.status h

Expired-should_purge :
    (cutoff : Time) (b : Branch) → Expired cutoff b → should_purge cutoff b ≡ true
unfolding should_purge
Expired-should_purge cutoff b (inl (at, e, l)) = rw e (ground arith)
Expired-should_purge cutoff b (inr (e, l)) = rw e (ground arith)

keep-Numbers :
    (cutoff : Time) (bs : List Branch)
    → Numbers (Expired cutoff) bs (length (keep (should_purge cutoff) bs))
keep-Numbers cutoff [] = refl
keep-Numbers cutoff (b ∷ bs) = elim (Bool-cases (should_purge cutoff b)) [
  | inl e ↦ inl (
    should_purge-Expired cutoff b e,
    length (keep (should_purge cutoff) bs),
    rw e (omega arith),
    keep-Numbers cutoff bs,
  )
  | inr e ↦ inr (
    λ x. cc (e, Expired-should_purge cutoff b x),
    subst (λ (l : List Branch). Numbers (Expired cutoff) bs (length l)) (rw e refl)
        (keep-Numbers cutoff bs),
  )
]

-- A listed branch that is expired is found, and one that is found is listed.
expired-In :
    (cutoff : Time) (b : Branch) (bs : List Branch)
    → In b bs
    → Expired cutoff b
    → expired cutoff b.id bs ≡ true
expired-In cutoff b [] i x = absurd i
expired-In cutoff b (c ∷ cs) (inl e) x =
    rw
      (
        ap (should_purge cutoff) (sym e) ∙ Expired-should_purge cutoff b x,
        ap (λ (d : Branch). d.id == b.id) (sym e) ∙ ==_refl b.id,
      )
      refl
expired-In cutoff b (c ∷ cs) (inr i) x = ground (arith, expired-In cutoff b cs i x)

none_expired :
    (cutoff : Time) (i : Uuid) (bs : List Branch)
    → ((b : Branch) → In b bs → b.id ≡ i → ¬ Expired cutoff b)
    → expired cutoff i bs ≡ false
none_expired cutoff i [] h = refl
none_expired cutoff i (b ∷ bs) h =
    let rest = none_expired cutoff i bs (λ c j. h c (inr j)) in
    elim (Bool-cases (should_purge cutoff b && (b.id == i))) [
      | inr e ↦ rw e rest
      | inl e ↦ absurd (
          h b (inl refl) (ground (arith, ==_iff b.id i))
            (should_purge-Expired cutoff b (ground arith)))
    ]

-- A run of the collector always reports: as many purged branches as the workspace has ones that were
-- discarded before the cutoff, or are orphans last updated before it. Afterwards these are purged,
-- and every other branch has the status that it had.
pub collect_lem :
    (size : Text → ℕ) (hash_path : Text → Text) (cutoff now : Time) (w : Uuid) (elapsed : ℕ)
    (s : Store)
    → (r : GcReport) × ((collect size hash_path cutoff now w elapsed s).0 ≡ ok r)
      × Numbers (Expired cutoff) (list s w none) r.branches_purged
      × ((b : Branch)
          → In b (list s w none)
          → Expired cutoff b
          → status_of b.id (collect size hash_path cutoff now w elapsed s).1 ≡ some purged)
      × ((i : Uuid)
          → ((b : Branch) → In b (list s w none) → b.id ≡ i → ¬ Expired cutoff b)
          → status_of i (collect size hash_path cutoff now w elapsed s).1 ≡ status_of i s)
collect_lem size hash_path cutoff now w elapsed s =
    let (r, done, count, st) = collect-purged size hash_path cutoff now w elapsed s in
    (
      r,
      done,
      subst (Numbers (Expired cutoff) (list s w none)) (sym count)
          (keep-Numbers cutoff (list s w none)),
      λ b i x. st b.id ∙ rw (expired-In cutoff b (list s w none) i x) refl,
      λ i h. st i ∙ rw (none_expired cutoff i (list s w none) h) refl,
    )
