-- ===== src/Registry/Unique.antt =====
-- branch/store.rs: the constraints on the table of branches.
use claw_branch.Shared.{
  Bool, true, false, not, ◌&&◌, List, [], ◌∷◌, ◌++◌, any, keep, All, if◌then◌else◌, ◌≡◌, ◌⊎◌, inl,
  inr, ⊎_elim, refl, sym, ◌∙◌, arith, Bool-cases, In, Distinct, ◌==◌, ==_iff, text_eq_iff, ◌≢◌,
  subst,
}
use claw_branch.Types.{Uuid, Time, Branch, BranchStatus, BranchMetrics, CommitLogEntry}
use claw_branch.Registry.{
  Store, has_id, insert, violates_unique, update_metrics, set_status, update_status, delete,
}
use claw_branch.Registry.Rows.{ids, UniqueIds}

-- No row has the id of an earlier one, nor its slug in the same workspace.
abbrev pub UniqueRows : List Branch → Type 0
UniqueRows [] = Unit
UniqueRows (b ∷ bs) = All (λ c. violates_unique c b ≡ false) bs × UniqueRows bs

All-snoc :
    (b c : Branch) (bs : List Branch)
    → All (λ d. violates_unique d b ≡ false) bs
    → violates_unique c b ≡ false
    → All (λ d. violates_unique d b ≡ false) (bs ++ c ∷ [])
All-snoc b c [] h k = (k, tt)
All-snoc b c (d ∷ ds) h k = (h.0, All-snoc b c ds h.1 k)

UniqueRows-snoc :
    (c : Branch) (bs : List Branch)
    → UniqueRows bs
    → any (violates_unique c) bs ≡ false
    → UniqueRows (bs ++ c ∷ [])
UniqueRows-snoc c [] u h = (tt, tt)
UniqueRows-snoc c (b ∷ bs) u h =
    (All-snoc b c bs u.0 (ground arith), UniqueRows-snoc c bs u.1 (ground arith))

All-keep :
    (q : Branch → Bool) (b : Branch) (bs : List Branch)
    → All (λ d. violates_unique d b ≡ false) bs
    → All (λ d. violates_unique d b ≡ false) (keep q bs)
All-keep q b [] h = tt
All-keep q b (c ∷ cs) h = elim (Bool-cases (q c)) [
  | inl e ↦ rw e (h.0, All-keep q b cs h.1)
  | inr e ↦ rw e (All-keep q b cs h.1)
]

UniqueRows-keep : (q : Branch → Bool) (bs : List Branch) → UniqueRows bs → UniqueRows (keep q bs)
UniqueRows-keep q [] u = tt
UniqueRows-keep q (b ∷ bs) u = elim (Bool-cases (q b)) [
  | inl e ↦ rw e (All-keep q b bs u.0, UniqueRows-keep q bs u.1)
  | inr e ↦ rw e (UniqueRows-keep q bs u.1)
]

abbrev moved : Uuid → BranchStatus → Time → Branch → Branch
moved id st now b = if b.id == id then record b { status = st; updated_at = now } else b

either_moved :
    (st : BranchStatus) (now : Time) (c b : Branch) (x y : Bool)
    → violates_unique
        (if x then record c { status = st; updated_at = now } else c)
        (if y then record b { status = st; updated_at = now } else b)
      ≡ violates_unique c b
unfolding violates_unique
either_moved st now c b true true = refl
either_moved st now c b true false = refl
either_moved st now c b false true = refl
either_moved st now c b false false = refl

moved-violates_unique :
    (id : Uuid) (st : BranchStatus) (now : Time) (c b : Branch)
    → violates_unique (moved id st now c) (moved id st now b) ≡ violates_unique c b
unfolding violates_unique
moved-violates_unique id st now c b = either_moved st now c b (c.id == id) (b.id == id)

All-set_status :
    (id : Uuid) (st : BranchStatus) (now : Time) (b : Branch) (bs : List Branch)
    → All (λ d. violates_unique d b ≡ false) bs
    → All (λ d. violates_unique d (moved id st now b) ≡ false) (set_status id st now bs)
unfolding set_status
All-set_status id st now b [] h = tt
All-set_status id st now b (c ∷ cs) h =
    (moved-violates_unique id st now c b ∙ h.0, All-set_status id st now b cs h.1)

UniqueRows-set_status :
    (id : Uuid) (st : BranchStatus) (now : Time) (bs : List Branch)
    → UniqueRows bs
    → UniqueRows (set_status id st now bs)
unfolding set_status
UniqueRows-set_status id st now [] u = tt
UniqueRows-set_status id st now (b ∷ bs) u =
    (All-set_status id st now b bs u.0, UniqueRows-set_status id st now bs u.1)

update_metrics-rows :
    (id : Uuid) (m : BranchMetrics) (s : Store) → (update_metrics id m s).1.rows ≡ s.rows
unfolding update_metrics
update_metrics-rows id m s = elim (Bool-cases (any (has_id id) s.rows)) [
  | inl e ↦ rw (e, update_metrics) refl
  | inr e ↦ rw (e, update_metrics) refl
]

insert-rows :
    (b : Branch) (s : Store)
    → ((insert b s).1.rows ≡ s.rows)
      ⊎ ((any (violates_unique b) s.rows ≡ false) × ((insert b s).1.rows ≡ s.rows ++ b ∷ []))
unfolding insert
insert-rows b s = elim (Bool-cases (any (violates_unique b) s.rows)) [
  | inl e ↦ inl (rw (e, insert) refl)
  | inr e ↦ inr (
    e,
    rw (e, insert) (update_metrics-rows b.id b.metrics (record s { rows = s.rows ++ b ∷ [] })),
  )
]

update_status-rows :
    (id : Uuid) (st : BranchStatus) (now : Time) (s : Store)
    → ((update_status id st now s).1.rows ≡ s.rows)
      ⊎ ((update_status id st now s).1.rows ≡ set_status id st now s.rows)
unfolding update_status
update_status-rows id st now s = elim (Bool-cases (any (has_id id) s.rows)) [
  | inl e ↦ inr (rw (e, update_status) refl)
  | inr e ↦ inl (rw (e, update_status) refl)
]

delete-rows :
    (id : Uuid) (s : Store)
    → ((delete id s).1.rows ≡ s.rows)
      ⊎ ((delete id s).1.rows ≡ keep (λ b. not (has_id id b)) s.rows)
unfolding delete
delete-rows id s =
    let referred = any (λ (c : CommitLogEntry). c.branch_id == id) s.commits in
    elim (Bool-cases (referred && any (has_id id) s.rows)) [
      | inl e ↦ inl (rw (e, delete) refl)
      | inr e ↦ elim (Bool-cases (any (has_id id) s.rows)) [
        | inl d ↦ inr (rw (e, d, delete) refl)
        | inr d ↦ inl (rw (e, d, delete) refl)
      ]
    ]

statements-UniqueRows :
    (s : Store)
    → UniqueRows s.rows
    → ((b : Branch) → UniqueRows (insert b s).1.rows)
      × ((id : Uuid) (st : BranchStatus) (now : Time)
          → UniqueRows (update_status id st now s).1.rows)
      × ((id : Uuid) → UniqueRows (delete id s).1.rows)
statements-UniqueRows s u = (
  λ b.
      ⊎_elim (λ e. subst UniqueRows (sym e) u)
        (λ (free, e). subst UniqueRows (sym e) (UniqueRows-snoc b s.rows u free)) (insert-rows b s),
  λ id st now.
      ⊎_elim (λ e. subst UniqueRows (sym e) u)
        (λ e. subst UniqueRows (sym e) (UniqueRows-set_status id st now s.rows u))
        (update_status-rows id st now s),
  λ id.
      ⊎_elim (λ e. subst UniqueRows (sym e) u)
        (λ e. subst UniqueRows (sym e) (UniqueRows-keep (λ b. not (has_id id b)) s.rows u))
        (delete-rows id s),
)

-- Two rows that may stand in one table: their ids differ, and in one workspace so do their slugs.
abbrev pub Apart : Branch → Branch → Type 0
Apart b c = (b.id ≢ c.id) × (b.workspace_id ≡ c.workspace_id → b.slug ≢ c.slug)

-- Each row is apart from every later one.
abbrev pub AllApart : List Branch → Type 0
AllApart [] = Unit
AllApart (b ∷ bs) = All (Apart b) bs × AllApart bs

violates_unique-Apart : (b c : Branch) → violates_unique c b ≡ false → Apart b c
unfolding violates_unique
violates_unique-Apart b c h = (
  λ e. ground (arith, ==_iff c.id b.id),
  λ w e. ground (arith, ==_iff c.workspace_id b.workspace_id, text_eq_iff c.slug b.slug),
)

Apart-violates_unique : (b c : Branch) → Apart b c → violates_unique c b ≡ false
unfolding violates_unique
Apart-violates_unique b c (i, t) =
    ground
      (arith, ==_iff c.id b.id, ==_iff c.workspace_id b.workspace_id, text_eq_iff c.slug b.slug)

All-Apart :
    (b : Branch) (bs : List Branch) → All (λ c. violates_unique c b ≡ false) bs → All (Apart b) bs
All-Apart b [] h = tt
All-Apart b (c ∷ cs) h = (violates_unique-Apart b c h.0, All-Apart b cs h.1)

Apart-All :
    (b : Branch) (bs : List Branch) → All (Apart b) bs → All (λ c. violates_unique c b ≡ false) bs
Apart-All b [] h = tt
Apart-All b (c ∷ cs) h = (Apart-violates_unique b c h.0, Apart-All b cs h.1)

pub UniqueRows-AllApart : (bs : List Branch) → UniqueRows bs → AllApart bs
UniqueRows-AllApart [] u = tt
UniqueRows-AllApart (b ∷ bs) u = (All-Apart b bs u.0, UniqueRows-AllApart bs u.1)

pub AllApart-UniqueRows : (bs : List Branch) → AllApart bs → UniqueRows bs
AllApart-UniqueRows [] u = tt
AllApart-UniqueRows (b ∷ bs) u = (Apart-All b bs u.0, AllApart-UniqueRows bs u.1)

-- The statements that write the table of branches keep its constraints, whether they succeed or
-- fail: no two rows have one id, and no two rows of a workspace have one slug.
pub store-UniqueRows :
    (s : Store)
    → AllApart s.rows
    → ((b : Branch) → AllApart (insert b s).1.rows)
      × ((id : Uuid) (st : BranchStatus) (now : Time) → AllApart (update_status id st now s).1.rows)
      × ((id : Uuid) → AllApart (delete id s).1.rows)
store-UniqueRows s a =
    let kept = statements-UniqueRows s (AllApart-UniqueRows s.rows a) in
    (
      λ b. UniqueRows-AllApart (insert b s).1.rows (kept.0 b),
      λ id st now. UniqueRows-AllApart (update_status id st now s).1.rows (kept.1 id st now),
      λ id. UniqueRows-AllApart (delete id s).1.rows (kept.2 id),
    )

In-ids :
    (b : Branch) (bs : List Branch) → In b.id (ids bs) → ¬ All (λ d. violates_unique d b ≡ false) bs
unfolding violates_unique
In-ids b [] h a = h
In-ids b (c ∷ cs) (inl e) a = ground (arith, ==_iff c.id b.id)
In-ids b (c ∷ cs) (inr h) a = In-ids b cs h a.1

Distinct-ids : (bs : List Branch) → UniqueRows bs → Distinct (ids bs)
Distinct-ids [] u = tt
Distinct-ids (b ∷ bs) u = ((λ h. In-ids b bs h u.0), Distinct-ids bs u.1)

-- In a registry that keeps its constraints an id names one branch.
pub UniqueRows-UniqueIds : (s : Store) → UniqueRows s.rows → UniqueIds s
UniqueRows-UniqueIds s u = Distinct-ids s.rows u
