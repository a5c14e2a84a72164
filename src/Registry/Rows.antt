-- ===== src/Registry/Rows.antt =====
-- branch/store.rs: what the statements on the table of branches do to its rows.
use claw_branch.Shared.{
  ℕ, Bool, true, false, ◌&&◌, Option, none, some, List, [], ◌∷◌, any, if◌then◌else◌, ◌≡◌, ◌≢◌, inl,
  inr, refl, sym, ap, ◌∙◌, arith, Bool-cases, Option-cases, In, Distinct, ◌==◌, ==_iff, ==_refl,
  subst,
}
use claw_branch.Failure.{ok, ok-eq, ok≢err, branch_not_found}
use claw_branch.Types.{Uuid, Time, Branch, BranchStatus}
use claw_branch.Registry.{Store, find, get, branch_from_row, has_id, set_status}

abbrev pub ids : List Branch → List Uuid
ids [] = []
ids (b ∷ bs) = b.id ∷ ids bs

abbrev pub status_in : Uuid → List Branch → Option BranchStatus
status_in id [] = none
status_in id (b ∷ bs) = if b.id == id then some b.status else status_in id bs

-- The status that the registry has for an id.
abbrev pub status_of : Uuid → Store → Option BranchStatus
status_of id s = status_in id s.rows

-- No id stands for two rows: the primary key.
abbrev pub UniqueIds : Store → Type 0
UniqueIds s = Distinct (ids s.rows)

some-eq : (b c : Branch) → some b ≡ some c → b ≡ c
some-eq b c h = cc

abbrev in_both : Uuid → Uuid → Branch → Bool
in_both w id b = (b.workspace_id == w) && (b.id == id)

find-In :
    (w id : Uuid) (b : Branch) (rows : List Branch)
    → find (in_both w id) rows ≡ some b
    → In id (ids rows)
find-In w id b [] h = cc
find-In w id b (c ∷ cs) h = elim (Bool-cases (in_both w id c)) [
  | inl e ↦ inl (ground (arith, ==_iff c.id id))
  | inr e ↦ inr (find-In w id b cs (rw e at h))
]

find-status :
    (w id : Uuid) (b : Branch) (rows : List Branch)
    → Distinct (ids rows)
    → find (in_both w id) rows ≡ some b
    → (status_in id rows ≡ some b.status) × (b.id ≡ id)
find-status w id b [] d h = absurd cc
find-status w id b (c ∷ cs) d h = elim (Bool-cases (in_both w id c)) [
  | inl e ↦
      let q : c.id ≡ id = (==_iff c.id id).0 (ground arith) in
      let same = some-eq c b (rw e at h) in
      (
        rw (q, ==_refl) (ap (λ (x : Branch). some x.status) same),
        ap (λ (x : Branch). x.id) (sym same) ∙ q,
      )
  | inr e ↦ elim (Bool-cases (c.id == id)) [
    | inl q ↦ absurd (
        d.0
          (subst (λ i. In i (ids cs)) (sym ((==_iff c.id id).0 q)) (find-In w id b cs (rw e at h))))
    | inr q ↦ rw q (find-status w id b cs d.1 (rw e at h))
  ]
]

-- A branch that `get` returns has the id asked for and the status that the registry has for it.
pub get-status :
    (s : Store) (w id : Uuid) (b : Branch)
    → UniqueIds s
    → get s w id ≡ ok b
    → (status_of id s ≡ some b.status) × (b.id ≡ id)
unfolding get branch_from_row
get-status s w id b d h = elim (Option-cases (find (in_both w id) s.rows)) [
  | inl e ↦ absurd (ok≢err b (branch_not_found id) (sym h ∙ rw (e, get) refl))
  | inr (c, e) ↦
      let (found, named) = find-status w id c s.rows d e in
      let same : branch_from_row s c ≡ b =
        ok-eq (branch_from_row s c) b (sym (rw (e, get) refl) ∙ h) in
      (
        found ∙ ap (λ (x : Branch). some x.status) same,
        ap (λ (x : Branch). x.id) (sym same) ∙ named,
      )
]

-- `UPDATE` changes the status of the one id.
pub set_status-same :
    (id : Uuid) (st : BranchStatus) (now : Time) (rows : List Branch)
    → any (has_id id) rows ≡ true
    → status_in id (set_status id st now rows) ≡ some st
unfolding set_status
set_status-same id st now [] h = cc
set_status-same id st now (b ∷ bs) h = elim (Bool-cases (b.id == id)) [
  | inl e ↦ rw (e, e) refl
  | inr e ↦ rw (e, e) (set_status-same id st now bs (rw e at h))
]

apart : (j i id : ℕ) → j ≡ id → i ≢ id → (j == i) ≡ false
apart j i id e n = elim (Bool-cases (j == i)) [
  | inl q ↦ absurd (n (sym ((==_iff j i).0 q) ∙ e))
  | inr q ↦ q
]

pub set_status-other :
    (i id : Uuid) (st : BranchStatus) (now : Time) (rows : List Branch)
    → i ≢ id
    → status_in i (set_status id st now rows) ≡ status_in i rows
unfolding set_status
set_status-other i id st now [] n = refl
set_status-other i id st now (b ∷ bs) n = elim (Bool-cases (b.id == id)) [
  | inl e ↦
      let q : (b.id == i) ≡ false = apart b.id i id ((==_iff b.id id).0 e) n in
      rw (e, q, set_status-other i id st now bs n) refl
  | inr e ↦ rw (e, set_status-other i id st now bs n) refl
]

pub ids-set_status :
    (id : Uuid) (st : BranchStatus) (now : Time) (rows : List Branch)
    → ids (set_status id st now rows) ≡ ids rows
unfolding set_status
ids-set_status id st now [] = refl
ids-set_status id st now (b ∷ bs) = ground (arith, ids-set_status id st now bs)
