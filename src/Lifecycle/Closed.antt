-- ===== src/Lifecycle/Closed.antt =====
-- branch/lifecycle.rs: the statuses that end a branch's life, along sequences of calls.
use claw_branch.Shared.{
  Bool, true, false, some, List, [], ◌∷◌, any, ◌≡◌, ◌≢◌, inl, inr, ⊎_elim, refl, sym, ap, ◌∙◌,
  Bool-cases, subst, Distinct,
}
use claw_branch.Failure.{branch_not_found, BranchResult, ok, err}
use claw_branch.Types.{
  Uuid, Time, Branch, BranchStatus, active, dormant, merged, discarded, archived, orphan, purged,
  is_live,
}
use claw_branch.Registry.{Store, has_id, update_status, set_status}
use claw_branch.Registry.Rows.{status_of, UniqueIds, set_status-other, ids-set_status}
use claw_branch.Lifecycle.{Settings}
use claw_branch.Lifecycle.Status.{
  Moves, wakes, sleeps, falls, shelved, returns, Command, target, perform, run, perform-Stays,
}

-- The statuses that no call of the lifecycle leaves.
abbrev pub closed : BranchStatus → Bool
closed (merged _ _) = true
closed (discarded _) = true
closed orphan = true
closed purged = true
closed _ = false

Moves-closed : (st st' : BranchStatus) → Moves st st' → closed st ≡ false
unfolding is_live
Moves-closed st st' wakes = refl
Moves-closed st st' sleeps = refl
Moves-closed st st' returns = refl
Moves-closed active st' (falls now e) = refl
Moves-closed dormant st' (falls now e) = refl
Moves-closed archived st' (falls now e) = refl
Moves-closed (merged _ _) st' (falls now e) = cc
Moves-closed (discarded _) st' (falls now e) = cc
Moves-closed orphan st' (falls now e) = cc
Moves-closed purged st' (falls now e) = cc
Moves-closed active st' (shelved e) = refl
Moves-closed dormant st' (shelved e) = refl
Moves-closed archived st' (shelved e) = refl
Moves-closed (merged _ _) st' (shelved e) = cc
Moves-closed (discarded _) st' (shelved e) = cc
Moves-closed orphan st' (shelved e) = cc
Moves-closed purged st' (shelved e) = cc

some-eq : (a b : BranchStatus) → some a ≡ some b → a ≡ b
some-eq a b h = cc

updated :
    (id : Uuid) (st : BranchStatus) (now : Time) (s : Store)
    → any (has_id id) s.rows ≡ true
    → update_status id st now s ≡ (ok tt, record s { rows = set_status id st now s.rows })
unfolding update_status
updated id st now s e = rw (e, update_status) refl

missing :
    (id : Uuid) (st : BranchStatus) (now : Time) (s : Store)
    → any (has_id id) s.rows ≡ false
    → update_status id st now s ≡ (err (branch_not_found id), s)
unfolding update_status
missing id st now s e = rw (e, update_status) refl

update_status-other :
    (i id : Uuid) (st : BranchStatus) (now : Time) (s : Store)
    → i ≢ id
    → status_of i (update_status id st now s).1 ≡ status_of i s
update_status-other i id st now s n = elim (Bool-cases (any (has_id id) s.rows)) [
  | inl e ↦
      ap (λ x. status_of i x.1) (updated id st now s e) ∙ set_status-other i id st now s.rows n
  | inr e ↦ ap (λ x. status_of i x.1) (missing id st now s e)
]

update_status-ids :
    (id : Uuid) (st : BranchStatus) (now : Time) (s : Store)
    → UniqueIds s
    → UniqueIds (update_status id st now s).1
unfolding update_status
update_status-ids id st now s u = elim (Bool-cases (any (has_id id) s.rows)) [
  | inl e ↦
      subst (λ r. UniqueIds r.1) (sym (updated id st now s e))
        (subst Distinct (sym (ids-set_status id st now s.rows)) u)
  | inr e ↦ subst (λ r. UniqueIds r.1) (sym (missing id st now s e)) u
]

perform-UniqueIds :
    (cfg : Settings) (verified : Branch → BranchResult (Unit {0})) (c : Command) (s : Store)
    → UniqueIds s
    → UniqueIds (perform cfg verified c s)
perform-UniqueIds cfg verified c s u =
    ⊎_elim (λ e. subst UniqueIds (sym e) u)
      (λ (st, st', h, m, now, e).
        subst UniqueIds (sym e) (update_status-ids (target c) st' now s u))
      (perform-Stays cfg verified c s u)

perform-closed :
    (cfg : Settings) (verified : Branch → BranchResult (Unit {0})) (c : Command) (s : Store)
    (id : Uuid) (st : BranchStatus)
    → UniqueIds s
    → status_of id s ≡ some st
    → closed st ≡ true
    → status_of id (perform cfg verified c s) ≡ some st
perform-closed cfg verified c s id st u h q =
    ⊎_elim (λ e. ap (status_of id) e ∙ h)
      (λ (st', st'', h', m, now, e).
        ap (status_of id) e
        ∙ update_status-other id (target c) st'' now s (λ same.
          let agree = some-eq st st' (sym h ∙ ap (λ i. status_of i s) same ∙ h') in
          cc (Moves-closed st' st'' m, ap closed agree, q))
        ∙ h)
      (perform-Stays cfg verified c s u)

-- In a registry where an id names one row, a branch that is merged, discarded, an orphan or purged
-- keeps that status through every sequence of lifecycle calls, on whatever branches.
pub run-closed :
    (cfg : Settings) (verified : Branch → BranchResult (Unit {0})) (cs : List Command) (s : Store)
    (id : Uuid) (st : BranchStatus)
    → UniqueIds s
    → status_of id s ≡ some st
    → closed st ≡ true
    → status_of id (run cfg verified cs s) ≡ some st
unfolding run
run-closed cfg verified [] s id st u h q = h
run-closed cfg verified (c ∷ cs) s id st u h q =
    run-closed cfg verified cs (perform cfg verified c s) id st
      (perform-UniqueIds cfg verified c s u) (perform-closed cfg verified c s id st u h q) q
