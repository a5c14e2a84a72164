-- ===== src/Lifecycle/Status.antt =====
-- branch/lifecycle.rs: the state machine that the five transitions make of a branch's status.
use claw_branch.Shared.{
  true, some, List, [], ◌∷◌, ◌≡◌, ◌⊎◌, inl, inr, refl, sym, ap, Bool-cases, subst,
}
use claw_branch.Failure.{BranchError, BranchResult, ok, err, Result-cases}
use claw_branch.Types.{
  Uuid, Time, Branch, BranchStatus, active, dormant, merged, discarded, archived, orphan, purged,
  is_live,
}
use claw_branch.Registry.{Store, get, update_status}
use claw_branch.Registry.Rows.{status_of, UniqueIds, get-status}
use claw_branch.Lifecycle.{
  on_activate, on_deactivate, on_discard, on_archive, on_restore, Settings, activate, deactivate,
  discard, archive, restore_archived, with_branch,
}

-- The moves of the state machine.
pub data Moves : BranchStatus → BranchStatus → Type 0 where
  wakes : Moves dormant active
  sleeps : Moves active dormant
  falls : {st : BranchStatus} (now : Time) → is_live st ≡ true → Moves st (discarded now)
  shelved : {st : BranchStatus} → is_live st ≡ true → Moves st archived
  returns : Moves archived active

-- One call of the lifecycle, at its time.
pub data Command : Type 0 where
  to_activate to_deactivate to_discard to_archive to_restore : Time → Uuid → Command

abbrev pub target : Command → Uuid
target (to_activate now id) = id
target (to_deactivate now id) = id
target (to_discard now id) = id
target (to_archive now id) = id
target (to_restore now id) = id

-- The store after a call, whether it succeeds or not.
unfoldable pub perform : Settings → (Branch → BranchResult (Unit {0})) → Command → Store → Store
unfolding activate deactivate discard archive restore_archived
perform cfg verified (to_activate now id) s = (activate cfg now id s).1
perform cfg verified (to_deactivate now id) s = (deactivate cfg now id s).1
perform cfg verified (to_discard now id) s = (discard cfg now id s).1
perform cfg verified (to_archive now id) s = (archive cfg now id s).1
perform cfg verified (to_restore now id) s = (restore_archived cfg now id verified s).1

unfoldable pub run : Settings → (Branch → BranchResult (Unit {0})) → List Command → Store → Store
unfolding perform
run cfg verified [] s = s
run cfg verified (c ∷ cs) s = run cfg verified cs (perform cfg verified c s)

-- What a call may do to a store: nothing, or a move of the one branch.
abbrev pub Stays : Uuid → Store → Store → Type 0
Stays id s s' =
    (s' ≡ s)
    ⊎ ((st : BranchStatus) × (st' : BranchStatus) × (status_of id s ≡ some st)
        × Moves st st'
        × (now : Time) × (s' ≡ (update_status id st' now s).1))

module _ (cfg : Settings) (verified : Branch → BranchResult (Unit {0})) (now : Time)
    (id : Uuid) where
  with_branch-ok :
      {A : Type 0} (s : Store) (f : Branch → BranchResult A × Store) (b : Branch)
      → get s cfg.workspace_id id ≡ ok b
      → with_branch cfg id s f ≡ f b
  with_branch-ok s f b q = rw (q, with_branch) refl

  with_branch-err :
      {A : Type 0} (s : Store) (f : Branch → BranchResult A × Store) (e : BranchError)
      → get s cfg.workspace_id id ≡ err e
      → with_branch cfg id s f ≡ (err e, s)
  with_branch-err s f e q = rw (q, with_branch) refl

  with_branch-Stays :
      {A : Type 0} (s : Store) (f : Branch → BranchResult A × Store)
      → UniqueIds s
      → ((b : Branch) → status_of id s ≡ some b.status → Stays id s (f b).1)
      → Stays id s (with_branch cfg id s f).1
  with_branch-Stays s f u h = elim (Result-cases (get s cfg.workspace_id id)) [
    | inr (e, q) ↦ inl (ap (λ x. x.1) (with_branch-err s f e q))
    | inl (b, q) ↦
        subst (λ x. Stays id s x.1) (sym (with_branch-ok s f b q))
          (h b (get-status s cfg.workspace_id id b u q).0)
  ]

  on_activate-Stays :
      (st : BranchStatus) (s : Store)
      → status_of id s ≡ some st
      → Stays id s (on_activate cfg now id st s).1
  unfolding on_activate
  on_activate-Stays dormant s h = inr (dormant, active, h, wakes, now, refl)
  on_activate-Stays active s h = inl refl
  on_activate-Stays (merged _ _) s h = inl refl
  on_activate-Stays (discarded _) s h = inl refl
  on_activate-Stays archived s h = inl refl
  on_activate-Stays orphan s h = inl refl
  on_activate-Stays purged s h = inl refl

  on_deactivate-Stays :
      (st : BranchStatus) (s : Store)
      → status_of id s ≡ some st
      → Stays id s (on_deactivate cfg now id st s).1
  unfolding on_deactivate
  on_deactivate-Stays active s h = inr (active, dormant, h, sleeps, now, refl)
  on_deactivate-Stays dormant s h = inl refl
  on_deactivate-Stays (merged _ _) s h = inl refl
  on_deactivate-Stays (discarded _) s h = inl refl
  on_deactivate-Stays archived s h = inl refl
  on_deactivate-Stays orphan s h = inl refl
  on_deactivate-Stays purged s h = inl refl

  on_discard-Stays :
      (st : BranchStatus) (s : Store)
      → status_of id s ≡ some st
      → Stays id s (on_discard cfg now id st s).1
  unfolding on_discard
  on_discard-Stays st s h = elim (Bool-cases (is_live st)) [
    | inl e ↦ rw e (inr (st, discarded now, h, falls now e, now, refl))
    | inr e ↦ rw e (inl refl)
  ]

  on_archive-Stays :
      (st : BranchStatus) (s : Store)
      → status_of id s ≡ some st
      → Stays id s (on_archive cfg now id st s).1
  unfolding on_archive
  on_archive-Stays st s h = elim (Bool-cases (is_live st)) [
    | inl e ↦ rw e (inr (st, archived, h, shelved e, now, refl))
    | inr e ↦ rw e (inl refl)
  ]

  on_restore-Stays :
      (st : BranchStatus) (checked : BranchResult (Unit {0})) (s : Store)
      → status_of id s ≡ some st
      → Stays id s (on_restore cfg now id st checked s).1
  unfolding on_restore
  on_restore-Stays archived (ok _) s h = inr (archived, active, h, returns, now, refl)
  on_restore-Stays archived (err e) s h = inl refl
  on_restore-Stays dormant checked s h = inl refl
  on_restore-Stays active checked s h = inl refl
  on_restore-Stays (merged _ _) checked s h = inl refl
  on_restore-Stays (discarded _) checked s h = inl refl
  on_restore-Stays orphan checked s h = inl refl
  on_restore-Stays purged checked s h = inl refl

-- In a registry where an id names one row, a call of the lifecycle leaves the registry as it was, or
-- moves the status of its one branch along an edge of the state machine, by one update of status.
pub perform-Stays :
    (cfg : Settings) (verified : Branch → BranchResult (Unit {0})) (c : Command) (s : Store)
    → UniqueIds s
    → Stays (target c) s (perform cfg verified c s)
unfolding perform activate deactivate discard archive restore_archived
perform-Stays cfg verified (to_activate now id) s u =
    with_branch-Stays cfg verified now id s (λ b. on_activate cfg now id b.status s) u
      (λ b. on_activate-Stays cfg verified now id b.status s)
perform-Stays cfg verified (to_deactivate now id) s u =
    with_branch-Stays cfg verified now id s (λ b. on_deactivate cfg now id b.status s) u
      (λ b. on_deactivate-Stays cfg verified now id b.status s)
perform-Stays cfg verified (to_discard now id) s u =
    with_branch-Stays cfg verified now id s (λ b. on_discard cfg now id b.status s) u
      (λ b. on_discard-Stays cfg verified now id b.status s)
perform-Stays cfg verified (to_archive now id) s u =
    with_branch-Stays cfg verified now id s (λ b. on_archive cfg now id b.status s) u
      (λ b. on_archive-Stays cfg verified now id b.status s)
perform-Stays cfg verified (to_restore now id) s u =
    with_branch-Stays cfg verified now id s (λ b. on_restore cfg now id b.status (verified b) s) u
      (λ b. on_restore-Stays cfg verified now id b.status (verified b) s)
