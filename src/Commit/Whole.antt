-- ===== src/Commit/Whole.antt =====
-- A commit from its checks to its log entry.
use claw_branch.Shared.{
  ℕ, Text, codes, true, false, ◌&&◌, Option, none, In, lookup, some, Option-cases, List, [], ◌==◌,
  ◌∷◌, ◌++◌, any, ◌≡◌, ◌⊎◌, refl, sym, ap, ◌∙◌, arith, Bool-cases, inl, inr, ⊎_elim,
}
use claw_branch.Failure.{
  BranchError, BranchResult, ◌>>◌, ok, err, err-eq, ok≢err, database, Result-cases,
  commit_validation_failed, branch_not_found,
}
use claw_branch.Types.{Uuid, Time, Branch, EntityType, CommitLogEntry}
use claw_branch.Database.{Sqlite, Printer, Db, fetch_all_entities}
use claw_branch.Json.{Value}
use claw_branch.Registry.{Store, insert_commit_log, has_id}
use claw_branch.Registry
use claw_branch.Commit.Cherry.{CherryPick, EntitySelection}
use claw_branch.Commit.Validator.{validate}
use claw_branch.Commit.{
  Faults, Progress, commit_selections, log_entry, Outcome, record_commit, start_of, result_of,
  commit_valid, commit,
}

insert_commit_log-fresh :
    (e : CommitLogEntry) (s : Store)
    → any (λ (c : CommitLogEntry). c.id == e.id) s.commits ≡ false
    → any (has_id e.branch_id) s.rows ≡ true
    → (insert_commit_log none e s).0 ≡ ok tt
unfolding insert_commit_log
insert_commit_log-fresh e s q r = rw (q, r) refl

find-has_id :
    (w id : Uuid) (bs : List Branch) (b : Branch)
    → Registry.find (λ (c : Branch). (c.workspace_id == w) && (c.id == id)) bs ≡ some b
    → any (has_id id) bs ≡ true
find-has_id w id [] b h = absurd cc
find-has_id w id (c ∷ bs) b h = elim (Bool-cases ((c.workspace_id == w) && (c.id == id))) [
  | inl e ↦ ground arith
  | inr e ↦ ground (arith, find-has_id w id bs b (rw e at h))
]

insert_commit_log-rows :
    (fault : Option BranchError) (e : CommitLogEntry) (s : Store)
    → (insert_commit_log fault e s).1.rows ≡ s.rows
unfolding insert_commit_log
insert_commit_log-rows (some x) e s = refl
insert_commit_log-rows none e s =
    elim (Bool-cases (any (λ (c : CommitLogEntry). c.id == e.id) s.commits)) [
      | inl q ↦ rw q refl
      | inr q ↦ elim (Bool-cases (any (has_id e.branch_id) s.rows)) [
        | inl r ↦ rw (q, r) refl
        | inr r ↦ rw (q, r) refl
      ]
    ]

-- A branch that `get` finds has a row.
pub get-has_id :
    (s : Store) (w id : Uuid) (b : Branch)
    → Registry.get s w id ≡ ok b
    → any (has_id id) s.rows ≡ true
unfolding Registry.get
get-has_id s w id b h =
    elim (Option-cases
      (Registry.find (λ (c : Branch). (c.workspace_id == w) && (c.id == id)) s.rows)) [
        | inl e ↦ absurd (ok≢err b (branch_not_found id) (sym (rw (Registry.get, e) at h)))
        | inr (c, e) ↦ find-has_id w id s.rows c e
      ]

-- The insertion of a log entry: the entry at the end, or an error and nothing.
insert_commit_log-cases :
    (fault : Option BranchError) (e : CommitLogEntry) (s : Store)
    → (insert_commit_log fault e s ≡ (ok tt, record s { commits = s.commits ++ e ∷ [] }))
      ⊎ ((x : BranchError) × (insert_commit_log fault e s ≡ (err x, s)))
unfolding insert_commit_log
insert_commit_log-cases (some x) e s = inr (x, refl)
insert_commit_log-cases none e s =
    elim (Bool-cases (any (λ (c : CommitLogEntry). c.id == e.id) s.commits)) [
      | inl q ↦ inr (database (codes "UNIQUE constraint failed"), rw q refl)
      | inr q ↦ elim (Bool-cases (any (has_id e.branch_id) s.rows)) [
        | inl r ↦ inl (rw (q, r) refl)
        | inr r ↦ inr (database (codes "FOREIGN KEY constraint failed"), rw (q, r) refl)
      ]
    ]

-- With a fresh id and the branch's row, it fails only by a fault.
insert_commit_log-fault :
    (fault : Option BranchError) (e : CommitLogEntry) (s : Store) (x : BranchError)
    → any (λ (c : CommitLogEntry). c.id == e.id) s.commits ≡ false
    → any (has_id e.branch_id) s.rows ≡ true
    → insert_commit_log fault e s ≡ (err x, s)
    → fault ≡ some x
unfolding insert_commit_log
insert_commit_log-fault (some y) e s x q r h =
    ap some (err-eq (err y) y x refl (ap (λ (o : BranchResult (Unit {0}) × Store). o.0) h))
insert_commit_log-fault none e s x q r h = absurd (
    ok≢err tt x
      (sym (insert_commit_log-fresh e s q r) ∙ ap (λ (o : BranchResult (Unit {0}) × Store). o.0) h))

module _ (sql : Sqlite) (p : Printer) (show_uuid : Uuid → Text) (log_id : Uuid) (now : Time)
    (faults : Faults) where
  -- The checks that a commit passes before the registry is written.
  abbrev pub Passed : Uuid → CherryPick → Db → Db → Store → Progress → Type 0
  Passed w cherry source_db target_db store s =
      (source : Branch) × (target : Branch) × (Registry.get store w cherry.source_branch_id
        ≡ ok source)
      × (Registry.get store w cherry.target_branch_id ≡ ok target)
      × ((validate sql show_uuid cherry source target source_db).is_ok ≡ true)
      × (commit_selections sql p target_db source_db cherry.entity_selections (start_of target_db)
          ≡ ok s)

  -- A commit fails and changes nothing, or it has passed the checks and writes the log.
  abbrev Ended : Uuid → ℕ → CherryPick → Db → Db → Store → Outcome → Type 0
  Ended w elapsed cherry source_db target_db store o =
      ((e : BranchError) × (o ≡ (err e, store, target_db)))
      ⊎ ((s : Progress) × Passed w cherry source_db target_db store s
          × (o ≡ record_commit log_id now faults elapsed cherry s store))

  commit-Ended :
      (w : Uuid) (elapsed : ℕ) (cherry : CherryPick) (source_db target_db : Db) (store : Store)
      → Ended w elapsed cherry source_db target_db store
          (commit sql p show_uuid log_id now faults w elapsed cherry source_db target_db store)
  unfolding commit commit_valid
  commit-Ended w elapsed cherry source_db target_db store =
      elim (Result-cases (Registry.get store w cherry.source_branch_id)) [
        | inr (e, q) ↦ inl (e, rw (commit, q) refl)
        | inl (source, q) ↦ elim (Result-cases (Registry.get store w cherry.target_branch_id)) [
          | inr (e, r) ↦ inl (e, rw (commit, q, r) refl)
          | inl (target, r) ↦
              let report = validate sql show_uuid cherry source target source_db in
              elim (Bool-cases report.is_ok) [
                | inr v ↦ inl (
                  commit_validation_failed cherry.target_branch_id report.violations,
                  rw (commit, q, r, v) refl,
                )
                | inl v ↦
                    elim (Result-cases (
                      commit_selections sql p target_db source_db cherry.entity_selections
                        (start_of target_db))) [
                          | inr (e, x) ↦ inl (e, rw (commit, q, r, v, commit_valid, x) refl)
                          | inl (s, x) ↦ elim (Option-cases faults.on_commit) [
                            | inr (e, y) ↦ inl (e, rw (commit, q, r, v, commit_valid, x, y) refl)
                            | inl y ↦ inr (
                              s,
                              (source, target, q, r, v, x),
                              rw (commit, q, r, v, commit_valid, x, y) refl,
                            )
                          ]
                        ]
              ]
        ]
      ]

  -- The outcome of a commit that has passed, by what became of its log entry.
  record_commit-cases :
      (elapsed : ℕ) (cherry : CherryPick) (s : Progress) (store : Store)
      → (record_commit log_id now faults elapsed cherry s store ≡ (
        ok (result_of elapsed cherry now s),
        record store {
          commits = store.commits ++ log_entry log_id now cherry s.all_entity_ids ∷ [];
        },
        s.tx,
      ))
        ⊎ ((x : BranchError) × (insert_commit_log faults.on_log
                (log_entry log_id now cherry s.all_entity_ids)
                store
              ≡ (err x, store))
            × (record_commit log_id now faults elapsed cherry s store ≡ (err x, store, s.tx)))
  unfolding record_commit
  record_commit-cases elapsed cherry s store =
      let after : BranchResult (Unit {0}) × Store → Outcome =
        λ o. (o.0 >> ok (result_of elapsed cherry now s), o.1, s.tx) in
      ⊎_elim (λ e. inl (ap after e)) (λ (x, e). inr (x, e, ap after e))
        (insert_commit_log-cases faults.on_log (log_entry log_id now cherry s.all_entity_ids) store)

  -- The entry of a commit in the log, with the ids that it lists.
  abbrev pub Logs : CherryPick → CommitLogEntry → Type 0
  Logs cherry entry =
      (entry.id ≡ log_id)
      × (entry.branch_id ≡ cherry.target_branch_id)
      × (entry.op_kind ≡ codes "cherry_pick")
      × (entry.committed_at ≡ now)
      × (entry.message ≡ cherry.message)

  -- An entity of the source that a selection names, or any where it names none.
  abbrev pub Picks : CherryPick → Db → EntitySelection → Text → Value → Type 0
  Picks cherry source_db sel id v =
      In sel cherry.entity_selections
      × ((sel.entity_ids ≡ []) ⊎ In id sel.entity_ids)
      × (lookup id (fetch_all_entities sql source_db sel.entity_type) ≡ some v)

  -- No selection of the type is restricted to some fields.
  abbrev pub IsWhole : CherryPick → EntityType → Type 0
  IsWhole cherry t =
      (sel : EntitySelection)
      → In sel cherry.entity_selections
      → sel.entity_type ≡ t
      → sel.fields ≡ none

  -- A commit that fails leaves the registry as it was. It leaves the target as it was too, when the
  -- identifier of its log entry is new, unless the insertion of the entry, which comes after the
  -- transaction, was what failed, by an error of the database.
  pub commit-atomic :
      (w : Uuid) (elapsed : ℕ) (cherry : CherryPick) (source_db target_db : Db) (store : Store)
      (e : BranchError)
      → any (λ (c : CommitLogEntry). c.id == log_id) store.commits ≡ false
      → (commit sql p show_uuid log_id now faults w elapsed cherry source_db target_db store).0
        ≡ err e
      → ((commit sql p show_uuid log_id now faults w elapsed cherry source_db target_db store).1
          ≡ store)
        × (((commit sql p show_uuid log_id now faults w elapsed cherry source_db target_db store).2
              ≡ target_db)
            ⊎ (faults.on_log ≡ some e))
  commit-atomic w elapsed cherry source_db target_db store e fresh h =
      ⊎_elim (λ (e', q). (ap (λ (o : Outcome). o.1) q, inl (ap (λ (o : Outcome). o.2) q)))
        (λ (s, (source, target, _, found, _, x), q).
          ⊎_elim
            (λ done. absurd (
              ok≢err (result_of elapsed cherry now s) e
                (sym (ap (λ (o : Outcome). o.0) (q ∙ done)) ∙ h)))
            (λ (e', refused, failed).
              let same = err-eq _ e' e (ap (λ (o : Outcome). o.0) (q ∙ failed)) h in
              (
                ap (λ (o : Outcome). o.1) (q ∙ failed),
                inr (
                    insert_commit_log-fault faults.on_log
                      (log_entry log_id now cherry s.all_entity_ids) store e' fresh
                      (get-has_id store w cherry.target_branch_id target found) refused
                    ∙ ap some same),
              ))
            (record_commit-cases elapsed cherry s store))
        (commit-Ended w elapsed cherry source_db target_db store)

  pub commit-rows :
      (w : Uuid) (elapsed : ℕ) (cherry : CherryPick) (source_db target_db : Db) (store : Store)
      → (commit sql p show_uuid log_id now faults w elapsed cherry source_db target_db store).1.rows
        ≡ store.rows
  unfolding record_commit
  commit-rows w elapsed cherry source_db target_db store =
      ⊎_elim (λ (e, q). ap (λ (o : Outcome). o.1.rows) q)
        (λ (s, _, q).
          ap (λ (o : Outcome). o.1.rows) q
          ∙ insert_commit_log-rows faults.on_log (log_entry log_id now cherry s.all_entity_ids)
              store)
        (commit-Ended w elapsed cherry source_db target_db store)
