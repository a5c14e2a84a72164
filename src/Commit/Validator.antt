-- ===== src/Commit/Validator.antt =====
-- commit/validator.rs: the checks before a commit. `show_uuid` is the printed form of an identifier.
pub mod Exact
use claw_branch.Shared.{
  ℕ, Text, codes, Bool, true, false, not, Option, none, some, List, [], ◌∷◌, ◌++◌, is_empty,
  has_key, lookup, if◌then◌else◌,
}
use claw_branch.Types.{
  Uuid, Branch, BranchStatus, active, dormant, kind, EntityType, table_name, debug_name,
}
use claw_branch.Database.{Sqlite, Db, table}
use claw_branch.Commit.Cherry.{CherryPick, EntitySelection}

pub record ValidationReport : Type 0 where
  pub is_ok : Bool
  pub violations : List Text
  pub warnings : List Text

abbrev pub is_source_status : BranchStatus → Bool
is_source_status active = true
is_source_status dormant = true
is_source_status _ = false

abbrev pub is_target_status : BranchStatus → Bool
is_target_status active = true
is_target_status _ = false

-- A text in quotes, as `{:?}` prints it.
abbrev pub quoted : Text → Text
quoted t = b'"' ∷ t ++ b'"' ∷ []

-- `SELECT COUNT(*) ... WHERE id = ?`
abbrev pub exists : EntityType → Text → Db → Bool
exists t id db = has_key id (table t db)

module _ (sql : Sqlite) (show_uuid : Uuid → Text) where
  unfoldable pub status_violations : Branch → Branch → List Text
  unfolding kind
  status_violations source target =
      (if is_source_status source.status
        then []
        else (codes "source branch "
            ++ show_uuid source.id
            ++ codes " is "
            ++ quoted (kind source.status)
            ++ codes ", must be Active or Dormant")
          ∷ [])
      ++ (if is_target_status target.status
          then []
          else (codes "target branch "
              ++ show_uuid target.id
              ++ codes " is "
              ++ quoted (kind target.status)
              ++ codes ", must be Active")
            ∷ [])

  unfoldable pub missing_ids : Branch → Db → EntityType → List Text → List Text
  unfolding table lookup debug_name
  missing_ids source db t [] = []
  missing_ids source db t (id ∷ ids) =
      let rest = missing_ids source db t ids in
      if exists t id db
      then rest
      else (codes "entity '"
          ++ id
          ++ codes "' of type "
          ++ debug_name t
          ++ codes " not found in source branch "
          ++ show_uuid source.id)
        ∷ rest

  -- The violations and the warnings of the loop over the selections.
  unfoldable pub check_selections : Branch → Db → List EntitySelection → List Text × List Text
  unfolding missing_ids table_name
  check_selections source db [] = ([], [])
  check_selections source db (sel ∷ sels) =
      let (violations, warnings) = check_selections source db sels in
      if is_empty sel.entity_ids
      then (violations, warnings)
      else if is_empty (sql.columns sel.entity_type)
      then (
        violations,
        (codes "table '"
              ++ table_name sel.entity_type
              ++ codes "' does not exist in source; skipping entity existence check")
            ∷ warnings,
      )
      else (missing_ids source db sel.entity_type sel.entity_ids ++ violations, warnings)

  unfoldable pub validate : CherryPick → Branch → Branch → Db → ValidationReport
  unfolding status_violations check_selections
  validate cherry source target db =
      let (missing, warnings) = check_selections source db cherry.entity_selections in
      let violations = status_violations source target ++ missing in
      record { is_ok = is_empty violations; violations = violations; warnings = warnings }
