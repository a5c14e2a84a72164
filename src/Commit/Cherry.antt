-- ===== src/Commit/Cherry.antt =====
-- commit/cherry.rs: what a commit selects.
use claw_branch.Shared.{Text, Option, none, some, List, [], ◌∷◌}
use claw_branch.Types.{Uuid, EntityType}

pub record EntitySelection : Type 0 where
  pub entity_type : EntityType
  pub entity_ids : List Text
  pub fields : Option (List Text)

pub record CherryPick : Type 0 where
  pub source_branch_id : Uuid
  pub target_branch_id : Uuid
  pub entity_selections : List EntitySelection
  pub message : Option Text

unfoldable pub specific_entities : Uuid → Uuid → EntityType → List Text → CherryPick
specific_entities source target t ids = record {
  source_branch_id = source;
  target_branch_id = target;
  entity_selections = record { entity_type = t; entity_ids = ids; fields = none } ∷ [];
  message = none;
}

unfoldable pub all_of_type : Uuid → Uuid → EntityType → CherryPick
all_of_type source target t = record {
  source_branch_id = source;
  target_branch_id = target;
  entity_selections = record { entity_type = t; entity_ids = []; fields = none } ∷ [];
  message = none;
}

-- The last selection, when there is one.
unfoldable pub set_last_fields : List Text → List EntitySelection → List EntitySelection
set_last_fields fields [] = []
set_last_fields fields (sel ∷ []) = record sel { fields = some fields } ∷ []
set_last_fields fields (sel ∷ next ∷ sels) = sel ∷ set_last_fields fields (next ∷ sels)

unfoldable pub specific_fields : List Text → CherryPick → CherryPick
unfolding set_last_fields
specific_fields fields pick = record pick {
  entity_selections = set_last_fields fields pick.entity_selections;
}

unfoldable pub with_message : Text → CherryPick → CherryPick
with_message message pick = record pick { message = some message }
