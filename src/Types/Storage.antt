-- ===== src/Types/Storage.antt =====
-- types.rs: the storage strings of statuses and entity types, and their round trips.
-- `Uuid` and `DateTime<Utc>` print and parse by their crates: four parameters. A printed UUID has
-- no colon, and what is printed parses back.
use claw_branch.Shared.{
  Text, codes, text_eq, Bool, true, false, ◌||◌, Option, none, some, [], ◌∷◌, ◌++◌, ◌==◌, any, ◌≡◌,
  refl, arith, if◌then◌else◌,
}
use claw_branch.Types.{
  Uuid, Time, EntityType, memory_record, session, tool_output, table_name, as_str, BranchStatus,
  active, dormant, merged, discarded, archived, orphan, purged,
}

unfoldable pub parse : Text → Option EntityType
unfolding text_eq
parse value =
    if text_eq value (codes "memory_record") || text_eq value (codes "memory_records")
    then some memory_record
    else if text_eq value (codes "session") || text_eq value (codes "sessions")
    then some session
    else if text_eq value (codes "tool_output") || text_eq value (codes "tool_outputs")
    then some tool_output
    else none

-- The canonical string and the table name of an entity type both parse back to it.
pub parse-as_str-table_name :
    (t : EntityType) → (parse (as_str t) ≡ some t) × (parse (table_name t) ≡ some t)
unfolding parse as_str table_name
parse-as_str-table_name memory_record = (refl, refl)
parse-as_str-table_name session = (refl, refl)
parse-as_str-table_name tool_output = (refl, refl)

-- `split_once(':')`
unfoldable pub split_once : Text → Option (Text × Text)
split_once [] = none
split_once (c ∷ s) =
    if c == b':'
    then some ([], s)
    else elim (split_once s) [ none ↦ none | some (a, b) ↦ some (c ∷ a, b) ]

-- `starts_with(prefix)`
unfoldable pub has_prefix : Text → Text → Bool
has_prefix [] s = true
has_prefix (p ∷ ps) [] = false
has_prefix (p ∷ ps) (c ∷ s) = let rest = has_prefix ps s in if p == c then rest else false

-- Printing and parsing of the two foreign types.
pub record Codec : Type 0 where
  pub show_uuid : Uuid → Text
  pub parse_uuid : Text → Option Uuid
  pub show_time : Time → Text
  pub parse_time : Text → Option Time

-- What the crates promise of them.
pub record IsFaithful (codec : Codec) : Type 0 where
  pub uuid_back : (u : Uuid) → codec.parse_uuid (codec.show_uuid u) ≡ some u
  pub uuid_plain : (u : Uuid) → any (λ c. c == b':') (codec.show_uuid u) ≡ false
  pub time_back : (t : Time) → codec.parse_time (codec.show_time t) ≡ some t

module _ (codec : Codec) where
  open codec use {show_uuid, parse_uuid, show_time, parse_time}

  unfoldable pub to_storage : BranchStatus → Text
  to_storage active = codes "active"
  to_storage dormant = codes "dormant"
  to_storage archived = codes "archived"
  to_storage orphan = codes "orphan"
  to_storage purged = codes "purged"
  to_storage (merged into at) = codes "merged:" ++ show_uuid into ++ b':' ∷ show_time at
  to_storage (discarded at) = codes "discarded:" ++ show_time at

  -- `value.splitn(3, ':')`: the part before the first colon, the part up to the second, the rest.
  unfoldable pub parse_merged : Text → Option BranchStatus
  unfolding split_once
  parse_merged value = elim (split_once value) [
    | none ↦ none
    | some (_, parts) ↦ elim (split_once parts) [
      | none ↦ none
      | some (uuid, time) ↦ elim (parse_uuid uuid) [
        | none ↦ none
        | some into ↦ elim (parse_time time) [ none ↦ none | some at ↦ some (merged into at) ]
      ]
    ]
  ]

  unfoldable pub parse_discarded : Text → Option BranchStatus
  unfolding split_once
  parse_discarded value = elim (split_once value) [
    | none ↦ none
    | some (_, time) ↦ elim (parse_time time) [ none ↦ none | some at ↦ some (discarded at) ]
  ]

  unfoldable pub from_storage : Text → Option BranchStatus
  unfolding text_eq has_prefix parse_merged parse_discarded
  from_storage value =
      if text_eq value (codes "active")
      then some active
      else if text_eq value (codes "dormant")
      then some dormant
      else if text_eq value (codes "archived")
      then some archived
      else if text_eq value (codes "orphan")
      then some orphan
      else if text_eq value (codes "purged")
      then some purged
      else if has_prefix (codes "merged:") value
      then parse_merged value
      else if has_prefix (codes "discarded:") value
      then parse_discarded value
      else none

-- With no colon before it, the first colon is where a text is split.
pub split_once-append :
    (a b : Text) → any (λ c. c == b':') a ≡ false → split_once (a ++ b':' ∷ b) ≡ some (a, b)
unfolding split_once
split_once-append [] b h = refl
split_once-append (c ∷ a) b h = ground (arith, split_once-append a b)

-- Every status is read back from its storage string as it was.
pub from_storage-to_storage :
    (codec : Codec)
    → IsFaithful codec
    → (s : BranchStatus) → from_storage codec (to_storage codec s) ≡ some s
unfolding from_storage to_storage
from_storage-to_storage codec law active = refl
from_storage-to_storage codec law dormant = refl
from_storage-to_storage codec law archived = refl
from_storage-to_storage codec law orphan = refl
from_storage-to_storage codec law purged = refl
from_storage-to_storage codec law (merged into at) =
    rw
      (
        split_once-append (codec.show_uuid into) (codec.show_time at) (law.uuid_plain into),
        parse_merged,
      )
      (rw (law.uuid_back into) (rw (law.time_back at) refl))
from_storage-to_storage codec law (discarded at) = rw (law.time_back at)
