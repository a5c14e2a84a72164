-- ===== src/Merge/Resolver.antt =====
-- merge/strategies.rs and merge/resolver.rs: the resolution of a conflict by a strategy.
pub mod Total
use claw_branch.Shared.{
  Text, text_eq, Bool, true, false, Option, none, some, List, [], ◌∷◌, if◌then◌else◌,
}
use claw_branch.Failure.{BranchResult, ok, err, ◌>>=◌}
use claw_branch.Json.{Value}
use claw_branch.Types.{EntityType, memory_record, session, tool_output, MergeConflict}
use claw_branch.Merge.Conflict.{is_trivially_resolvable}
use claw_branch.Merge.Union.{merge_json_union}

-- `FieldLevel` holds a map from field names to strategies: a block of its own.
mutual
  pub data MergeStrategy : Type 0 where
    prefer_ours prefer_theirs union manual : MergeStrategy
    field_level : Strategies → MergeStrategy

  pub data Strategies : Type 0 where
    no_strategy : Strategies
    with_strategy : Text → MergeStrategy → Strategies → Strategies

unfoldable pub strategy_for_entity_type : EntityType → MergeStrategy
strategy_for_entity_type memory_record = field_level no_strategy
strategy_for_entity_type session = prefer_ours
strategy_for_entity_type tool_output = prefer_theirs

pub data ResolvedValue : Type 0 where
  use_ours use_theirs escalate : ResolvedValue
  merged : Value → ResolvedValue

-- The arm `MergeStrategy::Union`.
unfoldable pub union_of : MergeConflict → ResolvedValue
unfolding merge_json_union
union_of c = merged (merge_json_union c.ours_value c.theirs_value)

-- The test that opens every call of `resolve`.
unfoldable pub unless_trivial : MergeConflict → ResolvedValue → ResolvedValue
unfolding is_trivially_resolvable
unless_trivial c r = if is_trivially_resolvable c then merged c.ours_value else r

-- `resolve` calls itself with the strategy that the map has for the first conflicting field, and
-- with `Union` if it has none; `resolve_by` walks that map.
unfoldable mutual
  unfolding union_of unless_trivial text_eq

  pub resolve : MergeConflict → MergeStrategy → ResolvedValue
  resolve c prefer_ours = unless_trivial c use_ours
  resolve c prefer_theirs = unless_trivial c use_theirs
  resolve c union = unless_trivial c (union_of c)
  resolve c manual = unless_trivial c escalate
  resolve c (field_level m) = unless_trivial c (resolve_by c c.conflicting_fields m)

  pub resolve_by : MergeConflict → List Text → Strategies → ResolvedValue
  resolve_by c fields no_strategy = unless_trivial c (union_of c)
  resolve_by c [] (with_strategy g s m) = unless_trivial c (union_of c)
  resolve_by c (f ∷ fields) (with_strategy g s m) =
      if text_eq f g then resolve c s else resolve_by c (f ∷ fields) m

-- `ConflictResolver::resolve`, which always returns `Ok`.
unfoldable pub resolve_result : MergeConflict → MergeStrategy → BranchResult ResolvedValue
unfolding resolve
resolve_result c s = ok (resolve c s)

unfoldable pub resolve_batch :
    List MergeConflict → MergeStrategy → BranchResult (List (MergeConflict × ResolvedValue))
unfolding resolve_result
resolve_batch [] s = ok []
resolve_batch (c ∷ cs) s = do r ← resolve_result c s; rs ← resolve_batch cs s; ok ((c, r) ∷ rs)
