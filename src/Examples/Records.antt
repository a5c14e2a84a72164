-- ===== src/Examples/Records.antt =====
-- types.rs at concrete values, with a small codec for UUIDs and times.
use claw_branch.Shared.{
  ◌++◌, ℕ, ◌+◌, ◌-◌, Text, codes, Option, none, some, [], ◌∷◌, ◌≡◌, refl, ap, arith,
}
use claw_branch.Types.{merged}
use claw_branch.Types.Storage.{Codec, IsFaithful, to_storage, from_storage, from_storage-to_storage}

abbrev shifted : Text → Option ℕ
shifted [] = none
shifted (c ∷ []) = some (c - 59)
shifted (c ∷ d ∷ s) = none

abbrev single : Text → Option ℕ
single [] = none
single (c ∷ []) = some c
single (c ∷ d ∷ s) = none

-- A UUID is one character beyond the colon, a time one character.
abbrev small_codec : Codec
small_codec = record {
  show_uuid = λ u. (u + 59) ∷ [];
  parse_uuid = shifted;
  show_time = λ t. t ∷ [];
  parse_time = single;
}

small_codec-IsFaithful : IsFaithful small_codec
small_codec-IsFaithful = record {
  uuid_back = λ u. ap some (omega arith);
  uuid_plain = λ u. ground arith;
  time_back = λ t. refl;
}

stored_merge : to_storage small_codec (merged 1 7) ≡ codes "merged:" ++ 60 ∷ b':' ∷ 7 ∷ []
unfolding to_storage
stored_merge = refl

from_storage-to_storage_example :
    from_storage small_codec (to_storage small_codec (merged 1 7)) ≡ some (merged 1 7)
from_storage-to_storage_example =
    from_storage-to_storage small_codec small_codec-IsFaithful (merged 1 7)
