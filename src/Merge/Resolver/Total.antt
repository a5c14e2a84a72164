-- ===== src/Merge/Resolver/Total.antt =====
-- merge/resolver.rs: how a conflict is resolved, and which conflicts are escalated.
use claw_branch.Shared.{
  Text, text_eq, Bool, true, false, not, ◌&&◌, List, [], ◌∷◌, map, if◌then◌else◌, ◌≡◌, refl, sym,
  ap, ◌∙◌, arith, Bool-cases, inl, inr,
}
use claw_branch.Failure.{ok}
use claw_branch.Types.{MergeConflict}
use claw_branch.Merge.Conflict.{is_trivially_resolvable}
use claw_branch.Merge.Resolver.{
  MergeStrategy, prefer_ours, prefer_theirs, union, manual, field_level, Strategies, no_strategy,
  with_strategy, ResolvedValue, use_ours, use_theirs, escalate, unless_trivial, union_of, resolve,
  resolve_by, resolve_batch,
}

-- The strategy that decides a field in the end, with the nested maps followed.
unfoldable mutual
  unfolding text_eq

  pub deciding : List Text → MergeStrategy → MergeStrategy
  deciding fields prefer_ours = prefer_ours
  deciding fields prefer_theirs = prefer_theirs
  deciding fields union = union
  deciding fields manual = manual
  deciding fields (field_level m) = deciding_by fields m

  pub deciding_by : List Text → Strategies → MergeStrategy
  deciding_by fields no_strategy = union
  deciding_by [] (with_strategy g s m) = union
  deciding_by (f ∷ fields) (with_strategy g s m) =
      if text_eq f g then deciding (f ∷ fields) s else deciding_by (f ∷ fields) m

-- The outcome of a strategy that is not a map.
abbrev pub outcome : MergeConflict → MergeStrategy → ResolvedValue
outcome c prefer_ours = use_ours
outcome c prefer_theirs = use_theirs
outcome c union = union_of c
outcome c manual = escalate
outcome c (field_level m) = union_of c

unless_trivial-twice :
    (c : MergeConflict) (r : ResolvedValue)
    → unless_trivial c (unless_trivial c r) ≡ unless_trivial c r
unfolding unless_trivial
unless_trivial-twice c r = ground arith

resolve_by-step :
    (c : MergeConflict) (f g : Text) (fields : List Text) (s : MergeStrategy) (m : Strategies)
    → resolve_by c (f ∷ fields) (with_strategy g s m)
      ≡ (if text_eq f g then resolve c s else resolve_by c (f ∷ fields) m)
unfolding resolve
resolve_by-step c f g fields s m = refl

deciding_by-step :
    (f g : Text) (fields : List Text) (s : MergeStrategy) (m : Strategies)
    → deciding_by (f ∷ fields) (with_strategy g s m)
      ≡ (if text_eq f g then deciding (f ∷ fields) s else deciding_by (f ∷ fields) m)
unfolding deciding
deciding_by-step f g fields s m = refl

deciding_by-outcome :
    (c : MergeConflict) (f g : Text) (fields : List Text) (s : MergeStrategy) (m : Strategies)
    → resolve c s ≡ unless_trivial c (outcome c (deciding (f ∷ fields) s))
    → resolve_by c (f ∷ fields) m ≡ unless_trivial c (outcome c (deciding_by (f ∷ fields) m))
    → resolve_by c (f ∷ fields) (with_strategy g s m)
      ≡ unless_trivial c (outcome c (deciding_by (f ∷ fields) (with_strategy g s m)))
deciding_by-outcome c f g fields s m here later =
    rw (resolve_by-step c f g fields s m, deciding_by-step f g fields s m)
      (elim (Bool-cases (text_eq f g)) [ inl h ↦ rw h here | inr h ↦ rw h later ])

mutual
  unfolding resolve deciding

  resolve-deciding :
      (c : MergeConflict) (s : MergeStrategy)
      → resolve c s ≡ unless_trivial c (outcome c (deciding c.conflicting_fields s))
  resolve-deciding c prefer_ours = refl
  resolve-deciding c prefer_theirs = refl
  resolve-deciding c union = refl
  resolve-deciding c manual = refl
  resolve-deciding c (field_level m) =
      ap (unless_trivial c) (resolve_by_deciding c c.conflicting_fields m refl)
      ∙ unless_trivial-twice c (outcome c (deciding_by c.conflicting_fields m))

  resolve_by_deciding :
      (c : MergeConflict) (fields : List Text) (m : Strategies)
      → fields ≡ c.conflicting_fields
      → resolve_by c fields m ≡ unless_trivial c (outcome c (deciding_by fields m))
  resolve_by_deciding c fields no_strategy e = refl
  resolve_by_deciding c [] (with_strategy g s m) e = refl
  resolve_by_deciding c (f ∷ fields) (with_strategy g s m) e =
      deciding_by-outcome c f g fields s m
        (resolve-deciding c s ∙ ap (λ fs. unless_trivial c (outcome c (deciding fs s))) (sym e))
        (resolve_by_deciding c (f ∷ fields) m e)

abbrev pub is_manual : MergeStrategy → Bool
is_manual manual = true
is_manual _ = false

abbrev pub escalated : ResolvedValue → Bool
escalated escalate = true
escalated _ = false

escalated-unless_trivial :
    (c : MergeConflict) (s : MergeStrategy)
    → escalated (unless_trivial c (outcome c s)) ≡ (not (is_trivially_resolvable c) && is_manual s)
unfolding unless_trivial union_of
escalated-unless_trivial c s = ground arith

-- Only a conflict with two different values that a manual strategy decides is escalated.
pub resolve-escalated :
    (c : MergeConflict) (s : MergeStrategy)
    → escalated (resolve c s)
      ≡ (not (is_trivially_resolvable c) && is_manual (deciding c.conflicting_fields s))
resolve-escalated c s =
    ap escalated (resolve-deciding c s)
    ∙ escalated-unless_trivial c (deciding c.conflicting_fields s)

-- A batch always resolves: each conflict in its place, with its own resolution.
pub resolve_batch_lem :
    (cs : List MergeConflict) (s : MergeStrategy)
    → resolve_batch cs s ≡ ok (map (λ c. (c, resolve c s)) cs)
unfolding resolve_batch
resolve_batch_lem [] s = refl
resolve_batch_lem (c ∷ cs) s = rw (resolve_batch_lem cs s) refl
