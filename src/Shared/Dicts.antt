-- ===== src/Shared/Dicts.antt =====
-- Dictionaries keyed by text: a `HashMap<String, V>` as its list of entries. The source never relies
-- on the order in which a hash map is walked; here it is the order of first insertion.
use mathlib.Core.Path.{◌≡◌, refl, ap}
use mathlib.Core.Logic.{inl, inr, ◌⊎◌, ⊎_elim}
use mathlib.Core.Bool.{Bool, true, false}
use mathlib.Core.List.{List, [], ◌∷◌}
use mathlib.Core.Option.{Option, none, some}
use native.Mathlib.Omega.{arith}
use claw_branch.Shared.Tests.{if◌then◌else◌, Bool-cases}
use claw_branch.Shared.Lists.{In, Distinct}
use claw_branch.Shared.Codes.{Text, text_eq, text_eq→≡, text_eq_iff, text_eq_refl}

abbrev pub Dict : Type 0 → Type 0
Dict V = List (Text × V)

module _ {V : Type 0} where
  unfoldable pub lookup : Text → Dict V → Option V
  lookup k [] = none
  lookup k ((j, v) ∷ m) = if text_eq k j then some v else lookup k m

  unfoldable pub put : Text → V → Dict V → Dict V
  put k v [] = (k, v) ∷ []
  put k v ((j, w) ∷ m) = if text_eq k j then (j, v) ∷ m else (j, w) ∷ put k v m

  unfoldable pub remove : Text → Dict V → Dict V
  remove k [] = []
  remove k ((j, w) ∷ m) = let rest = remove k m in if text_eq k j then rest else (j, w) ∷ rest

  unfoldable pub dict_keys : Dict V → List Text
  dict_keys [] = []
  dict_keys ((j, v) ∷ m) = j ∷ dict_keys m

  abbrev pub has_key : Text → Dict V → Bool
  has_key k m = elim (lookup k m) [ none ↦ false | some v ↦ true ]

  pub lookup-put :
      (j k : Text) (v : V) (m : Dict V)
      → lookup j (put k v m) ≡ (if text_eq j k then some v else lookup j m)
  unfolding lookup put
  lookup-put j k v [] = refl
  lookup-put j k v ((i, w) ∷ m) =
      ground (arith, text_eq_iff k i, text_eq_iff j i, text_eq_iff j k, lookup-put j k v m)

  pub lookup-remove :
      (j k : Text) (m : Dict V) → lookup j (remove k m) ≡ (if text_eq j k then none else lookup j m)
  unfolding lookup remove
  lookup-remove j k [] = ground arith
  lookup-remove j k ((i, w) ∷ m) =
      ground (arith, text_eq_iff k i, text_eq_iff j i, text_eq_iff j k, lookup-remove j k m)

  In-keys-put :
      (i k : Text) (v : V) (m : Dict V)
      → In i (dict_keys (put k v m))
      → (i ≡ k) ⊎ In i (dict_keys m)
  unfolding put dict_keys
  In-keys-put i k v [] h = h
  In-keys-put i k v ((j, w) ∷ m) h = elim (Bool-cases (text_eq k j)) [
    | inl e ↦ inr (rw e at h)
    | inr e ↦
        ⊎_elim (λ p. inr (inl p)) (λ q. ⊎_elim inl (λ r. inr (inr r)) (In-keys-put i k v m q))
          (rw e at h)
  ]

  pub Distinct-put :
      (k : Text) (v : V) (m : Dict V) → Distinct (dict_keys m) → Distinct (dict_keys (put k v m))
  unfolding put dict_keys
  Distinct-put k v [] d = ((λ h. h), tt)
  Distinct-put k v ((j, w) ∷ m) d = elim (Bool-cases (text_eq k j)) [
    | inl e ↦ rw e d
    | inr e ↦ rw e (
      λ h. ⊎_elim (λ p. cc (p, e, text_eq_refl k)) d.0 (In-keys-put j k v m h),
      Distinct-put k v m d.1,
    )
  ]

  some-eq : (w v : V) → some w ≡ some v → w ≡ v
  some-eq w v h = cc

  pub lookup-In : (k : Text) (v : V) (m : Dict V) → lookup k m ≡ some v → In (k, v) m
  unfolding lookup
  lookup-In k v [] h = cc
  lookup-In k v ((j, w) ∷ m) h = elim (Bool-cases (text_eq k j)) [
    | inl e ↦ inl (cc (text_eq→≡ k j e, some-eq w v (rw e at h)))
    | inr e ↦ inr (lookup-In k v m (rw e at h))
  ]

  pub In-dict_keys : (k : Text) (v : V) (m : Dict V) → In (k, v) m → In k (dict_keys m)
  unfolding dict_keys
  In-dict_keys k v [] h = h
  In-dict_keys k v ((j, w) ∷ m) (inl e) = inl (ap (λ (p : Text × V). p.0) e)
  In-dict_keys k v ((j, w) ∷ m) (inr h) = inr (In-dict_keys k v m h)

  pub In-lookup :
      (k : Text) (v : V) (m : Dict V) → Distinct (dict_keys m) → In (k, v) m → lookup k m ≡ some v
  unfolding lookup dict_keys
  In-lookup k v [] d h = absurd h
  In-lookup k v ((j, w) ∷ m) d (inl e) =
      rw (ap (λ (p : Text × V). p.0) e, text_eq_refl) (cc (ap (λ (p : Text × V). p.1) e))
  In-lookup k v ((j, w) ∷ m) d (inr h) = elim (Bool-cases (text_eq k j)) [
    | inl e ↦ absurd (d.0 (rw (text_eq→≡ k j e) at (In-dict_keys k v m h)))
    | inr e ↦ rw e (In-lookup k v m d.1 h)
  ]

  -- A key is listed exactly when it has a value.
  pub has_key-In : (k : Text) (m : Dict V) → has_key k m ≡ true → In k (dict_keys m)
  unfolding lookup dict_keys
  has_key-In k [] h = cc
  has_key-In k ((j, w) ∷ m) h = elim (Bool-cases (text_eq k j)) [
    | inl e ↦ inl (text_eq→≡ k j e)
    | inr e ↦ inr (has_key-In k m (ground arith))
  ]

  pub In-has_key : (k : Text) (m : Dict V) → In k (dict_keys m) → has_key k m ≡ true
  unfolding lookup dict_keys
  In-has_key k [] h = absurd h
  In-has_key k ((j, w) ∷ m) (inl e) = ground (arith, text_eq_iff k j)
  In-has_key k ((j, w) ∷ m) (inr h) = ground (arith, In-has_key k m h)
