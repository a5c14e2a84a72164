-- ===== src/Merge/Union/Objects.antt =====
-- merge/resolver.rs: the union of two objects, field by field.
use claw_branch.Shared.{
  Text, codes, ◌⊎◌, text_eq, text_eq_iff, text_eq→≡, Bool, true, false, not, Option, none, some,
  if◌then◌else◌, In, Distinct, ◌≡◌, refl, sym, ap, ◌∙◌, arith, Bool-cases, Option-cases, inl, inr,
}
use claw_branch.Json.{
  ℤ, pos, as_i64, parse_i64, Value, null, bool, number, string, array, object, Map, empty, entry,
  leb_ℤ, get, insert, contains_key, keys,
}
use claw_branch.Json.Laws.{get-insert, get-eq-none}
use claw_branch.Merge.Union.{
  extract_timestamp, or_else, or_zero, fill, merge_value, merge_fields, merge_json_union,
}

-- The object that a value is, or an empty one.
abbrev pub fields_of : Value → Map
fields_of (object m) = m
fields_of _ = empty

get-empty : (k : Text) → get k empty ≡ none
unfolding get
get-empty k = refl

-- The value of a key that may be absent, and what stands in for it.
abbrev or_value : Option Value → Option Value → Option Value
or_value none b = b
or_value (some a) b = some a

get-entry :
    (k j : Text) (v : Value) (m : Map)
    → get k (entry j v m) ≡ (if text_eq k j then some v else get k m)
unfolding get
get-entry k j v m = refl

contains-get :
    (k : Text) (m : Map) → contains_key k m ≡ elim (get k m) [ none ↦ false | some v ↦ true ]
unfolding contains_key
contains-get k m = refl

get-fill :
    (k : Text) (merged theirs : Map)
    → get k (fill merged theirs) ≡ or_value (get k merged) (get k theirs)
unfolding fill
get-fill k merged empty = ground (arith, get-empty k)
get-fill k merged (entry j v theirs) = ground (
  arith,
  get-fill k (if not (contains_key j merged) then insert j v merged else merged) theirs,
  get-insert k j v merged,
  text_eq_iff k j,
  get-entry k j v theirs,
  contains-get j merged,
)

-- One field of the union: both values merged, or the only one.
abbrev pub merged_field : Option Value → Option Value → Option ℤ → Option ℤ → Option Value
merged_field (some v) (some w) s t = some (merge_value v w s t)
merged_field (some v) none s t = some v
merged_field none w s t = w

abbrev with_theirs : Option Value → Value → Option ℤ → Option ℤ → Value
with_theirs none v s t = v
with_theirs (some w) v s t = merge_value v w s t

merge_fields-empty : (theirs acc : Map) (s t : Option ℤ) → merge_fields empty theirs acc s t ≡ acc
unfolding merge_value
merge_fields-empty theirs acc s t = refl

merge_fields-entry :
    (j : Text) (v : Value) (ours theirs acc : Map) (s t : Option ℤ)
    → merge_fields (entry j v ours) theirs acc s t
      ≡ merge_fields ours theirs (insert j (with_theirs (get j theirs) v s t) acc) s t
unfolding merge_value
merge_fields-entry j v ours theirs acc s t = elim (Option-cases (get j theirs)) [
  | inl e ↦ rw (e, merge_fields) refl
  | inr (w, e) ↦ rw (e, merge_fields) refl
]

abbrev field_or : Option Value → Option Value → Option ℤ → Option ℤ → Option Value → Option Value
field_or (some v) w s t acc = some (with_theirs w v s t)
field_or none w s t acc = acc

first_entry :
    (k j : Text) (v w : Value) (ours theirs acc : Map) (s t : Option ℤ)
    → w ≡ with_theirs (get j theirs) v s t
    → (¬ In j (keys ours))
    → field_or (get k ours) (get k theirs) s t (get k (insert j w acc))
      ≡ field_or (get k (entry j v ours)) (get k theirs) s t (get k acc)
first_entry k j v w ours theirs acc s t e n = elim (Bool-cases (text_eq k j)) [
  | inl same ↦
      let p = text_eq→≡ k j same in
      let absent : get k ours ≡ none = rw p (get-eq-none j ours n) in
      rw (get-insert k j w acc, get-entry k j v ours, same, absent)
        (rw e (ap (λ i. some (with_theirs (get i theirs) v s t)) (sym p)))
  | inr other ↦ rw (get-insert k j w acc, get-entry k j v ours, other)
]

get-merge_fields :
    (k : Text) (ours theirs acc : Map) (s t : Option ℤ)
    → Distinct (keys ours)
    → get k (merge_fields ours theirs acc s t)
      ≡ field_or (get k ours) (get k theirs) s t (get k acc)
unfolding keys
get-merge_fields k empty theirs acc s t d =
    ground (arith, get-empty k, merge_fields-empty theirs acc s t)
get-merge_fields k (entry j v ours) theirs acc s t d =
    let w = with_theirs (get j theirs) v s t in
    let rest = get-merge_fields k ours theirs (insert j w acc) s t d.1 in
    ap (get k) (merge_fields-entry j v ours theirs acc s t)
    ∙ rest
    ∙ first_entry k j v w ours theirs acc s t refl d.0

merge_value-objects :
    (ours theirs : Map) (s t : Option ℤ)
    → merge_value (object ours) (object theirs) s t
      ≡ object (
          fill
            (merge_fields ours theirs empty
              (or_else (extract_timestamp ours) s)
              (or_else (extract_timestamp theirs) t))
            theirs)
unfolding merge_value
merge_value-objects ours theirs s t = refl

combine_fields :
    (x y : Option Value) (s t : Option ℤ)
    → or_value (field_or x y s t none) y ≡ merged_field x y s t
combine_fields none y s t = refl
combine_fields (some v) none s t = refl
combine_fields (some v) (some w) s t = refl

-- The union of two objects has the fields of either: a field of one side as it is there, and a field
-- of both with its two values merged, under the time stamp `updated_at` of the nearest object that
-- has one.
pub merge_value-get :
    (ours theirs : Map) (s t : Option ℤ) (k : Text)
    → Distinct (keys ours)
    → get k (fields_of (merge_value (object ours) (object theirs) s t))
      ≡ merged_field
          (get k ours)
          (get k theirs)
          (or_else (extract_timestamp ours) s)
          (or_else (extract_timestamp theirs) t)
merge_value-get ours theirs s t k d =
    let s' = or_else (extract_timestamp ours) s in
    let t' = or_else (extract_timestamp theirs) t in
    ap (λ v. get k (fields_of v)) (merge_value-objects ours theirs s t)
    ∙ get-fill k (merge_fields ours theirs empty s' t') theirs
    ∙ ap (λ x. or_value x (get k theirs))
        (get-merge_fields k ours theirs empty s' t' d
          ∙ ap (field_or (get k ours) (get k theirs) s' t') (get-empty k))
    ∙ combine_fields (get k ours) (get k theirs) s' t'

abbrev pub is_scalar : Value → Bool
is_scalar (bool b) = true
is_scalar (number n) = true
is_scalar (string s) = true
is_scalar _ = false

merge_value-scalars :
    (v w : Value) (s t : Option ℤ)
    → is_scalar v ≡ true
    → is_scalar w ≡ true
    → merge_value v w s t ≡ (if leb_ℤ (or_zero s) (or_zero t) then w else v)
unfolding merge_value
merge_value-scalars (bool b) (bool c) s t h k = refl
merge_value-scalars (bool b) (number c) s t h k = refl
merge_value-scalars (bool b) (string c) s t h k = refl
merge_value-scalars (number b) (bool c) s t h k = refl
merge_value-scalars (number b) (number c) s t h k = refl
merge_value-scalars (number b) (string c) s t h k = refl
merge_value-scalars (string b) (bool c) s t h k = refl
merge_value-scalars (string b) (number c) s t h k = refl
merge_value-scalars (string b) (string c) s t h k = refl
merge_value-scalars _ null s t h k = cc
merge_value-scalars _ (array c) s t h k = cc
merge_value-scalars _ (object c) s t h k = cc
merge_value-scalars null _ s t h k = cc
merge_value-scalars (array b) _ s t h k = cc
merge_value-scalars (object b) _ s t h k = cc

or_else-none : (s : Option ℤ) → or_else s none ≡ s
or_else-none none = refl
or_else-none (some a) = refl

-- The time that the value of a key stands for: a number or a text that reads as a 64-bit integer is
-- that integer, and anything else, or no value, is time 0.
abbrev pub TimeOf : Option Value → ℤ → Type 0
TimeOf (some (number n)) z = (as_i64 n ≡ some z) ⊎ ((as_i64 n ≡ none) × (z ≡ pos 0))
TimeOf (some (string s)) z = (parse_i64 s ≡ some z) ⊎ ((parse_i64 s ≡ none) × (z ≡ pos 0))
TimeOf _ z = z ≡ pos 0

-- What `extract_timestamp` reads off a value.
abbrev stamp : Option Value → Option ℤ
stamp none = none
stamp (some v) = elim v [ number n ↦ as_i64 n | string s ↦ parse_i64 s | _ ↦ none ]

extract_timestamp-stamp : (m : Map) → extract_timestamp m ≡ stamp (get (codes "updated_at") m)
unfolding extract_timestamp
extract_timestamp-stamp m = elim (Option-cases (get (codes "updated_at") m)) [
  | inl e ↦ rw (extract_timestamp, e) refl
  | inr (v, e) ↦ rw (extract_timestamp, e) refl
]

read_or_zero : (o : Option ℤ) (z : ℤ) → (o ≡ some z) ⊎ ((o ≡ none) × (z ≡ pos 0)) → or_zero o ≡ z
read_or_zero o z (inl e) = ap or_zero e
read_or_zero o z (inr (e, p)) = ap or_zero e ∙ sym p

stamp-TimeOf : (o : Option Value) (z : ℤ) → TimeOf o z → or_zero (stamp o) ≡ z
stamp-TimeOf none z h = sym h
stamp-TimeOf (some (number n)) z h = read_or_zero (as_i64 n) z h
stamp-TimeOf (some (string s)) z h = read_or_zero (parse_i64 s) z h
stamp-TimeOf (some null) z h = sym h
stamp-TimeOf (some (bool b)) z h = sym h
stamp-TimeOf (some (array a)) z h = sym h
stamp-TimeOf (some (object m)) z h = sym h

time-TimeOf :
    (m : Map) (z : ℤ) → TimeOf (get (codes "updated_at") m) z → or_zero (extract_timestamp m) ≡ z
time-TimeOf m z h =
    ap or_zero (extract_timestamp-stamp m) ∙ stamp-TimeOf (get (codes "updated_at") m) z h

-- A scalar field of both objects takes the value of the side whose field `updated_at` is the later
-- time, theirs on a tie; a side with no readable time there counts as time 0.
pub merge_json_union-newer :
    (ours theirs : Map) (k : Text) (v w : Value)
    → Distinct (keys ours)
    → get k ours ≡ some v
    → get k theirs ≡ some w
    → is_scalar v ≡ true
    → is_scalar w ≡ true
    → (a b : ℤ) → TimeOf (get (codes "updated_at") ours) a
    → TimeOf (get (codes "updated_at") theirs) b
    → get k (fields_of (merge_json_union (object ours) (object theirs)))
      ≡ some (if leb_ℤ a b then w else v)
unfolding merge_json_union
merge_json_union-newer ours theirs k v w d e f p q a b x y =
    merge_value-get ours theirs none none k d
    ∙ rw (e, f, or_else-none (extract_timestamp ours), or_else-none (extract_timestamp theirs))
        (ap some (merge_value-scalars v w (extract_timestamp ours) (extract_timestamp theirs) p q))
    ∙ ap (λ i. some (if leb_ℤ i (or_zero (extract_timestamp theirs)) then w else v))
        (time-TimeOf ours a x)
    ∙ ap (λ i. some (if leb_ℤ a i then w else v)) (time-TimeOf theirs b y)
