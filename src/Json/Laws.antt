-- ===== src/Json/Laws.antt =====
-- serde_json: the laws of equality and of `Map` on which the crate relies.
use mathlib.Core.Path.{ap₂}
use claw_branch.Shared.{
  Text, text_eq, text_eq→≡, text_eq_iff, text_eq_refl, true, ◌&&◌, ◌||◌, none, some, ◌≡◌, ◌↔◌, refl,
  ap, arith, if◌then◌else◌, Bool-cases, inl, inr, In, &&-true,
}
use claw_branch.Json.{
  ℤ, pos, negsuc, Number, integer, float, Value, null, bool, number, string, array, object, Items,
  nil, cons, Map, empty, entry, eq_ℤ, number_eq, value_eq, items_eq, map_eq, get, insert,
  contains_key, keys,
}

number_eq→≡ : (a b : Number) → number_eq a b ≡ true → a ≡ b
unfolding number_eq
number_eq→≡ (integer a) (integer b) h = ap integer (eq_ℤ→≡ a b h)
  where
    eq_ℤ→≡ : (a b : ℤ) → eq_ℤ a b ≡ true → a ≡ b
    eq_ℤ→≡ (pos a) (pos b) h = ground arith
    eq_ℤ→≡ (negsuc a) (negsuc b) h = ground arith
    eq_ℤ→≡ (pos a) (negsuc b) h = cc
    eq_ℤ→≡ (negsuc a) (pos b) h = cc
number_eq→≡ (float a) (float b) h = ground arith
number_eq→≡ (integer a) (float b) h = cc
number_eq→≡ (float a) (integer b) h = cc

number_eq_refl : (a : Number) → number_eq a a ≡ true
unfolding number_eq
number_eq_refl (integer (pos a)) = ground arith
number_eq_refl (integer (negsuc a)) = ground arith
number_eq_refl (float a) = ground arith

mutual
  unfolding value_eq

  value_eq_self : (v : Value) → value_eq v v ≡ true
  value_eq_self null = refl
  value_eq_self (bool b) = ground arith
  value_eq_self (number n) = number_eq_refl n
  value_eq_self (string s) = text_eq_refl s
  value_eq_self (array a) = items_eq_self a
  value_eq_self (object m) = map_eq_self m

  items_eq_self : (a : Items) → items_eq a a ≡ true
  items_eq_self nil = refl
  items_eq_self (cons v a) = ground (arith, value_eq_self v, items_eq_self a)

  map_eq_self : (m : Map) → map_eq m m ≡ true
  map_eq_self empty = refl
  map_eq_self (entry k v m) = ground (arith, text_eq_refl k, value_eq_self v, map_eq_self m)

entry-eq :
    {j k : Text} {v w : Value} {a b : Map} → j ≡ k → v ≡ w → a ≡ b → entry j v a ≡ entry k w b
entry-eq p q r = λ i. entry (p i) (q i) (r i)

mutual
  unfolding value_eq

  value_eq_sound : (v w : Value) → value_eq v w ≡ true → v ≡ w
  value_eq_sound null null h = refl
  value_eq_sound (bool a) (bool b) h = ground arith
  value_eq_sound (number a) (number b) h = ap number (number_eq→≡ a b h)
  value_eq_sound (string a) (string b) h = ap string (text_eq→≡ a b h)
  value_eq_sound (array a) (array b) h = ap array (items_eq_sound a b h)
  value_eq_sound (object a) (object b) h = ap object (map_eq_sound a b h)
  value_eq_sound _ _ h = cc

  items_eq_sound : (a b : Items) → items_eq a b ≡ true → a ≡ b
  items_eq_sound nil nil h = refl
  items_eq_sound (cons v a) (cons w b) h =
      let (p, q) = &&-true (value_eq v w) (items_eq a b) h in
      ap₂ cons (value_eq_sound v w p) (items_eq_sound a b q)
  items_eq_sound _ _ h = cc

  map_eq_sound : (a b : Map) → map_eq a b ≡ true → a ≡ b
  map_eq_sound empty empty h = refl
  map_eq_sound (entry j v a) (entry k w b) h =
      let (p, q) = &&-true (text_eq j k && value_eq v w) (map_eq a b) h in
      let (i, r) = &&-true (text_eq j k) (value_eq v w) p in
      entry-eq (text_eq→≡ j k i) (value_eq_sound v w r) (map_eq_sound a b q)
  map_eq_sound _ _ h = cc

pub value_eq_refl : (v : Value) → value_eq v v ≡ true
value_eq_refl v = value_eq_self v

pub value_eq→≡ : (v w : Value) → value_eq v w ≡ true → v ≡ w
value_eq→≡ v w h = value_eq_sound v w h

pub value_eq_iff : (v w : Value) → (value_eq v w ≡ true) ↔ (v ≡ w)
value_eq_iff v w = (value_eq→≡ v w, λ e. rw e (value_eq_refl w))

pub get-insert :
    (j k : Text) (v : Value) (m : Map)
    → get j (insert k v m) ≡ (if text_eq j k then some v else get j m)
unfolding get insert
get-insert j k v empty = refl
get-insert j k v (entry i w m) =
    ground (arith, text_eq_iff k i, text_eq_iff j i, text_eq_iff j k, get-insert j k v m)

pub contains_key-insert :
    (j k : Text) (v : Value) (m : Map)
    → contains_key j (insert k v m) ≡ (text_eq j k || contains_key j m)
unfolding contains_key
contains_key-insert j k v m = ground (arith, get-insert j k v m)

-- A key of no entry has no value.
pub get-eq-none : (k : Text) (m : Map) → (¬ In k (keys m)) → get k m ≡ none
unfolding get keys
get-eq-none k empty h = refl
get-eq-none k (entry j v m) h = elim (Bool-cases (text_eq k j)) [
  | inl e ↦ absurd (h (inl (text_eq→≡ k j e)))
  | inr e ↦ rw e (get-eq-none k m (λ p. h (inr p)))
]
