-- ===== src/Json.antt =====
-- The JSON values that the crate takes apart: serde_json's `Value` with its constructors, equality,
-- and the calls of `Map` that the crate makes. A `Map` is kept sorted by key, as serde_json keeps
-- it (the crate does not turn on `preserve_order`); its laws need no order.
-- A float is an opaque code, with one code for equal floats.
pub mod Laws
use claw_branch.Shared.{
  ℕ, zero, suc, ◌+◌, ◌*◌, ◌-◌, ◌^◌, Text, text_eq, text_lt, Bool, true, false, ◌&&◌, Option, none,
  some, List, [], ◌∷◌, leb, ltb, ◌==◌, if◌then◌else◌, is_empty,
}

-- `negsuc n` is -(n + 1).
pub data ℤ : Type 0 where
  pos : ℕ → ℤ
  negsuc : ℕ → ℤ

pub data Number : Type 0 where
  integer : ℤ → Number
  float : ℕ → Number

mutual
  pub data Value : Type 0 where
    null : Value
    bool : Bool → Value
    number : Number → Value
    string : Text → Value
    array : Items → Value
    object : Map → Value

  pub data Items : Type 0 where
    nil : Items
    cons : Value → Items → Items

  pub data Map : Type 0 where
    empty : Map
    entry : Text → Value → Map → Map

unfoldable pub leb_ℤ : ℤ → ℤ → Bool
leb_ℤ (pos a) (pos b) = leb a b
leb_ℤ (pos a) (negsuc b) = false
leb_ℤ (negsuc a) (pos b) = true
leb_ℤ (negsuc a) (negsuc b) = leb b a

unfoldable pub eq_ℤ : ℤ → ℤ → Bool
eq_ℤ (pos a) (pos b) = a == b
eq_ℤ (negsuc a) (negsuc b) = a == b
eq_ℤ (pos a) (negsuc b) = false
eq_ℤ (negsuc a) (pos b) = false

unfoldable pub number_eq : Number → Number → Bool
unfolding eq_ℤ
number_eq (integer a) (integer b) = eq_ℤ a b
number_eq (float a) (float b) = a == b
number_eq (integer a) (float b) = false
number_eq (float a) (integer b) = false

abbrev pub bool_eq : Bool → Bool → Bool
bool_eq true b = b
bool_eq false true = false
bool_eq false false = true

unfoldable mutual
  unfolding text_eq number_eq

  pub value_eq : Value → Value → Bool
  value_eq null null = true
  value_eq (bool a) (bool b) = bool_eq a b
  value_eq (number a) (number b) = number_eq a b
  value_eq (string a) (string b) = text_eq a b
  value_eq (array a) (array b) = items_eq a b
  value_eq (object a) (object b) = map_eq a b
  value_eq _ _ = false

  pub items_eq : Items → Items → Bool
  items_eq nil nil = true
  items_eq (cons v a) (cons w b) = value_eq v w && items_eq a b
  items_eq _ _ = false

  pub map_eq : Map → Map → Bool
  map_eq empty empty = true
  map_eq (entry j v a) (entry k w b) = text_eq j k && value_eq v w && map_eq a b
  map_eq _ _ = false

-- `map.get(key)`
unfoldable pub get : Text → Map → Option Value
unfolding text_eq
get k empty = none
get k (entry j v m) = if text_eq k j then some v else get k m

-- `map.insert(key, value)`
unfoldable pub insert : Text → Value → Map → Map
unfolding text_eq text_lt
insert k v empty = entry k v empty
insert k v (entry j w m) =
    if text_eq k j
    then entry k v m
    else if text_lt k j
    then entry k v (entry j w m)
    else entry j w (insert k v m)

-- `map.contains_key(key)`
unfoldable pub contains_key : Text → Map → Bool
unfolding get
contains_key k m = elim (get k m) [ none ↦ false | some v ↦ true ]

-- `map.len()`
unfoldable pub map_len : Map → ℕ
map_len empty = 0
map_len (entry k v m) = suc (map_len m)

unfoldable pub keys : Map → List Text
keys empty = []
keys (entry k v m) = k ∷ keys m

-- `value.as_object()`
abbrev pub as_object : Value → Option Map
as_object (object m) = some m
as_object _ = none

abbrev pub i64_max : ℕ
i64_max = 2 ^ 63 - 1

-- The value of an integer that fits an `i64`.
unfoldable pub to_i64 : ℤ → Option ℤ
to_i64 (pos n) = if leb n i64_max then some (pos n) else none
to_i64 (negsuc n) = if leb n i64_max then some (negsuc n) else none

-- `number.as_i64()`
unfoldable pub as_i64 : Number → Option ℤ
unfolding to_i64
as_i64 (integer z) = to_i64 z
as_i64 (float f) = none

-- The decimal value of digits after `acc`.
unfoldable pub parse_digits : Text → ℕ → Option ℕ
parse_digits [] acc = some acc
parse_digits (c ∷ s) acc =
    let rest = parse_digits s (acc * 10 + (c - b'0')) in
    if leb b'0' c && leb c b'9' then rest else none

abbrev pub minus : ℕ → ℤ
minus zero = pos 0
minus (suc n) = negsuc n

unfoldable pub parse_nat : Text → Option ℕ
unfolding parse_digits
parse_nat s = if is_empty s then none else parse_digits s 0

-- `text.parse::<i64>()`: an optional sign, at least one digit, and no overflow.
unfoldable pub parse_i64 : Text → Option ℤ
unfolding parse_nat to_i64
parse_i64 [] = none
parse_i64 (c ∷ s) =
    if c == b'-'
    then elim (parse_nat s) [ none ↦ none | some n ↦ to_i64 (minus n) ]
    else if c == b'+'
    then elim (parse_nat s) [ none ↦ none | some n ↦ to_i64 (pos n) ]
    else elim (parse_nat (c ∷ s)) [ none ↦ none | some n ↦ to_i64 (pos n) ]
