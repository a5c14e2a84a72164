-- ===== src/Naming.antt =====
-- branch/naming.rs: validation of branch names and derivation of slugs. A text is the list of its
-- code points; a name that passes the validator is ASCII, so these are its bytes.
-- `char::to_lowercase` and `char::is_whitespace` read Unicode tables: they are parameters.
pub mod Trim
pub mod Segments
pub mod Accepted
pub mod Slug
pub mod Unique
use claw_branch.Shared.{
  ℕ, zero, suc, ◌+◌, ◌*◌, ◌/◌, ◌%◌, Text, codes, text_eq, Bool, true, false, not, ◌&&◌, ◌||◌,
  Option, none, some, List, [], ◌∷◌, ◌++◌, leb, ltb, ◌==◌, if◌then◌else◌, length, take, is_empty,
  any, all, reverse,
}
use claw_branch.Failure.{
  BranchError, BranchResult, ok, err, is_err, ◌>>=◌, ◌>>◌, refuse_if, invalid_branch_name,
}

abbrev pub is_lower : ℕ → Bool
is_lower c = leb b'a' c && leb c b'z'

abbrev pub is_upper : ℕ → Bool
is_upper c = leb b'A' c && leb c b'Z'

abbrev pub is_digit : ℕ → Bool
is_digit c = leb b'0' c && leb c b'9'

-- `b.is_ascii_alphanumeric() || b == b'_' || b == b'/' || b == b'.' || b == b'-'`
unfoldable pub char_valid : ℕ → Bool
char_valid b =
    is_lower b || is_upper b || is_digit b || b == b'_' || b == b'/' || b == b'.' || b == b'-'

unfoldable pub chars_valid : Text → Bool
unfolding char_valid
chars_valid name =
    let len = length name in if len == 0 || ltb 128 len then false else all char_valid name

unfoldable pub starts_with : ℕ → Text → Bool
starts_with d [] = false
starts_with d (c ∷ s) = c == d

unfoldable pub ends_with : ℕ → Text → Bool
ends_with d [] = false
ends_with d (c ∷ []) = c == d
ends_with d (c ∷ e ∷ s) = ends_with d (e ∷ s)

-- Puts `c` in front of the first segment.
abbrev pub cons_head : ℕ → List Text → List Text
cons_head c [] = (c ∷ []) ∷ []
cons_head c (s ∷ ss) = (c ∷ s) ∷ ss

-- `str::split(d)`: at least one segment, and none holds `d`.
unfoldable pub split : ℕ → Text → List Text
split d [] = [] ∷ []
split d (c ∷ s) = let rest = split d s in if c == d then [] ∷ rest else cons_head c rest

abbrev pub dot_dot : Text
dot_dot = codes ".."

unfoldable pub validate : Text → BranchResult (Unit {0})
unfolding chars_valid starts_with split text_eq
validate name = do
  refuse_if (not (chars_valid name)) (invalid_branch_name name)
  refuse_if (starts_with b'/' name) (invalid_branch_name name)
  refuse_if (any (λ segment. text_eq segment dot_dot) (split b'/' name)) (invalid_branch_name name)
  ok tt

-- ASCII only, as `str::to_ascii_lowercase`.
unfoldable pub to_ascii_lowercase : Text → Text
to_ascii_lowercase [] = []
to_ascii_lowercase (c ∷ s) = (if is_upper c then c + 32 else c) ∷ to_ascii_lowercase s

unfoldable pub is_reserved : Text → Bool
unfolding to_ascii_lowercase text_eq
is_reserved name =
    let low = to_ascii_lowercase name in
    text_eq low (codes "trunk")
    || text_eq low (codes "main")
    || text_eq low (codes "master")
    || text_eq low (codes "head")

-- The pattern `'-' | '_' | '/'` of `trim_matches`.
abbrev pub is_trimmed : ℕ → Bool
is_trimmed c = c == b'-' || c == b'_' || c == b'/'

unfoldable pub trim_start : Text → Text
trim_start [] = []
trim_start (c ∷ s) = let rest = trim_start s in if is_trimmed c then rest else c ∷ s

unfoldable pub trim_end : Text → Text
trim_end [] = []
trim_end (c ∷ s) = let rest = trim_end s in if is_empty rest && is_trimmed c then [] else c ∷ rest

unfoldable pub trim_matches : Text → Text
unfolding trim_start trim_end
trim_matches s = trim_end (trim_start s)

-- `slug.replace('/', "-")`
unfoldable pub replace_slash : Text → Text
replace_slash [] = []
replace_slash (c ∷ s) = (if c == b'/' then b'-' else c) ∷ replace_slash s

-- The variables of the loop of `slugify`.
pub record SlugState : Type 0 where
  pub slug : Text
  pub last_was_dash : Bool

-- `'a'..='z' | '0'..='9' | '_' | '/' | '.'`
abbrev pub is_slug_char : ℕ → Bool
is_slug_char c = is_lower c || is_digit c || c == b'_' || c == b'/' || c == b'.'

abbrev pub push : SlugState → ℕ → Bool → SlugState
push st c dash = record { slug = st.slug ++ c ∷ []; last_was_dash = dash }

abbrev pub fallback : Text
fallback = codes "branch"

-- The steps of `slugify` after the first trim.
unfoldable pub or_fallback : Text → Text
or_fallback slug = if is_empty slug then fallback else slug

unfoldable pub avoid_reserved : Text → Text
unfolding is_reserved
avoid_reserved slug = if is_reserved slug then slug ++ codes "-branch" else slug

unfoldable pub shorten : Text → Text
unfolding trim_matches
shorten slug = if ltb 128 (length slug) then trim_matches (take 128 slug) else slug

unfoldable pub flatten_invalid : Text → Text
unfolding validate trim_matches replace_slash
flatten_invalid slug = if is_err (validate slug) then trim_matches (replace_slash slug) else slug

unfoldable pub ensure_valid : Text → Text
unfolding validate
ensure_valid slug = if is_err (validate slug) then fallback else slug

module _ (to_lowercase : ℕ → Text) (is_whitespace : ℕ → Bool) where
  abbrev pub lowered : Text → Text
  lowered [] = []
  lowered (c ∷ s) = to_lowercase c ++ lowered s

  -- The `match` of the loop's body. `none` is `continue`, which skips the length test.
  unfoldable pub absorb : SlugState → ℕ → Option SlugState
  unfolding ends_with
  absorb st c =
      if is_slug_char c
      then (if c == b'/' && ends_with b'/' st.slug then none else some (push st c false))
      else if c == b'-'
      then (if is_empty st.slug || st.last_was_dash then none else some (push st b'-' true))
      else if is_whitespace c
      then some (if not (is_empty st.slug) && not st.last_was_dash then push st b'-' true else st)
      else some st

  unfoldable pub slug_loop : Text → SlugState → Text
  unfolding absorb
  slug_loop [] st = st.slug
  slug_loop (c ∷ s) st = elim (absorb st c) [
    | none ↦ slug_loop s st
    | some st' ↦ elim (leb 128 (length st'.slug)) [ true ↦ st'.slug | false ↦ slug_loop s st' ]
  ]

  unfoldable pub slug_base : Text → Text
  unfolding slug_loop trim_matches or_fallback
  slug_base name =
      let slug = slug_loop (lowered name) (record { slug = []; last_was_dash = false }) in
      or_fallback (trim_matches (take 128 slug))

  unfoldable pub slugify : Text → Text
  unfolding slug_base avoid_reserved shorten flatten_invalid ensure_valid
  slugify name = ensure_valid (flatten_invalid (shorten (avoid_reserved (slug_base name))))

-- `Display` of a `u32`, on fuel: the number itself is enough. Digits in reverse.
unfoldable pub digits_rev : ℕ → ℕ → Text
digits_rev zero n = []
digits_rev (suc f) n =
    let rest = digits_rev f (n / 10) in (n % 10 + b'0') ∷ (if ltb n 10 then [] else rest)

unfoldable pub show : ℕ → Text
unfolding digits_rev
show n = reverse (digits_rev (suc n) n)

-- `existing_slugs.iter().any(|existing| existing == slug)`
unfoldable pub taken : Text → List Text → Bool
unfolding text_eq
taken slug existing = any (λ e. text_eq e slug) existing

-- `format!("{slug}-{index}")`
unfoldable pub candidate : Text → ℕ → Text
unfolding show
candidate slug index = slug ++ b'-' ∷ show index

-- The `loop` of `make_unique`, on fuel; `none` means that the fuel ran out.
unfoldable pub unique_loop : ℕ → Text → List Text → ℕ → Option Text
unfolding candidate taken
unique_loop zero slug existing index = none
unique_loop (suc f) slug existing index =
    let rest = unique_loop f slug existing (index + 1) in
    if not (taken (candidate slug index) existing) then some (candidate slug index) else rest

unfoldable pub make_unique : Text → List Text → Option Text
unfolding unique_loop
make_unique slug existing =
    if not (taken slug existing)
    then some slug
    else unique_loop (suc (length existing)) slug existing 2

-- `name.split_once('/').map(|(namespace, _)| namespace)`
unfoldable pub namespace : Text → Option Text
namespace [] = none
namespace (c ∷ s) =
    if c == b'/' then some [] else elim (namespace s) [ none ↦ none | some n ↦ some (c ∷ n) ]

abbrev pub last_or : List Text → Text → Text
last_or [] d = d
last_or (s ∷ ss) d = last_or ss s

-- `name.rsplit('/').next().unwrap_or(name)`
unfoldable pub short_name : Text → Text
unfolding split
short_name name = last_or (split b'/' name) name
