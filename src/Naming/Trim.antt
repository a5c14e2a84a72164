-- ===== src/Naming/Trim.antt =====
-- branch/naming.rs: what `trim_matches` and `replace` keep of a slug.
use claw_branch.Shared.{
  ℕ, ◌≤◌, Text, Bool, true, false, ◌||◌, [], ◌∷◌, ◌==◌, length, any, all, ◌≡◌, refl, arith,
  Bool-cases, inl, inr,
}
use claw_branch.Naming.{
  starts_with, trim_start, trim_end, trim_matches, replace_slash, is_slug_char,
}

-- The alphabet of slugs.
abbrev pub in_slug : ℕ → Bool
in_slug c = is_slug_char c || c == b'-'

abbrev pub has_dot : Text → Bool
has_dot s = any (λ c. c == b'.') s

module _ (p : ℕ → Bool) where
  pub all-trim_start : (s : Text) → all p s ≡ true → all p (trim_start s) ≡ true
  unfolding trim_start
  all-trim_start [] h = h
  all-trim_start (c ∷ s) h = ground (arith, all-trim_start s)

  pub all-trim_end : (s : Text) → all p s ≡ true → all p (trim_end s) ≡ true
  unfolding trim_end
  all-trim_end [] h = h
  all-trim_end (c ∷ s) h = ground (arith, all-trim_end s)

  pub all-trim_matches : (s : Text) → all p s ≡ true → all p (trim_matches s) ≡ true
  unfolding trim_matches
  all-trim_matches s h = all-trim_end (trim_start s) (all-trim_start s h)

pub length-trim_start-le : (s : Text) → length (trim_start s) ≤ length s
unfolding trim_start
length-trim_start-le [] = omega arith
length-trim_start-le (c ∷ s) = ground (arith, length-trim_start-le s)

pub length-trim_end-le : (s : Text) → length (trim_end s) ≤ length s
unfolding trim_end
length-trim_end-le [] = omega arith
length-trim_end-le (c ∷ s) = ground (arith, length-trim_end-le s)

pub length-trim_matches-le : (s : Text) → length (trim_matches s) ≤ length s
unfolding trim_matches
length-trim_matches-le s = omega (arith, length-trim_end-le (trim_start s), length-trim_start-le s)

starts_with-trim_start : (s : Text) → starts_with b'/' (trim_start s) ≡ false
unfolding starts_with trim_start
starts_with-trim_start [] = refl
starts_with-trim_start (c ∷ s) = ground (arith, starts_with-trim_start s)

starts_with-trim_end :
    (s : Text) → starts_with b'/' s ≡ false → starts_with b'/' (trim_end s) ≡ false
unfolding starts_with trim_end
starts_with-trim_end [] h = refl
starts_with-trim_end (c ∷ s) h = ground arith

-- A trimmed text does not start with a slash.
pub starts_with-trim_matches : (s : Text) → starts_with b'/' (trim_matches s) ≡ false
unfolding trim_matches
starts_with-trim_matches s = starts_with-trim_end (trim_start s) (starts_with-trim_start s)

has_dot-trim_start : (s : Text) → has_dot s ≡ true → has_dot (trim_start s) ≡ true
unfolding trim_start
has_dot-trim_start [] h = h
has_dot-trim_start (c ∷ s) h = ground (arith, has_dot-trim_start s)

has_dot-trim_end : (s : Text) → has_dot s ≡ true → has_dot (trim_end s) ≡ true
unfolding trim_end
has_dot-trim_end [] h = h
has_dot-trim_end (c ∷ s) h = elim (Bool-cases (has_dot s)) [
  | inl e ↦ ground (arith, has_dot-trim_end s e)
  | inr e ↦ ground arith
]

-- Trimming never drops a dot.
pub has_dot-trim_matches : (s : Text) → has_dot s ≡ true → has_dot (trim_matches s) ≡ true
unfolding trim_matches
has_dot-trim_matches s h = has_dot-trim_end (trim_start s) (has_dot-trim_start s h)

pub has_dot-replace_slash : (s : Text) → has_dot s ≡ true → has_dot (replace_slash s) ≡ true
unfolding replace_slash
has_dot-replace_slash [] h = h
has_dot-replace_slash (c ∷ s) h = ground (arith, has_dot-replace_slash s)

pub all-in_slug-replace_slash :
    (s : Text) → all in_slug s ≡ true → all in_slug (replace_slash s) ≡ true
unfolding replace_slash
all-in_slug-replace_slash [] h = h
all-in_slug-replace_slash (c ∷ s) h = ground (arith, all-in_slug-replace_slash s)
