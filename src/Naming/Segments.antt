-- ===== src/Naming/Segments.antt =====
-- branch/naming.rs: what the validator accepts, and the parts of a namespaced name.
use claw_branch.Shared.{
  ℕ, ◌≤◌, Text, text_eq, text_eq→≡, true, false, ◌||◌, some, List, [], ◌∷◌, ◌++◌, ◌==◌, length, any,
  all, is_empty, ◌≡◌, refl, ap, arith, ◌↔◌, if◌then◌else◌, Bool-cases, inl, inr, sym, ◌∙◌,
  append_assoc, ◌⊎◌, Option-cases, List-cases,
}
use claw_branch.Failure.{ok}
use claw_branch.Naming.{
  char_valid, chars_valid, starts_with, cons_head, split, dot_dot, validate, namespace, short_name,
  last_or,
}
use claw_branch.Naming.Trim.{has_dot}

-- What a branch name has to satisfy.
pub record IsValidName (name : Text) : Type 0 where
  pub nonempty : 1 ≤ length name
  pub short : length name ≤ 128
  pub alphabet : all char_valid name ≡ true
  pub relative : starts_with b'/' name ≡ false
  pub no_dot_dot : any (λ segment. text_eq segment dot_dot) (split b'/' name) ≡ false

-- As the tests of the validator: the names of 1 to 128 allowed characters that do not start with a
-- slash and have no segment "..".
pub validate-IsValidName : (name : Text) → (validate name ≡ ok tt) ↔ IsValidName name
unfolding validate chars_valid
validate-IsValidName name = (λ h. ground arith, λ v. ground (arith, v.nonempty))

-- One step of following a relative path: the stack of directories, innermost first.
abbrev pub enter : List Text → Text → List Text
enter stack segment =
    if text_eq segment dot_dot
    then elim stack [ [] ↦ [] | _ ∷ outer ↦ outer ]
    else if is_empty segment || text_eq segment (b'.' ∷ [])
    then stack
    else segment ∷ stack

abbrev pub follow : List Text → List Text → List Text
follow stack [] = stack
follow stack (s ∷ ss) = follow (enter stack s) ss

enter-cases :
    (s : Text) (stack : List Text)
    → text_eq s dot_dot ≡ false
    → (enter stack s ≡ stack) ⊎ (enter stack s ≡ s ∷ stack)
enter-cases s stack h = ground arith

any-false :
    (s : Text) (ss : List Text)
    → any (λ segment. text_eq segment dot_dot) (s ∷ ss) ≡ false
    → (text_eq s dot_dot ≡ false) × (any (λ segment. text_eq segment dot_dot) ss ≡ false)
any-false s ss h = ground arith

follow_below :
    (ss stack : List Text)
    → any (λ segment. text_eq segment dot_dot) ss ≡ false
    → (inner : List Text) × (follow stack ss ≡ inner ++ stack)
follow_below [] stack h = ([], refl)
follow_below (s ∷ ss) stack h =
    let (here, later) = any-false s ss h in
    let (inner, eq) = follow_below ss (enter stack s) later in
    elim (enter-cases s stack here) [
      | inl e ↦ (inner, eq ∙ ap (λ r. inner ++ r) e)
      | inr e ↦
          (inner ++ s ∷ [], eq ∙ ap (λ r. inner ++ r) e ∙ sym (append_assoc inner (s ∷ []) stack))
    ]

-- A name that the validator accepts, followed as a relative path from any directory, ends in that
-- directory or below it.
pub validate-follow_below :
    (name : Text) (stack : List Text)
    → validate name ≡ ok tt
    → (inner : List Text) × (follow stack (split b'/' name) ≡ inner ++ stack)
validate-follow_below name stack h =
    follow_below (split b'/' name) stack ((validate-IsValidName name).0 h).no_dot_dot

any-dot_dot :
    (ss : List Text) → any (λ segment. text_eq segment dot_dot) ss ≡ true → any has_dot ss ≡ true
any-dot_dot [] h = h
any-dot_dot (t ∷ ss) h = elim (Bool-cases (text_eq t dot_dot)) [
  | inl e ↦ rw (text_eq→≡ t dot_dot e) refl
  | inr e ↦ ground (arith, any-dot_dot ss)
]

has_dot-cons_head :
    (c : ℕ) (ss : List Text)
    → any has_dot (cons_head c ss) ≡ true
    → ((c == b'.') || any has_dot ss) ≡ true
has_dot-cons_head c [] h = ground arith
has_dot-cons_head c (t ∷ ss) h = ground arith

any-split : (s : Text) → any has_dot (split b'/' s) ≡ true → has_dot s ≡ true
unfolding split
any-split [] h = h
any-split (c ∷ s) h = ground (arith, any-split s, has_dot-cons_head c (split b'/' s))

-- A segment ".." puts a dot into the name.
pub split-has_dot :
    (s : Text) → any (λ segment. text_eq segment dot_dot) (split b'/' s) ≡ true → has_dot s ≡ true
split-has_dot s h = any-split s (any-dot_dot (split b'/' s) h)

-- A namespace is what stands before the first slash of the name, and holds none.
pub namespace-eq-some :
    (name ns : Text)
    → namespace name ≡ some ns
    → (any (λ c. c == b'/') ns ≡ false) × ((rest : Text) × (name ≡ ns ++ b'/' ∷ rest))
unfolding namespace
namespace-eq-some [] ns h = cc
namespace-eq-some (c ∷ s) ns h = elim (Bool-cases (c == b'/')) [
  | inl e ↦ (ground arith, (s, ground arith))
  | inr e ↦ elim (Option-cases (namespace s)) [
    | inl f ↦ absurd (ground arith)
    | inr (n, f) ↦
        let (clean, (rest, eq)) = namespace-eq-some s n f in (ground arith, (rest, ground arith))
  ]
]

-- Without a slash there is no namespace, and the short name is the whole name.
last-split-clean : (s : Text) → any (λ c. c == b'/') s ≡ false → split b'/' s ≡ s ∷ []
unfolding split
last-split-clean [] h = refl
last-split-clean (c ∷ s) h = ground (arith, last-split-clean s)

split-append :
    (a b : Text) → any (λ c. c == b'/') a ≡ false → split b'/' (a ++ b'/' ∷ b) ≡ a ∷ split b'/' b
unfolding split
split-append [] b h = refl
split-append (c ∷ a) b h = ground (arith, split-append a b)

last_or-split : (s d e : Text) → last_or (split b'/' s) d ≡ last_or (split b'/' s) e
unfolding split
last_or-split [] d e = refl
last_or-split (c ∷ s) d e = elim (List-cases (split b'/' s)) [
  | inl n ↦ ground arith
  | inr (x, rest, n) ↦ ground arith
]

-- The short name of a namespaced name is the short name of what follows the namespace's slash.
pub namespace-short_name :
    (name ns : Text)
    → namespace name ≡ some ns
    → (rest : Text) × (name ≡ ns ++ b'/' ∷ rest) × (short_name name ≡ short_name rest)
unfolding short_name
namespace-short_name name ns h =
    let (clean, (rest, eq)) = namespace-eq-some name ns h in
    (rest, eq, rw (eq, split-append ns rest clean) (last_or-split rest ns rest))

pub short_name-clean : (name : Text) → any (λ c. c == b'/') name ≡ false → short_name name ≡ name
unfolding short_name
short_name-clean name h = rw (last-split-clean name h) refl
