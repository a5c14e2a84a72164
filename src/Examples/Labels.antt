-- ===== src/Examples/Labels.antt =====
-- branch/naming.rs at concrete names: the cases of the source's own tests, and the theorems on names.
use claw_branch.Shared.{
  ℕ, ◌≤◌, ◌<◌, Text, codes, Bool, true, false, some, [], ◌∷◌, ◌==◌, all, ◌≡◌, ◌↔◌, ◌⊎◌, refl,
}
use claw_branch.Failure.{ok, is_err}
use claw_branch.Naming.{
  validate, slugify, make_unique, taken, candidate, is_reserved, namespace, to_ascii_lowercase,
}
use claw_branch.Naming.Accepted.{Permitted, validate_iff}
use claw_branch.Naming.Slug.{slugify_sound}
use claw_branch.Naming.Trim.{in_slug}
use claw_branch.Naming.Unique.{make_unique_first}

abbrev lower : ℕ → Text
lower c = to_ascii_lowercase (c ∷ [])

abbrev blank : ℕ → Bool
blank c = c == b' '

accepted : validate (codes "feature/search-v2") ≡ ok tt
unfolding validate
accepted = refl

refused_traversal : is_err (validate (codes "a/../b")) ≡ true
unfolding validate
refused_traversal = refl

slug_of_words : slugify lower blank (codes "My Cool Branch!") ≡ codes "my-cool-branch"
unfolding slugify
slug_of_words = refl

third_copy : make_unique (codes "dev") (codes "dev" ∷ codes "dev-2" ∷ []) ≡ some (codes "dev-3")
unfolding make_unique
third_copy = refl

in_namespace : namespace (codes "team/dev") ≡ some (codes "team")
unfolding namespace
in_namespace = refl

validate_iff_example :
    (validate (codes "feature/search-v2") ≡ ok tt) ↔ Permitted (codes "feature/search-v2")
validate_iff_example = validate_iff (codes "feature/search-v2")

slugify_sound_example :
    (validate (slugify lower blank (codes "My Cool Branch!")) ≡ ok tt)
    × (is_reserved (slugify lower blank (codes "My Cool Branch!")) ≡ false)
    × (all in_slug (slugify lower blank (codes "My Cool Branch!")) ≡ true)
slugify_sound_example = slugify_sound lower blank (codes "My Cool Branch!")

make_unique_first_example :
    (r : Text) × (make_unique (codes "dev") (codes "dev" ∷ codes "dev-2" ∷ []) ≡ some r)
    × (taken r (codes "dev" ∷ codes "dev-2" ∷ []) ≡ false)
    × ((r ≡ codes "dev")
        ⊎ (taken (codes "dev") (codes "dev" ∷ codes "dev-2" ∷ []) ≡ true)
          × ((k : ℕ) × (2 ≤ k)
              × (k ≤ 4)
              × (r ≡ candidate (codes "dev") k)
              × ((j : ℕ)
                  → 2 ≤ j
                  → j < k
                  → taken (candidate (codes "dev") j) (codes "dev" ∷ codes "dev-2" ∷ []) ≡ true)))
make_unique_first_example = make_unique_first (codes "dev") (codes "dev" ∷ codes "dev-2" ∷ [])
