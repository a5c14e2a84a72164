-- ===== src/Naming/Slug.antt =====
-- branch/naming.rs: the shape of slugs.
use claw_branch.Shared.{
  ℕ, suc, ◌≤◌, Text, codes, text_eq, text_eq→≡, Bool, true, false, [], ◌∷◌, ◌++◌, length, take, all,
  is_empty, ◌≡◌, refl, ap, arith, Bool-cases, inl, inr, leb, all-append, all-take, length-append,
  length-take-le, Option-cases, some,
}
use claw_branch.Failure.{BranchResult, ok, err, is_err}
use claw_branch.Naming.{
  char_valid, chars_valid, starts_with, validate, to_ascii_lowercase, is_reserved, trim_matches,
  replace_slash, SlugState, fallback, lowered, absorb, slug_loop, slug_base, slugify, or_fallback,
  avoid_reserved, shorten, flatten_invalid, ensure_valid,
}
use claw_branch.Naming.Trim.{
  in_slug, has_dot, all-trim_matches, length-trim_matches-le, starts_with-trim_matches,
  has_dot-trim_matches, has_dot-replace_slash, all-in_slug-replace_slash,
}
use claw_branch.Naming.Segments.{split-has_dot}

all-concat :
    (s : Text) (c : ℕ) → all in_slug s ≡ true → in_slug c ≡ true → all in_slug (s ++ c ∷ []) ≡ true
all-concat s c h k = ground (arith, all-append in_slug s (c ∷ []))

-- A slug before the last repair: short, in the alphabet, not empty, not starting with a slash.
record IsDraft (s : Text) : Type 0 where
  alphabet : all in_slug s ≡ true
  short : length s ≤ 128
  nonempty : is_empty s ≡ false
  relative : starts_with b'/' s ≡ false

or_fallback-IsDraft :
    (s : Text)
    → all in_slug s ≡ true
    → length s ≤ 128
    → starts_with b'/' s ≡ false
    → IsDraft (or_fallback s)
unfolding or_fallback starts_with
or_fallback-IsDraft s a l r = elim (Bool-cases (is_empty s)) [
  | inl e ↦ rw e (record { alphabet = refl; short = omega arith; nonempty = refl; relative = refl })
  | inr e ↦ rw e (record { alphabet = a; short = l; nonempty = e; relative = r })
]

length-to_ascii_lowercase : (s : Text) → length (to_ascii_lowercase s) ≡ length s
unfolding to_ascii_lowercase
length-to_ascii_lowercase [] = refl
length-to_ascii_lowercase (c ∷ s) = ap suc (length-to_ascii_lowercase s)

text_eq-length : (s t : Text) → text_eq s t ≡ true → length s ≡ length t
text_eq-length s t h = ap length (text_eq→≡ s t h)

-- The reserved words have four to six letters.
pub is_reserved-length : (s : Text) → is_reserved s ≡ true → length s ≤ 6
unfolding is_reserved
is_reserved-length s h =
    let low = to_ascii_lowercase s in
    ground (
      arith,
      length-to_ascii_lowercase s,
      text_eq-length low (codes "trunk"),
      text_eq-length low (codes "main"),
      text_eq-length low (codes "master"),
      text_eq-length low (codes "head"),
    )

all-in_slug-suffix : (s : Text) → all in_slug s ≡ true → all in_slug (s ++ codes "-branch") ≡ true
all-in_slug-suffix s h = ground (arith, all-append in_slug s (codes "-branch"))

starts_with-append :
    (s t : Text)
    → is_empty s ≡ false
    → starts_with b'/' s ≡ false
    → (starts_with b'/' (s ++ t) ≡ false) × (is_empty (s ++ t) ≡ false)
unfolding starts_with
starts_with-append [] t e h = cc
starts_with-append (c ∷ s) t e h = (h, refl)

-- The suffix makes a draft that is not reserved, so the length test that follows does nothing.
avoid_reserved-IsDraft :
    (s : Text) → IsDraft s → IsDraft (avoid_reserved s) × (is_reserved (avoid_reserved s) ≡ false)
unfolding avoid_reserved
avoid_reserved-IsDraft s d = elim (Bool-cases (is_reserved s)) [
  | inr e ↦ rw e (d, e)
  | inl e ↦
      let sum = length-append s (codes "-branch") in
      let head = starts_with-append s (codes "-branch") d.nonempty d.relative in
      rw e (
        record {
          alphabet = all-in_slug-suffix s d.alphabet;
          short = omega (arith, is_reserved-length s e, sum);
          nonempty = head.1;
          relative = head.0;
        },
        ground (arith, is_reserved-length (s ++ codes "-branch"), sum),
      )
]

shorten-IsDraft : (s : Text) → IsDraft s → shorten s ≡ s
unfolding shorten
shorten-IsDraft s d = ground (arith, d.short)

in_slug-char_valid : (c : ℕ) → in_slug c ≡ true → char_valid c ≡ true
unfolding char_valid
in_slug-char_valid c h = ground arith

all-char_valid : (s : Text) → all in_slug s ≡ true → all char_valid s ≡ true
all-char_valid [] h = refl
all-char_valid (c ∷ s) h = ground (arith, in_slug-char_valid c, all-char_valid s)

is_empty-length : (s : Text) → is_empty s ≡ false → 1 ≤ length s
is_empty-length [] h = cc
is_empty-length (c ∷ s) h = omega arith

-- A draft that the validator refuses has a segment "..", hence a dot.
refused-has_dot : (s : Text) → IsDraft s → is_err (validate s) ≡ true → has_dot s ≡ true
unfolding validate chars_valid
refused-has_dot s d h = ground (
  arith,
  split-has_dot s,
  all-char_valid s d.alphabet,
  is_empty-length s d.nonempty,
  d.short,
  d.relative,
)

has_dot-to_ascii_lowercase : (s : Text) → has_dot s ≡ true → has_dot (to_ascii_lowercase s) ≡ true
unfolding to_ascii_lowercase
has_dot-to_ascii_lowercase [] h = h
has_dot-to_ascii_lowercase (c ∷ s) h = ground (arith, has_dot-to_ascii_lowercase s)

text_eq-has_dot : (s t : Text) → has_dot s ≡ true → text_eq s t ≡ true → has_dot t ≡ true
text_eq-has_dot s t h e = rw (text_eq→≡ s t e) at h

has_dot-is_reserved : (s : Text) → has_dot s ≡ true → is_reserved s ≡ false
unfolding is_reserved
has_dot-is_reserved s h =
    let low = to_ascii_lowercase s in
    let dot = has_dot-to_ascii_lowercase s h in
    ground (
      arith,
      text_eq-has_dot low (codes "trunk") dot,
      text_eq-has_dot low (codes "main") dot,
      text_eq-has_dot low (codes "master") dot,
      text_eq-has_dot low (codes "head") dot,
    )

flatten_invalid-kept :
    (s : Text)
    → IsDraft s
    → is_reserved s ≡ false
    → (is_reserved (flatten_invalid s) ≡ false) × (all in_slug (flatten_invalid s) ≡ true)
unfolding flatten_invalid
flatten_invalid-kept s d r = elim (Bool-cases (is_err (validate s))) [
  | inr e ↦ rw e (r, d.alphabet)
  | inl e ↦
      let t = replace_slash s in
      let dot = has_dot-trim_matches t (has_dot-replace_slash s (refused-has_dot s d e)) in
      rw e (
        has_dot-is_reserved (trim_matches t) dot,
        all-trim_matches in_slug t (all-in_slug-replace_slash s d.alphabet),
      )
]

is_err-false : (r : BranchResult (Unit {0})) → is_err r ≡ false → r ≡ ok tt
is_err-false (ok a) h = refl
is_err-false (err e) h = cc

fallback-valid : validate fallback ≡ ok tt
unfolding validate
fallback-valid = refl

fallback-free : is_reserved fallback ≡ false
unfolding is_reserved
fallback-free = refl

ensure_valid-kept :
    (s : Text)
    → is_reserved s ≡ false
    → all in_slug s ≡ true
    → (validate (ensure_valid s) ≡ ok tt)
      × (is_reserved (ensure_valid s) ≡ false)
      × (all in_slug (ensure_valid s) ≡ true)
unfolding ensure_valid
ensure_valid-kept s r a = elim (Bool-cases (is_err (validate s))) [
  | inr e ↦ rw e (is_err-false (validate s) e, r, a)
  | inl e ↦ rw e (fallback-valid, fallback-free, refl)
]

module _ (to_lowercase : ℕ → Text) (is_whitespace : ℕ → Bool) where
  absorb-in_slug :
      (st st' : SlugState) (c : ℕ)
      → all in_slug st.slug ≡ true
      → absorb to_lowercase is_whitespace st c ≡ some st'
      → all in_slug st'.slug ≡ true
  unfolding absorb
  absorb-in_slug st st' c h e = ground (arith, all-concat st.slug c, all-concat st.slug b'-')

  slug_loop-in_slug :
      (s : Text) (st : SlugState)
      → all in_slug st.slug ≡ true
      → all in_slug (slug_loop to_lowercase is_whitespace s st) ≡ true
  unfolding slug_loop
  slug_loop-in_slug [] st h = h
  slug_loop-in_slug (c ∷ s) st h = elim (Option-cases (absorb to_lowercase is_whitespace st c)) [
    | inl e ↦ rw (e, slug_loop) (slug_loop-in_slug s st h)
    | inr (st', e) ↦
        let kept = absorb-in_slug st st' c h e in
        elim (Bool-cases (leb 128 (length st'.slug))) [
          | inl f ↦ rw (e, slug_loop, f) kept
          | inr f ↦ rw (e, slug_loop, f) (slug_loop-in_slug s st' kept)
        ]
  ]

  slug_base-IsDraft : (name : Text) → IsDraft (slug_base to_lowercase is_whitespace name)
  unfolding slug_base
  slug_base-IsDraft name =
      let start : SlugState = record { slug = []; last_was_dash = false } in
      let slug =
        slug_loop to_lowercase is_whitespace (lowered to_lowercase is_whitespace name) start in
      let short = take 128 slug in
      or_fallback-IsDraft (trim_matches short)
        (all-trim_matches in_slug short (
          all-take in_slug 128 slug
            (slug_loop-in_slug (lowered to_lowercase is_whitespace name) start refl)))
        (omega (arith, length-trim_matches-le short, length-take-le 128 slug))
        (starts_with-trim_matches short)

  -- Whatever the label is, the slug passes the validator, is not a reserved name in any casing, and
  -- holds only lower-case letters, digits and the signs _ / . -
  pub slugify_sound :
      (name : Text)
      → (validate (slugify to_lowercase is_whitespace name) ≡ ok tt)
        × (is_reserved (slugify to_lowercase is_whitespace name) ≡ false)
        × (all in_slug (slugify to_lowercase is_whitespace name) ≡ true)
  unfolding slugify
  slugify_sound name =
      let base = slug_base to_lowercase is_whitespace name in
      let (draft, free) = avoid_reserved-IsDraft base (slug_base-IsDraft name) in
      let (free', alphabet) = flatten_invalid-kept (avoid_reserved base) draft free in
      rw (shorten-IsDraft (avoid_reserved base) draft)
        (ensure_valid-kept (flatten_invalid (avoid_reserved base)) free' alphabet)
