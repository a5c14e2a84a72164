-- ===== src/Naming/Accepted.antt =====
-- branch/naming.rs: which names the validator accepts, by their characters alone.
use claw_branch.Shared.{
  ℕ, ◌≤◌, Text, text_eq, text_eq→≡, Bool, true, false, ◌||◌, List, [], ◌∷◌, ◌++◌, ◌==◌, ==_iff,
  length, any, any-append, all, In, ◌≡◌, ◌≢◌, refl, sym, ap, ◌∙◌, arith, ◌↔◌, Bool-cases, inl, inr,
  append_assoc, ◌⊎◌,
}
use claw_branch.Failure.{ok}
use claw_branch.Naming.{char_valid, starts_with, cons_head, split, dot_dot, validate}
use claw_branch.Naming.Segments.{validate-IsValidName}

-- A letter or digit of ASCII, or one of `_`, `/`, `.` and `-`.
abbrev pub IsNameChar : ℕ → Type 0
IsNameChar c =
    ((97 ≤ c) × (c ≤ 122))
    ⊎ ((65 ≤ c) × (c ≤ 90))
    ⊎ ((48 ≤ c) × (c ≤ 57))
    ⊎ (c ≡ 95)
    ⊎ (c ≡ 47)
    ⊎ (c ≡ 46)
    ⊎ (c ≡ 45)

-- What may stand before and after a segment.
abbrev pub EndsSegment : Text → Type 0
EndsSegment b = (b ≡ []) ⊎ ((rest : Text) × (b ≡ b'/' ∷ rest))

abbrev pub StartsSegment : Text → Type 0
StartsSegment a = (a ≡ []) ⊎ ((rest : Text) × (a ≡ rest ++ b'/' ∷ []))

-- Somewhere in the name two dots stand alone between slashes or the name's ends.
abbrev pub HasParent : Text → Type 0
HasParent name =
    (a : Text) × (b : Text) × (name ≡ a ++ b'.' ∷ b'.' ∷ b) × StartsSegment a × EndsSegment b

-- What a branch name has to satisfy.
pub record Permitted (name : Text) : Type 0 where
  pub nonempty : 1 ≤ length name
  pub short : length name ≤ 128
  pub alphabet : (c : ℕ) → In c name → IsNameChar c
  pub relative : (rest : Text) → name ≢ b'/' ∷ rest
  pub no_parent : ¬ HasParent name

char_valid_iff : (c : ℕ) → (char_valid c ≡ true) ↔ IsNameChar c
unfolding char_valid
char_valid_iff c = (
  λ h. ground (arith, ==_iff c b'_', ==_iff c b'/', ==_iff c b'.', ==_iff c b'-'),
  λ h. ground (arith, ==_iff c b'_', ==_iff c b'/', ==_iff c b'.', ==_iff c b'-'),
)

all-char_valid : (s : Text) → all char_valid s ≡ true → (c : ℕ) → In c s → IsNameChar c
all-char_valid [] h c i = absurd i
all-char_valid (d ∷ s) h c (inl e) = (char_valid_iff c).0 (rw e (ground arith))
all-char_valid (d ∷ s) h c (inr i) = all-char_valid s (ground arith) c i

chars-all : (s : Text) → ((c : ℕ) → In c s → IsNameChar c) → all char_valid s ≡ true
chars-all [] h = refl
chars-all (d ∷ s) h = rw ((char_valid_iff d).1 (h d (inl refl))) (chars-all s (λ c i. h c (inr i)))

starts_with-slash : (s : Text) → (starts_with b'/' s ≡ false) ↔ ((rest : Text) → s ≢ b'/' ∷ rest)
unfolding starts_with
starts_with-slash [] = (λ h rest e. cc, λ h. refl)
starts_with-slash (c ∷ s) = (
  λ h rest e. slash_head c s rest h e,
  λ h. elim (Bool-cases (c == b'/')) [
    | inr e ↦ e
    | inl e ↦ absurd (h s (ap (λ d. d ∷ s) ((==_iff c b'/').0 e)))
  ],
)
  where
    slash_head : (c : ℕ) (s rest : Text) → (c == b'/') ≡ false → c ∷ s ≡ b'/' ∷ rest → ⊥
    slash_head c s rest h e = let same : c ≡ b'/' = cc in ground (arith, ==_iff c b'/')

abbrev is_parent : Text → Bool
is_parent segment = text_eq segment dot_dot

split-slash : (a b : Text) → split b'/' (a ++ b'/' ∷ b) ≡ split b'/' a ++ split b'/' b
unfolding split
split-slash [] b = refl
split-slash (c ∷ a) b = elim (Bool-cases (c == b'/')) [
  | inl e ↦ rw e (ap (λ r. [] ∷ r) (split-slash a b))
  | inr e ↦ rw e (ap (cons_head c) (split-slash a b) ∙ joined (split b'/' a) (split-nonempty a))
]
  where
    headed : (d : ℕ) (xs : List Text) → cons_head d xs ≢ []
    headed d [] = λ h. cc
    headed d (x ∷ xs) = λ h. cc

    split-nonempty : (s : Text) → (split b'/' s ≢ [])
    split-nonempty [] = λ h. cc
    split-nonempty (d ∷ s) = elim (Bool-cases (d == b'/')) [
      | inl e ↦ rw e (λ h. cc)
      | inr e ↦ rw e (headed d (split b'/' s))
    ]

    joined :
        (xs : List Text)
        → xs ≢ []
        → cons_head c (xs ++ split b'/' b) ≡ cons_head c xs ++ split b'/' b
    joined [] n = absurd (n refl)
    joined (x ∷ xs) n = refl

-- The segments of a name: the first is what stands before the first slash, and a later one stands
-- behind a slash.
abbrev Parts : Text → Text → List Text → Type 0
Parts s h t =
    ((r : Text) × (s ≡ h ++ r) × EndsSegment r)
    × (any is_parent t ≡ true
        → (a : Text) × (b : Text) × (s ≡ a ++ b'/' ∷ b'.' ∷ b'.' ∷ b) × EndsSegment b)

slash-Parts : (s h : Text) (t : List Text) → Parts s h t → Parts (b'/' ∷ s) [] (h ∷ t)
slash-Parts s h t ((r, e, n), later) = (
  (b'/' ∷ s, refl, inr (s, refl)),
  λ q. elim (Bool-cases (is_parent h)) [
    | inl p ↦ ([], r, ap (λ x. b'/' ∷ x) (e ∙ ap (λ x. x ++ r) (text_eq→≡ h dot_dot p)), n)
    | inr p ↦ let (a, b, k, m) = later (ground arith) in (b'/' ∷ a, b, ap (λ x. b'/' ∷ x) k, m)
  ],
)

other-Parts : (c : ℕ) (s h : Text) (t : List Text) → Parts s h t → Parts (c ∷ s) (c ∷ h) t
other-Parts c s h t ((r, e, n), later) =
    ((r, ap (λ x. c ∷ x) e, n), λ q. let (a, b, k, m) = later q in (c ∷ a, b, ap (λ x. c ∷ x) k, m))

split-Parts : (s : Text) → (h : Text) × (t : List Text) × (split b'/' s ≡ h ∷ t) × Parts s h t
unfolding split
split-Parts [] = ([], [], refl, (([], refl, inl refl), λ q. absurd cc))
split-Parts (c ∷ s) =
    let (h, t, e, parts) = split-Parts s in
    elim (Bool-cases (c == b'/')) [
      | inl q ↦
          let same = (==_iff c b'/').0 q in
          ([], h ∷ t, rw (q, e) refl, rw same (slash-Parts s h t parts))
      | inr q ↦ (c ∷ h, t, rw (q, e) refl, other-Parts c s h t parts)
    ]

split-HasParent : (s : Text) → any is_parent (split b'/' s) ≡ true → HasParent s
split-HasParent s q =
    let (h, t, e, ((r, k, n), later)) = split-Parts s in
    elim (Bool-cases (is_parent h)) [
      | inl p ↦ ([], r, k ∙ ap (λ x. x ++ r) (text_eq→≡ h dot_dot p), inl refl, n)
      | inr p ↦
          let (a, b, made, m) = later (tail_parent h t p (ap (any is_parent) (sym e) ∙ q)) in
          (
            a ++ b'/' ∷ [],
            b,
            made ∙ sym (append_assoc a (b'/' ∷ []) (b'.' ∷ b'.' ∷ b)),
            inr (a, refl),
            m,
          )
    ]
  where
    tail_parent :
        (h : Text) (t : List Text)
        → is_parent h ≡ false
        → any is_parent (h ∷ t) ≡ true
        → any is_parent t ≡ true
    tail_parent h t p q = ground arith

first_parent : (b : Text) → EndsSegment b → any is_parent (split b'/' (b'.' ∷ b'.' ∷ b)) ≡ true
unfolding split text_eq
first_parent b (inl e) = rw e refl
first_parent b (inr (rest, e)) = rw e refl

HasParent-split : (s : Text) → HasParent s → any is_parent (split b'/' s) ≡ true
HasParent-split s (a, b, e, inl p, n) = rw (e ∙ ap (λ x. x ++ b'.' ∷ b'.' ∷ b) p) (first_parent b n)
HasParent-split s (a, b, e, inr (c, p), n) =
    ap (λ x. any is_parent (split b'/' x))
      (e ∙ ap (λ x. x ++ b'.' ∷ b'.' ∷ b) p ∙ append_assoc c (b'/' ∷ []) (b'.' ∷ b'.' ∷ b))
    ∙ ap (any is_parent) (split-slash c (b'.' ∷ b'.' ∷ b))
    ∙ any-append is_parent (split b'/' c) (split b'/' (b'.' ∷ b'.' ∷ b))
    ∙ last_true (any is_parent (split b'/' c)) (first_parent b n)
  where
    last_true : (x : Bool) {y : Bool} → y ≡ true → (x || y) ≡ true
    last_true x h = ground arith

-- The validator accepts exactly the names of 1 to 128 characters that are ASCII letters, digits,
-- `_`, `/`, `.` or `-`, do not start with a slash, and in which no two dots stand alone between
-- slashes or the name's ends.
pub validate_iff : (name : Text) → (validate name ≡ ok tt) ↔ Permitted name
validate_iff name = (
  λ h.
      let v = (validate-IsValidName name).0 h in
      record {
        nonempty = v.nonempty;
        short = v.short;
        alphabet = all-char_valid name v.alphabet;
        relative = (starts_with-slash name).0 v.relative;
        no_parent = λ p. cc (HasParent-split name p, v.no_dot_dot);
      },
  λ p. (validate-IsValidName name).1 (record {
    nonempty = p.nonempty;
    short = p.short;
    alphabet = chars-all name p.alphabet;
    relative = (starts_with-slash name).1 p.relative;
    no_dot_dot = elim (Bool-cases (any is_parent (split b'/' name))) [
      | inr e ↦ e
      | inl e ↦ absurd (p.no_parent (split-HasParent name e))
    ];
  }),
)
