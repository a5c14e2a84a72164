-- ===== src/Diff/Fields.antt =====
-- diff/extractor.rs: the fields of an entity diff.
use claw_branch.Shared.{
  Text, text_eq, text_eq→≡, text_eq_iff, true, none, List, [], ◌∷◌, ◌++◌, any, is_empty, ◌≡◌, ◌≢◌,
  ◌↔◌, ◌⊎◌, inl, inr, ⊎_elim, refl, sym, ap, ◌∙◌, arith, if◌then◌else◌, Bool-cases, In, In-append,
  In-append_left, In-append_right, Distinct, subst_In,
}
use claw_branch.Json.{Value, null, object, Map, empty, entry, value_eq, get, keys}
use claw_branch.Json.Laws.{value_eq_iff, value_eq→≡}
use claw_branch.Types.{EntityType, DiffKind, unchanged, modified, FieldDiff}
use claw_branch.Diff.{add_key, union_keys, get_or_null, field_diffs_of, compare_entity_values}

pub any-In : (k : Text) (ks : List Text) → any (text_eq k) ks ≡ true → In k ks
any-In k [] h = cc
any-In k (j ∷ ks) h = elim (Bool-cases (text_eq k j)) [
  | inl e ↦ inl (text_eq→≡ k j e)
  | inr e ↦ inr (any-In k ks (ground arith))
]

In-any : (k : Text) (ks : List Text) → In k ks → any (text_eq k) ks ≡ true
In-any k [] h = absurd h
In-any k (j ∷ ks) (inl e) = ground (arith, text_eq_iff k j)
In-any k (j ∷ ks) (inr h) = ground (arith, In-any k ks h)

In-add_key : (j k : Text) (acc : List Text) → In j (add_key k acc) ↔ ((j ≡ k) ⊎ In j acc)
unfolding add_key
In-add_key j k acc = elim (Bool-cases (any (text_eq k) acc)) [
  | inl e ↦ rw e (inr, ⊎_elim (λ p. subst_In acc (sym p) (any-In k acc e)) (λ q. q))
  | inr e ↦ rw e (
    λ h. ⊎_elim inr (λ p. ⊎_elim inl absurd p) (In-append j acc (k ∷ []) h),
    ⊎_elim (λ p. In-append_right j acc (k ∷ []) (inl p)) (λ q. In-append_left j acc (k ∷ []) q),
  )
]

-- The union holds what either list holds.
pub In-union_keys :
    (j : Text) (ks acc : List Text) → In j (union_keys ks acc) ↔ (In j ks ⊎ In j acc)
unfolding union_keys
In-union_keys j [] acc = (inr, ⊎_elim absurd (λ q. q))
In-union_keys j (k ∷ ks) acc =
    let rest = In-union_keys j ks (add_key k acc) in
    let step = In-add_key j k acc in
    (
      λ h. ⊎_elim (λ p. inl (inr p)) (λ q. ⊎_elim (λ e. inl (inl e)) inr (step.0 q)) (rest.0 h),
      ⊎_elim (⊎_elim (λ e. rest.1 (inr (step.1 (inl e)))) (λ p. rest.1 (inl p)))
          (λ q. rest.1 (inr (step.1 (inr q)))),
    )

Distinct-concat :
    (k : Text) (acc : List Text) → Distinct acc → (¬ In k acc) → Distinct (acc ++ k ∷ [])
Distinct-concat k [] d n = (λ h. h, tt)
Distinct-concat k (j ∷ acc) d n = (
  λ h. ⊎_elim d.0 (λ p. ⊎_elim (λ e. n (inl (sym e))) absurd p) (In-append j acc (k ∷ []) h),
  Distinct-concat k acc d.1 (λ h. n (inr h)),
)

Distinct-add_key : (k : Text) (acc : List Text) → Distinct acc → Distinct (add_key k acc)
unfolding add_key
Distinct-add_key k acc d = elim (Bool-cases (any (text_eq k) acc)) [
  | inl e ↦ rw e d
  | inr e ↦ rw e (Distinct-concat k acc d (λ h. cc (In-any k acc h)))
]

-- The union holds nothing twice.
pub Distinct-union_keys : (ks acc : List Text) → Distinct acc → Distinct (union_keys ks acc)
unfolding union_keys
Distinct-union_keys [] acc d = d
Distinct-union_keys (k ∷ ks) acc d =
    Distinct-union_keys ks (add_key k acc) (Distinct-add_key k acc d)

keys-get : (k : Text) (m : Map) → (In k (keys m)) ⊎ (get k m ≡ none)
unfolding keys get
keys-get k empty = inr refl
keys-get k (entry j v m) = elim (Bool-cases (text_eq k j)) [
  | inl e ↦ inl (inl (text_eq→≡ k j e))
  | inr e ↦ ⊎_elim (λ p. inl (inr p)) (λ q. inr (rw e q)) (keys-get k m)
]

abbrev pub DiffersAt : Map → Map → FieldDiff → Type 0
DiffersAt a b d =
    (d.before ≡ get_or_null d.field a) × (d.after ≡ get_or_null d.field b) × (d.before ≢ d.after)

In-field_diffs_of :
    (a b : Map) (ks : List Text) (d : FieldDiff) → In d (field_diffs_of a b ks) → DiffersAt a b d
unfolding field_diffs_of
In-field_diffs_of a b [] d h = absurd h
In-field_diffs_of a b (k ∷ ks) d h =
    let here = value_eq_iff (get_or_null k a) (get_or_null k b) in
    elim (Bool-cases (value_eq (get_or_null k a) (get_or_null k b))) [
      | inl e ↦ In-field_diffs_of a b ks d (rw e at h)
      | inr e ↦
          ⊎_elim (λ p. rw p (refl, refl, λ q. cc (e, here.1 q))) (In-field_diffs_of a b ks d)
            (rw e at h)
    ]

FieldDiff-eq :
    (d : FieldDiff) {k : Text} {v w : Value}
    → d.field ≡ k
    → d.before ≡ v
    → d.after ≡ w
    → d ≡ record { field = k; before = v; after = w }
FieldDiff-eq d p q r = λ i. record { field = p i; before = q i; after = r i }

field_diffs_of-In :
    (a b : Map) (ks : List Text) (d : FieldDiff)
    → In d.field ks
    → DiffersAt a b d
    → In d (field_diffs_of a b ks)
unfolding field_diffs_of
field_diffs_of-In a b [] d m h = absurd m
field_diffs_of-In a b (k ∷ ks) d m h =
    let here = value_eq_iff (get_or_null k a) (get_or_null k b) in
    elim (Bool-cases (value_eq (get_or_null k a) (get_or_null k b))) [
      | inl e ↦ rw e (
          ⊎_elim (λ p. absurd (h.2 (h.0 ∙ rw (← p) at (here.0 e) ∙ sym h.1)))
            (λ p. field_diffs_of-In a b ks d p h) m)
      | inr e ↦ rw e (
          ⊎_elim
            (λ p. inl (
              FieldDiff-eq d p (h.0 ∙ ap (λ f. get_or_null f a) p)
                (h.1 ∙ ap (λ f. get_or_null f b) p)))
            (λ p. inr (field_diffs_of-In a b ks d p h)) m)
    ]

get_or_null-absent : (k : Text) (m : Map) → (In k (keys m)) ⊎ (get_or_null k m ≡ null)
unfolding get_or_null
get_or_null-absent k m = ⊎_elim inl (λ e. inr (ground arith)) (keys-get k m)

-- A field at which two objects differ is a key of one of them.
differs-In :
    (a b : Map) (d : FieldDiff) → DiffersAt a b d → In d.field (union_keys (keys a ++ keys b) [])
differs-In a b d h =
    let k = d.field in
    (In-union_keys k (keys a ++ keys b) []).1 (
      inl (
        ⊎_elim (In-append_left k (keys a) (keys b))
          (λ e.
            ⊎_elim (In-append_right k (keys a) (keys b))
              (λ f. absurd (h.2 (h.0 ∙ e ∙ sym f ∙ sym h.1))) (get_or_null-absent k b))
          (get_or_null-absent k a)))

-- The field diffs of two rows: one for each field whose values differ, a missing field counting as
-- null, with the value before and the value after, and no other.
pub compare_entity_values-exact :
    (id : Text) (t : EntityType) (a b : Map) (d : FieldDiff)
    → In d (compare_entity_values id t (object a) (object b)).field_diffs ↔ DiffersAt a b d
unfolding compare_entity_values
compare_entity_values-exact id t a b d =
    let ks = union_keys (keys a ++ keys b) [] in
    (In-field_diffs_of a b ks d, λ h. field_diffs_of-In a b ks d (differs-In a b d h) h)

abbrev kind_of : List FieldDiff → DiffKind
kind_of ds = if is_empty ds then unchanged else modified

kind-empty : (ds : List FieldDiff) (d : FieldDiff) → kind_of ds ≡ unchanged → ¬ In d ds
kind-empty [] d h p = p
kind-empty (x ∷ ds) d h p = cc

empty-kind : (ds : List FieldDiff) → ((d : FieldDiff) → ¬ In d ds) → kind_of ds ≡ unchanged
empty-kind [] h = refl
empty-kind (x ∷ ds) h = absurd (h x (inl refl))

-- Two rows are unchanged exactly if they agree in every field, a missing field counting as null.
pub compare_entity_values-unchanged :
    (id : Text) (t : EntityType) (a b : Map)
    → ((compare_entity_values id t (object a) (object b)).diff_kind ≡ unchanged)
      ↔ ((f : Text) → get_or_null f a ≡ get_or_null f b)
unfolding compare_entity_values
compare_entity_values-unchanged id t a b =
    let ds = field_diffs_of a b (union_keys (keys a ++ keys b) []) in
    let exact = λ (d : FieldDiff). compare_entity_values-exact id t a b d in
    (
      λ h f. elim (Bool-cases (value_eq (get_or_null f a) (get_or_null f b))) [
        | inl e ↦ value_eq→≡ (get_or_null f a) (get_or_null f b) e
        | inr e ↦
            let d : FieldDiff = record {
              field = f;
              before = get_or_null f a;
              after = get_or_null f b;
            } in
            absurd (
              kind-empty ds d h (
                (exact d).1 (
                  refl,
                  refl,
                  λ p. cc (e, (value_eq_iff (get_or_null f a) (get_or_null f b)).1 p),
                )))
      ],
      λ h. empty-kind ds (λ d p.
          let (before, after, differ) = (exact d).0 p in differ (before ∙ h d.field ∙ sym after)),
    )
