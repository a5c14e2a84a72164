-- ===== src/Merge/Conflict/Exact.antt =====
-- merge/conflict.rs: which conflicts are reported.
use claw_branch.Shared.{
  Text, text_eq, text_eq_iff, true, false, Option, none, some, List, [], ◌∷◌, if◌then◌else◌, Dict,
  lookup, put, dict_keys, lookup-put, lookup-In, In-lookup, Distinct-put, Distinct, In, ◌≡◌, ◌≢◌,
  ◌↔◌, inl, inr, ⊎_elim, refl, sym, ap, ◌∙◌, arith, Bool-cases, Option-cases,
}
use claw_branch.Json.{Value, null, bool, number, string, array, object, get, value_eq}
use claw_branch.Json.Laws.{value_eq_iff, value_eq→≡}
use claw_branch.Types.{FieldDiff, EntityDiff, MergeConflict}
use claw_branch.Merge.Conflict.{
  collect_changes, changes, base_value_of, conflict_at, conflicts_of, detect_conflicts,
  is_trivially_resolvable,
}

-- The new value that a list of field diffs gives to a field: that of its last diff of the field.
abbrev pub last_after : Text → List FieldDiff → Option Value
last_after f [] = none
last_after f (d ∷ ds) = elim (last_after f ds) [
  | some v ↦ some v
  | none ↦ if text_eq f d.field then some d.after else none
]

lookup-collect_changes :
    (f : Text) (ds : List FieldDiff) (acc : Dict Value)
    → lookup f (collect_changes ds acc)
      ≡ elim (last_after f ds) [ some v ↦ some v | none ↦ lookup f acc ]
unfolding collect_changes
lookup-collect_changes f [] acc = refl
lookup-collect_changes f (d ∷ ds) acc =
    ground (
      arith,
      lookup-collect_changes f ds (put d.field d.after acc),
      lookup-put f d.field d.after acc,
    )

pub lookup-changes : (f : Text) (d : EntityDiff) → lookup f (changes d) ≡ last_after f d.field_diffs
unfolding lookup
lookup-changes f d = ground (arith, lookup-collect_changes f d.field_diffs [])

Distinct-collect_changes :
    (ds : List FieldDiff) (acc : Dict Value)
    → Distinct (dict_keys acc)
    → Distinct (dict_keys (collect_changes ds acc))
unfolding collect_changes
Distinct-collect_changes [] acc h = h
Distinct-collect_changes (d ∷ ds) acc h =
    Distinct-collect_changes ds (put d.field d.after acc) (Distinct-put d.field d.after acc h)

Distinct-changes : (d : EntityDiff) → Distinct (dict_keys (changes d))
unfolding dict_keys
Distinct-changes d = Distinct-collect_changes d.field_diffs [] tt

-- The conflict of a field to which the two sides give different new values.
abbrev pub Clash : EntityDiff → EntityDiff → Value → MergeConflict → Type 0
Clash ours theirs base c =
    (f : Text) × (v : Value) × (w : Value) × (last_after f ours.field_diffs ≡ some v)
    × (last_after f theirs.field_diffs ≡ some w)
    × (v ≢ w)
    × (c ≡ conflict_at ours base f v w)

module _ (ours : EntityDiff) (base : Value) (theirs : Dict Value) where
  abbrev ClashIn : Dict Value → MergeConflict → Type 0
  ClashIn m c =
      (f : Text) × (v : Value) × (w : Value) × In (f, v) m
      × (lookup f theirs ≡ some w)
      × (v ≢ w)
      × (c ≡ conflict_at ours base f v w)

  later-ClashIn :
      (p : Text × Value) (m : Dict Value) (c : MergeConflict) → ClashIn m c → ClashIn (p ∷ m) c
  later-ClashIn p m c (f, v, w, i, l, n, e) = (f, v, w, inr i, l, n, e)

  conflicts_of-ClashIn :
      (m : Dict Value) (c : MergeConflict) → In c (conflicts_of ours base m theirs) → ClashIn m c
  unfolding conflicts_of
  conflicts_of-ClashIn [] c h = absurd h
  conflicts_of-ClashIn ((f, v) ∷ m) c h = elim (Option-cases (lookup f theirs)) [
    | inl e ↦ later-ClashIn (f, v) m c (conflicts_of-ClashIn m c (rw (e, conflicts_of) at h))
    | inr (w, e) ↦ elim (Bool-cases (value_eq v w)) [
      | inl q ↦ later-ClashIn (f, v) m c (conflicts_of-ClashIn m c (rw (e, conflicts_of, q) at h))
      | inr q ↦
          ⊎_elim (λ p. (f, v, w, inl refl, e, λ r. cc (q, (value_eq_iff v w).1 r), p))
            (λ p. later-ClashIn (f, v) m c (conflicts_of-ClashIn m c p))
            (rw (e, conflicts_of, q) at h)
    ]
  ]

  here :
      (f : Text) (v w : Value) (m : Dict Value) (c : MergeConflict)
      → lookup f theirs ≡ some w
      → v ≢ w
      → c ≡ conflict_at ours base f v w
      → In c (conflicts_of ours base ((f, v) ∷ m) theirs)
  unfolding conflicts_of
  here f v w m c l n e = elim (Bool-cases (value_eq v w)) [
    | inl q ↦ absurd (n (value_eq→≡ v w q))
    | inr q ↦ rw (l, conflicts_of, q) (inl e)
  ]

  later :
      (f : Text) (v : Value) (m : Dict Value) (c : MergeConflict)
      → In c (conflicts_of ours base m theirs)
      → In c (conflicts_of ours base ((f, v) ∷ m) theirs)
  unfolding conflicts_of
  later f v m c h = elim (Option-cases (lookup f theirs)) [
    | inl e ↦ rw (e, conflicts_of) h
    | inr (w, e) ↦ elim (Bool-cases (value_eq v w)) [
      | inl q ↦ rw (e, conflicts_of, q) h
      | inr q ↦ rw (e, conflicts_of, q) (inr h)
    ]
  ]

  ClashIn-conflicts_of :
      (m : Dict Value) (c : MergeConflict) → ClashIn m c → In c (conflicts_of ours base m theirs)
  unfolding conflicts_of
  ClashIn-conflicts_of [] c (f, v, w, i, l, n, e) = absurd i
  ClashIn-conflicts_of ((g, u) ∷ m) c (f, v, w, i, l, n, e) =
      ⊎_elim
        (λ p.
          let pf = ap (λ (q : Text × Value). q.0) p in
          let pv = ap (λ (q : Text × Value). q.1) p in
          here g u w m c (rw pf at l) (λ r. n (pv ∙ r))
            (e
              ∙ ap (λ h. conflict_at ours base h v w) pf
              ∙ ap (λ h. conflict_at ours base g h w) pv))
        (λ p. later g u m c (ClashIn-conflicts_of m c (f, v, w, p, l, n, e))) i

-- For two diffs of one entity, a conflict is in the result exactly when it is the one of some field.
detect_conflicts-Clash :
    (ours theirs : EntityDiff) (base : Value) (c : MergeConflict)
    → ours.entity_id ≡ theirs.entity_id
    → In c (detect_conflicts ours theirs base) ↔ Clash ours theirs base c
unfolding detect_conflicts
detect_conflicts-Clash ours theirs base c same =
    rw ((text_eq_iff ours.entity_id theirs.entity_id).1 same) (
      λ h.
          let (f, v, w, i, l, n, e) =
            conflicts_of-ClashIn ours base (changes theirs) (changes ours) c h in
          (
            f,
            v,
            w,
            sym (lookup-changes f ours) ∙ In-lookup f v (changes ours) (Distinct-changes ours) i,
            sym (lookup-changes f theirs) ∙ l,
            n,
            e,
          ),
      λ (f, v, w, k, l, n, e). ClashIn-conflicts_of ours base (changes theirs) (changes ours) c (
        f,
        v,
        w,
        lookup-In f v (changes ours) (lookup-changes f ours ∙ k),
        lookup-changes f theirs ∙ l,
        n,
        e,
      ),
    )

-- A field of the base as a conflict reports it: null where the base has no such field.
abbrev pub value_at : Text → Value → Value
value_at f (object m) = elim (get f m) [ none ↦ null | some v ↦ v ]
value_at f _ = null

-- The report of a field `f` to which ours gives `v` and theirs another value, `w`.
pub record Reports (ours theirs : EntityDiff) (base : Value) (f : Text) (v w : Value)
    (c : MergeConflict) : Type 0 where
  pub of_ours : last_after f ours.field_diffs ≡ some v
  pub of_theirs : last_after f theirs.field_diffs ≡ some w
  pub differ : v ≢ w
  pub entity : c.entity_id ≡ ours.entity_id
  pub of_type : c.entity_type ≡ ours.entity_type
  pub from_base : c.base_value ≡ value_at f base
  pub by_ours : c.ours_value ≡ v
  pub by_theirs : c.theirs_value ≡ w
  pub one_field : c.conflicting_fields ≡ f ∷ []

base_value_of-value_at : (f : Text) (base : Value) → base_value_of f base ≡ value_at f base
unfolding base_value_of
base_value_of-value_at f (object m) = refl
base_value_of-value_at f null = refl
base_value_of-value_at f (bool b) = refl
base_value_of-value_at f (number n) = refl
base_value_of-value_at f (string s) = refl
base_value_of-value_at f (array a) = refl

Clash-Reports :
    (ours theirs : EntityDiff) (base : Value) (c : MergeConflict)
    → Clash ours theirs base c
      ↔ ((f : Text) × (v : Value) × (w : Value) × Reports ours theirs base f v w c)
unfolding conflict_at
Clash-Reports ours theirs base c = (
  λ (f, v, w, k, l, n, e). (
    f,
    v,
    w,
    record {
      of_ours = k;
      of_theirs = l;
      differ = n;
      entity = ap (λ (x : MergeConflict). x.entity_id) e;
      of_type = ap (λ (x : MergeConflict). x.entity_type) e;
      from_base = ap (λ (x : MergeConflict). x.base_value) e ∙ base_value_of-value_at f base;
      by_ours = ap (λ (x : MergeConflict). x.ours_value) e;
      by_theirs = ap (λ (x : MergeConflict). x.theirs_value) e;
      one_field = ap (λ (x : MergeConflict). x.conflicting_fields) e;
    },
  ),
  λ (f, v, w, r). (
    f,
    v,
    w,
    r.of_ours,
    r.of_theirs,
    r.differ,
    λ i. record {
      entity_id = r.entity i;
      entity_type = r.of_type i;
      base_value = (r.from_base ∙ sym (base_value_of-value_at f base)) i;
      ours_value = r.by_ours i;
      theirs_value = r.by_theirs i;
      conflicting_fields = r.one_field i;
    },
  ),
)

-- For two diffs of one entity, a conflict is reported for exactly the fields that both sides changed
-- to different values. It names the entity, its type and the field, and has the value of ours, the
-- value of theirs and that of the base, null where the base has none.
pub detect_conflicts-exact :
    (ours theirs : EntityDiff) (base : Value) (c : MergeConflict)
    → ours.entity_id ≡ theirs.entity_id
    → In c (detect_conflicts ours theirs base)
      ↔ ((f : Text) × (v : Value) × (w : Value) × Reports ours theirs base f v w c)
detect_conflicts-exact ours theirs base c same =
    let found = detect_conflicts-Clash ours theirs base c same in
    let made = Clash-Reports ours theirs base c in
    (λ h. made.0 (found.0 h), λ r. found.1 (made.1 r))

same_values :
    (ours : EntityDiff) (base : Value) (f : Text) (v w : Value) (c : MergeConflict)
    → c ≡ conflict_at ours base f v w
    → value_eq c.ours_value c.theirs_value ≡ true
    → v ≡ w
unfolding conflict_at
same_values ours base f v w c q p =
    sym (ap (λ (d : MergeConflict). d.ours_value) q)
    ∙ value_eq→≡ c.ours_value c.theirs_value p
    ∙ ap (λ (d : MergeConflict). d.theirs_value) q

-- No conflict that is reported has two equal values, so the resolver's short cut for such conflicts
-- is never taken on them.
pub detect_conflicts-not-trivial :
    (ours theirs : EntityDiff) (base : Value) (c : MergeConflict)
    → In c (detect_conflicts ours theirs base)
    → is_trivially_resolvable c ≡ false
unfolding detect_conflicts is_trivially_resolvable
detect_conflicts-not-trivial ours theirs base c h =
    elim (Bool-cases (text_eq ours.entity_id theirs.entity_id)) [
      | inr e ↦ absurd (rw (e, detect_conflicts) at h)
      | inl e ↦
          let (f, v, w, i, l, n, q) =
            conflicts_of-ClashIn ours base (changes theirs) (changes ours) c
              (rw (e, detect_conflicts) at h) in
          elim (Bool-cases (value_eq c.ours_value c.theirs_value)) [
            | inl p ↦ absurd (n (same_values ours base f v w c q p))
            | inr p ↦ p
          ]
    ]
