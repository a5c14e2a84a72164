-- ===== src/Diff/Entities.antt =====
-- diff/extractor.rs: the entities that a diff lists, and its counters.
use claw_branch.Shared.{
  ℕ, ◌+◌, Text, Option, none, some, List, [], ◌∷◌, ◌++◌, length, length-append, ◌≡◌, ◌↔◌, ◌⊎◌, inl,
  inr, ⊎_elim, refl, sym, ap, subst, ◌∙◌, arith, In, In-append, In-append_left, In-append_right,
  Dict, lookup, dict_keys, has_key, In-has_key, has_key-In, true,
}
use claw_branch.Json.{Value, object}
use claw_branch.Types.{
  Uuid, Time, EntityType, DiffKind, added, removed, modified, unchanged, EntityDiff, DiffStats,
  no_stats,
}
use claw_branch.Floats.{Floats}
use claw_branch.Database.{Sqlite, Db, fetch_all_entities}
use claw_branch.Diff.{
  entity_diff, compare_entity_values, count_kind, diff_ids, all_ids, diff_types, types_or_all, diff,
  diff_entity, object_or_empty,
}
use claw_branch.Diff.Fields.{In-union_keys, compare_entity_values-unchanged}

-- The counters of a list of diffs.
abbrev pub counted : DiffStats → ℕ
counted s = s.n_added + s.n_removed + s.n_modified + s.n_unchanged

counted-count_kind : (k : DiffKind) (s : DiffStats) → counted (count_kind k s) ≡ counted s + 1
counted-count_kind added s = omega arith
counted-count_kind removed s = omega arith
counted-count_kind modified s = omega arith
counted-count_kind unchanged s = omega arith

total-count_kind :
    (k : DiffKind) (s : DiffStats) → (count_kind k s).total_entities ≡ s.total_entities
total-count_kind added s = refl
total-count_kind removed s = refl
total-count_kind modified s = refl
total-count_kind unchanged s = refl

module _ (t : EntityType) (a b : Dict Value) where
  diff_ids-counted :
      (ids : List Text) (s : DiffStats)
      → (counted (diff_ids t a b ids s).1 ≡ counted s + length ids)
        × ((diff_ids t a b ids s).1.total_entities ≡ s.total_entities)
        × (length (diff_ids t a b ids s).0 ≡ length ids)
  unfolding diff_ids
  diff_ids-counted [] s = omega arith
  diff_ids-counted (id ∷ ids) s =
      let ed = entity_diff id t (lookup id a) (lookup id b) in
      omega (
        arith,
        counted-count_kind ed.diff_kind s,
        total-count_kind ed.diff_kind s,
        diff_ids-counted ids (count_kind ed.diff_kind s),
      )

diff_types-counted :
    (sql : Sqlite) (a b : Db) (ts : List EntityType) (s : DiffStats)
    → counted s ≡ s.total_entities
    → (counted (diff_types sql a b ts s).1 ≡ (diff_types sql a b ts s).1.total_entities)
      × (length (diff_types sql a b ts s).0 + s.total_entities
          ≡ (diff_types sql a b ts s).1.total_entities)
unfolding diff_types
diff_types-counted sql a b [] s h = omega arith
diff_types-counted sql a b (t ∷ ts) s h =
    let map_a = fetch_all_entities sql a t in
    let map_b = fetch_all_entities sql b t in
    let ids = all_ids map_a map_b in
    let s₁ : DiffStats = record s { total_entities = s.total_entities + length ids } in
    let (eds, s₂) = diff_ids t map_a map_b ids s₁ in
    let here = diff_ids-counted t map_a map_b ids s₁ in
    let (later, sizes) = diff_types-counted sql a b ts s₂ (omega arith) in
    (later, omega (arith, length-append {0} eds (diff_types sql a b ts s₂).0))

-- The four counters of a diff add up to the number of entities compared, which is the number of
-- entity diffs.
pub diff-counted :
    (sql : Sqlite) (f : Floats) (now : Time) (a_id : Uuid) (a : Db) (b_id : Uuid) (b : Db)
    (types : Option (List EntityType))
    → (counted (diff sql f now a_id a b_id b types).stats
        ≡ (diff sql f now a_id a b_id b types).stats.total_entities)
      × (length (diff sql f now a_id a b_id b types).entity_diffs
          ≡ (diff sql f now a_id a b_id b types).stats.total_entities)
unfolding diff
diff-counted sql f now a_id a b_id b types =
    omega (arith, diff_types-counted sql a b (types_or_all types) no_stats refl)

module _ (t : EntityType) (a b : Dict Value) where
  abbrev diff_of : Text → EntityDiff
  diff_of id = entity_diff id t (lookup id a) (lookup id b)

  In-diff_ids :
      (ed : EntityDiff) (ids : List Text) (s : DiffStats)
      → In ed (diff_ids t a b ids s).0 ↔ ((id : Text) × In id ids × (ed ≡ diff_of id))
  unfolding diff_ids
  In-diff_ids ed [] s = (absurd, λ h. h.1)
  In-diff_ids ed (id ∷ ids) s =
      let rest = In-diff_ids ed ids (count_kind (diff_of id).diff_kind s) in
      (
        ⊎_elim (λ e. (id, inl refl, e)) (λ p. let (j, q, e) = rest.0 p in (j, inr q, e)),
        λ (j, q, e). ⊎_elim (λ p. inl (e ∙ ap diff_of p)) (λ r. inr (rest.1 (j, r, e))) q,
      )

  In-all_ids : (id : Text) → In id (all_ids a b) ↔ ((has_key id a ≡ true) ⊎ (has_key id b ≡ true))
  unfolding all_ids
  In-all_ids id =
      let union = In-union_keys id (dict_keys a ++ dict_keys b) [] in
      (
        λ h.
            ⊎_elim
              (λ p.
                ⊎_elim (λ q. inl (In-has_key id a q)) (λ q. inr (In-has_key id b q))
                  (In-append id (dict_keys a) (dict_keys b) p))
              absurd (union.0 h),
        ⊎_elim
            (λ q. union.1 (inl (In-append_left id (dict_keys a) (dict_keys b) (has_key-In id a q))))
            (λ q.
              union.1 (inl (In-append_right id (dict_keys a) (dict_keys b) (has_key-In id b q)))),
      )

module _ (sql : Sqlite) (a b : Db) where
  -- The diff of an id that one side has in the table.
  abbrev pub Found : EntityDiff → EntityType → Type 0
  Found ed t =
      (id : Text) × ((has_key id (fetch_all_entities sql a t) ≡ true)
        ⊎ (has_key id (fetch_all_entities sql b t) ≡ true))
      × (ed ≡ diff_of t (fetch_all_entities sql a t) (fetch_all_entities sql b t) id)

  abbrev pub Listed : List EntityType → EntityDiff → Type 0
  Listed ts ed = (t : EntityType) × In t ts × Found ed t

  In-diff_types :
      (ed : EntityDiff) (ts : List EntityType) (s : DiffStats)
      → In ed (diff_types sql a b ts s).0 ↔ Listed ts ed
  unfolding diff_types
  In-diff_types ed [] s = (absurd, λ h. absurd h.1)
  In-diff_types ed (t ∷ ts) s =
      let map_a = fetch_all_entities sql a t in
      let map_b = fetch_all_entities sql b t in
      let ids = all_ids map_a map_b in
      let s₁ : DiffStats = record s { total_entities = s.total_entities + length ids } in
      let (eds, s₂) = diff_ids t map_a map_b ids s₁ in
      let here = In-diff_ids t map_a map_b ed ids s₁ in
      let later = In-diff_types ed ts s₂ in
      (
        λ h.
            ⊎_elim
              (λ p.
                let (id, q, e) = here.0 p in
                (t, inl refl, (id, (In-all_ids t map_a map_b id).0 q, e)))
              (λ p. let (t', q, found) = later.0 p in (t', inr q, found))
              (In-append ed eds (diff_types sql a b ts s₂).0 h),
        λ (t', q, found).
            ⊎_elim
              (λ p.
                let (id, r, e) = subst (Found ed) p found in
                In-append_left ed eds (diff_types sql a b ts s₂).0
                  (here.1 (id, (In-all_ids t map_a map_b id).1 r, e)))
              (λ p. In-append_right ed eds (diff_types sql a b ts s₂).0 (later.1 (t', p, found))) q,
      )

pub diff-Listed :
    (sql : Sqlite) (f : Floats) (now : Time) (a_id : Uuid) (a : Db) (b_id : Uuid) (b : Db)
    (types : Option (List EntityType)) (ed : EntityDiff)
    → In ed (diff sql f now a_id a b_id b types).entity_diffs
      ↔ Listed sql a b (types_or_all types) ed
unfolding diff
diff-Listed sql f now a_id a b_id b types ed =
    In-diff_types sql a b ed (types_or_all types) no_stats

as_rows :
    (id : Text) (t : EntityType) (v w : Value)
    → compare_entity_values id t v w
      ≡ compare_entity_values id t (object (object_or_empty v)) (object (object_or_empty w))
unfolding compare_entity_values
as_rows id t v w = refl

pub self-unchanged :
    (id : Text) (t : EntityType) (o : Option Value) → (entity_diff id t o o).diff_kind ≡ unchanged
unfolding entity_diff
self-unchanged id t none = refl
self-unchanged id t (some v) =
    let m = object_or_empty v in
    ap (λ (ed : EntityDiff). ed.diff_kind) (as_rows id t v v)
    ∙ (compare_entity_values-unchanged id t m m).1 (λ f. refl)

-- A database has no difference from itself: every entity of it is listed as unchanged.
pub diff_self :
    (sql : Sqlite) (f : Floats) (now : Time) (a_id : Uuid) (a : Db) (b_id : Uuid)
    (types : Option (List EntityType)) (ed : EntityDiff)
    → In ed (diff sql f now a_id a b_id a types).entity_diffs
    → ed.diff_kind ≡ unchanged
diff_self sql f now a_id a b_id types ed h =
    let (t, q, (id, p, e)) = (diff-Listed sql f now a_id a b_id a types ed).0 h in
    ap (λ (d : EntityDiff). d.diff_kind) e
    ∙ self-unchanged id t (lookup id (fetch_all_entities sql a t))

-- The kind of the same difference, seen from the other side.
abbrev pub mirror : DiffKind → DiffKind
mirror added = removed
mirror removed = added
mirror modified = modified
mirror unchanged = unchanged

compare-kinds :
    (id : Text) (t : EntityType) (v w : Value)
    → ((compare_entity_values id t v w).diff_kind ≡ unchanged)
      ⊎ ((compare_entity_values id t v w).diff_kind ≡ modified)
unfolding compare_entity_values
compare-kinds id t v w = ground arith

compare-unchanged :
    (id : Text) (t : EntityType) (v w : Value)
    → (compare_entity_values id t v w).diff_kind ≡ unchanged
    → (compare_entity_values id t w v).diff_kind ≡ unchanged
compare-unchanged id t v w h =
    let m = object_or_empty v in
    let n = object_or_empty w in
    let agree =
      (compare_entity_values-unchanged id t m n).0
        (ap (λ (ed : EntityDiff). ed.diff_kind) (sym (as_rows id t v w)) ∙ h) in
    ap (λ (ed : EntityDiff). ed.diff_kind) (as_rows id t w v)
    ∙ (compare_entity_values-unchanged id t n m).1 (λ f. sym (agree f))

compare-mirror :
    (id : Text) (t : EntityType) (v w : Value)
    → (compare_entity_values id t w v).diff_kind ≡ mirror (compare_entity_values id t v w).diff_kind
compare-mirror id t v w = ground (
  arith,
  compare-kinds id t v w,
  compare-kinds id t w v,
  compare-unchanged id t v w,
  compare-unchanged id t w v,
)

entity_diff-mirror :
    (id : Text) (t : EntityType) (x y : Option Value)
    → (entity_diff id t y x).diff_kind ≡ mirror (entity_diff id t x y).diff_kind
unfolding entity_diff
entity_diff-mirror id t none none = refl
entity_diff-mirror id t none (some w) = refl
entity_diff-mirror id t (some v) none = refl
entity_diff-mirror id t (some v) (some w) = compare-mirror id t v w

-- With the two databases exchanged an entity that was added is removed and the other way round, and
-- one that was modified or unchanged stays so.
pub diff_entity-mirror :
    (sql : Sqlite) (id : Text) (t : EntityType) (a b : Db)
    → (diff_entity sql id t b a).diff_kind ≡ mirror (diff_entity sql id t a b).diff_kind
unfolding diff_entity
diff_entity-mirror sql id t a b =
    entity_diff-mirror id t (lookup id (fetch_all_entities sql a t))
      (lookup id (fetch_all_entities sql b t))
