-- ===== src/Commit/Made.antt =====
-- commit/selective.rs: what a commit leaves in the target for an entity that it selects.
use claw_branch.Shared.{
  Text, text_eq_iff, true, false, ◌&&◌, none, some, List, [], ◌∷◌, In, In-append_left,
  In-append_right, lookup, put, lookup-put, dict_keys, In-dict_keys, lookup-In, ◌≡◌, ◌⊎◌, refl, sym,
  ap, ◌∙◌, subst, arith, Bool-cases, inl, inr, if◌then◌else◌, is_empty,
}
use claw_branch.Failure.{ok, ok-eq, ok≢err, then-ok, database}
use claw_branch.Json.{Value, object, Map}
use claw_branch.Types.{EntityType, memory_record, session, tool_output}
use claw_branch.Database.{
  Sqlite, Printer, Db, table, set_table, stored, upsert_row, known, insert_or_replace,
  upsert_entity, fetch_all_entities,
}
use claw_branch.Merge.Applier.Batch.{row, same_entity, upsert_entity-row, type_eq→≡}
use claw_branch.Commit.Cherry.{EntitySelection}
use claw_branch.Commit.{final_val, Progress, ids_to_process, commit_entity, commit_selections}
use claw_branch.Commit.Writes.{commit_selections-makes}

-- The row that SQLite keeps of an object that is written under an id.
abbrev pub kept_of : Sqlite → Printer → EntityType → Text → Map → Value
kept_of sql p t id m = object (stored sql t (upsert_row p id m) (sql.columns t))

table-set_table :
    (t : EntityType) (d : List (Text × Value)) (db : Db) → table t (set_table t d db) ≡ d
unfolding table set_table
table-set_table memory_record d db = refl
table-set_table session d db = refl
table-set_table tool_output d db = refl

module _ (sql : Sqlite) (p : Printer) where
  upsert_entity-object :
      (t : EntityType) (id : Text) (m : Map) (db db' : Db)
      → upsert_entity sql p t id (object m) db ≡ ok db'
      → row t id db' ≡ some (kept_of sql p t id m)
  unfolding upsert_entity insert_or_replace
  upsert_entity-object t id m db db' h =
      let r = upsert_row p id m in
      let v = object (stored sql t r (sql.columns t)) in
      elim (Bool-cases (known sql t r && sql.accepts t r)) [
        | inr e ↦ absurd (ok≢err db' (database _) (sym (rw e at h)))
        | inl e ↦
            ap (row t id) (sym (ok-eq (set_table t (put id v (table t db)) db) db' (rw e at h)))
            ∙ ap (lookup id) (table-set_table t (put id v (table t db)) db)
            ∙ lookup-put id id v (table t db)
            ∙ rw ((text_eq_iff id id).1 refl) refl
      ]

  module _ (target source : Db) where
    -- A write of another entity, or of this object to this one.
    abbrev Harmless : EntityType → Text → Map → EntityType → Text → Value → Type 0
    Harmless t id m t' id' v =
        (same_entity t id t' id' ≡ false) ⊎ ((t ≡ t') × (id ≡ id') × (v ≡ object m))

    Harmless-row :
        (t : EntityType) (id : Text) (m : Map) (t' : EntityType) (id' : Text) (v : Value)
        (db db' : Db)
        → Harmless t id m t' id' v
        → upsert_entity sql p t' id' v db ≡ ok db'
        → row t id db ≡ some (kept_of sql p t id m)
        → row t id db' ≡ some (kept_of sql p t id m)
    Harmless-row t id m t' id' v db db' (inl n) u y =
        upsert_entity-row sql p t id t' id' v db db' n u ∙ y
    Harmless-row t id m t' id' v db db' (inr (a, b, c)) u y = upsert_entity-object t id m db db' (
        subst (λ x. upsert_entity sql p x id (object m) db ≡ ok db') (sym a)
          (subst (λ x. upsert_entity sql p t' x (object m) db ≡ ok db') (sym b)
            (subst (λ x. upsert_entity sql p t' id' x db ≡ ok db') c u)))

    commit_entity-object :
        (sel : EntitySelection) (id : Text) (m : Map) (r r' : Progress)
        → sel.fields ≡ none
        → lookup id (fetch_all_entities sql source sel.entity_type) ≡ some (object m)
        → commit_entity sql p target sel (fetch_all_entities sql source sel.entity_type) id r
          ≡ ok r'
        → row sel.entity_type id r'.tx ≡ some (kept_of sql p sel.entity_type id m)
    unfolding commit_entity final_val
    commit_entity-object sel id m r r' w l h =
        let (tx', u, q) =
          then-ok (upsert_entity sql p sel.entity_type id (object m) r.tx) _ r'
            (rw (commit_entity, l, w) at h) in
        ap (λ (x : Progress). row sel.entity_type id x.tx) (sym (ok-eq _ r' q))
        ∙ upsert_entity-object sel.entity_type id m r.tx tx' u

    commit_entity-listed :
        (sel : EntitySelection) (id : Text) (v : Value) (r r' : Progress)
        → lookup id (fetch_all_entities sql source sel.entity_type) ≡ some v
        → commit_entity sql p target sel (fetch_all_entities sql source sel.entity_type) id r
          ≡ ok r'
        → In id r'.all_entity_ids
    unfolding commit_entity
    commit_entity-listed sel id v r r' l h =
        let (tx', u, q) =
          then-ok
            (upsert_entity sql p sel.entity_type id
              (final_val sel.fields (lookup id (fetch_all_entities sql target sel.entity_type)) v).0
              r.tx)
            _ r' (rw (commit_entity, l) at h) in
        subst (λ (x : Progress). In id x.all_entity_ids) (ok-eq _ r' q)
          (In-append_right id r.all_entity_ids (id ∷ []) (inl refl))

    other_entity :
        (t t' : EntityType) (id id' : Text) → same_entity t id t' id' ≡ true → (t ≡ t') × (id ≡ id')
    other_entity t t' id id' h =
        (type_eq→≡ t t' (ground arith), (text_eq_iff id id').0 (ground arith))

    -- An entity that a selection processes and the source has is listed.
    pub commit_selections-listed :
        (sels : List EntitySelection) (s s' : Progress) (sel : EntitySelection) (id : Text)
        (v : Value)
        → In sel sels
        → In id (ids_to_process sel (fetch_all_entities sql source sel.entity_type))
        → lookup id (fetch_all_entities sql source sel.entity_type) ≡ some v
        → commit_selections sql p target source sels s ≡ ok s'
        → In id s'.all_entity_ids
    commit_selections-listed sels s s' sel id v i j l h =
        commit_selections-makes sql p target (λ _ _ _. Unit) (λ r. In id r.all_entity_ids)
          (λ t id' w k tx' r q u c. In-append_left id r.all_entity_ids (id' ∷ []) c) source sel id
          sels s s' (λ r r' e. commit_entity-listed sel id v r r' l e) (λ _ _ _ _ _ _. tt) i j h

    -- One that only whole selections of its type process has the source's object in the target.
    pub commit_selections-object :
        (sels : List EntitySelection) (s s' : Progress) (sel : EntitySelection) (id : Text)
        (m : Map)
        → In sel sels
        → In id (ids_to_process sel (fetch_all_entities sql source sel.entity_type))
        → lookup id (fetch_all_entities sql source sel.entity_type) ≡ some (object m)
        → ((other : EntitySelection)
            → In other sels
            → other.entity_type ≡ sel.entity_type
            → other.fields ≡ none)
        → commit_selections sql p target source sels s ≡ ok s'
        → row sel.entity_type id s'.tx ≡ some (kept_of sql p sel.entity_type id m)
    unfolding final_val
    commit_selections-object sels s s' sel id m i j l whole h =
        commit_selections-makes sql p target (Harmless sel.entity_type id m)
          (λ r. row sel.entity_type id r.tx ≡ some (kept_of sql p sel.entity_type id m))
          (λ t id' w k tx' r q u c. Harmless-row sel.entity_type id m t id' w r.tx tx' q u c) source
          sel id sels s s' (λ r r' e. commit_entity-object sel id m r r' (whole sel i refl) l e)
          (λ k t w x y z. elim (Bool-cases (same_entity sel.entity_type id k.entity_type t)) [
            | inr n ↦ inl n
            | inl n ↦
                let (a, b) = other_entity sel.entity_type k.entity_type id t n in
                let found : lookup t (fetch_all_entities sql source k.entity_type)
                    ≡ some (object m) =
                  subst (λ g. lookup t (fetch_all_entities sql source g) ≡ some (object m)) a
                    (subst
                      (λ g.
                        lookup g (fetch_all_entities sql source sel.entity_type) ≡ some (object m))
                      b l) in
                inr (a, b, rw (whole k x (sym a)) (some-eq w (object m) (sym z ∙ found)))
          ])
          i j h
      where
        some-eq : (x y : Value) → some x ≡ some y → x ≡ y
        some-eq x y e = cc

-- What a selection picks is processed: an entity that it names, or any of the source where it names
-- none.
pub picked-processed :
    (sel : EntitySelection) (d : List (Text × Value)) (id : Text) (v : Value)
    → (sel.entity_ids ≡ []) ⊎ In id sel.entity_ids
    → lookup id d ≡ some v
    → In id (ids_to_process sel d)
unfolding ids_to_process
picked-processed sel d id v (inl e) l = rw e (In-dict_keys id v d (lookup-In id v d l))
picked-processed sel d id v (inr i) l = named sel.entity_ids i
  where
    named : (ids : List Text) → In id ids → In id (if is_empty ids then dict_keys d else ids)
    named [] j = absurd j
    named (k ∷ ks) j = j
