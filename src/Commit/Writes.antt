-- ===== src/Commit/Writes.antt =====
-- What a commit writes to the target, and what it leaves alone.
use claw_branch.Shared.{
  ℕ, ◌+◌, Text, text_eq, Bool, false, ◌&&◌, Option-cases, List, [], ◌∷◌, ◌++◌, any, In, length,
  length-append, Dict, lookup, ◌≡◌, refl, ◌∙◌, subst, arith, Bool-cases, inl, inr, ⊎_elim, sym,
  some,
}
use claw_branch.Failure.{ok, ok-eq, then-ok}
use claw_branch.Json.{Value}
use claw_branch.Types.{EntityType, type_eq}
use claw_branch.Database.{Sqlite, Printer, Db, fetch_all_entities, upsert_entity}
use claw_branch.Merge.Applier.Batch.{row, same_entity, upsert_entity-row}
use claw_branch.Commit.Cherry.{EntitySelection}
use claw_branch.Commit.{
  final_val, Progress, ids_to_process, commit_entity, commit_entities, commit_selections,
}

-- Whether an entity stands among the ids that a selection processes.
abbrev pub processes : Sqlite → Db → EntityType → Text → EntitySelection → Bool
processes sql source t id sel =
    type_eq t sel.entity_type
    && any (text_eq id) (ids_to_process sel (fetch_all_entities sql source sel.entity_type))

-- Whether the pick selects an entity.
abbrev pub selects : Sqlite → Db → EntityType → Text → List EntitySelection → Bool
selects sql source t id sels = any (processes sql source t id) sels

-- The state after one entity was written.
abbrev written : ℕ → Text → Db → Progress → Progress
written k entity_id tx' s = record {
  committed_entity_count = s.committed_entity_count + 1;
  fields_updated = s.fields_updated + k;
  all_entity_ids = s.all_entity_ids ++ entity_id ∷ [];
  tx = tx';
}

-- What is kept by writing any entity that satisfies `Q` is kept by the loops.
module _ (sql : Sqlite) (p : Printer) (target : Db) (Q : EntityType → Text → Value → Type 0)
    (P : Progress → Type 0) where
  abbrev Keeps : Type 0
  Keeps =
      (t : EntityType) (id : Text) (v : Value) (k : ℕ) (tx' : Db) (s : Progress)
      → Q t id v
      → upsert_entity sql p t id v s.tx ≡ ok tx'
      → P s
      → P (written k id tx' s)

  -- What a selection writes of a source value.
  abbrev chosen : EntitySelection → Text → Value → Value
  chosen sel id source_val =
      (final_val sel.fields (lookup id (fetch_all_entities sql target sel.entity_type))
        source_val).0

  commit_entity-keeps :
      Keeps
      → (sel : EntitySelection) (m : Dict Value) (id : Text) (s s' : Progress)
      → ((w : Value) → lookup id m ≡ some w → Q sel.entity_type id (chosen sel id w))
      → commit_entity sql p target sel m id s ≡ ok s'
      → P s
      → P s'
  unfolding commit_entity
  commit_entity-keeps keep sel m id s s' n h y = elim (Option-cases (lookup id m)) [
    | inl e ↦ subst P (ok-eq s s' (rw (commit_entity, e) at h)) y
    | inr (source_val, e) ↦
        let (v, k) =
          final_val sel.fields (lookup id (fetch_all_entities sql target sel.entity_type))
            source_val in
        let (tx', q, r) =
          then-ok (upsert_entity sql p sel.entity_type id v s.tx) (λ tx'. ok (written k id tx' s))
            s' (rw (commit_entity, e) at h) in
        subst P (ok-eq (written k id tx' s) s' r)
          (keep sel.entity_type id v k tx' s (n source_val e) q y)
  ]

  commit_entities-keeps :
      Keeps
      → (sel : EntitySelection) (m : Dict Value) (ids : List Text) (s s' : Progress)
      → ((id : Text) (w : Value)
          → In id ids
          → lookup id m ≡ some w
          → Q sel.entity_type id (chosen sel id w))
      → commit_entities sql p target sel m ids s ≡ ok s'
      → P s
      → P s'
  unfolding commit_entities
  commit_entities-keeps keep sel m [] s s' n h y = subst P (ok-eq s s' h) y
  commit_entities-keeps keep sel m (id ∷ ids) s s' n h y =
      let (s₁, e, r) =
        then-ok (commit_entity sql p target sel m id s)
          (λ x. commit_entities sql p target sel m ids x) s' h in
      commit_entities-keeps keep sel m ids s₁ s' (λ j w i. n j w (inr i)) r
        (commit_entity-keeps keep sel m id s s₁ (λ w. n id w (inl refl)) e y)

  pub commit_selections-keeps :
      Keeps
      → (source : Db) (sels : List EntitySelection) (s s' : Progress)
      → ((sel : EntitySelection) (id : Text) (w : Value)
          → In sel sels
          → In id (ids_to_process sel (fetch_all_entities sql source sel.entity_type))
          → lookup id (fetch_all_entities sql source sel.entity_type) ≡ some w
          → Q sel.entity_type id (chosen sel id w))
      → commit_selections sql p target source sels s ≡ ok s'
      → P s
      → P s'
  unfolding commit_selections
  commit_selections-keeps keep source [] s s' n h y = subst P (ok-eq s s' h) y
  commit_selections-keeps keep source (sel ∷ sels) s s' n h y =
      let m = fetch_all_entities sql source sel.entity_type in
      let (s₁, e, r) =
        then-ok (commit_entities sql p target sel m (ids_to_process sel m) s)
          (λ x. commit_selections sql p target source sels x) s' h in
      commit_selections-keeps keep source sels s₁ s' (λ l j w i. n l j w (inr i)) r
        (commit_entities-keeps keep sel m (ids_to_process sel m) s s₁ (λ j w. n sel j w (inl refl))
          e y)

  -- What the writing of one entity brings about, and any other keeps, holds after the loops.
  commit_entities-makes :
      Keeps
      → (sel : EntitySelection) (m : Dict Value) (id : Text) (ids : List Text) (s s' : Progress)
      → ((r r' : Progress) → commit_entity sql p target sel m id r ≡ ok r' → P r')
      → ((j : Text) (w : Value)
          → In j ids
          → lookup j m ≡ some w
          → Q sel.entity_type j (chosen sel j w))
      → In id ids
      → commit_entities sql p target sel m ids s ≡ ok s'
      → P s'
  unfolding commit_entities
  commit_entities-makes keep sel m id [] s s' make n i h = absurd i
  commit_entities-makes keep sel m id (j ∷ ids) s s' make n i h =
      let (s₁, e, r) =
        then-ok (commit_entity sql p target sel m j s)
          (λ x. commit_entities sql p target sel m ids x) s' h in
      ⊎_elim
        (λ (q : id ≡ j).
          commit_entities-keeps keep sel m ids s₁ s' (λ l w x. n l w (inr x)) r
            (make s s₁ (subst (λ l. commit_entity sql p target sel m l s ≡ ok s₁) (sym q) e)))
        (λ x. commit_entities-makes keep sel m id ids s₁ s' make (λ l w y. n l w (inr y)) x r) i

  pub commit_selections-makes :
      Keeps
      → (source : Db) (sel : EntitySelection) (id : Text) (sels : List EntitySelection)
        (s s' : Progress)
      → ((r r' : Progress)
          → commit_entity sql p target sel (fetch_all_entities sql source sel.entity_type) id r
            ≡ ok r'
          → P r')
      → ((l : EntitySelection) (j : Text) (w : Value)
          → In l sels
          → In j (ids_to_process l (fetch_all_entities sql source l.entity_type))
          → lookup j (fetch_all_entities sql source l.entity_type) ≡ some w
          → Q l.entity_type j (chosen l j w))
      → In sel sels
      → In id (ids_to_process sel (fetch_all_entities sql source sel.entity_type))
      → commit_selections sql p target source sels s ≡ ok s'
      → P s'
  unfolding commit_selections
  commit_selections-makes keep source sel id [] s s' make n i j h = absurd i
  commit_selections-makes keep source sel id (l ∷ sels) s s' make n i j h =
      let m = fetch_all_entities sql source l.entity_type in
      let (s₁, e, r) =
        then-ok (commit_entities sql p target l m (ids_to_process l m) s)
          (λ x. commit_selections sql p target source sels x) s' h in
      ⊎_elim
        (λ (q : sel ≡ l).
          commit_selections-keeps keep source sels s₁ s' (λ k t w x. n k t w (inr x)) r
            (commit_entities-makes keep l m id (ids_to_process l m) s s₁
              (subst
                (λ (k : EntitySelection).
                  (x x' : Progress)
                  → commit_entity sql p target k (fetch_all_entities sql source k.entity_type) id x
                    ≡ ok x'
                  → P x')
                q make)
              (λ t w. n l t w (inl refl))
              (subst
                (λ (k : EntitySelection).
                  In id (ids_to_process k (fetch_all_entities sql source k.entity_type)))
                q j)
              e))
        (λ x.
          commit_selections-makes keep source sel id sels s₁ s' make (λ k t w y. n k t w (inr y)) x
            j r)
        i

pub commit_selections-counted :
    (sql : Sqlite) (p : Printer) (target source : Db) (sels : List EntitySelection)
    (s s' : Progress)
    → commit_selections sql p target source sels s ≡ ok s'
    → s.committed_entity_count ≡ length s.all_entity_ids
    → s'.committed_entity_count ≡ length s'.all_entity_ids
commit_selections-counted sql p target source sels s s' h y =
    commit_selections-keeps sql p target (λ _ _ _. Unit)
      (λ r. r.committed_entity_count ≡ length r.all_entity_ids)
      (λ t id v k tx' r q u c. omega (arith, c, length-append r.all_entity_ids (id ∷ []))) source
      sels s s' (λ _ _ _ _ _ _. tt) h y

any-In :
    {A : Type 0} (q : A → Bool) (xs : List A) (x : A) → any q xs ≡ false → In x xs → q x ≡ false
any-In q [] x h i = absurd i
any-In q (y ∷ ys) x h (inl e) = rw e (ground arith)
any-In q (y ∷ ys) x h (inr i) = any-In q ys x (ground arith) i

not_same :
    (t t' : EntityType) (id id' : Text)
    → (ids : List Text) → (type_eq t t' && any (text_eq id) ids) ≡ false
    → In id' ids
    → same_entity t id t' id' ≡ false
not_same t t' id id' ids h i = elim (Bool-cases (type_eq t t')) [
  | inl e ↦ ground (arith, any-In (text_eq id) ids id')
  | inr e ↦ ground arith
]

-- An entity that no selection processes keeps its row.
pub commit_selections-row :
    (sql : Sqlite) (p : Printer) (target source : Db) (sels : List EntitySelection)
    (s s' : Progress) (t : EntityType) (id : Text)
    → selects sql source t id sels ≡ false
    → commit_selections sql p target source sels s ≡ ok s'
    → row t id s'.tx ≡ row t id s.tx
commit_selections-row sql p target source sels s s' t id n h =
    commit_selections-keeps sql p target (λ t' id' v. same_entity t id t' id' ≡ false)
      (λ r. row t id r.tx ≡ row t id s.tx)
      (λ t' id' v k tx' r q u c. upsert_entity-row sql p t id t' id' v r.tx tx' q u ∙ c) source sels
      s s'
      (λ sel id' w j i u.
        not_same t sel.entity_type id id'
          (ids_to_process sel (fetch_all_entities sql source sel.entity_type))
          (any-In (processes sql source t id) sels sel n j) i)
      h refl
