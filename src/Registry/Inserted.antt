-- ===== src/Registry/Inserted.antt =====
-- branch/store.rs: what an insertion adds to the table of branches.
use claw_branch.Shared.{
  ◌+◌, Bool, true, false, ◌&&◌, [], ◌∷◌, ◌++◌, any, keep, length, length-append, any-append,
  keep-append, ==_refl, ◌≡◌, ◌⊎◌, inl, inr, refl, ap, ◌∙◌, arith, Bool-cases,
}
use claw_branch.Failure.{ok, err, branch_already_exists}
use claw_branch.Types.{Uuid, Branch, is_live}
use claw_branch.Registry.{
  Store, insert, violates_unique, update_metrics, upsert_metrics, has_id, in_workspace,
  count_active,
}

-- The registry with one more branch.
abbrev pub inserted : Branch → Store → Store
inserted b s = record s {
  rows = s.rows ++ b ∷ [];
  metrics_rows = upsert_metrics b.id b.metrics s.metrics_rows;
}

module _ (b : Branch) (s : Store) where
  insert-refused :
      any (violates_unique b) s.rows ≡ true → insert b s ≡ (err (branch_already_exists b.name), s)
  unfolding insert
  insert-refused e = rw (e, insert) refl

  there : any (has_id b.id) (s.rows ++ b ∷ []) ≡ true
  there = any-append (has_id b.id) s.rows (b ∷ []) ∙ ground (arith, ==_refl b.id)

  insert-done : any (violates_unique b) s.rows ≡ false → insert b s ≡ (ok tt, inserted b s)
  unfolding insert update_metrics
  insert-done e = rw (e, insert, update_metrics, there) refl

  -- An insertion adds the row at the end, or is refused and changes nothing.
  pub insert-cases :
      (insert b s ≡ (err (branch_already_exists b.name), s)) ⊎ (insert b s ≡ (ok tt, inserted b s))
  insert-cases = elim (Bool-cases (any (violates_unique b) s.rows)) [
    | inl e ↦ inl (insert-refused e)
    | inr e ↦ inr (insert-done e)
  ]

module _ (w : Uuid) (b : Branch) (s : Store) where
  pub count_active-inserted :
      b.workspace_id ≡ w
      → is_live b.status ≡ true
      → count_active (inserted b s) w ≡ count_active s w + 1
  unfolding count_active
  count_active-inserted e l =
      let live : Branch → Bool = λ c. in_workspace w c && is_live c.status in
      ap length (keep-append live s.rows (b ∷ []))
      ∙ length-append (keep live s.rows) (keep live (b ∷ []))
      ∙ ap (λ n. length (keep live s.rows) + n) (rw (e, ==_refl, l) refl)
