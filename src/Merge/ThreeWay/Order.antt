-- ===== src/Merge/ThreeWay/Order.antt =====
-- merge/three_way.rs and merge/conflict.rs: the loops walk hash maps, so what they find is stated for
-- every order of the walk.
use claw_branch.Shared.{
  Text, Bool, Option, none, some, List, [], ◌∷◌, ◌++◌, append_assoc, keep, is_empty, Dict, lookup,
  if◌then◌else◌, ◌≡◌, refl, sym, ap, ◌∙◌, subst, Bool-cases, Option-cases, List-cases, inl, inr,
}
use mathlib.Core.List.{Permᴰ}
use mathlib.Core.List.Permᴰ
use claw_branch.Json.{Value, value_eq}
use claw_branch.Types.{EntityDiff, MergeConflict, is_unchanged}
use claw_branch.Merge.Conflict.{conflict_at, conflicts_of}
use claw_branch.Merge.ThreeWay.{conflicts_with, preview_loop}

pub rearranged :
    {A : Type 0} {xs xs' ys ys' : List A} → xs ≡ xs' → ys ≡ ys' → Permᴰ xs' ys' → Permᴰ xs ys
rearranged {xs = xs} {ys' = ys'} e f p =
    subst (λ z. Permᴰ xs z) (sym f) (subst (λ z. Permᴰ z ys') (sym e) p)

pub Perm-is_empty : {A : Type 0} {xs ys : List A} → Permᴰ xs ys → is_empty xs ≡ is_empty ys
Perm-is_empty Permᴰ.nil = refl
Perm-is_empty (Permᴰ.cons e p) = refl
Perm-is_empty (Permᴰ.swap e f) = refl
Perm-is_empty (Permᴰ.trans p q) = Perm-is_empty p ∙ Perm-is_empty q

pub keep-Perm :
    {A : Type 0} (q : A → Bool) {xs ys : List A} → Permᴰ xs ys → Permᴰ (keep q xs) (keep q ys)
keep-Perm q Permᴰ.nil = Permᴰ.nil
keep-Perm q (Permᴰ.cons {a = a} e p) = elim (Bool-cases (q a)) [
  | inl h ↦ rw (h, ap q (sym e) ∙ h) (Permᴰ.cons e (keep-Perm q p))
  | inr h ↦ rw (h, ap q (sym e) ∙ h) (keep-Perm q p)
]
keep-Perm q (Permᴰ.swap {a = a} {b = b} {l = l} e f) = elim (Bool-cases (q a)) [
  | inl h ↦ elim (Bool-cases (q b)) [
    | inl k ↦ rw (h, k, ap q (sym e) ∙ h, ap q (sym f) ∙ k) (Permᴰ.swap e f)
    | inr k ↦ rw (h, k, ap q (sym e) ∙ h, ap q (sym f) ∙ k) (Permᴰ.cons e (Permᴰ.refl (keep q l)))
  ]
  | inr h ↦ elim (Bool-cases (q b)) [
    | inl k ↦ rw (h, k, ap q (sym e) ∙ h, ap q (sym f) ∙ k) (Permᴰ.cons f (Permᴰ.refl (keep q l)))
    | inr k ↦ rw (h, k, ap q (sym e) ∙ h, ap q (sym f) ∙ k) (Permᴰ.refl (keep q l))
  ]
]
keep-Perm q (Permᴰ.trans p r) = Permᴰ.trans (keep-Perm q p) (keep-Perm q r)

-- What a loop gathers from the members of a list does not depend on their order.
module _ {A B : Type 0} (g : A → List B) where
  abbrev gather : List A → List B
  gather [] = []
  gather (x ∷ xs) = g x ++ gather xs

  gather-Perm : {xs ys : List A} → Permᴰ xs ys → Permᴰ (gather xs) (gather ys)
  gather-Perm Permᴰ.nil = Permᴰ.nil
  gather-Perm (Permᴰ.cons {a = a} {b = b} {l₂ = l₂} e p) =
      rearranged refl (ap (λ x. g x ++ gather l₂) (sym e)) (Permᴰ.append_left (g a) (gather-Perm p))
  gather-Perm (Permᴰ.swap {a = a} {b = b} {b' = c} {l = l} e f) =
      rearranged (sym (append_assoc (g a) (g b) (gather l)))
        (ap (λ x. g x ++ (g c ++ gather l)) (sym f)
          ∙ ap (λ x. g b ++ (g x ++ gather l)) (sym e)
          ∙ sym (append_assoc (g b) (g a) (gather l)))
        (Permᴰ.append_right (gather l) (Permᴰ.append_comm (g a) (g b)))
  gather-Perm (Permᴰ.trans p r) = Permᴰ.trans (gather-Perm p) (gather-Perm r)

abbrev found : Dict EntityDiff → EntityDiff → List MergeConflict
found ours_by_id d = if is_unchanged d.diff_kind then [] else conflicts_with ours_by_id d

preview_loop-gather :
    (ours_by_id : Dict EntityDiff) (ds : List EntityDiff)
    → (preview_loop ours_by_id ds).1 ≡ gather (found ours_by_id) ds
unfolding preview_loop
preview_loop-gather o [] = refl
preview_loop-gather o (d ∷ ds) = elim (Bool-cases (is_unchanged d.diff_kind)) [
  | inl e ↦ rw e (preview_loop-gather o ds)
  | inr e ↦ elim (List-cases (conflicts_with o d)) [
    | inl q ↦ rw (e, q) (preview_loop-gather o ds)
    | inr (x, xs, q) ↦ rw (e, q) (ap (λ r. x ∷ xs ++ r) (preview_loop-gather o ds))
  ]
]

-- The preview finds the same conflicts in whatever order it walks the diffs of theirs.
pub preview_loop-Perm :
    (ours_by_id : Dict EntityDiff) (ds ds' : List EntityDiff)
    → Permᴰ ds ds'
    → Permᴰ (preview_loop ours_by_id ds).1 (preview_loop ours_by_id ds').1
preview_loop-Perm o ds ds' p =
    rearranged (preview_loop-gather o ds) (preview_loop-gather o ds') (gather-Perm (found o) p)

module _ (ours : EntityDiff) (base : Value) (theirs : Dict Value) where
  abbrev clash_with : Text → Value → Option Value → List MergeConflict
  clash_with f v none = []
  clash_with f v (some w) = if value_eq v w then [] else conflict_at ours base f v w ∷ []

  abbrev clash : Text × Value → List MergeConflict
  clash (f, v) = clash_with f v (lookup f theirs)

  conflicts_of-gather : (m : Dict Value) → conflicts_of ours base m theirs ≡ gather clash m
  unfolding conflicts_of
  conflicts_of-gather [] = refl
  conflicts_of-gather ((f, v) ∷ m) =
      let split : conflicts_of ours base ((f, v) ∷ m) theirs
          ≡ clash_with f v (lookup f theirs) ++ conflicts_of ours base m theirs =
        elim (Option-cases (lookup f theirs)) [
          | inl e ↦ rw (e, conflicts_of) refl
          | inr (w, e) ↦ elim (Bool-cases (value_eq v w)) [
            | inl q ↦ rw (e, conflicts_of, q) refl
            | inr q ↦ rw (e, conflicts_of, q) refl
          ]
        ] in
      split ∙ ap (λ r. clash_with f v (lookup f theirs) ++ r) (conflicts_of-gather m)

  -- The fields of ours in another order give the same conflicts.
  pub conflicts_of-Perm :
      (m m' : Dict Value)
      → Permᴰ m m'
      → Permᴰ (conflicts_of ours base m theirs) (conflicts_of ours base m' theirs)
  conflicts_of-Perm m m' p =
      rearranged (conflicts_of-gather m) (conflicts_of-gather m') (gather-Perm clash p)
