-- ===== src/Shared/Pigeonhole.antt =====
-- A list without repetition whose members all stand in another list is not longer than it.
use Prim.Native.Nat.{suc, ◌≤◌}
use mathlib.Core.Path.{◌≡◌, refl, sym, ◌∙◌, ap}
use mathlib.Core.Logic.{◌≢◌, inl, inr}
use mathlib.Core.List.{List, [], ◌∷◌}
use native.Mathlib.Omega.{arith}
use claw_branch.Shared.Lists.{In, Distinct, length, subst_In}

-- The list without the occurrence that the proof points at.
abbrev pub without : {A : Type 0} (a : A) (ys : List A) → In a ys → List A
without a [] p = []
without a (y ∷ ys) (inl e) = ys
without a (y ∷ ys) (inr p) = y ∷ without a ys p

pub length-without :
    {A : Type 0} (a : A) (ys : List A) (p : In a ys) → suc (length (without a ys p)) ≡ length ys
length-without a [] p = absurd p
length-without a (y ∷ ys) (inl e) = refl
length-without a (y ∷ ys) (inr p) = ap suc (length-without a ys p)

pub In-without :
    {A : Type 0} (a b : A) (ys : List A) (p : In a ys) → b ≢ a → In b ys → In b (without a ys p)
In-without a b [] p n q = absurd p
In-without a b (y ∷ ys) (inl e) n (inl f) = absurd (n (f ∙ sym e))
In-without a b (y ∷ ys) (inl e) n (inr q) = q
In-without a b (y ∷ ys) (inr p) n (inl f) = inl f
In-without a b (y ∷ ys) (inr p) n (inr q) = inr (In-without a b ys p n q)

pub pigeonhole :
    {A : Type 0} (xs ys : List A)
    → Distinct xs
    → ((a : A) → In a xs → In a ys)
    → length xs ≤ length ys
pigeonhole [] ys d h = omega arith
pigeonhole (x ∷ xs) ys d h =
    let p = h x (inl refl) in
    let rest =
      pigeonhole xs (without x ys p) d.1
        (λ a q. In-without x a ys p (λ e. d.0 (subst_In xs e q)) (h a (inr q))) in
    omega (arith, length-without x ys p)
