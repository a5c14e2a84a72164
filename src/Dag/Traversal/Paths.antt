-- ===== src/Dag/Traversal/Paths.antt =====
-- The simple paths between two nodes.
use claw_branch.Shared.{
  ℕ, zero, suc, ◌+◌, ◌<◌, arith, ◌≡◌, refl, sym, ap, ◌∙◌, subst, ◌↔◌, ◌⊎◌, inl, inr, ⊎_elim, Bool,
  true, false, not, Bool-cases, Option, some, Option-cases, List, [], ◌∷◌, ◌++◌, any, keep, length,
  In, Distinct, In-append, In-append_left, In-append_right, In-keep, keep-In, pigeonhole,
  append_assoc, List-cases, append-nil, ◌==◌, ==_iff, subst_In,
}
use mathlib.Core.Bool.{true≢false}
use claw_branch.Dag.Query.Index.{some-eq, none≢some}
use claw_branch.Dag.Traversal.{concat_walks, dfs_paths}

-- The nodes after `u` along a walk, and where the walk ends.
abbrev pub Steps : (ℕ → List ℕ) → ℕ → List ℕ → Type 0
Steps next u [] = Unit
Steps next u (v ∷ vs) = In v (next u) × Steps next v vs

abbrev pub end_of : ℕ → List ℕ → ℕ
end_of u [] = u
end_of u (v ∷ vs) = end_of v vs

abbrev pub Apart : List ℕ → List ℕ → Type 0
Apart visited vs = (v : ℕ) → In v vs → ¬ In v visited

concat_walks-In :
    (f : ℕ → Option (List (List ℕ))) (vs : List ℕ) (ps : List (List ℕ))
    → concat_walks f vs ≡ some ps
    → (p : List ℕ)
    → In p ps ↔ ((v : ℕ) × (qs : List (List ℕ)) × In v vs × (f v ≡ some qs) × In p qs)
concat_walks-In f [] ps h p =
    (λ i. absurd (subst (In p) (sym (some-eq [] ps h)) i), λ k. absurd k.2)
concat_walks-In f (v ∷ vs) ps h p = elim (Option-cases (f v)) [
  | inl e ↦ absurd (none≢some ps (rw (concat_walks, e) at h))
  | inr (qs, e) ↦ elim (Option-cases (concat_walks f vs)) [
    | inl q ↦ absurd (none≢some ps (rw (concat_walks, e, q) at h))
    | inr (rs, q) ↦
        let sum = some-eq (qs ++ rs) ps (rw (concat_walks, e, q) at h) in
        let (down, up) = concat_walks-In f vs rs q p in
        (
          λ i.
              ⊎_elim (λ j. (v, qs, inl refl, e, j))
                (λ j. let (w, xs, a, b, c) = down j in (w, xs, inr a, b, c))
                (In-append p qs rs (subst (In p) (sym sum) i)),
          λ (w, xs, a, b, c). subst (In p) sum (
              ⊎_elim
                (λ r. In-append_left p qs rs (subst (In p) (some-eq xs qs (sym b ∙ (rw r e))) c))
                (λ j. In-append_right p qs rs (up (w, xs, j, b, c))) a),
        )
  ]
]

concat_walks-each :
    (f : ℕ → Option (List (List ℕ))) (vs : List ℕ) (ps : List (List ℕ))
    → concat_walks f vs ≡ some ps
    → (v : ℕ) → In v vs
    → (qs : List (List ℕ)) × (f v ≡ some qs)
concat_walks-each f [] ps h v i = absurd i
concat_walks-each f (w ∷ vs) ps h v i = elim (Option-cases (f w)) [
  | inl e ↦ absurd (none≢some ps (rw (concat_walks, e) at h))
  | inr (qs, e) ↦ elim (Option-cases (concat_walks f vs)) [
    | inl q ↦ absurd (none≢some ps (rw (concat_walks, e, q) at h))
    | inr (rs, q) ↦ ⊎_elim (λ (r : v ≡ w). (qs, rw r e)) (concat_walks-each f vs rs q v) i
  ]
]

concat_walks-some :
    (f : ℕ → Option (List (List ℕ))) (vs : List ℕ)
    → ((v : ℕ) → In v vs → (qs : List (List ℕ)) × (f v ≡ some qs))
    → (ps : List (List ℕ)) × (concat_walks f vs ≡ some ps)
concat_walks-some f [] h = ([], refl)
concat_walks-some f (v ∷ vs) h =
    let (qs, e) = h v (inl refl) in
    let (rs, q) = concat_walks-some f vs (λ w i. h w (inr i)) in
    (qs ++ rs, rw (concat_walks, e, q) refl)

end_of-In : (u : ℕ) (vs : List ℕ) → (end_of u vs ≡ u) ⊎ In (end_of u vs) vs
end_of-In u [] = inl refl
end_of-In u (v ∷ vs) = inr (⊎_elim inl inr (end_of-In v vs))

abbrev unvisited : List ℕ → ℕ → Bool
unvisited visited v = not (any (λ u. u == v) visited)

module _ (next : ℕ → List ℕ) (target : ℕ) where
  -- What may follow the path that was taken so far.
  abbrev pub Onward : ℕ → List ℕ → List ℕ → Type 0
  Onward current visited rest =
      Steps next current rest × (end_of current rest ≡ target) × Distinct rest × Apart visited rest

  abbrev deeper : ℕ → ℕ → List ℕ → List ℕ → Option (List (List ℕ))
  deeper fuel current visited path =
      concat_walks (λ v. dfs_paths next fuel target v (v ∷ visited) (path ++ v ∷ []))
        (keep (λ v. not (any (λ u. u == v) visited)) (next current))

  dfs_paths-stop :
      (fuel current : ℕ) (visited path : List ℕ)
      → (current == target) ≡ true
      → dfs_paths next (suc fuel) target current visited path ≡ some (path ∷ [])
  unfolding dfs_paths
  dfs_paths-stop fuel current visited path e = rw e refl

  dfs_paths-deeper :
      (fuel current : ℕ) (visited path : List ℕ)
      → (current == target) ≡ false
      → dfs_paths next (suc fuel) target current visited path ≡ deeper fuel current visited path
  unfolding dfs_paths
  dfs_paths-deeper fuel current visited path e = rw e refl

  any-In : (v : ℕ) (us : List ℕ) → (any (λ u. u == v) us ≡ true) ↔ In v us
  any-In v [] = (λ h. cc, λ h. absurd h)
  any-In v (u ∷ us) = ground (arith, any-In v us)

  unvisited-In : (v : ℕ) (visited : List ℕ) → (unvisited visited v ≡ true) ↔ (¬ In v visited)
  unvisited-In v visited = ground (arith, any-In v visited)

  -- A walk on is a step to a node that was not visited, and a walk on from there.
  Onward-step :
      (current v : ℕ) (visited vs : List ℕ)
      → In v (next current)
      → ¬ In v visited
      → Onward v (v ∷ visited) vs
      → Onward current visited (v ∷ vs)
  Onward-step current v visited vs i n (s, e, d, a) = (
    (i, s),
    e,
    (λ j. a v j (inl refl), d),
    λ w j. ⊎_elim (λ (q : w ≡ v). rw q n) (λ k x. a w k (inr x)) j,
  )

  step-Onward :
      (current v : ℕ) (visited vs : List ℕ)
      → Onward current visited (v ∷ vs)
      → In v (next current) × (¬ In v visited) × Onward v (v ∷ visited) vs
  step-Onward current v visited vs ((i, s), e, (n, d), a) = (
    i,
    a v (inl refl),
    (s, e, d, λ w j x. ⊎_elim (λ (q : w ≡ v). n (subst_In vs q j)) (a w (inr j)) x),
  )

  Onward-stop :
      (current : ℕ) (visited rest : List ℕ)
      → current ≡ target
      → In current visited
      → Onward current visited rest
      → rest ≡ []
  Onward-stop current visited [] e i o = refl
  Onward-stop current visited (v ∷ vs) e i (s, q, d, a) = absurd (
      a target (subst (λ u. In u (v ∷ vs)) q (⊎_elim inl inr (end_of-In v vs)))
        (subst_In visited e i))

  not_there :
      (current : ℕ) (visited : List ℕ) → (current == target) ≡ false → ¬ Onward current visited []
  not_there current visited e (s, q, _, _) = true≢false (sym ((==_iff current target).1 q) ∙ e)

  abbrev pub Listed : ℕ → List ℕ → List ℕ → List (List ℕ) → Type 0
  Listed current visited path ps =
      (p : List ℕ) → In p ps ↔ ((rest : List ℕ) × (p ≡ path ++ rest) × Onward current visited rest)

  pub dfs_paths-Listed :
      (fuel current : ℕ) (visited path : List ℕ) (ps : List (List ℕ))
      → In current visited
      → dfs_paths next fuel target current visited path ≡ some ps
      → Listed current visited path ps
  unfolding dfs_paths
  dfs_paths-Listed zero current visited path ps i h p = absurd (none≢some ps h)
  dfs_paths-Listed (suc fuel) current visited path ps i h p =
      elim (Bool-cases (current == target)) [
        | inl e ↦
            let q = some-eq (path ∷ []) ps (sym (dfs_paths-stop fuel current visited path e) ∙ h) in
            let t = (==_iff current target).0 e in
            (
              λ j. (
                [],
                ⊎_elim (λ (r : p ≡ path). r ∙ sym (append-nil path)) (λ b. absurd b)
                    (subst (In p) (sym q) j),
                (tt, t, tt, λ v k. absurd k),
              ),
              λ (rest, r, o). subst (In p) q (
                  inl (
                    r
                    ∙ ap (λ (xs : List ℕ). path ++ xs) (Onward-stop current visited rest t i o)
                    ∙ append-nil path)),
            )
        | inr e ↦
            let q = sym (dfs_paths-deeper fuel current visited path e) ∙ h in
            let f = λ (v : ℕ). dfs_paths next fuel target v (v ∷ visited) (path ++ v ∷ []) in
            let vs = keep (unvisited visited) (next current) in
            let (down, up) = concat_walks-In f vs ps q p in
            (
              λ j.
                  let (v, qs, a, b, c) = down j in
                  let (rest, r, o) =
                    (dfs_paths-Listed fuel v (v ∷ visited) (path ++ v ∷ []) qs (inl refl) b p).0
                      c in
                  let (n, u) = In-keep (unvisited visited) (next current) a in
                  (
                    v ∷ rest,
                    r ∙ append_assoc path (v ∷ []) rest,
                    Onward-step current v visited rest n ((unvisited-In v visited).0 u) o,
                  ),
              λ (rest, r, o). elim (List-cases rest) [
                | inl z ↦ absurd (not_there current visited e (subst (Onward current visited) z o))
                | inr (v, more, z) ↦
                    let (n, u, k) =
                      step-Onward current v visited more (subst (Onward current visited) z o) in
                    let a =
                      keep-In (unvisited visited) (next current) n ((unvisited-In v visited).1 u) in
                    let (qs, b) = concat_walks-each f vs ps q v a in
                    up (
                      v,
                      qs,
                      a,
                      b,
                      (dfs_paths-Listed fuel v (v ∷ visited) (path ++ v ∷ []) qs (inl refl) b p).1 (
                        more,
                        r
                            ∙ ap (λ (xs : List ℕ). path ++ xs) z
                            ∙ sym (append_assoc path (v ∷ []) more),
                        k,
                      ),
                    )
              ],
            )
      ]

  -- Every node is visited once, so that the fuel for all of them is enough.
  pub dfs_paths-some :
      (univ : List ℕ)
      → ((u v : ℕ) → In v (next u) → In v univ)
      → (fuel current : ℕ) (visited path : List ℕ) → Distinct visited
      → ((v : ℕ) → In v visited → In v univ)
      → length univ < fuel + length visited
      → (ps : List (List ℕ)) × (dfs_paths next fuel target current visited path ≡ some ps)
  unfolding dfs_paths
  dfs_paths-some univ b zero current visited path d r h =
      absurd (omega (arith, pigeonhole visited univ d r))
  dfs_paths-some univ b (suc fuel) current visited path d r h =
      elim (Bool-cases (current == target)) [
        | inl e ↦ (path ∷ [], dfs_paths-stop fuel current visited path e)
        | inr e ↦
            let f = λ (v : ℕ). dfs_paths next fuel target v (v ∷ visited) (path ++ v ∷ []) in
            let (ps, q) = concat_walks-some f (keep (unvisited visited) (next current)) (λ v i.
              let (n, u) = In-keep (unvisited visited) (next current) i in
              dfs_paths-some univ b fuel v (v ∷ visited) (path ++ v ∷ [])
                ((unvisited-In v visited).0 u, d)
                (λ w j. ⊎_elim (λ (x : w ≡ v). rw x (b current v n)) (r w) j) (omega (arith, h))) in
            (ps, dfs_paths-deeper fuel current visited path e ∙ q)
      ]
