-- ===== src/Packages/Visits.antt =====
-- The visits of `recurseAutolibs` and those of a plain depth-first search, side by side.
use goloader.Shared.{
  ℕ, zero, suc, ◌<◌, ◌≡◌, ◌⊎◌, inl, inr, refl, subst, false, List, [], ◌∷◌, ◌++◌, some, String,
  arith, Bool-cases,
}
use goloader.Names.{contains}
use goloader.Reach.Names.{In, Sub, In_nil, In-cons, In_head, In_cases, In-append_left}
use goloader.Reach.Closure.{Reaches, here, onward}
use goloader.Packages.{Visited, visit_imports, finish_pkg, recurse_autolibs}
use goloader.Packages.Sorted.{Sorted, empty, behind, In_last, In-snoc_cases, Sorted-closed}
use goloader.Packages.Postorder.{postorder, postorder_all, append_unseen-seen}

-- Imports have a lower rank: there is no cycle of imports.
module _ (next : String → List String) (rank : String → ℕ)
    (acyclic : (n m : String) → In m (next n) → rank m < rank n) where
  abbrev Before : String → String → Type 0
  Before x n = rank x < rank n

  Reaches-rank : (x n : String) → Reaches next x n → (n ≡ x) ⊎ Before x n
  Reaches-rank x n (here _ e) = inl e
  Reaches-rank x n (onward _ b i r) =
      let l = acyclic n b i in
      elim (Reaches-rank x b r) [
        | inl e ↦ inr (subst (λ y. Before y n) e l)
        | inr k ↦ inr (omega (arith, l, k))
      ]

  -- A package that was seen is in the list, or its visit is not over: `Open` tells which are open.
  abbrev pub Good : (String → Type 0) → Visited → Type 0
  Good Open s =
      Sorted next s.autolibs
      × Sub s.autolibs s.seen
      × ((x : String) → In x s.seen → In x s.autolibs ⊎ Open x)

  abbrev pub Grown : (String → Type 0) → Visited → Visited → Type 0
  Grown From s t =
      Sub s.autolibs t.autolibs
      × Sub s.seen t.seen
      × ((x : String) → In x t.autolibs → In x s.autolibs ⊎ From x)

  abbrev pub EndsWith : String → List String → Type 0
  EndsWith n l = (k : List String) × (l ≡ k ++ (n ∷ []))

  -- What a visit does, in both searches.
  abbrev pub Visits : (String → Type 0) → ℕ → String → Visited → Type 0
  Visits Open fuel n s =
      (t : Visited) × (recurse_autolibs next fuel n s ≡ some t)
      × (postorder next fuel n s ≡ some t)
      × Good Open t
      × Grown (λ x. Reaches next x n) s t
      × In n t.autolibs
      × (In n s.seen ⊎ EndsWith n t.autolibs)

  abbrev FromAny : List String → String → Type 0
  FromAny ns x = (n : String) × In n ns × Reaches next x n

  abbrev VisitsAll : (String → Type 0) → ℕ → List String → Visited → Type 0
  VisitsAll Open fuel ns s =
      (t : Visited) × (visit_imports next (recurse_autolibs next fuel) ns s ≡ some t)
      × (postorder_all (postorder next fuel) ns s ≡ some t)
      × Good Open t
      × Grown (FromAny ns) s t
      × Sub ns t.autolibs

  all_lem :
      (Open : String → Type 0) (fuel : ℕ) (ns : List String) (s : Visited)
      → ((n : String) (s : Visited) → In n ns → Good Open s → Visits Open fuel n s)
      → Good Open s
      → VisitsAll Open fuel ns s
  unfolding visit_imports postorder_all
  all_lem Open fuel [] s each good =
      (s, refl, refl, good, ((λ x i. i), (λ x i. i), (λ x i. inl i)), (λ x i. absurd (In_nil x i)))
  all_lem Open fuel (n ∷ ns) s each good =
      let (t, p, p', good', (libs, seen, from), root, ends) = each n s (In_head n ns) good in
      let (u, q, q', good'', (libs', seen', from'), roots) =
        all_lem Open fuel ns t (λ m s' i. each m s' (In-cons m n ns i)) good' in
      (
        u,
        rw
            (
              visit_imports,
              p,
              append_unseen-seen (next n) t
                  (λ x i. good'.1 x (Sorted-closed next t.autolibs good'.0 n root x i)),
            )
            q,
        rw (postorder_all, p') q',
        good'',
        (
          (λ x i. libs' x (libs x i)),
          (λ x i. seen' x (seen x i)),
          λ x i. elim (from' x i) [
            | inr (m, j, r) ↦ inr (m, In-cons m n ns j, r)
            | inl j ↦ elim (from x j) [ inl k ↦ inl k | inr r ↦ inr (n, In_head n ns, r) ]
          ],
        ),
        (λ x i. elim (In_cases x n ns i) [
          | inl e ↦ libs' x (subst (λ y. In y t.autolibs) e root)
          | inr j ↦ roots x j
        ]),
      )

  -- The package itself behind its imports.
  finish_lem :
      (Open : String → Type 0) (n : String) (s t : Visited)
      → contains n s.seen ≡ false
      → Good Open s
      → Good (λ x. Open x ⊎ (n ≡ x)) t
      → Grown (FromAny (next n)) (record s { seen = n ∷ s.seen }) t
      → Sub (next n) t.autolibs
      → Good Open (finish_pkg n t) × Grown (λ x. Reaches next x n) s (finish_pkg n t)
  finish_lem Open n s t unseen good (sorted, within, known) (libs, seen, from) roots = (
    (
      behind t.autolibs n sorted new roots,
      (λ x i. elim (In-snoc_cases x n t.autolibs i) [
        | inl e ↦ seen x (subst (λ y. In y (n ∷ s.seen)) e (In_head n s.seen))
        | inr j ↦ within x j
      ]),
      λ x i. elim (known x i) [
        | inl j ↦ inl (In-append_left x t.autolibs (n ∷ []) j)
        | inr (inl o) ↦ inr o
        | inr (inr e) ↦ inl (subst (λ y. In y (t.autolibs ++ (n ∷ []))) e (In_last n t.autolibs))
      ],
    ),
    (
      (λ x i. In-append_left x t.autolibs (n ∷ []) (libs x i)),
      (λ x i. seen x (In-cons x n s.seen i)),
      λ x i. elim (In-snoc_cases x n t.autolibs i) [
        | inl e ↦ inr (here n e)
        | inr j ↦ elim (from x j) [ inl k ↦ inl k | inr (m, k, r) ↦ inr (onward n m k r) ]
      ],
    ),
  )
    where
      new : contains n t.autolibs ≡ false
      new = elim (Bool-cases (contains n t.autolibs)) [
        | inr e ↦ e
        | inl i ↦ elim (from n i) [
          | inl j ↦ let k = good.1 n j in cc
          | inr (m, j, r) ↦ elim (Reaches-rank n m r) [
            | inl e ↦
                absurd (let k = acyclic n n (subst (λ y. In y (next n)) e j) in omega (arith, k))
            | inr k ↦ absurd (omega (arith, k, acyclic n m j))
          ]
        ]
      ]

  visit_lem :
      (fuel : ℕ) (Open : String → Type 0) (n : String) (s : Visited)
      → rank n < fuel
      → ((x : String) → Open x → Before n x)
      → Good Open s
      → Visits Open fuel n s
  unfolding recurse_autolibs postorder
  visit_lem zero Open n s l above good = absurd (omega (arith, l))
  visit_lem (suc fuel) Open n s l above good = elim (Bool-cases (contains n s.seen)) [
    | inl e ↦ (
      s,
      rw e,
      rw e,
      good,
      ((λ x i. i), (λ x i. i), (λ x i. inl i)),
      elim (good.2 n e) [ inl i ↦ i | inr o ↦ absurd (omega (arith, above n o)) ],
      inl e,
    )
    | inr e ↦
        let (t, p, p', good', grown, roots) =
          all_lem (λ x. Open x ⊎ (n ≡ x)) fuel (next n) (record s { seen = n ∷ s.seen })
            (λ m s' i g.
              visit_lem fuel (λ x. Open x ⊎ (n ≡ x)) m s' (omega (arith, l, acyclic n m i))
                (higher m i) g)
            (good.0, (λ x i. In-cons x n s.seen (good.1 x i)), started e) in
        let (good'', grown'') = finish_lem Open n s t e good good' grown roots in
        (
          finish_pkg n t,
          rw (e, p),
          rw (e, p'),
          good'',
          grown'',
          In_last n t.autolibs,
          inr (t.autolibs, refl),
        )
  ]
    where
      higher : (m : String) → In m (next n) → (x : String) → Open x ⊎ (n ≡ x) → Before m x
      higher m i x (inl o) = omega (arith, above x o, acyclic n m i)
      higher m i x (inr e) = subst (λ y. Before m y) e (acyclic n m i)

      started :
          contains n s.seen ≡ false
          → (x : String) → In x (n ∷ s.seen)
          → In x s.autolibs ⊎ (Open x ⊎ (n ≡ x))
      started e x i = elim (In_cases x n s.seen i) [
        | inl same ↦ inr (inr same)
        | inr j ↦ elim (good.2 x j) [ inl k ↦ inl k | inr o ↦ inr (inl o) ]
      ]

  -- All that a package of a sorted list reaches is in the list.
  pub Sorted-reaches :
      (l : List String) → Sorted next l → (x n : String) → In n l → Reaches next x n → In x l
  Sorted-reaches l s x n i (here _ e) = subst (λ y. In y l) e i
  Sorted-reaches l s x n i (onward _ m j r) =
      Sorted-reaches l s x m (Sorted-closed next l s n i m j) r

  pub from_empty :
      (fuel : ℕ) (n : String)
      → rank n < fuel
      → Visits (λ x. ⊥) fuel n (record { autolibs = []; seen = [] })
  from_empty fuel n l =
      visit_lem fuel (λ x. ⊥) n (record { autolibs = []; seen = [] }) l (λ x o. absurd o)
        (empty, (λ x i. i), (λ x i. inl i))
