-- ===== src/Packages/References.antt =====
-- `UnresolvedPackageReferences` gives the union of two sets of names.
use goloader.Shared.{
  ◌≡◌, ◌↔◌, ◌⊎◌, inl, inr, refl, subst, sym, false, List, [], ◌∷◌, ◌++◌, String, Bool-cases,
}
use goloader.Names.{contains}
use goloader.Reach.Names.{In, In_nil, In-cons, In_head, In_cases, In-append_left}
use goloader.Packages.{add_unresolved, add_rebuilt, unresolved_package_references}
use goloader.Packages.Sorted.{In_last, In-snoc_cases}

-- No name twice, as in the keys of a map.
abbrev pub Unique : List String → Type 0
Unique [] = Unit
Unique (n ∷ ns) = (contains n ns ≡ false) × Unique ns

NotIn : (x : String) (s : List String) → (In x s → ⊥) → contains x s ≡ false
NotIn x s h = elim (Bool-cases (contains x s)) [ inl i ↦ absurd (h i) | inr e ↦ e ]

Unique-snoc :
    (l : List String) (n : String) → contains n l ≡ false → Unique l → Unique (l ++ (n ∷ []))
unfolding contains
Unique-snoc [] n e u = (refl, tt)
Unique-snoc (m ∷ l) n e (new, u) = (
  NotIn m (l ++ (n ∷ [])) (λ i. elim (In-snoc_cases m n l i) [
    | inl same ↦ let k = subst (λ y. contains y (m ∷ l) ≡ false) same e in let j = In_head m l in cc
    | inr j ↦ cc
  ]),
  Unique-snoc l n (NotIn n l (λ i. let j = In-cons n m l i in cc)) u,
)

abbrev Adds : List String → (String → Type 0) → List String → Type 0
Adds s From t = ((x : String) → In x t ↔ (In x s ⊎ From x)) × Unique t

add_rebuilt-Adds :
    (ps acc : List String) → Unique acc → Adds acc (λ x. In x ps) (add_rebuilt ps acc)
unfolding add_rebuilt
add_rebuilt-Adds [] acc u =
    ((λ x. (λ i. inl i, λ d. elim d [ inl i ↦ i | inr i ↦ absurd (In_nil x i) ])), u)
add_rebuilt-Adds (p ∷ ps) acc u = elim (Bool-cases (contains p acc)) [
  | inl e ↦ rw e (
      let (h, v) = add_rebuilt-Adds ps acc u in
      (
        λ x. (
          λ i. elim ((h x).0 i) [ inl j ↦ inl j | inr j ↦ inr (In-cons x p ps j) ],
          λ d. (h x).1 (elim d [
            | inl j ↦ inl j
            | inr j ↦ elim (In_cases x p ps j) [
              | inl same ↦ inl (subst (λ y. In y acc) same e)
              | inr k ↦ inr k
            ]
          ]),
        ),
        v,
      ))
  | inr e ↦ rw e (
      let (h, v) = add_rebuilt-Adds ps (acc ++ (p ∷ [])) (Unique-snoc acc p e u) in
      (
        λ x. (
          λ i. elim ((h x).0 i) [
            | inl j ↦ elim (In-snoc_cases x p acc j) [
              | inl same ↦ inr (subst (λ y. In y (p ∷ ps)) same (In_head p ps))
              | inr k ↦ inl k
            ]
            | inr j ↦ inr (In-cons x p ps j)
          ],
          λ d. (h x).1 (elim d [
            | inl j ↦ inl (In-append_left x acc (p ∷ []) j)
            | inr j ↦ elim (In_cases x p ps j) [
              | inl same ↦ inl (subst (λ y. In y (acc ++ (p ∷ []))) same (In_last p acc))
              | inr k ↦ inr k
            ]
          ]),
        ),
        v,
      ))
]

-- Names that are new to the list, as the keys of a map are.
add_unresolved-Adds :
    (existing ps acc : List String)
    → Unique ps
    → Unique acc
    → ((x : String) → In x acc → In x ps → ⊥)
    → Adds acc (λ x. In x ps × (contains x existing ≡ false)) (add_unresolved existing ps acc)
unfolding add_unresolved
add_unresolved-Adds existing [] acc w u apart =
    ((λ x. (λ i. inl i, λ d. elim d [ inl i ↦ i | inr (i, k) ↦ absurd (In_nil x i) ])), u)
add_unresolved-Adds existing (p ∷ ps) acc (new, w) u apart =
    elim (Bool-cases (contains p existing)) [
      | inl e ↦ rw e (
          let (h, v) =
            add_unresolved-Adds existing ps acc w u (λ x i j. apart x i (In-cons x p ps j)) in
          (
            λ x. (
              λ i. elim ((h x).0 i) [ inl j ↦ inl j | inr (j, k) ↦ inr (In-cons x p ps j, k) ],
              λ d. (h x).1 (elim d [
                | inl j ↦ inl j
                | inr (j, k) ↦ elim (In_cases x p ps j) [
                  | inl same ↦
                      absurd (let k' = subst (λ y. contains y existing ≡ false) (sym same) k in cc)
                  | inr l ↦ inr (l, k)
                ]
              ]),
            ),
            v,
          ))
      | inr e ↦ rw e (
          let (h, v) =
            add_unresolved-Adds existing ps (acc ++ (p ∷ [])) w
              (Unique-snoc acc p (NotIn p acc (λ i. apart p i (In_head p ps))) u)
              (λ x i j. elim (In-snoc_cases x p acc i) [
                | inl same ↦ let j' = subst (λ y. In y ps) (sym same) j in cc
                | inr l ↦ apart x l (In-cons x p ps j)
              ]) in
          (
            λ x. (
              λ i. elim ((h x).0 i) [
                | inl j ↦ elim (In-snoc_cases x p acc j) [
                  | inl same ↦ inr (
                    subst (λ y. In y (p ∷ ps)) same (In_head p ps),
                    subst (λ y. contains y existing ≡ false) same e,
                  )
                  | inr k ↦ inl k
                ]
                | inr (j, k) ↦ inr (In-cons x p ps j, k)
              ],
              λ d. (h x).1 (elim d [
                | inl j ↦ inl (In-append_left x acc (p ∷ []) j)
                | inr (j, k) ↦ elim (In_cases x p ps j) [
                  | inl same ↦ inl (subst (λ y. In y (acc ++ (p ∷ []))) same (In_last p acc))
                  | inr l ↦ inr (l, k)
                ]
              ]),
            ),
            v,
          ))
    ]

-- Where no name stands twice among the unresolved packages, which are the keys of a map:
-- UnresolvedPackageReferences gives each of its names once, and a name exactly when it is that of an
-- unresolved package that does not exist yet, or that of a package to be built again.
pub unresolved_package_references-Union :
    (with_unresolved to_force_rebuild existing : List String)
    → Unique with_unresolved
    → Unique (unresolved_package_references with_unresolved to_force_rebuild existing)
      × ((x : String)
          → In x (unresolved_package_references with_unresolved to_force_rebuild existing)
            ↔ ((In x with_unresolved × (contains x existing ≡ false)) ⊎ In x to_force_rebuild))
unresolved_package_references-Union with_unresolved to_force_rebuild existing u =
    let (h, v) = add_unresolved-Adds existing with_unresolved [] u tt (λ x i j. In_nil x i) in
    let (k, w) = add_rebuilt-Adds to_force_rebuild (add_unresolved existing with_unresolved []) v in
    (
      w,
      λ x. (
        λ i. elim ((k x).0 i) [
          | inr j ↦ inr j
          | inl j ↦ elim ((h x).0 j) [ inl l ↦ absurd (In_nil x l) | inr l ↦ inl l ]
        ],
        λ d. (k x).1 (elim d [ inr j ↦ inr j | inl j ↦ inl ((h x).1 (inr j)) ]),
      ),
    )
