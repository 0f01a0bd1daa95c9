-- ===== src/Examples/Packages.antt =====
-- Three packages: main imports fmt and io, and fmt imports io.
use text.Mathlib.Text.{◌==◌ as str_eq}
use goloader.Shared.{
  ℕ, ◌<◌, ◌≡◌, ◌↔◌, ◌⊎◌, inl, inr, refl, subst, false, List, [], ◌∷◌, ◌++◌, some, String, arith,
  if◌then◌else◌, Bool-cases,
}
use goloader.Names.{contains, lookup}
use goloader.Reach.Names.{In, In_nil, In_cases}
use goloader.Reach.Closure.{Reaches}
use goloader.Packages.{
  Pkg, imports_of, autolibs_by_pkg, last_pkg, autolib, recurse_autolibs, visit_imports,
  append_unseen, unresolved_package_references, add_unresolved, add_rebuilt,
}
use goloader.Packages.Sorted.{Sorted}
use goloader.Packages.Postorder.{postorder}
use goloader.Packages.Autolib.{imports_in, autolib-Sorted, recurse_autolibs-postorder}
use goloader.Packages.References.{Unique, unresolved_package_references-Union}

abbrev io : Pkg
io = record { pkg_path = "io"; auto_lib = [] }

abbrev fmt : Pkg
fmt = record { pkg_path = "fmt"; auto_lib = "io" ∷ [] }

abbrev main_pkg : Pkg
main_pkg = record { pkg_path = "main"; auto_lib = "io" ∷ ("fmt" ∷ []) }

-- Autolib of the three packages.
autolib_test : autolib 9 (fmt ∷ (io ∷ (main_pkg ∷ []))) ≡ some ("io" ∷ ("fmt" ∷ ("main" ∷ [])))
unfolding autolib recurse_autolibs visit_imports append_unseen imports_of autolibs_by_pkg last_pkg
    lookup contains
autolib_test = refl

abbrev rank_of : String → ℕ
rank_of n = if str_eq "main" n then 2 else if str_eq "fmt" n then 1 else 0

abbrev imports : String → List String
imports = imports_in (fmt ∷ (io ∷ (main_pkg ∷ [])))

of_one : (f : String → ℕ) (k : ℕ) (m a : String) → In m (a ∷ []) → f a < k → f m < k
of_one f k m a i l = elim (In_cases m a [] i) [
  | inl e ↦ subst (λ y. f y < k) e l
  | inr j ↦ absurd (In_nil m j)
]

has_no_cycle : (n m : String) → In m (imports n) → rank_of m < rank_of n
unfolding imports_of autolibs_by_pkg lookup
has_no_cycle n m i = elim (Bool-cases (str_eq "main" n)) [
  | inl e ↦ rw e (elim (In_cases m "io" ("fmt" ∷ []) (rw (imports_of, lookup, e) at i)) [
    | inl same ↦ subst (λ y. rank_of y < 2) same (omega arith)
    | inr j ↦ of_one rank_of 2 m "fmt" j (omega arith)
  ])
  | inr e ↦ elim (Bool-cases (str_eq "io" n)) [
    | inl e' ↦ absurd (In_nil m (rw (imports_of, lookup, e, e') at i))
    | inr e' ↦ elim (Bool-cases (str_eq "fmt" n)) [
      | inl e'' ↦
          rw (e, e'')
            (of_one rank_of 1 m "io" (rw (imports_of, lookup, e, e', e'') at i) (omega arith))
      | inr e'' ↦ absurd (In_nil m (rw (imports_of, lookup, e, e', e'') at i))
    ]
  ]
]

autolib-Sorted_example :
    (l : List String) × (autolib 3 (fmt ∷ (io ∷ (main_pkg ∷ []))) ≡ some l)
    × Sorted imports l
    × ((k : List String) × (l ≡ k ++ ((last_pkg fmt (io ∷ (main_pkg ∷ []))).pkg_path ∷ [])))
    × ((x : String) → In x l ↔ Reaches imports x (last_pkg fmt (io ∷ (main_pkg ∷ []))).pkg_path)
unfolding last_pkg
autolib-Sorted_example =
    autolib-Sorted fmt (io ∷ (main_pkg ∷ [])) rank_of has_no_cycle 3 (omega arith)

recurse_autolibs-postorder_example :
    recurse_autolibs imports 3 "main" (record { autolibs = []; seen = [] })
    ≡ postorder imports 3 "main" (record { autolibs = []; seen = [] })
recurse_autolibs-postorder_example =
    recurse_autolibs-postorder imports rank_of has_no_cycle 3 "main" (omega arith)

abbrev unresolved : List String
unresolved = "fmt" ∷ ("io" ∷ [])

unresolved-Unique : Unique unresolved
unfolding contains
unresolved-Unique = (refl, (refl, tt))

unresolved_package_references-Union_example :
    Unique (unresolved_package_references unresolved ("os" ∷ ("io" ∷ [])) ("fmt" ∷ []))
    × ((x : String)
        → In x (unresolved_package_references unresolved ("os" ∷ ("io" ∷ [])) ("fmt" ∷ []))
          ↔ ((In x unresolved × (contains x ("fmt" ∷ []) ≡ false)) ⊎ In x ("os" ∷ ("io" ∷ []))))
unresolved_package_references-Union_example =
    unresolved_package_references-Union unresolved ("os" ∷ ("io" ∷ [])) ("fmt" ∷ [])
      unresolved-Unique

references_test :
    unresolved_package_references unresolved ("os" ∷ ("io" ∷ [])) ("fmt" ∷ []) ≡ "io" ∷ ("os" ∷ [])
unfolding add_unresolved add_rebuilt contains
references_test = refl
