-- ===== src/Packages/Autolib.antt =====
-- `Autolib` orders the packages: each one behind its imports.
use goloader.Shared.{ℕ, ◌<◌, ◌≡◌, ◌↔◌, inl, inr, List, [], ◌∷◌, ◌++◌, some, String}
use goloader.Reach.Names.{In, In_nil}
use goloader.Reach.Closure.{Reaches}
use goloader.Packages.{Pkg, imports_of, autolibs_by_pkg, recurse_autolibs, last_pkg, autolib}
use goloader.Packages.Sorted.{Sorted}
use goloader.Packages.Postorder.{postorder}
use goloader.Packages.Visits.{from_empty, Sorted-reaches}

abbrev pub imports_in : List Pkg → String → List String
imports_in pkgs = imports_of (autolibs_by_pkg pkgs [])

-- Where the imports of the packages have no cycle (each import has a lower rank than the package),
-- with more fuel than the rank of the main package, which is the last one: Autolib ends with a list
-- that has each package once and behind all its imports, that ends with the main package, and that
-- holds a package exactly when the main package reaches it by imports.
pub autolib-Sorted :
    (p : Pkg) (ps : List Pkg) (rank : String → ℕ)
    → ((n m : String) → In m (imports_in (p ∷ ps) n) → rank m < rank n)
    → (fuel : ℕ) → rank (last_pkg p ps).pkg_path < fuel
    → (l : List String) × (autolib fuel (p ∷ ps) ≡ some l)
      × Sorted (imports_in (p ∷ ps)) l
      × ((k : List String) × (l ≡ k ++ ((last_pkg p ps).pkg_path ∷ [])))
      × ((x : String) → In x l ↔ Reaches (imports_in (p ∷ ps)) x (last_pkg p ps).pkg_path)
unfolding autolib
autolib-Sorted p ps rank acyclic fuel l =
    let next = imports_in (p ∷ ps) in
    let main = (last_pkg p ps).pkg_path in
    let (t, e, e', good, (libs, seen, from), root, ends) =
      from_empty next rank acyclic fuel main l in
    (
      t.autolibs,
      rw (autolib, e),
      good.0,
      elim ends [ inl i ↦ absurd (In_nil main i) | inr k ↦ k ],
      λ x. (
        λ i. elim (from x i) [ inl j ↦ absurd (In_nil x j) | inr r ↦ r ],
        Sorted-reaches next rank acyclic t.autolibs good.0 x main root,
      ),
    )

-- Where the imports of the packages have no cycle, with more fuel than the rank of the main package,
-- the search of recurseAutolibs from nothing gives the same list as the one that leaves out the loop
-- over the imports of each import, which therefore never appends anything.
pub recurse_autolibs-postorder :
    (next : String → List String) (rank : String → ℕ)
    → ((n m : String) → In m (next n) → rank m < rank n)
    → (fuel : ℕ) (n : String) → rank n < fuel
    → recurse_autolibs next fuel n (record { autolibs = []; seen = [] })
      ≡ postorder next fuel n (record { autolibs = []; seen = [] })
recurse_autolibs-postorder next rank acyclic fuel n l =
    let (t, e, e', good, grown, root, ends) = from_empty next rank acyclic fuel n l in cc
