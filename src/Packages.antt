-- ===== src/Packages.antt =====
-- ld.go: the packages that the linker has read. `Autolib` puts them in an order, and
-- `UnresolvedPackageReferences` names those that are still to be built.
pub mod Sorted
pub mod Postorder
pub mod Visits
pub mod Autolib
pub mod References
use goloader.Shared.{ℕ, zero, suc, List, [], ◌∷◌, ◌++◌, Option, none, some, String, if◌then◌else◌}
use goloader.Names.{StrMap, lookup, insert, contains}

-- The fields of obj.Pkg that Autolib reads.
pub record Pkg : Type 0 where
  pub pkg_path : String
  pub auto_lib : List String

-- `autolibsByPkg`
unfoldable pub autolibs_by_pkg : List Pkg → StrMap (List String) → StrMap (List String)
autolibs_by_pkg [] m = m
autolibs_by_pkg (p ∷ ps) m = autolibs_by_pkg ps (insert p.pkg_path p.auto_lib m)

-- A map without the key gives the empty slice.
unfoldable pub imports_of : StrMap (List String) → String → List String
imports_of by pkg = elim (lookup pkg by) [ none ↦ [] | some libs ↦ libs ]

-- `*autolibs` and `seen`
pub record Visited : Type 0 where
  pub autolibs : List String
  pub seen : List String

-- The loop over `newLibs`.
unfoldable pub append_unseen : List String → Visited → Visited
append_unseen [] st = st
append_unseen (n ∷ ns) st =
    append_unseen ns
      (if contains n st.seen then st else record st { autolibs = st.autolibs ++ (n ∷ []) })

-- The loop over the imports; `next` gives the imports of a package, `none` means that the fuel
-- ran out.
unfoldable pub visit_imports :
    (String → List String)
    → (String → Visited → Option Visited)
    → List String
    → Visited
    → Option Visited
visit_imports next visit [] st = some st
visit_imports next visit (i ∷ is) st = elim (visit i st) [
  | none ↦ none
  | some st' ↦ visit_imports next visit is (append_unseen (next i) st')
]

abbrev pub finish_pkg : String → Visited → Visited
finish_pkg pkg st = record st { autolibs = st.autolibs ++ (pkg ∷ []) }

-- recurseAutolibs
unfoldable pub recurse_autolibs : (String → List String) → ℕ → String → Visited → Option Visited
recurse_autolibs next zero pkg st = none
recurse_autolibs next (suc fuel) pkg st =
    let rest =
      visit_imports next (recurse_autolibs next fuel) (next pkg)
        (record st { seen = pkg ∷ st.seen }) in
    if contains pkg st.seen
    then some st
    else elim rest [ none ↦ none | some t ↦ some (finish_pkg pkg t) ]

-- `linker.pkgs[len(linker.pkgs)-1]`
unfoldable pub last_pkg : Pkg → List Pkg → Pkg
last_pkg p [] = p
last_pkg p (q ∷ qs) = last_pkg q qs

-- Autolib
unfoldable pub autolib : ℕ → List Pkg → Option (List String)
autolib fuel [] = some []
autolib fuel (p ∷ ps) =
    elim (recurse_autolibs (imports_of (autolibs_by_pkg (p ∷ ps) [])) fuel (last_pkg p ps).pkg_path
      (record { autolibs = []; seen = [] })) [ none ↦ none | some st ↦ some st.autolibs ]

-- The loop with the label `outer`: the unresolved packages that do not exist yet.
unfoldable pub add_unresolved : List String → List String → List String → List String
add_unresolved existing [] pkg_list = pkg_list
add_unresolved existing (p ∷ ps) pkg_list =
    add_unresolved existing ps (if contains p existing then pkg_list else pkg_list ++ (p ∷ []))

-- The loop with the label `outer2`.
unfoldable pub add_rebuilt : List String → List String → List String
add_rebuilt [] pkg_list = pkg_list
add_rebuilt (p ∷ ps) pkg_list =
    add_rebuilt ps (if contains p pkg_list then pkg_list else pkg_list ++ (p ∷ []))

-- UnresolvedPackageReferences; the keys of a Go map stand in the order of the run.
abbrev pub unresolved_package_references : List String → List String → List String → List String
unresolved_package_references with_unresolved to_force_rebuild existing =
    add_rebuilt to_force_rebuild (add_unresolved existing with_unresolved [])
