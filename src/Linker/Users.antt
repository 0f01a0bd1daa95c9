-- ===== src/Linker/Users.antt =====
-- ld.go, `UnresolvedExternalSymbolUsers`: who needs the symbols that neither the host nor the object
-- files have.
pub mod Sorting
pub mod Exact
use text.Mathlib.Text.{◌==◌ as str_eq}
use text.Mathlib.TextEquality.{eq_iff}
use text.Mathlib.TextPositions.{eq_refl}
use goloader.Shared.{
  ℕ, ◌≡◌, ◌↔◌, ◌⊎◌, inl, inr, refl, subst, sym, Bool, true, false, ◌&&◌, ◌||◌, not, List, [], ◌∷◌,
  none, some, String, ltb, ◌==◌, if◌then◌else◌, Bool-cases, arith,
}
use goloader.Segment.{Reloc, invalid_offset}
use goloader.Names.{StrMap, lookup, insert, has, contains, codes}
use goloader.Reach.Names.{In, In_nil, In-cons, In_head, In_cases}
use goloader.Linker.State.{SymEntry}

-- sort.Strings, by the bytes of the strings
unfoldable pub less : List ℕ → List ℕ → Bool
less xs [] = false
less [] (y ∷ ys) = true
less (x ∷ xs) (y ∷ ys) = if ltb x y then true else (x == y) && less xs ys

unfoldable pub insert_string : String → List String → List String
insert_string x [] = x ∷ []
insert_string x (y ∷ ys) =
    let rest = insert_string x ys in if less (codes y) (codes x) then y ∷ rest else x ∷ (y ∷ ys)

unfoldable pub sort_strings : List String → List String
sort_strings [] = []
sort_strings (x ∷ xs) = insert_string x (sort_strings xs)

-- The loop over the relocations of a symbol: `requiredBySet[otherSym.Name] = struct{}{}`
unfoldable pub refers_to : String → List Reloc → Bool
refers_to name [] = false
refers_to name (r ∷ rs) = str_eq r.sym.name name || refers_to name rs

-- The loop over `otherSym`; the key of an entry is the name of its symbol.
unfoldable pub required_by : String → StrMap SymEntry → List String
required_by name [] = []
required_by name ((other, e) ∷ syms) =
    let rest = required_by name syms in
    if refers_to name e.relocs && not (contains other rest) then other ∷ rest else rest

-- `symbolMap`, the keys of `objsymbolMap` and `reachableSymbols`
abbrev pub is_unresolved : List String → List String → List String → String → SymEntry → Bool
is_unresolved host objs reachable name e =
    (e.offset == invalid_offset)
    && (not (contains name host) && (not (contains name objs) && contains name reachable))

unfoldable pub users_loop :
    (String → SymEntry → Bool) → StrMap SymEntry → StrMap SymEntry → StrMap (List String)
users_loop unresolved all [] = []
users_loop unresolved all ((name, e) ∷ syms) =
    let rest = users_loop unresolved all syms in
    if unresolved name e then insert name (sort_strings (required_by name all)) rest else rest

-- UnresolvedExternalSymbolUsers
abbrev pub unresolved_external_symbol_users :
    List String → List String → List String → StrMap SymEntry → StrMap (List String)
unresolved_external_symbol_users host objs reachable syms =
    users_loop (is_unresolved host objs reachable) syms syms
