-- ===== src/Reach.antt =====
-- readobj.go: the symbols that a package reaches (`collectReachableSymbols`). A set is a list of
-- names, the one added last first.
pub mod Names
pub mod Refers
pub mod Closure
use text.Mathlib.Text.{◌==◌ as str_eq, starts_with}
use Prim.Native.String.{◌++◌ as str_append}
use goloader.Shared.{
  ℕ, zero, suc, Bool, List, [], ◌∷◌, ◌++◌, Option, none, some, String, if◌then◌else◌,
}
use goloader.Names.{StrMap, lookup, contains, type_prefix, trim_prefix}

-- The fields of obj.ObjSymbol that name other symbols; without a `Func` the last two are empty.
pub record ObjSymbol : Type 0 where
  pub type_name : String
  pub reloc_names : List String
  pub inl_funcs : List String
  pub func_data : List String

-- `TypePrefix + "*"`
abbrev pub pointer_prefix : String
pointer_prefix = "type:*"

abbrev pub named : ObjSymbol → List String
named o =
    (if str_eq o.type_name "" then [] else o.type_name ∷ [])
    ++ (o.reloc_names ++ (o.inl_funcs ++ o.func_data))

-- The names at which collectReachableSymbols goes on, in its order.
unfoldable pub successors : StrMap ObjSymbol → String → List String
successors objs name =
    (if starts_with name pointer_prefix
      then str_append type_prefix (trim_prefix name pointer_prefix) ∷ []
      else [])
    ++ elim (lookup name objs) [ none ↦ [] | some o ↦ named o ]

unfoldable pub visit_all :
    (String → List String → Option (List String)) → List String → List String → Option (List String)
visit_all visit [] seen = some seen
visit_all visit (n ∷ ns) seen = elim (visit n seen) [ none ↦ none | some s ↦ visit_all visit ns s ]

-- A depth-first search; `none` means that the fuel ran out.
unfoldable pub collect : (String → List String) → ℕ → String → List String → Option (List String)
collect next zero name seen = none
collect next (suc fuel) name seen =
    let rest = visit_all (collect next fuel) (next name) (name ∷ seen) in
    if contains name seen then some seen else rest

-- collectReachableSymbols
unfoldable pub collect_reachable_symbols :
    StrMap ObjSymbol → ℕ → String → List String → Option (List String)
collect_reachable_symbols objs fuel name seen = collect (successors objs) fuel name seen
