-- ===== src/Examples/Users.antt =====
-- main.f calls ext.g, which neither the host nor the object files have.
use goloader.Shared.{◌≡◌, ◌↔◌, ◌⊎◌, refl, List, [], ◌∷◌, none, some, String}
use goloader.Segment.{Reloc, stext, sxxx, r_call, invalid_offset}
use goloader.Names.{StrMap, lookup, contains}
use goloader.Reach.Names.{In}
use goloader.Linker.State.{SymEntry}
use goloader.Linker.Users.{
  unresolved_external_symbol_users, users_loop, required_by, refers_to, sort_strings, insert_string,
  less,
}
use goloader.Linker.Users.Exact.{Has, RefersTo, Unresolved, unresolved_external_symbol_users-Users}

abbrev call_ext : Reloc
call_ext = record {
  offset = 1;
  sym = record { name = "ext.g"; kind = sxxx; offset = invalid_offset; pkg = "ext" };
  size = 4;
  kind = r_call;
  add = 0;
  epilogue_offset = 0;
  epilogue_size = 0;
}

abbrev caller : SymEntry
caller = record {
  kind = stext;
  offset = 0;
  size = 8;
  pkg = "main";
  relocs = call_ext ∷ [];
  func = none;
}

abbrev missing_symbol : SymEntry
missing_symbol = record {
  kind = sxxx;
  offset = invalid_offset;
  size = 0;
  pkg = "ext";
  relocs = [];
  func = none;
}

abbrev syms : StrMap SymEntry
syms = ("main.g", caller) ∷ (("ext.g", missing_symbol) ∷ (("main.f", caller) ∷ []))

abbrev objs : List String
objs = "main.f" ∷ ("main.g" ∷ [])

abbrev reachable : List String
reachable = "main.f" ∷ ("ext.g" ∷ [])

unresolved_external_symbol_users-Users_example :
    (Unresolved [] objs reachable "ext.g" syms
      × ((users : List String) × (lookup "ext.g"
              (unresolved_external_symbol_users [] objs reachable syms)
            ≡ some users)
          × ((user : String) → In user users ↔ Has (RefersTo "ext.g" user) syms)))
    ⊎ ((Unresolved [] objs reachable "ext.g" syms → ⊥)
        × (lookup "ext.g" (unresolved_external_symbol_users [] objs reachable syms) ≡ none))
unresolved_external_symbol_users-Users_example =
    unresolved_external_symbol_users-Users [] objs reachable syms "ext.g"

users_test :
    unresolved_external_symbol_users [] objs reachable syms
    ≡ ("ext.g", "main.f" ∷ ("main.g" ∷ [])) ∷ []
unfolding users_loop required_by refers_to contains sort_strings insert_string less
users_test = refl
