-- ===== src/Examples/Reach.antt =====
-- Three symbols: main.main calls fmt.Println and uses the type of a pointer.
use goloader.Shared.{
  Bool, true, ◌&&◌, subst, ◌≡◌, ◌↔◌, inl, inr, refl, List, [], ◌∷◌, some, String, arith,
}
use goloader.Names.{StrMap, contains, lookup, trim_prefix}
use goloader.Reach.{ObjSymbol, successors, collect_reachable_symbols, visit_all, collect}
use goloader.Reach.Names.{In, Sub, In_cases, In_nil}
use goloader.Reach.Closure.{Leads, collect_reachable_symbols-Reaches}

abbrev objects : StrMap ObjSymbol
objects =
    (
      "main.main",
      record {
        type_name = "";
        reloc_names = "fmt.Println" ∷ ("type:*main.T" ∷ []);
        inl_funcs = [];
        func_data = [];
      },
    )
    ∷ (
      "main.dead",
      record { type_name = ""; reloc_names = "main.main" ∷ []; inl_funcs = []; func_data = [] },
    )
    ∷ []

abbrev names : List String
names = "main.main" ∷ ("fmt.Println" ∷ ("type:*main.T" ∷ ("type:main.T" ∷ [])))

-- A test that decides whether names are closed under references.
abbrev subset : List String → List String → Bool
subset [] t = true
subset (x ∷ s) t = contains x t && subset s t

abbrev closed_under : (String → List String) → List String → List String → Bool
closed_under next [] t = true
closed_under next (x ∷ s) t = subset (next x) t && closed_under next s t

subset-Sub : (s t : List String) → subset s t ≡ true → Sub s t
subset-Sub [] t h x i = absurd (In_nil x i)
subset-Sub (y ∷ s) t h x i = elim (In_cases x y s i) [
  | inl e ↦ subst (λ z. In z t) e (ground (arith, h))
  | inr j ↦ subset-Sub s t (ground (arith, h)) x j
]

closed_under-Sub :
    (next : String → List String) (s t : List String)
    → closed_under next s t ≡ true
    → (a : String) → In a s
    → Sub (next a) t
closed_under-Sub next [] t h a i = absurd (In_nil a i)
closed_under-Sub next (y ∷ s) t h a i = elim (In_cases a y s i) [
  | inl e ↦ subst (λ z. Sub (next z) t) e (subset-Sub (next y) t (ground (arith, h)))
  | inr j ↦ closed_under-Sub next s t (ground (arith, h)) a j
]

names_test : closed_under (successors objects) names names ≡ true
unfolding successors lookup contains trim_prefix
names_test = refl

start : In "main.main" names
unfolding contains
start = refl

collect_reachable_symbols-Reaches_example :
    (t : List String) × (collect_reachable_symbols objects 9 "main.main" [] ≡ some t)
    × ((x : String) → In x t ↔ Leads objects x "main.main")
collect_reachable_symbols-Reaches_example =
    collect_reachable_symbols-Reaches objects names
      (closed_under-Sub (successors objects) names names names_test) 9 "main.main" start
      (omega arith)

-- The function that nothing refers to is not collected.
collected :
    collect_reachable_symbols objects 9 "main.main" []
    ≡ some ("type:main.T" ∷ ("type:*main.T" ∷ ("fmt.Println" ∷ ("main.main" ∷ []))))
unfolding collect_reachable_symbols collect contains visit_all successors lookup trim_prefix
collected = refl
