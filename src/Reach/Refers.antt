-- ===== src/Reach/Refers.antt =====
-- To which names a name refers, apart from the code: the names at which the search goes on are these.
use text.Mathlib.Text.{◌==◌ as str_eq, starts_with}
use Prim.Native.String.{◌++◌ as str_append}
use goloader.Shared.{
  ◌≡◌, ◌↔◌, ◌⊎◌, inl, inr, subst, sym, true, false, List, [], ◌∷◌, ◌++◌, none, some, String,
  Bool-cases, Option-cases, if◌then◌else◌,
}
use goloader.Names.{StrMap, lookup, type_prefix, trim_prefix}
use goloader.Reach.{ObjSymbol, pointer_prefix, named, successors}
use goloader.Reach.Names.{In, In_nil, In-cons, In_head, In_cases, In-append_left}

-- A pointer type refers to the type that it points to; a symbol of the object files to its type, if
-- it has one, to the symbols of its relocations, and, a function, to the functions that are inlined
-- in it and to its FuncData.
pub data Refers (objs : StrMap ObjSymbol) (a b : String) : Type 0 where
  to_pointee :
      starts_with a pointer_prefix ≡ true
      → str_append type_prefix (trim_prefix a pointer_prefix) ≡ b
      → Refers objs a b
  to_type :
      (o : ObjSymbol)
      → lookup a objs ≡ some o
      → str_eq b "" ≡ false
      → o.type_name ≡ b
      → Refers objs a b
  by_reloc : (o : ObjSymbol) → lookup a objs ≡ some o → In b o.reloc_names → Refers objs a b
  by_inline : (o : ObjSymbol) → lookup a objs ≡ some o → In b o.inl_funcs → Refers objs a b
  by_data : (o : ObjSymbol) → lookup a objs ≡ some o → In b o.func_data → Refers objs a b

In-append_cases : (x : String) (s t : List String) → In x (s ++ t) → In x s ⊎ In x t
In-append_cases x [] t h = inr h
In-append_cases x (n ∷ s) t h = elim (In_cases x n (s ++ t) h) [
  | inl e ↦ inl (subst (λ y. In y (n ∷ s)) e (In_head n s))
  | inr i ↦ elim (In-append_cases x s t i) [ inl j ↦ inl (In-cons x n s j) | inr j ↦ inr j ]
]

In-append_right : (x : String) (s t : List String) → In x t → In x (s ++ t)
In-append_right x [] t h = h
In-append_right x (n ∷ s) t h = In-cons x n (s ++ t) (In-append_right x s t h)

In-one : (x n : String) → In x (n ∷ []) → n ≡ x
In-one x n h = elim (In_cases x n [] h) [ inl e ↦ e | inr i ↦ absurd (In_nil x i) ]

named_sound :
    (objs : StrMap ObjSymbol) (a b : String) (o : ObjSymbol)
    → lookup a objs ≡ some o
    → In b (named o)
    → Refers objs a b
named_sound objs a b o l h =
    elim (In-append_cases b (if str_eq o.type_name "" then [] else o.type_name ∷ [])
      (o.reloc_names ++ (o.inl_funcs ++ o.func_data)) h) [
        | inl i ↦ elim (Bool-cases (str_eq o.type_name "")) [
          | inl e ↦ absurd (In_nil b (rw e at i))
          | inr e ↦
              let same = In-one b o.type_name (rw e at i) in
              to_type o l (subst (λ y. str_eq y "" ≡ false) same e) same
        ]
        | inr i ↦ elim (In-append_cases b o.reloc_names (o.inl_funcs ++ o.func_data) i) [
          | inl j ↦ by_reloc o l j
          | inr j ↦ elim (In-append_cases b o.inl_funcs o.func_data j) [
            | inl k ↦ by_inline o l k
            | inr k ↦ by_data o l k
          ]
        ]
      ]

-- The names of the symbol itself, in the list of all that the search goes on at.
in_named :
    (objs : StrMap ObjSymbol) (a b : String) (o : ObjSymbol)
    → lookup a objs ≡ some o
    → In b (named o)
    → In b (successors objs a)
unfolding successors
in_named objs a b o l h =
    In-append_right b
      (if starts_with a pointer_prefix
        then str_append type_prefix (trim_prefix a pointer_prefix) ∷ []
        else [])
      (elim (lookup a objs) [ none ↦ [] | some o ↦ named o ]) (rw l h)

behind_type :
    (b : String) (o : ObjSymbol)
    → In b (o.reloc_names ++ (o.inl_funcs ++ o.func_data))
    → In b (named o)
behind_type b o h =
    In-append_right b (if str_eq o.type_name "" then [] else o.type_name ∷ [])
      (o.reloc_names ++ (o.inl_funcs ++ o.func_data)) h

successors_sound :
    (objs : StrMap ObjSymbol) (a b : String) → In b (successors objs a) → Refers objs a b
unfolding successors
successors_sound objs a b h =
    elim (In-append_cases b
      (if starts_with a pointer_prefix
        then str_append type_prefix (trim_prefix a pointer_prefix) ∷ []
        else [])
      (elim (lookup a objs) [ none ↦ [] | some o ↦ named o ]) h) [
        | inl i ↦ elim (Bool-cases (starts_with a pointer_prefix)) [
          | inl e ↦ to_pointee e (In-one b _ (rw e at i))
          | inr e ↦ absurd (In_nil b (rw e at i))
        ]
        | inr i ↦ elim (Option-cases (lookup a objs)) [
          | inl e ↦ absurd (In_nil b (rw e at i))
          | inr (o, e) ↦ named_sound objs a b o e (rw e at i)
        ]
      ]

successors_complete :
    (objs : StrMap ObjSymbol) (a b : String) → Refers objs a b → In b (successors objs a)
unfolding successors
successors_complete objs a b (to_pointee e same) =
    In-append_left b
      (if starts_with a pointer_prefix
        then str_append type_prefix (trim_prefix a pointer_prefix) ∷ []
        else [])
      (elim (lookup a objs) [ none ↦ [] | some o ↦ named o ])
      (rw e (
        subst (λ y. In y (str_append type_prefix (trim_prefix a pointer_prefix) ∷ [])) same
          (In_head _ [])))
successors_complete objs a b (to_type o l e same) = in_named objs a b o l (
    In-append_left b (if str_eq o.type_name "" then [] else o.type_name ∷ [])
      (o.reloc_names ++ (o.inl_funcs ++ o.func_data))
      (let e' = subst (λ y. str_eq y "" ≡ false) (sym same) e in
        rw e' (subst (λ y. In y (o.type_name ∷ [])) same (In_head o.type_name []))))
successors_complete objs a b (by_reloc o l i) =
    in_named objs a b o l
      (behind_type b o (In-append_left b o.reloc_names (o.inl_funcs ++ o.func_data) i))
successors_complete objs a b (by_inline o l i) = in_named objs a b o l (
    behind_type b o (
      In-append_right b o.reloc_names (o.inl_funcs ++ o.func_data)
        (In-append_left b o.inl_funcs o.func_data i)))
successors_complete objs a b (by_data o l i) = in_named objs a b o l (
    behind_type b o (
      In-append_right b o.reloc_names (o.inl_funcs ++ o.func_data)
        (In-append_right b o.inl_funcs o.func_data i)))

pub successors-Refers :
    (objs : StrMap ObjSymbol) (a b : String) → In b (successors objs a) ↔ Refers objs a b
successors-Refers objs a b = (successors_sound objs a b, successors_complete objs a b)
