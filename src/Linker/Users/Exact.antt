-- ===== src/Linker/Users/Exact.antt =====
-- The users of a symbol are exactly the symbols that refer to it.
use text.Mathlib.Text.{◌==◌ as str_eq}
use text.Mathlib.TextEquality.{eq_iff}
use goloader.Shared.{
  ◌≡◌, ◌↔◌, ◌⊎◌, inl, inr, refl, subst, Bool, true, false, ◌&&◌, not, List, [], ◌∷◌, none, some,
  String, Bool-cases, arith,
}
use goloader.Segment.{Reloc, invalid_offset}
use goloader.Names.{StrMap, lookup, contains}
use goloader.Reach.Names.{In, In_nil, In-cons, In_head, In_cases}
use goloader.Linker.State.{SymEntry}
use goloader.Linker.Users.{
  sort_strings, refers_to, required_by, is_unresolved, users_loop, unresolved_external_symbol_users,
}
use goloader.Linker.Users.Sorting.{In-sort_strings}

-- An entry of the map, apart from its place.
pub data Has (P : String → SymEntry → Type 0) : StrMap SymEntry → Type 0 where
  first : (k : String) (e : SymEntry) (m : StrMap SymEntry) → P k e → Has P ((k, e) ∷ m)
  later : (k : String) (e : SymEntry) (m : StrMap SymEntry) → Has P m → Has P ((k, e) ∷ m)

-- One of the relocations, wherever it stands, is to the name.
pub data Mentions (name : String) : List Reloc → Type 0 where
  now : (r : Reloc) (rs : List Reloc) → r.sym.name ≡ name → Mentions name (r ∷ rs)
  next : (r : Reloc) (rs : List Reloc) → Mentions name rs → Mentions name (r ∷ rs)

abbrev pub RefersTo : String → String → String → SymEntry → Type 0
RefersTo name user k e = (k ≡ user) × Mentions name e.relocs

refers_to_sound : (name : String) (rs : List Reloc) → refers_to name rs ≡ true → Mentions name rs
unfolding refers_to
refers_to_sound name [] h = cc
refers_to_sound name (r ∷ rs) h = elim (Bool-cases (str_eq r.sym.name name)) [
  | inl e ↦ now r rs ((eq_iff r.sym.name name).0 e)
  | inr e ↦ next r rs (refers_to_sound name rs (rw e at h))
]

refers_to_complete : (name : String) (rs : List Reloc) → Mentions name rs → refers_to name rs ≡ true
unfolding refers_to
refers_to_complete name _ (now r rs e) = rw ((eq_iff r.sym.name name).1 e) refl
refers_to_complete name _ (next r rs h) = elim (Bool-cases (str_eq r.sym.name name)) [
  | inl e ↦ rw e refl
  | inr e ↦ rw e (refers_to_complete name rs h)
]

required_by_sound :
    (name user : String) (m : StrMap SymEntry)
    → In user (required_by name m)
    → Has (RefersTo name user) m
unfolding required_by
required_by_sound name user [] i = absurd (In_nil user i)
required_by_sound name user ((k, e) ∷ m) i =
    elim (Bool-cases (refers_to name e.relocs && not (contains k (required_by name m)))) [
      | inl t ↦ elim (In_cases user k (required_by name m) (rw t at i)) [
        | inl same ↦ first k e m (same, refers_to_sound name e.relocs (ground (arith, t)))
        | inr j ↦ later k e m (required_by_sound name user m j)
      ]
      | inr t ↦ later k e m (required_by_sound name user m (rw t at i))
    ]

required_by_complete :
    (name user : String) (m : StrMap SymEntry)
    → Has (RefersTo name user) m
    → In user (required_by name m)
unfolding required_by
required_by_complete name user _ (first k e m (same, mentions)) =
    let r = refers_to_complete name e.relocs mentions in
    elim (Bool-cases (contains k (required_by name m))) [
      | inl t ↦ rw (r, t) (subst (λ y. In y (required_by name m)) same t)
      | inr t ↦
          rw (r, t)
            (subst (λ y. In y (k ∷ required_by name m)) same (In_head k (required_by name m)))
    ]
required_by_complete name user _ (later k e m h) =
    elim (Bool-cases (refers_to name e.relocs && not (contains k (required_by name m)))) [
      | inl t ↦ rw t (In-cons user k (required_by name m) (required_by_complete name user m h))
      | inr t ↦ rw t (required_by_complete name user m h)
    ]

-- A name has an entry in the result exactly when its symbol is unresolved.
users_loop-none :
    (unresolved : String → SymEntry → Bool) (all m : StrMap SymEntry) (name : String)
    → (Has (λ k e. (k ≡ name) × (unresolved k e ≡ true)) m → ⊥)
    → lookup name (users_loop unresolved all m) ≡ none
unfolding users_loop lookup
users_loop-none unresolved all [] name h = refl
users_loop-none unresolved all ((k, e) ∷ m) name h = elim (Bool-cases (unresolved k e)) [
  | inr t ↦ rw t (users_loop-none unresolved all m name (λ x. h (later k e m x)))
  | inl t ↦ elim (Bool-cases (str_eq k name)) [
    | inl same ↦ absurd (h (first k e m ((eq_iff k name).0 same, t)))
    | inr differs ↦ rw (t, differs) (users_loop-none unresolved all m name (λ x. h (later k e m x)))
  ]
]

users_loop-some :
    (unresolved : String → SymEntry → Bool) (all : StrMap SymEntry) (name : String)
    (m : StrMap SymEntry)
    → Has (λ k e. (k ≡ name) × (unresolved k e ≡ true)) m
    → lookup name (users_loop unresolved all m) ≡ some (sort_strings (required_by name all))
unfolding users_loop lookup
users_loop-some unresolved all name _ (first k e m (same, t)) =
    rw (t, (eq_iff k name).1 same, same) refl
users_loop-some unresolved all name _ (later k e m h) = elim (Bool-cases (unresolved k e)) [
  | inr t ↦ rw t (users_loop-some unresolved all name m h)
  | inl t ↦ elim (Bool-cases (str_eq k name)) [
    | inl same ↦ rw (t, same, (eq_iff k name).0 same) refl
    | inr differs ↦ rw (t, differs) (users_loop-some unresolved all name m h)
  ]
]

-- A symbol has no offset, is needed, and is found nowhere.
abbrev pub IsUnresolved : List String → List String → List String → String → SymEntry → Type 0
IsUnresolved host objs reachable k e =
    (e.offset ≡ invalid_offset)
    × (contains k host ≡ false)
    × (contains k objs ≡ false)
    × In k reachable

-- A symbol of the name is unresolved.
abbrev pub Unresolved : List String → List String → List String → String → StrMap SymEntry → Type 0
Unresolved host objs reachable name syms =
    Has (λ k e. (k ≡ name) × IsUnresolved host objs reachable k e) syms

is_unresolved_lem :
    (host objs reachable : List String) (k : String) (e : SymEntry)
    → (is_unresolved host objs reachable k e ≡ true) ↔ IsUnresolved host objs reachable k e
is_unresolved_lem host objs reachable k e = (
  λ h. (ground (arith, h), ground (arith, h), ground (arith, h), ground (arith, h)),
  λ (a, b, c, d). ground (arith, a, b, c, d),
)

Has-map :
    (P Q : String → SymEntry → Type 0) (m : StrMap SymEntry)
    → ((k : String) (e : SymEntry) → P k e → Q k e)
    → Has P m
    → Has Q m
Has-map P Q _ f (first k e m p) = first k e m (f k e p)
Has-map P Q _ f (later k e m h) = later k e m (Has-map P Q m f h)

Has-cases :
    (P : String → SymEntry → Type 0) (k : String) (e : SymEntry) (m : StrMap SymEntry)
    → Has P ((k, e) ∷ m)
    → P k e ⊎ Has P m
Has-cases P k e m (first _ _ _ p) = inl p
Has-cases P k e m (later _ _ _ h) = inr h

Has-nil : (P : String → SymEntry → Type 0) (m : StrMap SymEntry) → m ≡ [] → Has P m → ⊥
Has-nil P _ e (first k x m p) = cc
Has-nil P _ e (later k x m h) = cc

Has-decided :
    (unresolved : String → SymEntry → Bool) (name : String) (m : StrMap SymEntry)
    → Has (λ k e. (k ≡ name) × (unresolved k e ≡ true)) m
      ⊎ (Has (λ k e. (k ≡ name) × (unresolved k e ≡ true)) m → ⊥)
Has-decided unresolved name [] = inr (Has-nil (λ k e. (k ≡ name) × (unresolved k e ≡ true)) [] refl)
Has-decided unresolved name ((k, e) ∷ m) = elim (Has-decided unresolved name m) [
  | inl h ↦ inl (later k e m h)
  | inr no_later ↦ elim (Bool-cases (str_eq k name && unresolved k e)) [
    | inl t ↦ inl (first k e m ((eq_iff k name).0 (ground (arith, t)), ground (arith, t)))
    | inr t ↦ inr (λ h. elim (Has-cases (λ k e. (k ≡ name) × (unresolved k e ≡ true)) k e m h) [
      | inl (same, u) ↦ let s = (eq_iff k name).1 same in cc (rw (s, u) at t)
      | inr l ↦ no_later l
    ])
  ]
]

from_test :
    (host objs reachable : List String) (name : String) (syms : StrMap SymEntry)
    → Has (λ k e. (k ≡ name) × (is_unresolved host objs reachable k e ≡ true)) syms
    → Unresolved host objs reachable name syms
from_test host objs reachable name syms h =
    Has-map _ _ syms (λ k e (same, t). (same, (is_unresolved_lem host objs reachable k e).0 t)) h

as_tested :
    (host objs reachable : List String) (name : String) (syms : StrMap SymEntry)
    → Unresolved host objs reachable name syms
    → Has (λ k e. (k ≡ name) × (is_unresolved host objs reachable k e ≡ true)) syms
as_tested host objs reachable name syms h =
    Has-map _ _ syms (λ k e (same, u). (same, (is_unresolved_lem host objs reachable k e).1 u)) h

-- Either a symbol of a name is unresolved (no offset, not in the host, not in the object files, and
-- reachable), and then UnresolvedExternalSymbolUsers has an entry for the name that holds exactly
-- the symbols with a relocation to it; or no symbol of the name is, and then there is no entry.
pub unresolved_external_symbol_users-Users :
    (host objs reachable : List String) (syms : StrMap SymEntry) (name : String)
    → (Unresolved host objs reachable name syms
        × ((users : List String) × (lookup name
                (unresolved_external_symbol_users host objs reachable syms)
              ≡ some users)
            × ((user : String) → In user users ↔ Has (RefersTo name user) syms)))
      ⊎ ((Unresolved host objs reachable name syms → ⊥)
          × (lookup name (unresolved_external_symbol_users host objs reachable syms) ≡ none))
unresolved_external_symbol_users-Users host objs reachable syms name =
    let unresolved = is_unresolved host objs reachable in
    elim (Has-decided unresolved name syms) [
      | inr h ↦ inr (
        λ u. h (as_tested host objs reachable name syms u),
        users_loop-none unresolved syms syms name h,
      )
      | inl h ↦ inl (
        from_test host objs reachable name syms h,
        (
          sort_strings (required_by name syms),
          users_loop-some unresolved syms name syms h,
          λ user. (
            λ i.
                required_by_sound name user syms
                  ((In-sort_strings user (required_by name syms)).0 i),
            λ u.
                (In-sort_strings user (required_by name syms)).1
                  (required_by_complete name user syms u),
          ),
        ),
      )
    ]
