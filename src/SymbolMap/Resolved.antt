-- ===== src/SymbolMap/Resolved.antt =====
-- The address that a relocation is given, from the addresses that `addSymbolMap` chose.
use text.Mathlib.Text.{◌==◌ as str_eq, starts_with}
use text.Mathlib.TextEquality.{eq_iff}
use text.Mathlib.TextPositions.{len-append}
use Prim.Native.String.{◌++◌ as str_append, len}
use goloader.Shared.{
  ℕ, ◌≡◌, ◌∙◌, ap, refl, Bool, true, false, none, some, String, ◌==◌, if◌then◌else◌, arith,
  Bool-cases, inl, inr,
}
use goloader.Shared.Word.{add64}
use goloader.Shared.Outcome.{ok}
use goloader.Segment.{Segment, Sym, invalid_offset}
use goloader.Names.{
  lookup, insert, contains, tls_name, first_module_prefix, main_pkg_prefix, type_prefix,
  itab_prefix,
}
use goloader.Reloc.Dispatch.{Env, resolve, first_module_address, address_of, is_text, has_prefix_in}
use goloader.SymbolMap.{Host, Maps, map_symbol, map_text, map_known_data}

abbrev pub first_name : String → String
first_name name = str_append first_module_prefix name

first_name_ne : (name : String) → str_eq (first_name name) name ≡ false
first_name_ne name = elim (Bool-cases (str_eq (first_name name) name)) [
  | inr e ↦ e
  | inl e ↦ absurd (
      omega
        (arith, ap len ((eq_iff (first_name name) name).0 e), len-append first_module_prefix name))
]

ne_first_name : (name : String) → str_eq name (first_name name) ≡ false
ne_first_name name = elim (Bool-cases (str_eq name (first_name name))) [
  | inr e ↦ e
  | inl e ↦ absurd (
      omega
        (arith, ap len ((eq_iff name (first_name name)).0 e), len-append first_module_prefix name))
]

self : (name : String) → str_eq name name ≡ true
self name = (eq_iff name name).1 refl

module _ (host : Host) (seg : Segment) (s : Sym) (m : Maps) (env : Env)
    (reachable : contains s.name host.reachable_symbols ≡ true)
    (has_place : s.offset == invalid_offset ≡ false) (no_tls : str_eq s.name tls_name ≡ false)
    (no_type : starts_with s.name type_prefix ≡ false)
    (fresh : lookup (first_name s.name) m.addresses ≡ none) where
  abbrev name : String
  name = s.name

  -- The relocation's address, where the symbol has one of its own and, it may be, one in the host.
  alone : (a : ℕ) → resolve env (insert name a m.addresses) s ≡ a
  unfolding resolve first_module_address address_of lookup
  alone a =
      rw (ne_first_name name, resolve, first_module_address, fresh, no_type, address_of, self name)

  twice :
      (a p : ℕ)
      → resolve env (insert (first_name name) p (insert name a m.addresses)) s
        ≡ (if contains s.pkg env.skip_packages then a else p)
  unfolding resolve first_module_address address_of lookup
  twice a p = elim (Bool-cases (contains s.pkg env.skip_packages)) [
    | inl e ↦ rw (self (first_name name), resolve, e, first_name_ne name, address_of, self name)
    | inr e ↦ rw (self (first_name name), resolve, e, no_type)
  ]

  kept :
      (a p : ℕ)
      → contains s.pkg env.skip_packages ≡ false
      → resolve env (insert (first_name name) p (insert name a m.addresses)) s ≡ p
  kept a p e = twice a p ∙ ap (λ (b : Bool). if b then a else p) e

  text_runs : is_text s.kind ≡ true → map_symbol host seg name s m ≡ ok (map_text host seg name s m)
  unfolding map_symbol
  text_runs e = rw (reachable, map_symbol, has_place, no_tls, e)

  -- A function of the module, not a type and with no duplicate entered yet: a relocation of it is
  -- given its place in the new code, unless the host has it too: then the host's address, but for a
  -- package that is kept apart.
  pub resolve-map_symbol :
      is_text s.kind ≡ true
      → (m' : Maps) × (map_symbol host seg name s m ≡ ok m')
        × (lookup name host.sym_ptr ≡ none
            → resolve env m'.addresses s ≡ add64 s.offset seg.code_base)
        × ((p : ℕ)
            → lookup name host.sym_ptr ≡ some p
            → resolve env m'.addresses s
              ≡ (if contains s.pkg env.skip_packages then add64 s.offset seg.code_base else p))
  unfolding map_text
  resolve-map_symbol e = (
    map_text host seg name s m,
    text_runs e,
    λ h. rw (h, map_text) (alone (add64 s.offset seg.code_base)),
    λ p h. rw (h, map_text) (twice (add64 s.offset seg.code_base) p),
  )

  known_runs :
      (p : ℕ)
      → is_text s.kind ≡ false
      → starts_with name itab_prefix ≡ false
      → lookup name host.sym_ptr ≡ some p
      → map_symbol host seg name s m ≡ ok (map_known_data host seg name s p m)
  unfolding map_symbol
  known_runs p e i h = rw (reachable, map_symbol, has_place, no_tls, e, i, h)

  -- Data of the module that the host has too, neither a type nor an itab: a relocation of it is given
  -- the host's variable, but for a package that is kept apart.
  pub resolve-map_known_data :
      (p : ℕ)
      → is_text s.kind ≡ false
      → starts_with name itab_prefix ≡ false
      → lookup name host.sym_ptr ≡ some p
      → has_prefix_in name host.skip_packages ≡ false
      → contains s.pkg env.skip_packages ≡ false
      → (m' : Maps) × (map_symbol host seg name s m ≡ ok m') × (resolve env m'.addresses s ≡ p)
  unfolding map_known_data
  resolve-map_known_data p e i h skip pkg = elim (Bool-cases (starts_with name main_pkg_prefix)) [
    | inl main ↦ (
      map_known_data host seg name s p m,
      known_runs p e i h,
      rw (main, map_known_data) (kept (add64 s.offset seg.data_base) p pkg),
    )
    | inr main ↦ (
      map_known_data host seg name s p m,
      known_runs p e i h,
      rw (main, map_known_data, no_type, skip) (kept p p pkg),
    )
  ]
