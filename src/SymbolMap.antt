-- ===== src/SymbolMap.antt =====
-- ld.go, `addSymbolMap`: the address of each reachable symbol, and of its duplicate in the host.
pub mod Resolved
use text.Mathlib.Text.{◌==◌ as str_eq, starts_with}
use Prim.Native.String.{◌++◌ as str_append}
use goloader.Shared.{
  ℕ, Bool, true, false, ◌&&◌, ◌||◌, not, List, [], ◌∷◌, Option, none, some, String, ◌==◌,
  if◌then◌else◌,
}
use goloader.Shared.Word.{add64}
use goloader.Shared.Outcome.{Outcome, ok, err, unresolved_external_symbol, nil_string, ◌>>=◌}
use goloader.Segment.{Segment, Sym, invalid_offset}
use goloader.Names.{
  StrMap, lookup, insert, contains, ends_with, tls_name, first_module_prefix, main_pkg_prefix,
  type_prefix, type_string_prefix, itab_prefix,
}
use goloader.Reloc.Dispatch.{is_text, has_prefix_in}

-- What addSymbolMap reads: the host's symbols, the string constants that it holds for the module
-- (their length and address), the address of the linker itself, and the other name of a type
-- (symbolIsVariant).
pub record Host : Type 0 where
  pub sym_ptr : StrMap ℕ
  pub skip_packages : List String
  pub reachable_symbols : List String
  pub heap_strings : StrMap (ℕ × ℕ)
  pub linker_address : ℕ
  pub variant : String → Option String

-- The result so far: the addresses, and the module's exports (codeModule.Syms).
pub record Maps : Type 0 where
  pub addresses : StrMap ℕ
  pub syms : StrMap ℕ

abbrev pub set_address : String → ℕ → Maps → Maps
set_address name a m = record m { addresses = insert name a m.addresses }

-- `symbolMap[FirstModulePrefix+name] = ptr`
abbrev pub set_duplicate : String → ℕ → Maps → Maps
set_duplicate name a m = record m {
  addresses = insert (str_append first_module_prefix name) a m.addresses;
}

abbrev pub export : String → ℕ → Maps → Maps
export name a m = record m { syms = insert name a m.syms }

-- Both the symbol and its duplicate are the host's.
abbrev pub set_both : String → ℕ → Maps → Maps
set_both name p m = set_duplicate name p (set_address name p m)

-- A symbol without a place in the module.
unfoldable pub map_external : Host → String → Sym → Maps → Outcome Maps
map_external host name sym m = elim (lookup sym.name host.sym_ptr) [
  | none ↦ err unresolved_external_symbol
  | some p ↦ ok (set_both name p m)
]

unfoldable pub map_text : Host → Segment → String → Sym → Maps → Maps
map_text host seg name sym m =
    let a = add64 sym.offset seg.code_base in
    let m = export sym.name a (set_address name a m) in
    elim (lookup name host.sym_ptr) [ none ↦ m | some p ↦ set_duplicate name p m ]

unfoldable pub map_itab : Host → String → Sym → Maps → Maps
map_itab host name sym m = elim (lookup sym.name host.sym_ptr) [
  | none ↦ m
  | some p ↦ set_both name p m
]

unfoldable pub map_string : Host → String → Maps → Outcome Maps
map_string host name m = elim (lookup name host.heap_strings) [
  | none ↦ err nil_string
  | some (len, at) ↦ ok (set_address name (if len == 0 then host.linker_address else at) m)
]

-- `if variant, ok := symbolIsVariant(name); ok && symPtr[variant] != 0`
unfoldable pub map_variant : Host → String → Maps → Maps
map_variant host name m = elim (host.variant name) [
  | none ↦ m
  | some v ↦ elim (lookup v host.sym_ptr) [
    | none ↦ m
    | some p ↦ if p == 0 then m else set_duplicate name p m
  ]
]

-- Data that the host does not have.
unfoldable pub map_new_data : Host → Segment → String → Sym → Maps → Outcome Maps
map_new_data host seg name sym m =
    let a = add64 sym.offset seg.data_base in
    let m' =
      (if ends_with sym.name "·f"
        then export sym.name a (set_address name a m)
        else set_address name a m) in
    if starts_with name type_string_prefix
    then map_string host name m
    else ok (if starts_with name type_prefix then map_variant host name m' else m')

-- Data that the host has at `p`.
unfoldable pub map_known_data : Host → Segment → String → Sym → ℕ → Maps → Maps
map_known_data host seg name sym p m =
    let a = add64 sym.offset seg.data_base in
    if starts_with name main_pkg_prefix || starts_with name type_prefix
    then set_duplicate name p (set_address name a m)
    else if has_prefix_in name host.skip_packages
    then set_address name a m
    else set_both name p m

-- One symbol of `linker.symMap`.
unfoldable pub map_symbol : Host → Segment → String → Sym → Maps → Outcome Maps
map_symbol host seg name sym m =
    if not (contains name host.reachable_symbols)
    then ok m
    else if sym.offset == invalid_offset
    then map_external host name sym m
    else if str_eq sym.name tls_name
    then ok m
    else if is_text sym.kind
    then ok (map_text host seg name sym m)
    else if starts_with sym.name itab_prefix
    then ok (map_itab host name sym m)
    else elim (lookup name host.sym_ptr) [
      | none ↦ map_new_data host seg name sym m
      | some p ↦ ok (map_known_data host seg name sym p m)
    ]

unfoldable pub map_symbols : Host → Segment → List (String × Sym) → Maps → Outcome Maps
map_symbols host seg [] m = ok m
map_symbols host seg ((name, sym) ∷ syms) m =
    map_symbol host seg name sym m >>= λ m. map_symbols host seg syms m

-- addSymbolMap; the symbols come in the order in which a run ranges over the map.
unfoldable pub add_symbol_map : Host → Segment → List (String × Sym) → Outcome Maps
add_symbol_map host seg syms = do
  m ← map_symbols host seg syms (record { addresses = []; syms = [] })
  ok (elim (lookup tls_name host.sym_ptr) [ none ↦ m | some tls ↦ set_address tls_name tls m ])
