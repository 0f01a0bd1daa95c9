-- ===== src/Reloc/Dispatch.antt =====
-- relocate.go: `(*Linker).relocate`, which resolves the address of each relocation of each symbol
-- and applies it. A Go map is an association list; the order of `linker.symMap` is the order in
-- which a run happens to range over it.
use text.Mathlib.Text.{starts_with}
use Prim.Native.String.{◌++◌ as str_append}
use goloader.Shared.{
  ℕ, ◌*◌, ◌^◌, Bool, true, false, ◌&&◌, ◌||◌, List, [], ◌∷◌, ◌++◌, Option, none, some, String, ltb,
  ◌==◌, if◌then◌else◌, bit_or,
}
use goloader.Shared.Word.{add64, sub64, u32, overflows32}
use goloader.Shared.Outcome.{
  Outcome, ok, err, panic, not_in_code_segment, tls_offset_out_of_range, offset_overflows,
  unknown_reloc_type, ◌>>=◌,
}
use goloader.Shared.Bytes.{get_uint32, put_uint32, put_uint64}
use goloader.Segment.{
  Segment, SymKind, stext, Sym, Reloc, RelocType, r_addr, r_addrarm64, r_addroff, r_call, r_callarm,
  r_callarm64, r_callind, r_pcrel, r_tls_le, r_tls_ie, r_gotpcrel, r_methodoff, r_usetype,
  r_useiface, r_useifacemethod, r_addrcuoff, r_keep, r_initorder, r_arm64_tls_le, r_arm64_tls_ie,
  r_arm64_gotpcrel, r_arm64_pcrel_ldst8, r_arm64_pcrel_ldst16, r_arm64_pcrel_ldst32,
  r_arm64_pcrel_ldst64, weak_call, weak_callarm64, weak_addr, weak_addroff, other_reloc, ptr_size,
  invalid_handle_value,
}
use goloader.Names.{
  StrMap, lookup, insert, contains, trim_prefix, trim_stars, tls_name, first_module_prefix,
  type_prefix, itab_prefix,
}
use goloader.Reloc.{on_reloc, reloc_byte, addr_base, Applied}
use goloader.Reloc.X86.{relocate_call, relocate_gotpcrel}
use goloader.Reloc.X86.Pcrel.{relocate_pcrel}
use goloader.Reloc.Arm64.{relocate_callarm, relocate_adrp}

-- What a run reads: two options, the reachable symbols, the host's TLS offset
-- (tls.GetTLSOffset) and the other name of a type, if it has one (symbolIsVariant).
pub record Env : Type 0 where
  pub force_epilogues : Bool
  pub skip_packages : List String
  pub reachable_symbols : List String
  pub tls_offset : ℕ
  pub variant : String → Option String

-- What a run changes.
pub record LinkState : Type 0 where
  pub segment : Segment
  pub symbol_map : StrMap ℕ
  pub applied_pcrel : Applied
  pub applied_adrp : Applied
  pub itablinks : List ℕ

-- A symbol of `linker.symMap` with its relocations.
pub record LinkedSym : Type 0 where
  pub sym : Sym
  pub relocs : List Reloc

abbrev pub is_text : SymKind → Bool
is_text stext = true
is_text _ = false

-- `symbolMap[name]`, 0 where there is none
unfoldable pub address_of : StrMap ℕ → String → ℕ
address_of m name = elim (lookup name m) [ none ↦ 0 | some a ↦ a ]

-- The address of a duplicate in the first module: under the symbol's own name or, for a type,
-- under the name of its variant.
unfoldable pub first_module_address : Env → StrMap ℕ → String → Option ℕ
first_module_address env m name = elim (lookup (str_append first_module_prefix name) m) [
  | some a ↦ some a
  | none ↦
      if starts_with name type_prefix
      then elim (env.variant name) [ none ↦ none | some v ↦ lookup v m ]
      else none
]

-- The address that a relocation starts from: the first module's for a duplicate, but not for a type
-- or a symbol of a package that is not deduplicated.
unfoldable pub resolve : Env → StrMap ℕ → Sym → ℕ
resolve env m sym = elim (first_module_address env m sym.name) [
  | none ↦ address_of m sym.name
  | some fm ↦
      if contains sym.pkg env.skip_packages || starts_with sym.name type_prefix
      then address_of m sym.name
      else fm
]

unfoldable pub has_prefix_in : String → List String → Bool
has_prefix_in name [] = false
has_prefix_in name (p ∷ ps) = starts_with name p || has_prefix_in name ps

-- An itab that the host does not have, or must not be taken from it, gets its place in the data.
unfoldable pub place_itab : Env → Sym → ℕ → LinkState → ℕ × LinkState
place_itab env sym addr st =
    let skipped = has_prefix_in (trim_stars (trim_prefix sym.name itab_prefix)) env.skip_packages in
    let placed = add64 st.segment.data_base sym.offset in
    if starts_with sym.name itab_prefix
      && (addr == 0 || skipped)
      && contains sym.name env.reachable_symbols
    then (
      placed,
      record st {
        symbol_map = insert sym.name placed st.symbol_map;
        itablinks = st.itablinks ++ placed ∷ [];
      },
    )
    else (addr, st)

-- `if _, ok := symbolMap[TLSNAME]; !ok { symbolMap[TLSNAME] = tls.GetTLSOffset(..) }`
unfoldable pub with_tls : Env → LinkState → LinkState
with_tls env st = elim (lookup tls_name st.symbol_map) [
  | none ↦ record st { symbol_map = insert tls_name env.tls_offset st.symbol_map }
  | some _ ↦ st
]

abbrev pub with_segment : LinkState → Outcome Segment → Outcome LinkState
with_segment st m = m >>= λ s. ok (record st { segment = s })

-- An offset from a base, in 32 bits.
unfoldable pub put_offset : Bool → ℕ → ℕ → Reloc → Segment → Outcome Segment
put_offset text base addr loc s = do
  let offset = add64 (sub64 addr base) loc.add
  s ← on_reloc text (λ b. put_uint32 b loc.offset (u32 offset)) s
  if overflows32 offset then err offset_overflows else ok s

unfoldable pub put_tls_le : Bool → ℕ → Reloc → Segment → Outcome Segment
put_tls_le text tls loc s = do
  let v = add64 tls (2 * ptr_size)
  val ← get_uint32 (reloc_byte text s) loc.offset
  s ← on_reloc text (λ b. put_uint32 b loc.offset (bit_or val (u32 (u32 v * 2 ^ 5)))) s
  if ltb v 32678 then ok s else err tls_offset_out_of_range

abbrev apply_pcrel : Env → Bool → ℕ → Reloc → LinkState → Outcome LinkState
apply_pcrel env text addr loc st =
    if text
    then (relocate_pcrel env.force_epilogues text addr loc st.segment st.applied_pcrel >>= λ (s, m).
        ok (record st { segment = s; applied_pcrel = m }))
    else err not_in_code_segment

abbrev apply_adrp : Env → Bool → ℕ → Reloc → LinkState → Outcome LinkState
apply_adrp env text addr loc st =
    relocate_adrp env.force_epilogues text addr loc st.segment st.applied_adrp >>= λ (s, m).
    ok (record st { segment = s; applied_adrp = m })

abbrev apply_adrp_text : Env → Bool → ℕ → Reloc → LinkState → Outcome LinkState
apply_adrp_text env text addr loc st =
    if text then apply_adrp env text addr loc st else err not_in_code_segment

abbrev apply_call : Env → Bool → ℕ → Reloc → LinkState → Outcome LinkState
apply_call env text addr loc st =
    with_segment st (relocate_call env.force_epilogues text addr loc st.segment)

abbrev apply_callarm : Env → Bool → ℕ → Reloc → LinkState → Outcome LinkState
apply_callarm env text addr loc st =
    with_segment st (relocate_callarm env.force_epilogues addr loc st.segment)

abbrev apply_addr : Bool → ℕ → Reloc → LinkState → Outcome LinkState
apply_addr text addr loc st =
    with_segment st (on_reloc text (λ b. put_uint64 b loc.offset (add64 addr loc.add)) st.segment)

abbrev apply_addroff : Bool → ℕ → Reloc → LinkState → Outcome LinkState
apply_addroff text addr loc st =
    with_segment st (put_offset text (addr_base text st.segment) addr loc st.segment)

-- The switch on `loc.Type`.
unfoldable pub apply_reloc : RelocType → Env → Bool → ℕ → Reloc → LinkState → Outcome LinkState
apply_reloc r_arm64_tls_le env text addr loc st =
    let st' = with_tls env st in
    with_segment st' (put_tls_le text (address_of st'.symbol_map tls_name) loc st'.segment)
apply_reloc r_tls_le env text addr loc st =
    let st' = with_tls env st in
    with_segment st' (
      on_reloc text (λ b. put_uint32 b loc.offset (u32 (address_of st'.symbol_map tls_name)))
        st'.segment)
apply_reloc r_call env text addr loc st = apply_call env text addr loc st
apply_reloc weak_call env text addr loc st = apply_call env text addr loc st
apply_reloc r_pcrel env text addr loc st = apply_pcrel env text addr loc st
apply_reloc r_callarm env text addr loc st = apply_callarm env text addr loc st
apply_reloc r_callarm64 env text addr loc st = apply_callarm env text addr loc st
apply_reloc weak_callarm64 env text addr loc st = apply_callarm env text addr loc st
apply_reloc r_addrarm64 env text addr loc st = apply_adrp_text env text addr loc st
apply_reloc r_arm64_pcrel_ldst8 env text addr loc st = apply_adrp_text env text addr loc st
apply_reloc r_arm64_pcrel_ldst16 env text addr loc st = apply_adrp_text env text addr loc st
apply_reloc r_arm64_pcrel_ldst32 env text addr loc st = apply_adrp_text env text addr loc st
apply_reloc r_arm64_pcrel_ldst64 env text addr loc st = apply_adrp_text env text addr loc st
apply_reloc r_arm64_gotpcrel env text addr loc st = apply_adrp_text env text addr loc st
apply_reloc r_addr env text addr loc st = apply_addr text addr loc st
apply_reloc weak_addr env text addr loc st = apply_addr text addr loc st
apply_reloc r_addroff env text addr loc st = apply_addroff text addr loc st
apply_reloc weak_addroff env text addr loc st = apply_addroff text addr loc st
apply_reloc r_methodoff env text addr loc st =
    let base = (if is_text loc.sym.kind then st.segment.code_base else addr_base text st.segment) in
    with_segment st (put_offset text base addr loc st.segment)
apply_reloc r_gotpcrel env text addr loc st =
    with_segment st (relocate_gotpcrel text addr loc st.segment)
apply_reloc r_tls_ie env text addr loc st =
    let st' = with_tls env st in
    with_segment st' (relocate_gotpcrel text (address_of st'.symbol_map tls_name) loc st'.segment)
apply_reloc r_arm64_tls_ie env text addr loc st = apply_adrp env text addr loc (with_tls env st)
apply_reloc r_callind env text addr loc st = ok st
apply_reloc r_usetype env text addr loc st = ok st
apply_reloc r_useiface env text addr loc st = ok st
apply_reloc r_useifacemethod env text addr loc st = ok st
apply_reloc r_addrcuoff env text addr loc st = ok st
apply_reloc r_keep env text addr loc st = ok st
apply_reloc r_initorder env text addr loc st = ok st
apply_reloc other_reloc env text addr loc st = err unknown_reloc_type

-- One relocation inside a symbol.
unfoldable pub relocate_one : Env → Bool → Reloc → LinkState → Outcome LinkState
relocate_one env text loc st =
    let (addr, st') = place_itab env loc.sym (resolve env st.symbol_map loc.sym) st in
    if addr == invalid_handle_value
    then (if contains loc.sym.name env.reachable_symbols then panic else ok st')
    else apply_reloc loc.kind env text addr loc st'

unfoldable pub relocate_all : Env → Bool → List Reloc → LinkState → Outcome LinkState
relocate_all env text [] st = ok st
relocate_all env text (loc ∷ locs) st =
    relocate_one env text loc st >>= λ st'. relocate_all env text locs st'

-- relocate
unfoldable pub relocate : Env → List LinkedSym → LinkState → Outcome LinkState
relocate env [] st = ok st
relocate env (symbol ∷ symbols) st =
    relocate_all env (is_text symbol.sym.kind) symbol.relocs st >>= λ st'. relocate env symbols st'
