-- ===== src/Linker/AddSymbol.antt =====
-- ld.go: `addSymbol` with its recursion, and `readFuncData`. The recursion has fuel: each call enters
-- a symbol of the object files that was not in the map.
pub mod Measure
pub mod Sound
pub mod Parts
mod Calls
pub mod Ends
use text.Mathlib.Text.{◌==◌ as str_eq}
use goloader.Shared.{
  ℕ, zero, suc, ◌+◌, ◌-◌, Bool, true, false, ◌&&◌, ◌||◌, not, List, [], ◌∷◌, ◌++◌, Option, none,
  some, String, length, ltb, leb, ◌==◌, set, if◌then◌else◌,
}
use goloader.Shared.Outcome.{Outcome, ok, err, panic, unknown_gcobj, size_above_int_size}
use goloader.Shared.Run.{Run, lift, return, ◌>>=◌}
use goloader.Shared.Bytes.{zeros}
use goloader.Segment.{
  SymKind, Sym, Reloc, sxxx, stext, srodata, snoptrdata, sdata, sbss, snoptrbss, stlsbss, int_size,
  invalid_offset, ptr_size,
}
use goloader.Names.{StrMap, lookup, insert, has, update}
use goloader.Reloc.AsmBytes.{Arch}
use goloader.Functions.{
  FuncInfo, FuncRecord, Func, NameTable, name_offset, patch_tables, append_tables,
}
use goloader.Functions.InlineTree.{Inlined, add_inline_tree}
use goloader.Linker.Reserve.{bytearray_align}
use goloader.Linker.Place.{Placed, place_symbol}
use goloader.Linker.State.{LinkSymbol, SymEntry, LinkState}
use goloader.Linker.Fixup.{sym_of, with_tls_name, fix_external}

-- The id of a function that is inlined, as the object files have it.
abbrev pub func_ids : StrMap LinkSymbol → String → Outcome ℕ
func_ids objs name = elim (lookup name objs) [
  | none ↦ ok 0
  | some o ↦ elim (o.func) [ none ↦ panic | some f ↦ ok f.func_id ]
]

abbrev pub is_stext : SymKind → Bool
is_stext stext = true
is_stext _ = false

abbrev pub fresh_entry : LinkSymbol → SymEntry
fresh_entry o = record {
  kind = o.kind;
  offset = 0;
  size = 0;
  pkg = o.pkg;
  relocs = [];
  func = none;
}

abbrev pub symbol_size : LinkSymbol → ℕ → LinkState → ℕ
symbol_size o base st = if is_stext o.kind then length st.sections.code - base else o.size

module _ (objs : StrMap LinkSymbol) where
  -- `FuncData`: the offsets of the symbols named, which are added if they are missing. `add` is
  -- addSymbol.
  unfoldable pub add_func_data :
      (String → LinkState → Run LinkState) → List String → LinkState → Run (List ℕ × LinkState)
  add_func_data add [] st = return ([], st)
  add_func_data add (n ∷ ns) st =
      (if str_eq n "" || has n st.sym_map
        then return st
        else if has n objs
        then add n st
        else lift (err unknown_gcobj))
      >>= λ st'. add_func_data add ns st' >>= λ (offs, st''). return (
        (if str_eq n "" then 0 else elim (lookup n st'.sym_map) [ none ↦ 0 | some e ↦ e.offset ])
            ∷ offs,
        st'',
      )

  -- A relocation to a symbol of the object files, which the map has by now; a symbol without bytes
  -- is at the start of `noptrdata`, where the linker keeps a zero word.
  unfoldable pub own_reloc : Reloc → LinkSymbol → LinkState → Run (Reloc × LinkState)
  own_reloc reloc o st =
      let name = reloc.sym.name in
      elim (lookup name st.sym_map) [
        | none ↦ lift panic
        | some e ↦
            if length o.bytes == 0 && ltb 0 reloc.size
            then (if leb reloc.size int_size
                then return (
                  record reloc { sym = record (sym_of name e) { offset = 0 } },
                  record st { sym_map = update name (λ s. record s { offset = 0 }) st.sym_map },
                )
                else lift (err size_above_int_size))
            else return (record reloc { sym = sym_of name e }, st)
      ]

  -- The relocation at its place in the section; the symbol that it refers to is added first. A
  -- relocation keeps its symbol's name, and the other fields as they are then.
  unfoldable pub fix_reloc :
      (String → LinkState → Run LinkState) → ℕ → Reloc → LinkState → Run (Reloc × LinkState)
  fix_reloc add base loc st =
      let reloc = record loc {
        offset = loc.offset + base;
        epilogue_offset = loc.epilogue_offset + base;
      } in
      elim (lookup loc.sym.name objs) [
        | none ↦
            lift (fix_external (with_tls_name loc.kind loc.offset loc.sym) st) >>= λ (sym, st').
            return (record reloc { sym = sym }, st')
        | some o ↦ add loc.sym.name st >>= λ st'. own_reloc reloc o st'
      ]

  unfoldable pub fix_relocs :
      (String → LinkState → Run LinkState)
      → ℕ
      → List Reloc
      → LinkState
      → Run (List Reloc × LinkState)
  fix_relocs add base [] st = return ([], st)
  fix_relocs add base (loc ∷ locs) st = do
    (loc', st) ← fix_reloc add base loc st
    (locs', st) ← fix_relocs add base locs st
    return (loc' ∷ locs', st)

  -- The type of a symbol gets an entry without a place, if neither the map nor the objects have it.
  unfoldable pub add_type : LinkSymbol → LinkState → LinkState
  add_type o st =
      if str_eq o.type_name "" || (has o.type_name st.sym_map || has o.type_name objs)
      then st
      else record st {
        sym_map =
            insert o.type_name
              (record {
                kind = sxxx;
                offset = invalid_offset;
                size = 0;
                pkg = o.pkg;
                relocs = [];
                func = none;
              })
              st.sym_map;
      }

module _ (arch : Arch) (no_epilogues : Bool) (objs : StrMap LinkSymbol) where
  -- addInlineTree on the linker's state, and the padding of `pctab` behind it.
  unfoldable pub inline_func :
      String → FuncInfo → List Reloc → ℕ → FuncRecord → Func → LinkState → Run LinkState
  inline_func name f relocs index fn func st =
      lift (
        add_inline_tree arch (func_ids objs) f relocs (record {
          fn = fn;
          func = func;
          names = st.names;
          pctab = st.pctab;
          noptrdata = st.sections.noptrdata;
        }))
      >>= λ s. return (record st {
        names = s.names;
        pctab = bytearray_align s.pctab ptr_size;
        sections = record st.sections { noptrdata = s.noptrdata };
        funcs = set st.funcs index s.fn;
        sym_map = update name (λ e. record e { func = some s.func }) st.sym_map;
      })

  -- readFuncData
  unfoldable pub read_func_data :
      (String → LinkState → Run LinkState)
      → String
      → FuncInfo
      → List Reloc
      → LinkState
      → Run LinkState
  read_func_data add name f relocs st = do
    let (name_off, names) = name_offset name st.names
    f' ← lift (patch_tables arch relocs f)
    let (fn, offs, pctab) = append_tables f' name_off st.pctab
    (funcdata, st') ←
        add_func_data objs add f'.func_data
          (record st { names = names; pctab = pctab; funcs = st.funcs ++ fn ∷ [] })
    inline_func name f' relocs (length st.funcs) fn (record { pcdata = offs; funcdata = funcdata })
        st'

  -- The tables of a function; without a `Func` the code reads through a nil pointer.
  abbrev pub read_func :
      (String → LinkState → Run LinkState)
      → String
      → LinkSymbol
      → List Reloc
      → LinkState
      → Run LinkState
  read_func add name o relocs st =
      if is_stext o.kind
      then elim (o.func) [ none ↦ lift panic | some f ↦ read_func_data add name f relocs st ]
      else return st

  -- addSymbol of a symbol that is not in the map yet.
  unfoldable pub add_new :
      (String → LinkState → Run LinkState) → String → LinkSymbol → LinkState → Run LinkState
  add_new add name o st = do
    p ←
        lift
          (place_symbol arch no_epilogues o.kind name o.bytes o.relocs st.sections st.heap_strings)
    st ← read_func add name o p.relocs (record st {
      sections = p.sections;
      heap_strings = p.heap_strings;
      sym_map = insert name (record (fresh_entry o) { offset = p.offset }) st.sym_map;
    })
    let size = symbol_size o p.offset st
    (relocs, st) ← fix_relocs objs add p.offset p.relocs st
    return (
        add_type objs o (record st {
          sym_map = update name (λ e. record e { size = size; relocs = relocs }) st.sym_map;
        }))

  -- addSymbol; a name that the object files do not have is a nil pointer.
  unfoldable pub add_symbol : ℕ → String → LinkState → Run LinkState
  add_symbol zero name st = none
  add_symbol (suc fuel) name st =
      if has name st.sym_map then return st else elim (lookup name objs) [
        | none ↦ lift panic
        | some o ↦ add_new (add_symbol fuel) name o st
      ]
