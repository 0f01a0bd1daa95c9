-- ===== src/Linker/AddSymbols.antt =====
-- ld.go: `addSymbols`, which fills the table of files, adds the symbols that the program reaches,
-- and moves their offsets to where `Load` puts the sections.
pub mod Files
pub mod Ends
pub mod Loaded
use text.Mathlib.Text.{◌==◌ as str_eq, starts_with}
use Prim.Native.String.{len, slice, ◌++◌ as str_append}
use goloader.Shared.{
  ℕ, Bool, true, false, ◌&&◌, ◌||◌, not, List, [], ◌∷◌, ◌++◌, map, Option, none, some, String,
  length, ltb, leb, ◌==◌, if◌then◌else◌,
}
use goloader.Shared.Word.{u32}
use goloader.Shared.Outcome.{panic}
use goloader.Shared.Run.{Run, lift, return, ◌>>=◌}
use goloader.Shared.Bytes.{zeros}
use goloader.Segment.{
  SymKind, Reloc, sxxx, stext, srodata, snoptrdata, sdata, sbss, snoptrbss, stlsbss, int_size,
  ptr_size,
}
use goloader.Names.{StrMap, lookup, insert, has, contains, codes, trim_prefix}
use goloader.Reloc.AsmBytes.{Arch}
use goloader.Load.{Sections}
use goloader.Functions.{FuncInfo}
use goloader.Linker.Place.{shift_symbol}
use goloader.Linker.State.{LinkSymbol, SymEntry, LinkState}
use goloader.Linker.AddSymbol.{add_symbol}

abbrev pub file_sym_prefix : String
file_sym_prefix = "gofile.."

abbrev pub abi_internal_suffix : String
abi_internal_suffix = ".abiinternal"

-- obj.FuncIDWrapper
abbrev pub func_id_wrapper : ℕ
func_id_wrapper = 21

-- expandGoroot; `rooted` is the path below the Go root of the running program.
unfoldable pub expand_goroot : (String → String) → String → String
expand_goroot rooted s =
    if starts_with s "$GOROOT/" || starts_with s "$GOROOT\\" then rooted (slice s 7 (len s)) else s

abbrev pub file_text : (String → String) → String → String
file_text rooted name = expand_goroot rooted (trim_prefix name file_sym_prefix)

-- `filetab`, `fileNameMap` and `cutab`
pub record FileTable : Type 0 where
  pub bytes : List ℕ
  pub offsets : StrMap ℕ
  pub cutab : List ℕ

-- The body of the loop over the files of a compilation unit.
unfoldable pub add_file : (String → String) → String → FileTable → FileTable
add_file rooted name t = elim (lookup name t.offsets) [
  | some o ↦ record t { cutab = t.cutab ++ u32 o ∷ [] }
  | none ↦ record {
    bytes = t.bytes ++ (codes (file_text rooted name) ++ 0 ∷ []);
    offsets = insert name (length t.bytes) t.offsets;
    cutab = t.cutab ++ u32 (length t.bytes) ∷ [];
  }
]

unfoldable pub add_files : (String → String) → List String → FileTable → FileTable
add_files rooted [] t = t
add_files rooted (name ∷ names) t = add_files rooted names (add_file rooted name t)

-- Both loops over `linker.cuFiles`.
unfoldable pub add_units : (String → String) → List (List String) → FileTable → FileTable
add_units rooted [] t = t
add_units rooted (files ∷ units) t = add_units rooted units (add_files rooted files t)

-- A wrapper of an assembly function: one of its relocations points to the function itself, without
-- the suffix.
unfoldable pub points_to_itself : String → List Reloc → Bool
points_to_itself name [] = false
points_to_itself name (loc ∷ locs) =
    str_eq (str_append loc.sym.name abi_internal_suffix) name || points_to_itself name locs

abbrev pub is_wrapper : Option FuncInfo → Bool
is_wrapper none = false
is_wrapper (some f) = f.func_id == func_id_wrapper

abbrev pub is_data_kind : SymKind → Bool
is_data_kind snoptrdata = true
is_data_kind srodata = true
is_data_kind sdata = true
is_data_kind sbss = true
is_data_kind snoptrbss = true
is_data_kind _ = false

-- Whether the loop adds a symbol for itself.
unfoldable pub is_added : String → LinkSymbol → Bool
is_added name o = elim (o.kind) [
  | stext ↦ if o.dup_ok then is_wrapper o.func && points_to_itself name o.relocs else true
  | kind ↦ is_data_kind kind
]

-- The loop over `symbolNames`; a symbol that is reachable but not there ends in a panic, by the
-- checks for its wrappers or by the nil pointer.
module _ (arch : Arch) (no_epilogues : Bool) (objs : StrMap LinkSymbol) (reachable : List String)
    (fuel : ℕ) where
  unfoldable pub add_one : String → LinkState → Run LinkState
  add_one name st =
      if has name st.sym_map || not (contains name reachable)
      then return st
      else elim (lookup name objs) [
        | none ↦ lift panic
        | some o ↦
            if is_added name o then add_symbol arch no_epilogues objs fuel name st else return st
      ]

  unfoldable pub add_all : List String → LinkState → Run LinkState
  add_all [] st = return st
  add_all (name ∷ names) st = add_one name st >>= λ st'. add_all names st'

-- The loop over `linker.symMap` at the end.
unfoldable pub shift_entry : Sections → String → SymEntry → SymEntry
shift_entry x name e =
    let (offset, relocs) = shift_symbol e.kind name x e.offset e.relocs in
    record e { offset = offset; relocs = relocs }

unfoldable pub shift_all : Sections → StrMap SymEntry → StrMap SymEntry
shift_all x [] = []
shift_all x ((name, e) ∷ m) = (name, shift_entry x name e) ∷ shift_all x m

-- addSymbols
unfoldable pub add_symbols :
    Arch → Bool → StrMap LinkSymbol → List String → ℕ → List String → LinkState → Run LinkState
add_symbols arch no_epilogues objs reachable fuel names st =
    add_all arch no_epilogues objs reachable fuel names (record st {
      sections = record st.sections { noptrdata = st.sections.noptrdata ++ zeros int_size };
    })
    >>= λ st'. return (record st' { sym_map = shift_all st'.sections st'.sym_map })

-- initLinker, the fields of the state.
abbrev pub init_state : LinkState
init_state = record {
  sections = record { code = []; data_bytes = []; noptrdata = []; bss = []; noptrbss = [] };
  sym_map = [];
  names = record { bytes = zeros ptr_size; offsets = [] };
  pctab = zeros ptr_size;
  funcs = [];
  heap_strings = [];
}
