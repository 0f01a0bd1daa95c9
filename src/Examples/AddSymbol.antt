-- ===== src/Examples/AddSymbol.antt =====
-- A program of a function, which calls itself and refers to a variable, and that variable.
use goloader.Shared.{
  ℕ, suc, ◌+◌, ◌≤◌, ◌<◌, ◌^◌, ◌≡◌, refl, true, false, List, [], ◌∷◌, ◌++◌, some, none, String,
  length, take, arith,
}
use goloader.Shared.Outcome.{ok}
use goloader.Shared.Run.{Ends}
use goloader.Shared.Bytes.{zeros}
use goloader.Segment.{Segment, Reloc, SymKind, stext, sdata, snoptrdata, r_call}
use goloader.Names.{StrMap, lookup, has, codes, tls_name, trim_prefix}
use goloader.Reloc.AsmBytes.{amd64}
use goloader.Load.{Sections, sum_data_len, fill_segment, segment_of}
use goloader.Load.Module.{module_bounds, range_of, module_bounds-range_of}
use goloader.Functions.{FuncInfo}
use goloader.Linker.Place.{section_shift}
use goloader.Linker.Fixup.{name_bytes}
use goloader.Linker.Import.{read_name, name_bytes-read_name}
use goloader.Linker.State.{LinkSymbol}
use goloader.Linker.AddSymbol.{add_symbol}
use goloader.Linker.AddSymbol.Measure.{absent, absent-le-length}
use goloader.Linker.AddSymbol.Sound.{Step}
use goloader.Linker.AddSymbol.Ends.{add_symbol-Added}
use goloader.Linker.AddSymbols.{
  FileTable, add_units, add_file, add_files, expand_goroot, add_symbols, init_state,
}
use goloader.Linker.AddSymbols.Files.{IsFiled, AllRead, NoZeros, all_files, add_units-AllRead}
use goloader.Linker.AddSymbols.Ends.{AllAdded, init_state-IsSound}
use goloader.Linker.AddSymbols.Loaded.{Loaded, add_symbols-Loaded}

abbrev loc_to : String → SymKind → ℕ → Reloc
loc_to name kind off = record {
  offset = off;
  sym = record { name = name; kind = kind; offset = 0; pkg = "main" };
  size = 4;
  kind = r_call;
  add = 0;
  epilogue_offset = 0;
  epilogue_size = 0;
}

abbrev main_info : FuncInfo
main_info = record {
  args = 0;
  start_line = 3;
  func_id = 0;
  func_flag = 0;
  pcsp = [];
  pcfile = [];
  pcline = [];
  pcinline = [];
  pcdata = [];
  func_data = [];
  inl_tree = [];
  cu_offset = 0;
}

abbrev objects : StrMap LinkSymbol
objects =
    (
      "main.f",
      record {
        kind = stext;
        dup_ok = false;
        size = 16;
        bytes = zeros 16;
        type_name = "";
        relocs = loc_to "main.f" stext 1 ∷ (loc_to "main.x" sdata 9 ∷ []);
        func = some main_info;
        pkg = "main";
      },
    )
    ∷ ((
      "main.x",
      record {
        kind = sdata;
        dup_ok = false;
        size = 8;
        bytes = 1 ∷ (2 ∷ (3 ∷ []));
        type_name = "type:int";
        relocs = [];
        func = none;
        pkg = "main";
      },
    )
        ∷ [])

no_tls_symbol : lookup tls_name objects ≡ none
unfolding lookup
no_tls_symbol = refl

two_absent : absent objects init_state.sym_map < 3
two_absent = omega (arith, absent-le-length objects init_state.sym_map)

add_symbol-Added_example :
    Ends
      (λ st'. (has "main.f" st'.sym_map ≡ true) × Step objects init_state st')
      (add_symbol amd64 false objects 3 "main.f" init_state)
add_symbol-Added_example =
    add_symbol-Added amd64 false objects 3 "main.f" init_state no_tls_symbol two_absent
      (init_state-IsSound objects)

abbrev reached : List String
reached = "main.f" ∷ ("main.x" ∷ [])

add_symbols-Loaded_example :
    Ends
      (λ st'.
        AllAdded objects reached reached st'.sym_map
        × ((code_base : ℕ) (code_mem : List ℕ) (data_base : ℕ) (data_mem : List ℕ)
            → length st'.sections.code ≤ length code_mem
            → sum_data_len st'.sections ≤ length data_mem
            → (s : Segment) × (fill_segment st'.sections code_base code_mem data_base data_mem
                ≡ ok s)
              × Loaded objects st'.sym_map s))
      (add_symbols amd64 false objects reached 3 reached init_state)
add_symbols-Loaded_example =
    add_symbols-Loaded amd64 false objects reached 3 reached init_state no_tls_symbol two_absent
      (init_state-IsSound objects)

-- Two units that share a file.
abbrev rooted : String → String
rooted s = s

abbrev units : List (List String)
units = ("gofile..a.go" ∷ ("gofile..b.go" ∷ [])) ∷ (("gofile..a.go" ∷ []) ∷ [])

abbrev no_files : FileTable
no_files = record { bytes = []; offsets = []; cutab = [] }

no_files-IsFiled : IsFiled rooted no_files
unfolding lookup
no_files-IsFiled name o e = absurd (cc)

units-NoZeros : NoZeros rooted (all_files units)
unfolding expand_goroot trim_prefix
units-NoZeros = (
  (refl, (refl, (refl, (refl, tt)))),
  ((refl, (refl, (refl, (refl, tt)))), ((refl, (refl, (refl, (refl, tt)))), tt)),
)

short_table : length (add_units rooted units no_files).bytes < 2 ^ 32
unfolding add_units add_files add_file lookup expand_goroot trim_prefix
short_table = omega arith

add_units-AllRead_example :
    (offs : List ℕ) × ((add_units rooted units no_files).cutab ≡ [] ++ offs)
    × AllRead rooted (add_units rooted units no_files).bytes offs (all_files units)
add_units-AllRead_example =
    add_units-AllRead rooted units no_files no_files-IsFiled units-NoZeros short_table

cutab_run : (add_units rooted units no_files).cutab ≡ 0 ∷ (5 ∷ (0 ∷ []))
unfolding add_units add_files add_file lookup expand_goroot trim_prefix
cutab_run = refl

-- The call's field and the variable, by the offsets of the map.
abbrev some_sections : Sections
some_sections = record {
  code = zeros 16;
  data_bytes = zeros 24;
  noptrdata = zeros 16;
  bss = zeros 8;
  noptrbss = [];
}

module_bounds-range_of_example :
    ((range_of snoptrdata (module_bounds (segment_of some_sections 4096 [] 8192 [] 0))).0
      ≤ 8192 + (8 + section_shift snoptrdata "main.y" some_sections))
    × (8192 + (8 + section_shift snoptrdata "main.y" some_sections) + 8
        ≤ (range_of snoptrdata (module_bounds (segment_of some_sections 4096 [] 8192 [] 0))).1)
    × ((module_bounds (segment_of some_sections 4096 [] 8192 [] 0)).types
        ≤ (range_of snoptrdata (module_bounds (segment_of some_sections 4096 [] 8192 [] 0))).0)
    × ((range_of snoptrdata (module_bounds (segment_of some_sections 4096 [] 8192 [] 0))).1
        ≤ (module_bounds (segment_of some_sections 4096 [] 8192 [] 0)).etypes)
    × ((module_bounds (segment_of some_sections 4096 [] 8192 [] 0)).etypes
        ≡ (module_bounds (segment_of some_sections 4096 [] 8192 [] 0)).types
          + sum_data_len some_sections)
module_bounds-range_of_example =
    module_bounds-range_of some_sections 4096 8192 [] [] 0 snoptrdata "main.y" 8 8 tt refl
      (omega arith)

-- A path of three bytes.
abbrev fmt_path : List ℕ
fmt_path = codes "fmt"

name_bytes-read_name_example :
    (b : List ℕ) × (name_bytes fmt_path ≡ ok b)
    × (128 ≤ suc 2 → read_name b ≡ some fmt_path)
    × (suc 2 < 128 → read_name b ≡ some (0 ∷ take 2 fmt_path))
name_bytes-read_name_example = name_bytes-read_name fmt_path 2 refl (omega arith)
