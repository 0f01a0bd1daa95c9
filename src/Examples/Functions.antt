-- ===== src/Examples/Functions.antt =====
-- A function with a table of 200 bytes and a call at 5, whose epilogue of 16 bytes follows.
use goloader.Shared.{
  ℕ, suc, ◌≤◌, ◌<◌, ◌≡◌, refl, inl, inr, List, [], ◌∷◌, ◌++◌, map, some, length, drop, arith, ◌^◌,
}
use goloader.Shared.Outcome.{Outcome, ok}
use goloader.Shared.Bytes.{zeros}
use goloader.Segment.{Reloc, stext, r_call}
use goloader.Names.{StrMap, lookup, codes}
use goloader.Reloc.AsmBytes.{amd64}
use goloader.PcTable.Points.{encode}
use goloader.Functions.{
  FuncInfo, FuncRecord, InlTreeNode, c_string, name_offset, add_names, append_tables, get_func_name,
  patch_tables,
}
use goloader.Functions.NameTab.{IsNamed, get_func_name-append_tables}
use goloader.Functions.Tables.{Follows}
use goloader.Functions.AllTables.{AllFollow, patch_tables-Follows}
use goloader.Functions.FuncTab.{FuncTables, FtabEntry, build_tables, entryoffs, lookup_bytes}
use goloader.Functions.FuncTab.Leads.{AllReady, LeadsTo, starts, build_tables-LeadsTo}
use goloader.FindFunc.{find_index}
use goloader.FindFunc.Refines.{Ascending, func_start}
use goloader.Linker.State.{SymEntry}
use goloader.Linker.AddSymbols.{init_state}

abbrev call_loc : Reloc
call_loc = record {
  offset = 5;
  sym = record { name = "main.g"; kind = stext; offset = 0; pkg = "main" };
  size = 4;
  kind = r_call;
  add = 0;
  epilogue_offset = 200;
  epilogue_size = 16;
}

abbrev table : List ℕ
table = encode ((2, 10) ∷ ((32, 190) ∷ [])) (0 ∷ [])

abbrev main_f : FuncInfo
main_f = record {
  args = 8;
  start_line = 3;
  func_id = 0;
  func_flag = 0;
  pcsp = table;
  pcfile = [];
  pcline = [];
  pcinline = [];
  pcdata = table ∷ [];
  func_data = [];
  inl_tree = [];
  cu_offset = 0;
}

patch_tables-Follows_example :
    (sp : List ℕ) × (file : List ℕ) × (line : List ℕ) × (tables : List (List ℕ)) × (patch_tables
        amd64
        (call_loc ∷ [])
        main_f
      ≡ ok (record main_f { pcsp = sp; pcfile = file; pcline = line; pcdata = tables }))
    × Follows 1 200 (call_loc ∷ []) table sp
    × Follows 1 200 (call_loc ∷ []) [] file
    × Follows 1 200 (call_loc ∷ []) [] line
    × AllFollow 1 200 (call_loc ∷ []) (table ∷ []) tables
patch_tables-Follows_example =
    patch_tables-Follows amd64 200 (call_loc ∷ []) main_f (omega arith)
      (inr (
        (2, 10) ∷ ((32, 190) ∷ []),
        refl,
        (
          omega arith,
          omega arith,
          omega arith,
          inl refl,
          (omega arith, omega arith, omega arith, inr (omega arith), tt),
        ),
        omega arith,
        refl,
      ))
      (inl refl) (inl refl)
      (
        inr (
          (2, 10) ∷ ((32, 190) ∷ []),
          refl,
          (
            omega arith,
            omega arith,
            omega arith,
            inl refl,
            (omega arith, omega arith, omega arith, inr (omega arith), tt),
          ),
          omega arith,
          refl,
        ),
        tt,
      )
      ((λ h. (omega arith, omega arith, omega arith, omega arith)), tt)

init_names-IsNamed : IsNamed init_state.names
unfolding lookup
init_names-IsNamed = record {
  padded = omega arith;
  holds = λ name o e. absurd (cc);
  positive = λ name o e. absurd (cc);
}

abbrev inlined : List InlTreeNode
inlined = record { line = 7; func = "main.h"; parent_pc = 12 } ∷ []

small_names : length (add_names inlined (name_offset "main.f" init_state.names).1).bytes < 2 ^ 31
unfolding add_names name_offset lookup
small_names = omega arith

get_func_name-append_tables_example :
    get_func_name
      (append_tables main_f (name_offset "main.f" init_state.names).0 []).0
      (add_names inlined (name_offset "main.f" init_state.names).1).bytes
    ≡ codes "main.f"
get_func_name-append_tables_example =
    get_func_name-append_tables main_f "main.f" inlined [] init_state.names init_names-IsNamed
      (refl, (refl, (refl, (refl, (refl, (refl, tt)))))) small_names

-- One function of 216 bytes in a text at 4096.
abbrev names_bytes : List ℕ
names_bytes = zeros 8 ++ (codes "main.f" ++ 0 ∷ [])

abbrev fn : FuncRecord
fn = record {
  entryoff = 0;
  nameoff = 8;
  args = 8;
  deferreturn = 0;
  pcsp = 8;
  pcfile = 20;
  pcln = 20;
  npcdata = 1;
  cu_offset = 0;
  start_line = 3;
  func_id = 0;
  flag = 0;
  nfuncdata = 1;
}

abbrev entry : SymEntry
entry = record {
  kind = stext;
  offset = 0;
  size = 216;
  pkg = "main";
  relocs = [];
  func = some (record { pcdata = 24 ∷ []; funcdata = 0 ∷ [] });
}

abbrev symbols : StrMap SymEntry
symbols = ("main.f", entry) ∷ []

abbrev addresses : StrMap ℕ
addresses = ("main.f", 4096) ∷ []

abbrev no_stack_objects : List ℕ → Outcome ℕ
no_stack_objects name = ok 0

fn-AllReady : AllReady amd64 symbols addresses 4096 names_bytes no_stack_objects (fn ∷ [])
unfolding lookup_bytes c_string
fn-AllReady = ((entry, 0, refl, refl, omega arith, omega arith), tt)

fn-Ascending :
    Ascending 216 (starts amd64 symbols addresses 4096 names_bytes no_stack_objects (fn ∷ []))
unfolding lookup_bytes c_string
fn-Ascending = (omega arith, tt)

build_tables-LeadsTo_example :
    (t : FuncTables) × (build_tables amd64 symbols addresses 4096 216 names_bytes no_stack_objects
        (zeros 16)
        (fn ∷ [])
      ≡ ok t)
    × (entryoffs t.funcs
        ≡ starts amd64 symbols addresses 4096 names_bytes no_stack_objects (fn ∷ []))
    × ((j pc : ℕ)
        → j < length (fn ∷ [])
        → func_start 216
            (starts amd64 symbols addresses 4096 names_bytes no_stack_objects (fn ∷ []))
            j
          ≤ pc
        → pc
          < func_start 216
              (starts amd64 symbols addresses 4096 names_bytes no_stack_objects (fn ∷ []))
              (suc j)
        → (find_index t.buckets (map (λ (e : FtabEntry). e.entry) t.ftab) pc ≡ some (suc j))
          × LeadsTo amd64 symbols addresses 4096 names_bytes no_stack_objects t.pclntable t.funcs
              (drop 1 t.ftab)
              j)
build_tables-LeadsTo_example =
    build_tables-LeadsTo amd64 symbols addresses 4096 names_bytes no_stack_objects 216 (zeros 16) fn
      [] (omega arith) (omega arith) fn-AllReady fn-Ascending
