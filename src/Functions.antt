-- ===== src/Functions.antt =====
-- The tables that describe functions to the runtime: func.1.20.go, functab.1.18.go, inlinetree.go,
-- deferreturn.go, obj/inlinedcall.1.20.go, and `readFuncData` and `addFuncTab` in ld.go.
pub mod NameTab
pub mod Tables
pub mod AllTables
pub mod InlineTree
pub mod FuncTab
use goloader.Shared.{
  ℕ, ◌+◌, ◌*◌, List, [], ◌∷◌, ◌++◌, map, none, some, String, length, ltb, ◌==◌, drop, if◌then◌else◌,
}
use goloader.Shared.Outcome.{Outcome, ok, ◌>>=◌}
use goloader.Shared.Word.{u32, u8, add64, sub64}
use goloader.Segment.{Reloc}
use goloader.Names.{StrMap, lookup, insert, codes}
use goloader.Reloc.AsmBytes.{Arch}
use goloader.PcTable.{patch_pc_values}

-- obj.InlTreeNode, the fields that InitInlinedCall reads.
pub record InlTreeNode : Type 0 where
  pub line : ℕ
  pub func : String
  pub parent_pc : ℕ

-- obj.FuncInfo: what the object file says of a function.
pub record FuncInfo : Type 0 where
  pub args : ℕ
  pub start_line : ℕ
  pub func_id : ℕ
  pub func_flag : ℕ
  pub pcsp : List ℕ
  pub pcfile : List ℕ
  pub pcline : List ℕ
  pub pcinline : List ℕ
  pub pcdata : List (List ℕ)
  pub func_data : List String
  pub inl_tree : List InlTreeNode
  pub cu_offset : ℕ

-- obj.Func: where the linker put the tables of a function.
pub record Func : Type 0 where
  pub pcdata : List ℕ
  pub funcdata : List ℕ

-- `_func`: the record that the runtime reads. Signed fields are 32-bit patterns.
pub record FuncRecord : Type 0 where
  pub entryoff : ℕ
  pub nameoff : ℕ
  pub args : ℕ
  pub deferreturn : ℕ
  pub pcsp : ℕ
  pub pcfile : ℕ
  pub pcln : ℕ
  pub npcdata : ℕ
  pub cu_offset : ℕ
  pub start_line : ℕ
  pub func_id : ℕ
  pub flag : ℕ
  pub nfuncdata : ℕ

-- initfunc
unfoldable pub init_func : FuncInfo → ℕ → ℕ → ℕ → ℕ → ℕ → FuncRecord
init_func f name_off sp_off pcfile_off pcln_off cu_off = record {
  entryoff = 0;
  nameoff = u32 name_off;
  args = u32 f.args;
  deferreturn = 0;
  pcsp = u32 sp_off;
  pcfile = u32 pcfile_off;
  pcln = u32 pcln_off;
  npcdata = u32 (length f.pcdata);
  cu_offset = u32 cu_off;
  start_line = u32 f.start_line;
  func_id = f.func_id;
  flag = f.func_flag;
  nfuncdata = u8 (length f.func_data);
}

-- setfuncentry, getfuncentry
unfoldable pub set_func_entry : FuncRecord → ℕ → ℕ → FuncRecord
set_func_entry f entry text = record f { entryoff = u32 (sub64 entry text) }

unfoldable pub get_func_entry : FuncRecord → ℕ → ℕ
get_func_entry f text = add64 text f.entryoff

-- `funcnametab` with `namemap`: texts that end with a zero byte, and where each starts.
pub record NameTable : Type 0 where
  pub bytes : List ℕ
  pub offsets : StrMap ℕ

-- gostringnocopy(&tab[o])
unfoldable pub c_string : List ℕ → List ℕ
c_string [] = []
c_string (c ∷ cs) = let rest = c_string cs in if c == 0 then [] else c ∷ rest

-- getfuncname, by an `int32` test on the offset
unfoldable pub get_func_name : FuncRecord → List ℕ → List ℕ
get_func_name f tab =
    if ltb 0 f.nameoff
    then (if ltb f.nameoff (length tab) then c_string (drop f.nameoff tab) else [])
    else []

-- The offset of a name, which goes to the end of the table unless it is there.
unfoldable pub name_offset : String → NameTable → ℕ × NameTable
name_offset name t = elim (lookup name t.offsets) [
  | some o ↦ (o, t)
  | none ↦ (
    length t.bytes,
    record {
      bytes = t.bytes ++ (codes name ++ 0 ∷ []);
      offsets = insert name (length t.bytes) t.offsets;
    },
  )
]

-- The loop over the inline tree that adds its names.
unfoldable pub add_names : List InlTreeNode → NameTable → NameTable
add_names [] t = t
add_names (inl ∷ tree) t = add_names tree (name_offset inl.func t).1

-- `patchPCValuesForReloc` of a table that is not empty.
unfoldable pub patch_table : Arch → List ℕ → Reloc → Outcome (List ℕ)
patch_table arch p loc =
    if length p == 0
    then ok p
    else patch_pc_values arch p loc.offset loc.epilogue_offset loc.epilogue_size

unfoldable pub patch_pcdata : Arch → List (List ℕ) → Reloc → Outcome (List (List ℕ))
patch_pcdata arch [] loc = ok []
patch_pcdata arch (p ∷ ps) loc = do
  p' ← patch_table arch p loc
  ps' ← patch_pcdata arch ps loc
  ok (p' ∷ ps')

unfoldable pub patch_func : Arch → FuncInfo → Reloc → Outcome FuncInfo
patch_func arch f loc = do
  sp ← patch_table arch f.pcsp loc
  file ← patch_table arch f.pcfile loc
  line ← patch_table arch f.pcline loc
  tables ← patch_pcdata arch f.pcdata loc
  ok (record f { pcsp = sp; pcfile = file; pcline = line; pcdata = tables })

-- The loop of readFuncData over the relocations: those with an epilogue extend each table.
unfoldable pub patch_tables : Arch → List Reloc → FuncInfo → Outcome FuncInfo
patch_tables arch [] f = ok f
patch_tables arch (loc ∷ locs) f =
    (if ltb 0 loc.epilogue_offset then patch_func arch f loc else ok f) >>= λ f'.
    patch_tables arch locs f'

-- The loop that appends the tables of `PCData`; an empty one has the offset 0.
unfoldable pub append_pcdata : List (List ℕ) → List ℕ → List ℕ × List ℕ
append_pcdata [] pctab = ([], pctab)
append_pcdata (p ∷ ps) pctab =
    let (offs, pctab') = append_pcdata ps (pctab ++ p) in
    ((if length p == 0 then 0 else u32 (length pctab)) ∷ offs, pctab')

-- What readFuncData does between the names and `FuncData`: the function's record, the offsets of
-- its PCData, and `pctab`.
unfoldable pub append_tables : FuncInfo → ℕ → List ℕ → FuncRecord × List ℕ × List ℕ
append_tables f name_off pctab =
    let pcfile_off = length pctab + length f.pcsp in
    let pcln_off = pcfile_off + length f.pcfile in
    let (offs, pctab') = append_pcdata f.pcdata (pctab ++ (f.pcsp ++ (f.pcfile ++ f.pcline))) in
    (init_func f name_off (length pctab) pcfile_off pcln_off f.cu_offset, offs, pctab')
