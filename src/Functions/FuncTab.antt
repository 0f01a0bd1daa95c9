-- ===== src/Functions/FuncTab.antt =====
-- ld.go: `addFuncTab` and the function table of `buildModule`; functab.1.18.go and deferreturn.go.
pub mod Leads
use text.Mathlib.Text.{◌==◌ as str_eq}
use goloader.Shared.{
  ℕ, ◌+◌, ◌-◌, ◌%◌, ◌^◌, Bool, true, false, ◌&&◌, List, [], ◌∷◌, ◌++◌, map, Option, none, some,
  String, length, ltb, leb, ◌==◌, drop, take, if◌then◌else◌,
}
use goloader.Shared.Outcome.{Outcome, ok, panic, checked, ◌>>=◌}
use goloader.Shared.Word.{u32, sub64}
use goloader.Shared.Bytes.{le_bytes, zeros}
use goloader.Segment.{Reloc}
use goloader.Names.{StrMap, codes}
use goloader.Reloc.AsmBytes.{Arch, amd64, arm64}
use goloader.Functions.{Func, FuncRecord, c_string, set_func_entry}
use goloader.Linker.State.{SymEntry}
use goloader.FindFunc.{Bucket, build_findfunctab}

abbrev pub runtime_deferreturn : String
runtime_deferreturn = "runtime.deferreturn"

abbrev pub funcdata_open_coded_defer_info : ℕ
funcdata_open_coded_defer_info = 4

abbrev pub same_bytes : List ℕ → List ℕ → Bool
same_bytes [] [] = true
same_bytes (x ∷ xs) (y ∷ ys) = x == y && same_bytes xs ys
same_bytes _ _ = false

-- A map at a string that is given by its bytes.
unfoldable pub lookup_bytes {ℓ} : {V : Type ℓ} → List ℕ → StrMap V → Option V
lookup_bytes k [] = none
lookup_bytes k ((j, v) ∷ m) =
    let rest = lookup_bytes k m in if same_bytes (codes j) k then some v else rest

-- functab
pub record FtabEntry : Type 0 where
  pub entry : ℕ
  pub funcoff : ℕ

-- initfunctab
unfoldable pub init_functab : ℕ → ℕ → ℕ → FtabEntry
init_functab entry funcoff text = record { entry = u32 (sub64 entry text); funcoff = u32 funcoff }

-- The first call of `runtime.deferreturn`; on amd64 the operand follows an opcode of one byte.
unfoldable pub defer_offset : Arch → ℕ → List Reloc → Option ℕ
defer_offset arch at [] = none
defer_offset arch at (r ∷ rs) =
    let rest = defer_offset arch at rs in
    if str_eq r.sym.name runtime_deferreturn
    then some (elim arch [
      | amd64 ↦ (u32 r.offset + 2 ^ 32 - u32 at + 2 ^ 32 - 1) % 2 ^ 32
      | arm64 ↦ (u32 r.offset + 2 ^ 32 - u32 at) % 2 ^ 32
    ])
    else rest

-- addDeferReturn
unfoldable pub add_defer_return : Arch → SymEntry → FuncRecord → FuncRecord
add_defer_return arch sym f = elim (sym.func) [
  | none ↦ f
  | some func ↦
      if ltb funcdata_open_coded_defer_info (length func.funcdata)
      then elim (defer_offset arch sym.offset sym.relocs) [
        | none ↦ f
        | some d ↦ record f { deferreturn = d }
      ]
      else f
]

-- The memory of a `_func`, 44 bytes.
unfoldable pub encode_func : FuncRecord → List ℕ
encode_func f =
    le_bytes 4 f.entryoff
    ++ (le_bytes 4 f.nameoff
        ++ (le_bytes 4 f.args
            ++ (le_bytes 4 f.deferreturn
                ++ (le_bytes 4 f.pcsp
                    ++ (le_bytes 4 f.pcfile
                        ++ (le_bytes 4 f.pcln
                            ++ (le_bytes 4 f.npcdata
                                ++ (le_bytes 4 f.cu_offset
                                    ++ (le_bytes 4 f.start_line
                                        ++ (le_bytes 1 f.func_id
                                            ++ (le_bytes 1 f.flag
                                                ++ (zeros 1 ++ le_bytes 1 f.nfuncdata))))))))))))

abbrev pub words : List ℕ → List ℕ
words [] = []
words (v ∷ vs) = le_bytes 4 v ++ words vs

-- addfuncdata: an offset of 0 stands for no data, which the runtime marks by all ones.
unfoldable pub mark_missing : List ℕ → List ℕ
mark_missing [] = []
mark_missing (v ∷ vs) = (if v == 0 then 2 ^ 32 - 1 else v) ∷ mark_missing vs

-- The first `n` words of a table, none if `n` is 0. Behind the end the code reads other memory, which
-- stands as a panic here.
abbrev pub table_words : ℕ → List ℕ → Outcome (List ℕ)
table_words n table =
    if n == 0 then ok [] else checked (leb n (length table)) (words (take n table))

abbrev pub or_nil : Option Func → Func
or_nil none = record { pcdata = []; funcdata = [] }
or_nil (some f) = f

abbrev pub address_of : StrMap ℕ → List ℕ → ℕ
address_of addresses name = elim (lookup_bytes name addresses) [ none ↦ 0 | some a ↦ a ]

abbrev pub func_name_of : List ℕ → FuncRecord → List ℕ
func_name_of funcnametab f = c_string (drop f.nameoff funcnametab)

-- What `buildModule` has when it comes to the functions: the map of symbols, their addresses, the
-- start of the text, the table of names, and the writing of a function's stack objects, which is
-- in the module's memory.
module _ (arch : Arch) (sym_map : StrMap SymEntry) (addresses : StrMap ℕ) (text : ℕ)
    (funcnametab : List ℕ) (add_stack_object : List ℕ → Outcome ℕ) where
  -- addFuncTab: the record as it is in the end, and the table behind it.
  unfoldable pub add_func_tab : FuncRecord → List ℕ → Outcome (FuncRecord × List ℕ)
  add_func_tab f pclntable = elim (lookup_bytes (func_name_of funcnametab f) sym_map) [
    | none ↦ panic
    | some sym ↦ add_stack_object (func_name_of funcnametab f) >>= λ _.
        let f' =
          add_defer_return arch sym
            (set_func_entry f (address_of addresses (func_name_of funcnametab f)) text) in
        table_words f'.npcdata (or_nil sym.func).pcdata >>= λ pcdata.
        table_words f'.nfuncdata (mark_missing (or_nil sym.func).funcdata) >>= λ funcdata.
        ok (f', pclntable ++ (encode_func f' ++ (pcdata ++ funcdata)))
  ]

  -- The loop over the functions: their records, their entries of `ftab`, and the table.
  unfoldable pub add_funcs :
      List FuncRecord → List ℕ → Outcome (List FuncRecord × List FtabEntry × List ℕ)
  add_funcs [] pclntable = ok ([], [], pclntable)
  add_funcs (f ∷ fs) pclntable = do
    (f', table) ← add_func_tab f pclntable
    (fs', entries, table') ← add_funcs fs table
    ok (
      f' ∷ fs',
      init_functab (address_of addresses (func_name_of funcnametab f)) (length pclntable) text
          ∷ entries,
      table',
    )

-- A bucket in memory, 20 bytes.
abbrev pub encode_buckets : List Bucket → List ℕ
encode_buckets [] = []
encode_buckets (b ∷ bs) = le_bytes 4 b.idx ++ (b.subbuckets ++ encode_buckets bs)

-- The tables of the module: `pclntable` behind its header, `ftab`, and where the buckets start.
pub record FuncTables : Type 0 where
  pub funcs : List FuncRecord
  pub ftab : List FtabEntry
  pub buckets : List Bucket
  pub pclntable : List ℕ
  pub findfunctab : ℕ

abbrev pub entryoffs : List FuncRecord → List ℕ
entryoffs [] = []
entryoffs (f ∷ fs) = f.entryoff ∷ entryoffs fs

-- The part of buildModule for the functions: the text starts at `text` and has `size` bytes.
unfoldable pub build_tables :
    Arch
    → StrMap SymEntry
    → StrMap ℕ
    → ℕ
    → ℕ
    → List ℕ
    → (List ℕ → Outcome ℕ)
    → List ℕ
    → List FuncRecord
    → Outcome FuncTables
build_tables arch sym_map addresses text size funcnametab add_stack_object functab funcs = do
  (fs, entries, table) ←
      add_funcs arch sym_map addresses text funcnametab add_stack_object funcs functab
  buckets ← build_findfunctab size (entryoffs fs)
  ok (record {
    funcs = fs;
    ftab =
        init_functab text (length functab) text ∷ entries
        ++ init_functab (text + size) (length table) text ∷ [];
    buckets = buckets;
    pclntable = table ++ encode_buckets buckets;
    findfunctab = length table;
  })
