-- ===== src/Load.antt =====
-- ld.go: `Load` and `Unload`; module.go: `addModule` and `removeModule`; iface.1.10.go: `removeitabs`.
pub mod Layout
pub mod Rollback
pub mod Itabs
pub mod Module
use goloader.Shared.{
  ℕ, ◌-◌, ◌+◌, ◌≤◌, Bool, true, false, ◌&&◌, ◌||◌, List, [], ◌∷◌, ◌++◌, Option, none, some, length,
  leb, ltb, ◌==◌, if◌then◌else◌,
}
use goloader.Shared.Outcome.{Outcome, ok, err, panic, map_failed, unmap_failed, ◌>>=◌}
use goloader.Shared.Bytes.{copy_from}
use goloader.Segment.{Segment, page_size}
use goloader.Reloc.Arm64.{alignof}

-- What the linker hands over: the text and the four sections of the data.
pub record Sections : Type 0 where
  pub code : List ℕ
  pub data_bytes : List ℕ
  pub noptrdata : List ℕ
  pub bss : List ℕ
  pub noptrbss : List ℕ

abbrev pub sum_data_len : Sections → ℕ
sum_data_len x = length x.data_bytes + length x.noptrdata + length x.bss + length x.noptrbss

abbrev pub segment_of : Sections → ℕ → List ℕ → ℕ → List ℕ → ℕ → Segment
segment_of x code_base code data_base m off = record {
  code_byte = code;
  data_byte = m;
  code_base = code_base;
  data_base = data_base;
  sum_data_len = sum_data_len x;
  data_len = length x.data_bytes;
  noptrdata_len = length x.noptrdata;
  bss_len = length x.bss;
  noptrbss_len = length x.noptrbss;
  code_len = length x.code;
  max_code_length = alignof (length x.code) page_size;
  max_data_length = alignof (sum_data_len x) page_size;
  code_off = length x.code;
  data_off = off;
}

-- The segment over two fresh mappings, `code_mem` at `code_base` and `data_mem` at `data_base`. `copy`
-- stops at the end of the mapping, and slicing behind it panics.
unfoldable pub fill_segment : Sections → ℕ → List ℕ → ℕ → List ℕ → Outcome Segment
fill_segment x code_base code_mem data_base data_mem = do
  code ← copy_from code_mem 0 x.code
  m ← copy_from data_mem 0 x.data_bytes
  let off = length x.data_bytes
  m ← copy_from m off x.noptrdata
  let off = off + length x.noptrdata
  m ← copy_from m off x.bss
  let off = off + length x.bss
  m ← copy_from m off x.noptrbss
  let off = off + length x.noptrbss
  ok (segment_of x code_base code data_base m off)

-- What the running program knows: the mappings that are held, by address, and the modules in the
-- runtime's list behind its own, by name.
pub record World : Type 0 where
  pub mapped : List ℕ
  pub modules : List ℕ

unfoldable pub remove_first : ℕ → List ℕ → List ℕ
remove_first x [] = []
remove_first x (y ∷ ys) = let rest = remove_first x ys in if y == x then ys else y ∷ rest

-- addModule: at the end of the list
unfoldable pub add_module : ℕ → World → World
add_module cm w = record w { modules = w.modules ++ cm ∷ [] }

-- removeModule: the runtime's own module, with which the list starts, is never taken out.
unfoldable pub remove_module : ℕ → World → World
remove_module cm w = record w { modules = remove_first cm w.modules }

-- The system: the two mappings that it gives, if it does, and whether it takes one back.
pub record System : Type 0 where
  pub code_map : Option (ℕ × List ℕ)
  pub data_map : Option (ℕ × List ℕ)
  pub unmaps : ℕ → Bool

-- The stages between the mappings and the running module; `prepare` is addSymbolMap, relocate and
-- what buildModule does before addModule, `finish` is what follows it: the deduplication of types
-- and the initialisers.
pub record Stages : Type 0 where
  pub add_symbol_map : Segment → Outcome Segment
  pub relocate : Segment → Outcome Segment
  pub build_module : Segment → Outcome Segment
  pub deduplicate : Segment → Outcome Segment
  pub do_initialize : Segment → Outcome Segment

abbrev pub prepare : Stages → Segment → Outcome Segment
prepare stages s = stages.add_symbol_map s >>= λ s. stages.relocate s >>= λ s. stages.build_module s

abbrev pub finish : Stages → Segment → Outcome Segment
finish stages s = stages.deduplicate s >>= λ s. stages.do_initialize s

-- Munmap
abbrev pub munmap : System → ℕ → World → World
munmap sys base w = if sys.unmaps base then record w { mapped = remove_first base w.mapped } else w

-- The error path at the end of Load: both mappings are given back, and an error of that replaces
-- the linker's.
abbrev pub release {ℓ} : {A : Type ℓ} → System → ℕ → ℕ → Outcome A → World → Outcome A × World
release sys code_base data_base e w =
    let w' = munmap sys data_base (munmap sys code_base w) in
    if sys.unmaps code_base && sys.unmaps data_base then (e, w') else (err unmap_failed, w')

abbrev pub finish_load :
    System → Stages → ℕ → ℕ → ℕ → Outcome Segment → World → Outcome Segment × World
finish_load sys stages cm code_base data_base (err e) w = release sys code_base data_base (err e) w
finish_load sys stages cm code_base data_base panic w = (panic, w)
finish_load sys stages cm code_base data_base (ok s) w =
    let w' = add_module cm w in
    elim (finish stages s) [
      | ok s ↦ (ok s, w')
      | err e ↦ release sys code_base data_base (err e) w'
      | panic ↦ (panic, w')
    ]

-- Load of the linker's sections as the module `cm`.
unfoldable pub load_module : System → Stages → ℕ → Sections → World → Outcome Segment × World
load_module sys stages cm x w = elim (sys.code_map) [
  | none ↦ (err map_failed, w)
  | some (code_base, code_mem) ↦
      let w = record w { mapped = code_base ∷ w.mapped } in
      elim (sys.data_map) [
        | none ↦ (err map_failed, w)
        | some (data_base, data_mem) ↦
            let w = record w { mapped = data_base ∷ w.mapped } in
            finish_load sys stages cm code_base data_base
              (fill_segment x code_base code_mem data_base data_mem >>= prepare stages) w
      ]
]

-- Unload; `reverted` is the outcome of revertPatchedTypeMethods.
unfoldable pub unload_module : System → ℕ → Segment → Outcome ℕ → World → Outcome ℕ × World
unload_module sys cm s (err e) w = (err e, w)
unload_module sys cm s panic w = (panic, w)
unload_module sys cm s (ok n) w =
    let w = munmap sys s.data_base (munmap sys s.code_base (remove_module cm w)) in
    if sys.unmaps s.code_base && sys.unmaps s.data_base then (ok n, w) else (err unmap_failed, w)

-- An itab: its own address, and those of its interface and its type.
pub record Itab : Type 0 where
  pub address : ℕ
  pub inter : ℕ
  pub type_address : ℕ

-- The runtime's table of itabs: its entries, some of them empty, and the number of the others.
pub record ItabTable : Type 0 where
  pub entries : List (Option Itab)
  pub count : ℕ

abbrev pub in_types : ℕ → ℕ → ℕ → Bool
in_types types etypes a = leb types a && leb a etypes

abbrev pub is_of_module : ℕ → ℕ → Itab → Bool
is_of_module types etypes m =
    in_types types etypes m.inter
    || in_types types etypes m.type_address
    || in_types types etypes m.address

unfoldable pub remove_itabs_loop : ℕ → ℕ → List (Option Itab) → ℕ → List (Option Itab) × ℕ
remove_itabs_loop types etypes [] count = ([], count)
remove_itabs_loop types etypes (none ∷ es) count =
    let (es', n) = remove_itabs_loop types etypes es count in (none ∷ es', n)
remove_itabs_loop types etypes (some m ∷ es) count =
    let gone = is_of_module types etypes m in
    let (es', n) = remove_itabs_loop types etypes es (if gone then count - 1 else count) in
    ((if gone then none else some m) ∷ es', n)

-- removeitabs
unfoldable pub remove_itabs : ℕ → ℕ → ItabTable → ItabTable
remove_itabs types etypes t =
    let (es, n) = remove_itabs_loop types etypes t.entries t.count in
    record { entries = es; count = n }
