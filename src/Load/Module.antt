-- ===== src/Load/Module.antt =====
-- ld.go, `buildModule`: the ranges of the module that the runtime is told of.
use text.Mathlib.Text.{starts_with}
use goloader.Shared.{ℕ, ◌+◌, ◌≤◌, ◌≡◌, false, List, String, length, arith}
use goloader.Segment.{
  SymKind, Segment, sxxx, stext, srodata, snoptrdata, sdata, sbss, snoptrbss, stlsbss,
}
use goloader.Names.{type_string_prefix}
use goloader.Load.{Sections, segment_of, sum_data_len}
use goloader.Linker.Place.{section_shift}
use goloader.Linker.Sections.{IsData, section_of}

-- The fields of `moduledata` that buildModule sets from the segment.
pub record ModuleBounds : Type 0 where
  pub minpc : ℕ
  pub maxpc : ℕ
  pub data_start : ℕ
  pub edata : ℕ
  pub noptrdata : ℕ
  pub enoptrdata : ℕ
  pub bss : ℕ
  pub ebss : ℕ
  pub noptrbss : ℕ
  pub enoptrbss : ℕ
  pub types : ℕ
  pub etypes : ℕ

unfoldable pub module_bounds : Segment → ModuleBounds
module_bounds s =
    let edata = s.data_base + s.data_len in
    let enoptrdata = edata + s.noptrdata_len in
    let ebss = enoptrdata + s.bss_len in
    let enoptrbss = ebss + s.noptrbss_len in
    record {
      minpc = s.code_base;
      maxpc = s.code_base + s.code_off;
      data_start = s.data_base;
      edata = edata;
      noptrdata = edata;
      enoptrdata = enoptrdata;
      bss = enoptrdata;
      ebss = ebss;
      noptrbss = ebss;
      enoptrbss = enoptrbss;
      types = s.data_base;
      etypes = enoptrbss;
    }

-- The range of a kind of data.
abbrev pub range_of : SymKind → ModuleBounds → ℕ × ℕ
range_of sdata b = (b.data_start, b.edata)
range_of snoptrdata b = (b.noptrdata, b.enoptrdata)
range_of srodata b = (b.noptrdata, b.enoptrdata)
range_of sbss b = (b.bss, b.ebss)
range_of snoptrbss b = (b.noptrbss, b.enoptrbss)
range_of _ b = (0, 0)

module _ (x : Sections) (code_base data_base : ℕ) (code m : List ℕ) (off : ℕ) where
  abbrev bounds : ModuleBounds
  bounds = module_bounds (segment_of x code_base code data_base m off)

  -- A data symbol other than a string constant that lies in its section: where the loader puts it,
  -- it lies in the module's range of its kind, which lies in the range of the types; and the types
  -- end where the data that the loader fills ends.
  pub module_bounds-range_of :
      (kind : SymKind) (name : String) (offset n : ℕ)
      → IsData kind
      → starts_with name type_string_prefix ≡ false
      → offset + n ≤ length (section_of kind x)
      → ((range_of kind bounds).0 ≤ data_base + (offset + section_shift kind name x))
        × (data_base + (offset + section_shift kind name x) + n ≤ (range_of kind bounds).1)
        × (bounds.types ≤ (range_of kind bounds).0)
        × ((range_of kind bounds).1 ≤ bounds.etypes)
        × (bounds.etypes ≡ bounds.types + sum_data_len x)
  unfolding module_bounds section_shift
  module_bounds-range_of sdata name offset n d s h =
      (omega arith, omega arith, omega arith, omega arith, omega arith)
  module_bounds-range_of snoptrdata name offset n d s h =
      rw s (omega arith, omega arith, omega arith, omega arith, omega arith)
  module_bounds-range_of srodata name offset n d s h =
      rw s (omega arith, omega arith, omega arith, omega arith, omega arith)
  module_bounds-range_of sbss name offset n d s h =
      (omega arith, omega arith, omega arith, omega arith, omega arith)
  module_bounds-range_of snoptrbss name offset n d s h =
      (omega arith, omega arith, omega arith, omega arith, omega arith)
  module_bounds-range_of stext name offset n d s h = elim d [ ]
  module_bounds-range_of sxxx name offset n d s h = elim d [ ]
  module_bounds-range_of stlsbss name offset n d s h = elim d [ ]
