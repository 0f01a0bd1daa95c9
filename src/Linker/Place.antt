-- ===== src/Linker/Place.antt =====
-- ld.go: `addSymbol` puts a symbol into the section of its kind, and `addSymbols` moves the offsets
-- of the data to where `Load` puts the sections.
use text.Mathlib.Text.{starts_with}
use goloader.Shared.{ℕ, ◌+◌, Bool, List, [], ◌∷◌, ◌++◌, String, length, ltb, ◌==◌, if◌then◌else◌}
use goloader.Shared.Outcome.{Outcome, ok, err, invalid_symbol, ◌>>=◌}
use goloader.Segment.{
  SymKind, Reloc, sxxx, stext, srodata, snoptrdata, sdata, sbss, snoptrbss, stlsbss, ptr_size,
}
use goloader.Names.{StrMap, insert, type_string_prefix}
use goloader.Reloc.AsmBytes.{Arch}
use goloader.Load.{Sections}
use goloader.Linker.Reserve.{bytearray_align, add_text}

-- The symbol's offset and relocations, and the linker's sections and string constants after it.
pub record Placed : Type 0 where
  pub offset : ℕ
  pub relocs : List Reloc
  pub sections : Sections
  pub heap_strings : StrMap (List ℕ)

abbrev append_aligned : List ℕ → List ℕ → List ℕ
append_aligned section bytes = bytearray_align (section ++ bytes) ptr_size

abbrev pub place_noptrdata : String → List ℕ → List Reloc → Sections → StrMap (List ℕ) → Placed
place_noptrdata name bytes relocs x strings =
    if starts_with name type_string_prefix
    then record {
      offset = 0;
      relocs = relocs;
      sections = x;
      heap_strings = insert name bytes strings;
    }
    else record {
      offset = length x.noptrdata;
      relocs = relocs;
      sections = record x { noptrdata = append_aligned x.noptrdata bytes };
      heap_strings = strings;
    }

-- The switch on `symbol.Kind`; the tables of a function (readFuncData) are not part of it.
unfoldable pub place_symbol :
    Arch
    → Bool
    → SymKind
    → String
    → List ℕ
    → List Reloc
    → Sections
    → StrMap (List ℕ)
    → Outcome Placed
place_symbol arch no_epilogues stext name bytes relocs x strings =
    add_text arch no_epilogues bytes relocs x.code >>= λ (base, relocs', code). ok (record {
      offset = base;
      relocs = relocs';
      sections = record x { code = code };
      heap_strings = strings;
    })
place_symbol arch no_epilogues sdata name bytes relocs x strings = ok (record {
  offset = length x.data_bytes;
  relocs = relocs;
  sections = record x { data_bytes = append_aligned x.data_bytes bytes };
  heap_strings = strings;
})
place_symbol arch no_epilogues snoptrdata name bytes relocs x strings =
    ok (place_noptrdata name bytes relocs x strings)
place_symbol arch no_epilogues srodata name bytes relocs x strings =
    ok (place_noptrdata name bytes relocs x strings)
place_symbol arch no_epilogues sbss name bytes relocs x strings = ok (record {
  offset = length x.bss;
  relocs = relocs;
  sections = record x { bss = append_aligned x.bss bytes };
  heap_strings = strings;
})
place_symbol arch no_epilogues snoptrbss name bytes relocs x strings = ok (record {
  offset = length x.noptrbss;
  relocs = relocs;
  sections = record x { noptrbss = append_aligned x.noptrbss bytes };
  heap_strings = strings;
})
place_symbol arch no_epilogues stlsbss name bytes relocs x strings =
    ok (record { offset = 0; relocs = relocs; sections = x; heap_strings = strings })
place_symbol arch no_epilogues sxxx name bytes relocs x strings = err invalid_symbol

-- How far addSymbols moves a symbol of each kind.
unfoldable pub section_shift : SymKind → String → Sections → ℕ
section_shift snoptrdata name x =
    if starts_with name type_string_prefix then 0 else length x.data_bytes
section_shift srodata name x =
    if starts_with name type_string_prefix then 0 else length x.data_bytes
section_shift sbss name x = length x.data_bytes + length x.noptrdata
section_shift snoptrbss name x = length x.data_bytes + length x.noptrdata + length x.bss
section_shift _ name x = 0

unfoldable pub shift_reloc : ℕ → Reloc → Reloc
shift_reloc d loc = record loc {
  offset = loc.offset + d;
  epilogue_offset =
      if ltb 0 loc.epilogue_offset then loc.epilogue_offset + d else loc.epilogue_offset;
}

unfoldable pub shift_relocs : ℕ → List Reloc → List Reloc
shift_relocs d [] = []
shift_relocs d (loc ∷ locs) = shift_reloc d loc ∷ shift_relocs d locs

-- The loop over `linker.symMap` at the end of addSymbols, for one symbol.
unfoldable pub shift_symbol : SymKind → String → Sections → ℕ → List Reloc → ℕ × List Reloc
shift_symbol kind name x offset relocs =
    let d = section_shift kind name x in
    (offset + d, if d == 0 then relocs else shift_relocs d relocs)
