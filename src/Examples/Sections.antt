-- ===== src/Examples/Sections.antt =====
-- A variable that is placed among others, and the data of a module.
use text.Mathlib.Text.{starts_with}
use goloader.Shared.{
  ℕ, ◌+◌, ◌%◌, ◌≤◌, ◌≡◌, refl, false, List, [], ◌∷◌, ◌++◌, String, length, replicate, arith,
}
use goloader.Shared.Outcome.{ok}
use goloader.Shared.Bytes.{slice}
use goloader.Segment.{SymKind, Segment, snoptrdata}
use goloader.Names.{type_string_prefix}
use goloader.Reloc.AsmBytes.{amd64}
use goloader.Load.{Sections, fill_segment}
use goloader.Linker.Place.{Placed, place_symbol, section_shift}
use goloader.Linker.Sections.{section_of, IsData, place_symbol-section_of, section_shift-slice}

abbrev sections : Sections
sections = record {
  code = 0xC3 ∷ [];
  data_bytes = replicate 8 1;
  noptrdata = replicate 16 2;
  bss = replicate 8 0;
  noptrbss = [];
}

place_symbol-section_of_example :
    (p : Placed) × (pad : List ℕ) × (place_symbol amd64 false snoptrdata "main.x"
        (7 ∷ (7 ∷ []))
        []
        sections
        []
      ≡ ok p)
    × (p.offset ≡ 16)
    × (section_of snoptrdata p.sections ≡ (replicate 16 2 ++ 7 ∷ (7 ∷ [])) ++ pad)
    × (length (section_of snoptrdata p.sections) % 8 ≡ 0)
    × (p.relocs ≡ [])
place_symbol-section_of_example =
    place_symbol-section_of amd64 false snoptrdata "main.x" (7 ∷ (7 ∷ [])) [] sections [] tt refl

section_shift-slice_example :
    (s : Segment) × (fill_segment sections 0x10000 (replicate 8 0) 0x20000 (replicate 40 0) ≡ ok s)
    × ((kind : SymKind) (name : String) (offset n : ℕ)
        → IsData kind
        → starts_with name type_string_prefix ≡ false
        → offset + n ≤ length (section_of kind sections)
        → slice s.data_byte (offset + section_shift kind name sections) n
          ≡ slice (section_of kind sections) offset n)
section_shift-slice_example =
    section_shift-slice sections 0x10000 (replicate 8 0) 0x20000 (replicate 40 0) (omega arith)
      (omega arith)
