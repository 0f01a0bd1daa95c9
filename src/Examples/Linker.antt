-- ===== src/Examples/Linker.antt =====
-- A function with two calls, and the mappings of a small process.
use goloader.Shared.{
  ℕ, ◌+◌, ◌-◌, ◌%◌, ◌^◌, ◌≤◌, ◌≡◌, ◌↔◌, ◌⊎◌, inr, refl, true, false, List, [], ◌∷◌, ◌++◌, length,
  replicate, arith,
}
use goloader.Shared.Word.{sub64}
use goloader.Shared.Outcome.{ok, err, no_free_range}
use goloader.Segment.{Reloc, RelocType, stext, r_call, r_pcrel}
use goloader.Reloc.AsmBytes.{amd64}
use goloader.Reloc.X86.{fits_short}
use goloader.Reloc.X86.CallCode.{HasRoom}
use goloader.Linker.Reserve.{add_text}
use goloader.Linker.Room.{with_epilogue, call_reserve-HasRoom}
use goloader.Linker.Layout.{AllInside, InOrder, add_text-InOrder}
use goloader.Mmap.{Mapping, Gap, find_next_free_addresses_after_target, attempts}
use goloader.Mmap.Free.{AreMappings}
use goloader.Mmap.Search.{Each, TriesFree, find_next-TriesFree, attempts_endless}

abbrev reloc_at : RelocType → ℕ → Reloc
reloc_at kind offset = record {
  offset = offset;
  sym = record { name = "fmt.Println"; kind = stext; offset = 0; pkg = "fmt" };
  size = 4;
  kind = kind;
  add = 0;
  epilogue_offset = 0;
  epilogue_size = 0;
}

-- A CALL at the start of a long function.
call_reserve-HasRoom_example :
    HasRoom (with_epilogue (reloc_at r_call 5) 400)
    ↔ ((17 ≤ 5) ⊎ (fits_short (sub64 (5 + 4) (400 + 6 + 2)) ≡ true))
call_reserve-HasRoom_example = call_reserve-HasRoom (reloc_at r_call 5) 400 refl refl (omega arith)

abbrev two_relocs : List Reloc
two_relocs = reloc_at r_call 1 ∷ (reloc_at r_pcrel 8 ∷ [])

two_relocs-AllInside : AllInside (replicate 16 0x90) two_relocs
two_relocs-AllInside = (
  λ e. (omega arith, omega arith, omega arith),
  refl,
  (λ e. (omega arith, omega arith, omega arith), refl, tt),
)

add_text-InOrder_example :
    (relocs' : List Reloc) × (rest : List ℕ) × (add_text amd64 false
        (replicate 16 0x90)
        two_relocs
        (replicate 8 0)
      ≡ ok (8, relocs', (replicate 8 0 ++ replicate 16 0x90) ++ rest))
    × (length ((replicate 8 0 ++ replicate 16 0x90) ++ rest) % 8 ≡ 0)
    × InOrder 16 relocs' (length ((replicate 8 0 ++ replicate 16 0x90) ++ rest) - 8)
add_text-InOrder_example =
    add_text-InOrder false (replicate 16 0x90) two_relocs (replicate 8 0) two_relocs-AllInside

abbrev low_mapping : Mapping
low_mapping = record { start_addr = 0x400000; end_addr = 0x600000 }

abbrev high_mapping : Mapping
high_mapping = record { start_addr = 0x7F0000000000; end_addr = 0x7F0000010000 }

both-AreMappings : AreMappings (high_mapping ∷ (low_mapping ∷ []))
both-AreMappings =
    (omega arith, omega arith, (inr (omega arith), tt), (omega arith, omega arith, tt, tt))

find_next-TriesFree_example :
    (find_next_free_addresses_after_target 0x400000 0x10000 (high_mapping ∷ (low_mapping ∷ []))
      ≡ err no_free_range)
    ⊎ ((gaps : List Gap) × (find_next_free_addresses_after_target 0x400000 0x10000
            (high_mapping ∷ (low_mapping ∷ []))
          ≡ ok gaps)
        × Each
            (TriesFree 0x400000 0x10000 (omega arith) 5 (high_mapping ∷ (low_mapping ∷ [])))
            gaps)
find_next-TriesFree_example =
    find_next-TriesFree 0x400000 0x10000 (omega arith) 5 high_mapping (low_mapping ∷ [])
      both-AreMappings

attempts_endless_example : length (attempts 7 0x10000 0xFFFFFFFFFF602000 (2 ^ 64 - 1)) ≡ 7
attempts_endless_example = attempts_endless 7 0xFFFFFFFFFF602000 0x10000 refl refl
