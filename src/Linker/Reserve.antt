-- ===== src/Linker/Reserve.antt =====
-- ld.go, `addSymbol`: the bytes behind a function that are reserved for the epilogues of its
-- relocations.
use text.Mathlib.Text.{starts_with}
use goloader.Shared.{
  ℕ, ◌+◌, ◌-◌, ◌%◌, Bool, ◌&&◌, not, List, [], ◌∷◌, ◌++◌, length, ltb, leb, ◌==◌, if◌then◌else◌,
}
use goloader.Shared.Word.{sub64}
use goloader.Shared.Outcome.{Outcome, ok, checked, ◌>>=◌}
use goloader.Shared.Bytes.{byte_at, zeros}
use goloader.Segment.{
  Reloc, RelocType, r_addrarm64, r_call, r_callarm64, weak_callarm64, weak_call, r_pcrel,
  r_gotpcrel, r_tls_ie, r_arm64_gotpcrel, r_arm64_tls_ie, r_arm64_pcrel_ldst8, r_arm64_pcrel_ldst16,
  r_arm64_pcrel_ldst32, r_arm64_pcrel_ldst64, ptr_size,
}
use goloader.Names.{type_string_prefix}
use goloader.Reloc.MaxExtra
use goloader.Reloc.AsmBytes.{
  Arch, create_arch_nops, x86_mov_code, x86_lea_code, x86_cmpl_code, x86_call_code, x86_call2_code,
  x86_jmp_code,
}
use goloader.Reloc.Arm64.{alignof}
use goloader.Reloc.X86.{fits_short}

-- bytearrayAlign and bytearrayAlignNops
unfoldable pub bytearray_align : List ℕ → ℕ → List ℕ
bytearray_align b align = if length b % align == 0 then b else b ++ zeros (align - length b % align)

unfoldable pub bytearray_align_nops : Arch → List ℕ → ℕ → Outcome (List ℕ)
bytearray_align_nops arch b align =
    if length b % align == 0
    then ok b
    else (create_arch_nops arch (align - length b % align) >>= λ nops. ok (b ++ nops))

-- `returnOffset < 0 && returnOffset > -0x80`, where the jump back starts after `size` bytes.
abbrev pub returns_short : Reloc → ℕ → ℕ → Bool
returns_short loc epilogue_offset size =
    fits_short (sub64 (loc.offset + loc.size) (epilogue_offset + size + 2))

-- The first guess at a PCREL's epilogue: the opcode that decides, and the size. A byte that the
-- switch does not know reserves nothing.
unfoldable pub pcrel_class : ℕ → ℕ → ℕ × ℕ
pcrel_class first second =
    let by_second =
      (if second == x86_call_code
        then (x86_call_code, MaxExtra.call_near)
        else if second == x86_jmp_code
        then (first, MaxExtra.pcrel_jmp)
        else (first, 0)) in
    if first == x86_lea_code
    then (first, MaxExtra.pcrel_leaq)
    else if first == x86_mov_code
    then (first, MaxExtra.pcrel_mov_near)
    else if first == x86_cmpl_code
    then (first, MaxExtra.pcrel_cmpl_near)
    else if first == x86_jmp_code
    then (first, MaxExtra.pcrel_jmp)
    else if first == x86_call2_code && second == 0x15
    then (first, MaxExtra.pcrel_call2)
    else by_second

-- The second guess, where the jump back is short.
unfoldable pub pcrel_size : Reloc → ℕ → ℕ → ℕ → ℕ
pcrel_size loc epilogue_offset opcode size =
    if returns_short loc epilogue_offset size
    then (if opcode == x86_mov_code
        then MaxExtra.pcrel_mov_short
        else if opcode == x86_cmpl_code
        then MaxExtra.pcrel_cmpl_short
        else if opcode == x86_call_code
        then MaxExtra.call_short
        else size)
    else size

-- `objsym.Data[offset-2 : reloc.Offset+reloc.Size]`, with the offset 1 taken as 2; the slice's
-- capacity is its length. Its two bytes are read here together.
unfoldable pub pcrel_reserve : List ℕ → Reloc → ℕ → Outcome ℕ
pcrel_reserve text loc epilogue_offset =
    let at = (if loc.offset == 1 then 0 else loc.offset - 2) in
    checked
      (not (loc.offset == 0)
        && leb at (loc.offset + loc.size)
        && leb (loc.offset + loc.size) (length text))
      at
    >>= λ at. checked (ltb 1 (loc.offset + loc.size - at)) at >>= λ at.
        let (opcode, size) = pcrel_class (byte_at text at) (byte_at text (at + 1)) in
        ok (pcrel_size loc epilogue_offset opcode size)

-- The epilogue of a CALL: the code reads `EpilogueOffset` before it sets it.
unfoldable pub call_reserve : Reloc → ℕ
call_reserve loc =
    if returns_short loc loc.epilogue_offset MaxExtra.call_near
    then MaxExtra.call_short
    else MaxExtra.call_near

-- What a relocation reserves: the padding before its epilogue (ARM64 aligns some), and the size.
-- `at` is the end of the function's text so far; `none` of them leaves the relocation as it is.
pub data Reservation : Type 0 where
  nothing : Reservation
  epilogue : ℕ → ℕ → Reservation

unfoldable pub reservation : RelocType → List ℕ → Reloc → ℕ → Outcome Reservation
reservation r_addrarm64 text loc at = ok (epilogue 0 MaxExtra.adrp)
reservation r_arm64_pcrel_ldst8 text loc at = ok (epilogue 0 MaxExtra.adrp_ldst)
reservation r_arm64_pcrel_ldst16 text loc at = ok (epilogue 0 MaxExtra.adrp_ldst)
reservation r_arm64_pcrel_ldst32 text loc at = ok (epilogue 0 MaxExtra.adrp_ldst)
reservation r_arm64_pcrel_ldst64 text loc at = ok (epilogue 0 MaxExtra.adrp_ldst)
reservation r_callarm64 text loc at = ok (epilogue (alignof at ptr_size - at) MaxExtra.callarm64)
reservation weak_callarm64 text loc at = ok (epilogue (alignof at ptr_size - at) MaxExtra.callarm64)
reservation r_pcrel text loc at = pcrel_reserve text loc at >>= λ size. ok (epilogue 0 size)
reservation r_gotpcrel text loc at = ok (epilogue 0 MaxExtra.gotpcrel)
reservation r_tls_ie text loc at = ok (epilogue 0 MaxExtra.gotpcrel)
reservation r_arm64_gotpcrel text loc at =
    ok (epilogue (alignof at ptr_size - at) MaxExtra.gotpcrel)
reservation r_arm64_tls_ie text loc at = ok (epilogue (alignof at ptr_size - at) MaxExtra.gotpcrel)
reservation r_call text loc at = ok (epilogue 0 (call_reserve loc))
reservation weak_call text loc at = ok (epilogue 0 (call_reserve loc))
reservation _ text loc at = ok nothing

abbrev pub place_epilogue : Arch → Reservation → Reloc → ℕ → List ℕ → Outcome (Reloc × List ℕ)
place_epilogue arch nothing loc at code = ok (loc, code)
place_epilogue arch (epilogue pad size) loc at code = create_arch_nops arch (size + pad) >>= λ nops.
    ok (record loc { epilogue_offset = at + pad; epilogue_size = size }, code ++ nops)

-- One round of the loop over `objsym.Reloc`; `base` is `symbol.Offset`. Under NoRelocationEpilogues
-- only the string constants' relocations go on.
unfoldable pub reserve_one : Arch → Bool → List ℕ → ℕ → Reloc → List ℕ → Outcome (Reloc × List ℕ)
reserve_one arch no_epilogues text base loc code =
    if no_epilogues && not (starts_with loc.sym.name type_string_prefix)
    then ok (loc, code)
    else (do
      r ← reservation loc.kind text loc (length code - base)
      (loc', code) ← place_epilogue arch r loc (length code - base) code
      code ← bytearray_align_nops arch code ptr_size
      ok (loc', code))

unfoldable pub reserve_loop :
    Arch → Bool → List ℕ → ℕ → List Reloc → List ℕ → Outcome (List Reloc × List ℕ)
reserve_loop arch no_epilogues text base [] code = ok ([], code)
reserve_loop arch no_epilogues text base (loc ∷ locs) code = do
  (loc', code) ← reserve_one arch no_epilogues text base loc code
  (locs', code) ← reserve_loop arch no_epilogues text base locs code
  ok (loc' ∷ locs', code)

-- The STEXT case: the text goes to the end of the code, and the epilogues behind it.
unfoldable pub add_text :
    Arch → Bool → List ℕ → List Reloc → List ℕ → Outcome (ℕ × List Reloc × List ℕ)
add_text arch no_epilogues text relocs code = do
  let base = length code
  code ← bytearray_align_nops arch (code ++ text) ptr_size
  (relocs', code) ← reserve_loop arch no_epilogues text base relocs code
  ok (base, relocs', code)
