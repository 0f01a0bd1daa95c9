-- ===== src/Reloc/X86/Pcrel.antt =====
-- relocate.go: `relocatePCREL`, which rewrites an instruction whose operand is out of reach.
pub mod Again
pub mod CmplCode
pub mod Cmpl
use goloader.Shared.{
  ℕ, ◌+◌, ◌-◌, ◌*◌, ◌/◌, ◌^◌, Bool, true, false, ◌&&◌, List, [], ◌∷◌, ◌++◌, none, some, ltb, leb,
  ◌==◌, if◌then◌else◌, length, drop, bit_and, bit_or,
}
use goloader.Shared.Word.{add64, sub64, u32, u8}
use goloader.Shared.Outcome.{
  Outcome, ok, err, checked, epilogue_not_available, unexpected_src_register, unsupported_opcode,
  ◌>>=◌,
}
use goloader.Shared.Bytes.{
  write_at, zeros, byte_at, u32_at, get_byte, put_byte, put_uint32, put_uint64, copy_from,
  copy_within,
}
use goloader.Segment.{Segment, Reloc}
use goloader.Reloc.{on_code, on_reloc, reloc_byte, addr_base, Applied, applied_at}
use goloader.Reloc.AsmBytes.{
  create_x86_nops, x86_jmp_code, x86_jmp_short_code, x86_jmp_near_code, x86_mov_code, x86_lea_code,
  x86_cmpl_code, x86_call_code, x86_call2_code, x86_nop_code, x86_replace_cmpl_code,
  x86_replace_movq_code, x86_replace_movq_code_rax, x86_jmpl_code,
}
use goloader.Reloc.X86.{
  put_byte_before, fits_short, far_call, displacement, epilogue_distance, needs_epilogue, quoted,
}

-- Saves the bytes from two before the field on at the first application, and puts them back at
-- every later one. The key of `appliedPCRelRelocs` is the address of the field.
unfoldable pub pcrel_restore : Bool → Reloc → Segment → Applied → Outcome (Segment × Applied)
pcrel_restore text loc s m =
    let b = reloc_byte text s in
    let key = addr_base text s + loc.offset in
    checked (ltb loc.offset (length b) && leb 2 loc.offset) b >>= λ b. elim (applied_at key m) [
      | none ↦ ok (s, (key, write_at (zeros (loc.size + 2)) 0 (drop (loc.offset - 2) b)) ∷ m)
      | some old ↦ on_reloc text (λ b. copy_from b (loc.offset - 2) old) s >>= λ s. ok (s, m)
    ]

-- The instructions that `relocatePCREL` knows; a MOV carries its destination register.
pub data Form : Type 0 where
  lea cmpl call2 call jmp : Form
  mov : ℕ → Form

-- The register of a MOV: bits 3 to 5 of its second byte, and the REX prefix's bit 2 on top.
unfoldable pub dst_register : ℕ → ℕ → ℕ
dst_register modrm rex = bit_or (bit_and (modrm / 2 ^ 3) 0x7) (bit_and rex 0x4 * 2)

-- The chain of tests on the bytes before the field; `v` is the field.
unfoldable pub form_of : ℕ → ℕ → ℕ → ℕ → Outcome Form
form_of opcode second rex v =
    if opcode == x86_lea_code
    then ok lea
    else if opcode == x86_mov_code
    then (if bit_and second 0x7 == 0x5
        then ok (mov (dst_register second rex))
        else err unexpected_src_register)
    else if opcode == x86_cmpl_code
    then ok cmpl
    else if opcode == x86_call2_code
    then ok call2
    else if second == x86_call_code && v == 0
    then ok call
    else if second == x86_jmp_code
    then ok jmp
    else err unsupported_opcode

-- `relocOffsetIdx`: where in the bytes from two before the field the displacement is put.
abbrev pub reloc_offset_idx : Form → ℕ
reloc_offset_idx (mov _) = 1
reloc_offset_idx cmpl = 1
reloc_offset_idx _ = 2

-- The new bytes of the instruction, from two before the field on.
abbrev pub site_bytes : Form → List ℕ
site_bytes lea = x86_mov_code ∷ []
site_bytes (mov _) = x86_jmp_near_code ++ x86_nop_code ∷ []
site_bytes cmpl = x86_jmp_near_code ++ x86_nop_code ∷ x86_nop_code ∷ []
site_bytes _ = []

unfoldable pub patch_site : Bool → Form → Reloc → Segment → Outcome Segment
patch_site text f loc s = do
  s ← on_reloc text (λ b. copy_from b (loc.offset - 2) (site_bytes f)) s
  let extra_jmp_distance = 2 - reloc_offset_idx f
  on_reloc text
      (λ b.
        put_uint32 b (loc.offset - 2 + reloc_offset_idx f)
          (u32 (add64 (epilogue_distance text loc s) extra_jmp_distance)))
      s

-- The jump from the end of a rewritten CMPL or MOV back behind the instruction.
unfoldable pub return_jump : Reloc → ℕ → Segment → Outcome Segment
return_jump loc epi s =
    let return_offset = sub64 (loc.offset + loc.size) (epi + 2) in
    if fits_short return_offset
    then (do
      s ← on_code (λ b. copy_from b epi x86_jmp_short_code) s
      on_code (λ b. put_byte b (epi + 1) (u8 return_offset)) s)
    else (do
      s ← on_code (λ b. copy_from b epi x86_jmp_near_code) s
      on_code (λ b. put_uint32 b (epi + 1) (u32 (sub64 return_offset 3))) s)

-- `b[o] |= v`
abbrev pub or_byte : List ℕ → ℕ → ℕ → Outcome (List ℕ)
or_byte b o v = get_byte b o >>= λ x. put_byte b o (bit_or x v)

-- The epilogue of each instruction.
unfoldable pub fill_epilogue : Bool → ℕ → Form → ℕ → Reloc → Segment → Outcome Segment
fill_epilogue text addr cmpl comparator loc s = do
  let epi = loc.epilogue_offset
  s ← on_code (λ b. copy_from b epi x86_replace_cmpl_code) s
  s ← on_code (λ b. put_byte b (epi + 14) comparator) s
  s ← on_code (λ b. put_uint64 b (epi + 3) (add64 addr (add64 loc.add 1))) s
  return_jump loc (epi + 16) s
fill_epilogue text addr (mov dst) comparator loc s = do
  let epi = loc.epilogue_offset
  let rax = (do
    s ← on_code (λ b. copy_from b epi x86_replace_movq_code_rax) s
    s ← on_code (λ b. put_uint64 b (epi + 2) (add64 addr loc.add)) s
    return_jump loc (epi + 10) s)
  let other = (do
    s ← on_code (λ b. copy_from b epi x86_replace_movq_code) s
    s ← on_code (λ b. put_uint64 b (epi + 3) (add64 addr loc.add)) s
    s ← on_code (λ b. or_byte b (epi + 11) (bit_and dst 0x8 / 2)) s
    s ← on_code (λ b. put_byte b (epi + 13) (bit_and dst 0x7 * 2 ^ 3)) s
    return_jump loc (epi + 15) s)
  if dst == 0 then rax else other
fill_epilogue text addr call comparator loc s = do
  s ← on_reloc text (λ b. put_byte b (loc.offset - 2 + 1) x86_jmp_code) s
  (s, _) ← far_call text addr loc s
  ok s
fill_epilogue text addr jmp comparator loc s = do
  s ← on_code (λ b. copy_from b loc.epilogue_offset x86_jmpl_code) s
  on_code (λ b. put_uint64 b (loc.epilogue_offset + 6) (add64 addr loc.add)) s
fill_epilogue text addr _ comparator loc s =
    on_code (λ b. put_uint64 b loc.epilogue_offset (add64 addr loc.add)) s

-- The far case: the reads that the code makes first, the site, the epilogue.
unfoldable pub pcrel_far : Bool → ℕ → Reloc → Segment → Outcome Segment
pcrel_far text addr loc s = do
  let b = reloc_byte text s
  comparator ← get_byte b (loc.offset + loc.size)
  opcode ← get_byte b (loc.offset - 2)
  rex ← checked (leb 3 loc.offset) (byte_at b (loc.offset - 3))
  f ← form_of opcode (byte_at b (loc.offset - 1)) rex (u32_at b loc.offset)
  s ← patch_site text f loc s
  fill_epilogue text addr f comparator loc s

-- relocatePCREL
unfoldable pub relocate_pcrel :
    Bool → Bool → ℕ → Reloc → Segment → Applied → Outcome (Segment × Applied)
relocate_pcrel force text addr loc s m = do
  let offset = displacement text addr loc s
  (s, m) ← pcrel_restore text loc s m
  s ←
      on_code
        (λ b.
          copy_within b loc.epilogue_offset loc.epilogue_size (create_x86_nops loc.epilogue_size))
        s
  s ←
      (if needs_epilogue force offset loc
        then (if loc.epilogue_size == 0
            then (checked (quoted (reloc_byte text s) 3 loc) s >>= λ _. err epilogue_not_available)
            else pcrel_far text addr loc s)
        else on_reloc text (λ b. put_uint32 b loc.offset (u32 offset)) s)
  ok (s, m)
