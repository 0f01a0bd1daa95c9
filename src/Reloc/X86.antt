-- ===== src/Reloc/X86.antt =====
-- The x86-64 relocations of relocate.go: `relocateCALL`, `relocateGOTPCREL` and the parts that
-- `relocatePCREL` shares with them.
pub mod Machine
pub mod CallSite
pub mod Pcrel
pub mod CallCode
pub mod CallDirect
pub mod Call
pub mod CallRefused
use goloader.Shared.{
  ℕ, ◌+◌, ◌-◌, ◌<◌, Bool, true, false, ◌&&◌, ◌||◌, List, [], ◌∷◌, ltb, leb, ◌==◌, if◌then◌else◌,
  length,
}
use goloader.Shared.Word.{add64, sub64, neg64, slt, u32, u8, overflows32}
use goloader.Shared.Outcome.{Outcome, ok, err, checked, epilogue_not_available, ◌>>=◌}
use goloader.Shared.Bytes.{put_byte, put_uint32, put_uint64, copy_from, copy_within}
use goloader.Segment.{Segment, Reloc}
use goloader.Reloc.{on_code, on_reloc, reloc_byte, addr_base}
use goloader.Reloc.AsmBytes.{
  create_x86_nops, x86_jmp_code, x86_call_far_code, x86_jmp_short_code, x86_jmp_near_code,
}

-- A short jump reaches back from its end: `returnOffset > -0x80 && returnOffset < 0`.
abbrev pub fits_short : ℕ → Bool
fits_short return_offset = slt (neg64 0x80) return_offset && slt return_offset 0

-- `b[loc.Offset-n]`: an index below 0 panics.
abbrev pub put_byte_before : List ℕ → ℕ → ℕ → ℕ → Outcome (List ℕ)
put_byte_before b o n v = checked (leb n o) o >>= λ _. put_byte b (o - n) v

-- CALL [RIP+n], the jump back, and the address: what the far case of `relocateCALL` and the CALL
-- case of `relocatePCREL` put in the epilogue. The result is the end of the epilogue's code.
unfoldable pub far_call : Bool → ℕ → Reloc → Segment → Outcome (Segment × ℕ)
far_call text addr loc s = do
  s ← on_code (λ b. copy_from b loc.epilogue_offset x86_call_far_code) s
  let after_call = loc.epilogue_offset + 6
  let return_offset = sub64 (loc.offset + loc.size) (after_call + 2)
  let target = add64 addr loc.add
  if fits_short return_offset
      then (do
        s ← on_reloc text (λ b. put_uint32 b (after_call - 4) (length x86_jmp_short_code)) s
        s ← on_code (λ b. copy_from b after_call x86_jmp_short_code) s
        s ← on_code (λ b. put_byte b (after_call + 1) (u8 return_offset)) s
        s ← on_code (λ b. put_uint64 b (after_call + 2) target) s
        ok (s, after_call + 10))
      else (do
        s ← on_reloc text (λ b. put_uint32 b (after_call - 4) (length x86_jmp_near_code)) s
        s ← on_code (λ b. copy_from b after_call x86_jmp_near_code) s
        s ← on_code (λ b. put_uint32 b (after_call + 1) (u32 (sub64 return_offset 3))) s
        s ← on_code (λ b. put_uint64 b (after_call + 5) target) s
        ok (s, after_call + 13))

-- The displacement from the end of the relocated field to the target.
unfoldable pub displacement : Bool → ℕ → Reloc → Segment → ℕ
displacement text addr loc s = add64 (sub64 addr (addr_base text s + loc.offset + loc.size)) loc.add

-- From the end of the relocated field to the epilogue.
unfoldable pub epilogue_distance : Bool → Reloc → Segment → ℕ
epilogue_distance text loc s =
    sub64 (s.code_base + loc.epilogue_offset) (addr_base text s + loc.offset + loc.size)

-- The test that sends a relocation to its epilogue; `force` is ForceTestRelocationEpilogues.
unfoldable pub needs_epilogue : Bool → ℕ → Reloc → Bool
needs_epilogue force offset loc = overflows32 offset || (force && ltb 0 loc.epilogue_size)

-- The error messages quote `relocByte[loc.Offset-n : loc.Offset+loc.Size]`, which can panic.
abbrev pub quoted : List ℕ → ℕ → Reloc → Bool
quoted b n loc = leb n loc.offset && leb (loc.offset + loc.size) (length b)

-- relocateCALL
unfoldable pub relocate_call : Bool → Bool → ℕ → Reloc → Segment → Outcome Segment
relocate_call force text addr loc s = do
  let offset = displacement text addr loc s
  s ←
      on_code
        (λ b.
          copy_within b loc.epilogue_offset loc.epilogue_size (create_x86_nops loc.epilogue_size))
        s
  if needs_epilogue force offset loc
      then (if loc.epilogue_size == 0
          then (checked (quoted (reloc_byte text s) 2 loc) s >>= λ _. err epilogue_not_available)
          else (do
            s ← on_reloc text (λ b. put_byte_before b loc.offset 1 x86_jmp_code) s
            (s, _) ← far_call text addr loc s
            on_reloc text (λ b. put_uint32 b loc.offset (u32 (epilogue_distance text loc s))) s))
      else on_reloc text (λ b. put_uint32 b loc.offset (u32 offset)) s

-- relocateGOTPCREL
unfoldable pub relocate_gotpcrel : Bool → ℕ → Reloc → Segment → Outcome Segment
relocate_gotpcrel text addr loc s = do
  s ← on_reloc text (λ b. put_uint64 b loc.epilogue_offset addr) s
  on_reloc text
      (λ b. put_uint32 b loc.offset (u32 (sub64 (loc.epilogue_offset) (loc.offset + loc.size)))) s
