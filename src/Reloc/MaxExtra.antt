-- ===== src/Reloc/MaxExtra.antt =====
-- relocate.go: `maxExtraInstructionBytes...`, the sizes that the linker reserves for epilogues.
use goloader.Shared.{ℕ, ◌+◌, length}
use goloader.Segment.{ptr_size}
use goloader.Reloc.AsmBytes.{
  x86_replace_movq_code, x86_jmp_short_code, x86_jmp_near_code, x86_replace_cmpl_code,
  x86_jmpl_code, x86_call_far_code, arm64_call_code,
}

abbrev pub adrp : ℕ
adrp = 4 + 4 + ptr_size

abbrev pub adrp_ldst : ℕ
adrp_ldst = 4 + 4 + 4 + ptr_size

abbrev pub callarm64 : ℕ
callarm64 = length arm64_call_code + ptr_size

abbrev pub pcrel_leaq : ℕ
pcrel_leaq = ptr_size

abbrev pub pcrel_mov_short : ℕ
pcrel_mov_short = length x86_replace_movq_code + length x86_jmp_short_code

abbrev pub pcrel_mov_near : ℕ
pcrel_mov_near = length x86_replace_movq_code + length x86_jmp_near_code

abbrev pub pcrel_cmpl_short : ℕ
pcrel_cmpl_short = length x86_replace_cmpl_code + length x86_jmp_short_code

abbrev pub pcrel_cmpl_near : ℕ
pcrel_cmpl_near = length x86_replace_cmpl_code + length x86_jmp_near_code

abbrev pub pcrel_call2 : ℕ
pcrel_call2 = ptr_size

abbrev pub pcrel_jmp : ℕ
pcrel_jmp = length x86_jmpl_code + ptr_size

abbrev pub call_short : ℕ
call_short = length x86_call_far_code + length x86_jmp_short_code + ptr_size

abbrev pub call_near : ℕ
call_near = length x86_call_far_code + length x86_jmp_near_code + ptr_size

abbrev pub gotpcrel : ℕ
gotpcrel = ptr_size
