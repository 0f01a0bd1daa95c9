-- ===== src/Reloc/AsmBytes.antt =====
-- asm_bytes.go, the sizes at the head of relocate.go, and the padding of utils.go.
use goloader.Shared.{ℕ, zero, suc, ◌%◌, ◌/◌, List, [], ◌∷◌, ◌++◌, replicate, ◌==◌, if◌then◌else◌}
use goloader.Shared.Outcome.{Outcome, ok, panic}

abbrev pub x86_mov_code : ℕ
x86_mov_code = 0x8B

abbrev pub x86_lea_code : ℕ
x86_lea_code = 0x8D

abbrev pub x86_cmpl_code : ℕ
x86_cmpl_code = 0x83

abbrev pub x86_call_code : ℕ
x86_call_code = 0xE8

abbrev pub x86_call2_code : ℕ
x86_call2_code = 0xFF

abbrev pub x86_jmp_code : ℕ
x86_jmp_code = 0xE9

abbrev pub x86_nop_code : ℕ
x86_nop_code = 0x90

abbrev pub x86_jmpl_code : List ℕ
x86_jmpl_code = 0xFF ∷ 0x25 ∷ 0 ∷ 0 ∷ 0 ∷ 0 ∷ []

abbrev pub x86_jmp_near_code : List ℕ
x86_jmp_near_code = 0xE9 ∷ 0 ∷ 0 ∷ 0 ∷ 0 ∷ []

abbrev pub x86_jmp_short_code : List ℕ
x86_jmp_short_code = 0xEB ∷ 0 ∷ []

abbrev pub x86_call_far_code : List ℕ
x86_call_far_code = 0xFF ∷ 0x15 ∷ 0 ∷ 0 ∷ 0 ∷ 0 ∷ []

abbrev pub x86_replace_cmpl_code : List ℕ
x86_replace_cmpl_code =
    0x50 ∷ 0x48 ∷ 0xB8 ∷ 0 ∷ 0 ∷ 0 ∷ 0 ∷ 0 ∷ 0 ∷ 0 ∷ 0 ∷ 0x48 ∷ 0x83 ∷ 0x38 ∷ 0 ∷ 0x58 ∷ []

abbrev pub x86_replace_movq_code_rax : List ℕ
x86_replace_movq_code_rax = 0x48 ∷ 0xA1 ∷ 0 ∷ 0 ∷ 0 ∷ 0 ∷ 0 ∷ 0 ∷ 0 ∷ 0 ∷ []

abbrev pub x86_replace_movq_code : List ℕ
x86_replace_movq_code =
    0x50 ∷ 0x48 ∷ 0xB8 ∷ 0 ∷ 0 ∷ 0 ∷ 0 ∷ 0 ∷ 0 ∷ 0 ∷ 0 ∷ 0x48 ∷ 0x8B ∷ 0 ∷ 0x58 ∷ []

abbrev pub arm_code : List ℕ
arm_code = 0x04 ∷ 0xF0 ∷ 0x1F ∷ 0xE5 ∷ []

abbrev pub arm64_call_code : List ℕ
arm64_call_code = 0x51 ∷ 0 ∷ 0 ∷ 0x58 ∷ 0x20 ∷ 0x02 ∷ 0x1F ∷ 0xD6 ∷ []

abbrev pub arm64_b_code : ℕ
arm64_b_code = 0x14000000

abbrev pub arm64_nop_code : List ℕ
arm64_nop_code = 0x1F ∷ 0x20 ∷ 0x03 ∷ 0xD5 ∷ []

abbrev pub arm_ldr_code_8_bytes : ℕ
arm_ldr_code_8_bytes = 0x58000040

abbrev pub arm_ldr_code_12_bytes : ℕ
arm_ldr_code_12_bytes = 0x58000060

-- createX86Nops
abbrev pub create_x86_nops : ℕ → List ℕ
create_x86_nops size = replicate size x86_nop_code

-- The loop of `createARM64Nops`, one instruction to a round.
abbrev pub arm64_nops : ℕ → List ℕ
arm64_nops zero = []
arm64_nops (suc n) = arm64_nop_code ++ arm64_nops n

-- createARM64Nops
unfoldable pub create_arm64_nops : ℕ → Outcome (List ℕ)
create_arm64_nops size = if size % 4 == 0 then ok (arm64_nops (size / 4)) else panic

pub data Arch : Type 0 where
  amd64 arm64 : Arch

-- createArchNops
unfoldable pub create_arch_nops : Arch → ℕ → Outcome (List ℕ)
unfolding create_arm64_nops
create_arch_nops arm64 size = create_arm64_nops size
create_arch_nops amd64 size = ok (create_x86_nops size)
