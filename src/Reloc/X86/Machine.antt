-- ===== src/Reloc/X86/Machine.antt =====
-- What an x86-64 processor does at the instructions that the loader patches: a description of the
-- instruction set that does not mention relocations. A position counts from the start of the code,
-- which is loaded at `base`.
use goloader.Shared.{ℕ, ◌+◌, List, Option, none, some, ◌==◌, if◌then◌else◌, ◌&&◌}
use goloader.Shared.Word.{add64, sub64, sext32, sext8}
use goloader.Shared.Bytes.{byte_at, u32_at, u64_at}

-- CALL to an address; CALL through a pointer, read at its position; JMP to a position.
pub data Instr : Type 0 where
  call far_call jmp : ℕ → Instr
  other : Instr

-- The position that a displacement of 32 or 8 bits reaches from the end of its instruction.
unfoldable pub near_target : ℕ → ℕ → ℕ → ℕ
near_target base end disp = sub64 (add64 (base + end) (sext32 disp)) base

unfoldable pub short_target : ℕ → ℕ → ℕ → ℕ
short_target base end disp = sub64 (add64 (base + end) (sext8 disp)) base

unfoldable pub decode : List ℕ → ℕ → ℕ → Instr
decode b base pos =
    if byte_at b pos == 0xE8
    then call (add64 (base + (pos + 5)) (sext32 (u32_at b (pos + 1))))
    else if byte_at b pos == 0xE9
    then jmp (near_target base (pos + 5) (u32_at b (pos + 1)))
    else if byte_at b pos == 0xEB
    then jmp (short_target base (pos + 2) (byte_at b (pos + 1)))
    else if byte_at b pos == 0xFF && byte_at b (pos + 1) == 0x15
    then far_call (u64_at b (near_target base (pos + 6) (u32_at b (pos + 2))))
    else other

-- After a CALL of `target` that returned to `pos`: where the code goes on.
abbrev pub returns : List ℕ → ℕ → ℕ → ℕ → Option (ℕ × ℕ)
returns b base target pos = elim (decode b base pos) [ jmp p ↦ some (target, p) | _ ↦ none ]

-- Code that calls through a pointer and jumps back.
abbrev pub detour : List ℕ → ℕ → ℕ → Option (ℕ × ℕ)
detour b base pos = elim (decode b base pos) [
  | far_call target ↦ returns b base target (pos + 6)
  | _ ↦ none
]

-- The call that the code at `pos` makes, directly or by a detour: its target, and the position at
-- which the code goes on after it.
unfoldable pub performs : List ℕ → ℕ → ℕ → Option (ℕ × ℕ)
performs b base pos = elim (decode b base pos) [
  | call target ↦ some (target, pos + 5)
  | jmp p ↦ detour b base p
  | _ ↦ none
]
