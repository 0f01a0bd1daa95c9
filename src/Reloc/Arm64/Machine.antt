-- ===== src/Reloc/Arm64/Machine.antt =====
-- What an ARM64 processor does at the instructions of a call: a description of the instruction set that
-- does not mention relocations. A position counts from the start of the code, which is loaded at
-- `base`.
use goloader.Shared.{
  ℕ, ◌+◌, ◌-◌, ◌*◌, ◌/◌, ◌%◌, ◌^◌, List, Option, none, some, ltb, ◌==◌, ◌&&◌, if◌then◌else◌,
}
use goloader.Shared.Word.{add64, sub64}
use goloader.Shared.Bytes.{u32_at, u64_at}

-- Where a BL at `pc` goes: 26 bits, signed, counted in words.
abbrev pub bl_target : ℕ → ℕ → ℕ
bl_target pc word =
    let imm = word % 2 ^ 26 in
    add64 pc (if ltb imm (2 ^ 25) then imm * 4 else imm * 4 + (2 ^ 64 - 2 ^ 28))

-- Where an LDR at `pc` reads its literal: 19 bits, signed, counted in words.
abbrev pub literal_address : ℕ → ℕ → ℕ
literal_address pc word =
    let imm = word / 2 ^ 5 % 2 ^ 19 in
    add64 pc (if ltb imm (2 ^ 18) then imm * 4 else imm * 4 + (2 ^ 64 - 2 ^ 21))

-- BL to an address; LDR of a 64-bit register from an address; BR to the address in a register.
pub data Instr : Type 0 where
  bl br : ℕ → Instr
  ldr : ℕ → ℕ → Instr
  other : Instr

unfoldable pub decode : ℕ → ℕ → Instr
decode pc word =
    if word / 2 ^ 26 == 0x25
    then bl (bl_target pc word)
    else if word / 2 ^ 24 == 0x58
    then ldr (word % 2 ^ 5) (literal_address pc word)
    else if word / 2 ^ 10 == 0x3587C0 && word % 2 ^ 5 == 0
    then br (word / 2 ^ 5 % 2 ^ 5)
    else other

abbrev pub decode_at : List ℕ → ℕ → ℕ → Instr
decode_at b base pos = decode (base + pos) (u32_at b pos)

-- A load of a register and a branch to it: where it goes.
unfoldable pub branches : List ℕ → ℕ → ℕ → Option ℕ
branches b base pos = elim (decode_at b base pos) [
  | ldr r a ↦ elim (decode_at b base (pos + 4)) [
    | br r' ↦ if r == r' then some (u64_at b (sub64 a base)) else none
    | _ ↦ none
  ]
  | _ ↦ none
]

-- The call that a BL at `pos` makes when it leads to such code: its target, and the position behind
-- the BL, to which the called function returns.
unfoldable pub calls : List ℕ → ℕ → ℕ → Option (ℕ × ℕ)
calls b base pos = elim (decode_at b base pos) [
  | bl t ↦ elim (branches b base (sub64 t base)) [
    | some target ↦ some (target, pos + 4)
    | none ↦ none
  ]
  | _ ↦ none
]
