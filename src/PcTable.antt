-- ===== src/PcTable.antt =====
-- ld.go: `readPCData`, `pcValue` and `patchPCValuesForReloc`, over the tables of the Go runtime.
-- Of the standard library: the varints of encoding/binary, `bytes.LastIndex`, and runtime.step.
pub mod Varint
pub mod Points
pub mod Lookup
mod LastIndex
pub mod Extends
pub mod Patch
use goloader.Shared.{
  ℕ, zero, suc, ◌+◌, ◌-◌, ◌*◌, ◌/◌, ◌%◌, ◌^◌, Bool, true, false, ◌&&◌, ◌||◌, not, List, [], ◌∷◌,
  ◌++◌, Option, none, some, length, take, ltb, leb, ◌==◌, if◌then◌else◌,
}
use goloader.Shared.Word.{sub64}
use goloader.Shared.Outcome.{Outcome, ok, panic, ◌>>=◌}
use goloader.Reloc.AsmBytes.{Arch, amd64, arm64}
use goloader.PcTable.Varint.{put_uvarint, read_uvarint, put_varint}

-- The smallest step of a program counter.
abbrev pub pc_quantum : Arch → ℕ
pc_quantum arm64 = 4
pc_quantum amd64 = 1

-- A step of the decoder: what is left of the table, the pc and the value. `val` is an `int32`
-- pattern. `none` is the end of the table.
pub record Cursor : Type 0 where
  pub rest : List ℕ
  pub pc : ℕ
  pub val : ℕ

-- `*val += int32(-(uvdelta & 1) ^ (uvdelta >> 1))`
abbrev pub add_delta : ℕ → ℕ → ℕ
add_delta val uv =
    if uv % 2 == 0 then (val + uv / 2) % 2 ^ 32 else (val + 2 ^ 32 - uv / 2 - 1) % 2 ^ 32

abbrev pub advance : ℕ → ℕ → ℕ → Option (ℕ × List ℕ) → Option Cursor
advance q pc val none = none
advance q pc val (some (pd, rest)) =
    some (record { rest = rest; pc = pc + (pd % 2 ^ 32 * q) % 2 ^ 32; val = val })

abbrev pub value_step : ℕ → Bool → ℕ → ℕ → Option (ℕ × List ℕ) → Option Cursor
value_step q goes_on pc val none = none
value_step q goes_on pc val (some (uv, rest)) =
    if goes_on then advance q pc (add_delta val (uv % 2 ^ 32)) (read_uvarint rest) else none

-- A zero byte ends the table, but not at its start.
abbrev pub goes_on : Bool → List ℕ → Bool
goes_on first [] = false
goes_on first (b ∷ bs) = first || not (b == 0)

-- runtime.step, whose readvarint keeps 32 bits. A table that breaks off inside a pair, where the
-- runtime panics, ends there.
unfoldable pub step : ℕ → Bool → Cursor → Option Cursor
step q first c = value_step q (goes_on first c.rest) c.pc c.val (read_uvarint c.rest)

-- readPCData from pc 0, where `val` starts as -1: the pairs of a pc and the value before it.
unfoldable pub read_pcdata : ℕ → ℕ → Cursor → List (ℕ × ℕ)
read_pcdata zero q c = []
read_pcdata (suc fuel) q c = elim (step q (c.pc == 0) c) [
  | none ↦ []
  | some d ↦ (d.pc, d.val) ∷ elim (d.rest) [ [] ↦ [] | x ∷ xs ↦ read_pcdata fuel q d ]
]

abbrev pub start : List ℕ → Cursor
start p = record { rest = p; pc = 0; val = 2 ^ 32 - 1 }

-- pcValue: the value at an offset; -1 where the table ends before it (with the pc 1<<64 - 1).
unfoldable pub pc_value_loop : ℕ → ℕ → ℕ → ℕ → Cursor → ℕ × ℕ
pc_value_loop zero q target prev c = (2 ^ 32 - 1, 2 ^ 64 - 1)
pc_value_loop (suc fuel) q target prev c = elim (step q (c.pc == 0) c) [
  | none ↦ (2 ^ 32 - 1, 2 ^ 64 - 1)
  | some d ↦ elim (d.rest) [
    | [] ↦ (2 ^ 32 - 1, 2 ^ 64 - 1)
    | x ∷ xs ↦ elim (ltb target d.pc) [
      | true ↦ (d.val, prev)
      | false ↦ pc_value_loop fuel q target d.pc d
    ]
  ]
]

unfoldable pub pc_value : ℕ → List ℕ → ℕ → ℕ × ℕ
unfolding pc_value_loop step
pc_value q [] target = (2 ^ 32 - 1, 2 ^ 64 - 1)
pc_value q (x ∷ xs) target = pc_value_loop (length (x ∷ xs)) q target 0 (start (x ∷ xs))

unfoldable pub is_prefix : List ℕ → List ℕ → Bool
is_prefix [] ys = true
is_prefix (x ∷ xs) [] = false
is_prefix (x ∷ xs) (y ∷ ys) = x == y && is_prefix xs ys

-- bytes.LastIndex
unfoldable pub last_index : List ℕ → List ℕ → Option ℕ
last_index [] buf = if is_prefix buf [] then some 0 else none
last_index (x ∷ xs) buf = elim (last_index xs buf) [
  | some i ↦ some (suc i)
  | none ↦ if is_prefix buf (x ∷ xs) then some 0 else none
]

-- The last pair, and the pc of the pair before it (0 if there is none).
unfoldable pub last_pair : ℕ → List (ℕ × ℕ) → Option (ℕ × ℕ × ℕ)
last_pair before [] = none
last_pair before ((pc, val) ∷ []) = some (before, pc, val)
last_pair before ((pc, val) ∷ (x ∷ xs)) = last_pair pc (x ∷ xs)

-- Splits off the last byte.
unfoldable pub split_last : List ℕ → Option (List ℕ × ℕ)
split_last [] = none
split_last (x ∷ []) = some ([], x)
split_last (x ∷ (y ∷ ys)) = elim (split_last (y ∷ ys)) [
  | none ↦ none
  | some (init, z) ↦ some (x ∷ init, z)
]

abbrev pub or_panic {ℓ} : {A : Type ℓ} → Option A → Outcome A
or_panic none = panic
or_panic (some a) = ok a

-- The last delta grows over the epilogue.
unfoldable pub extend_last : ℕ → List ℕ → ℕ → ℕ → ℕ → Outcome (List ℕ)
extend_last q p before last_pc end = do
  index ← or_panic (last_index p (put_uvarint ((last_pc - before) / q)))
  ok (take index p ++ put_uvarint (sub64 end before / q))

-- A new pair with the value at the relocation.
unfoldable pub append_pair : ℕ → List ℕ → ℕ → ℕ → ℕ → ℕ → Outcome (List ℕ)
append_pair q p last_pc last_val val end =
    if ltb end last_pc && leb q (last_pc - end)
    then panic
    else ok (
        p ++ (put_varint ((val + 2 ^ 32 - last_val) % 2 ^ 32) ++ put_uvarint ((end - last_pc) / q)))

-- patchPCValuesForReloc
unfoldable pub patch_pc_values : Arch → List ℕ → ℕ → ℕ → ℕ → Outcome (List ℕ)
unfolding pc_value
patch_pc_values arch p reloc_offset epilogue_offset epilogue_size = do
  let q = pc_quantum arch
  let end = epilogue_offset + epilogue_size
  let (val, start_pc) = pc_value q p reloc_offset
  (init, last) ← or_panic (split_last p)
  if (start_pc == 2 ^ 64 - 1 && val == 2 ^ 32 - 1) || not (last == 0) then panic else (do
    (before, last_pc, last_val) ← or_panic (last_pair 0 (read_pcdata (length init) q (start init)))
    p' ←
        (if last_val == val
          then extend_last q init before last_pc end
          else append_pair q init last_pc last_val val end)
    ok (p' ++ 0 ∷ []))
