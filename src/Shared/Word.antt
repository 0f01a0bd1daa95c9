-- ===== src/Shared/Word.antt =====
-- Go's 64-bit `int` and `uintptr` as bit patterns below 2 ^ 64, with the conversions that the
-- loader makes. A negative `int` is its two's complement pattern.
use Prim.Native.Nat.{ℕ, ◌+◌, ◌-◌, ◌%◌, ◌^◌, ◌<◌}
use mathlib.Core.Path.{◌≡◌}
use mathlib.Core.Bool.{Bool, true, false, ◌||◌}
use native.Mathlib.Omega.{arith}
use goloader.Shared.Tests.{ltb, if◌then◌else◌}

abbrev pub add64 : ℕ → ℕ → ℕ
add64 a b = (a + b) % 2 ^ 64

abbrev pub sub64 : ℕ → ℕ → ℕ
sub64 a b = (a + 2 ^ 64 - b % 2 ^ 64) % 2 ^ 64

-- The constant -n.
abbrev pub neg64 : ℕ → ℕ
neg64 n = 2 ^ 64 - n

-- Signed `<` on 64-bit patterns.
abbrev pub slt : ℕ → ℕ → Bool
slt a b = ltb ((a + 2 ^ 63) % 2 ^ 64) ((b + 2 ^ 63) % 2 ^ 64)

abbrev pub u32 : ℕ → ℕ
u32 v = v % 2 ^ 32

abbrev pub u8 : ℕ → ℕ
u8 v = v % 2 ^ 8

-- Sign extension of a pattern of 32, of 8 or of 26 bits to 64.
abbrev pub sext32 : ℕ → ℕ
sext32 v = if ltb v (2 ^ 31) then v else v + (2 ^ 64 - 2 ^ 32)

abbrev pub sext8 : ℕ → ℕ
sext8 v = if ltb v (2 ^ 7) then v else v + (2 ^ 64 - 2 ^ 8)

-- `offset > 0x7FFFFFFF || offset < -0x80000000`
abbrev pub overflows32 : ℕ → Bool
overflows32 v = slt 0x7FFFFFFF v || slt v (neg64 0x80000000)

-- What passes the test above survives a cut to 32 bits and a sign extension.
pub sext32-u32 : (v : ℕ) → v < 2 ^ 64 → overflows32 v ≡ false → sext32 (u32 v) ≡ v
sext32-u32 v h f = ground arith

pub sext8-u8 : (v : ℕ) → v < 2 ^ 64 → slt (neg64 0x80) v ≡ true → slt v 0 ≡ true → sext8 (u8 v) ≡ v
sext8-u8 v h lo hi = ground arith

pub add64-sub64 : (a b : ℕ) → a < 2 ^ 64 → add64 b (sub64 a b) ≡ a
add64-sub64 a b h = omega arith
