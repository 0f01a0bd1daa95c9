-- ===== src/Reloc/Arm64/Encoding.antt =====
-- What an ARM64 processor reads from the words that the loader writes.
use goloader.Shared.{
  ℕ, ◌+◌, ◌-◌, ◌*◌, ◌/◌, ◌%◌, ◌^◌, ◌<◌, ◌≡◌, ◌∙◌, ap₂, refl, false, arith, ltb, if◌then◌else◌,
  bit_and, bit_or,
}
use goloader.Shared.Word.{neg64}
use goloader.Shared.Bits.{bit_or_low, bit_or_split, bit_and-ones, bit_or-zero}
use goloader.Reloc.Arm64.{adrp_word, overflows33}

-- The ADRP's immediate, in pages: 19 high bits from bit 5 on, 2 low bits from bit 29 on, signed.
abbrev pub imm21 : ℕ → ℕ
imm21 word = word / 2 ^ 5 % 2 ^ 19 * 4 + word / 2 ^ 29 % 4

abbrev pub adrp_distance : ℕ → ℕ
adrp_distance word =
    if ltb (imm21 word) (2 ^ 20)
    then imm21 word * 2 ^ 12
    else imm21 word * 2 ^ 12 + (2 ^ 64 - 2 ^ 33)

-- The 12-bit immediate of an ADD or of a load.
abbrev pub imm12 : ℕ → ℕ
imm12 word = word / 2 ^ 10 % 2 ^ 12

module _ (reg v w : ℕ) (small_reg : reg < 32) (small_v : v < 4) (small_w : w < 2 ^ 19) where
  immediate : bit_or (v * 2 ^ 29) (w * 2 ^ 5) ≡ v * 2 ^ 29 + w * 2 ^ 5
  immediate = bit_or_low 29 v (w * 2 ^ 5) (omega arith)

  low_word :
      bit_or (0x800000 * 2 ^ 5 + reg) (w * 2 ^ 5 + 0) ≡ bit_or 0x800000 w * 2 ^ 5 + bit_or reg 0
  low_word = bit_or_split 5 0x800000 w reg 0 small_reg (omega arith)

  low_arguments :
      bit_or (0x10000000 + reg) (w * 2 ^ 5) ≡ bit_or (0x800000 * 2 ^ 5 + reg) (w * 2 ^ 5 + 0)
  low_arguments = ap₂ bit_or (omega arith) (omega arith)

  low_sum : bit_or (0x10000000 + reg) (w * 2 ^ 5) ≡ 0x10000000 + reg + w * 2 ^ 5
  low_sum = omega (arith, low_arguments, low_word, bit_or-zero reg, bit_or_low 19 16 w small_w)

  whole_arguments :
      bit_or (0x90000000 + reg) (v * 2 ^ 29 + w * 2 ^ 5)
      ≡ bit_or (4 * 2 ^ 29 + (0x10000000 + reg)) (v * 2 ^ 29 + w * 2 ^ 5)
  whole_arguments = ap₂ bit_or (omega arith) refl

  fields :
      bit_or (0x90000000 + reg) (bit_or (v * 2 ^ 29) (w * 2 ^ 5))
      ≡ 0x90000000 + reg + v * 2 ^ 29 + w * 2 ^ 5
  fields = rw immediate (
      omega (
        arith,
        whole_arguments,
        bit_or_split 29 4 v (0x10000000 + reg) (w * 2 ^ 5) (omega arith) (omega arith),
        bit_or_low 2 1 v small_v,
        low_sum,
      ))

adrp_word_lem :
    (reg o : ℕ)
    → reg < 32
    → adrp_word (0x90000000 + reg) o
      ≡ 0x90000000 + reg + o / 2 ^ 12 % 4 * 2 ^ 29 + o / 2 ^ 14 % 2 ^ 19 * 2 ^ 5
unfolding adrp_word
adrp_word_lem reg o h =
    ap₂ (λ v w. bit_or (0x90000000 + reg) (bit_or (v * 2 ^ 29) (w * 2 ^ 5))) low high
    ∙ fields reg (o / 2 ^ 12 % 4) (o / 2 ^ 14 % 2 ^ 19) h (omega arith) (omega arith)
  where
    low : bit_and (o / 2 ^ 12) 3 ≡ o / 2 ^ 12 % 4
    low = bit_and-ones 2 (o / 2 ^ 12) (o / 2 ^ 12 / 4) _ (omega arith) (omega arith)

    high : bit_and (o / 2 ^ 14) 0x7FFFF ≡ o / 2 ^ 14 % 2 ^ 19
    high = bit_and-ones 19 (o / 2 ^ 14) (o / 2 ^ 14 / 2 ^ 19) _ (omega arith) (omega arith)

imm21_lem :
    (reg o : ℕ)
    → reg < 32
    → imm21 (0x90000000 + reg + o / 2 ^ 12 % 4 * 2 ^ 29 + o / 2 ^ 14 % 2 ^ 19 * 2 ^ 5)
      ≡ o / 2 ^ 12 % 2 ^ 21
imm21_lem reg o h = omega arith

-- The loader's own test lets the distance 2 ^ 32 through to the ADRP, which reads it as -2 ^ 32.
pub adrp_at_limit :
    (reg : ℕ)
    → reg < 32
    → (overflows33 (2 ^ 32) ≡ false)
      × (adrp_distance (adrp_word (0x90000000 + reg) (2 ^ 32)) ≡ neg64 (2 ^ 32))
adrp_at_limit reg h =
    (refl, rw (adrp_word_lem reg (2 ^ 32) h) (ground (arith, imm21_lem reg (2 ^ 32) h)))
