-- ===== src/Shared/Bits.antt =====
-- `|` of a value whose low bits are clear and a value that fits in them is their sum; `&` with a
-- mask of ones is a remainder.
use Prim.Native.Nat.{
  ℕ, zero, suc, ◌+◌, ◌*◌, ◌/◌, ◌%◌, ◌≤◌, ◌<◌, ◌^◌, max, min, bit_or, bit_and, digits,
  bit_or-bitwise, bit_and-bitwise,
}
use mathlib.Core.Path.{◌≡◌, refl, sym, ap, ap₂, ◌∙◌}
use native.Mathlib.Nat.{pow-suc, mul_assoc}
use native.Mathlib.Omega.{arith}

-- What the two operations share: the digits of two values, combined by `op`; `rest` is what stays
-- of the second when the first has run out.
module _ (rest : ℕ → ℕ) (op : ℕ → ℕ → ℕ) where
  digits-zero : (fuel b : ℕ) → digits rest op fuel 0 b ≡ rest b
  digits-zero zero b = refl
  digits-zero (suc fuel) b = refl

  fuel_lem :
      (fuel more a b : ℕ) → a ≤ fuel → a ≤ more → digits rest op fuel a b ≡ digits rest op more a b
  fuel_lem fuel more zero b h k = digits-zero fuel b ∙ sym (digits-zero more b)
  fuel_lem zero more (suc a) b h k = absurd (omega arith)
  fuel_lem (suc fuel) zero (suc a) b h k = absurd (omega arith)
  fuel_lem (suc fuel) (suc more) (suc a) b h k =
      ap (λ (t : ℕ). t * 2 + op (suc a % 2) (b % 2))
        (fuel_lem fuel more (suc a / 2) (b / 2) (omega arith) (omega arith))

  -- The value with just enough fuel, by its last digit.
  last_digit :
      (a b : ℕ)
      → 0 < a
      → digits rest op a a b ≡ digits rest op (a / 2) (a / 2) (b / 2) * 2 + op (a % 2) (b % 2)
  last_digit zero b h = absurd (omega arith)
  last_digit (suc a) b h =
      ap (λ (t : ℕ). t * 2 + op (suc a % 2) (b % 2))
        (fuel_lem a (suc a / 2) (suc a / 2) (b / 2) (omega arith) (omega arith))

pub zero-bit_or : (b : ℕ) → bit_or 0 b ≡ b
zero-bit_or = bit_or-bitwise 0

bit_or_step : (a b : ℕ) → bit_or a b ≡ bit_or (a / 2) (b / 2) * 2 + max (a % 2) (b % 2)
bit_or_step zero b = omega (arith, zero-bit_or (b / 2), zero-bit_or b)
bit_or_step (suc a) b =
    bit_or-bitwise (suc a) b
    ∙ last_digit (λ r. r) max (suc a) b (omega arith)
    ∙ ap (λ (t : ℕ). t * 2 + max (suc a % 2) (b % 2)) (sym (bit_or-bitwise (suc a / 2) (b / 2)))

or_nothing : (bound a : ℕ) → a ≤ bound → bit_or a 0 ≡ a
or_nothing bound zero h = zero-bit_or 0
or_nothing zero (suc a) h = absurd (omega arith)
or_nothing (suc bound) (suc a) h =
    omega (arith, or_nothing bound (suc a / 2) (omega arith), bit_or_step (suc a) 0)

pub bit_or-zero : (a : ℕ) → bit_or a 0 ≡ a
bit_or-zero a = or_nothing a a (omega arith)

twice_pow : (c k : ℕ) → c * 2 ^ suc k ≡ (c * 2 ^ k) * 2
twice_pow c k = simp (pow-suc, mul_assoc)

-- A value with `k` clear low bits, or one that fits in `k` bits.
pub bit_or_low : (k c b : ℕ) → b < 2 ^ k → bit_or (c * 2 ^ k) b ≡ c * 2 ^ k + b
bit_or_low zero c b h = omega (arith, ap (bit_or (c * 2 ^ 0)) zero_b, bit_or-zero (c * 2 ^ 0))
  where
    zero_b : b ≡ 0
    zero_b = omega arith
bit_or_low (suc k) c b h =
    rw twice_pow
      (omega (arith, bit_or_step ((c * 2 ^ k) * 2) b, half, bit_or_low k c (b / 2) small))
  where
    small : b / 2 < 2 ^ k
    small = omega (arith, twice_pow 1 k)

    half : bit_or ((c * 2 ^ k) * 2 / 2) (b / 2) ≡ bit_or (c * 2 ^ k) (b / 2)
    half = ap (λ t. bit_or t (b / 2)) (omega arith)

-- `|` works on the high and on the low bits apart.
pub bit_or_split :
    (k a b l m : ℕ)
    → l < 2 ^ k
    → m < 2 ^ k
    → bit_or (a * 2 ^ k + l) (b * 2 ^ k + m) ≡ bit_or a b * 2 ^ k + bit_or l m
bit_or_split zero a b l m h g = omega (arith, whole, low)
  where
    whole : bit_or (a * 2 ^ 0 + l) (b * 2 ^ 0 + m) ≡ bit_or a b
    whole = ap₂ bit_or (omega arith) (omega arith)

    no_l : l ≡ 0
    no_l = omega arith

    no_m : m ≡ 0
    no_m = omega arith

    low : bit_or l m ≡ 0
    low = rw (no_l, no_m)
bit_or_split (suc k) a b l m h g =
    rw (twice_pow a k, twice_pow b k, twice_pow (bit_or a b) k)
      (omega (
        arith,
        bit_or_step ((a * 2 ^ k) * 2 + l) ((b * 2 ^ k) * 2 + m),
        bit_or_step l m,
        halves,
        bit_or_split k a b (l / 2) (m / 2) (small l h) (small m g),
      ))
  where
    small : (n : ℕ) → n < 2 ^ suc k → n / 2 < 2 ^ k
    small n e = omega (arith, twice_pow 1 k)

    halves :
        bit_or (((a * 2 ^ k) * 2 + l) / 2) (((b * 2 ^ k) * 2 + m) / 2)
        ≡ bit_or (a * 2 ^ k + l / 2) (b * 2 ^ k + m / 2)
    halves = ap₂ bit_or (omega arith) (omega arith)

bit_and_step : (a b : ℕ) → bit_and a b ≡ bit_and (a / 2) (b / 2) * 2 + min (a % 2) (b % 2)
bit_and_step zero b = omega (arith, bit_and-bitwise 0 (b / 2), bit_and-bitwise 0 b)
bit_and_step (suc a) b =
    bit_and-bitwise (suc a) b
    ∙ last_digit (λ r. zero) min (suc a) b (omega arith)
    ∙ ap (λ (t : ℕ). t * 2 + min (suc a % 2) (b % 2)) (sym (bit_and-bitwise (suc a / 2) (b / 2)))

and_nothing : (bound a : ℕ) → a ≤ bound → bit_and a 0 ≡ 0
and_nothing bound zero h = refl
and_nothing zero (suc a) h = absurd (omega arith)
and_nothing (suc bound) (suc a) h =
    omega (arith, and_nothing bound (suc a / 2) (omega arith), bit_and_step (suc a) 0)

-- `mask` is `k` ones: `&` with it keeps the low `k` bits.
abbrev ones : ℕ → ℕ
ones zero = 0
ones (suc k) = ones k * 2 + 1

pub bit_and-ones : (k a q r : ℕ) → a ≡ q * 2 ^ k + r → r < 2 ^ k → bit_and a (ones k) ≡ r
bit_and-ones zero a q r e h = omega (arith, and_nothing a a (omega arith))
bit_and-ones (suc k) a q r e h = omega (
  arith,
  bit_and_step a (ones k * 2 + 1),
  half,
  bit_and-ones k (a / 2) q (r / 2) (omega (arith, twice_pow q k)) (omega (arith, twice_pow 1 k)),
  twice_pow q k,
)
  where
    half : bit_and (a / 2) ((ones k * 2 + 1) / 2) ≡ bit_and (a / 2) (ones k)
    half = ap (bit_and (a / 2)) (omega arith)
