-- ===== src/PcTable/Varint.antt =====
-- encoding/binary: varints, seven bits to a byte, lowest first. A value of 64 bits takes 10 bytes.
use goloader.Shared.{
  ℕ, zero, suc, ◌+◌, ◌-◌, ◌*◌, ◌/◌, ◌%◌, ◌^◌, ◌<◌, ◌≡◌, List, [], ◌∷◌, ◌++◌, Option, none, some,
  ltb, length, ◌≤◌, if◌then◌else◌, arith, Bool-cases, inl, inr, ◌≢◌,
}

put_fuel : ℕ → ℕ → List ℕ
put_fuel zero v = v ∷ []
put_fuel (suc fuel) v =
    let rest = put_fuel fuel (v / 128) in if ltb v 128 then v ∷ [] else (128 + v % 128) ∷ rest

-- binary.PutUvarint
unfoldable pub put_uvarint : ℕ → List ℕ
unfolding put_fuel
put_uvarint v = put_fuel 9 v

-- The zigzag of PutVarint, of an `int32` pattern.
abbrev pub zigzag : ℕ → ℕ
zigzag d = if ltb d (2 ^ 31) then 2 * d else 2 * (2 ^ 32 - d) - 1

-- binary.PutVarint
unfoldable pub put_varint : ℕ → List ℕ
unfolding put_uvarint
put_varint d = put_uvarint (zigzag d)

abbrev pub more_bits : ℕ → Option (ℕ × List ℕ) → Option (ℕ × List ℕ)
more_bits b none = none
more_bits b (some (v, rest)) = some (b - 128 + 128 * v, rest)

-- The decoder; `none` is a read past the end.
unfoldable pub read_uvarint : List ℕ → Option (ℕ × List ℕ)
read_uvarint [] = none
read_uvarint (b ∷ bs) =
    let more = more_bits b (read_uvarint bs) in if ltb b 128 then some (b, bs) else more

-- The values that `fuel` and one more bytes hold.
abbrev cap : ℕ → ℕ
cap zero = 128
cap (suc fuel) = 128 * cap fuel

more_lem :
    (b v : ℕ) (o : Option (ℕ × List ℕ)) (rest : List ℕ)
    → b ≡ 128 + v % 128
    → o ≡ some (v / 128, rest)
    → more_bits b o ≡ some (v, rest)
more_lem b v o rest e f = ground arith

read_fuel :
    (fuel v : ℕ) (rest : List ℕ)
    → v < cap fuel
    → read_uvarint (put_fuel fuel v ++ rest) ≡ some (v, rest)
unfolding read_uvarint put_fuel
read_fuel zero v rest h = ground arith
read_fuel (suc fuel) v rest h = ground (
  arith,
  read_fuel fuel (v / 128) rest,
  more_lem (128 + v % 128) v (read_uvarint (put_fuel fuel (v / 128) ++ rest)) rest,
)

-- What is written is read back, whatever follows it.
pub read_uvarint-put :
    (v : ℕ) (rest : List ℕ) → v < 2 ^ 64 → read_uvarint (put_uvarint v ++ rest) ≡ some (v, rest)
unfolding put_uvarint
read_uvarint-put v rest h = read_fuel 9 v rest (omega arith)

length-put_fuel : (fuel v : ℕ) → 1 ≤ length (put_fuel fuel v)
unfolding put_fuel
length-put_fuel zero v = omega arith
length-put_fuel (suc fuel) v = ground arith

-- A number takes a byte at least.
pub length-put : (v : ℕ) → 1 ≤ length (put_uvarint v)
unfolding put_uvarint
length-put v = length-put_fuel 9 v

-- Only zero starts with a zero byte.
pub head-put : (v : ℕ) → (b : ℕ) × (bs : List ℕ) × (put_uvarint v ≡ b ∷ bs) × ((v ≢ 0) → b ≢ 0)
unfolding put_uvarint put_fuel
head-put v = elim (Bool-cases (ltb v 128)) [
  | inl e ↦ (v, [], rw e, λ h. h)
  | inr e ↦ (128 + v % 128, put_fuel 8 (v / 128), rw (e, put_fuel), λ h k. omega arith)
]

-- Numbers of one byte, and of two.
pub put_uvarint_one : (v : ℕ) → v < 128 → put_uvarint v ≡ v ∷ []
unfolding put_uvarint put_fuel
put_uvarint_one v h = ground arith

pub put_uvarint_two :
    (v : ℕ) → 128 ≤ v → v < 16384 → put_uvarint v ≡ (128 + v % 128) ∷ (v / 128 ∷ [])
unfolding put_uvarint put_fuel
put_uvarint_two v lo hi = ground arith
