-- ===== src/Shared/Hex.antt =====
-- `strconv.ParseUint(s, 16, 64)`, and the digits that it reads back.
use Prim.Native.Nat.{ℕ, zero, suc, ◌+◌, ◌-◌, ◌*◌, ◌/◌, ◌%◌, ◌^◌, ◌<◌}
use mathlib.Core.Path.{◌≡◌, ap, ◌∙◌}
use mathlib.Core.Logic.{inl, inr}
use mathlib.Core.Bool.{◌&&◌}
use mathlib.Core.List.{List, [], ◌∷◌}
use mathlib.Core.Option.{Option, none, some}
use native.Mathlib.Omega.{arith}
use goloader.Shared.Tests.{ltb, leb, lt→ltb, if◌then◌else◌, Bool-cases, ltb→lt}

unfoldable pub hex_digit : ℕ → Option ℕ
hex_digit c =
    if leb b'0' c && leb c b'9'
    then some (c - b'0')
    else if leb b'a' c && leb c b'f'
    then some (c - b'a' + 10)
    else if leb b'A' c && leb c b'F'
    then some (c - b'A' + 10)
    else none

-- The digits behind the value `n`; a value of more than 64 bits is out of range.
unfoldable pub parse_digits : ℕ → List ℕ → Option ℕ
parse_digits n [] = some n
parse_digits n (c ∷ cs) = elim (hex_digit c) [
  | none ↦ none
  | some d ↦ if ltb (n * 16 + d) (2 ^ 64) then parse_digits (n * 16 + d) cs else none
]

unfoldable pub parse_hex : List ℕ → Option ℕ
parse_hex [] = none
parse_hex (c ∷ cs) = parse_digits 0 (c ∷ cs)

unfoldable pub digit_char : ℕ → ℕ
digit_char d = if ltb d 10 then d + b'0' else d - 10 + b'a'

-- `n` in `k` digits at least, then `rest`; `fuel` bounds the digits.
unfoldable pub print_hex : ℕ → ℕ → List ℕ → List ℕ
print_hex zero n rest = rest
print_hex (suc fuel) n rest =
    let more = print_hex fuel (n / 16) (digit_char (n % 16) ∷ rest) in
    if ltb n 16 then digit_char n ∷ rest else more

hex_digit-digit_char : (d : ℕ) → d < 16 → hex_digit (digit_char d) ≡ some d
unfolding hex_digit digit_char
hex_digit-digit_char d h = ground arith

parse_one :
    (n d m : ℕ) (cs : List ℕ)
    → d < 16
    → m ≡ n * 16 + d
    → m < 2 ^ 64
    → parse_digits n (digit_char d ∷ cs) ≡ parse_digits m cs
unfolding parse_digits
parse_one n d m cs h e k = rw (parse_digits, hex_digit-digit_char d h, ← e, lt→ltb _ _ k)

-- The values of `fuel` digits.
abbrev pub hex_bound : ℕ → ℕ
hex_bound zero = 1
hex_bound (suc fuel) = 16 * hex_bound fuel

-- What is printed reads back, whatever stands behind it.
pub parse-print :
    (fuel n : ℕ) (rest : List ℕ)
    → n < hex_bound fuel
    → n < 2 ^ 64
    → parse_digits 0 (print_hex fuel n rest) ≡ parse_digits n rest
unfolding print_hex
parse-print zero n rest h k = ap (λ t. parse_digits t rest) (omega arith)
parse-print (suc fuel) n rest h k = elim (Bool-cases (ltb n 16)) [
  | inl e ↦ rw e (parse_one 0 n n rest (ltb→lt _ _ e) (omega arith) k)
  | inr e ↦ rw e (
      parse-print fuel (n / 16) (digit_char (n % 16) ∷ rest) (omega arith) (omega arith)
      ∙ parse_one (n / 16) (n % 16) n rest (omega arith) (omega arith) k)
]
