-- ===== src/Mmap/ProcMaps/Numbers.antt =====
-- The numbers of /proc/self/maps, and what parse_hex reads in them.
use goloader.Shared.{
  ℕ, zero, suc, ◌-◌, ◌/◌, ◌%◌, ◌^◌, ◌<◌, ◌≡◌, refl, ◌∙◌, inl, inr, Bool, true, false, List, [], ◌∷◌,
  ◌++◌, some, arith, ltb, Bool-cases, replicate, length, ltb→lt,
}
use goloader.Shared.Hex.{parse_hex, parse_digits, hex_digit, digit_char, print_hex, parse-print}
use goloader.Mmap.ProcMaps.Text.{none_of, none_of-append, NonEmpty}

-- Numbers as the kernel prints them: eight digits at least.
abbrev pub digits : ℕ → List ℕ
digits n = print_hex 16 n []

unfoldable pub hex : ℕ → List ℕ
hex n = replicate (8 - length (digits n)) b'0' ++ digits n

print_hex-NonEmpty : (fuel n c : ℕ) (rest : List ℕ) → NonEmpty (print_hex fuel n (c ∷ rest))
unfolding print_hex
print_hex-NonEmpty zero n c rest = (c, rest, refl)
print_hex-NonEmpty (suc fuel) n c rest = elim (Bool-cases (ltb n 16)) [
  | inl e ↦ (digit_char n, c ∷ rest, rw e refl)
  | inr e ↦
      let (d, w, h) = print_hex-NonEmpty fuel (n / 16) (digit_char (n % 16)) (c ∷ rest) in
      (d, w, rw e h)
]

digits-NonEmpty : (n : ℕ) → NonEmpty (digits n)
unfolding print_hex
digits-NonEmpty n = elim (Bool-cases (ltb n 16)) [
  | inl e ↦ (digit_char n, [], rw e refl)
  | inr e ↦
      let (d, w, h) = print_hex-NonEmpty 15 (n / 16) (digit_char (n % 16)) [] in (d, w, rw e h)
]

zeros-NonEmpty : (k : ℕ) (xs : List ℕ) → NonEmpty xs → NonEmpty (replicate k b'0' ++ xs)
zeros-NonEmpty zero xs h = h
zeros-NonEmpty (suc k) xs h = (b'0', replicate k b'0' ++ xs, refl)

pub hex-NonEmpty : (n : ℕ) → NonEmpty (hex n)
unfolding hex
hex-NonEmpty n = zeros-NonEmpty (8 - length (digits n)) (digits n) (digits-NonEmpty n)

parse_digits-zeros :
    (k : ℕ) (xs : List ℕ) → parse_digits 0 (replicate k b'0' ++ xs) ≡ parse_digits 0 xs
unfolding parse_digits hex_digit
parse_digits-zeros zero xs = refl
parse_digits-zeros (suc k) xs = parse_digits-zeros k xs

parse_hex-NonEmpty : (xs : List ℕ) → NonEmpty xs → parse_hex xs ≡ parse_digits 0 xs
unfolding parse_hex
parse_hex-NonEmpty [] (c, w, e) = cc
parse_hex-NonEmpty (c ∷ xs) h = refl

pub parse_hex-hex : (n : ℕ) → n < 2 ^ 64 → parse_hex (hex n) ≡ some n
unfolding hex parse_digits
parse_hex-hex n h =
    parse_hex-NonEmpty (hex n) (hex-NonEmpty n)
    ∙ parse_digits-zeros (8 - length (digits n)) (digits n)
    ∙ parse-print 16 n [] (omega (arith, h)) h

none_of-print_hex :
    (p : ℕ → Bool)
    → ((d : ℕ) → d < 16 → p (digit_char d) ≡ false)
    → (fuel n : ℕ) (rest : List ℕ) → none_of p rest ≡ true
    → none_of p (print_hex fuel n rest) ≡ true
unfolding print_hex
none_of-print_hex p h zero n rest k = k
none_of-print_hex p h (suc fuel) n rest k = elim (Bool-cases (ltb n 16)) [
  | inl e ↦ rw (e, h n (ltb→lt _ _ e)) k
  | inr e ↦ rw e (
      none_of-print_hex p h fuel (n / 16) (digit_char (n % 16) ∷ rest)
        (rw (h (n % 16) (omega arith)) k))
]

none_of-zeros : (p : ℕ → Bool) → p b'0' ≡ false → (k : ℕ) → none_of p (replicate k b'0') ≡ true
none_of-zeros p h zero = refl
none_of-zeros p h (suc k) = rw h (none_of-zeros p h k)

pub none_of-hex :
    (p : ℕ → Bool)
    → ((d : ℕ) → d < 16 → p (digit_char d) ≡ false)
    → (n : ℕ) → none_of p (hex n) ≡ true
unfolding hex digit_char
none_of-hex p h n =
    none_of-append p (replicate (8 - length (digits n)) b'0') (digits n)
      (none_of-zeros p (h 0 (omega arith)) (8 - length (digits n)))
      (none_of-print_hex p h 16 n [] refl)
