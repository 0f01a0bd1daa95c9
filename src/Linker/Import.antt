-- ===== src/Linker/Import.antt =====
-- The names that `addSymbol` makes for import paths, as the program reads them: the tag, a varint for
-- the length, and at once the text (`name.readVarint` and `name.name` of reflectlite1.18/type.go).
use goloader.Shared.{
  ℕ, zero, suc, ◌+◌, ◌%◌, ◌/◌, ◌≤◌, ◌<◌, ◌≡◌, refl, ap, ◌∙◌, List, [], ◌∷◌, ◌++◌, Option, none,
  some, length, take, drop, arith, take-append_left, sym, Bool-cases, ltb, ltb→lt, inl, inr,
}
use goloader.Shared.Outcome.{ok}
use goloader.PcTable.Varint.{read_uvarint, read_uvarint-put, put_uvarint_one, put_uvarint_two}
use goloader.Linker.Fixup.{name_bytes}

abbrev pub text_of : Option (ℕ × List ℕ) → Option (List ℕ)
text_of none = none
text_of (some (n, rest)) = some (take n rest)

abbrev pub read_name : List ℕ → Option (List ℕ)
read_name b = text_of (read_uvarint (drop 1 b))

take_within : (n : ℕ) (xs ys : List ℕ) → n ≤ length xs → take n (xs ++ ys) ≡ take n xs
take_within zero xs ys h = refl
take_within (suc n) [] ys h = absurd (omega arith)
take_within (suc n) (x ∷ xs) ys h = ap (◌∷◌ x) (take_within n xs ys (omega arith))

short_read :
    (path : List ℕ) (n : ℕ)
    → length path ≡ suc n
    → suc n < 128
    → (b : List ℕ) × (name_bytes path ≡ ok b) × (read_name b ≡ some (0 ∷ take n path))
unfolding name_bytes
short_read path n e h =
    let one = put_uvarint_one (suc n) h in
    let front = ap (λ t. t ++ (0 ∷ (path ++ 0 ∷ []))) one in
    (
      0 ∷ (suc n ∷ (0 ∷ (path ++ 0 ∷ []))),
      rw (e, one),
      ap (λ t. text_of (read_uvarint t)) (sym front)
          ∙ ap text_of (read_uvarint-put (suc n) (0 ∷ (path ++ 0 ∷ [])) (omega arith))
          ∙ ap (λ t. some (0 ∷ t)) (take_within n path (0 ∷ []) (omega arith)),
    )

long_read :
    (path : List ℕ) (n : ℕ)
    → length path ≡ suc n
    → 128 ≤ suc n
    → suc n < 16384
    → (b : List ℕ) × (name_bytes path ≡ ok b) × (read_name b ≡ some path)
unfolding name_bytes
long_read path n e lo h =
    let two = put_uvarint_two (suc n) lo h in
    let front = ap (λ t. t ++ (path ++ 0 ∷ [])) two in
    (
      0 ∷ ((128 + suc n % 128) ∷ (suc n / 128 ∷ (path ++ 0 ∷ []))),
      rw (e, two),
      ap (λ t. text_of (read_uvarint t)) (sym front)
          ∙ ap text_of (read_uvarint-put (suc n) (path ++ 0 ∷ []) (omega arith))
          ∙ ap some (ap (λ t. take t (path ++ 0 ∷ [])) (sym e) ∙ take-append_left path (0 ∷ [])),
    )

-- A path of 128 bytes at least, and of less than 16,384, reads back. A shorter one that is not
-- empty does not: its length takes one of the two bytes, so the text that is read starts with the
-- other, a zero, and lacks the last byte of the path.
pub name_bytes-read_name :
    (path : List ℕ) (n : ℕ)
    → length path ≡ suc n
    → suc n < 16384
    → (b : List ℕ) × (name_bytes path ≡ ok b)
      × (128 ≤ suc n → read_name b ≡ some path)
      × (suc n < 128 → read_name b ≡ some (0 ∷ take n path))
name_bytes-read_name path n e h = elim (Bool-cases (ltb (suc n) 128)) [
  | inl t ↦
      let (b, made, read) = short_read path n e (ltb→lt _ _ t) in
      (b, made, (λ lo. absurd (ground arith)), λ _. read)
  | inr t ↦
      let (b, made, read) = long_read path n e (ground arith) h in
      (b, made, (λ _. read), λ hi. absurd (ground arith))
]
