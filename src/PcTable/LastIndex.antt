-- ===== src/PcTable/LastIndex.antt =====
-- bytes.LastIndex of what ends a list.
use goloader.Shared.{
  ℕ, ◌<◌, ◌≡◌, refl, Bool, true, false, List, [], ◌∷◌, ◌++◌, none, some, length, ◌==◌, eq→==, arith,
  ◌&&◌,
}
use goloader.PcTable.{is_prefix, last_index}

is_prefix_self : (buf : List ℕ) → is_prefix buf buf ≡ true
unfolding is_prefix
is_prefix_self [] = refl
is_prefix_self (x ∷ xs) = rw (eq→== x x refl) (is_prefix_self xs)

is_prefix_short : (buf p : List ℕ) → length p < length buf → is_prefix buf p ≡ false
unfolding is_prefix
is_prefix_short [] p h = absurd (omega arith)
is_prefix_short (x ∷ xs) [] h = refl
is_prefix_short (x ∷ xs) (y ∷ ys) h = rw (is_prefix_short xs ys (omega arith)) (and_false (x == y))
  where
    and_false : (b : Bool) → b && false ≡ false
    and_false true = refl
    and_false false = refl

last_index_short : (buf p : List ℕ) → length p < length buf → last_index p buf ≡ none
unfolding last_index
last_index_short buf [] h = rw (is_prefix_short buf [] h)
last_index_short buf (x ∷ xs) h =
    rw (last_index_short buf xs (omega arith), last_index, is_prefix_short buf (x ∷ xs) h)

-- The last occurrence of what ends a list is its end.
pub last_index-append :
    (a buf : List ℕ) → 0 < length buf → last_index (a ++ buf) buf ≡ some (length a)
unfolding last_index
last_index-append [] [] h = absurd (omega arith)
last_index-append [] (x ∷ xs) h =
    rw (last_index_short (x ∷ xs) xs (omega arith), last_index, is_prefix_self (x ∷ xs))
last_index-append (x ∷ xs) buf h = rw (last_index-append xs buf h, last_index)
