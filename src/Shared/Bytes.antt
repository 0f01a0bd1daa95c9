-- ===== src/Shared/Bytes.antt =====
-- Byte slices as lists: Go's `copy`, single stores, and the little-endian `binary.ByteOrder`, each
-- with the bounds check at which Go panics.
pub mod Patch
use Prim.Native.Nat.{ℕ, zero, suc, ◌+◌, ◌-◌, ◌*◌, ◌/◌, ◌%◌, ◌^◌, ◌≤◌, ◌<◌}
use mathlib.Core.Path.{◌≡◌, refl, ap}
use mathlib.Core.Logic.{◌⊎◌, inl, inr}
use mathlib.Core.List.{List, [], ◌∷◌, ◌++◌}
use native.Mathlib.Omega.{arith}
use goloader.Shared.Tests.{ltb, leb, lt→ltb, le→leb}
use goloader.Shared.Lists.{length, take, replicate}
use goloader.Shared.Outcome.{Outcome, ok, checked}

-- `copy(b[o:], src)` with `o` in range: what does not fit is cut off.
abbrev pub write_at : List ℕ → ℕ → List ℕ → List ℕ
write_at [] o src = []
write_at (x ∷ xs) zero [] = x ∷ xs
write_at (x ∷ xs) zero (y ∷ src) = y ∷ write_at xs zero src
write_at (x ∷ xs) (suc o) src = x ∷ write_at xs o src

-- The bytes `b[o:o+n]` that exist.
abbrev pub slice : List ℕ → ℕ → ℕ → List ℕ
slice xs o zero = []
slice [] o (suc n) = []
slice (x ∷ xs) zero (suc n) = x ∷ slice xs zero n
slice (x ∷ xs) (suc o) (suc n) = slice xs o (suc n)

abbrev pub le_bytes : ℕ → ℕ → List ℕ
le_bytes zero v = []
le_bytes (suc n) v = (v % 256) ∷ le_bytes n (v / 256)

abbrev pub le_value : List ℕ → ℕ
le_value [] = 0
le_value (x ∷ xs) = x + 256 * le_value xs

unfoldable pub byte_at : List ℕ → ℕ → ℕ
byte_at b o = le_value (slice b o 1)

unfoldable pub u32_at : List ℕ → ℕ → ℕ
u32_at b o = le_value (slice b o 4)

unfoldable pub u64_at : List ℕ → ℕ → ℕ
u64_at b o = le_value (slice b o 8)

-- `b[o]`, `byteorder.Uint32(b[o:])`
unfoldable pub get_byte : List ℕ → ℕ → Outcome ℕ
unfolding byte_at
get_byte b o = checked (ltb o (length b)) (byte_at b o)

unfoldable pub get_uint32 : List ℕ → ℕ → Outcome ℕ
unfolding u32_at
get_uint32 b o = checked (leb (o + 4) (length b)) (u32_at b o)

-- `b[o] = byte(v)`, `byteorder.PutUint32(b[o:], v)`, `byteorder.PutUint64(b[o:], v)`
unfoldable pub put_byte : List ℕ → ℕ → ℕ → Outcome (List ℕ)
put_byte b o v = checked (ltb o (length b)) (write_at b o (le_bytes 1 v))

unfoldable pub put_uint32 : List ℕ → ℕ → ℕ → Outcome (List ℕ)
put_uint32 b o v = checked (leb (o + 4) (length b)) (write_at b o (le_bytes 4 v))

unfoldable pub put_uint64 : List ℕ → ℕ → ℕ → Outcome (List ℕ)
put_uint64 b o v = checked (leb (o + 8) (length b)) (write_at b o (le_bytes 8 v))

-- `copy(b[o:], src)`
unfoldable pub copy_from : List ℕ → ℕ → List ℕ → Outcome (List ℕ)
copy_from b o src = checked (leb o (length b)) (write_at b o src)

-- `copy(b[o:o+n], src)`
unfoldable pub copy_within : List ℕ → ℕ → ℕ → List ℕ → Outcome (List ℕ)
copy_within b o n src = checked (leb (o + n) (length b)) (write_at b o (take n src))

-- `make([]byte, n)`
abbrev pub zeros : ℕ → List ℕ
zeros n = replicate n 0

pub length-write_at : (b : List ℕ) (o : ℕ) (src : List ℕ) → length (write_at b o src) ≡ length b
length-write_at [] o src = refl
length-write_at (x ∷ xs) zero [] = refl
length-write_at (x ∷ xs) zero (y ∷ src) = ap suc (length-write_at xs zero src)
length-write_at (x ∷ xs) (suc o) src = ap suc (length-write_at xs o src)

pub slice_all : (b : List ℕ) → slice b 0 (length b) ≡ b
slice_all [] = refl
slice_all (x ∷ xs) = ap (◌∷◌ x) (slice_all xs)

-- A read inside what was written reads the source.
pub slice-write_part :
    (b : List ℕ) (o : ℕ) (src : List ℕ) (p k n : ℕ)
    → p ≡ o + k
    → k + n ≤ length src
    → o + length src ≤ length b
    → slice (write_at b o src) p n ≡ slice src k n
slice-write_part b o src p k zero e h f = refl
slice-write_part [] o [] p k (suc n) e h f = absurd (omega arith)
slice-write_part [] o (y ∷ src) p k (suc n) e h f = absurd (omega arith)
slice-write_part (x ∷ xs) zero [] p k (suc n) e h f = absurd (omega arith)
slice-write_part (x ∷ xs) zero (y ∷ src) zero zero (suc n) e h f =
    ap (◌∷◌ y) (slice-write_part xs zero src zero zero n (omega arith) (omega arith) (omega arith))
slice-write_part (x ∷ xs) zero (y ∷ src) zero (suc k) (suc n) e h f = absurd (omega arith)
slice-write_part (x ∷ xs) zero (y ∷ src) (suc p) zero (suc n) e h f = absurd (omega arith)
slice-write_part (x ∷ xs) zero (y ∷ src) (suc p) (suc k) (suc n) e h f =
    slice-write_part xs zero src p k (suc n) (omega arith) (omega arith) (omega arith)
slice-write_part (x ∷ xs) (suc o) src zero k (suc n) e h f = absurd (omega arith)
slice-write_part (x ∷ xs) (suc o) src (suc p) k (suc n) e h f =
    slice-write_part xs o src p k (suc n) (omega arith) h (omega arith)

-- A read apart from what was written reads the old bytes.
abbrev pub Apart : ℕ → ℕ → ℕ → ℕ → Type 0
Apart p n o m = (p + n ≤ o) ⊎ (o + m ≤ p)

pub slice-write-Apart :
    (b : List ℕ) (o : ℕ) (src : List ℕ) (p n : ℕ)
    → Apart p n o (length src)
    → slice (write_at b o src) p n ≡ slice b p n
slice-write-Apart b o src p zero a = refl
slice-write-Apart [] o src p (suc n) a = refl
slice-write-Apart (x ∷ xs) zero [] p (suc n) a = refl
slice-write-Apart (x ∷ xs) zero (y ∷ src) zero (suc n) a = absurd (omega arith)
slice-write-Apart (x ∷ xs) zero (y ∷ src) (suc p) (suc n) a =
    slice-write-Apart xs zero src p (suc n) (inr (omega arith))
slice-write-Apart (x ∷ xs) (suc o) src zero (suc zero) a = refl
slice-write-Apart (x ∷ xs) (suc o) src zero (suc (suc n)) (inl a) =
    ap (◌∷◌ x) (slice-write-Apart xs o src zero (suc n) (inl (omega arith)))
slice-write-Apart (x ∷ xs) (suc o) src zero (suc (suc n)) (inr a) = absurd (omega arith)
slice-write-Apart (x ∷ xs) (suc o) src (suc p) (suc n) (inl a) =
    slice-write-Apart xs o src p (suc n) (inl (omega arith))
slice-write-Apart (x ∷ xs) (suc o) src (suc p) (suc n) (inr a) =
    slice-write-Apart xs o src p (suc n) (inr (omega arith))

pub le_value_bytes4 : (v : ℕ) → le_value (le_bytes 4 v) ≡ v % 2 ^ 32
le_value_bytes4 v = omega arith

pub le_value_bytes8 : (v : ℕ) → le_value (le_bytes 8 v) ≡ v % 2 ^ 64
le_value_bytes8 v = omega arith

-- In range, the operations write.
module _ (b : List ℕ) (o : ℕ) where
  pub put_byte_ok : (v : ℕ) → o < length b → put_byte b o v ≡ ok (write_at b o (le_bytes 1 v))
  unfolding put_byte
  put_byte_ok v h = rw (lt→ltb _ _ h)

  pub put_uint32_ok :
      (v : ℕ) → o + 4 ≤ length b → put_uint32 b o v ≡ ok (write_at b o (le_bytes 4 v))
  unfolding put_uint32
  put_uint32_ok v h = rw (le→leb _ _ h)

  pub put_uint64_ok :
      (v : ℕ) → o + 8 ≤ length b → put_uint64 b o v ≡ ok (write_at b o (le_bytes 8 v))
  unfolding put_uint64
  put_uint64_ok v h = rw (le→leb _ _ h)

  pub copy_from_ok : (src : List ℕ) → o ≤ length b → copy_from b o src ≡ ok (write_at b o src)
  unfolding copy_from
  copy_from_ok src h = rw (le→leb _ _ h)

  pub copy_within_ok :
      (n : ℕ) (src : List ℕ)
      → o + n ≤ length b
      → copy_within b o n src ≡ ok (write_at b o (take n src))
  unfolding copy_within
  copy_within_ok n src h = rw (le→leb _ _ h)

  pub get_uint32_ok : o + 4 ≤ length b → get_uint32 b o ≡ ok (u32_at b o)
  unfolding get_uint32
  get_uint32_ok h = rw (le→leb _ _ h)
