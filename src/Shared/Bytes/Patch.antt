-- ===== src/Shared/Bytes/Patch.antt =====
-- A run of writes to one buffer, and reads that look through it.
use goloader.Shared.{ℕ, ◌+◌, ◌≤◌, ◌≡◌, refl, ap, ◌∙◌, List, [], ◌∷◌, length, arith}
use goloader.Shared.Bytes.{
  byte_at, u32_at, u64_at, write_at, slice, le_value, length-write_at, slice-write_part,
  slice-write-Apart, Apart,
}

abbrev pub Writes : Type 0
Writes = List (ℕ × List ℕ)

-- The writes in order, the first one first.
abbrev pub patch : List ℕ → Writes → List ℕ
patch b [] = b
patch b ((o, src) ∷ ws) = patch (write_at b o src) ws

-- No write touches the `n` bytes from `p` on.
abbrev pub AllApart : ℕ → ℕ → Writes → Type 0
AllApart p n [] = Unit
AllApart p n ((o, src) ∷ ws) = Apart p n o (length src) × AllApart p n ws

pub length-patch : (b : List ℕ) (ws : Writes) → length (patch b ws) ≡ length b
length-patch b [] = refl
length-patch b ((o, src) ∷ ws) = length-patch (write_at b o src) ws ∙ length-write_at b o src

pub slice-patch_apart :
    (b : List ℕ) (ws : Writes) (p n : ℕ) → AllApart p n ws → slice (patch b ws) p n ≡ slice b p n
slice-patch_apart b [] p n a = refl
slice-patch_apart b ((o, src) ∷ ws) p n a =
    slice-patch_apart (write_at b o src) ws p n a.1 ∙ slice-write-Apart b o src p n a.0

pub byte_at-patch_apart :
    (b : List ℕ) (ws : Writes) (p : ℕ) → AllApart p 1 ws → byte_at (patch b ws) p ≡ byte_at b p
unfolding byte_at
byte_at-patch_apart b ws p a = ap le_value (slice-patch_apart b ws p 1 a)

pub u32_at-patch_apart :
    (b : List ℕ) (ws : Writes) (p : ℕ) → AllApart p 4 ws → u32_at (patch b ws) p ≡ u32_at b p
unfolding u32_at
u32_at-patch_apart b ws p a = ap le_value (slice-patch_apart b ws p 4 a)

-- A read inside a write that no later one touches.
module _ (b : List ℕ) (before : Writes) (o : ℕ) (src : List ℕ) (after : Writes) (p k : ℕ)
    (at : p ≡ o + k) (fits : o + length src ≤ length b) where
  abbrev written : List ℕ
  written = patch (write_at (patch b before) o src) after

  pub slice-patch :
      (n : ℕ) → k + n ≤ length src → AllApart p n after → slice written p n ≡ slice src k n
  slice-patch n h a =
      slice-patch_apart (write_at (patch b before) o src) after p n a
      ∙ slice-write_part (patch b before) o src p k n at h (omega (arith, length-patch b before))

  pub byte_at-patch : k + 1 ≤ length src → AllApart p 1 after → byte_at written p ≡ byte_at src k
  unfolding byte_at
  byte_at-patch h a = ap le_value (slice-patch 1 h a)

  pub u32_at-patch : k + 4 ≤ length src → AllApart p 4 after → u32_at written p ≡ u32_at src k
  unfolding u32_at
  u32_at-patch h a = ap le_value (slice-patch 4 h a)

  pub u64_at-patch : k + 8 ≤ length src → AllApart p 8 after → u64_at written p ≡ u64_at src k
  unfolding u64_at
  u64_at-patch h a = ap le_value (slice-patch 8 h a)
