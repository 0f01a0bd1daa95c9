-- ===== src/Reloc/X86/Pcrel/Again.antt =====
-- Relocating an instruction again starts from the bytes that the first relocation found.
use goloader.Shared.{
  ℕ, zero, suc, ◌+◌, ◌-◌, ◌≤◌, ◌<◌, ◌≡◌, ◌∙◌, refl, ap, true, List, [], ◌∷◌, none, length, drop,
  arith, length-replicate,
}
use goloader.Shared.Outcome.{ok}
use goloader.Shared.Bytes.{write_at, zeros, slice, length-write_at}
use goloader.Segment.{Segment, Reloc}
use goloader.Reloc.{Applied, applied_at}
use goloader.Reloc.X86.Pcrel.{pcrel_restore}

length-slice : (b : List ℕ) (k n : ℕ) → k + n ≤ length b → length (slice b k n) ≡ n
length-slice b k zero h = refl
length-slice [] k (suc n) h = absurd (omega arith)
length-slice (x ∷ xs) zero (suc n) h = ap suc (length-slice xs zero n (omega arith))
length-slice (x ∷ xs) (suc k) (suc n) h = length-slice xs k (suc n) (omega arith)

module _ (loc : Reloc) (s : Segment) (m : Applied)
    (first : applied_at (s.code_base + loc.offset) m ≡ none) (at : 2 ≤ loc.offset)
    (inside : loc.offset + loc.size < length s.code_byte) where
  abbrev pub found : List ℕ
  found = write_at (zeros (loc.size + 2)) 0 (drop (loc.offset - 2) s.code_byte)

  abbrev pub remembered : Applied
  remembered = (s.code_base + loc.offset, found) ∷ m

  -- The first application changes nothing and remembers.
  pub restore_first : pcrel_restore true loc s m ≡ ok (s, remembered)
  unfolding pcrel_restore
  restore_first = ground (arith, first)

  pub length-found : length found ≡ loc.size + 2
  length-found = length-write_at (zeros (loc.size + 2)) 0 _ ∙ length-replicate (loc.size + 2) 0

  module _ (t : Segment) (base : t.code_base ≡ s.code_base)
      (same : length t.code_byte ≡ length s.code_byte) where
    abbrev again : Segment
    again = record t { code_byte = write_at t.code_byte (loc.offset - 2) found }

    found_again : applied_at (t.code_base + loc.offset) remembered ≡ none → ⊥
    unfolding applied_at
    found_again h = ground arith
