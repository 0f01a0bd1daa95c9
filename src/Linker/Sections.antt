-- ===== src/Linker/Sections.antt =====
-- The bytes of a data symbol: in its section, and in the memory of the loaded module.
use text.Mathlib.Text.{starts_with}
use mathlib.Core.List.{append-nil}
use goloader.Shared.{
  ℕ, zero, suc, ◌+◌, ◌-◌, ◌%◌, ◌≤◌, ◌≡◌, ◌∙◌, ap, refl, Bool, false, List, [], ◌∷◌, ◌++◌, String,
  length, arith, Bool-cases, inl, inr, length-append, length-replicate, ◌==◌, ==→eq,
}
use goloader.Shared.Outcome.{ok}
use goloader.Shared.Bytes.{slice, zeros}
use goloader.Segment.{
  SymKind, Segment, Reloc, sxxx, stext, srodata, snoptrdata, sdata, sbss, snoptrbss, stlsbss,
}
use goloader.Names.{StrMap, type_string_prefix}
use goloader.Reloc.AsmBytes.{Arch}
use goloader.Load.{Sections, sum_data_len, segment_of, fill_segment}
use goloader.Load.Layout.{fill_parts}
use goloader.Linker.Reserve.{bytearray_align}
use goloader.Linker.Place.{Placed, place_symbol, section_shift}

-- The section of a kind of data; no other kind has one here.
abbrev pub section_of : SymKind → Sections → List ℕ
section_of sdata x = x.data_bytes
section_of snoptrdata x = x.noptrdata
section_of srodata x = x.noptrdata
section_of sbss x = x.bss
section_of snoptrbss x = x.noptrbss
section_of _ x = []

abbrev pub IsData : SymKind → Type 0
IsData sdata = Unit
IsData snoptrdata = Unit
IsData srodata = Unit
IsData sbss = Unit
IsData snoptrbss = Unit
IsData _ = ⊥

padded :
    (b : List ℕ) → (pad : List ℕ) × (bytearray_align b 8 ≡ b ++ pad) × (length (b ++ pad) % 8 ≡ 0)
unfolding bytearray_align
padded b = elim (Bool-cases (length b % 8 == 0)) [
  | inl e ↦ ([], rw (e, append-nil b), omega (arith, ==→eq _ _ e, length-append b []))
  | inr e ↦ (
    zeros (8 - length b % 8),
    rw e,
    omega (
      arith,
      length-append b (zeros (8 - length b % 8)),
      length-replicate {A = ℕ} (8 - length b % 8) 0,
    ),
  )
]

-- A symbol of data other than a string constant: its bytes go to the end of its section, at a
-- multiple of 8 if the section ends at one, and the section ends at a multiple of 8 after it.
pub place_symbol-section_of :
    (arch : Arch) (no_epilogues : Bool) (kind : SymKind) (name : String) (bytes : List ℕ)
    (relocs : List Reloc) (x : Sections) (strings : StrMap (List ℕ))
    → IsData kind
    → starts_with name type_string_prefix ≡ false
    → (p : Placed) × (pad : List ℕ) × (place_symbol arch no_epilogues kind name bytes relocs x
          strings
        ≡ ok p)
      × (p.offset ≡ length (section_of kind x))
      × (section_of kind p.sections ≡ (section_of kind x ++ bytes) ++ pad)
      × (length (section_of kind p.sections) % 8 ≡ 0)
      × (p.relocs ≡ relocs)
unfolding place_symbol
place_symbol-section_of arch ne sdata name bytes relocs x strings d s =
    let (pad, e, m) = padded (x.data_bytes ++ bytes) in (_, pad, refl, refl, e, rw e m, refl)
place_symbol-section_of arch ne snoptrdata name bytes relocs x strings d s =
    let (pad, e, m) = padded (x.noptrdata ++ bytes) in rw s (_, pad, refl, refl, e, rw e m, refl)
place_symbol-section_of arch ne srodata name bytes relocs x strings d s =
    let (pad, e, m) = padded (x.noptrdata ++ bytes) in rw s (_, pad, refl, refl, e, rw e m, refl)
place_symbol-section_of arch ne sbss name bytes relocs x strings d s =
    let (pad, e, m) = padded (x.bss ++ bytes) in (_, pad, refl, refl, e, rw e m, refl)
place_symbol-section_of arch ne snoptrbss name bytes relocs x strings d s =
    let (pad, e, m) = padded (x.noptrbss ++ bytes) in (_, pad, refl, refl, e, rw e m, refl)
place_symbol-section_of arch ne sxxx name bytes relocs x strings d s = elim d [ ]
place_symbol-section_of arch ne stext name bytes relocs x strings d s = elim d [ ]
place_symbol-section_of arch ne stlsbss name bytes relocs x strings d s = elim d [ ]

-- A part of a part.
pub slice-slice :
    (b : List ℕ) (q p m k n : ℕ)
    → q ≡ k + p
    → k + n ≤ m
    → p + m ≤ length b
    → slice b q n ≡ slice (slice b p m) k n
slice-slice b q p m k zero e h l = refl
slice-slice [] q p m k (suc n) e h l = absurd (omega arith)
slice-slice (x ∷ xs) q p zero k (suc n) e h l = absurd (omega arith)
slice-slice (x ∷ xs) zero (suc p) (suc m) k (suc n) e h l = absurd (omega arith)
slice-slice (x ∷ xs) (suc q) (suc p) (suc m) k (suc n) e h l =
    slice-slice xs q p (suc m) k (suc n) (omega arith) (omega arith) (omega arith)
slice-slice (x ∷ xs) zero zero (suc m) zero (suc n) e h l =
    ap (◌∷◌ x) (slice-slice xs 0 0 m 0 n (omega arith) (omega arith) (omega arith))
slice-slice (x ∷ xs) (suc q) zero (suc m) zero (suc n) e h l = absurd (omega arith)
slice-slice (x ∷ xs) zero zero (suc m) (suc k) (suc n) e h l = absurd (omega arith)
slice-slice (x ∷ xs) (suc q) zero (suc m) (suc k) (suc n) e h l =
    slice-slice xs q 0 m k (suc n) (omega arith) (omega arith) (omega arith)

-- In mappings that are large enough: the bytes of a data symbol, at the offset that addSymbols moved
-- it to, are in the loaded module's data those that it has in its section.
pub section_shift-slice :
    (x : Sections) (code_base : ℕ) (code_mem : List ℕ) (data_base : ℕ) (data_mem : List ℕ)
    → length x.code ≤ length code_mem
    → sum_data_len x ≤ length data_mem
    → (s : Segment) × (fill_segment x code_base code_mem data_base data_mem ≡ ok s)
      × ((kind : SymKind) (name : String) (offset n : ℕ)
          → IsData kind
          → starts_with name type_string_prefix ≡ false
          → offset + n ≤ length (section_of kind x)
          → slice s.data_byte (offset + section_shift kind name x) n
            ≡ slice (section_of kind x) offset n)
unfolding section_shift
section_shift-slice x code_base code_mem data_base data_mem hc hd =
    let (c, b, e, l, text, data_part, noptrdata, bss, noptrbss) =
      fill_parts x code_base code_mem data_base data_mem hc hd in
    (
      segment_of x code_base c data_base b (sum_data_len x),
      e,
      λ kind name offset n d s h.
          lookup b l data_part noptrdata bss noptrbss kind name offset n d s h,
    )
  where
    part :
        (b : List ℕ)
        → length b ≡ length data_mem
        → (start : ℕ) (section : List ℕ) → slice b start (length section) ≡ section
        → start + length section ≤ length data_mem
        → (offset n : ℕ) → offset + n ≤ length section
        → slice b (offset + start) n ≡ slice section offset n
    part b l start section e fits offset n h =
        slice-slice b (offset + start) start (length section) offset n refl h (omega arith)
        ∙ ap (λ t. slice t offset n) e

    lookup :
        (b : List ℕ)
        → length b ≡ length data_mem
        → slice b 0 (length x.data_bytes) ≡ x.data_bytes
        → slice b (length x.data_bytes) (length x.noptrdata) ≡ x.noptrdata
        → slice b (length x.data_bytes + length x.noptrdata) (length x.bss) ≡ x.bss
        → slice b (length x.data_bytes + length x.noptrdata + length x.bss) (length x.noptrbss)
          ≡ x.noptrbss
        → (kind : SymKind) (name : String) (offset n : ℕ) → IsData kind
        → starts_with name type_string_prefix ≡ false
        → offset + n ≤ length (section_of kind x)
        → slice b (offset + section_shift kind name x) n ≡ slice (section_of kind x) offset n
    lookup b l p q r t sdata name offset n d s h =
        part b l 0 x.data_bytes p (omega arith) offset n h
    lookup b l p q r t snoptrdata name offset n d s h =
        rw s (part b l (length x.data_bytes) x.noptrdata q (omega arith) offset n h)
    lookup b l p q r t srodata name offset n d s h =
        rw s (part b l (length x.data_bytes) x.noptrdata q (omega arith) offset n h)
    lookup b l p q r t sbss name offset n d s h =
        part b l (length x.data_bytes + length x.noptrdata) x.bss r (omega arith) offset n h
    lookup b l p q r t snoptrbss name offset n d s h =
        part b l (length x.data_bytes + length x.noptrdata + length x.bss) x.noptrbss t
          (omega arith) offset n h
    lookup b l p q r t sxxx name offset n d s h = elim d [ ]
    lookup b l p q r t stext name offset n d s h = elim d [ ]
    lookup b l p q r t stlsbss name offset n d s h = elim d [ ]
