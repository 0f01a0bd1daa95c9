-- ===== src/Linker/Growth.antt =====
-- What `addSymbol` puts into the sections stays there: a section only grows at its end.
use text.Mathlib.Text.{starts_with}
use goloader.Shared.{
  ℕ, ◌+◌, ◌-◌, ◌%◌, ◌≡◌, refl, Bool, false, ◌&&◌, not, List, [], ◌∷◌, ◌++◌, String, length, ◌==◌,
  Bool-cases, inl, inr, subst, sym,
}
use goloader.Shared.Outcome.{Outcome, ok}
use goloader.Shared.Bytes.{zeros}
use goloader.Shared.Prefix.{
  Prefix, Prefix-refl, Prefix-append, Prefix-trans, Stands, Stands-end, Stands-Prefix, Returns,
  Returns-bind, Returns-any,
}
use goloader.Segment.{
  SymKind, Reloc, sxxx, stext, srodata, snoptrdata, sdata, sbss, snoptrbss, stlsbss, ptr_size,
}
use goloader.Names.{StrMap, type_string_prefix}
use goloader.Reloc.AsmBytes.{Arch, create_arch_nops}
use goloader.Load.{Sections}
use goloader.Linker.Reserve.{
  Reservation, nothing, epilogue, bytearray_align, bytearray_align_nops, reservation,
  place_epilogue, reserve_one, reserve_loop, add_text,
}
use goloader.Linker.Place.{Placed, place_symbol}

abbrev pub Grown : Sections → Sections → Type 0
Grown x y =
    Prefix x.code y.code
    × Prefix x.data_bytes y.data_bytes
    × Prefix x.noptrdata y.noptrdata
    × Prefix x.bss y.bss
    × Prefix x.noptrbss y.noptrbss

pub Grown-refl : (x : Sections) → Grown x x
Grown-refl x = (
  Prefix-refl x.code,
  Prefix-refl x.data_bytes,
  Prefix-refl x.noptrdata,
  Prefix-refl x.bss,
  Prefix-refl x.noptrbss,
)

pub Grown-trans : (x y z : Sections) → Grown x y → Grown y z → Grown x z
Grown-trans x y z (a, b, c, d, e) (a', b', c', d', e') = (
  Prefix-trans x.code y.code z.code a a',
  Prefix-trans x.data_bytes y.data_bytes z.data_bytes b b',
  Prefix-trans x.noptrdata y.noptrdata z.noptrdata c c',
  Prefix-trans x.bss y.bss z.bss d d',
  Prefix-trans x.noptrbss y.noptrbss z.noptrbss e e',
)

pub bytearray_align-Prefix : (b : List ℕ) (align : ℕ) → Prefix b (bytearray_align b align)
unfolding bytearray_align
bytearray_align-Prefix b align = elim (Bool-cases (length b % align == 0)) [
  | inl e ↦ rw e (Prefix-refl b)
  | inr e ↦ rw e (Prefix-append b (zeros (align - length b % align)))
]

pub aligned-Prefix :
    (b bytes : List ℕ) (align : ℕ) → Prefix (b ++ bytes) (bytearray_align (b ++ bytes) align)
aligned-Prefix b bytes align = bytearray_align-Prefix (b ++ bytes) align

nops-Prefix :
    (arch : Arch) (b : List ℕ) (align : ℕ) → Returns (Prefix b) (bytearray_align_nops arch b align)
unfolding bytearray_align_nops
nops-Prefix arch b align = elim (Bool-cases (length b % align == 0)) [
  | inl e ↦ rw e (Prefix-refl b)
  | inr e ↦ rw e (
      Returns-bind (λ _. Unit {0}) (Prefix b) (create_arch_nops arch (align - length b % align))
        (λ nops. ok (b ++ nops)) (Returns-any _) (λ nops _. Prefix-append b nops))
]

abbrev Behind : List ℕ → Reloc × List ℕ → Type 0
Behind code r = Prefix code r.1

epilogue-Prefix :
    (arch : Arch) (r : Reservation) (loc : Reloc) (at : ℕ) (code : List ℕ)
    → Returns (Behind code) (place_epilogue arch r loc at code)
epilogue-Prefix arch nothing loc at code = Prefix-refl code
epilogue-Prefix arch (epilogue pad size) loc at code =
    Returns-bind (λ _. Unit {0}) (Behind code) (create_arch_nops arch (size + pad))
      (λ nops. ok (record loc { epilogue_offset = at + pad; epilogue_size = size }, code ++ nops))
      (Returns-any _) (λ nops _. Prefix-append code nops)

reserve_one-Prefix :
    (arch : Arch) (ne : Bool) (text : List ℕ) (base : ℕ) (loc : Reloc) (code : List ℕ)
    → Returns (Behind code) (reserve_one arch ne text base loc code)
unfolding reserve_one
reserve_one-Prefix arch ne text base loc code =
    elim (Bool-cases (ne && not (starts_with loc.sym.name type_string_prefix))) [
      | inl e ↦ rw e (Prefix-refl code)
      | inr e ↦ rw e (
          Returns-bind (λ _. Unit {0}) (Behind code)
            (reservation loc.kind text loc (length code - base)) _ (Returns-any _)
            (λ r _.
              Returns-bind (Behind code) (Behind code)
                (place_epilogue arch r loc (length code - base) code) _
                (epilogue-Prefix arch r loc (length code - base) code)
                (λ (loc', c) p.
                  Returns-bind (Prefix c) (Behind code) (bytearray_align_nops arch c ptr_size) _
                    (nops-Prefix arch c ptr_size) (λ d q. Prefix-trans code c d p q))))
    ]

abbrev AllBehind : List ℕ → List Reloc × List ℕ → Type 0
AllBehind code r = Prefix code r.1

reserve_loop-Prefix :
    (arch : Arch) (ne : Bool) (text : List ℕ) (base : ℕ) (locs : List Reloc) (code : List ℕ)
    → Returns (AllBehind code) (reserve_loop arch ne text base locs code)
unfolding reserve_loop
reserve_loop-Prefix arch ne text base [] code = Prefix-refl code
reserve_loop-Prefix arch ne text base (loc ∷ locs) code =
    Returns-bind (Behind code) (AllBehind code) (reserve_one arch ne text base loc code) _
      (reserve_one-Prefix arch ne text base loc code)
      (λ (loc', c) p.
        Returns-bind (AllBehind c) (AllBehind code) (reserve_loop arch ne text base locs c) _
          (reserve_loop-Prefix arch ne text base locs c)
          (λ (locs', d) q. Prefix-trans code c d p q))

add_text-Prefix :
    (arch : Arch) (ne : Bool) (text : List ℕ) (relocs : List Reloc) (code : List ℕ)
    → Returns
        (λ (r : ℕ × List Reloc × List ℕ). (r.0 ≡ length code) × Prefix (code ++ text) r.2)
        (add_text arch ne text relocs code)
unfolding add_text
add_text-Prefix arch ne text relocs code =
    Returns-bind (Prefix (code ++ text)) _ (bytearray_align_nops arch (code ++ text) ptr_size) _
      (nops-Prefix arch (code ++ text) ptr_size)
      (λ c p.
        Returns-bind (AllBehind c) _ (reserve_loop arch ne text (length code) relocs c) _
          (reserve_loop-Prefix arch ne text (length code) relocs c)
          (λ (relocs', d) q. (refl, Prefix-trans (code ++ text) c d p q)))

-- The section of a kind of symbol, text included.
abbrev pub home : SymKind → Sections → List ℕ
home stext x = x.code
home sdata x = x.data_bytes
home snoptrdata x = x.noptrdata
home srodata x = x.noptrdata
home sbss x = x.bss
home snoptrbss x = x.noptrbss
home _ x = []

abbrev pub HasHome : SymKind → Type 0
HasHome stlsbss = ⊥
HasHome sxxx = ⊥
HasHome _ = Unit

pub Stands-Grown :
    (kind : SymKind) (x y : Sections) (off : ℕ) (bytes : List ℕ)
    → Grown x y
    → Stands (home kind x) off bytes
    → Stands (home kind y) off bytes
Stands-Grown stext x y off bytes g s = Stands-Prefix _ _ off bytes g.0 s
Stands-Grown sdata x y off bytes g s = Stands-Prefix _ _ off bytes g.1 s
Stands-Grown snoptrdata x y off bytes g s = Stands-Prefix _ _ off bytes g.2 s
Stands-Grown srodata x y off bytes g s = Stands-Prefix _ _ off bytes g.2 s
Stands-Grown sbss x y off bytes g s = Stands-Prefix _ _ off bytes g.3 s
Stands-Grown snoptrbss x y off bytes g s = Stands-Prefix _ _ off bytes g.4 s
Stands-Grown stlsbss x y off bytes g s = s
Stands-Grown sxxx x y off bytes g s = s

-- A symbol is put where its entry says, and nothing that was there moves.
abbrev pub PutDown : SymKind → String → List ℕ → Sections → Placed → Type 0
PutDown kind name bytes x p =
    Grown x p.sections
    × (HasHome kind
        → starts_with name type_string_prefix ≡ false
        → Stands (home kind p.sections) p.offset bytes)

module _ (arch : Arch) (ne : Bool) (name : String) (bytes : List ℕ) (relocs : List Reloc)
    (x : Sections) (strings : StrMap (List ℕ)) where
  abbrev placed : SymKind → Outcome Placed
  placed kind = place_symbol arch ne kind name bytes relocs x strings

  -- One section with the symbol at its end.
  abbrev longer : List ℕ → List ℕ
  longer b = bytearray_align (b ++ bytes) ptr_size

  grows : (b : List ℕ) → Prefix b (longer b)
  grows b =
      Prefix-trans b (b ++ bytes) (longer b) (Prefix-append b bytes) (aligned-Prefix b bytes 8)

  stands : (b : List ℕ) → Stands (longer b) (length b) bytes
  stands b = Stands-end b bytes (longer b) (aligned-Prefix b bytes 8)

  abbrev same : (b : List ℕ) → Prefix b b
  same b = Prefix-refl b

  place_text-PutDown : Returns (PutDown stext name bytes x) (placed stext)
  unfolding place_symbol
  place_text-PutDown =
      Returns-bind _ (PutDown stext name bytes x) (add_text arch ne bytes relocs x.code) _
        (add_text-Prefix arch ne bytes relocs x.code)
        (λ (base, relocs', code) (e, p). (
          (
            Prefix-trans x.code (x.code ++ bytes) code (Prefix-append x.code bytes) p,
            same x.data_bytes,
            same x.noptrdata,
            same x.bss,
            same x.noptrbss,
          ),
          λ _ _. subst (λ o. Stands code o bytes) (sym e) (Stands-end x.code bytes code p),
        ))

  noptr-PutDown : Returns (PutDown snoptrdata name bytes x) (placed snoptrdata)
  unfolding place_symbol
  noptr-PutDown = elim (Bool-cases (starts_with name type_string_prefix)) [
    | inl e ↦ rw e (Grown-refl x, λ _ no. absurd (cc))
    | inr e ↦ rw e (
      (same x.code, same x.data_bytes, grows x.noptrdata, same x.bss, same x.noptrbss),
      λ _ _. stands x.noptrdata,
    )
  ]

  pub place_symbol-PutDown : (kind : SymKind) → Returns (PutDown kind name bytes x) (placed kind)
  unfolding place_symbol
  place_symbol-PutDown stext = place_text-PutDown
  place_symbol-PutDown snoptrdata = noptr-PutDown
  place_symbol-PutDown srodata = noptr-PutDown
  place_symbol-PutDown sdata = (
    (same x.code, grows x.data_bytes, same x.noptrdata, same x.bss, same x.noptrbss),
    λ _ _. stands x.data_bytes,
  )
  place_symbol-PutDown sbss = (
    (same x.code, same x.data_bytes, same x.noptrdata, grows x.bss, same x.noptrbss),
    λ _ _. stands x.bss,
  )
  place_symbol-PutDown snoptrbss = (
    (same x.code, same x.data_bytes, same x.noptrdata, same x.bss, grows x.noptrbss),
    λ _ _. stands x.noptrbss,
  )
  place_symbol-PutDown stlsbss = (Grown-refl x, λ h _. elim h [ ])
  place_symbol-PutDown sxxx = tt
