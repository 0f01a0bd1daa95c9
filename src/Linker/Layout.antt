-- ===== src/Linker/Layout.antt =====
-- Where `addSymbol` puts the epilogues of a function.
use mathlib.Core.List.{append_assoc, append-nil}
use goloader.Shared.{
  ℕ, ◌+◌, ◌-◌, ◌%◌, ◌≤◌, ◌≡◌, ap, subst, ◌⊎◌, inl, inr, refl, false, Bool, List, [], ◌∷◌, ◌++◌,
  length, arith, Bool-cases, length-append, length-replicate, ==→eq, ◌==◌, ◌&&◌, not,
}
use text.Mathlib.Text.{starts_with}
use goloader.Shared.Bytes.{byte_at}
use goloader.Shared.Outcome.{ok}
use goloader.Segment.{Reloc, RelocType, r_pcrel}
use goloader.Names.{type_string_prefix}
use goloader.Reloc.AsmBytes.{amd64, create_arch_nops, create_x86_nops}
use goloader.Linker.Reserve.{
  bytearray_align_nops, pcrel_reserve, reservation, Reservation, nothing, epilogue, reserve_one,
  reserve_loop, add_text, pcrel_class, pcrel_size,
}

-- The field of a PCREL lies in the text, not at its very start.
abbrev pub IsInside : List ℕ → Reloc → Type 0
IsInside text loc =
    loc.kind ≡ r_pcrel → (1 ≤ loc.offset) × (1 ≤ loc.size) × (loc.offset + loc.size ≤ length text)

abbrev pub AllInside : List ℕ → List Reloc → Type 0
AllInside text [] = Unit
AllInside text (loc ∷ locs) = IsInside text loc × (loc.epilogue_size ≡ 0) × AllInside text locs

-- An epilogue, if there is one, between two positions of the function.
abbrev pub Placed : ℕ → Reloc → ℕ → Type 0
Placed low loc high =
    (loc.epilogue_size ≡ 0)
    ⊎ ((low ≤ loc.epilogue_offset) × (loc.epilogue_offset + loc.epilogue_size ≤ high))

-- Each epilogue lies behind those before it.
abbrev pub InOrder : ℕ → List Reloc → ℕ → Type 0
InOrder low [] high = low ≤ high
InOrder low (loc ∷ locs) high = (mid : ℕ) × (low ≤ mid) × Placed low loc mid × InOrder mid locs high

aligned :
    (b : List ℕ)
    → (rest : List ℕ) × (bytearray_align_nops amd64 b 8 ≡ ok (b ++ rest))
      × (length (b ++ rest) % 8 ≡ 0)
unfolding bytearray_align_nops create_arch_nops
aligned b = elim (Bool-cases (length b % 8 == 0)) [
  | inl e ↦ ([], rw (e, append-nil b), omega (arith, ==→eq _ _ e, length-append b []))
  | inr e ↦ (
    create_x86_nops (8 - length b % 8),
    rw e,
    omega (
      arith,
      length-append b (create_x86_nops (8 - length b % 8)),
      length-replicate {A = ℕ} (8 - length b % 8) 0x90,
    ),
  )
]

pcrel_ok :
    (text : List ℕ) (loc : Reloc) (at : ℕ)
    → (1 ≤ loc.offset) × (1 ≤ loc.size) × (loc.offset + loc.size ≤ length text)
    → (n : ℕ) × (pcrel_reserve text loc at ≡ ok n)
unfolding pcrel_reserve
pcrel_ok text loc at h = elim (Bool-cases (loc.offset == 1)) [
  | inl e ↦ (value 0, ground arith)
  | inr e ↦ (value (loc.offset - 2), ground arith)
]
  where
    value : ℕ → ℕ
    value a =
        let (opcode, size) = pcrel_class (byte_at text a) (byte_at text (a + 1)) in
        pcrel_size loc at opcode size

reservation_ok :
    (kind : RelocType) (text : List ℕ) (loc : Reloc) (at : ℕ)
    → loc.kind ≡ kind
    → IsInside text loc
    → (r : Reservation) × (reservation kind text loc at ≡ ok r)
unfolding reservation
reservation_ok r_pcrel text loc at e inside =
    let (n, p) = pcrel_ok text loc at (inside e) in (epilogue 0 n, rw p)
reservation_ok _ text loc at e inside = (_, refl)

module _ (no_epilogues : Bool) (text : List ℕ) (base : ℕ) where
  -- One round leaves the code before as it is, and puts the epilogue behind it.
  abbrev Round : Reloc → List ℕ → Type 0
  Round loc code =
      (loc' : Reloc) × (rest : List ℕ) × (reserve_one amd64 no_epilogues text base loc code
        ≡ ok (loc', code ++ rest))
      × (length (code ++ rest) % 8 ≡ 0)
      × Placed (length code - base) loc' (length (code ++ rest) - base)

  round :
      (loc : Reloc) (code : List ℕ)
      → base ≤ length code
      → length code % 8 ≡ 0
      → IsInside text loc
      → loc.epilogue_size ≡ 0
      → Round loc code
  unfolding reserve_one create_arch_nops
  round loc code b a inside fresh =
      elim (Bool-cases (no_epilogues && not (starts_with loc.sym.name type_string_prefix))) [
        | inl e ↦
            (loc, [], rw (e, append-nil code), omega (arith, length-append code []), inl fresh)
        | inr e ↦
            let (r, p) = reservation_ok loc.kind text loc (length code - base) refl inside in
            placed e r p
      ]
    where
      placed :
          no_epilogues && not (starts_with loc.sym.name type_string_prefix) ≡ false
          → (r : Reservation) → reservation loc.kind text loc (length code - base) ≡ ok r
          → Round loc code
      placed e nothing p =
          let (rest, q, m) = aligned code in (loc, rest, rw (e, p, reserve_one, q), m, inl fresh)
      placed e (epilogue pad size) p =
          let (rest, q, m) = aligned (code ++ create_x86_nops (size + pad)) in
          (
            record loc { epilogue_offset = length code - base + pad; epilogue_size = size },
            create_x86_nops (size + pad) ++ rest,
            rw (e, p, reserve_one, q)
                (ap
                  (λ c. ok (
                    record loc { epilogue_offset = length code - base + pad; epilogue_size = size },
                    c,
                  ))
                  (append_assoc code (create_x86_nops (size + pad)) rest)),
            omega (arith, m, ap length (append_assoc code (create_x86_nops (size + pad)) rest)),
            inr (
              omega arith,
              omega (
                arith,
                length-append {A = ℕ} code (create_x86_nops (size + pad) ++ rest),
                length-append (create_x86_nops (size + pad)) rest,
                length-replicate {A = ℕ} (size + pad) 0x90,
              ),
            ),
          )

  abbrev Rounds : List Reloc → List ℕ → Type 0
  Rounds locs code =
      (locs' : List Reloc) × (rest : List ℕ) × (reserve_loop amd64 no_epilogues text base locs code
        ≡ ok (locs', code ++ rest))
      × (length (code ++ rest) % 8 ≡ 0)
      × InOrder (length code - base) locs' (length (code ++ rest) - base)

  rounds :
      (locs : List Reloc) (code : List ℕ)
      → base ≤ length code
      → length code % 8 ≡ 0
      → AllInside text locs
      → Rounds locs code
  unfolding reserve_loop
  rounds [] code b a inside = (
    [],
    [],
    rw (append-nil code),
    omega (arith, length-append code []),
    omega (arith, length-append code []),
  )
  rounds (loc ∷ locs) code b a inside =
      let (loc', more, p, m, placed) = round loc code b a inside.0 inside.1 in
      let (locs', rest, q, n, order) =
        rounds locs (code ++ more) (omega (arith, length-append code more)) m inside.2 in
      (
        loc' ∷ locs',
        more ++ rest,
        rw (p, reserve_loop, q) (ap (λ c. ok (loc' ∷ locs', c)) (append_assoc code more rest)),
        omega (arith, n, ap length (append_assoc code more rest)),
        (
          length (code ++ more) - base,
          omega (arith, length-append code more),
          placed,
          subst (λ c. InOrder (length (code ++ more) - base) locs' (length c - base))
              (append_assoc code more rest) order,
        ),
      )

lower :
    (low low' high : ℕ) (locs : List Reloc)
    → low' ≤ low
    → InOrder low locs high
    → InOrder low' locs high
lower low low' high [] h order = omega arith
lower low low' high (loc ∷ locs) h (mid, le, inl none, order) = (mid, omega arith, inl none, order)
lower low low' high (loc ∷ locs) h (mid, le, inr within, order) =
    (mid, omega arith, inr (omega arith, within.1), order)

-- On amd64, adding a function whose PCREL fields lie inside its text, and whose relocations start
-- without an epilogue, succeeds: the code before it and its text stay as they are, the code ends at a multiple of 8, and the epilogues lie behind the
-- text and before that end, each behind those of the relocations before it, so that no two overlap.
pub add_text-InOrder :
    (no_epilogues : Bool) (text : List ℕ) (relocs : List Reloc) (code : List ℕ)
    → AllInside text relocs
    → (relocs' : List Reloc) × (rest : List ℕ) × (add_text amd64 no_epilogues text relocs code
        ≡ ok (length code, relocs', (code ++ text) ++ rest))
      × (length ((code ++ text) ++ rest) % 8 ≡ 0)
      × InOrder (length text) relocs' (length ((code ++ text) ++ rest) - length code)
unfolding add_text
add_text-InOrder no_epilogues text relocs code inside =
    let (pad, p, m) = aligned (code ++ text) in
    let (relocs', rest, q, n, order) =
      rounds no_epilogues text (length code) relocs ((code ++ text) ++ pad)
        (omega (arith, length-append (code ++ text) pad, length-append code text)) m inside in
    (
      relocs',
      pad ++ rest,
      rw (p, add_text, q)
          (ap (λ c. ok (length code, relocs', c)) (append_assoc (code ++ text) pad rest)),
      omega (arith, n, ap length (append_assoc (code ++ text) pad rest)),
      lower (length ((code ++ text) ++ pad) - length code) (length text) _ relocs'
          (omega (arith, length-append (code ++ text) pad, length-append code text))
          (subst
            (λ c.
              InOrder (length ((code ++ text) ++ pad) - length code) relocs'
                (length c - length code))
            (append_assoc (code ++ text) pad rest) order),
    )
