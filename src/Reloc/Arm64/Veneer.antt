-- ===== src/Reloc/Arm64/Veneer.antt =====
-- Where the processor goes from a BL out of reach, by the kind of its relocation.
use goloader.Shared.{
  ℕ, ◌+◌, ◌-◌, ◌*◌, ◌/◌, ◌%◌, ◌^◌, ◌≤◌, ◌<◌, ◌≡◌, ◌∙◌, ap, sym, refl, true, false, Bool, List, some,
  none, arith, ltb, if◌then◌else◌, ◌&&◌, ◌||◌, length,
}
use goloader.Shared.Word.{add64, sub64}
use goloader.Shared.Outcome.{ok}
use goloader.Shared.Bytes.{u32_at, u64_at, byte_at}
use goloader.Segment.{Segment, Reloc, r_callarm64, weak_callarm64}
use goloader.Reloc.AsmBytes.{arm_code, arm64_call_code}
use goloader.Reloc.MaxExtra
use goloader.Reloc.Arm64.{relocate_callarm, quot4, overflows24, is_callarm, is_callarm64}
use goloader.Reloc.Arm64.Machine.{decode, decode_at, bl, branches, calls}
use goloader.Reloc.Arm64.FarCode.{far_code, far_runs, far_stub, far_address, far_word}

-- A BL with a clear displacement in the loaded text, and its epilogue: behind it, a whole number of
-- words and less than 64 MB away, and large enough.
pub record BlSite (loc : Reloc) (s : Segment) : Type 0 where
  pub opcode : byte_at s.code_byte (loc.offset + 3) ≡ 0x94
  pub epilogue_after : loc.offset + 4 ≤ loc.epilogue_offset
  pub epilogue_aligned : (loc.epilogue_offset - loc.offset) % 4 ≡ 0
  pub epilogue_near : loc.epilogue_offset - loc.offset < 2 ^ 26
  pub epilogue_inside : loc.epilogue_offset + loc.epilogue_size ≤ length s.code_byte
  pub room : MaxExtra.callarm64 ≤ loc.epilogue_size
  pub loaded : s.code_base + length s.code_byte < 2 ^ 64

-- The test of relocateCALLARM that sends the BL to its epilogue.
abbrev pub IsFar : Bool → ℕ → Reloc → Segment → Type 0
IsFar force addr loc s =
    overflows24 (quot4 (sub64 (add64 addr loc.add) (s.code_base + loc.offset)))
      || (force && ltb 0 loc.epilogue_size)
    ≡ true

-- A BL with this distance in its word leads there.
bl_decodes :
    (pc d : ℕ)
    → d < 2 ^ 26
    → d % 4 ≡ 0
    → pc + d < 2 ^ 64
    → decode pc (d / 4 + 2 ^ 24 * 0x94) ≡ bl (pc + d)
unfolding decode
bl_decodes pc d small aligned h = ground arith

-- LDR X17 from 8 bytes on, and BR X17.
module _ (b : List ℕ) (base pos : ℕ) where
  branches-load :
      base + pos + 8 < 2 ^ 64
      → u32_at b pos ≡ 0x58000051
      → u32_at b (pos + 4) ≡ 0xD61F0220
      → branches b base pos ≡ some (u64_at b (pos + 8))
  unfolding branches decode
  branches-load loaded e f = rw (e, branches, f) (ap some (ap (u64_at b) (omega arith)))

  -- The word of 32-bit ARM code is no load.
  branches-arm : u32_at b pos ≡ 0xE51FF004 → branches b base pos ≡ none
  unfolding branches decode
  branches-arm e = rw (e, branches) refl

  calls-some :
      {p target : ℕ}
      → decode_at b base pos ≡ bl (base + p)
      → sub64 (base + p) base ≡ p
      → branches b base p ≡ some target
      → calls b base pos ≡ some (target, pos + 4)
  unfolding calls
  calls-some e f g = rw (e, calls, f, g) refl

  calls-none :
      {p : ℕ}
      → decode_at b base pos ≡ bl (base + p)
      → sub64 (base + p) base ≡ p
      → branches b base p ≡ none
      → calls b base pos ≡ none
  unfolding calls
  calls-none e f g = rw (e, calls, f, g) refl

module _ (force : Bool) (addr : ℕ) (loc : Reloc) (s : Segment) (site : BlSite loc s)
    (far : IsFar force addr loc s) where
  module _ (not_32_bit : is_callarm loc.kind ≡ false) where
    abbrev code : List ℕ
    code =
        far_code force addr loc s not_32_bit site.epilogue_after site.epilogue_inside far site.room

    runs : relocate_callarm force addr loc s ≡ ok (record s { code_byte = code })
    runs =
        far_runs force addr loc s not_32_bit site.epilogue_after site.epilogue_inside far site.room

    epilogue_position :
        s.code_base + loc.offset + (loc.epilogue_offset - loc.offset)
        ≡ s.code_base + loc.epilogue_offset
    epilogue_position = omega (arith, site.epilogue_after)

    -- The BL leads to the epilogue.
    bl_lem : decode_at code s.code_base loc.offset ≡ bl (s.code_base + loc.epilogue_offset)
    bl_lem =
        rw
          (
            far_word force addr loc s not_32_bit site.epilogue_after site.epilogue_inside far
                site.room site.epilogue_near,
            site.opcode,
          )
          (bl_decodes (s.code_base + loc.offset) (loc.epilogue_offset - loc.offset)
              site.epilogue_near site.epilogue_aligned
              (omega (arith, site.epilogue_after, site.epilogue_inside, site.room, site.loaded))
            ∙ ap bl epilogue_position)

    position : sub64 (s.code_base + loc.epilogue_offset) s.code_base ≡ loc.epilogue_offset
    position = omega (arith, site.epilogue_inside, site.room, site.loaded)

    abbrev stub : List ℕ
    stub = if is_callarm64 loc.kind then arm64_call_code else arm_code

    module _ (strong : is_callarm64 loc.kind ≡ true) where
      stub64 : stub ≡ arm64_call_code
      stub64 = rw strong refl

      read_word :
          (p k : ℕ)
          → p ≡ loc.epilogue_offset + k
          → k + 4 ≤ 8
          → u32_at code p ≡ u32_at arm64_call_code k
      read_word p k at h =
          ap (u32_at code) at
          ∙ far_stub force addr loc s not_32_bit site.epilogue_after site.epilogue_inside far
              site.room k (rw strong h)
          ∙ ap (λ t. u32_at t k) stub64

      read_address : u64_at code (loc.epilogue_offset + 8) ≡ add64 addr loc.add
      read_address =
          ap (λ t. u64_at code (loc.epilogue_offset + length t)) (sym stub64)
          ∙ far_address force addr loc s not_32_bit site.epilogue_after site.epilogue_inside far
              site.room

      reaches : branches code s.code_base loc.epilogue_offset ≡ some (add64 addr loc.add)
      unfolding u32_at
      reaches =
          branches-load code s.code_base loc.epilogue_offset
            (omega (arith, site.epilogue_inside, site.room, site.loaded))
            (read_word loc.epilogue_offset 0 (omega arith) (omega arith))
            (read_word (loc.epilogue_offset + 4) 4 refl (omega arith))
          ∙ ap some read_address

      pub far_calls : calls code s.code_base loc.offset ≡ some (add64 addr loc.add, loc.offset + 4)
      far_calls = calls-some code s.code_base loc.offset bl_lem position reaches

    module _ (weak : is_callarm64 loc.kind ≡ false) where
      stub32 : stub ≡ arm_code
      stub32 = rw weak refl

      read_word32 : u32_at code loc.epilogue_offset ≡ u32_at arm_code 0
      read_word32 =
          ap (u32_at code) (omega arith)
          ∙ far_stub force addr loc s not_32_bit site.epilogue_after site.epilogue_inside far
              site.room 0 (rw weak (omega arith))
          ∙ ap (λ t. u32_at t 0) stub32

      unreached : branches code s.code_base loc.epilogue_offset ≡ none
      unfolding u32_at
      unreached = branches-arm code s.code_base loc.epilogue_offset read_word32

      pub far_lost : calls code s.code_base loc.offset ≡ none
      far_lost = calls-none code s.code_base loc.offset bl_lem position unreached

  -- The relocation of a BL by R_CALLARM64, out of reach and with an epilogue: relocateCALLARM
  -- succeeds, and the processor goes from the BL by the epilogue to the address plus the addend, with
  -- the position behind the BL to return to.
  pub relocate_callarm-far :
      loc.kind ≡ r_callarm64
      → (s' : Segment) × (relocate_callarm force addr loc s ≡ ok s')
        × (calls s'.code_byte s.code_base loc.offset ≡ some (add64 addr loc.add, loc.offset + 4))
  relocate_callarm-far kind = (
    record s { code_byte = code (rw kind refl) },
    runs (rw kind refl),
    far_calls (rw kind refl) (rw kind refl),
  )

  -- The relocation of a BL by a weak R_CALLARM64, out of reach and with an epilogue: relocateCALLARM
  -- succeeds, but the code to which the BL then leads does not load and branch to an address, so that
  -- the BL makes no call by it.
  pub relocate_callarm-weak :
      loc.kind ≡ weak_callarm64
      → (s' : Segment) × (relocate_callarm force addr loc s ≡ ok s')
        × (calls s'.code_byte s.code_base loc.offset ≡ none)
  relocate_callarm-weak kind = (
    record s { code_byte = code (rw kind refl) },
    runs (rw kind refl),
    far_lost (rw kind refl) (rw kind refl),
  )
