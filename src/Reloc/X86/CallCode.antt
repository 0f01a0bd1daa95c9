-- ===== src/Reloc/X86/CallCode.antt =====
-- The code that `relocateCALL` leaves, on each of its branches.
use goloader.Shared.{
  ℕ, ◌+◌, ◌-◌, ◌≤◌, ◌<◌, ◌^◌, ◌≡◌, ◌⊎◌, true, false, Bool, List, [], ◌∷◌, length, take, arith,
  le→leb, ne→==, ◌≢◌,
}
use goloader.Shared.Word.{add64, sub64, u32, u8}
use goloader.Shared.Outcome.{ok}
use goloader.Shared.Bytes.{
  byte_at, le_bytes, length-write_at, put_byte_ok, put_uint32_ok, put_uint64_ok, copy_from_ok,
  copy_within_ok,
}
use goloader.Shared.Bytes.Patch.{Writes, patch}
use goloader.Segment.{Segment, Reloc}
use goloader.Reloc.AsmBytes.{
  create_x86_nops, x86_call_far_code, x86_jmp_short_code, x86_jmp_near_code,
}
use goloader.Reloc.MaxExtra
use goloader.Reloc.X86.{
  relocate_call, displacement, needs_epilogue, epilogue_distance, far_call, fits_short,
}

-- A CALL rel32 of a loaded text whose epilogue lies behind it and has the room that the linker
-- means to reserve: the long form's, or the short form's where a short jump reaches back.
pub record CallSite (loc : Reloc) (s : Segment) : Type 0 where
  pub field_size : loc.size ≡ 4
  pub after_opcode : 0 < loc.offset
  pub opcode : byte_at s.code_byte (loc.offset - 1) ≡ 0xE8
  pub epilogue_after : loc.offset + 4 ≤ loc.epilogue_offset
  pub epilogue_inside : loc.epilogue_offset + loc.epilogue_size ≤ length s.code_byte
  pub loaded : s.code_base + length s.code_byte < 2 ^ 64
  pub below_2_gb : length s.code_byte < 2 ^ 31

-- The room that the epilogue needs.
abbrev pub HasRoom : Reloc → Type 0
HasRoom loc =
    (MaxExtra.call_near ≤ loc.epilogue_size)
    ⊎ ((MaxExtra.call_short ≤ loc.epilogue_size)
        × (fits_short (sub64 (loc.offset + loc.size) (loc.epilogue_offset + 6 + 2)) ≡ true))

-- What `far_call` writes, by the form of its jump back.
module _ (addr : ℕ) (loc : Reloc) (s : Segment)
    (room : loc.epilogue_offset + MaxExtra.call_short ≤ length s.code_byte) where
  abbrev pub ret : ℕ
  ret = sub64 (loc.offset + loc.size) (loc.epilogue_offset + 6 + 2)

  abbrev pub at : ℕ
  at = loc.epilogue_offset + 6

  abbrev pub opened : List ℕ
  opened = patch s.code_byte ((loc.epilogue_offset, x86_call_far_code) ∷ [])

  abbrev pub calls : ℕ → Writes
  calls n = (loc.epilogue_offset, x86_call_far_code) ∷ (at - 4, le_bytes 4 n) ∷ []

  abbrev pub called : ℕ → List ℕ
  called n = patch s.code_byte (calls n)

  abbrev pub short_detour : List ℕ
  short_detour = patch (called 2) (
      (at, x86_jmp_short_code)
      ∷ (at + 1, le_bytes 1 (u8 ret))
      ∷ (at + 2, le_bytes 8 (add64 addr loc.add))
      ∷ [])

  abbrev pub near_detour : List ℕ
  near_detour = patch (called 5) (
      (at, x86_jmp_near_code)
      ∷ (at + 1, le_bytes 4 (u32 (sub64 ret 3)))
      ∷ (at + 5, le_bytes 8 (add64 addr loc.add))
      ∷ [])

  pub far_call_short :
      fits_short ret ≡ true
      → far_call true addr loc s ≡ ok (record s { code_byte = short_detour }, at + 10)
  unfolding far_call
  far_call_short e = rw (
    copy_from_ok s.code_byte loc.epilogue_offset x86_call_far_code (omega arith),
    far_call,
    e,
    put_uint32_ok opened (at - 4) 2 (omega (arith, length-write_at)),
    copy_from_ok (called 2) at x86_jmp_short_code (omega (arith, length-write_at)),
    put_byte_ok (patch (called 2) ((at, x86_jmp_short_code) ∷ [])) (at + 1) (u8 ret)
        (omega (arith, length-write_at)),
    put_uint64_ok (patch (called 2) ((at, x86_jmp_short_code) ∷ (at + 1, le_bytes 1 (u8 ret)) ∷ []))
        (at + 2) (add64 addr loc.add) (omega (arith, length-write_at)),
  )

  pub far_call_near :
      loc.epilogue_offset + MaxExtra.call_near ≤ length s.code_byte
      → fits_short ret ≡ false
      → far_call true addr loc s ≡ ok (record s { code_byte = near_detour }, at + 13)
  unfolding far_call
  far_call_near more e = rw (
    copy_from_ok s.code_byte loc.epilogue_offset x86_call_far_code (omega arith),
    far_call,
    e,
    put_uint32_ok opened (at - 4) 5 (omega (arith, length-write_at)),
    copy_from_ok (called 5) at x86_jmp_near_code (omega (arith, length-write_at)),
    put_uint32_ok (patch (called 5) ((at, x86_jmp_near_code) ∷ [])) (at + 1) (u32 (sub64 ret 3))
        (omega (arith, length-write_at)),
    put_uint64_ok
        (patch (called 5) ((at, x86_jmp_near_code) ∷ (at + 1, le_bytes 4 (u32 (sub64 ret 3))) ∷ []))
        (at + 5) (add64 addr loc.add) (omega (arith, length-write_at)),
  )

module _ (force : Bool) (addr : ℕ) (loc : Reloc) (s : Segment) (site : CallSite loc s) where
  abbrev pub padding : ℕ × List ℕ
  padding = (loc.epilogue_offset, take loc.epilogue_size (create_x86_nops loc.epilogue_size))

  abbrev pub direct_code : List ℕ
  direct_code =
      patch s.code_byte
        (padding ∷ (loc.offset, le_bytes 4 (u32 (displacement true addr loc s))) ∷ [])

  pub direct_runs :
      needs_epilogue force (displacement true addr loc s) loc ≡ false
      → relocate_call force true addr loc s ≡ ok (record s { code_byte = direct_code })
  unfolding relocate_call
  direct_runs e = ground (
    arith,
    copy_within_ok s.code_byte loc.epilogue_offset loc.epilogue_size
        (create_x86_nops loc.epilogue_size),
    length-write_at s.code_byte loc.epilogue_offset
        (take loc.epilogue_size (create_x86_nops loc.epilogue_size)),
    put_uint32_ok (patch s.code_byte (padding ∷ [])) loc.offset
        (u32 (displacement true addr loc s)),
  )

  -- The code with the jump to the epilogue.
  abbrev pub entered : List ℕ
  entered = patch s.code_byte (padding ∷ (loc.offset - 1, 0xE9 ∷ []) ∷ [])

  abbrev pub entered_segment : Segment
  entered_segment = record s { code_byte = entered }

  pub far_runs :
      {detour : List ℕ} {end : ℕ}
      → needs_epilogue force (displacement true addr loc s) loc ≡ true
      → loc.epilogue_size ≢ 0
      → far_call true addr loc entered_segment ≡ ok (record s { code_byte = detour }, end)
      → length detour ≡ length s.code_byte
      → relocate_call force true addr loc s
        ≡ ok (record s {
          code_byte =
              patch detour ((loc.offset, le_bytes 4 (u32 (epilogue_distance true loc s))) ∷ []);
        })
  unfolding relocate_call epilogue_distance
  far_runs {detour} e some_room runs same = rw (
    copy_within_ok s.code_byte loc.epilogue_offset loc.epilogue_size
        (create_x86_nops loc.epilogue_size) site.epilogue_inside,
    relocate_call,
    e,
    ne→== loc.epilogue_size 0 some_room,
    le→leb 1 loc.offset site.after_opcode,
    put_byte_ok (patch s.code_byte (padding ∷ [])) (loc.offset - 1) 0xE9
        (omega (arith, length-write_at)),
    runs,
    put_uint32_ok detour loc.offset (u32 (epilogue_distance true loc s)) (omega arith),
  )
