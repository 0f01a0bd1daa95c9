-- ===== src/Reloc/X86/Pcrel/CmplCode.antt =====
-- What `relocatePCREL` leaves of an instruction whose operand is out of reach.
use goloader.Shared.{
  ℕ, ◌+◌, ◌-◌, ◌≤◌, ◌<◌, ◌≡◌, ◌∙◌, refl, ap, true, List, [], ◌∷◌, length, arith, Bool-cases, inl,
  inr, le→leb, lt→ltb,
}
use goloader.Shared.Word.{add64, sub64, u32, u8}
use goloader.Shared.Outcome.{ok}
use goloader.Shared.Bytes.{
  byte_at, u64_at, le_bytes, length-write_at, put_byte_ok, put_uint32_ok, put_uint64_ok,
  copy_from_ok, get_byte, le_value,
}
use goloader.Shared.Bytes.Patch.{
  Writes, AllApart, patch, length-patch, byte_at-patch, u64_at-patch, byte_at-patch_apart,
  slice-patch_apart,
}
use goloader.Segment.{Segment, Reloc}
use goloader.Reloc.MaxExtra
use goloader.Reloc.AsmBytes.{x86_jmp_short_code, x86_jmp_near_code, x86_replace_cmpl_code}
use goloader.Reloc.X86.{fits_short, epilogue_distance}
use goloader.Reloc.X86.Pcrel.{
  cmpl, form_of, patch_site, return_jump, fill_epilogue, pcrel_far, site_bytes,
}

-- The writes of the jump back, wherever they lie: none is before the end of the epilogue's code.
module _ (loc : Reloc) (epi : ℕ) (t : Segment) (room : epi + 5 ≤ length t.code_byte) where
  abbrev pub back : ℕ
  back = sub64 (loc.offset + loc.size) (epi + 2)

  abbrev pub Returns : Type 0
  Returns =
      (ws : Writes) × (return_jump loc epi t ≡ ok (record t { code_byte = patch t.code_byte ws }))
      × ((p n : ℕ) → p + n ≤ epi → AllApart p n ws)

  pub return_jump_writes : Returns
  unfolding return_jump
  return_jump_writes = elim (Bool-cases (fits_short back)) [
    | inl f ↦ (
      (epi, x86_jmp_short_code) ∷ (epi + 1, le_bytes 1 (u8 back)) ∷ [],
      rw (
        f,
        copy_from_ok t.code_byte epi x86_jmp_short_code (omega arith),
        return_jump,
        put_byte_ok (patch t.code_byte ((epi, x86_jmp_short_code) ∷ [])) (epi + 1) (u8 back)
            (omega (arith, length-write_at)),
      ),
      λ p n h. omega arith,
    )
    | inr f ↦ (
      (epi, x86_jmp_near_code) ∷ (epi + 1, le_bytes 4 (u32 (sub64 back 3))) ∷ [],
      rw (
        f,
        copy_from_ok t.code_byte epi x86_jmp_near_code (omega arith),
        return_jump,
        put_uint32_ok (patch t.code_byte ((epi, x86_jmp_near_code) ∷ [])) (epi + 1)
            (u32 (sub64 back 3)) (omega (arith, length-write_at)),
      ),
      λ p n h. omega arith,
    )
  ]

-- A CMPL of the text, three bytes into it at least, with its comparator inside the text and its
-- epilogue behind it.
pub record CmplSite (loc : Reloc) (t : Segment) : Type 0 where
  pub after_rex : 3 ≤ loc.offset
  pub field_size : loc.size ≡ 4
  pub opcode : byte_at t.code_byte (loc.offset - 2) ≡ 0x83
  pub epilogue_after : loc.offset + 5 ≤ loc.epilogue_offset
  pub epilogue_inside : loc.epilogue_offset + loc.epilogue_size ≤ length t.code_byte
  pub epilogue_room : MaxExtra.pcrel_cmpl_near ≤ loc.epilogue_size

module _ (addr : ℕ) (loc : Reloc) (t : Segment) (site : CmplSite loc t) where
  abbrev pub comparator : ℕ
  comparator = byte_at t.code_byte (loc.offset + loc.size)

  abbrev pub epi : ℕ
  epi = loc.epilogue_offset

  abbrev pub site_write : ℕ × List ℕ
  site_write = (loc.offset - 2, site_bytes cmpl)

  abbrev pub field_write : ℕ × List ℕ
  field_write = (loc.offset - 2 + 1, le_bytes 4 (u32 (add64 (epilogue_distance true loc t) 1)))

  abbrev pub code_write : ℕ × List ℕ
  code_write = (epi, x86_replace_cmpl_code)

  abbrev pub comparator_write : ℕ × List ℕ
  comparator_write = (epi + 14, le_bytes 1 comparator)

  abbrev pub address_write : ℕ × List ℕ
  address_write = (epi + 3, le_bytes 8 (add64 addr (add64 loc.add 1)))

  abbrev pub body : List ℕ
  body =
      patch t.code_byte
        (site_write ∷ field_write ∷ code_write ∷ comparator_write ∷ address_write ∷ [])

  length-body : length body ≡ length t.code_byte
  length-body =
      length-patch t.code_byte
        (site_write ∷ field_write ∷ code_write ∷ comparator_write ∷ address_write ∷ [])

  site_patched :
      patch_site true cmpl loc t
      ≡ ok (record t { code_byte = patch t.code_byte (site_write ∷ field_write ∷ []) })
  unfolding patch_site epilogue_distance
  site_patched = rw (
    copy_from_ok t.code_byte (loc.offset - 2) (site_bytes cmpl)
        (omega (arith, site.epilogue_after, site.epilogue_inside)),
    patch_site,
    put_uint32_ok (patch t.code_byte (site_write ∷ [])) (loc.offset - 2 + 1) _
        (omega (arith, length-write_at, site.epilogue_after, site.epilogue_inside)),
  )

  pub room_for_return : epi + 16 + 5 ≤ length body
  room_for_return = omega (arith, length-body, site.epilogue_inside, site.epilogue_room)

  pub returns : Returns loc (epi + 16) (record t { code_byte = body }) room_for_return
  returns = return_jump_writes loc (epi + 16) (record t { code_byte = body }) room_for_return

  abbrev pub done : List ℕ
  done = patch body returns.0

  filled :
      fill_epilogue true addr cmpl comparator loc
        (record t { code_byte = patch t.code_byte (site_write ∷ field_write ∷ []) })
      ≡ ok (record t { code_byte = done })
  unfolding fill_epilogue
  filled = rw (
    copy_from_ok (patch t.code_byte (site_write ∷ field_write ∷ [])) epi x86_replace_cmpl_code
        (omega (arith, length-write_at, site.epilogue_inside)),
    fill_epilogue,
    put_byte_ok (patch t.code_byte (site_write ∷ field_write ∷ code_write ∷ [])) (epi + 14)
        comparator (omega (arith, length-write_at, site.epilogue_inside, site.epilogue_room)),
    put_uint64_ok
        (patch t.code_byte (site_write ∷ field_write ∷ code_write ∷ comparator_write ∷ []))
        (epi + 3) (add64 addr (add64 loc.add 1))
        (omega (arith, length-write_at, site.epilogue_inside, site.epilogue_room)),
    returns.1,
  )

  cmpl_form : (second rex v : ℕ) → form_of 0x83 second rex v ≡ ok cmpl
  unfolding form_of
  cmpl_form second rex v = refl

  pub far_runs : pcrel_far true addr loc t ≡ ok (record t { code_byte = done })
  unfolding pcrel_far get_byte
  far_runs = rw (
    lt→ltb (loc.offset + loc.size) (length t.code_byte)
        (omega (arith, site.field_size, site.epilogue_after, site.epilogue_inside)),
    pcrel_far,
    lt→ltb (loc.offset - 2) (length t.code_byte)
        (omega (arith, site.epilogue_after, site.epilogue_inside)),
    le→leb 3 loc.offset site.after_rex,
    site.opcode,
    cmpl_form (byte_at t.code_byte (loc.offset - 1)) (byte_at t.code_byte (loc.offset - 3)) _,
    site_patched,
    filled,
  )

  module _ (is_byte : comparator < 256) where
    pub comparator_kept : byte_at done (epi + 14) ≡ comparator
    unfolding byte_at
    comparator_kept =
        byte_at-patch_apart body returns.0 (epi + 14) (returns.2 (epi + 14) 1 (omega arith))
        ∙ byte_at-patch t.code_byte (site_write ∷ field_write ∷ code_write ∷ []) (epi + 14)
            (le_bytes 1 comparator) (address_write ∷ []) (epi + 14) 0 (omega arith)
            (omega (arith, site.epilogue_inside, site.epilogue_room)) (omega arith) (omega arith)
        ∙ omega (arith, is_byte)

  pub address_put : u64_at done (epi + 3) ≡ add64 addr (add64 loc.add 1)
  unfolding u64_at
  address_put =
      ap le_value
        (slice-patch_apart body returns.0 (epi + 3) 8 (returns.2 (epi + 3) 8 (omega arith)))
      ∙ u64_at-patch t.code_byte (site_write ∷ field_write ∷ code_write ∷ comparator_write ∷ [])
          (epi + 3) (le_bytes 8 (add64 addr (add64 loc.add 1))) [] (epi + 3) 0 (omega arith)
          (omega (arith, site.epilogue_inside, site.epilogue_room)) (omega arith) tt
      ∙ omega arith

  pub comparator_lost : byte_at done (loc.offset + loc.size) ≡ 0x90
  unfolding byte_at
  comparator_lost =
      byte_at-patch_apart body returns.0 (loc.offset + loc.size)
        (returns.2 (loc.offset + loc.size) 1 (omega (arith, site.field_size, site.epilogue_after)))
      ∙ byte_at-patch t.code_byte [] (loc.offset - 2) (site_bytes cmpl)
          (field_write ∷ code_write ∷ comparator_write ∷ address_write ∷ []) (loc.offset + loc.size)
          6 (omega (arith, site.field_size, site.after_rex))
          (omega (arith, site.epilogue_after, site.epilogue_inside)) (omega arith)
          (omega (arith, site.field_size, site.epilogue_after, site.after_rex))
