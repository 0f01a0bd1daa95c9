-- ===== src/Reloc/X86/Call.antt =====
-- `relocateCALL` makes the processor call the symbol, wherever it lies.
use goloader.Shared.{
  ℕ, ◌+◌, ◌-◌, ◌≤◌, ◌≡◌, inl, inr, ◌∙◌, refl, ap, true, false, Bool, List, [], ◌∷◌, some, Option,
  length, arith, Bool-cases, ◌⊎◌,
}
use goloader.Shared.Word.{add64, sub64, u32, overflows32, u8}
use goloader.Shared.Outcome.{ok}
use goloader.Shared.Bytes.{byte_at, u32_at, le_bytes}
use goloader.Shared.Bytes.Patch.{
  Writes, AllApart, patch, length-patch, byte_at-patch, u32_at-patch, byte_at-patch_apart,
}
use goloader.Segment.{Segment, Reloc}
use goloader.Reloc.MaxExtra
use goloader.Reloc.AsmBytes.{x86_call_far_code, x86_jmp_short_code, x86_jmp_near_code}
use goloader.Reloc.X86.{relocate_call, displacement, needs_epilogue, epilogue_distance, fits_short}
use goloader.Reloc.X86.Machine.{performs, decode, jmp, near_target}
use goloader.Reloc.X86.CallSite.{detour_short, detour_near, decode_jmp_near, near_target_lem}
use goloader.Reloc.X86.CallCode.{
  CallSite, HasRoom, far_runs, far_call_short, far_call_near, entered, entered_segment, padding,
}
use goloader.Reloc.X86.CallDirect.{call_eq, performs-detour, Works, direct}

module _ (force : Bool) (addr : ℕ) (loc : Reloc) (s : Segment) (site : CallSite loc s) where
  abbrev pad : ℕ × List ℕ
  pad = padding force addr loc s site

  abbrev field : ℕ → ℕ × List ℕ
  field v = (loc.offset, le_bytes 4 (u32 v))

  -- The detour: a jump to the epilogue, and whatever the epilogue does.
  abbrev dist : ℕ
  dist = epilogue_distance true loc s

  abbrev far_code : Writes → List ℕ
  far_code ws = patch (patch (entered force addr loc s site) ws) (field dist ∷ [])

  module _ (ws : Writes) (apart : AllApart (loc.offset - 1) 1 ws) where
    jmp_read : byte_at (far_code ws) (loc.offset - 1) ≡ 0xE9
    unfolding byte_at
    jmp_read =
        byte_at-patch_apart (patch (entered force addr loc s site) ws) (field dist ∷ [])
          (loc.offset - 1) (inl (omega (arith, site.after_opcode)), tt)
        ∙ byte_at-patch s.code_byte (pad ∷ []) (loc.offset - 1) (0xE9 ∷ []) ws (loc.offset - 1) 0
            (omega arith) (omega (arith, site.epilogue_after, site.epilogue_inside)) (omega arith)
            apart

    dist_read : u32_at (far_code ws) (loc.offset - 1 + 1) ≡ u32 dist
    unfolding u32_at
    dist_read =
        u32_at-patch (patch (entered force addr loc s site) ws) [] loc.offset
          (le_bytes 4 (u32 dist)) [] (loc.offset - 1 + 1) 0 (omega (arith, site.after_opcode))
          (omega (
            arith,
            site.epilogue_after,
            site.epilogue_inside,
            length-patch (entered force addr loc s site) ws,
            length-patch s.code_byte (pad ∷ (loc.offset - 1, 0xE9 ∷ []) ∷ []),
          ))
          (omega arith) tt
        ∙ omega arith

    dist_lem : dist ≡ sub64 loc.epilogue_offset (loc.offset - 1 + 5)
    unfolding epilogue_distance
    dist_lem = omega (
      arith, site.field_size, site.after_opcode, site.loaded, site.epilogue_after,
      site.epilogue_inside,
    )

    reaches : near_target s.code_base (loc.offset - 1 + 5) (u32 dist) ≡ loc.epilogue_offset
    reaches = rw dist_lem (
        near_target_lem s.code_base (loc.offset - 1 + 5) loc.epilogue_offset
          (omega (arith, site.after_opcode, site.loaded, site.epilogue_after, site.epilogue_inside))
          (omega (arith, site.loaded, site.epilogue_inside))
          (ground
            (arith, site.after_opcode, site.below_2_gb, site.epilogue_after, site.epilogue_inside)))

    entered_jmp : decode (far_code ws) s.code_base (loc.offset - 1) ≡ jmp loc.epilogue_offset
    entered_jmp =
        decode_jmp_near (far_code ws) s.code_base (loc.offset - 1) jmp_read
        ∙ ap jmp (rw dist_read reaches)

  abbrev far_return : ℕ
  far_return = sub64 (loc.offset + loc.size) (loc.epilogue_offset + 6 + 2)

  abbrev seg : Segment
  seg = entered_segment force addr loc s site

  length-entered : length (entered force addr loc s site) ≡ length s.code_byte
  length-entered = length-patch s.code_byte (pad ∷ (loc.offset - 1, 0xE9 ∷ []) ∷ [])

  abbrev target : ℕ
  target = add64 addr loc.add

  abbrev resume : ℕ
  resume = loc.offset + loc.size

  abbrev short_ws : Writes
  short_ws =
      (loc.epilogue_offset, x86_call_far_code)
      ∷ (loc.epilogue_offset + 6 - 4, le_bytes 4 2)
      ∷ (loc.epilogue_offset + 6, x86_jmp_short_code)
      ∷ (loc.epilogue_offset + 6 + 1, le_bytes 1 (u8 far_return))
      ∷ (loc.epilogue_offset + 6 + 2, le_bytes 8 target)
      ∷ []

  abbrev near_ws : Writes
  near_ws =
      (loc.epilogue_offset, x86_call_far_code)
      ∷ (loc.epilogue_offset + 6 - 4, le_bytes 4 5)
      ∷ (loc.epilogue_offset + 6, x86_jmp_near_code)
      ∷ (loc.epilogue_offset + 6 + 1, le_bytes 4 (u32 (sub64 far_return 3)))
      ∷ (loc.epilogue_offset + 6 + 5, le_bytes 8 target)
      ∷ []

  resumes : (t : ℕ) → ◌≡◌ {A = Option (ℕ × ℕ)} (some (t, resume)) (some (t, loc.offset + 4))
  resumes t = call_eq refl (omega (arith, site.field_size))

  module _ (e : needs_epilogue force (displacement true addr loc s) loc ≡ true) where
    module _ (room : MaxExtra.call_short ≤ loc.epilogue_size)
        (f : fits_short far_return ≡ true) where
      short_fits :
          loc.epilogue_offset + MaxExtra.call_short ≤ length (entered force addr loc s site)
      short_fits = omega (arith, length-entered, site.epilogue_inside)

      far_short : Works force addr loc s site
      far_short = (
        record s { code_byte = far_code short_ws },
        far_runs force addr loc s site e (omega arith) (far_call_short addr loc seg short_fits f)
            (length-patch (entered force addr loc s site) short_ws ∙ length-entered),
        performs-detour (far_code short_ws) s.code_base (loc.offset - 1)
              (entered_jmp short_ws (omega (arith, site.after_opcode, site.epilogue_after)))
              (detour_short (entered force addr loc s site) s.code_base loc.offset
                loc.epilogue_offset target (u32 dist) resume site.epilogue_after
                (omega (arith, site.field_size, site.epilogue_after)) (omega arith)
                (omega (arith, length-entered, site.loaded)) short_fits (ground (arith, f))
                (ground (arith, f)))
            ∙ resumes target,
      )

    module _ (room : MaxExtra.call_near ≤ loc.epilogue_size)
        (f : fits_short far_return ≡ false) where
      near_fits : loc.epilogue_offset + MaxExtra.call_near ≤ length (entered force addr loc s site)
      near_fits = omega (arith, length-entered, site.epilogue_inside)

      no_overflow : overflows32 (sub64 resume (loc.epilogue_offset + 6 + 5)) ≡ false
      no_overflow =
          ground
            (arith, site.field_size, site.epilogue_after, site.below_2_gb, site.epilogue_inside)

      far_near : Works force addr loc s site
      far_near = (
        record s { code_byte = far_code near_ws },
        far_runs force addr loc s site e (omega arith)
            (far_call_near addr loc seg (omega (arith, near_fits)) near_fits f)
            (length-patch (entered force addr loc s site) near_ws ∙ length-entered),
        performs-detour (far_code near_ws) s.code_base (loc.offset - 1)
              (entered_jmp near_ws (omega (arith, site.after_opcode, site.epilogue_after)))
              (detour_near (entered force addr loc s site) s.code_base loc.offset
                loc.epilogue_offset target (u32 dist) resume site.epilogue_after
                (omega (arith, site.field_size, site.epilogue_after)) (omega arith)
                (omega (arith, length-entered, site.loaded)) near_fits no_overflow)
            ∙ resumes target,
      )

-- At a CALL of the loaded text whose epilogue has the room it needs, or whose target is in reach,
-- `relocateCALL` succeeds, and from the CALL on the processor calls the symbol's address plus the
-- addend and goes on behind the CALL, whether it calls directly or by the epilogue.
pub relocate_call-performs :
    (force : Bool) (addr : ℕ) (loc : Reloc) (s : Segment)
    → CallSite loc s
    → HasRoom loc ⊎ (needs_epilogue force (displacement true addr loc s) loc ≡ false)
    → (s' : Segment) × (relocate_call force true addr loc s ≡ ok s')
      × (performs s'.code_byte s.code_base (loc.offset - 1)
          ≡ some (add64 addr loc.add, loc.offset + 4))
relocate_call-performs force addr loc s site (inr e) = direct force addr loc s site e
relocate_call-performs force addr loc s site (inl room) =
    elim (Bool-cases (needs_epilogue force (displacement true addr loc s) loc)) [
      | inr e ↦ direct force addr loc s site e
      | inl e ↦
          elim (Bool-cases
            (fits_short (sub64 (loc.offset + loc.size) (loc.epilogue_offset + 6 + 2)))) [
              | inl f ↦ far_short force addr loc s site e (short_room room) f
              | inr f ↦ far_near force addr loc s site e (near_room f room) f
            ]
    ]
  where
    short_room : HasRoom loc → MaxExtra.call_short ≤ loc.epilogue_size
    short_room (inl h) = omega arith
    short_room (inr h) = h.0

    near_room :
        fits_short (sub64 (loc.offset + loc.size) (loc.epilogue_offset + 6 + 2)) ≡ false
        → HasRoom loc
        → MaxExtra.call_near ≤ loc.epilogue_size
    near_room f (inl h) = h
    near_room f (inr h) = cc
