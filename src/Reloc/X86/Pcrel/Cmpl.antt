-- ===== src/Reloc/X86/Pcrel/Cmpl.antt =====
-- `relocatePCREL` on a CMPL whose operand is out of reach.
use mathlib.Core.Option
use goloader.Shared.{
  ℕ, ◌+◌, ◌-◌, ◌≤◌, ◌<◌, ◌≡◌, ◌∙◌, true, Bool, List, [], ◌∷◌, none, length, take, arith, inl, ne→==,
  some, drop,
}
use goloader.Shared.Word.{add64}
use goloader.Shared.Outcome.{ok}
use goloader.Shared.Bytes.{byte_at, u64_at, copy_within_ok, write_at, zeros}
use goloader.Shared.Bytes.Patch.{patch, length-patch, byte_at-patch_apart}
use goloader.Segment.{Segment, Reloc}
use goloader.Reloc.{Applied, applied_at}
use goloader.Reloc.AsmBytes.{create_x86_nops}
use goloader.Reloc.X86.{displacement, needs_epilogue}
use goloader.Reloc.X86.Pcrel.{relocate_pcrel}
use goloader.Reloc.X86.Pcrel.Again.{restore_first, length-found}
use goloader.Reloc.X86.Pcrel.CmplCode.{
  CmplSite, done, far_runs, comparator_kept, address_put, comparator_lost,
}

module _ (force : Bool) (addr : ℕ) (loc : Reloc) (s : Segment) (m : Applied)
    (first : applied_at (s.code_base + loc.offset) m ≡ none) (site : CmplSite loc s)
    (far : needs_epilogue force (displacement true addr loc s) loc ≡ true)
    (is_byte : byte_at s.code_byte (loc.offset + loc.size) < 256) where
  abbrev pad : ℕ × List ℕ
  pad = (loc.epilogue_offset, take loc.epilogue_size (create_x86_nops loc.epilogue_size))

  abbrev padded : Segment
  padded = record s { code_byte = patch s.code_byte (pad ∷ []) }

  kept : (p : ℕ) → p + 1 ≤ loc.epilogue_offset → byte_at padded.code_byte p ≡ byte_at s.code_byte p
  kept p h = byte_at-patch_apart s.code_byte (pad ∷ []) p (inl h, tt)

  padded_site : CmplSite loc padded
  padded_site = record {
    after_rex = site.after_rex;
    field_size = site.field_size;
    opcode = kept (loc.offset - 2) (omega (arith, site.epilogue_after)) ∙ site.opcode;
    epilogue_after = site.epilogue_after;
    epilogue_inside = omega (arith, length-patch s.code_byte (pad ∷ []), site.epilogue_inside);
    epilogue_room = site.epilogue_room;
  }

  kept_comparator :
      byte_at padded.code_byte (loc.offset + loc.size) ≡ byte_at s.code_byte (loc.offset + loc.size)
  kept_comparator =
      kept (loc.offset + loc.size) (omega (arith, site.field_size, site.epilogue_after))

  abbrev cmpl_code : List ℕ
  cmpl_code = done addr loc padded padded_site

  cmpl_runs :
      relocate_pcrel force true addr loc s m
      ≡ ok (
        record s { code_byte = cmpl_code },
        (
          s.code_base + loc.offset,
          write_at (zeros (loc.size + 2)) 0 (drop (loc.offset - 2) s.code_byte),
        )
            ∷ m,
      )
  unfolding relocate_pcrel
  cmpl_runs = rw (
    restore_first loc s m first (omega (arith, site.after_rex)) (
        omega
          (arith, site.field_size, site.epilogue_after, site.epilogue_inside, site.epilogue_room)),
    relocate_pcrel,
    copy_within_ok s.code_byte loc.epilogue_offset loc.epilogue_size
        (create_x86_nops loc.epilogue_size) site.epilogue_inside,
    far,
    ne→== loc.epilogue_size 0 (omega (arith, site.epilogue_room)),
    far_runs addr loc padded padded_site,
  )

  -- A CMPL out of reach, relocated for the first time: the epilogue compares the byte at the
  -- target's address (one past the addend, which counts from the end of the longer instruction)
  -- with the instruction's own comparator. In the text the comparator is overwritten by a NOP, and
  -- the bytes remembered for the next application end before it.
  pub relocate_pcrel-cmpl :
      (s' : Segment) × (m' : Applied) × (relocate_pcrel force true addr loc s m ≡ ok (s', m'))
      × (byte_at s'.code_byte (loc.epilogue_offset + 14)
          ≡ byte_at s.code_byte (loc.offset + loc.size))
      × (u64_at s'.code_byte (loc.epilogue_offset + 3) ≡ add64 addr (add64 loc.add 1))
      × (byte_at s'.code_byte (loc.offset + loc.size) ≡ 0x90)
      × (Option.map length (applied_at (s.code_base + loc.offset) m') ≡ some (loc.size + 2))
  unfolding applied_at
  relocate_pcrel-cmpl = (
    record s { code_byte = cmpl_code },
    (
      s.code_base + loc.offset,
      write_at (zeros (loc.size + 2)) 0 (drop (loc.offset - 2) s.code_byte),
    )
        ∷ m,
    cmpl_runs,
    comparator_kept addr loc padded padded_site (rw kept_comparator is_byte) ∙ kept_comparator,
    address_put addr loc padded padded_site,
    comparator_lost addr loc padded padded_site,
    ground (
      arith,
      length-found loc s m first (omega (arith, site.after_rex)) (
          omega (
            arith, site.field_size, site.epilogue_after, site.epilogue_inside, site.epilogue_room,
          )),
    ),
  )
