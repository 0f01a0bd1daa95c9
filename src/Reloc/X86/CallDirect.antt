-- ===== src/Reloc/X86/CallDirect.antt =====
-- The CALL that `relocateCALL` leaves where the target is in reach.
use goloader.Shared.{
  ℕ, ◌+◌, ◌-◌, ◌≡◌, inl, ◌∙◌, true, false, Bool, List, [], ◌∷◌, some, Option, arith,
}
use goloader.Shared.Word.{add64, u32, overflows32, sext32-u32, sext32}
use goloader.Shared.Outcome.{ok}
use goloader.Shared.Bytes.{byte_at, u32_at, le_bytes}
use goloader.Shared.Bytes.Patch.{u32_at-patch, byte_at-patch_apart}
use goloader.Segment.{Segment, Reloc}
use goloader.Reloc.X86.{relocate_call, displacement, needs_epilogue}
use goloader.Reloc.X86.Machine.{performs, decode, jmp, detour}
use goloader.Reloc.X86.CallCode.{CallSite, direct_code, direct_runs, padding}

pub call_eq : {t u p q : ℕ} → t ≡ u → p ≡ q → ◌≡◌ {A = Option (ℕ × ℕ)} (some (t, p)) (some (u, q))
call_eq e f = cc

module _ (b : List ℕ) (base pos : ℕ) where
  pub performs_call :
      byte_at b pos ≡ 0xE8
      → performs b base pos ≡ some (add64 (base + (pos + 5)) (sext32 (u32_at b (pos + 1))), pos + 5)
  unfolding performs decode
  performs_call e = rw (e, performs, decode)

  pub performs-detour :
      {p : ℕ} {r : Option (ℕ × ℕ)}
      → decode b base pos ≡ jmp p
      → detour b base p ≡ r
      → performs b base pos ≡ r
  unfolding performs
  performs-detour e f = rw (e, performs) f

module _ (force : Bool) (addr : ℕ) (loc : Reloc) (s : Segment) (site : CallSite loc s) where
  abbrev pub Works : Type 0
  Works =
      (s' : Segment) × (relocate_call force true addr loc s ≡ ok s')
      × (performs s'.code_byte s.code_base (loc.offset - 1)
          ≡ some (add64 addr loc.add, loc.offset + 4))

  direct_target :
      overflows32 (displacement true addr loc s) ≡ false
      → add64 (s.code_base + (loc.offset - 1 + 5)) (sext32 (u32 (displacement true addr loc s)))
        ≡ add64 addr loc.add
  unfolding displacement
  direct_target e =
      rw (sext32-u32 (displacement true addr loc s) (omega arith) e)
        (omega (arith, site.field_size, site.after_opcode))

  in_range :
      needs_epilogue force (displacement true addr loc s) loc ≡ false
      → overflows32 (displacement true addr loc s) ≡ false
  unfolding needs_epilogue
  in_range e = ground arith

  abbrev pad : ℕ × List ℕ
  pad = padding force addr loc s site

  abbrev field : ℕ → ℕ × List ℕ
  field v = (loc.offset, le_bytes 4 (u32 v))

  opcode_kept : byte_at (direct_code force addr loc s site) (loc.offset - 1) ≡ 0xE8
  opcode_kept =
      byte_at-patch_apart s.code_byte (pad ∷ field (displacement true addr loc s) ∷ [])
        (loc.offset - 1)
        (inl (omega (arith, site.epilogue_after)), (inl (omega (arith, site.after_opcode)), tt))
      ∙ site.opcode

  field_read :
      u32_at (direct_code force addr loc s site) (loc.offset - 1 + 1)
      ≡ u32 (displacement true addr loc s)
  unfolding u32_at
  field_read =
      u32_at-patch s.code_byte (pad ∷ []) loc.offset
        (le_bytes 4 (u32 (displacement true addr loc s))) [] (loc.offset - 1 + 1) 0
        (omega (arith, site.after_opcode))
        (omega (arith, site.epilogue_after, site.epilogue_inside)) (omega arith) tt
      ∙ omega arith

  pub direct : needs_epilogue force (displacement true addr loc s) loc ≡ false → Works
  direct e = (
    record s { code_byte = direct_code force addr loc s site },
    direct_runs force addr loc s site e,
    performs_call (direct_code force addr loc s site) s.code_base (loc.offset - 1) opcode_kept
        ∙ call_eq (rw field_read (direct_target (in_range e))) (omega (arith, site.after_opcode)),
  )
