-- ===== src/Reloc/X86/CallRefused.antt =====
-- What `relocateCALL` does with a CALL that has no epilogue.
use goloader.Shared.{
  ℕ, ◌+◌, ◌≤◌, ◌≡◌, inl, inr, true, false, Bool, length, take, arith, Bool-cases, ◌⊎◌, ap, ◌∙◌, ◌<◌,
  ◌^◌, List, [], ◌∷◌,
}
use goloader.Shared.Word.{overflows32, add64, u32, sext32, sext32-u32}
use goloader.Shared.Outcome.{ok, err, epilogue_not_available}
use goloader.Shared.Bytes.{
  u32_at, le_bytes, write_at, length-write_at, copy_within, copy_within_ok, put_uint32,
}
use goloader.Shared.Bytes.Patch.{patch, u32_at-patch}
use goloader.Segment.{Segment, Reloc}
use goloader.Reloc.AsmBytes.{create_x86_nops}
use goloader.Reloc.X86.{relocate_call, displacement, needs_epilogue}

-- Where a CALL goes whose field is that of the relocation, for a displacement `d`, as the processor
-- counts it: from the end of the field, by 32 bits with a sign.
abbrev pub goes : Reloc → Segment → ℕ → ℕ
goes loc s d = add64 (s.code_base + (loc.offset + 4)) (sext32 d)

-- Some displacement of 32 bits leads to the address plus the addend.
abbrev pub InReach : ℕ → Reloc → Segment → Type 0
InReach addr loc s = (d : ℕ) × (d < 2 ^ 32) × (goes loc s d ≡ add64 addr loc.add)

module _ (force : Bool) (addr : ℕ) (loc : Reloc) (s : Segment) (unreserved : loc.epilogue_size ≡ 0)
    (inside : loc.epilogue_offset ≤ length s.code_byte) (at : 2 ≤ loc.offset)
    (field_inside : loc.offset + loc.size ≤ length s.code_byte) (four : loc.size ≡ 4) where
  unreserved_padding :
      copy_within s.code_byte loc.epilogue_offset loc.epilogue_size
        (create_x86_nops loc.epilogue_size)
      ≡ ok (
          write_at s.code_byte loc.epilogue_offset
            (take loc.epilogue_size (create_x86_nops loc.epilogue_size)))
  unreserved_padding = copy_within_ok s.code_byte _ _ _ (omega arith)

  padded_length :
      length (
        write_at s.code_byte loc.epilogue_offset
          (take loc.epilogue_size (create_x86_nops loc.epilogue_size)))
      ≡ length s.code_byte
  padded_length = length-write_at s.code_byte _ _

  out_of_reach :
      overflows32 (displacement true addr loc s) ≡ true
      → relocate_call force true addr loc s ≡ err epilogue_not_available
  unfolding relocate_call needs_epilogue
  out_of_reach e = ground (arith, unreserved_padding, padded_length)

  goes-displacement :
      overflows32 (displacement true addr loc s) ≡ false
      → goes loc s (u32 (displacement true addr loc s)) ≡ add64 addr loc.add
  unfolding displacement
  goes-displacement e =
      rw (sext32-u32 (displacement true addr loc s) (omega arith) e) (omega (arith, four))

  displacement_of :
      (d : ℕ)
      → d < 2 ^ 32
      → goes loc s d ≡ add64 addr loc.add
      → displacement true addr loc s ≡ sext32 d
  unfolding displacement
  displacement_of d h e = ground (arith, e, four, h)

  sext32_fits : (d : ℕ) → d < 2 ^ 32 → overflows32 (sext32 d) ≡ false
  sext32_fits d h = ground (arith, h)

  not-InReach : overflows32 (displacement true addr loc s) ≡ true → InReach addr loc s → ⊥
  not-InReach e (d, h, g) = let f = sext32_fits d h in let k = rw (displacement_of d h g) at e in cc

  abbrev code : List ℕ
  code = patch s.code_byte (
      (loc.epilogue_offset, take loc.epilogue_size (create_x86_nops loc.epilogue_size))
      ∷ (loc.offset, le_bytes 4 (u32 (displacement true addr loc s)))
      ∷ [])

  runs :
      overflows32 (displacement true addr loc s) ≡ false
      → relocate_call force true addr loc s ≡ ok (record s { code_byte = code })
  unfolding relocate_call needs_epilogue put_uint32
  runs e = ground (arith, unreserved_padding, padded_length)

  field_read : u32_at code loc.offset ≡ u32 (displacement true addr loc s)
  unfolding u32_at
  field_read =
      u32_at-patch s.code_byte
        ((loc.epilogue_offset, take loc.epilogue_size (create_x86_nops loc.epilogue_size)) ∷ [])
        loc.offset (le_bytes 4 (u32 (displacement true addr loc s))) [] loc.offset 0 (omega arith)
        (omega (arith, field_inside, four)) (omega arith) tt
      ∙ omega arith

  -- A CALL that no epilogue was reserved for is either refused, and then no displacement of 32 bits
  -- leads from the end of its field to the address plus the addend; or relocateCALL succeeds, and the
  -- displacement that it leaves in the field leads there.
  pub relocate_call-unreserved :
      ((relocate_call force true addr loc s ≡ err epilogue_not_available)
        × (InReach addr loc s → ⊥))
      ⊎ ((s' : Segment) × (relocate_call force true addr loc s ≡ ok s')
          × (goes loc s (u32_at s'.code_byte loc.offset) ≡ add64 addr loc.add))
  relocate_call-unreserved = elim (Bool-cases (overflows32 (displacement true addr loc s))) [
    | inl e ↦ inl (out_of_reach e, not-InReach e)
    | inr e ↦
        inr
          (record s { code_byte = code }, runs e, ap (goes loc s) field_read ∙ goes-displacement e)
  ]
