-- ===== src/Reloc/Arm64.antt =====
-- The ARM relocations of relocate.go: `relocateADRP` and `relocateCALLARM`, with the helpers
-- `alignof`, `putUint24` and `signext24` of utils.go.
pub mod Encoding
pub mod Machine
pub mod Call
pub mod FarCode
pub mod Veneer
use goloader.Shared.{
  ℕ, ◌+◌, ◌-◌, ◌*◌, ◌/◌, ◌%◌, ◌^◌, Bool, true, false, ◌&&◌, ◌||◌, not, List, none, some, ◌∷◌, ltb,
  ◌==◌, if◌then◌else◌, length, drop, bit_and, bit_or,
}
use goloader.Shared.Word.{add64, sub64, neg64, slt, u32}
use goloader.Shared.Outcome.{
  Outcome, ok, err, checked, epilogue_not_available, got_distance_out_of_range,
  unaligned_load_store, ◌>>=◌,
}
use goloader.Shared.Bytes.{
  write_at, zeros, le_bytes, get_uint32, put_uint32, put_uint64, copy_from, copy_within,
}
use goloader.Segment.{
  Segment, Reloc, RelocType, r_callarm, r_callarm64, r_addrarm64, r_arm64_gotpcrel, r_arm64_tls_ie,
  r_arm64_pcrel_ldst8, r_arm64_pcrel_ldst16, r_arm64_pcrel_ldst32, r_arm64_pcrel_ldst64, ptr_size,
}
use goloader.Reloc.{on_code, on_reloc, reloc_byte, Applied, applied_at}
use goloader.Reloc.AsmBytes.{
  create_arm64_nops, arm64_b_code, arm_ldr_code_8_bytes, arm_ldr_code_12_bytes, arm_code,
  arm64_call_code,
}

-- alignof, for `int`s that are not negative
unfoldable pub alignof : ℕ → ℕ → ℕ
alignof i align = if i % align == 0 then i else i + (align - i % align)

-- putUint24
abbrev pub put_uint24 : List ℕ → ℕ → ℕ → Outcome (List ℕ)
put_uint24 b o v = checked (ltb (o + 2) (length b)) (write_at b o (le_bytes 3 v))

-- signext24: `(int32(x) << 8) >> 8`, as a 64-bit pattern
unfoldable pub signext24 : ℕ → ℕ
signext24 x = let low = x % 2 ^ 24 in if ltb low (2 ^ 23) then low else low + (2 ^ 64 - 2 ^ 24)

-- Division of a 64-bit pattern by 4, towards 0 as in Go.
unfoldable pub quot4 : ℕ → ℕ
quot4 v = if ltb v (2 ^ 63) then v / 4 else (2 ^ 64 - (2 ^ 64 - v) / 4) % 2 ^ 64

-- `int32` times 4, in `int32`, and back to `int`.
unfoldable pub times4_32 : ℕ → ℕ
times4_32 v = let w = (v * 4) % 2 ^ 32 in if ltb w (2 ^ 31) then w else w + (2 ^ 64 - 2 ^ 32)

-- `offset > 0x7FFFFF || offset < -0x800000`
abbrev pub overflows24 : ℕ → Bool
overflows24 v = slt 0x7FFFFF v || slt v (neg64 0x800000)

abbrev pub is_callarm : RelocType → Bool
is_callarm r_callarm = true
is_callarm _ = false

abbrev pub is_callarm64 : RelocType → Bool
is_callarm64 r_callarm64 = true
is_callarm64 _ = false

-- The far case: a branch to the epilogue, which loads the address and jumps to it.
unfoldable pub callarm_far : ℕ → Reloc → Segment → Outcome Segment
callarm_far addr loc s = do
  let low = bit_and loc.add 0xFFFFFF
  let add = (if is_callarm loc.kind then times4_32 (signext24 (low + 2)) else loc.add)
  let behind = (if is_callarm loc.kind then 8 else 0)
  let off = u32 (sub64 loc.epilogue_offset (loc.offset + behind)) / 4
  let stub = (if is_callarm64 loc.kind then arm64_call_code else arm_code)
  s ← on_code (λ b. put_uint24 b loc.offset off) s
  s ← on_code (λ b. copy_from b loc.epilogue_offset stub) s
  on_code (λ b. put_uint64 b (loc.epilogue_offset + length stub) (add64 addr add)) s

-- relocateCALLARM
unfoldable pub relocate_callarm : Bool → ℕ → Reloc → Segment → Outcome Segment
relocate_callarm force addr loc s = do
  let low = bit_and loc.add 0xFFFFFF
  let add = (if is_callarm loc.kind then times4_32 (signext24 low) else loc.add)
  s ← on_code (λ b. copy_within b loc.epilogue_offset loc.epilogue_size (zeros loc.epilogue_size)) s
  let offset = quot4 (sub64 (add64 addr add) (s.code_base + loc.offset))
  if overflows24 offset || (force && ltb 0 loc.epilogue_size)
      then (if loc.epilogue_size == 0 then err epilogue_not_available else callarm_far addr loc s)
      else (do
        val ← get_uint32 s.code_byte loc.offset
        let mask = (if is_callarm loc.kind then 0x00FFFFFF else 0x03FFFFFF)
        on_code (λ b. put_uint32 b loc.offset (bit_or val (bit_and (u32 offset) mask))) s)

-- R_ARM64_GOTPCREL and R_ARM64_TLS_IE read the address from their epilogue.
abbrev pub through_got : RelocType → Bool
through_got r_arm64_gotpcrel = true
through_got r_arm64_tls_ie = true
through_got _ = false

-- Saves or restores the two instructions; `mCode` is `relocByte[loc.Offset:]`.
unfoldable pub adrp_restore : Bool → Reloc → Segment → Applied → Outcome (Segment × Applied)
adrp_restore text loc s m =
    let b = reloc_byte text s in
    let key = (if text then s.code_base else s.data_base) + loc.offset in
    checked (ltb loc.offset (length b)) b >>= λ b. elim (applied_at key m) [
      | none ↦ ok (s, (key, write_at (zeros 8) 0 (drop loc.offset b)) ∷ m)
      | some old ↦ on_reloc text (λ b. copy_from b loc.offset old) s >>= λ s. ok (s, m)
    ]

-- `signedOffset > 1<<32 || signedOffset < -1<<32`
abbrev pub overflows33 : ℕ → Bool
overflows33 v = slt (2 ^ 32) v || slt v (neg64 (2 ^ 32))

-- B to a position `distance` away: 25 bits of the distance and a sign bit.
unfoldable pub branch_code : ℕ → Bool → ℕ
branch_code distance backwards =
    let code = bit_or arm64_b_code (bit_and (u32 distance / 2 ^ 2) 0x01FFFFFF) in
    if backwards then bit_or code 0x02000000 else code

abbrev pub is_addr : RelocType → Bool
is_addr r_addrarm64 = true
is_addr _ = false

-- The address in the epilogue, and the branches there and back.
unfoldable pub adrp_far : Bool → ℕ → Reloc → Segment → Outcome Segment
adrp_far text addr loc s = do
  let epi = loc.epilogue_offset
  adrp ← get_uint32 (reloc_byte text s) loc.offset
  s ←
      on_reloc text
        (λ b.
          put_uint32 b loc.offset
            (branch_code (sub64 epi loc.offset) (slt (sub64 epi loc.offset) 0)))
        s
  let register = bit_and adrp 0x1F
  (s, epi) ←
      (if is_addr loc.kind
        then (on_code (λ b. put_uint32 b epi (bit_or arm_ldr_code_8_bytes register)) s >>= λ s.
            ok (s, epi + 4))
        else (do
          s ← on_code (λ b. put_uint32 b epi (bit_or arm_ldr_code_12_bytes register)) s
          ld_or_st ← get_uint32 (reloc_byte text s) (loc.offset + 4)
          s ← on_code (λ b. put_uint32 b (epi + 4) ld_or_st) s
          ok (s, epi + 8)))
  let return = sub64 (loc.offset + ptr_size) epi
  s ← on_code (λ b. put_uint32 b epi (branch_code return (slt return 0))) s
  on_code (λ b. put_uint64 b (epi + 4) (add64 addr loc.add)) s

-- How far an ADD or a load counts its immediate: by bytes, or by the width of the load.
abbrev pub scale : RelocType → ℕ
scale r_arm64_pcrel_ldst16 = 1
scale r_arm64_pcrel_ldst32 = 2
scale r_arm64_pcrel_ldst64 = 3
scale r_arm64_gotpcrel = 3
scale r_arm64_tls_ie = 3
scale _ = 0

-- The page distance in the ADRP, and the offset in the page in the instruction after it.
unfoldable pub adrp_word : ℕ → ℕ → ℕ
adrp_word adrp signed_offset =
    let imm_low = bit_and (signed_offset / 2 ^ 12) 3 * 2 ^ 29 in
    let imm_high = bit_and (signed_offset / 2 ^ 14) 0x7FFFF * 2 ^ 5 in
    bit_or adrp (bit_or imm_low imm_high)

unfoldable pub offset_word : ℕ → ℕ → ℕ → ℕ
offset_word word signed_offset shift =
    bit_or word (bit_and signed_offset 0xFFF / 2 ^ shift * 2 ^ 10)

unfoldable pub adrp_near : Bool → ℕ → Reloc → Segment → Outcome Segment
adrp_near text signed_offset loc s = do
  adrp ← get_uint32 (reloc_byte text s) loc.offset
  word ← get_uint32 (reloc_byte text s) (loc.offset + 4)
  let shift = scale loc.kind
  s ← on_reloc text (λ b. put_uint32 b loc.offset (adrp_word adrp signed_offset)) s
  s ← on_reloc text (λ b. put_uint32 b (loc.offset + 4) (offset_word word signed_offset shift)) s
  if signed_offset % 2 ^ shift == 0 then ok s else err unaligned_load_store

-- relocateADRP
unfoldable pub relocate_adrp :
    Bool → Bool → ℕ → Reloc → Segment → Applied → Outcome (Segment × Applied)
relocate_adrp force text addr loc s m = do
  let page = (s.code_base + loc.offset) % 2 ^ 64 / 2 ^ 12 * 2 ^ 12
  (s, m) ← adrp_restore text loc s m
  nops ← create_arm64_nops loc.epilogue_size
  s ← on_code (λ b. copy_within b loc.epilogue_offset loc.epilogue_size nops) s
  let direct = sub64 (add64 addr loc.add) page
  (s, signed_offset) ←
      (if through_got loc.kind
        then (if ltb loc.epilogue_offset loc.offset
              || ltb (2 ^ 32) (loc.epilogue_offset - loc.offset)
            then err got_distance_out_of_range
            else (do
              s ← on_reloc text (λ b. put_uint64 b loc.epilogue_offset (add64 addr loc.add)) s
              ok (s, alignof (sub64 (s.code_base + loc.epilogue_offset) page) ptr_size)))
        else ok (s, direct))
  s ←
      (if overflows33 signed_offset
          || (force && ltb 0 loc.epilogue_size && not (through_got loc.kind))
        then (if loc.epilogue_size == 0
            then err epilogue_not_available
            else adrp_far text addr loc s)
        else adrp_near text signed_offset loc s)
  ok (s, m)
