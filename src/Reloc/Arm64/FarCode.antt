-- ===== src/Reloc/Arm64/FarCode.antt =====
-- The code that `relocateCALLARM` leaves for a BL out of reach.
use goloader.Shared.{
  ℕ, zero, suc, refl, subst, inr, ◌+◌, ◌-◌, ◌*◌, ◌/◌, ◌^◌, ◌≤◌, ◌<◌, ◌≡◌, ◌∙◌, true, false, Bool,
  List, [], ◌∷◌, arith, ltb, if◌then◌else◌, ◌&&◌, ◌||◌, length, take, lt→ltb, ne→==, inl,
}
use goloader.Shared.Word.{add64, sub64, u32}
use goloader.Shared.Outcome.{ok}
use goloader.Shared.Bytes.{
  u32_at, u64_at, slice, le_bytes, le_value, byte_at, zeros, length-write_at, put_uint64_ok,
  copy_from_ok, copy_within_ok,
}
use goloader.Shared.Bytes.Patch.{
  patch, u32_at-patch, u64_at-patch, slice-patch, byte_at-patch_apart,
}
use goloader.Segment.{Segment, Reloc}
use goloader.Reloc.AsmBytes.{arm_code, arm64_call_code}
use goloader.Reloc.MaxExtra
use goloader.Reloc.Arm64.{
  relocate_callarm, callarm_far, quot4, overflows24, is_callarm, is_callarm64,
}

suc_add : (p : ℕ) → suc (p + 3) ≡ suc p + 3
suc_add p = omega arith

-- A word by its first three bytes and the last one.
u32_at-split :
    (b : List ℕ) (p : ℕ) → u32_at b p ≡ le_value (slice b p 3) + 2 ^ 24 * byte_at b (p + 3)
unfolding u32_at byte_at
u32_at-split [] p = refl
u32_at-split (x ∷ xs) (suc p) =
    subst (λ q. u32_at xs p ≡ le_value (slice xs p 3) + 2 ^ 24 * byte_at (x ∷ xs) q) (suc_add p)
      (u32_at-split xs p)
u32_at-split (x ∷ []) zero = omega arith
u32_at-split (x ∷ (y ∷ [])) zero = omega arith
u32_at-split (x ∷ (y ∷ (z ∷ []))) zero = omega arith
u32_at-split (x ∷ (y ∷ (z ∷ (w ∷ r)))) zero = omega arith

-- A BL (not R_CALLARM) that is out of reach, with room for its epilogue behind it.
module _ (force : Bool) (addr : ℕ) (loc : Reloc) (s : Segment)
    (is_call : is_callarm loc.kind ≡ false) (after : loc.offset + 4 ≤ loc.epilogue_offset)
    (inside : loc.epilogue_offset + loc.epilogue_size ≤ length s.code_byte)
    (far : overflows24 (quot4 (sub64 (add64 addr loc.add) (s.code_base + loc.offset)))
        || (force && ltb 0 loc.epilogue_size)
      ≡ true)
    (room : MaxExtra.callarm64 ≤ loc.epilogue_size) where
  abbrev target : ℕ
  target = add64 addr loc.add

  abbrev stub : List ℕ
  stub = if is_callarm64 loc.kind then arm64_call_code else arm_code

  length-stub : (4 ≤ length stub) × (length stub ≤ 8)
  length-stub = ground arith

  abbrev cleared : ℕ × List ℕ
  cleared = (loc.epilogue_offset, take loc.epilogue_size (zeros loc.epilogue_size))

  abbrev distance : ℕ
  distance = u32 (sub64 loc.epilogue_offset (loc.offset + 0)) / 4

  abbrev jump : ℕ × List ℕ
  jump = (loc.offset, le_bytes 3 distance)

  abbrev entry : ℕ × List ℕ
  entry = (loc.epilogue_offset, stub)

  abbrev address : ℕ × List ℕ
  address = (loc.epilogue_offset + length stub, le_bytes 8 target)

  abbrev pub far_code : List ℕ
  far_code = patch s.code_byte (cleared ∷ jump ∷ entry ∷ address ∷ [])

  pub far_runs : relocate_callarm force addr loc s ≡ ok (record s { code_byte = far_code })
  unfolding relocate_callarm callarm_far
  far_runs = rw (
    copy_within_ok s.code_byte loc.epilogue_offset loc.epilogue_size (zeros loc.epilogue_size)
        inside,
    relocate_callarm,
    is_call,
    far,
    ne→== loc.epilogue_size 0 (omega arith),
    callarm_far,
    lt→ltb (loc.offset + 2) (length (patch s.code_byte (cleared ∷ [])))
        (omega (arith, length-write_at)),
    copy_from_ok (patch s.code_byte (cleared ∷ jump ∷ [])) loc.epilogue_offset stub
        (omega (arith, length-write_at)),
    put_uint64_ok (patch s.code_byte (cleared ∷ jump ∷ entry ∷ []))
        (loc.epilogue_offset + length stub) target (omega (arith, length-write_at, length-stub)),
  )

  pub far_stub :
      (k : ℕ) → k + 4 ≤ length stub → u32_at far_code (loc.epilogue_offset + k) ≡ u32_at stub k
  far_stub k h =
      u32_at-patch s.code_byte (cleared ∷ jump ∷ []) loc.epilogue_offset stub (address ∷ [])
        (loc.epilogue_offset + k) k (omega arith) (omega (arith, length-stub, inside)) h
        (inl (omega (arith, h)), tt)

  pub far_address : u64_at far_code (loc.epilogue_offset + length stub) ≡ target
  unfolding u64_at
  far_address =
      u64_at-patch s.code_byte (cleared ∷ jump ∷ entry ∷ []) (loc.epilogue_offset + length stub)
        (le_bytes 8 target) [] (loc.epilogue_offset + length stub) 0 (omega arith)
        (omega (arith, length-stub, inside)) (omega arith) tt
      ∙ omega arith

  low_bytes : slice far_code loc.offset 3 ≡ le_bytes 3 distance
  low_bytes =
      slice-patch s.code_byte (cleared ∷ []) loc.offset (le_bytes 3 distance) (entry ∷ address ∷ [])
        loc.offset 0 (omega arith) (omega (arith, after, inside)) 3 (omega arith)
        (inl (omega (arith, after)), (inl (omega (arith, after)), tt))

  high_byte : byte_at far_code (loc.offset + 3) ≡ byte_at s.code_byte (loc.offset + 3)
  high_byte =
      byte_at-patch_apart s.code_byte (cleared ∷ jump ∷ entry ∷ address ∷ []) (loc.offset + 3) (
        inl (omega (arith, after)),
        (inr (omega arith), (inl (omega (arith, after)), (inl (omega (arith, after)), tt))),
      )

  -- The word of the BL: its own last byte, and the distance to the epilogue in words.
  pub far_word :
      loc.epilogue_offset - loc.offset < 2 ^ 26
      → u32_at far_code loc.offset
        ≡ (loc.epilogue_offset - loc.offset) / 4 + 2 ^ 24 * byte_at s.code_byte (loc.offset + 3)
  far_word small =
      u32_at-split far_code loc.offset ∙ rw (low_bytes, high_byte) (omega (arith, small, after))
