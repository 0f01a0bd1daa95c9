-- ===== src/Examples/Arm64.antt =====
-- Instructions and code of relocate.go's ARM relocations.
use goloader.Shared.{
  some, none, ◌+◌, ◌^◌, ◌≡◌, refl, true, false, [], ◌∷◌, replicate, arith, ltb, ◌&&◌, ◌||◌,
}
use goloader.Shared.Word.{add64, neg64, sub64}
use goloader.Shared.Outcome.{ok}
use goloader.Shared.Bytes.{byte_at}
use goloader.Segment.{Segment, Reloc, RelocType, stext, r_callarm64, weak_callarm64}
use goloader.Reloc.Arm64.{relocate_callarm, adrp_word, overflows33, overflows24, quot4}
use goloader.Reloc.Arm64.Encoding.{adrp_distance, adrp_at_limit}
use goloader.Reloc.Arm64.Machine.{calls}
use goloader.Reloc.Arm64.Veneer.{BlSite, relocate_callarm-far, relocate_callarm-weak}

adrp_at_limit_example :
    (overflows33 (2 ^ 32) ≡ false)
    × (adrp_distance (adrp_word (0x90000000 + 3) (2 ^ 32)) ≡ neg64 (2 ^ 32))
adrp_at_limit_example = adrp_at_limit 3 (omega arith)

-- A BL with a clear displacement, and 24 bytes for its epilogue.
abbrev code : Segment
code = record {
  code_byte = 0 ∷ (0 ∷ (0 ∷ (0x94 ∷ replicate 32 0)));
  data_byte = [];
  code_base = 0x400000;
  data_base = 0x500000;
  sum_data_len = 0;
  data_len = 0;
  noptrdata_len = 0;
  bss_len = 0;
  noptrbss_len = 0;
  code_len = 36;
  max_code_length = 36;
  max_data_length = 0;
  code_off = 0;
  data_off = 0;
}

abbrev bl_reloc : RelocType → Reloc
bl_reloc kind = record {
  offset = 0;
  sym = record { name = "fmt.Println"; kind = stext; offset = 0; pkg = "fmt" };
  size = 4;
  kind = kind;
  add = 0;
  epilogue_offset = 8;
  epilogue_size = 24;
}

far : overflows24 (quot4 (sub64 (add64 0x7F0000001000 0) 0x400000)) || (false && ltb 0 24) ≡ true
unfolding quot4
far = refl

code-BlSite : (kind : RelocType) → BlSite (bl_reloc kind) code
unfolding byte_at
code-BlSite kind = record {
  opcode = refl;
  epilogue_after = omega arith;
  epilogue_aligned = refl;
  epilogue_near = omega arith;
  epilogue_inside = omega arith;
  room = omega arith;
  loaded = omega arith;
}

relocate_callarm-far_example :
    (s' : Segment) × (relocate_callarm false 0x7F0000001000 (bl_reloc r_callarm64) code ≡ ok s')
    × (calls s'.code_byte 0x400000 0 ≡ some (add64 0x7F0000001000 0, 4))
relocate_callarm-far_example =
    relocate_callarm-far false 0x7F0000001000 (bl_reloc r_callarm64) code (code-BlSite r_callarm64)
      far refl

relocate_callarm-weak_example :
    (s' : Segment) × (relocate_callarm false 0x7F0000001000 (bl_reloc weak_callarm64) code ≡ ok s')
    × (calls s'.code_byte 0x400000 0 ≡ none)
relocate_callarm-weak_example =
    relocate_callarm-weak false 0x7F0000001000 (bl_reloc weak_callarm64) code
      (code-BlSite weak_callarm64) far refl
