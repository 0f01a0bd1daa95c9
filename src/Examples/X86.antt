-- ===== src/Examples/X86.antt =====
-- Code of 32 bytes and symbols of relocate.go's x86-64 relocations.
use mathlib.Core.Option
use goloader.Shared.{
  ℕ, ◌+◌, ◌<◌, ◌≡◌, ◌⊎◌, inl, refl, true, false, List, [], ◌∷◌, ◌++◌, some, none, length, replicate,
  arith,
}
use goloader.Shared.Word.{add64}
use goloader.Shared.Outcome.{ok, err, epilogue_not_available}
use goloader.Shared.Bytes.{byte_at, u32_at, u64_at}
use goloader.Segment.{Segment, Sym, Reloc, stext, r_call, r_pcrel}
use goloader.Reloc.{Applied, applied_at}
use goloader.Reloc.X86.{relocate_call, displacement, needs_epilogue}
use goloader.Reloc.X86.Machine.{performs}
use goloader.Reloc.X86.CallCode.{CallSite}
use goloader.Reloc.X86.Call.{relocate_call-performs}
use goloader.Reloc.X86.CallRefused.{InReach, goes, relocate_call-unreserved}
use goloader.Reloc.X86.Pcrel.{relocate_pcrel}
use goloader.Reloc.X86.Pcrel.CmplCode.{CmplSite}
use goloader.Reloc.X86.Pcrel.Cmpl.{relocate_pcrel-cmpl}

abbrev segment : List ℕ → Segment
segment b = record {
  code_byte = b;
  data_byte = [];
  code_base = 0x400000;
  data_base = 0x500000;
  sum_data_len = 0;
  data_len = 0;
  noptrdata_len = 0;
  bss_len = 0;
  noptrbss_len = 0;
  code_len = length b;
  max_code_length = length b;
  max_data_length = 0;
  code_off = 0;
  data_off = 0;
}

abbrev printer : Sym
printer = record { name = "fmt.Println"; kind = stext; offset = 0; pkg = "fmt" }

abbrev call_code : List ℕ
call_code = 0x90 ∷ (0xE8 ∷ (replicate 4 0 ++ replicate 26 0x90))

abbrev call_reloc : ℕ → Reloc
call_reloc size = record {
  offset = 2;
  sym = printer;
  size = 4;
  kind = r_call;
  add = 0;
  epilogue_offset = 8;
  epilogue_size = size;
}

call_code-CallSite : CallSite (call_reloc 19) (segment call_code)
unfolding byte_at
call_code-CallSite = record {
  field_size = refl;
  after_opcode = omega arith;
  opcode = refl;
  epilogue_after = omega arith;
  epilogue_inside = omega arith;
  loaded = omega arith;
  below_2_gb = omega arith;
}

-- A CALL of an address far away.
relocate_call-performs_example :
    (s' : Segment) × (relocate_call false true 0x7F0000001000 (call_reloc 19) (segment call_code)
      ≡ ok s')
    × (performs s'.code_byte 0x400000 1 ≡ some (add64 0x7F0000001000 0, 6))
relocate_call-performs_example =
    relocate_call-performs false 0x7F0000001000 (call_reloc 19) (segment call_code)
      call_code-CallSite (inl (omega arith))

relocate_call-unreserved_example :
    ((relocate_call true true 0x7F0000001000 (call_reloc 0) (segment call_code)
        ≡ err epilogue_not_available)
      × (InReach 0x7F0000001000 (call_reloc 0) (segment call_code) → ⊥))
    ⊎ ((s' : Segment) × (relocate_call true true 0x7F0000001000 (call_reloc 0) (segment call_code)
          ≡ ok s')
        × (goes (call_reloc 0) (segment call_code) (u32_at s'.code_byte 2)
            ≡ add64 0x7F0000001000 0))
relocate_call-unreserved_example =
    relocate_call-unreserved true 0x7F0000001000 (call_reloc 0) (segment call_code) refl
      (omega arith) (omega arith) (omega arith) refl

-- `83 3D 00000000 07`, a CMPL of a byte in memory with 7, and room for its epilogue.
abbrev cmpl_code : List ℕ
cmpl_code = 0x90 ∷ (0x83 ∷ (0x3D ∷ (replicate 4 0 ++ (7 ∷ replicate 32 0x90))))

abbrev cmpl_reloc : Reloc
cmpl_reloc = record {
  offset = 3;
  sym = printer;
  size = 4;
  kind = r_pcrel;
  add = 0;
  epilogue_offset = 8;
  epilogue_size = 24;
}

cmpl_code-CmplSite : CmplSite cmpl_reloc (segment cmpl_code)
unfolding byte_at
cmpl_code-CmplSite = record {
  after_rex = omega arith;
  field_size = refl;
  opcode = refl;
  epilogue_after = omega arith;
  epilogue_inside = omega arith;
  epilogue_room = omega arith;
}

cmpl_far :
    needs_epilogue false
      (displacement true 0x7F0000001000 cmpl_reloc (segment cmpl_code))
      cmpl_reloc
    ≡ true
unfolding needs_epilogue displacement
cmpl_far = refl

cmpl_comparator : byte_at (segment cmpl_code).code_byte (cmpl_reloc.offset + cmpl_reloc.size) < 256
unfolding byte_at
cmpl_comparator = omega arith

first_application : applied_at ((segment cmpl_code).code_base + cmpl_reloc.offset) [] ≡ none
unfolding applied_at
first_application = refl

relocate_pcrel-cmpl_example :
    (s' : Segment) × (m' : Applied) × (relocate_pcrel false true 0x7F0000001000 cmpl_reloc
        (segment cmpl_code)
        []
      ≡ ok (s', m'))
    × (byte_at s'.code_byte (8 + 14) ≡ byte_at cmpl_code 7)
    × (u64_at s'.code_byte (8 + 3) ≡ add64 0x7F0000001000 (add64 0 1))
    × (byte_at s'.code_byte 7 ≡ 0x90)
    × (Option.map length (applied_at 0x400003 m') ≡ some 6)
relocate_pcrel-cmpl_example =
    relocate_pcrel-cmpl false 0x7F0000001000 cmpl_reloc (segment cmpl_code) [] first_application
      cmpl_code-CmplSite cmpl_far cmpl_comparator
