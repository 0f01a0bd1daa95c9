-- ===== src/Segment.antt =====
-- The data that the linker hands to relocation: ld.go (`segment`), obj/readobj.go (`Sym`, `Reloc`),
-- const.go and the relocation types of objabi/reloctype.
use goloader.Shared.{ℕ, String, List}

-- `int` fields that are positions or sizes are natural numbers; `code_base`, `data_base` and `add`
-- are 64-bit patterns.
pub record Segment : Type 0 where
  pub code_byte : List ℕ
  pub data_byte : List ℕ
  pub code_base : ℕ
  pub data_base : ℕ
  pub sum_data_len : ℕ
  pub data_len : ℕ
  pub noptrdata_len : ℕ
  pub bss_len : ℕ
  pub noptrbss_len : ℕ
  pub code_len : ℕ
  pub max_code_length : ℕ
  pub max_data_length : ℕ
  pub code_off : ℕ
  pub data_off : ℕ

-- objabi/symkind
pub data SymKind : Type 0 where
  sxxx stext srodata snoptrdata sdata sbss snoptrbss stlsbss : SymKind

-- The fields of `obj.Sym` that a relocation reads through its pointer. `offset` is an `int`
-- pattern, since -1 stands for a symbol without a place.
pub record Sym : Type 0 where
  pub name : String
  pub kind : SymKind
  pub offset : ℕ
  pub pkg : String

-- objabi/reloctype; `weak t` is `R_WEAK | t`.
pub data RelocType : Type 0 where
  r_addr r_addrarm64 r_addroff r_call r_callarm r_callarm64 r_callind r_pcrel : RelocType
  r_tls_le r_tls_ie r_gotpcrel r_methodoff r_usetype r_useiface r_useifacemethod : RelocType
  r_addrcuoff r_keep r_initorder r_arm64_tls_le r_arm64_tls_ie r_arm64_gotpcrel : RelocType
  r_arm64_pcrel_ldst8 r_arm64_pcrel_ldst16 r_arm64_pcrel_ldst32 r_arm64_pcrel_ldst64 : RelocType
  weak_call weak_callarm64 weak_addr weak_addroff other_reloc : RelocType

pub record Reloc : Type 0 where
  pub offset : ℕ
  pub sym : Sym
  pub size : ℕ
  pub kind : RelocType
  pub add : ℕ
  pub epilogue_offset : ℕ
  pub epilogue_size : ℕ

-- const.go on a 64-bit host
abbrev pub ptr_size : ℕ
ptr_size = 8

abbrev pub int_size : ℕ
int_size = 8

abbrev pub page_size : ℕ
page_size = 4096

abbrev pub invalid_handle_value : ℕ
invalid_handle_value = 0xFFFFFFFFFFFFFFFF

abbrev pub invalid_offset : ℕ
invalid_offset = 0xFFFFFFFFFFFFFFFF
