-- ===== src/Reloc.antt =====
-- relocate.go: the buffers that a relocation writes, and the modules that model each relocation.
pub mod AsmBytes
pub mod MaxExtra
pub mod X86
pub mod Arm64
pub mod Dispatch
use goloader.Shared.{ℕ, ◌+◌, Bool, List, ◌∷◌, [], Option, none, some, if◌then◌else◌, ◌==◌}
use goloader.Shared.Outcome.{Outcome, ok, ◌>>=◌}
use goloader.Segment.{Segment}

-- A store through `segment.codeByte`.
abbrev pub on_code : (List ℕ → Outcome (List ℕ)) → Segment → Outcome Segment
on_code f s = f s.code_byte >>= λ b. ok (record s { code_byte = b })

-- `relocByte` is `segment.codeByte` for a symbol of the text and `segment.dataByte` for any other:
-- in the text, both names write the same bytes.
abbrev pub reloc_byte : Bool → Segment → List ℕ
reloc_byte text s = if text then s.code_byte else s.data_byte

abbrev pub addr_base : Bool → Segment → ℕ
addr_base text s = if text then s.code_base else s.data_base

abbrev pub on_reloc : Bool → (List ℕ → Outcome (List ℕ)) → Segment → Outcome Segment
on_reloc text f s = f (reloc_byte text s) >>= λ b.
    ok (if text then record s { code_byte = b } else record s { data_byte = b })

-- `appliedPCRelRelocs` and `appliedADRPRelocs`: the bytes that a relocation found at an address
-- when it was first applied.
abbrev pub Applied : Type 0
Applied = List (ℕ × List ℕ)

unfoldable pub applied_at : ℕ → Applied → Option (List ℕ)
applied_at k [] = none
applied_at k ((j, b) ∷ m) = if j == k then some b else applied_at k m
