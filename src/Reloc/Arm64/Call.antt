-- ===== src/Reloc/Arm64/Call.antt =====
-- `relocateCALLARM` on a BL whose target is in reach.
use goloader.Shared.{ℕ, ◌+◌, Bool, List, take}
use goloader.Shared.Word.{add64, sub64}
use goloader.Shared.Bytes.{zeros}
use goloader.Segment.{Segment, Reloc}
use goloader.Reloc.Arm64.{quot4}

module _ (force : Bool) (addr : ℕ) (loc : Reloc) (s : Segment) where
  abbrev target : ℕ
  target = add64 addr loc.add

  abbrev offset : ℕ
  offset = quot4 (sub64 target (s.code_base + loc.offset))

  abbrev cleared : ℕ × List ℕ
  cleared = (loc.epilogue_offset, take loc.epilogue_size (zeros loc.epilogue_size))
