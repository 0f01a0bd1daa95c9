-- ===== src/Examples/PcTable.antt =====
-- A table of two values, and the epilogue behind its text.
use goloader.Shared.{◌≡◌, inl, inr, refl, true, [], ◌∷◌, arith}
use goloader.Shared.Outcome.{ok}
use goloader.Reloc.AsmBytes.{amd64}
use goloader.PcTable.Varint.{read_uvarint, put_varint}
use goloader.PcTable.{patch_pc_values, split_last, last_pair, read_pcdata, append_pair}
use goloader.PcTable.Points.{Entries, encode, IsRun}
use goloader.PcTable.Extends.{Extends}
use goloader.PcTable.Patch.{patch_pc_values-Extends}

-- The value 0 up to pc 10, and 16 up to pc 200.
abbrev first_entries : Entries
first_entries = (2, 10) ∷ []

table-IsRun : IsRun 1 true ((2, 10) ∷ ((32, 190) ∷ []))
table-IsRun = (
  omega arith,
  omega arith,
  omega arith,
  inl refl,
  (omega arith, omega arith, omega arith, inr (omega arith), tt),
)

-- A relocation at 5, with an epilogue of 16 bytes at 200.
patch_pc_values-Extends_example :
    (es' : Entries) × (patch_pc_values amd64 (encode ((2, 10) ∷ ((32, 190) ∷ [])) (0 ∷ [])) 5 200 16
      ≡ ok (encode es' (0 ∷ [])))
    × Extends 1 ((2, 10) ∷ ((32, 190) ∷ [])) 5 216 es'
patch_pc_values-Extends_example =
    patch_pc_values-Extends amd64 first_entries 32 190 5 200 16 table-IsRun (omega arith)
      (omega arith) (omega arith) (omega arith)

-- The bytes of the patched table: one more entry, which goes back by 16.
patched :
    patch_pc_values amd64 (2 ∷ (10 ∷ (32 ∷ (190 ∷ (1 ∷ (0 ∷ [])))))) 5 200 16
    ≡ ok (2 ∷ (10 ∷ (32 ∷ (190 ∷ (1 ∷ (31 ∷ (16 ∷ (0 ∷ []))))))))
unfolding patch_pc_values split_last read_uvarint last_pair read_pcdata append_pair put_varint
patched = refl
