-- ===== src/Functions/InlineTree.antt =====
-- inlinetree.go: `addInlineTree`, and `InitInlinedCall` of obj/inlinedcall.1.20.go.
use goloader.Shared.{
  ℕ, ◌+◌, ◌-◌, List, [], ◌∷◌, ◌++◌, none, some, String, length, ltb, leb, ◌==◌, set, replicate,
  if◌then◌else◌,
}
use goloader.Shared.Outcome.{Outcome, ok, checked, ◌>>=◌}
use goloader.Shared.Word.{u32}
use goloader.Shared.Bytes.{le_bytes, zeros}
use goloader.Segment.{Reloc, ptr_size}
use goloader.Names.{StrMap, lookup}
use goloader.Reloc.AsmBytes.{Arch}
use goloader.PcTable.{patch_pc_values}
use goloader.Linker.Reserve.{bytearray_align}
use goloader.Functions.{InlTreeNode, FuncInfo, Func, FuncRecord, NameTable, add_names}

-- objabi/dataindex
abbrev pub pcdata_inl_tree_index : ℕ
pcdata_inl_tree_index = 2

abbrev pub funcdata_inl_tree : ℕ
funcdata_inl_tree = 3

-- `binary` layout of obj.InlinedCall: funcID, three bytes, nameOff, parentPc, startLine.
unfoldable pub init_inlined_call : InlTreeNode → ℕ → StrMap ℕ → List ℕ
init_inlined_call inl func_id namemap =
    le_bytes 1 func_id
    ++ (zeros 3
        ++ (le_bytes 4 (elim (lookup inl.func namemap) [ none ↦ 0 | some o ↦ o ])
            ++ (le_bytes 4 inl.parent_pc ++ le_bytes 4 inl.line)))

-- The loop that encodes the tree; `ids` is the id of a function of the object files, 0 for any
-- other function, and a panic for a symbol that is no function.
unfoldable pub encode_tree : (String → Outcome ℕ) → StrMap ℕ → List InlTreeNode → Outcome (List ℕ)
encode_tree ids namemap [] = ok []
encode_tree ids namemap (inl ∷ tree) = do
  id ← ids inl.func
  _ ← checked (id == 0) id
  rest ← encode_tree ids namemap tree
  ok (init_inlined_call inl id namemap ++ rest)

-- The patches of `PCInline`; no test for an empty table here.
unfoldable pub patch_inline : Arch → List Reloc → List ℕ → Outcome (List ℕ)
patch_inline arch [] p = ok p
patch_inline arch (loc ∷ locs) p =
    (if ltb 0 loc.epilogue_offset
      then patch_pc_values arch p loc.offset loc.epilogue_offset loc.epilogue_size
      else ok p)
    >>= λ p'. patch_inline arch locs p'

-- `for n <= index { append 0; n++ }`
unfoldable pub pad_to : ℕ → ℕ → List ℕ → List ℕ
pad_to index n xs = xs ++ replicate (index + 1 - n) 0

abbrev pub padded_count : ℕ → ℕ → ℕ
padded_count index n = if leb n index then index + 1 else n

-- What addInlineTree changes.
pub record Inlined : Type 0 where
  pub fn : FuncRecord
  pub func : Func
  pub names : NameTable
  pub pctab : List ℕ
  pub noptrdata : List ℕ

-- addInlineTree
unfoldable pub add_inline_tree :
    Arch → (String → Outcome ℕ) → FuncInfo → List Reloc → Inlined → Outcome Inlined
add_inline_tree arch ids f relocs s = if length f.inl_tree == 0 then ok s else (do
  let pcdata = pad_to pcdata_inl_tree_index s.fn.npcdata s.func.pcdata
  _ ← checked (ltb pcdata_inl_tree_index (length pcdata)) pcdata
  table ← patch_inline arch relocs f.pcinline
  let names = add_names f.inl_tree s.names
  tree ← encode_tree ids names.offsets f.inl_tree
  let funcdata = pad_to funcdata_inl_tree s.fn.nfuncdata s.func.funcdata
  _ ← checked (ltb funcdata_inl_tree (length funcdata)) funcdata
  ok (record {
    fn = record s.fn {
      npcdata = padded_count pcdata_inl_tree_index s.fn.npcdata;
      nfuncdata = padded_count funcdata_inl_tree s.fn.nfuncdata;
    };
    func = record {
      pcdata = set pcdata pcdata_inl_tree_index (u32 (length s.pctab));
      funcdata = set funcdata funcdata_inl_tree (length s.noptrdata);
    };
    names = names;
    pctab = s.pctab ++ table;
    noptrdata = bytearray_align (s.noptrdata ++ tree) ptr_size;
  }))
