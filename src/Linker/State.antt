-- ===== src/Linker/State.antt =====
-- The state of the linker while symbols are added: the fields of `Linker` in ld.go that `addSymbol`
-- changes, and the symbols of the object files.
use goloader.Shared.{ℕ, Bool, List, Option, String}
use goloader.Segment.{SymKind, Reloc}
use goloader.Names.{StrMap}
use goloader.Load.{Sections}
use goloader.Functions.{FuncInfo, FuncRecord, Func, NameTable}

-- obj.ObjSymbol, by its name in `objsymbolMap`.
pub record LinkSymbol : Type 0 where
  pub kind : SymKind
  pub dup_ok : Bool
  pub size : ℕ
  pub bytes : List ℕ
  pub type_name : String
  pub relocs : List Reloc
  pub func : Option FuncInfo
  pub pkg : String

-- obj.Sym, by its name in `symMap`.
pub record SymEntry : Type 0 where
  pub kind : SymKind
  pub offset : ℕ
  pub size : ℕ
  pub pkg : String
  pub relocs : List Reloc
  pub func : Option Func

pub record LinkState : Type 0 where
  pub sections : Sections
  pub sym_map : StrMap SymEntry
  pub names : NameTable
  pub pctab : List ℕ
  pub funcs : List FuncRecord
  pub heap_strings : StrMap (List ℕ)
