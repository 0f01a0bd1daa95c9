-- ===== src/Linker/Fixup.antt =====
-- ld.go, `addSymbol`: what a relocation to a symbol outside the object files needs, with
-- `preprocesssymbol` of utils.go.
use text.Mathlib.Text.{◌==◌ as str_eq, starts_with}
use Prim.Native.String.{len, slice}
use goloader.Shared.{
  ℕ, Bool, ◌&&◌, ◌||◌, List, [], ◌∷◌, ◌++◌, none, some, String, length, ltb, leb, ◌==◌,
  if◌then◌else◌,
}
use goloader.Shared.Outcome.{
  Outcome, ok, err, checked, bad_dollar_symbol, dollar_symbol_too_large, ◌>>=◌,
}
use goloader.Shared.Word.{u32}
use goloader.Shared.Hex.{parse_hex}
use goloader.Shared.Bytes.{zeros, le_bytes, write_at}
use goloader.Segment.{Sym, RelocType, r_tls_le, r_tls_ie, r_callind, snoptrdata, ptr_size}
use goloader.Names.{lookup, insert, has, codes, trim_prefix, tls_name, type_import_path_prefix}
use goloader.PcTable.Varint.{put_uvarint}
use goloader.Linker.Reserve.{bytearray_align}
use goloader.Linker.State.{SymEntry, LinkState}

-- ispreprocesssymbol
unfoldable pub is_preprocess_symbol : String → Bool
is_preprocess_symbol name =
    ltb 5 (len name)
    && (starts_with name "$f32." || (starts_with name "$f64." || starts_with name "$i64."))

abbrev pub eight_bytes : String → ℕ → Outcome (List ℕ)
eight_bytes name val =
    if starts_with name "$f32."
    then (if u32 val == val
        then ok (write_at (zeros 8) 0 (le_bytes 4 val))
        else err dollar_symbol_too_large)
    else if starts_with name "$f64." || starts_with name "$i64."
    then ok (le_bytes 8 val)
    else err bad_dollar_symbol

-- preprocesssymbol, on a fresh buffer of eight bytes
unfoldable pub preprocess_symbol : String → Outcome (List ℕ)
preprocess_symbol name = elim (parse_hex (codes (slice name 5 (len name)))) [
  | none ↦ err bad_dollar_symbol
  | some val ↦ eight_bytes name val
]

-- strings.Trim(s, ".") of the bytes
unfoldable pub trim_left : List ℕ → List ℕ
trim_left [] = []
trim_left (c ∷ cs) = let rest = trim_left cs in if c == b'.' then rest else c ∷ cs

unfoldable pub trim_right : List ℕ → List ℕ
trim_right [] = []
trim_right (c ∷ cs) =
    let rest = trim_right cs in if c == b'.' && length rest == 0 then [] else c ∷ rest

-- The memory of a name: a byte for the tag, the length, for which there are two bytes, and the path.
unfoldable pub name_bytes : List ℕ → Outcome (List ℕ)
name_bytes path =
    checked (leb (length (put_uvarint (length path))) 2)
      (0 ∷ (write_at (zeros 2) 0 (put_uvarint (length path)) ++ (path ++ 0 ∷ [])))

abbrev pub import_path : String → List ℕ
import_path name = trim_right (trim_left (codes (trim_prefix name type_import_path_prefix)))

-- The name and the offset of the symbol that a relocation refers to, before it is looked up.
unfoldable pub with_tls_name : RelocType → ℕ → Sym → Sym
with_tls_name r_tls_le off sym = record sym { name = tls_name; offset = off }
with_tls_name r_tls_ie off sym = record sym { name = tls_name; offset = off }
with_tls_name r_callind off sym = record sym { offset = 0 }
with_tls_name _ off sym = sym

abbrev pub sym_of : String → SymEntry → Sym
sym_of name e = record { name = name; kind = e.kind; offset = e.offset; pkg = e.pkg }

abbrev pub entry_of : Sym → SymEntry
entry_of sym = record {
  kind = sym.kind;
  offset = sym.offset;
  size = 0;
  pkg = sym.pkg;
  relocs = [];
  func = none;
}

-- Constant data at the end of `noptrdata`, to which the symbol then points; a symbol that the map
-- has keeps its place.
unfoldable pub place_constant : Outcome (List ℕ) → Sym → LinkState → Outcome (Sym × LinkState)
place_constant bytes sym st = elim (lookup sym.name st.sym_map) [
  | some e ↦ ok (sym_of sym.name e, st)
  | none ↦ bytes >>= λ bs. ok (
    record sym { kind = snoptrdata; offset = length st.sections.noptrdata },
    record st {
      sections = record st.sections {
        noptrdata = bytearray_align (st.sections.noptrdata ++ bs) ptr_size;
      };
    },
  )
]

-- The branch for a symbol that the object files do not have; the bytes of a `$` symbol are made
-- also where it has its place, and fail there too.
unfoldable pub fix_external : Sym → LinkState → Outcome (Sym × LinkState)
fix_external sym st = do
  let exist = has sym.name st.sym_map
  (sym, st) ←
      (if starts_with sym.name type_import_path_prefix
        then place_constant (name_bytes (import_path sym.name)) sym st
        else ok (sym, st))
  (sym, st) ←
      (if is_preprocess_symbol sym.name
        then (preprocess_symbol sym.name >>= λ bs. place_constant (ok bs) sym st)
        else ok (sym, st))
  ok (
    sym,
    if exist || str_eq sym.name ""
        then st
        else record st { sym_map = insert sym.name (entry_of sym) st.sym_map },
  )
