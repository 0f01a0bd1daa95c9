-- ===== src/Linker/AddSymbols/Loaded.antt =====
-- What `addSymbols` leaves is, once loaded, at the offsets of its symbols.
use text.Mathlib.Text.{◌==◌ as str_eq, starts_with}
use text.Mathlib.TextEquality.{eq_iff}
use goloader.Shared.{
  ℕ, suc, ◌+◌, ◌≤◌, ◌<◌, ◌≡◌, refl, ap, ◌∙◌, sym, subst, inl, inr, Bool, true, false, List, [], ◌∷◌,
  ◌++◌, none, some, String, length, arith, Bool-cases, length-append, zero,
}
use mathlib.Core.Option.{some-injective}
use goloader.Shared.Outcome.{ok}
use goloader.Shared.Run.{Ends, Ends-bind}
use goloader.Shared.Bytes.{slice, zeros}
use goloader.Shared.Prefix.{Prefix-append, Stands, slice-Stands}
use goloader.Segment.{
  SymKind, Segment, sxxx, stext, srodata, snoptrdata, sdata, sbss, snoptrbss, stlsbss, int_size,
}
use goloader.Names.{StrMap, lookup, has, tls_name, type_string_prefix}
use goloader.Reloc.AsmBytes.{Arch}
use goloader.Load.{Sections, sum_data_len, fill_segment}
use goloader.Load.Layout.{fill_segment-slice}
use goloader.Linker.Place.{section_shift, shift_symbol}
use goloader.Linker.Sections.{IsData, section_of, section_shift-slice}
use goloader.Linker.State.{LinkSymbol, SymEntry, LinkState}
use goloader.Linker.Growth.{home, HasHome}
use goloader.Linker.AddSymbol.Measure.{absent}
use goloader.Linker.AddSymbol.Sound.{AllSettled, IsSound, Step}
use goloader.Linker.AddSymbols.Ends.{AllAdded, add_all-Ends}
use goloader.Linker.AddSymbol.Parts.{noptrdata-Step}
use goloader.Linker.AddSymbols.{add_all, shift_entry, shift_all, add_symbols}

-- An entry after the shift is a shifted entry.
shift_all-lookup :
    (x : Sections) (m : StrMap SymEntry) (name : String) (e : SymEntry)
    → lookup name (shift_all x m) ≡ some e
    → (e' : SymEntry) × (lookup name m ≡ some e') × (shift_entry x name e' ≡ e)
unfolding lookup shift_all
shift_all-lookup x [] name e h = cc
shift_all-lookup x ((k, v) ∷ m) name e h = elim (Bool-cases (str_eq k name)) [
  | inr other ↦ rw other (shift_all-lookup x m name e (rw other at h))
  | inl same ↦ rw same (
    v,
    refl,
    ap (λ t. shift_entry x t v) (sym ((eq_iff k name).0 same)) ∙ some-injective _ _ (rw same at h),
  )
]

shift_all-has :
    (x : Sections) (m : StrMap SymEntry) (name : String)
    → has name m ≡ true
    → has name (shift_all x m) ≡ true
unfolding lookup shift_all
shift_all-has x [] name h = h
shift_all-has x ((k, v) ∷ m) name h = elim (Bool-cases (str_eq k name)) [
  | inl same ↦ rw (has, same)
  | inr other ↦ rw (has, other) (shift_all-has x m name (rw other at h))
]

shift_all-AllAdded :
    (objs : StrMap LinkSymbol) (reachable : List String) (x : Sections) (names : List String)
    (m : StrMap SymEntry)
    → AllAdded objs reachable names m
    → AllAdded objs reachable names (shift_all x m)
shift_all-AllAdded objs reachable x [] m h = tt
shift_all-AllAdded objs reachable x (name ∷ names) m (one, others) = (
  λ o c p a. shift_all-has x m name (one o c p a),
  shift_all-AllAdded objs reachable x names m others,
)

shift_entry_lem :
    (x : Sections) (name : String) (e : SymEntry)
    → ((shift_entry x name e).offset ≡ e.offset + section_shift e.kind name x)
      × ((shift_entry x name e).kind ≡ e.kind)
unfolding shift_entry shift_symbol
shift_entry_lem x name e = (refl, refl)

IsData-HasHome : (kind : SymKind) → IsData kind → HasHome kind
IsData-HasHome sdata d = tt
IsData-HasHome snoptrdata d = tt
IsData-HasHome srodata d = tt
IsData-HasHome sbss d = tt
IsData-HasHome snoptrbss d = tt
IsData-HasHome stext d = elim d [ ]
IsData-HasHome sxxx d = elim d [ ]
IsData-HasHome stlsbss d = elim d [ ]

IsData-home : (kind : SymKind) (x : Sections) → IsData kind → home kind x ≡ section_of kind x
IsData-home sdata x d = refl
IsData-home snoptrdata x d = refl
IsData-home srodata x d = refl
IsData-home sbss x d = refl
IsData-home snoptrbss x d = refl
IsData-home stext x d = elim d [ ]
IsData-home sxxx x d = elim d [ ]
IsData-home stlsbss x d = elim d [ ]

Stands-le :
    (b : List ℕ) (off : ℕ) (bytes : List ℕ) → Stands b off bytes → off + length bytes ≤ length b
Stands-le b off bytes (before, behind, e, l) = omega (
  arith,
  ap (length {A = ℕ}) e,
  length-append before (bytes ++ behind),
  length-append bytes behind,
)

-- Where the loaded module has a symbol: text in the code, data in the data.
abbrev pub Loaded : StrMap LinkSymbol → StrMap SymEntry → Segment → Type 0
Loaded objs m s =
    (name : String) (o : LinkSymbol) (e : SymEntry)
    → lookup name objs ≡ some o
    → lookup name m ≡ some e
    → starts_with name type_string_prefix ≡ false
    → (IsData o.kind → slice s.data_byte e.offset (length o.bytes) ≡ o.bytes)
      × (o.kind ≡ stext → slice s.code_byte e.offset (length o.bytes) ≡ o.bytes)

prefix_slice :
    (b c : List ℕ) (m k n : ℕ) → slice b 0 m ≡ c → k + n ≤ length c → slice b k n ≡ slice c k n
prefix_slice b c m k zero e h = refl
prefix_slice [] c zero k (suc n) e h = absurd (omega (arith, ap (length {A = ℕ}) e))
prefix_slice [] c (suc m) k (suc n) e h = absurd (omega (arith, ap (length {A = ℕ}) e))
prefix_slice (x ∷ xs) c zero k (suc n) e h = absurd (omega (arith, ap (length {A = ℕ}) e))
prefix_slice (x ∷ xs) [] (suc m) k (suc n) e h = absurd (omega arith)
prefix_slice (x ∷ xs) (y ∷ ys) (suc m) zero (suc n) e h =
    let first : x ≡ y = cc in
    let others : slice xs 0 m ≡ ys = cc in cc (prefix_slice xs ys m 0 n others (omega arith))
prefix_slice (x ∷ xs) (y ∷ ys) (suc m) (suc k) (suc n) e h =
    let others : slice xs 0 m ≡ ys = cc in prefix_slice xs ys m k (suc n) others (omega arith)

text_shift : (name : String) (x : Sections) → section_shift stext name x ≡ 0
unfolding section_shift
text_shift name x = refl

module _ (objs : StrMap LinkSymbol) (x : Sections) (m : StrMap SymEntry) (code_base : ℕ)
    (code_mem : List ℕ) (data_base : ℕ) (data_mem : List ℕ) (settled : AllSettled objs x m)
    (hc : length x.code ≤ length code_mem) (hd : sum_data_len x ≤ length data_mem) where
  loaded_lem :
      (s : Segment) × (fill_segment x code_base code_mem data_base data_mem ≡ ok s)
      × Loaded objs (shift_all x m) s
  loaded_lem =
      let (s, run, parts) = section_shift-slice x code_base code_mem data_base data_mem hc hd in
      let (s', run', code, _, _, _, _, _) =
        fill_segment-slice x code_base code_mem data_base data_mem hc hd in
      let same : s' ≡ s = cc in
      let text : slice s.code_byte 0 s.code_len ≡ x.code =
        subst (λ (t : Segment). slice t.code_byte 0 t.code_len ≡ x.code) same code in
      (s, run, λ name o e p q n. entry s parts text name o e p q n)
    where
      entry :
          (s : Segment)
          → ((kind : SymKind) (name : String) (offset n : ℕ)
              → IsData kind
              → starts_with name type_string_prefix ≡ false
              → offset + n ≤ length (section_of kind x)
              → slice s.data_byte (offset + section_shift kind name x) n
                ≡ slice (section_of kind x) offset n)
          → slice s.code_byte 0 s.code_len ≡ x.code
          → Loaded objs (shift_all x m) s
      entry s parts text name o e p q n =
          let (e', at, eq) = shift_all-lookup x m name e q in
          let (kind, stands) = settled name o e' p at in
          let moved : e.offset ≡ e'.offset + section_shift o.kind name x =
            ap (λ (t : SymEntry). t.offset) (sym eq)
            ∙ (shift_entry_lem x name e').0
            ∙ ap (λ k. e'.offset + section_shift k name x) kind in
          (
            λ d.
                let here =
                  subst (λ b. Stands b e'.offset o.bytes) (IsData-home o.kind x d)
                    (stands (IsData-HasHome o.kind d) n) in
                ap (λ t. slice s.data_byte t (length o.bytes)) moved
                ∙ parts o.kind name e'.offset (length o.bytes) d n
                    (Stands-le (section_of o.kind x) e'.offset o.bytes here)
                ∙ slice-Stands (section_of o.kind x) e'.offset o.bytes here,
            λ k.
                let here = stands_text e' o k stands n in
                ap (λ t. slice s.code_byte t (length o.bytes))
                  (moved
                    ∙ ap (λ t. e'.offset + section_shift t name x) k
                    ∙ ap (λ t. e'.offset + t) (text_shift name x)
                    ∙ omega arith)
                ∙ prefix_slice s.code_byte x.code s.code_len e'.offset (length o.bytes) text
                    (Stands-le x.code e'.offset o.bytes here)
                ∙ slice-Stands x.code e'.offset o.bytes here,
          )
        where
          stands_text :
              (e' : SymEntry) (o : LinkSymbol)
              → o.kind ≡ stext
              → (HasHome o.kind
                  → starts_with name type_string_prefix ≡ false
                  → Stands (home o.kind x) e'.offset o.bytes)
              → starts_with name type_string_prefix ≡ false
              → Stands x.code e'.offset o.bytes
          stands_text e' o k stands n =
              subst
                (λ (t : SymKind).
                  (HasHome t
                    → starts_with name type_string_prefix ≡ false
                    → Stands (home t x) e'.offset o.bytes)
                  → Stands x.code e'.offset o.bytes)
                (sym k) (λ f. f tt n) stands

-- Adding the symbols of a program and loading the result, where the fuel is more than the symbols
-- that are missing, the state is sound and its `noptrdata` may grow, and the object files have no
-- symbol of the TLS base: adding ends. If it returns, every name of the list that is reachable and
-- that the loop adds for itself has an entry; and in mappings that are large enough the loader
-- succeeds, and the bytes of every symbol with an entry, other than a string constant, are in the
-- module's memory at the offset that the entry has now: text in the code, data in the data.
pub add_symbols-Loaded :
    (arch : Arch) (ne : Bool) (objs : StrMap LinkSymbol) (reachable : List String) (fuel : ℕ)
    (names : List String) (st : LinkState)
    → lookup tls_name objs ≡ none
    → absent objs st.sym_map < fuel
    → IsSound objs st
    → Ends
        (λ st'.
          AllAdded objs reachable names st'.sym_map
          × ((code_base : ℕ) (code_mem : List ℕ) (data_base : ℕ) (data_mem : List ℕ)
              → length st'.sections.code ≤ length code_mem
              → sum_data_len st'.sections ≤ length data_mem
              → (s : Segment) × (fill_segment st'.sections code_base code_mem data_base data_mem
                  ≡ ok s)
                × Loaded objs st'.sym_map s))
        (add_symbols arch ne objs reachable fuel names st)
unfolding add_symbols
add_symbols-Loaded arch ne objs reachable fuel names st no_tls h s =
    let step =
      noptrdata-Step objs st (st.sections.noptrdata ++ zeros int_size)
        (Prefix-append st.sections.noptrdata (zeros int_size)) s in
    let st1 = record st {
      sections = record st.sections { noptrdata = st.sections.noptrdata ++ zeros int_size };
    } in
    Ends-bind (λ st'. Step objs st1 st' × AllAdded objs reachable names st'.sym_map) _
      (add_all arch ne objs reachable fuel names st1) _
      (add_all-Ends arch ne objs reachable fuel no_tls names st1 step.sound h)
      (λ st' (step', added). (
        shift_all-AllAdded objs reachable st'.sections names st'.sym_map added,
        λ code_base code_mem data_base data_mem hc hd.
            loaded_lem objs st'.sections st'.sym_map code_base code_mem data_base data_mem
              step'.sound.settled hc hd,
      ))
