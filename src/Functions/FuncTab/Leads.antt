-- ===== src/Functions/FuncTab/Leads.antt =====
-- From a program counter to the record of its function: the tables of `buildModule` together.
use goloader.Shared.{
  ℕ, zero, suc, ◌+◌, ◌^◌, ◌≤◌, ◌<◌, ◌≡◌, refl, ap, sym, subst, inl, inr, List, [], ◌∷◌, ◌++◌, map,
  some, length, ◌==◌, drop, take, get_elem?, arith, Bool-cases, le→leb,
}
use goloader.Shared.Outcome.{Outcome, ok}
use goloader.Shared.Word.{u32, sub64}
use goloader.Shared.Prefix.{Prefix, Prefix-refl, Prefix-append, Prefix-trans, Stands, Stands-Prefix}
use goloader.Names.{StrMap}
use goloader.Reloc.AsmBytes.{Arch}
use goloader.Functions.{FuncRecord, set_func_entry}
use goloader.Linker.State.{SymEntry}
use goloader.FindFunc.{ftab_entries, find_index}
use goloader.FindFunc.Refines.{Ascending, func_start, build_findfunctab-finds}
use goloader.Functions.FuncTab.{
  FtabEntry, FuncTables, init_functab, add_defer_return, encode_func, mark_missing, table_words,
  or_nil, words, address_of, func_name_of, lookup_bytes, add_func_tab, add_funcs, entryoffs,
  encode_buckets, build_tables,
}

length-mark_missing : (vs : List ℕ) → length (mark_missing vs) ≡ length vs
unfolding mark_missing
length-mark_missing [] = refl
length-mark_missing (v ∷ vs) = ap suc (length-mark_missing vs)

table_words_ok : (n : ℕ) (t : List ℕ) → n ≤ length t → (w : List ℕ) × (table_words n t ≡ ok w)
table_words_ok n t h = elim (Bool-cases (n == 0)) [
  | inl e ↦ ([], rw e)
  | inr e ↦ (words (take n t), rw (e, le→leb n (length t) h))
]

add_defer_return_lem :
    (arch : Arch) (s : SymEntry) (f : FuncRecord)
    → ((add_defer_return arch s f).entryoff ≡ f.entryoff)
      × ((add_defer_return arch s f).npcdata ≡ f.npcdata)
      × ((add_defer_return arch s f).nfuncdata ≡ f.nfuncdata)
unfolding add_defer_return
add_defer_return_lem arch s f = ground arith

module _ (arch : Arch) (sym_map : StrMap SymEntry) (addresses : StrMap ℕ) (text : ℕ) (tab : List ℕ)
    (stack : List ℕ → Outcome ℕ) where
  -- Where a function starts, as an offset in the text.
  abbrev pub start_of : FuncRecord → ℕ
  start_of f = u32 (sub64 (address_of addresses (func_name_of tab f)) text)

  -- The function has an entry in the map, with the tables that its record counts, and its stack
  -- objects can be written.
  abbrev pub IsReady : FuncRecord → Type 0
  IsReady f =
      (s : SymEntry) × (n : ℕ) × (lookup_bytes (func_name_of tab f) sym_map ≡ some s)
      × (stack (func_name_of tab f) ≡ ok n)
      × (f.npcdata ≤ length (or_nil s.func).pcdata)
      × (f.nfuncdata ≤ length (or_nil s.func).funcdata)

  add_func_tab_ok :
      (f : FuncRecord) (table : List ℕ)
      → IsReady f
      → (f' : FuncRecord) × (rest : List ℕ) × (add_func_tab arch sym_map addresses text tab stack f
            table
          ≡ ok (f', table ++ (encode_func f' ++ rest)))
        × (f'.entryoff ≡ start_of f)
  unfolding add_func_tab set_func_entry
  add_func_tab_ok f table (s, n, known, written, pc, fd) =
      let f1 = set_func_entry f (address_of addresses (func_name_of tab f)) text in
      let f' = add_defer_return arch s f1 in
      let (entry, npc, nfd) = add_defer_return_lem arch s f1 in
      let (w, first) = table_words_ok f'.npcdata (or_nil s.func).pcdata (omega (arith, npc)) in
      let (v, second) =
        table_words_ok f'.nfuncdata (mark_missing (or_nil s.func).funcdata)
          (omega (arith, nfd, length-mark_missing (or_nil s.func).funcdata)) in
      (f', w ++ v, rw (add_func_tab, known, written, first, second), entry)

  abbrev pub AllReady : List FuncRecord → Type 0
  AllReady [] = Unit
  AllReady (f ∷ fs) = IsReady f × AllReady fs

  abbrev pub starts : List FuncRecord → List ℕ
  starts [] = []
  starts (f ∷ fs) = start_of f ∷ starts fs

  -- Each entry of `ftab` has the start of its function, and leads to its record.
  abbrev pub Leads : List ℕ → List FuncRecord → List FtabEntry → Type 0
  Leads table [] [] = Unit
  Leads table (f ∷ fs) (e ∷ es) =
      (e.entry ≡ f.entryoff)
      × ((o : ℕ) × (e.funcoff ≡ u32 o) × Stands table o (encode_func f))
      × Leads table fs es
  Leads table _ _ = ⊥

  add_funcs_ok :
      (fs : List FuncRecord) (table : List ℕ)
      → AllReady fs
      → (fs' : List FuncRecord) × (es : List FtabEntry) × (table' : List ℕ) × (add_funcs arch
            sym_map addresses text tab stack fs table
          ≡ ok (fs', es, table'))
        × Prefix table table'
        × Leads table' fs' es
        × (entryoffs fs' ≡ starts fs)
  unfolding add_funcs init_functab
  add_funcs_ok [] table ready = ([], [], table, refl, Prefix-refl table, tt, refl)
  add_funcs_ok (f ∷ fs) table (one, others) =
      let (f', rest, run, entry) = add_func_tab_ok f table one in
      let mid = table ++ (encode_func f' ++ rest) in
      let (fs', es, table', runs, grown, leads, offs) = add_funcs_ok fs mid others in
      (
        f' ∷ fs',
        init_functab (address_of addresses (func_name_of tab f)) (length table) text ∷ es,
        table',
        rw (run, add_funcs, runs),
        Prefix-trans table mid table' (Prefix-append table (encode_func f' ++ rest)) grown,
        (
          sym entry,
          (
            length table,
            refl,
            Stands-Prefix mid table' (length table) (encode_func f') grown
                (table, rest, refl, refl),
          ),
          leads,
        ),
        rw (entry, offs),
      )

  Leads-entries :
      (table : List ℕ) (fs : List FuncRecord) (es : List FtabEntry)
      → Leads table fs es
      → map (λ (e : FtabEntry). e.entry) es ≡ entryoffs fs
  Leads-entries table [] [] l = refl
  Leads-entries table (f ∷ fs) (e ∷ es) (a, b, l) = cc (Leads-entries table fs es l)
  Leads-entries table [] (e ∷ es) l = elim l [ ]
  Leads-entries table (f ∷ fs) [] l = elim l [ ]

  -- The entry of function `j`, and the record to which it leads.
  abbrev pub LeadsTo : List ℕ → List FuncRecord → List FtabEntry → ℕ → Type 0
  LeadsTo table fs es j =
      (f : FuncRecord) × (e : FtabEntry) × (o : ℕ) × (get_elem? fs j ≡ some f)
      × (get_elem? es j ≡ some e)
      × (e.entry ≡ f.entryoff)
      × (e.funcoff ≡ u32 o)
      × Stands table o (encode_func f)

  Leads-nth :
      (table more : List ℕ) (fs : List FuncRecord) (es : List FtabEntry) (last : FtabEntry) (j : ℕ)
      → Leads table fs es
      → j < length fs
      → LeadsTo (table ++ more) fs (es ++ last ∷ []) j
  Leads-nth table more [] es last j l h = absurd (omega arith)
  Leads-nth table more (f ∷ fs) [] last j l h = elim l [ ]
  Leads-nth table more (f ∷ fs) (e ∷ es) last zero (a, (o, b, c), l) h = (
    f,
    e,
    o,
    refl,
    refl,
    a,
    b,
    Stands-Prefix table (table ++ more) o (encode_func f) (Prefix-append table more) c,
  )
  Leads-nth table more (f ∷ fs) (e ∷ es) last (suc j) (a, b, l) h =
      Leads-nth table more fs es last j l (omega arith)

  length-entryoffs : (fs : List FuncRecord) → length (entryoffs fs) ≡ length fs
  length-entryoffs [] = refl
  length-entryoffs (f ∷ fs) = ap suc (length-entryoffs fs)

  map-append :
      (es : List FtabEntry) (last : FtabEntry)
      → map (λ (e : FtabEntry). e.entry) (es ++ last ∷ [])
        ≡ map (λ (e : FtabEntry). e.entry) es ++ last.entry ∷ []
  map-append [] last = refl
  map-append (e ∷ es) last = ap (◌∷◌ e.entry) (map-append es last)

  -- The entries' starts are those of the lookup.
  ftab_starts :
      (size off off' : ℕ) (table : List ℕ) (S : List ℕ) (fs : List FuncRecord) (es : List FtabEntry)
      → text + size < 2 ^ 64
      → size < 2 ^ 32
      → Leads table fs es
      → entryoffs fs ≡ S
      → ftab_entries size S
        ≡ map
            (λ (e : FtabEntry). e.entry)
            (init_functab text off text ∷ es ++ init_functab (text + size) off' text ∷ [])
  unfolding ftab_entries init_functab
  ftab_starts size off off' table S fs es h k leads offs =
      let first : u32 (sub64 text text) ≡ 0 = omega arith in
      let final : u32 (sub64 (text + size) text) ≡ size = omega arith in
      sym (
        rw (
          map-append es (init_functab (text + size) off' text),
          Leads-entries table fs es leads,
          offs,
          first,
          final,
        ))

  -- Functions that the linker has placed one behind the other in a text of `size` bytes, each with
  -- its entry in the map and the tables that its record counts: the tables of the module are built,
  -- and for a program counter inside function `j` (an offset in the text) the lookup of module.go
  -- gives the entry of `j` in `ftab`, which has the start of the function and leads to its record in
  -- `pclntable` (as far as 32 bits hold the offset).
  pub build_tables-LeadsTo :
      (size : ℕ) (functab : List ℕ) (f : FuncRecord) (fs : List FuncRecord)
      → text + size < 2 ^ 64
      → size < 2 ^ 32
      → AllReady (f ∷ fs)
      → Ascending size (starts (f ∷ fs))
      → (t : FuncTables) × (build_tables arch sym_map addresses text size tab stack functab (f ∷ fs)
          ≡ ok t)
        × (entryoffs t.funcs ≡ starts (f ∷ fs))
        × ((j pc : ℕ)
            → j < length (f ∷ fs)
            → func_start size (starts (f ∷ fs)) j ≤ pc
            → pc < func_start size (starts (f ∷ fs)) (suc j)
            → (find_index t.buckets (map (λ (e : FtabEntry). e.entry) t.ftab) pc ≡ some (suc j))
              × LeadsTo t.pclntable t.funcs (drop 1 t.ftab) j)
  unfolding build_tables
  build_tables-LeadsTo size functab f fs h k ready asc =
      let (fs', es, table, run, grown, leads, offs) = add_funcs_ok (f ∷ fs) functab ready in
      let (bs, built, finds) = build_findfunctab-finds size (start_of f) (starts fs) asc in
      let last = init_functab (text + size) (length table) text in
      let same =
        ftab_starts size (length functab) (length table) table (starts (f ∷ fs)) fs' es h k leads
          offs in
      (
        record {
          funcs = fs';
          ftab = init_functab text (length functab) text ∷ es ++ last ∷ [];
          buckets = bs;
          pclntable = table ++ encode_buckets bs;
          findfunctab = length table;
        },
        rw (run, build_tables, offs, built),
        offs,
        λ j pc l lo hi. (
          subst (λ x. find_index bs x pc ≡ some (suc j)) same
              (finds j pc (omega (arith, count fs)) lo hi),
          Leads-nth table (encode_buckets bs) fs' es last j leads (
              omega (
                arith,
                length-entryoffs fs',
                length-entryoffs (f ∷ fs),
                ap (length {A = ℕ}) offs,
                count fs,
              )),
        ),
      )
    where
      count : (fs : List FuncRecord) → length (starts fs) ≡ length fs
      count [] = refl
      count (f ∷ fs) = ap suc (count fs)
