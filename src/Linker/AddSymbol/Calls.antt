-- ===== src/Linker/AddSymbol/Calls.antt =====
-- The parts of `addSymbol` that call it, for any `add` that keeps the state sound.
use text.Mathlib.Text.{◌==◌ as str_eq}
use goloader.Shared.{
  ℕ, ◌+◌, ◌<◌, ◌≡◌, refl, inl, inr, true, ◌&&◌, ◌||◌, List, [], ◌∷◌, none, some, String, length,
  ltb, leb, ◌==◌, if◌then◌else◌, arith, Bool-cases, Option-cases, ==→eq, subst, sym,
}
use goloader.Shared.Outcome.{Outcome, ok, err, panic, unknown_gcobj, size_above_int_size}
use goloader.Shared.Run.{Run, lift, return, Ends, Ends-bind, Ends-imp}
use goloader.Shared.Prefix.{Returns, Stands}
use goloader.Segment.{Sym, Reloc, int_size}
use goloader.Names.{StrMap, lookup, has, update, tls_name}
use goloader.Names.Maps.{has-update}
use goloader.Linker.State.{LinkSymbol, SymEntry, LinkState}
use goloader.Linker.Fixup.{with_tls_name, fix_external, sym_of}
use goloader.Linker.Growth.{Grown-refl, home}
use goloader.Linker.AddSymbol.{add_func_data, own_reloc, fix_reloc, fix_relocs}
use goloader.Linker.AddSymbol.Measure.{absent, absent_mono}
use goloader.Linker.AddSymbol.Sound.{
  Settled, IsSound, Step, Step-refl, Step-trans, AllSettled-update,
}
use goloader.Linker.AddSymbol.Parts.{fix_external-Step, with_tls_name-missing}

pub lift-Ends : {A : Type 0} (P : A → Type 0) (m : Outcome A) → Returns P m → Ends P (lift m)
lift-Ends P (ok a) h = h
lift-Ends P (err e) h = tt
lift-Ends P panic h = tt

pub any-Ends : {A : Type 0} (m : Outcome A) → Ends (λ (_ : A). Unit {0}) (lift m)
any-Ends (ok a) = tt
any-Ends (err e) = tt
any-Ends panic = tt

module _ (objs : StrMap LinkSymbol) where
  -- A change of entries that keeps what is settled.
  pub update-Step :
      (st : LinkState) (name : String) (f : SymEntry → SymEntry)
      → ((o : LinkSymbol) (e : SymEntry)
          → lookup name objs ≡ some o
          → Settled name o e st.sections
          → Settled name o (f e) st.sections)
      → IsSound objs st
      → Step objs st (record st { sym_map = update name f st.sym_map })
  update-Step st name f change s = record {
    keeps = λ k h. has-update k name f st.sym_map h;
    grown = Grown-refl st.sections;
    sound = record {
      settled = AllSettled-update objs st.sections st.sym_map name f change s.settled;
      named = s.named;
    };
  }

  -- What `add` is asked: with fewer symbols absent than `bound`, it ends, and its symbol is there.
  abbrev pub Added : String → LinkState → LinkState → Type 0
  Added n st st' = (has n st'.sym_map ≡ true) × Step objs st st'

  abbrev pub IsAdder : ℕ → (String → LinkState → Run LinkState) → Type 0
  IsAdder bound add =
      (n : String) (st : LinkState)
      → IsSound objs st
      → absent objs st.sym_map < bound
      → Ends (Added n st) (add n st)

  abbrev pub StepPair : {A : Type 0} → LinkState → A × LinkState → Type 0
  StepPair st r = Step objs st r.1

  module _ (bound : ℕ) (add : String → LinkState → Run LinkState) (adder : IsAdder bound add) where
    fewer :
        (st st' : LinkState)
        → Step objs st st'
        → absent objs st.sym_map < bound
        → absent objs st'.sym_map < bound
    fewer st st' step h = omega (arith, absent_mono objs st.sym_map st'.sym_map step.keeps)

    data_symbol :
        (n : String) (st : LinkState)
        → IsSound objs st
        → absent objs st.sym_map < bound
        → Ends (Step objs st) (
            if str_eq n "" || has n st.sym_map
            then return st
            else if has n objs
            then add n st
            else lift (err unknown_gcobj))
    data_symbol n st s h = elim (Bool-cases (str_eq n "" || has n st.sym_map)) [
      | inl t ↦ rw t (Step-refl objs st s)
      | inr t ↦ elim (Bool-cases (has n objs)) [
        | inl known ↦
            rw (t, known)
              (Ends-imp (Added n st) (Step objs st) (add n st) (adder n st s h) (λ st' r. r.1))
        | inr missing ↦ rw (t, missing) tt
      ]
    ]

    pub add_func_data-Step :
        (ns : List String) (st : LinkState)
        → IsSound objs st
        → absent objs st.sym_map < bound
        → Ends (StepPair {A = List ℕ} st) (add_func_data objs add ns st)
    unfolding add_func_data
    add_func_data-Step [] st s h = Step-refl objs st s
    add_func_data-Step (n ∷ ns) st s h =
        Ends-bind (Step objs st) (StepPair {A = List ℕ} st) _ _ (data_symbol n st s h) (λ st' step.
          Ends-bind (StepPair {A = List ℕ} st') (StepPair {A = List ℕ} st)
            (add_func_data objs add ns st') _
            (add_func_data-Step ns st' step.sound (fewer st st' step h))
            (λ (offs, st'') step'. Step-trans objs st st' st'' step step'))

    -- The offset of a symbol without bytes may change.
    no_bytes :
        (name : String) (o : LinkSymbol) (st : LinkState)
        → lookup name objs ≡ some o
        → length o.bytes == 0 ≡ true
        → (o' : LinkSymbol) (e : SymEntry) → lookup name objs ≡ some o'
        → Settled name o' e st.sections
        → Settled name o' (record e { offset = 0 }) st.sections
    no_bytes name o st known empty o' e p (kind, stands) = (
      kind,
      λ _ _.
          subst (Stands (home o'.kind st.sections) 0) (sym (nil o'.bytes none_left))
            ([], home o'.kind st.sections, refl, refl),
    )
      where
        none_left : length o'.bytes ≡ 0
        none_left =
            let same : o ≡ o' = cc in
            subst (λ (t : LinkSymbol). length t.bytes ≡ 0) same (==→eq _ _ empty)

        nil : (b : List ℕ) → length b ≡ 0 → b ≡ []
        nil [] e = refl
        nil (x ∷ b) e = absurd (omega arith)

    own_reloc-Step :
        (reloc : Reloc) (o : LinkSymbol) (st : LinkState)
        → lookup reloc.sym.name objs ≡ some o
        → IsSound objs st
        → Ends (StepPair {A = Reloc} st) (own_reloc objs reloc o st)
    unfolding own_reloc
    own_reloc-Step reloc o st known s = elim (Option-cases (lookup reloc.sym.name st.sym_map)) [
      | inl e ↦ rw (own_reloc, e) tt
      | inr (entry, e) ↦ rw (own_reloc, e) (placed entry)
    ]
      where
        placed :
            (entry : SymEntry)
            → Ends (StepPair {A = Reloc} st) (
                if length o.bytes == 0 && ltb 0 reloc.size
                then (if leb reloc.size int_size
                    then return (
                      record reloc { sym = record (sym_of reloc.sym.name entry) { offset = 0 } },
                      record st {
                        sym_map = update reloc.sym.name (λ s. record s { offset = 0 }) st.sym_map;
                      },
                    )
                    else lift (err size_above_int_size))
                else return (record reloc { sym = sym_of reloc.sym.name entry }, st))
        placed entry = elim (Bool-cases (length o.bytes == 0)) [
          | inr full ↦ rw full (Step-refl objs st s)
          | inl empty ↦ elim (Bool-cases (ltb 0 reloc.size)) [
            | inr t ↦ rw (empty, t) (Step-refl objs st s)
            | inl t ↦ elim (Bool-cases (leb reloc.size int_size)) [
              | inr big ↦ rw (empty, t, big) tt
              | inl small ↦
                  rw (empty, t, small)
                    (update-Step st reloc.sym.name (λ s. record s { offset = 0 })
                      (no_bytes reloc.sym.name o st known empty) s)
            ]
          ]
        ]

    pub fix_reloc-Step :
        (no_tls : lookup tls_name objs ≡ none) (base : ℕ) (loc : Reloc) (st : LinkState)
        → IsSound objs st
        → absent objs st.sym_map < bound
        → Ends (StepPair {A = Reloc} st) (fix_reloc objs add base loc st)
    unfolding fix_reloc
    fix_reloc-Step no_tls base loc st s h = elim (Option-cases (lookup loc.sym.name objs)) [
      | inl missing ↦
          rw (fix_reloc, missing)
            (Ends-bind (StepPair {A = Sym} st) (StepPair {A = Reloc} st)
              (lift (fix_external (with_tls_name loc.kind loc.offset loc.sym) st))
              (λ (sym, st'). return (
                record loc {
                  offset = loc.offset + base;
                  epilogue_offset = loc.epilogue_offset + base;
                  sym = sym;
                },
                st',
              ))
              (lift-Ends (StepPair {A = Sym} st)
                (fix_external (with_tls_name loc.kind loc.offset loc.sym) st)
                (fix_external-Step objs (with_tls_name loc.kind loc.offset loc.sym) st
                  (with_tls_name-missing objs loc.kind loc.offset loc.sym no_tls missing) s))
              (λ (sym, st') step. step))
      | inr (o, known) ↦
          rw (fix_reloc, known)
            (Ends-bind (Added loc.sym.name st) (StepPair {A = Reloc} st) (add loc.sym.name st) _
              (adder loc.sym.name st s h)
              (λ st' (there, step).
                Ends-imp (StepPair {A = Reloc} st') (StepPair {A = Reloc} st) _
                  (own_reloc-Step _ o st' known step.sound)
                  (λ (reloc, st'') step'. Step-trans objs st st' st'' step step')))
    ]

    pub fix_relocs-Step :
        (no_tls : lookup tls_name objs ≡ none) (base : ℕ) (locs : List Reloc) (st : LinkState)
        → IsSound objs st
        → absent objs st.sym_map < bound
        → Ends (StepPair {A = List Reloc} st) (fix_relocs objs add base locs st)
    unfolding fix_relocs
    fix_relocs-Step no_tls base [] st s h = Step-refl objs st s
    fix_relocs-Step no_tls base (loc ∷ locs) st s h =
        Ends-bind (StepPair {A = Reloc} st) (StepPair {A = List Reloc} st)
          (fix_reloc objs add base loc st) _ (fix_reloc-Step no_tls base loc st s h)
          (λ (loc', st') step.
            Ends-bind (StepPair {A = List Reloc} st') (StepPair {A = List Reloc} st)
              (fix_relocs objs add base locs st') _
              (fix_relocs-Step no_tls base locs st' step.sound (fewer st st' step h))
              (λ (locs', st'') step'. Step-trans objs st st' st'' step step'))
