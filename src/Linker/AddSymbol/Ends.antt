-- ===== src/Linker/AddSymbol/Ends.antt =====
-- `addSymbol` ends, and leaves every symbol at its place.
use goloader.Shared.{
  ℕ, zero, suc, ◌<◌, ◌≡◌, refl, inl, inr, Bool, true, false, List, [], ◌∷◌, ◌++◌, none, some,
  String, length, set, arith, Bool-cases, Option-cases, subst, sym,
}
use goloader.Shared.Run.{Run, lift, Ends, Ends-bind, Ends-imp}
use goloader.Segment.{Reloc, ptr_size}
use goloader.Names.{StrMap, lookup, insert, has, tls_name}
use goloader.Names.Maps.{has-insert, has-insert_self}
use goloader.Reloc.AsmBytes.{Arch}
use goloader.Functions.{FuncInfo, FuncRecord, Func, name_offset, patch_tables, append_tables}
use goloader.Functions.NameTab.{IsNamed, name_offset-Adds}
use goloader.Functions.InlineTree.{Inlined, add_inline_tree}
use goloader.Linker.Reserve.{bytearray_align}
use goloader.Linker.Place.{Placed, place_symbol}
use goloader.Linker.State.{LinkSymbol, LinkState}
use goloader.Linker.Growth.{Grown, Grown-refl, PutDown, place_symbol-PutDown}
use goloader.Linker.AddSymbol.{
  func_ids, inline_func, add_func_data, read_func_data, read_func, fix_relocs, add_new, add_symbol,
  fresh_entry, symbol_size, is_stext,
}
use goloader.Linker.AddSymbol.Measure.{absent, absent_mono, absent_lt}
use goloader.Linker.AddSymbol.Sound.{
  Settled, IsSound, Step, Step-refl, Step-trans, AllSettled-Grown, AllSettled-insert,
}
use goloader.Linker.AddSymbol.Parts.{noptrdata-Step, add_inline_tree-Carried, add_type-Step}
use goloader.Linker.AddSymbol.Calls.{
  lift-Ends, any-Ends, update-Step, Added, IsAdder, StepPair, add_func_data-Step, fix_relocs-Step,
}

module _ (arch : Arch) (ne : Bool) (objs : StrMap LinkSymbol) where
  -- What the changes of the tables alone keep.
  tables-Step :
      (st st' : LinkState)
      → st'.sections ≡ st.sections
      → st'.sym_map ≡ st.sym_map
      → IsNamed st'.names
      → IsSound objs st
      → Step objs st st'
  tables-Step st st' x m n s = record {
    keeps = λ k h. rw m h;
    grown = subst (Grown st.sections) (sym x) (Grown-refl st.sections);
    sound = record { settled = λ k o e p q. rw x (s.settled k o e p (rw m at q)); named = n };
  }

  inline_func-Step :
      (name : String) (f : FuncInfo) (relocs : List Reloc) (index : ℕ) (fn : FuncRecord)
      (func : Func) (st : LinkState)
      → IsSound objs st
      → Ends (Step objs st) (inline_func arch ne objs name f relocs index fn func st)
  unfolding inline_func
  inline_func-Step name f relocs index fn func st s =
      Ends-bind _ (Step objs st) (lift (add_inline_tree arch (func_ids objs) f relocs before)) _
        (lift-Ends _ (add_inline_tree arch (func_ids objs) f relocs before)
          (add_inline_tree-Carried arch (func_ids objs) f relocs before))
        (λ s' (grown, named).
          let step = noptrdata-Step objs st s'.noptrdata grown s in
          let st1 = record st { sections = record st.sections { noptrdata = s'.noptrdata } } in
          let st2 = record st1 {
            names = s'.names;
            pctab = bytearray_align s'.pctab ptr_size;
            funcs = set st.funcs index s'.fn;
          } in
          let step' = tables-Step st1 st2 refl refl (named s.named) step.sound in
          Step-trans objs st st1 _ step (
            Step-trans objs st1 st2 _ step' (
              update-Step objs st2 name (λ e. record e { func = some s'.func })
                (λ o e p settled. settled) step'.sound)))
    where
      before : Inlined
      before = record {
        fn = fn;
        func = func;
        names = st.names;
        pctab = st.pctab;
        noptrdata = st.sections.noptrdata;
      }

  module _ (no_tls : lookup tls_name objs ≡ none) (bound : ℕ)
      (add : String → LinkState → Run LinkState) (adder : IsAdder objs bound add) where
    fewer :
        (st st' : LinkState)
        → Step objs st st'
        → absent objs st.sym_map < bound
        → absent objs st'.sym_map < bound
    fewer st st' step h = omega (arith, absent_mono objs st.sym_map st'.sym_map step.keeps)

    read_func_data-Step :
        (name : String) (f : FuncInfo) (relocs : List Reloc) (st : LinkState)
        → IsSound objs st
        → absent objs st.sym_map < bound
        → Ends (Step objs st) (read_func_data arch ne objs add name f relocs st)
    unfolding read_func_data
    read_func_data-Step name f relocs st s h =
        Ends-bind (λ _. Unit {0}) (Step objs st) (lift (patch_tables arch relocs f)) _
          (any-Ends (patch_tables arch relocs f))
          (λ f' _.
            let (fn, offs, pctab) = append_tables f' (name_offset name st.names).0 st.pctab in
            let st1 = record st {
              names = (name_offset name st.names).1;
              pctab = pctab;
              funcs = st.funcs ++ fn ∷ [];
            } in
            let step = tables-Step st st1 refl refl (name_offset-Adds name st.names s.named).0 s in
            Ends-bind (StepPair objs {A = List ℕ} st1) (Step objs st)
              (add_func_data objs add f'.func_data st1) _
              (add_func_data-Step objs bound add adder f'.func_data st1 step.sound h)
              (λ (funcdata, st2) step'.
                Ends-imp (Step objs st2) (Step objs st) _
                  (inline_func-Step name f' relocs (length st.funcs) fn _ st2 step'.sound)
                  (λ st3 step''.
                    Step-trans objs st st1 st3 step (Step-trans objs st1 st2 st3 step' step''))))

    read_func-Step :
        (name : String) (o : LinkSymbol) (relocs : List Reloc) (st : LinkState)
        → IsSound objs st
        → absent objs st.sym_map < bound
        → Ends (Step objs st) (read_func arch ne objs add name o relocs st)
    read_func-Step name o relocs st s h = elim (Bool-cases (is_stext o.kind)) [
      | inr other ↦ rw other (Step-refl objs st s)
      | inl text ↦ elim (Option-cases o.func) [
        | inl missing ↦ rw (text, missing) tt
        | inr (f, there) ↦ rw (text, there) (read_func_data-Step name f relocs st s h)
      ]
    ]

    -- The state with the new symbol's bytes and its entry.
    abbrev entered : String → LinkSymbol → Placed → LinkState → LinkState
    entered name o p st = record st {
      sections = p.sections;
      heap_strings = p.heap_strings;
      sym_map = insert name (record (fresh_entry o) { offset = p.offset }) st.sym_map;
    }

    entered-Step :
        (name : String) (o : LinkSymbol) (p : Placed) (st : LinkState)
        → lookup name objs ≡ some o
        → PutDown o.kind name o.bytes st.sections p
        → IsSound objs st
        → Step objs st (entered name o p st)
    entered-Step name o p st known (grown, stands) s = record {
      keeps = λ k h. has-insert k name _ st.sym_map h;
      grown = grown;
      sound = record {
        settled =
            AllSettled-insert objs p.sections st.sym_map name _
              (λ o' k.
                let same : o ≡ o' = cc in
                subst
                  (λ (t : LinkSymbol).
                    Settled name t (record (fresh_entry o) { offset = p.offset }) p.sections)
                  same (refl, stands))
              (AllSettled-Grown objs st.sections p.sections st.sym_map grown s.settled);
        named = s.named;
      };
    }

    add_new-Added :
        (name : String) (o : LinkSymbol) (st : LinkState)
        → lookup name objs ≡ some o
        → has name st.sym_map ≡ false
        → IsSound objs st
        → absent objs st.sym_map < suc bound
        → Ends (Added objs name st) (add_new arch ne objs add name o st)
    unfolding add_new
    add_new-Added name o st known fresh s h =
        Ends-bind (PutDown o.kind name o.bytes st.sections) (Added objs name st)
          (lift (place_symbol arch ne o.kind name o.bytes o.relocs st.sections st.heap_strings)) _
          (lift-Ends (PutDown o.kind name o.bytes st.sections)
            (place_symbol arch ne o.kind name o.bytes o.relocs st.sections st.heap_strings)
            (place_symbol-PutDown arch ne name o.bytes o.relocs st.sections st.heap_strings o.kind))
          (λ p put.
            let st1 = entered name o p st in
            let step1 = entered-Step name o p st known put s in
            let there = has-insert_self name _ st.sym_map in
            let less = absent_lt objs st.sym_map st1.sym_map name o step1.keeps known fresh there in
            Ends-bind (Step objs st1) (Added objs name st)
              (read_func arch ne objs add name o p.relocs st1) _
              (read_func-Step name o p.relocs st1 step1.sound (omega arith))
              (λ st2 step2.
                Ends-bind (StepPair objs {A = List Reloc} st2) (Added objs name st)
                  (fix_relocs objs add p.offset p.relocs st2) _
                  (fix_relocs-Step objs bound add adder no_tls p.offset p.relocs st2 step2.sound
                    (fewer st1 st2 step2 (omega arith)))
                  (λ (relocs, st3) step3.
                    let step4 =
                      update-Step objs st3 name
                        (λ e. record e { size = symbol_size o p.offset st2; relocs = relocs })
                        (λ o' e q settled. settled) step3.sound in
                    let step5 = add_type-Step objs o _ step4.sound in
                    let later =
                      Step-trans objs st1 st2 _ step2
                        (Step-trans objs st2 st3 _ step3 (Step-trans objs st3 _ _ step4 step5)) in
                    (later.keeps name there, Step-trans objs st st1 _ step1 later))))

-- With more fuel than symbols of the object files are missing in the map, `addSymbol` ends, for
-- every symbol and every state that is sound, where the object files have no symbol of the TLS
-- base. If it returns, its symbol is in the map; no entry is lost; the sections have only grown at
-- their ends; and the state is sound: at the offset of every symbol of the object files that the
-- map has stand that symbol's bytes, in the section of its kind (string constants apart), and the
-- names of the functions stand at theirs.
pub add_symbol-Added :
    (arch : Arch) (ne : Bool) (objs : StrMap LinkSymbol) (fuel : ℕ) (name : String) (st : LinkState)
    → lookup tls_name objs ≡ none
    → absent objs st.sym_map < fuel
    → IsSound objs st
    → Ends
        (λ st'. (has name st'.sym_map ≡ true) × Step objs st st')
        (add_symbol arch ne objs fuel name st)
unfolding add_symbol
add_symbol-Added arch ne objs zero name st no_tls h s = absurd (omega arith)
add_symbol-Added arch ne objs (suc fuel) name st no_tls h s =
    elim (Bool-cases (has name st.sym_map)) [
      | inl there ↦ rw there (there, Step-refl objs st s)
      | inr fresh ↦ elim (Option-cases (lookup name objs)) [
        | inl missing ↦ rw (fresh, add_symbol, missing) tt
        | inr (o, known) ↦
            rw (fresh, add_symbol, known)
              (add_new-Added arch ne objs no_tls fuel (add_symbol arch ne objs fuel)
                (λ n st' s' h'. add_symbol-Added arch ne objs fuel n st' no_tls h' s') name o st
                known fresh s h)
      ]
    ]
