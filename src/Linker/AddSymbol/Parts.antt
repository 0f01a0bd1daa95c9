-- ===== src/Linker/AddSymbol/Parts.antt =====
-- The parts of `addSymbol` that do not call it: constants, inline trees and types.
use text.Mathlib.Text.{◌==◌ as str_eq, starts_with}
use goloader.Shared.{
  ℕ, ◌≡◌, refl, ap, ◌∙◌, inl, inr, Bool, true, false, ◌||◌, List, [], ◌∷◌, ◌++◌, none, String,
  length, ltb, ◌==◌, if◌then◌else◌, Bool-cases, Option-cases,
}
use goloader.Shared.Outcome.{Outcome, ok, checked, ◌>>=◌}
use goloader.Shared.Prefix.{
  Prefix, Prefix-refl, Prefix-append, Prefix-trans, Returns, Returns-bind, Returns-any,
}
use goloader.Segment.{Sym, Reloc, RelocType, r_tls_le, r_tls_ie, ptr_size}
use goloader.Names.{StrMap, lookup, insert, has, is_some, tls_name, type_import_path_prefix}
use goloader.Names.Maps.{has-insert}
use goloader.Reloc.AsmBytes.{Arch}
use goloader.Functions.{FuncInfo, InlTreeNode, NameTable, add_names, name_offset}
use goloader.Functions.NameTab.{IsNamed, name_offset-Adds}
use goloader.Functions.InlineTree.{
  Inlined, add_inline_tree, encode_tree, patch_inline, pad_to, pcdata_inl_tree_index,
  funcdata_inl_tree,
}
use goloader.Linker.Reserve.{bytearray_align}
use goloader.Linker.State.{LinkSymbol, SymEntry, LinkState}
use goloader.Linker.Fixup.{
  with_tls_name, place_constant, fix_external, name_bytes, import_path, is_preprocess_symbol,
  preprocess_symbol, entry_of,
}
use goloader.Linker.Growth.{Grown, Grown-refl, aligned-Prefix}
use goloader.Linker.AddSymbol.{add_type}
use goloader.Linker.AddSymbol.Sound.{
  IsSound, Step, Step-refl, Step-trans, AllSettled-Grown, AllSettled-insert,
}

module _ (objs : StrMap LinkSymbol) where
  pub noptrdata-Step :
      (st : LinkState) (bytes : List ℕ)
      → Prefix st.sections.noptrdata bytes
      → IsSound objs st
      → Step objs st (record st { sections = record st.sections { noptrdata = bytes } })
  noptrdata-Step st bytes p s = record {
    keeps = λ k h. h;
    grown = grown;
    sound = record {
      settled = AllSettled-Grown objs st.sections _ st.sym_map grown s.settled;
      named = s.named;
    };
  }
    where
      grown : Grown st.sections (record st.sections { noptrdata = bytes })
      grown = (
        Prefix-refl st.sections.code,
        Prefix-refl st.sections.data_bytes,
        p,
        Prefix-refl st.sections.bss,
        Prefix-refl st.sections.noptrbss,
      )

  abbrev pub Fixed : Sym → LinkState → Sym × LinkState → Type 0
  Fixed s st r = (r.0.name ≡ s.name) × Step objs st r.1

  place_constant-Fixed :
      (bytes : Outcome (List ℕ)) (s : Sym) (st : LinkState)
      → IsSound objs st
      → Returns (Fixed s st) (place_constant bytes s st)
  unfolding place_constant
  place_constant-Fixed bytes s st sound = elim (Option-cases (lookup s.name st.sym_map)) [
    | inr (e, at) ↦ rw (place_constant, at) (refl, Step-refl objs st sound)
    | inl none_there ↦
        rw (place_constant, none_there)
          (Returns-bind (λ _. Unit {0}) (Fixed s st) bytes _ (Returns-any bytes)
            (λ bs _. (
              refl,
              noptrdata-Step st (bytearray_align (st.sections.noptrdata ++ bs) ptr_size)
                  (Prefix-trans st.sections.noptrdata (st.sections.noptrdata ++ bs) _
                    (Prefix-append st.sections.noptrdata bs)
                    (aligned-Prefix st.sections.noptrdata bs 8))
                  sound,
            )))
  ]

  -- An entry for a symbol that the object files do not have.
  pub insert-Step :
      (st : LinkState) (name : String) (e : SymEntry)
      → lookup name objs ≡ none
      → IsSound objs st
      → Step objs st (record st { sym_map = insert name e st.sym_map })
  insert-Step st name e missing s = record {
    keeps = λ k h. has-insert k name e st.sym_map h;
    grown = Grown-refl st.sections;
    sound = record {
      settled = AllSettled-insert objs st.sections st.sym_map name e (λ o p. absurd (cc)) s.settled;
      named = s.named;
    };
  }

  Fixed-trans :
      (s : Sym) (st : LinkState) (s' : Sym) (st' : LinkState) (r : Sym × LinkState)
      → Fixed s st (s', st')
      → Fixed s' st' r
      → Fixed s st r
  Fixed-trans s st s' st' r (e, f) (e', f') = (e' ∙ e, Step-trans objs st st' r.1 f f')

  -- The two branches for constants.
  constant-Fixed :
      (test : Bool) (s : Sym) (st : LinkState) (run : Outcome (Sym × LinkState))
      → IsSound objs st
      → Returns (Fixed s st) run
      → Returns (Fixed s st) (if test then run else ok (s, st))
  constant-Fixed true s st run sound h = h
  constant-Fixed false s st run sound h = (refl, Step-refl objs st sound)

  pub fix_external-Step :
      (s : Sym) (st : LinkState)
      → lookup s.name objs ≡ none
      → IsSound objs st
      → Returns (λ (r : Sym × LinkState). Step objs st r.1) (fix_external s st)
  unfolding fix_external
  fix_external-Step s st missing sound =
      Returns-bind (Fixed s st) _
        (if starts_with s.name type_import_path_prefix
          then place_constant (name_bytes (import_path s.name)) s st
          else ok (s, st))
        _
        (constant-Fixed (starts_with s.name type_import_path_prefix) s st _ sound
          (place_constant-Fixed (name_bytes (import_path s.name)) s st sound))
        (λ (s', st') (e, f).
          Returns-bind (Fixed s' st') _
            (if is_preprocess_symbol s'.name
              then (preprocess_symbol s'.name >>= λ bs. place_constant (ok bs) s' st')
              else ok (s', st'))
            _
            (constant-Fixed (is_preprocess_symbol s'.name) s' st' _ f.sound (
              Returns-bind (λ _. Unit {0}) (Fixed s' st') (preprocess_symbol s'.name) _
                (Returns-any _) (λ bs _. place_constant-Fixed (ok bs) s' st' f.sound)))
            (λ (s'', st'') (e', f').
              Step-trans objs st st' _ f
                (Step-trans objs st' st'' _ f' (entered s'' st'' (e' ∙ e) f'.sound))))
    where
      entered :
          (s'' : Sym) (st'' : LinkState)
          → s''.name ≡ s.name
          → IsSound objs st''
          → Step objs st'' (
              if has s.name st.sym_map || str_eq s''.name ""
              then st''
              else record st'' { sym_map = insert s''.name (entry_of s'') st''.sym_map })
      entered s'' st'' e sound'' = elim (Bool-cases (has s.name st.sym_map || str_eq s''.name "")) [
        | inl t ↦ rw t (Step-refl objs st'' sound'')
        | inr t ↦
            rw t (
              insert-Step st'' s''.name (entry_of s'') (ap (λ x. lookup x objs) e ∙ missing)
                sound'')
      ]

  -- The name that is looked up for a relocation is not one of the object files' either, where these
  -- have no symbol of the TLS base.
  pub with_tls_name-missing :
      (kind : RelocType) (off : ℕ) (s : Sym)
      → lookup tls_name objs ≡ none
      → lookup s.name objs ≡ none
      → lookup (with_tls_name kind off s).name objs ≡ none
  unfolding with_tls_name
  with_tls_name-missing r_tls_le off s t h = t
  with_tls_name-missing r_tls_ie off s t h = t
  with_tls_name-missing _ off s t h = h

  has-lookup : {V : Type 0} (k : String) (m : StrMap V) → has k m ≡ false → lookup k m ≡ none
  has-lookup k m h = elim (Option-cases (lookup k m)) [ inl e ↦ e | inr (v, e) ↦ cc (ap is_some e) ]

  third_false : (a b c : Bool) → a || (b || c) ≡ false → c ≡ false
  third_false false false c h = h
  third_false false true c h = cc
  third_false true b c h = cc

  pub add_type-Step :
      (o : LinkSymbol) (st : LinkState) → IsSound objs st → Step objs st (add_type objs o st)
  unfolding add_type
  add_type-Step o st sound =
      elim (Bool-cases
        (str_eq o.type_name "" || (has o.type_name st.sym_map || has o.type_name objs))) [
          | inl t ↦ rw t (Step-refl objs st sound)
          | inr t ↦ rw t (
              insert-Step st o.type_name _ (has-lookup o.type_name objs (third_false _ _ _ t))
                sound)
        ]

abbrev pub Carried : Inlined → Inlined → Type 0
Carried s s' = Prefix s.noptrdata s'.noptrdata × (IsNamed s.names → IsNamed s'.names)

add_names-IsNamed :
    (tree : List InlTreeNode) (t : NameTable) → IsNamed t → IsNamed (add_names tree t)
unfolding add_names
add_names-IsNamed [] t n = n
add_names-IsNamed (inl_node ∷ tree) t n =
    add_names-IsNamed tree (name_offset inl_node.func t).1 (name_offset-Adds inl_node.func t n).0

pub add_inline_tree-Carried :
    (arch : Arch) (ids : String → Outcome ℕ) (f : FuncInfo) (relocs : List Reloc) (s : Inlined)
    → Returns (Carried s) (add_inline_tree arch ids f relocs s)
unfolding add_inline_tree
add_inline_tree-Carried arch ids f relocs s = elim (Bool-cases (length f.inl_tree == 0)) [
  | inl e ↦ rw e (Prefix-refl s.noptrdata, λ n. n)
  | inr e ↦ rw e (
      Returns-bind (λ _. Unit {0}) (Carried s)
        (checked (ltb pcdata_inl_tree_index (length pcdata)) pcdata) _ (Returns-any _)
        (λ _ _.
          Returns-bind (λ _. Unit {0}) (Carried s) (patch_inline arch relocs f.pcinline) _
            (Returns-any _)
            (λ table _.
              Returns-bind (λ _. Unit {0}) (Carried s)
                (encode_tree ids (add_names f.inl_tree s.names).offsets f.inl_tree) _
                (Returns-any _)
                (λ tree _.
                  Returns-bind (λ _. Unit {0}) (Carried s)
                    (checked (ltb funcdata_inl_tree (length funcdata)) funcdata) _ (Returns-any _)
                    (λ _ _. (
                      Prefix-trans s.noptrdata (s.noptrdata ++ tree) _
                          (Prefix-append s.noptrdata tree) (aligned-Prefix s.noptrdata tree 8),
                      add_names-IsNamed f.inl_tree s.names,
                    ))))))
]
  where
    pcdata : List ℕ
    pcdata = pad_to pcdata_inl_tree_index s.fn.npcdata s.func.pcdata

    funcdata : List ℕ
    funcdata = pad_to funcdata_inl_tree s.fn.nfuncdata s.func.funcdata
