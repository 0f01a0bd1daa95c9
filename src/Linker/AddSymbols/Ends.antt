-- ===== src/Linker/AddSymbols/Ends.antt =====
-- `addSymbols` ends; what it leaves is, once loaded, at the offsets of its symbols.
use goloader.Shared.{
  ℕ, ◌<◌, ◌≡◌, ap, inl, inr, Bool, true, List, [], ◌∷◌, none, some, String, arith, Bool-cases,
  Option-cases,
}
use goloader.Shared.Run.{Ends, Ends-bind, Ends-imp}
use goloader.Names.{StrMap, lookup, has, contains, tls_name}
use goloader.Reloc.AsmBytes.{Arch}
use goloader.Linker.State.{LinkSymbol, LinkState}
use goloader.Linker.AddSymbol.{add_symbol}
use goloader.Linker.AddSymbol.Measure.{absent, absent_mono}
use goloader.Linker.AddSymbol.Sound.{IsSound, Step, Step-refl, Step-trans}
use goloader.Linker.AddSymbol.Ends.{add_symbol-Added}
use goloader.Linker.AddSymbols.{is_added, add_one, add_all, init_state}

-- Each name that is reachable, and that the loop adds for itself, is in the map.
abbrev pub AllAdded {ℓ} :
    {V : Type ℓ} → StrMap LinkSymbol → List String → List String → StrMap V → Type 0
AllAdded objs reachable [] m = Unit
AllAdded objs reachable (name ∷ names) m =
    ((o : LinkSymbol)
      → contains name reachable ≡ true
      → lookup name objs ≡ some o
      → is_added name o ≡ true
      → has name m ≡ true)
    × AllAdded objs reachable names m

module _ (arch : Arch) (ne : Bool) (objs : StrMap LinkSymbol) (reachable : List String) (fuel : ℕ)
    (no_tls : lookup tls_name objs ≡ none) where
  abbrev One : String → LinkState → LinkState → Type 0
  One name st st' =
      Step objs st st'
      × ((o : LinkSymbol)
          → contains name reachable ≡ true
          → lookup name objs ≡ some o
          → is_added name o ≡ true
          → has name st'.sym_map ≡ true)

  add_one-Ends :
      (name : String) (st : LinkState)
      → IsSound objs st
      → absent objs st.sym_map < fuel
      → Ends (One name st) (add_one arch ne objs reachable fuel name st)
  unfolding add_one
  add_one-Ends name st s h = elim (Bool-cases (has name st.sym_map)) [
    | inl there ↦ rw there (Step-refl objs st s, λ o c p a. there)
    | inr fresh ↦ elim (Bool-cases (contains name reachable)) [
      | inr dead ↦ rw (fresh, dead) (Step-refl objs st s, λ o c p a. absurd (cc))
      | inl live ↦ elim (Option-cases (lookup name objs)) [
        | inl missing ↦ rw (fresh, live, add_one, missing) tt
        | inr (o, known) ↦ elim (Bool-cases (is_added name o)) [
          | inl t ↦
              rw (fresh, live, add_one, known, t)
                (Ends-imp (λ st'. (has name st'.sym_map ≡ true) × Step objs st st') (One name st)
                  (add_symbol arch ne objs fuel name st)
                  (add_symbol-Added arch ne objs fuel name st no_tls h s)
                  (λ st' (there, step). (step, λ o' c p a. there)))
          | inr t ↦
              rw (fresh, live, add_one, known, t)
                (
                  Step-refl objs st s,
                  λ o' c p a. let same : o ≡ o' = cc in absurd (cc (ap (is_added name) same)),
                )
        ]
      ]
    ]
  ]

  pub add_all-Ends :
      (names : List String) (st : LinkState)
      → IsSound objs st
      → absent objs st.sym_map < fuel
      → Ends
          (λ st'. Step objs st st' × AllAdded objs reachable names st'.sym_map)
          (add_all arch ne objs reachable fuel names st)
  unfolding add_all
  add_all-Ends [] st s h = (Step-refl objs st s, tt)
  add_all-Ends (name ∷ names) st s h =
      Ends-bind (One name st) _ (add_one arch ne objs reachable fuel name st) _
        (add_one-Ends name st s h)
        (λ st' (step, one).
          Ends-imp (λ st''. Step objs st' st'' × AllAdded objs reachable names st''.sym_map) _
            (add_all arch ne objs reachable fuel names st')
            (add_all-Ends names st' step.sound
              (omega (arith, absent_mono objs st.sym_map st'.sym_map step.keeps)))
            (λ st'' (step', others). (
              Step-trans objs st st' st'' step step',
              ((λ o c p a. step'.keeps name (one o c p a)), others),
            )))

-- The state of a new linker.
pub init_state-IsSound : (objs : StrMap LinkSymbol) → IsSound objs init_state
unfolding lookup
init_state-IsSound objs = record {
  settled = λ name o e p q. absurd (cc);
  named = record {
    padded = omega arith;
    holds = λ name o e. absurd (cc);
    positive = λ name o e. absurd (cc);
  };
}
