-- ===== src/Linker/AddSymbol/Sound.antt =====
-- What holds of the linker's state while symbols are added, and what a step of `addSymbol` keeps.
use text.Mathlib.Text.{starts_with}
use goloader.Shared.{◌≡◌, sym, subst, inl, inr, false, some, String}
use goloader.Shared.Prefix.{Stands}
use goloader.Names.{StrMap, lookup, insert, update, type_string_prefix}
use goloader.Names.Maps.{lookup-insert_cases, lookup-update_cases}
use goloader.Load.{Sections}
use goloader.Functions.NameTab.{IsNamed}
use goloader.Linker.State.{LinkSymbol, SymEntry, LinkState}
use goloader.Linker.Growth.{Grown, Grown-refl, Grown-trans, home, HasHome, Stands-Grown}
use goloader.Linker.AddSymbol.Measure.{Keeps}

-- The entry of a symbol of the object files: its bytes stand at its offset in the section of its
-- kind. String constants have no place.
abbrev pub Settled : String → LinkSymbol → SymEntry → Sections → Type 0
Settled name o e x =
    (e.kind ≡ o.kind)
    × (HasHome o.kind
        → starts_with name type_string_prefix ≡ false
        → Stands (home o.kind x) e.offset o.bytes)

abbrev pub AllSettled : StrMap LinkSymbol → Sections → StrMap SymEntry → Type 0
AllSettled objs x m =
    (name : String) (o : LinkSymbol) (e : SymEntry)
    → lookup name objs ≡ some o
    → lookup name m ≡ some e
    → Settled name o e x

-- The state: every symbol stands at its place, and the names of functions at theirs.
pub record IsSound (objs : StrMap LinkSymbol) (st : LinkState) : Type 0 where
  pub settled : AllSettled objs st.sections st.sym_map
  pub named : IsNamed st.names

-- A step from a state to a later one: no entry is lost, no byte of a section moves, and the later
-- state is sound.
pub record Step (objs : StrMap LinkSymbol) (st st' : LinkState) : Type 0 where
  pub keeps : Keeps st.sym_map st'.sym_map
  pub grown : Grown st.sections st'.sections
  pub sound : IsSound objs st'

module _ (objs : StrMap LinkSymbol) where
  pub Step-refl : (st : LinkState) → IsSound objs st → Step objs st st
  Step-refl st s = record { keeps = λ k h. h; grown = Grown-refl st.sections; sound = s }

  pub Step-trans : (a b c : LinkState) → Step objs a b → Step objs b c → Step objs a c
  Step-trans a b c s t = record {
    keeps = λ k h. t.keeps k (s.keeps k h);
    grown = Grown-trans a.sections b.sections c.sections s.grown t.grown;
    sound = t.sound;
  }

  pub AllSettled-Grown :
      (x y : Sections) (m : StrMap SymEntry) → Grown x y → AllSettled objs x m → AllSettled objs y m
  AllSettled-Grown x y m g s name o e p q =
      let (kind, stands) = s name o e p q in
      (kind, λ h n. Stands-Grown o.kind x y e.offset o.bytes g (stands h n))

  -- A new entry, which is settled if the object files have the symbol.
  pub AllSettled-insert :
      (x : Sections) (m : StrMap SymEntry) (name : String) (e : SymEntry)
      → ((o : LinkSymbol) → lookup name objs ≡ some o → Settled name o e x)
      → AllSettled objs x m
      → AllSettled objs x (insert name e m)
  AllSettled-insert x m name e new s k o f p q = elim (lookup-insert_cases k name e f m q) [
    | inr old ↦ s k o f p old
    | inl (same, eq) ↦
        subst (λ (t : SymEntry). Settled k o t x) eq
          (subst (λ (t : String). Settled t o e x) same
            (new o (subst (λ (t : String). lookup t objs ≡ some o) (sym same) p)))
  ]

  -- A change of one entry that keeps it settled.
  pub AllSettled-update :
      (x : Sections) (m : StrMap SymEntry) (name : String) (f : SymEntry → SymEntry)
      → ((o : LinkSymbol) (e : SymEntry)
          → lookup name objs ≡ some o
          → Settled name o e x
          → Settled name o (f e) x)
      → AllSettled objs x m
      → AllSettled objs x (update name f m)
  AllSettled-update x m name f change s k o e p q = elim (lookup-update_cases k name f e m q) [
    | inl old ↦ s k o e p old
    | inr (same, (v, at, eq)) ↦
        subst (λ (t : SymEntry). Settled k o t x) eq
          (subst (λ (t : String). Settled t o (f v) x) same
            (change o v (subst (λ (t : String). lookup t objs ≡ some o) (sym same) p)
              (subst (λ (t : String). Settled t o v x) (sym same) (s k o v p at))))
  ]
