-- ===== src/Load/Itabs.antt =====
-- The runtime's table of itabs after `removeitabs`.
use goloader.Shared.{
  ℕ, suc, ◌+◌, ◌-◌, ◌≤◌, ◌≡◌, ◌↔◌, ◌⊎◌, refl, subst, true, false, List, [], ◌∷◌, Option, none, some,
  arith, Bool-cases, inl, inr,
}
use mathlib.Core.Option.{some-injective}
use goloader.Load.{Itab, ItabTable, in_types, is_of_module, remove_itabs_loop, remove_itabs}

-- How many entries hold an itab.
abbrev pub occupied : List (Option Itab) → ℕ
occupied [] = 0
occupied (none ∷ es) = occupied es
occupied (some m ∷ es) = suc (occupied es)

-- Between the start of the module's types and their end, both included.
abbrev pub LiesIn : ℕ → ℕ → ℕ → Type 0
LiesIn types etypes a = (types ≤ a) × (a ≤ etypes)

-- The itab itself, its interface or its type lies in the module.
abbrev pub OfModule : ℕ → ℕ → Itab → Type 0
OfModule types etypes m =
    LiesIn types etypes m.inter
    ⊎ (LiesIn types etypes m.type_address ⊎ LiesIn types etypes m.address)

OfModule-sound :
    (types etypes : ℕ) (m : Itab) → is_of_module types etypes m ≡ true → OfModule types etypes m
OfModule-sound types etypes m h = elim (Bool-cases (in_types types etypes m.inter)) [
  | inl a ↦ inl (ground (arith, a), ground (arith, a))
  | inr a ↦ elim (Bool-cases (in_types types etypes m.type_address)) [
    | inl b ↦ inr (inl (ground (arith, b), ground (arith, b)))
    | inr b ↦ let c = rw (a, b) at h in inr (inr (ground (arith, c), ground (arith, c)))
  ]
]

not-OfModule :
    (types etypes : ℕ) (m : Itab)
    → is_of_module types etypes m ≡ false
    → OfModule types etypes m
    → ⊥
not-OfModule types etypes m h (inl (a, b)) = ground (arith, h)
not-OfModule types etypes m h (inr (inl (a, b))) = ground (arith, h)
not-OfModule types etypes m h (inr (inr (a, b))) = ground (arith, h)

-- No entry of the second list refers to the module, and the entries of the first that do not
-- refer to it stand in the second at the same place.
abbrev pub Cleaned : ℕ → ℕ → List (Option Itab) → List (Option Itab) → Type 0
Cleaned types etypes [] [] = Unit
Cleaned types etypes [] (e ∷ es) = ⊥
Cleaned types etypes (d ∷ ds) [] = ⊥
Cleaned types etypes (d ∷ ds) (e ∷ es) =
    ((m : Itab) → (e ≡ some m) ↔ ((d ≡ some m) × (OfModule types etypes m → ⊥)))
    × Cleaned types etypes ds es

loop_lem :
    (types etypes : ℕ) (es : List (Option Itab)) (count : ℕ)
    → occupied es ≤ count
    → Cleaned types etypes es (remove_itabs_loop types etypes es count).0
      × ((remove_itabs_loop types etypes es count).1 + occupied es
          ≡ count + occupied (remove_itabs_loop types etypes es count).0)
unfolding remove_itabs_loop
loop_lem types etypes [] count h = (tt, refl)
loop_lem types etypes (none ∷ es) count h =
    let (c, n) = loop_lem types etypes es count h in ((λ m. (λ e. cc, λ (e, f). e), c), n)
loop_lem types etypes (some m ∷ es) count h = elim (Bool-cases (is_of_module types etypes m)) [
  | inl e ↦
      let (c, n) = loop_lem types etypes es (count - 1) (omega arith) in
      rw e (
        (
          λ k. (
            λ f. cc,
            λ (f, g). absurd (
                g (
                  subst (OfModule types etypes) (some-injective m k f)
                    (OfModule-sound types etypes m e))),
          ),
          c,
        ),
        omega (arith, n),
      )
  | inr e ↦
      let (c, n) = loop_lem types etypes es count (omega arith) in
      rw e (
        (
          λ k. (
            λ f. (
              f,
              not-OfModule types etypes k
                  (subst (λ x. is_of_module types etypes x ≡ false) (some-injective m k f) e),
            ),
            λ (f, g). f,
          ),
          c,
        ),
        omega (arith, n),
      )
]

-- In a table that counts its itabs, removeitabs empties exactly the entries whose itab, interface or
-- type lies in the module's types, leaves the others at their places, and the table still counts
-- its itabs.
pub remove_itabs-Cleaned :
    (types etypes : ℕ) (t : ItabTable)
    → t.count ≡ occupied t.entries
    → Cleaned types etypes t.entries (remove_itabs types etypes t).entries
      × ((remove_itabs types etypes t).count ≡ occupied (remove_itabs types etypes t).entries)
unfolding remove_itabs
remove_itabs-Cleaned types etypes t h =
    let (c, n) = loop_lem types etypes t.entries t.count (omega arith) in (c, omega (arith, n))
