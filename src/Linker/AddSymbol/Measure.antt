-- ===== src/Linker/AddSymbol/Measure.antt =====
-- The symbols of the object files that are not in the map yet: each call of `addSymbol` that recurs
-- enters one.
use text.Mathlib.Text.{◌==◌ as str_eq}
use text.Mathlib.TextEquality.{eq_iff}
use goloader.Shared.{
  ℕ, ◌+◌, ◌≤◌, ◌<◌, ◌≡◌, inl, inr, Bool, true, false, [], ◌∷◌, some, String, length, if◌then◌else◌,
  arith, Bool-cases,
}
use goloader.Names.{StrMap, lookup, has}

module _ {W : Type 0} where
  -- The map `m'` has all that `m` has.
  abbrev pub Keeps : StrMap W → StrMap W → Type 0
  Keeps m m' = (k : String) → has k m ≡ true → has k m' ≡ true

  count_le :
      (k : String) (m m' : StrMap W)
      → Keeps m m'
      → (if has k m' then 0 else 1) ≤ (if has k m then 0 else 1)
  count_le k m m' h = elim (Bool-cases (has k m)) [
    | inl e ↦ rw (e, h k e) (omega arith)
    | inr e ↦ rw e (below (has k m'))
  ]
    where
      below : (b : Bool) → (if b then 0 else 1) ≤ 1
      below true = omega arith
      below false = omega arith

module _ {V W : Type 0} where
  pub absent : StrMap V → StrMap W → ℕ
  absent [] m = 0
  absent ((k, v) ∷ objs) m = (if has k m then 0 else 1) + absent objs m

  pub absent_mono :
      (objs : StrMap V) (m m' : StrMap W) → Keeps m m' → absent objs m' ≤ absent objs m
  unfolding absent
  absent_mono [] m m' h = omega arith
  absent_mono ((k, v) ∷ objs) m m' h = omega (arith, count_le k m m' h, absent_mono objs m m' h)

  pub absent_lt :
      (objs : StrMap V) (m m' : StrMap W) (n : String) (o : V)
      → Keeps m m'
      → lookup n objs ≡ some o
      → has n m ≡ false
      → has n m' ≡ true
      → absent objs m' < absent objs m
  unfolding absent lookup
  absent_lt [] m m' n o h e was_not has_it = cc
  absent_lt ((k, v) ∷ objs) m m' n o h e was_not has_it = elim (Bool-cases (str_eq k n)) [
    | inr other ↦
        omega (arith, count_le k m m' h, absent_lt objs m m' n o h (rw other at e) was_not has_it)
    | inl same ↦
        let kn = (eq_iff k n).0 same in
        let old : ◌≡◌ {A = ℕ} (if has k m then 0 else 1) 1 = rw (kn, was_not) in
        let new : ◌≡◌ {A = ℕ} (if has k m' then 0 else 1) 0 = rw (kn, has_it) in
        omega (arith, old, new, absent_mono objs m m' h)
  ]

  pub absent-le-length : (objs : StrMap V) (m : StrMap W) → absent objs m ≤ length objs
  unfolding absent
  absent-le-length [] m = omega arith
  absent-le-length ((k, v) ∷ objs) m = elim (Bool-cases (has k m)) [
    | inl e ↦ rw e (omega (arith, absent-le-length objs m))
    | inr e ↦ rw e (omega (arith, absent-le-length objs m))
  ]
