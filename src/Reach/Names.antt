-- ===== src/Reach/Names.antt =====
-- Sets of names, and how many names of a universe are missing in one.
use text.Mathlib.Text.{◌==◌ as str_eq}
use goloader.Shared.{
  length, ℕ, suc, ◌≤◌, ◌<◌, ◌≡◌, ◌⊎◌, inl, inr, refl, true, false, ◌++◌, List, [], ◌∷◌, String,
  arith, Bool-cases, if◌then◌else◌,
}
use text.Mathlib.TextEquality.{eq_iff}
use goloader.Names.{contains}

abbrev pub In : String → List String → Type 0
In x s = contains x s ≡ true

abbrev pub Sub : List String → List String → Type 0
Sub s t = (x : String) → In x s → In x t

pub In_nil : (x : String) → In x [] → ⊥
unfolding contains
In_nil x i = cc

pub In-cons : (x n : String) (s : List String) → In x s → In x (n ∷ s)
unfolding contains
In-cons x n s h = ground (arith, h)

pub In_head : (n : String) (s : List String) → In n (n ∷ s)
unfolding contains
In_head n s = rw ((eq_iff n n).1 refl)

pub In_cases : (x n : String) (s : List String) → In x (n ∷ s) → (n ≡ x) ⊎ In x s
unfolding contains
In_cases x n s h = elim (Bool-cases (str_eq n x)) [
  | inl e ↦ inl ((eq_iff n x).0 e)
  | inr e ↦ inr (rw e at h)
]

pub In-append_left : (x : String) (s t : List String) → In x s → In x (s ++ t)
unfolding contains
In-append_left x [] t h = cc
In-append_left x (n ∷ s) t h = elim (In_cases x n s h) [
  | inl e ↦ ground (arith, (eq_iff n x).1 e)
  | inr e ↦ ground (arith, In-append_left x s t e)
]

-- How many names of a universe are missing in a set.
abbrev pub missing : List String → List String → ℕ
missing [] s = 0
missing (u ∷ us) s = let rest = missing us s in if contains u s then rest else suc rest

pub missing_mono : (us s t : List String) → Sub s t → missing us t ≤ missing us s
missing_mono [] s t h = omega arith
missing_mono (u ∷ us) s t h = elim (Bool-cases (contains u s)) [
  | inl e ↦ rw (e, h u e) (missing_mono us s t h)
  | inr e ↦ ground (arith, missing_mono us s t h)
]

-- A new name of the universe is missing no longer.
pub missing-cons :
    (us : List String) (n : String) (s : List String)
    → In n us
    → contains n s ≡ false
    → missing us (n ∷ s) < missing us s
unfolding contains
missing-cons [] n s h new = cc
missing-cons (u ∷ us) n s h new = elim (In_cases n u us h) [
  | inl e ↦
      rw (e, (eq_iff n n).1 refl, new)
        (ground (arith, missing_mono us s (n ∷ s) (λ x. In-cons x n s)))
  | inr k ↦ ground (arith, missing-cons us n s k new)
]

pub missing-le-length : (us s : List String) → missing us s ≤ length us
missing-le-length [] s = omega arith
missing-le-length (u ∷ us) s = ground (arith, missing-le-length us s)
