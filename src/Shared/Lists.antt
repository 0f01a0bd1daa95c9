-- ===== src/Shared/Lists.antt =====
-- Lists by native positions.
use Prim.Native.Nat.{ℕ, zero, suc, ◌+◌, ◌≤◌, ◌<◌}
use mathlib.Core.Path.{◌≡◌, refl, ap, subst}
use mathlib.Core.Logic.{◌⊎◌, inl, inr}
use mathlib.Core.List.{List, [], ◌∷◌, ◌++◌}
use mathlib.Core.Option.{Option, none, some, some-injective}
use native.Mathlib.Omega.{arith}

module _ {ℓ} {A : Type ℓ} where
  abbrev pub length : List A → ℕ
  length [] = 0
  length (x ∷ xs) = suc (length xs)

  abbrev pub get_elem? : List A → ℕ → Option A
  get_elem? [] i = none
  get_elem? (x ∷ xs) zero = some x
  get_elem? (x ∷ xs) (suc i) = get_elem? xs i

  abbrev pub take : ℕ → List A → List A
  take zero xs = []
  take (suc n) [] = []
  take (suc n) (x ∷ xs) = x ∷ take n xs

  abbrev pub drop : ℕ → List A → List A
  drop zero xs = xs
  drop (suc n) [] = []
  drop (suc n) (x ∷ xs) = drop n xs

  abbrev pub replicate : ℕ → A → List A
  replicate zero x = []
  replicate (suc n) x = x ∷ replicate n x

  pub length-append : (xs ys : List A) → length (xs ++ ys) ≡ length xs + length ys
  length-append [] ys = omega arith
  length-append (x ∷ xs) ys = omega (arith, length-append xs ys)

  pub length-replicate : (n : ℕ) (x : A) → length (replicate n x) ≡ n
  length-replicate zero x = refl
  length-replicate (suc n) x = ap suc (length-replicate n x)

  pub length-take : (n : ℕ) (xs : List A) → n ≤ length xs → length (take n xs) ≡ n
  length-take zero xs h = refl
  length-take (suc n) [] h = absurd (omega arith)
  length-take (suc n) (x ∷ xs) h = ap suc (length-take n xs (omega arith))

  pub take-append_left : (xs ys : List A) → take (length xs) (xs ++ ys) ≡ xs
  take-append_left [] ys = refl
  take-append_left (x ∷ xs) ys = ap (◌∷◌ x) (take-append_left xs ys)

  pub drop-append_left : (xs ys : List A) → drop (length xs) (xs ++ ys) ≡ ys
  drop-append_left [] ys = refl
  drop-append_left (x ∷ xs) ys = drop-append_left xs ys

module _ {ℓ} {A : Type ℓ} where
  abbrev pub get_or : List A → ℕ → A → A
  get_or [] i d = d
  get_or (x ∷ xs) zero d = x
  get_or (x ∷ xs) (suc i) d = get_or xs i d

  -- A write out of bounds changes nothing.
  abbrev pub set : List A → ℕ → A → List A
  set [] i v = []
  set (x ∷ xs) zero v = v ∷ xs
  set (x ∷ xs) (suc i) v = x ∷ set xs i v

  pub length-set : (xs : List A) (i : ℕ) (v : A) → length (set xs i v) ≡ length xs
  length-set [] i v = refl
  length-set (x ∷ xs) zero v = refl
  length-set (x ∷ xs) (suc i) v = ap suc (length-set xs i v)

  pub get_elem?-some : (xs : List A) (i : ℕ) → i < length xs → (x : A) × (get_elem? xs i ≡ some x)
  get_elem?-some [] i h = absurd (omega arith)
  get_elem?-some (x ∷ xs) zero h = (x, refl)
  get_elem?-some (x ∷ xs) (suc i) h = get_elem?-some xs i (omega arith)

  -- What holds of each element, by its position, holds after a write that keeps it.
  pub get_elem?-set_each {κ} :
      (P : ℕ → A → Type κ) (xs : List A) (i : ℕ) (v : A)
      → ((m : ℕ) (x : A) → get_elem? xs m ≡ some x → P m x)
      → P i v
      → (m : ℕ) (x : A) → get_elem? (set xs i v) m ≡ some x
      → P m x
  get_elem?-set_each P [] i v h p m x e = h m x e
  get_elem?-set_each P (y ∷ xs) zero v h p zero x e = subst (P 0) (some-injective _ _ e) p
  get_elem?-set_each P (y ∷ xs) zero v h p (suc m) x e = h (suc m) x e
  get_elem?-set_each P (y ∷ xs) (suc i) v h p zero x e = h 0 x e
  get_elem?-set_each P (y ∷ xs) (suc i) v h p (suc m) x e =
      get_elem?-set_each (λ k. P (suc k)) xs i v (λ k. h (suc k)) p m x e

  -- The same for elements that are appended.
  pub get_elem?-replicate_each {κ} :
      (P : ℕ → A → Type κ) (xs : List A) (n : ℕ) (v : A)
      → ((m : ℕ) (x : A) → get_elem? xs m ≡ some x → P m x)
      → ((m : ℕ) → length xs ≤ m → P m v)
      → (m : ℕ) (x : A) → get_elem? (xs ++ replicate n v) m ≡ some x
      → P m x
  get_elem?-replicate_each P [] zero v h p m x e = h m x e
  get_elem?-replicate_each P [] (suc n) v h p zero x e =
      subst (P 0) (some-injective _ _ e) (p 0 (omega arith))
  get_elem?-replicate_each P [] (suc n) v h p (suc m) x e =
      get_elem?-replicate_each (λ k. P (suc k)) [] n v (λ k y. λ i. cc)
        (λ k _. p (suc k) (omega arith)) m x e
  get_elem?-replicate_each P (y ∷ xs) n v h p zero x e = h 0 x e
  get_elem?-replicate_each P (y ∷ xs) n v h p (suc m) x e =
      get_elem?-replicate_each (λ k. P (suc k)) xs n v (λ k. h (suc k))
        (λ k l. p (suc k) (omega arith)) m x e

pub Option-cases {ℓ} : {A : Type ℓ} (o : Option A) → (o ≡ none) ⊎ ((x : A) × (o ≡ some x))
Option-cases none = inl refl
Option-cases (some x) = inr (x, refl)
