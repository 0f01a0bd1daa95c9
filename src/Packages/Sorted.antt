-- ===== src/Packages/Sorted.antt =====
-- Lists of packages in the order in which they can be built or initialised, apart from the code.
use goloader.Shared.{◌≡◌, ◌⊎◌, inl, inr, subst, sym, false, List, [], ◌∷◌, ◌++◌, String}
use goloader.Names.{contains}
use goloader.Reach.Names.{In, Sub, In_nil, In-cons, In_head, In_cases, In-append_left}

-- Each package once, behind all that it imports.
pub data Sorted (next : String → List String) : List String → Type 0 where
  empty : Sorted next []
  behind :
      (l : List String) (n : String)
      → Sorted next l
      → contains n l ≡ false
      → Sub (next n) l
      → Sorted next (l ++ (n ∷ []))

pub In_last : (n : String) (l : List String) → In n (l ++ (n ∷ []))
unfolding contains
In_last n [] = In_head n []
In_last n (m ∷ l) = In-cons n m (l ++ (n ∷ [])) (In_last n l)

pub In-snoc_cases : (x n : String) (l : List String) → In x (l ++ (n ∷ [])) → (n ≡ x) ⊎ In x l
In-snoc_cases x n [] h = elim (In_cases x n [] h) [ inl e ↦ inl e | inr i ↦ absurd (In_nil x i) ]
In-snoc_cases x n (m ∷ l) h = elim (In_cases x m (l ++ (n ∷ [])) h) [
  | inl e ↦ inr (subst (λ y. In y (m ∷ l)) e (In_head m l))
  | inr i ↦ elim (In-snoc_cases x n l i) [ inl e ↦ inl e | inr j ↦ inr (In-cons x m l j) ]
]

-- A sorted list is closed under imports.
pub Sorted-closed :
    (next : String → List String) (l : List String)
    → Sorted next l
    → (m : String) → In m l
    → Sub (next m) l
Sorted-closed next _ empty m i x j = absurd (In_nil m i)
Sorted-closed next _ (behind l n s new imports) m i x j =
    In-append_left x l (n ∷ []) (elim (In-snoc_cases m n l i) [
      | inl e ↦ imports x (subst (λ y. In x (next y)) (sym e) j)
      | inr k ↦ Sorted-closed next l s m k x j
    ])
