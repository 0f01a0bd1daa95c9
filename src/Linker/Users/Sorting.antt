-- ===== src/Linker/Users/Sorting.antt =====
-- Sorting keeps the elements of a list.
use goloader.Shared.{◌↔◌, inl, inr, subst, List, [], ◌∷◌, String, Bool-cases}
use goloader.Names.{codes}
use goloader.Reach.Names.{In, In-cons, In_head, In_cases}
use goloader.Linker.Users.{less, insert_string, sort_strings}

In-insert_string : (x n : String) (l : List String) → In x (insert_string n l) ↔ In x (n ∷ l)
unfolding insert_string
In-insert_string x n [] = (λ i. i, λ i. i)
In-insert_string x n (y ∷ ys) = elim (Bool-cases (less (codes y) (codes n))) [
  | inr t ↦ rw t ((λ i. i, λ i. i))
  | inl t ↦ rw t (
      let (f, g) = In-insert_string x n ys in
      (
        λ i. elim (In_cases x y (insert_string n ys) i) [
          | inl same ↦ In-cons x n (y ∷ ys) (subst (λ z. In z (y ∷ ys)) same (In_head y ys))
          | inr j ↦ elim (In_cases x n ys (f j)) [
            | inl same ↦ subst (λ z. In z (n ∷ (y ∷ ys))) same (In_head n (y ∷ ys))
            | inr k ↦ In-cons x n (y ∷ ys) (In-cons x y ys k)
          ]
        ],
        λ i. elim (In_cases x n (y ∷ ys) i) [
          | inl same ↦
              In-cons x y (insert_string n ys) (g (subst (λ z. In z (n ∷ ys)) same (In_head n ys)))
          | inr j ↦ elim (In_cases x y ys j) [
            | inl same ↦
                subst (λ z. In z (y ∷ insert_string n ys)) same (In_head y (insert_string n ys))
            | inr k ↦ In-cons x y (insert_string n ys) (g (In-cons x n ys k))
          ]
        ],
      ))
]

pub In-sort_strings : (x : String) (l : List String) → In x (sort_strings l) ↔ In x l
unfolding sort_strings
In-sort_strings x [] = (λ i. i, λ i. i)
In-sort_strings x (n ∷ l) =
    let (f, g) = In-insert_string x n (sort_strings l) in
    let (f', g') = In-sort_strings x l in
    (
      λ i. elim (In_cases x n (sort_strings l) (f i)) [
        | inl same ↦ subst (λ z. In z (n ∷ l)) same (In_head n l)
        | inr j ↦ In-cons x n l (f' j)
      ],
      λ i. g (elim (In_cases x n l i) [
        | inl same ↦ subst (λ z. In z (n ∷ sort_strings l)) same (In_head n (sort_strings l))
        | inr j ↦ In-cons x n (sort_strings l) (g' j)
      ]),
    )
