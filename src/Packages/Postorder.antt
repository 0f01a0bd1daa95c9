-- ===== src/Packages/Postorder.antt =====
-- A plain depth-first search, to compare `recurseAutolibs` with.
use goloader.Shared.{
  ℕ, zero, suc, ◌≡◌, refl, if◌then◌else◌, List, [], ◌∷◌, Option, none, some, String,
}
use goloader.Names.{contains}
use goloader.Reach.Names.{Sub, In-cons, In_head}
use goloader.Packages.{Visited, append_unseen, finish_pkg}

-- A depth-first search that appends a package when its imports are done.
unfoldable pub postorder_all :
    (String → Visited → Option Visited) → List String → Visited → Option Visited
postorder_all visit [] st = some st
postorder_all visit (i ∷ is) st = elim (visit i st) [
  | none ↦ none
  | some st' ↦ postorder_all visit is st'
]

unfoldable pub postorder : (String → List String) → ℕ → String → Visited → Option Visited
postorder next zero pkg st = none
postorder next (suc fuel) pkg st =
    let rest =
      postorder_all (postorder next fuel) (next pkg) (record st { seen = pkg ∷ st.seen }) in
    if contains pkg st.seen
    then some st
    else elim rest [ none ↦ none | some t ↦ some (finish_pkg pkg t) ]

pub append_unseen-seen :
    (ns : List String) (st : Visited) → Sub ns st.seen → append_unseen ns st ≡ st
unfolding append_unseen
append_unseen-seen [] st h = refl
append_unseen-seen (n ∷ ns) st h =
    rw (h n (In_head n ns)) (append_unseen-seen ns st (λ x i. h x (In-cons x n ns i)))
