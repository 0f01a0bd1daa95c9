-- ===== src/Functions/NameTab.antt =====
-- The table of names: what was added stays where it is, and reads back.
use text.Mathlib.Text.{◌==◌ as str_eq}
use text.Mathlib.TextEquality.{eq_iff}
use text.Mathlib.TextPositions.{eq_refl}
use mathlib.Core.List.{append_assoc}
use goloader.Shared.{
  ℕ, zero, suc, ◌%◌, ◌^◌, ◌<◌, ◌≡◌, ◌∙◌, refl, ap, subst, false, List, [], ◌∷◌, ◌++◌, none, some,
  String, length, ltb, ◌==◌, drop, if◌then◌else◌, arith, Bool-cases, inl, inr, lt→ltb,
  length-append, drop-append_left, Option-cases,
}
use goloader.Names.{StrMap, lookup, insert, codes}
use goloader.Functions.{
  NameTable, FuncInfo, InlTreeNode, c_string, get_func_name, name_offset, add_names, append_tables,
  init_func,
}

-- No zero byte, which would end the name in the table.
abbrev pub NoZero : List ℕ → Type 0
NoZero [] = Unit
NoZero (c ∷ cs) = (c == 0 ≡ false) × NoZero cs

-- At `o` stands the name, with a zero byte behind it.
abbrev pub Holds : List ℕ → ℕ → String → Type 0
Holds b o name = (rest : List ℕ) × (drop o b ≡ codes name ++ 0 ∷ rest)

-- Every name of the map stands at its offset, which is not 0: the runtime takes that for no name.
pub record IsNamed (t : NameTable) : Type 0 where
  pub padded : 0 < length t.bytes
  pub holds : (name : String) (o : ℕ) → lookup name t.offsets ≡ some o → Holds t.bytes o name
  pub positive : (name : String) (o : ℕ) → lookup name t.offsets ≡ some o → 0 < o

pub c_string-codes : (cs rest : List ℕ) → NoZero cs → c_string (cs ++ 0 ∷ rest) ≡ cs
unfolding c_string
c_string-codes [] rest h = refl
c_string-codes (c ∷ cs) rest h = rw h.0 (ap (◌∷◌ c) (c_string-codes cs rest h.1))

drop_more :
    (b more ys : List ℕ) (o : ℕ) → drop o b ≡ ys → 0 < length ys → drop o (b ++ more) ≡ ys ++ more
drop_more b more ys zero e h = ap (λ t. t ++ more) e
drop_more [] more ys (suc o) e h = absurd (omega (arith, ap length e))
drop_more (x ∷ b) more ys (suc o) e h = drop_more b more ys o e h

pub Holds-append :
    (b more : List ℕ) (o : ℕ) (name : String) → Holds b o name → Holds (b ++ more) o name
Holds-append b more o name (rest, e) = (
  rest ++ more,
  drop_more b more (codes name ++ 0 ∷ rest) o e
        (omega (arith, length-append (codes name) (0 ∷ rest)))
      ∙ append_assoc (codes name) (0 ∷ rest) more,
)

within : (b : List ℕ) (o : ℕ) (ys : List ℕ) → drop o b ≡ ys → 0 < length ys → o < length b
within b zero ys e h = omega (arith, ap length e)
within [] (suc o) ys e h = absurd (omega (arith, ap length e))
within (x ∷ b) (suc o) ys e h = omega (arith, within b o ys e h)

pub Holds-lt : (b : List ℕ) (o : ℕ) (name : String) → Holds b o name → o < length b
Holds-lt b o name (rest, e) =
    within b o (codes name ++ 0 ∷ rest) e (omega (arith, length-append (codes name) (0 ∷ rest)))

-- The first entry of the map, or one of the others.
lookup_first :
    (j k : String) (o p : ℕ) (m : StrMap ℕ) (P : String → ℕ → Type 0)
    → P j o
    → (lookup k m ≡ some p → P k p)
    → lookup k (insert j o m) ≡ some p
    → P k p
unfolding lookup
lookup_first j k o p m P first others e = elim (Bool-cases (str_eq j k)) [
  | inl same ↦
      let q : o ≡ p = cc (rw same at e) in
      subst (λ (x : String). P x p) ((eq_iff j k).0 same) (subst (P j) q first)
  | inr differs ↦ others (rw differs at e)
]

pub lookup_old :
    (j k : String) (o p : ℕ) (m : StrMap ℕ)
    → lookup j m ≡ none
    → lookup k m ≡ some p
    → lookup k (insert j o m) ≡ some p
unfolding lookup
lookup_old j k o p m missing e = elim (Bool-cases (str_eq j k)) [
  | inr differs ↦ rw differs e
  | inl same ↦ cc (ap (λ x. lookup x m) ((eq_iff j k).0 same))
]

-- What one addition does: the name stands at the offset that it returns, and no other name moves.
abbrev pub Adds : String → NameTable → ℕ → NameTable → Type 0
Adds name t o t' =
    IsNamed t'
    × (lookup name t'.offsets ≡ some o)
    × ((k : String) (p : ℕ) → lookup k t.offsets ≡ some p → lookup k t'.offsets ≡ some p)

module _ (name : String) (t : NameTable) where
  abbrev bytes' : List ℕ
  bytes' = t.bytes ++ (codes name ++ 0 ∷ [])

  abbrev added : NameTable
  added = record { bytes = bytes'; offsets = insert name (length t.bytes) t.offsets }

  added-IsNamed : IsNamed t → IsNamed added
  added-IsNamed n = record {
    padded = omega (arith, n.padded, length-append t.bytes (codes name ++ 0 ∷ []));
    holds = λ k p e.
        lookup_first name k (length t.bytes) p t.offsets (λ x q. Holds bytes' q x)
          ([], drop-append_left t.bytes (codes name ++ 0 ∷ []))
          (λ h. Holds-append t.bytes (codes name ++ 0 ∷ []) p k (n.holds k p h)) e;
    positive = λ k p e.
        lookup_first name k (length t.bytes) p t.offsets (λ x q. 0 < q) n.padded
          (λ h. n.positive k p h) e;
  }

  found_self : lookup name added.offsets ≡ some (length t.bytes)
  unfolding lookup
  found_self = rw (eq_refl name)

  pub name_offset-Adds : IsNamed t → Adds name t (name_offset name t).0 (name_offset name t).1
  unfolding name_offset
  name_offset-Adds n = elim (Option-cases (lookup name t.offsets)) [
    | inl e ↦
        rw (name_offset, e)
          (added-IsNamed n, found_self, λ k p h. lookup_old name k (length t.bytes) p t.offsets e h)
    | inr (o, e) ↦ rw (name_offset, e) (n, e, λ k p h. h)
  ]

pub add_names-Adds :
    (tree : List InlTreeNode) (name : String) (o : ℕ) (t : NameTable)
    → IsNamed t
    → lookup name t.offsets ≡ some o
    → Adds name t o (add_names tree t)
unfolding add_names
add_names-Adds [] name o t n e = (n, e, λ k p h. h)
add_names-Adds (inl_node ∷ tree) name o t n e =
    let (n', _, keeps) = name_offset-Adds inl_node.func t n in
    let t' = (name_offset inl_node.func t).1 in
    let (n'', e', keeps') = add_names-Adds tree name o t' n' (keeps name o e) in
    (n'', e', λ k p h. keeps' k p (keeps k p h))

-- The name in the record that `readFuncData` makes for a function reads back as the function's, also
-- behind the names of an inline tree, where no name has a zero byte and the table stays below 2 GB.
pub get_func_name-append_tables :
    (f : FuncInfo) (name : String) (tree : List InlTreeNode) (pctab : List ℕ) (t : NameTable)
    → IsNamed t
    → NoZero (codes name)
    → length (add_names tree (name_offset name t).1).bytes < 2 ^ 31
    → get_func_name
        (append_tables f (name_offset name t).0 pctab).0
        (add_names tree (name_offset name t).1).bytes
      ≡ codes name
unfolding get_func_name append_tables init_func
get_func_name-append_tables f name tree pctab t n z small =
    let (n', e, _) = name_offset-Adds name t n in
    let (n'', e', _) =
      add_names-Adds tree name (name_offset name t).0 (name_offset name t).1 n' e in
    reads (name_offset name t).0 (add_names tree (name_offset name t).1).bytes
      (n''.positive name (name_offset name t).0 e') (n''.holds name (name_offset name t).0 e') small
  where
    reads :
        (o : ℕ) (b : List ℕ)
        → 0 < o
        → Holds b o name
        → length b < 2 ^ 31
        → (if ltb 0 (o % 2 ^ 32)
            then (if ltb (o % 2 ^ 32) (length b) then c_string (drop (o % 2 ^ 32) b) else [])
            else [])
          ≡ codes name
    reads o b pos h small =
        let inside = Holds-lt b o name h in
        let whole : o % 2 ^ 32 ≡ o = omega arith in
        rw (whole, lt→ltb 0 o pos, lt→ltb o (length b) inside)
          (ap c_string h.1 ∙ c_string-codes (codes name) h.0 z)
