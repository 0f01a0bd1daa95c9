-- ===== src/Reach/Closure.antt =====
-- `collectReachableSymbols` computes the names that can be reached.
use goloader.Shared.{
  length, ℕ, zero, suc, ◌<◌, ◌≡◌, ◌↔◌, ◌⊎◌, inl, inr, refl, subst, List, [], ◌∷◌, Option, some,
  String, arith, Bool-cases,
}
use goloader.Names.{StrMap, contains}
use goloader.Reach.{ObjSymbol, successors, visit_all, collect, collect_reachable_symbols}
use goloader.Reach.Refers.{Refers, successors-Refers}
use goloader.Reach.Names.{
  In, Sub, In_nil, In-cons, In_head, In_cases, missing, missing_mono, missing-cons,
  missing-le-length,
}

-- From a name, in any number of steps of `next`, to `x`.
pub data Reaches (next : String → List String) (x : String) : String → Type 0 where
  here : (a : String) → a ≡ x → Reaches next x a
  onward : (a b : String) → In b (next a) → Reaches next x b → Reaches next x a

module _ (next : String → List String) (universe : List String)
    (closed : (a : String) → In a universe → Sub (next a) universe) where
  -- All that `x` leads to is in the set.
  abbrev Done : List String → String → Type 0
  Done t x = Sub (next x) t

  -- What a search from some roots adds to a set: `Root` says which names lead to a root's search.
  abbrev Grown : List String → (String → Type 0) → List String → Type 0
  Grown s From t =
      Sub s t
      × Sub t universe
      × ((x : String) → In x t → In x s ⊎ Done t x)
      × ((x : String) → In x t → In x s ⊎ From x)

  abbrev Visits : (String → List String → Option (List String)) → String → List String → Type 0
  Visits visit n s =
      (t : List String) × (visit n s ≡ some t) × In n t × Grown s (λ x. Reaches next x n) t

  abbrev FromAny : List String → String → Type 0
  FromAny ns x = (n : String) × In n ns × Reaches next x n

  abbrev VisitsAll :
      (String → List String → Option (List String)) → List String → List String → Type 0
  VisitsAll visit ns s =
      (t : List String) × (visit_all visit ns s ≡ some t) × Sub ns t × Grown s (FromAny ns) t

  -- Two searches, one after the other.
  Grown-trans :
      (s t u : List String) (F G H : String → Type 0)
      → Grown s F t
      → Grown t G u
      → ((x : String) → F x → H x)
      → ((x : String) → G x → H x)
      → Grown s H u
  Grown-trans s t u F G H (grows, within, done, from) (grows', within', done', from') f g = (
    λ x i. grows' x (grows x i),
    within',
    λ x i. elim (done' x i) [
      | inr d ↦ inr d
      | inl j ↦ elim (done x j) [ inl k ↦ inl k | inr d ↦ inr (λ y l. grows' y (d y l)) ]
    ],
    λ x i. elim (from' x i) [
      | inr d ↦ inr (g x d)
      | inl j ↦ elim (from x j) [ inl k ↦ inl k | inr d ↦ inr (f x d) ]
    ],
  )

  all_lem :
      (visit : String → List String → Option (List String)) (bound : ℕ)
      → ((n : String) (s : List String)
          → In n universe
          → Sub s universe
          → missing universe s < bound
          → Visits visit n s)
      → (ns s : List String) → Sub ns universe
      → Sub s universe
      → missing universe s < bound
      → VisitsAll visit ns s
  unfolding visit_all
  all_lem visit bound each [] s h k m =
      (s, refl, (λ x i. absurd (In_nil x i)), ((λ x i. i), k, (λ x i. inl i), (λ x i. inl i)))
  all_lem visit bound each (n ∷ ns) s h k m =
      let (t, p, root, grown) = each n s (h n (In_head n ns)) k m in
      let (u, q, roots, grown') =
        all_lem visit bound each ns t (λ x i. h x (In-cons x n ns i)) grown.1
          (omega (arith, missing_mono universe s t grown.0)) in
      (
        u,
        rw (p, visit_all) q,
        (λ x i. elim (In_cases x n ns i) [
          | inl e ↦ grown'.0 x (subst (λ y. In y t) e root)
          | inr j ↦ roots x j
        ]),
        Grown-trans s t u (λ x. Reaches next x n) (FromAny ns) (FromAny (n ∷ ns)) grown grown'
            (λ x r. (n, In_head n ns, r)) (λ x (y, i, r). (y, In-cons y n ns i, r)),
      )

  -- The search from one name, with more fuel than names of the universe are missing.
  collect_lem :
      (fuel : ℕ) (n : String) (s : List String)
      → In n universe
      → Sub s universe
      → missing universe s < fuel
      → Visits (collect next fuel) n s
  unfolding collect
  collect_lem zero n s h k m = absurd (omega arith)
  collect_lem (suc fuel) n s h k m = elim (Bool-cases (contains n s)) [
    | inl e ↦ (s, rw e, e, ((λ x i. i), k, (λ x i. inl i), (λ x i. inl i)))
    | inr e ↦
        let (t, p, roots, grown) =
          all_lem (collect next fuel) fuel (λ n' s' h' k' m'. collect_lem fuel n' s' h' k' m')
            (next n) (n ∷ s) (closed n h) (with_name n s h k)
            (omega (arith, missing-cons universe n s h e)) in
        (
          t,
          rw e p,
          grown.0 n (In_head n s),
          (
            (λ x i. grown.0 x (In-cons x n s i)),
            grown.1,
            (λ x i. done n s t roots x (grown.2 x i)),
            (λ x i. from n s t x (grown.3 x i)),
          ),
        )
  ]
    where
      with_name :
          (n : String) (s : List String) → In n universe → Sub s universe → Sub (n ∷ s) universe
      with_name n s h k x i = elim (In_cases x n s i) [
        | inl e ↦ subst (λ y. In y universe) e h
        | inr j ↦ k x j
      ]

      done :
          (n : String) (s t : List String)
          → Sub (next n) t
          → (x : String) → In x (n ∷ s) ⊎ Done t x
          → In x s ⊎ Done t x
      done n s t roots x (inr d) = inr d
      done n s t roots x (inl i) = elim (In_cases x n s i) [
        | inl e ↦ inr (subst (Done t) e roots)
        | inr j ↦ inl j
      ]

      from :
          (n : String) (s t : List String) (x : String)
          → In x (n ∷ s) ⊎ FromAny (next n) x
          → In x s ⊎ Reaches next x n
      from n s t x (inr (y, i, r)) = inr (onward n y i r)
      from n s t x (inl i) = elim (In_cases x n s i) [ inl e ↦ inr (here n e) | inr j ↦ inl j ]

in_set :
    (next : String → List String) (t : List String) (x : String)
    → ((a : String) → In a t → Sub (next a) t)
    → (a : String) → In a t
    → Reaches next x a
    → In x t
in_set next t x done a i (here _ e) = subst (λ y. In y t) e i
in_set next t x done a i (onward _ b j r) = in_set next t x done b (done a i b j) r

-- From a name, in any number of references, to `x`.
pub data Leads (objs : StrMap ObjSymbol) (x : String) : String → Type 0 where
  arrived : (a : String) → a ≡ x → Leads objs x a
  follow : (a b : String) → Refers objs a b → Leads objs x b → Leads objs x a

Reaches-Leads :
    (objs : StrMap ObjSymbol) (x a : String) → Reaches (successors objs) x a → Leads objs x a
Reaches-Leads objs x a (here _ e) = arrived a e
Reaches-Leads objs x a (onward _ b i r) =
    follow a b ((successors-Refers objs a b).0 i) (Reaches-Leads objs x b r)

Leads-Reaches :
    (objs : StrMap ObjSymbol) (x a : String) → Leads objs x a → Reaches (successors objs) x a
Leads-Reaches objs x a (arrived _ e) = here a e
Leads-Reaches objs x a (follow _ b i r) =
    onward a b ((successors-Refers objs a b).1 i) (Leads-Reaches objs x b r)

-- In a universe of names that holds the start and is closed under the references, with more fuel
-- than the universe has names: the search from the empty set ends, and the set that it gives holds
-- a name exactly when the start leads to it by references: those of a symbol to its type, its
-- relocations, its inlined functions and its FuncData, and of a pointer type to what it points to.
pub collect_reachable_symbols-Reaches :
    (objs : StrMap ObjSymbol) (universe : List String)
    → ((a : String) → In a universe → Sub (successors objs a) universe)
    → (fuel : ℕ) (name : String) → In name universe
    → length universe < fuel
    → (t : List String) × (collect_reachable_symbols objs fuel name [] ≡ some t)
      × ((x : String) → In x t ↔ Leads objs x name)
unfolding collect_reachable_symbols
collect_reachable_symbols-Reaches objs universe closed fuel name h m =
    let (t, p, root, (grows, within, done, from)) =
      collect_lem (successors objs) universe closed fuel name [] h (λ x i. absurd (In_nil x i))
        (omega (arith, missing-le-length universe [])) in
    (
      t,
      p,
      λ x. (
        λ i. elim (from x i) [ inl j ↦ absurd (In_nil x j) | inr r ↦ Reaches-Leads objs x name r ],
        λ r.
            in_set (successors objs) t x
              (λ a i. elim (done a i) [ inl j ↦ absurd (In_nil a j) | inr d ↦ d ]) name root
              (Leads-Reaches objs x name r),
      ),
    )
