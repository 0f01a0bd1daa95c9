-- ===== src/Mmap/Search.antt =====
-- The addresses that `AcquireMapping` tries.
use goloader.Shared.{
  ℕ, zero, suc, ◌+◌, ◌-◌, ◌%◌, ◌^◌, ◌≤◌, ◌<◌, ◌≡◌, ◌⊎◌, inl, inr, refl, List, [], ◌∷◌, length, ltb,
  lt→ltb, arith, Bool-cases, ap,
}
use goloader.Shared.Outcome.{ok, err, no_free_range}
use goloader.Mmap.{
  Mapping, Gap, sort_mappings, gaps_after, is_suitable, suitable_gaps, all_gaps, insert_mapping,
  find_next_free_addresses_after_target, attempts,
}
use goloader.Segment.{page_size}
use goloader.Mmap.Free.{Avoids, AllAfter, Ordered, AreMappings, sort-Ordered, sort-Avoids}

abbrev pub Each {ℓ} : {A : Type ℓ} → (A → Type 0) → List A → Type 0
Each P [] = Unit
Each P (x ∷ xs) = P x × Each P xs

Each-map {ℓ} :
    {A : Type ℓ} (P Q : A → Type 0) (xs : List A) → ((x : A) → P x → Q x) → Each P xs → Each Q xs
Each-map P Q [] f h = tt
Each-map P Q (x ∷ xs) f h = (f x h.0, Each-map P Q xs f h.1)

insert_some : (m : Mapping) (ns : List Mapping) → insert_mapping m ns ≡ [] → ⊥
unfolding insert_mapping
insert_some m [] e = cc
insert_some m (n ∷ ns) e = elim (Bool-cases (ltb m.start_addr n.start_addr)) [
  | inl l ↦ (let f : m ∷ (n ∷ ns) ≡ [] = (rw l at e) in cc)
  | inr l ↦ (let f : n ∷ insert_mapping m ns ≡ [] = (rw l at e) in cc)
]

sort_some : (m : Mapping) (ms : List Mapping) → sort_mappings (m ∷ ms) ≡ [] → ⊥
unfolding sort_mappings
sort_some m ms e = insert_some m (sort_mappings ms) e

module _ (target size : ℕ) (small : size < 2 ^ 63) where
  -- A gap behind `m`: what lies in it lies behind `m` and avoids `ms`.
  abbrev Free : Mapping → List Mapping → Gap → Type 0
  Free m ms g =
      (g.start_addr ≤ g.end_addr + 8192)
      × (g.start_addr < 2 ^ 64)
      × (g.end_addr < 2 ^ 64)
      × ((i : ℕ) → g.start_addr ≤ i → i + size ≤ g.end_addr → (m.end_addr ≤ i) × Avoids i size ms)

  after-Avoids : (i a : ℕ) (ms : List Mapping) → i + size ≤ a → AllAfter a ms → Avoids i size ms
  after-Avoids i a [] h all = tt
  after-Avoids i a (m ∷ ms) h all = (inr (omega (arith, all.0)), after-Avoids i a ms h all.1)

  wider :
      (m n : Mapping) (ns : List Mapping)
      → m.end_addr ≤ n.start_addr
      → n.start_addr < n.end_addr
      → (g : Gap) → Free n ns g
      → Free m (n ∷ ns) g
  wider m n ns h some_n g f =
      (f.0, f.1, f.2, λ i a b. let r = f.3 i a b in (omega (arith, r.0), (inl r.0, r.1)))

  gaps-Free :
      (m : Mapping) (ms : List Mapping) → Ordered (m ∷ ms) → Each (Free m ms) (gaps_after m ms)
  unfolding gaps_after
  gaps-Free m [] order = (
    (omega (arith, order.1), omega arith, omega arith, λ i a b. (omega (arith, order.1), tt)),
    tt,
  )
  gaps-Free m (n ∷ ns) order = (
    (
      omega (arith, order.1, order.2.0),
      omega arith,
      omega (arith, order.3.0, order.3.1),
      λ i a b. (
        omega (arith, order.1),
        (inr (omega arith), after-Avoids i n.end_addr ns (omega (arith, order.3.0)) order.3.2),
      ),
    ),
    Each-map (Free n ns) (Free m (n ∷ ns)) (gaps_after n ns) (wider m n ns order.2.0 order.3.0)
        (gaps-Free n ns order.3),
  )

  abbrev Suitable : Mapping → List Mapping → Gap → Type 0
  Suitable m ms g = Free m ms g × (target < g.start_addr) × (g.start_addr ≤ g.end_addr)

  suitable_lem :
      (m : Mapping) (ms : List Mapping) (gs : List Gap)
      → Each (Free m ms) gs
      → Each (Suitable m ms) (suitable_gaps target size gs)
  unfolding suitable_gaps
  suitable_lem m ms [] h = tt
  suitable_lem m ms (g ∷ gs) h = elim (Bool-cases (is_suitable target size g)) [
    | inl e ↦
        rw e ((h.0, ground arith, ground (arith, h.0.0, h.0.1, h.0.2)), suitable_lem m ms gs h.1)
    | inr e ↦ rw e (suitable_lem m ms gs h.1)
  ]

  attempts_inside :
      (fuel start i end : ℕ)
      → start ≤ i
      → i ≤ end
      → end + size < 2 ^ 64
      → Each (λ i. (start ≤ i) × (i + size ≤ end)) (attempts fuel size i end)
  unfolding attempts
  attempts_inside zero start i end h le fits = tt
  attempts_inside (suc fuel) start i end h le fits =
      elim (Bool-cases (ltb ((i + size) % 2 ^ 64) end)) [
        | inl e ↦ rw e (
          (h, ground arith),
          attempts_inside fuel start ((i + size) % 2 ^ 64) end (ground arith) (ground arith) fits,
        )
        | inr e ↦ rw e tt
      ]

  -- What is known of an address that is tried.
  abbrev pub IsFree : List Mapping → ℕ → Type 0
  IsFree mappings i = (target < i) × Avoids i size mappings

  abbrev pub TriesFree : ℕ → List Mapping → Gap → Type 0
  TriesFree fuel mappings g =
      g.end_addr + size < 2 ^ 64
      → Each (IsFree mappings) (attempts fuel size g.start_addr g.end_addr)

  tries :
      (fuel : ℕ) (mappings : List Mapping) (m : Mapping) (ms : List Mapping)
      → sort_mappings mappings ≡ m ∷ ms
      → (g : Gap) → Suitable m ms g
      → TriesFree fuel mappings g
  tries fuel mappings m ms e g s fits =
      Each-map (λ i. (g.start_addr ≤ i) × (i + size ≤ g.end_addr)) (IsFree mappings) _
        (λ i h. (
          omega (arith, h.0, s.1),
          sort-Avoids i size mappings (rw e (let r = s.0.3 i h.0 h.1 in (inl r.0, r.1))),
        ))
        (attempts_inside fuel g.start_addr g.start_addr g.end_addr (omega arith) s.2 fits)

  abbrev Found : ℕ → List Mapping → Type 0
  Found fuel mappings =
      (find_next_free_addresses_after_target target size mappings ≡ err no_free_range)
      ⊎ ((gaps : List Gap) × (find_next_free_addresses_after_target target size mappings ≡ ok gaps)
          × Each (TriesFree fuel mappings) gaps)

  found :
      (fuel : ℕ) (mappings : List Mapping) (m : Mapping) (ms : List Mapping)
      → sort_mappings mappings ≡ m ∷ ms
      → Ordered (m ∷ ms)
      → Found fuel mappings
  unfolding find_next_free_addresses_after_target all_gaps
  found fuel mappings m ms e order = answer (suitable_gaps target size (gaps_after m ms)) refl (
      Each-map (Suitable m ms) (TriesFree fuel mappings) _ (tries fuel mappings m ms e)
        (suitable_lem m ms (gaps_after m ms) (gaps-Free m ms order)))
    where
      answer :
          (gs : List Gap)
          → suitable_gaps target size (gaps_after m ms) ≡ gs
          → Each (TriesFree fuel mappings) (suitable_gaps target size (gaps_after m ms))
          → Found fuel mappings
      answer [] p each = inl (rw (e, all_gaps, p))
      answer (g ∷ gs) p each = inr (g ∷ gs, rw (e, all_gaps, p), (rw p at each))

  -- Among the mappings that the system reports, the search ends with its error or with gaps; and in
  -- every gap that leaves `size` bytes below the end of the address space, each address that
  -- AcquireMapping tries lies behind the target, and `size` bytes from it on belong to no mapping.
  pub find_next-TriesFree :
      (fuel : ℕ) (m : Mapping) (ms : List Mapping) → AreMappings (m ∷ ms) → Found fuel (m ∷ ms)
  find_next-TriesFree fuel m ms are =
      by_list (sort_mappings (m ∷ ms)) refl (sort-Ordered (m ∷ ms) are)
    where
      by_list :
          (l : List Mapping)
          → sort_mappings (m ∷ ms) ≡ l
          → Ordered (sort_mappings (m ∷ ms))
          → Found fuel (m ∷ ms)
      by_list [] e order = absurd (sort_some m ms e)
      by_list (n ∷ ns) e order = found fuel (m ∷ ms) n ns e (rw e at order)

-- In the gap behind the last mapping the loop does not end by its test: it goes through the end of
-- the address space and on from its start, for as many rounds as it is given.
pub attempts_endless :
    (fuel i size : ℕ)
    → i % page_size ≡ 0
    → size % page_size ≡ 0
    → length (attempts fuel size i (2 ^ 64 - 1)) ≡ fuel
unfolding attempts
attempts_endless zero i size h k = refl
attempts_endless (suc fuel) i size h k =
    rw (lt→ltb ((i + size) % 2 ^ 64) (2 ^ 64 - 1) (omega arith))
      (ap suc (attempts_endless fuel ((i + size) % 2 ^ 64) size (omega arith) k))
