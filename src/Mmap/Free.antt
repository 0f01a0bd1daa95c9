-- ===== src/Mmap/Free.antt =====
-- The sorted mappings and the gaps between them.
use goloader.Shared.{
  ℕ, ◌+◌, ◌^◌, ◌≤◌, ◌<◌, ◌≡◌, ◌⊎◌, inl, inr, false, List, [], ◌∷◌, ltb, ltb→lt, arith, Bool-cases,
}
use goloader.Mmap.{Mapping, insert_mapping, sort_mappings}

-- Two mappings share no address.
abbrev pub Disjoint : Mapping → Mapping → Type 0
Disjoint m n = (m.end_addr ≤ n.start_addr) ⊎ (n.end_addr ≤ m.start_addr)

abbrev pub DisjointAll : Mapping → List Mapping → Type 0
DisjointAll m [] = Unit
DisjointAll m (n ∷ ns) = Disjoint m n × DisjointAll m ns

-- What the system reports: mappings that are not empty, end below the last pages, and share no
-- address.
abbrev pub AreMappings : List Mapping → Type 0
AreMappings [] = Unit
AreMappings (m ∷ ms) =
    (m.start_addr < m.end_addr) × (m.end_addr + 8192 ≤ 2 ^ 64) × DisjointAll m ms × AreMappings ms

abbrev pub AllAfter : ℕ → List Mapping → Type 0
AllAfter a [] = Unit
AllAfter a (m ∷ ms) = (a ≤ m.start_addr) × AllAfter a ms

abbrev pub Ordered : List Mapping → Type 0
Ordered [] = Unit
Ordered (m ∷ ms) =
    (m.start_addr < m.end_addr) × (m.end_addr + 8192 ≤ 2 ^ 64) × AllAfter m.end_addr ms × Ordered ms

-- A range of addresses that no mapping has a part in.
abbrev pub Avoids : ℕ → ℕ → List Mapping → Type 0
Avoids i size [] = Unit
Avoids i size (m ∷ ms) = ((m.end_addr ≤ i) ⊎ (i + size ≤ m.start_addr)) × Avoids i size ms

after_less : (a b : ℕ) (ms : List Mapping) → b ≤ a → AllAfter a ms → AllAfter b ms
after_less a b [] h all = tt
after_less a b (m ∷ ms) h all = (omega arith, after_less a b ms h all.1)

after-insert :
    (a : ℕ) (m : Mapping) (ms : List Mapping)
    → a ≤ m.start_addr
    → AllAfter a ms
    → AllAfter a (insert_mapping m ms)
unfolding insert_mapping
after-insert a m [] h all = (h, tt)
after-insert a m (n ∷ ns) h all = elim (Bool-cases (ltb m.start_addr n.start_addr)) [
  | inl e ↦ rw e (h, all)
  | inr e ↦ rw e (all.0, after-insert a m ns h all.1)
]

insert-Ordered :
    (m : Mapping) (ms : List Mapping)
    → m.start_addr < m.end_addr
    → m.end_addr + 8192 ≤ 2 ^ 64
    → DisjointAll m ms
    → Ordered ms
    → Ordered (insert_mapping m ms)
unfolding insert_mapping
insert-Ordered m [] some_m low apart order = (some_m, low, tt, tt)
insert-Ordered m (n ∷ ns) some_m low apart order =
    elim (Bool-cases (ltb m.start_addr n.start_addr)) [
      | inl e ↦ rw e (
        some_m,
        low,
        (
          before (ltb→lt _ _ e) apart.0,
          after_less n.end_addr m.end_addr ns (later (ltb→lt _ _ e) apart.0) order.2,
        ),
        order,
      )
      | inr e ↦ rw e (
        order.0,
        order.1,
        after-insert n.end_addr m ns (behind e apart.0) order.2,
        insert-Ordered m ns some_m low apart.1 order.3,
      )
    ]
  where
    before : m.start_addr < n.start_addr → Disjoint m n → m.end_addr ≤ n.start_addr
    before l (inl h) = h
    before l (inr h) = absurd (omega (arith, order.0))

    later : m.start_addr < n.start_addr → Disjoint m n → m.end_addr ≤ n.end_addr
    later l d = omega (arith, before l d, order.0)

    behind : ltb m.start_addr n.start_addr ≡ false → Disjoint m n → n.end_addr ≤ m.start_addr
    behind e (inl h) = absurd (ground (arith, order.0))
    behind e (inr h) = h

all-insert :
    (i size : ℕ) (m : Mapping) (ms : List Mapping)
    → Avoids i size (insert_mapping m ms)
    → Avoids i size (m ∷ ms)
unfolding insert_mapping
all-insert i size m [] h = h
all-insert i size m (n ∷ ns) h = elim (Bool-cases (ltb m.start_addr n.start_addr)) [
  | inl e ↦ (rw e at h)
  | inr e ↦
      let k : Avoids i size (n ∷ insert_mapping m ns) = (rw e at h) in
      let r = all-insert i size m ns k.1 in (r.0, (k.0, r.1))
]

disjoint-insert :
    (m n : Mapping) (ns : List Mapping)
    → DisjointAll m (n ∷ ns)
    → DisjointAll m (insert_mapping n ns)
unfolding insert_mapping
disjoint-insert m n [] h = h
disjoint-insert m n (k ∷ ks) h = elim (Bool-cases (ltb n.start_addr k.start_addr)) [
  | inl e ↦ rw e h
  | inr e ↦ rw e (h.1.0, disjoint-insert m n ks (h.0, h.1.1))
]

disjoint-sort :
    (m : Mapping) (ms : List Mapping) → DisjointAll m ms → DisjointAll m (sort_mappings ms)
unfolding sort_mappings
disjoint-sort m [] h = tt
disjoint-sort m (n ∷ ns) h = disjoint-insert m n (sort_mappings ns) (h.0, disjoint-sort m ns h.1)

-- The sorted mappings are in order, and what avoids them avoids the given ones.
pub sort-Ordered : (ms : List Mapping) → AreMappings ms → Ordered (sort_mappings ms)
unfolding sort_mappings
sort-Ordered [] h = tt
sort-Ordered (m ∷ ms) h =
    insert-Ordered m (sort_mappings ms) h.0 h.1 (disjoint-sort m ms h.2) (sort-Ordered ms h.3)

pub sort-Avoids :
    (i size : ℕ) (ms : List Mapping) → Avoids i size (sort_mappings ms) → Avoids i size ms
unfolding sort_mappings
sort-Avoids i size [] h = tt
sort-Avoids i size (m ∷ ms) h =
    let k = all-insert i size m (sort_mappings ms) h in (k.0, sort-Avoids i size ms k.1)
