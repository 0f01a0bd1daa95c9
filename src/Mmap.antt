-- ===== src/Mmap.antt =====
-- mmap/manager.go: the search for a free range of addresses behind the first module. Addresses are
-- 64-bit patterns; a page has 4096 bytes.
pub mod Free
pub mod Search
pub mod ProcMaps
use goloader.Shared.{
  ℕ, zero, suc, ◌+◌, ◌-◌, ◌*◌, ◌/◌, ◌%◌, ◌^◌, Bool, ◌&&◌, List, [], ◌∷◌, ◌++◌, Option, none, some,
  ltb, if◌then◌else◌, not,
}
use goloader.Shared.Word.{sub64, slt}
use goloader.Shared.Outcome.{Outcome, ok, err, panic, no_free_range, map_failed, too_far, ◌>>=◌}
use goloader.Segment.{page_size}

-- The fields of mapping.Mapping that the search reads.
pub record Mapping : Type 0 where
  pub start_addr : ℕ
  pub end_addr : ℕ

pub record Gap : Type 0 where
  pub start_addr : ℕ
  pub end_addr : ℕ

-- roundPageDown and roundPageUp, which always adds a page
abbrev pub round_page_down : ℕ → ℕ
round_page_down p = p / page_size * page_size

abbrev pub round_page_up : ℕ → ℕ
round_page_up p = (p / page_size * page_size + page_size) % 2 ^ 64

-- sort.Slice by the start address
unfoldable pub insert_mapping : Mapping → List Mapping → List Mapping
insert_mapping m [] = m ∷ []
insert_mapping m (n ∷ ns) =
    let rest = insert_mapping m ns in
    if ltb m.start_addr n.start_addr then m ∷ (n ∷ ns) else n ∷ rest

unfoldable pub sort_mappings : List Mapping → List Mapping
sort_mappings [] = []
sort_mappings (m ∷ ms) = insert_mapping m (sort_mappings ms)

-- The gaps behind a mapping: those between two mappings, and one up to math.MaxUint64.
unfoldable pub gaps_after : Mapping → List Mapping → List Gap
gaps_after m [] = record { start_addr = round_page_up m.end_addr; end_addr = 2 ^ 64 - 1 } ∷ []
gaps_after m (n ∷ ns) =
    record { start_addr = round_page_up m.end_addr; end_addr = round_page_down n.start_addr }
    ∷ gaps_after n ns

-- `g.startAddr > targetAddr && int(g.endAddr-g.startAddr) >= size`
abbrev pub is_suitable : ℕ → ℕ → Gap → Bool
is_suitable target size g =
    ltb target g.start_addr && not (slt (sub64 g.end_addr g.start_addr) size)

unfoldable pub suitable_gaps : ℕ → ℕ → List Gap → List Gap
suitable_gaps target size [] = []
suitable_gaps target size (g ∷ gs) =
    let rest = suitable_gaps target size gs in if is_suitable target size g then g ∷ rest else rest

unfoldable pub all_gaps : List Mapping → Outcome (List Gap)
all_gaps [] = panic
all_gaps (m ∷ ms) = ok (gaps_after m ms)

abbrev pub some_gaps : List Gap → Outcome (List Gap)
some_gaps [] = err no_free_range
some_gaps (g ∷ gs) = ok (g ∷ gs)

-- findNextFreeAddressesAfterTarget; without a mapping, `mappings[:len(mappings)-1]` panics.
unfoldable pub find_next_free_addresses_after_target : ℕ → ℕ → List Mapping → Outcome (List Gap)
find_next_free_addresses_after_target target size mappings = do
  gaps ← all_gaps (sort_mappings mappings)
  some_gaps (suitable_gaps target size gaps)

-- The addresses that AcquireMapping tries in a gap, `for i := start; i+size < end; i += size`, in the
-- first `fuel` rounds; `size` is rounded up to pages.
unfoldable pub attempts : ℕ → ℕ → ℕ → ℕ → List ℕ
attempts zero size i end = []
attempts (suc fuel) size i end =
    let rest = attempts fuel size ((i + size) % 2 ^ 64) end in
    if ltb ((i + size) % 2 ^ 64) end then i ∷ rest else []

unfoldable pub attempts_all : ℕ → ℕ → List Gap → List ℕ
attempts_all fuel size [] = []
attempts_all fuel size (g ∷ gs) =
    attempts fuel size g.start_addr g.end_addr ++ attempts_all fuel size gs

-- The first address at which the mapping function succeeds; `map_func` is the caller's, and gives
-- the address at which the system put the mapping. A mapping whose last byte lies more than 2^32
-- behind the first module is given back and refused.
unfoldable pub try_all : (ℕ → ℕ → Option ℕ) → ℕ → ℕ → List ℕ → Outcome ℕ
try_all map_func first size [] = err map_failed
try_all map_func first size (i ∷ is) =
    let rest = try_all map_func first size is in
    elim (map_func size i) [
      | none ↦ rest
      | some at ↦ if ltb (2 ^ 32) (sub64 (at + size - 1) first) then err too_far else ok at
    ]

-- AcquireMapping, with `fuel` rounds in each gap
unfoldable pub acquire_mapping : (ℕ → ℕ → Option ℕ) → ℕ → ℕ → List Mapping → ℕ → Outcome ℕ
acquire_mapping map_func fuel first mappings size = do
  gaps ← find_next_free_addresses_after_target first (round_page_up size) mappings
  try_all map_func first (round_page_up size) (attempts_all fuel (round_page_up size) gaps)
