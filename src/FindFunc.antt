-- ===== src/FindFunc.antt =====
-- ld.go, `buildModule`: the table that takes a program counter to a function, and module.go, the
-- type of its buckets and how they are read.
pub mod Buckets
pub mod Refines
use goloader.Shared.{
  ℕ, zero, suc, ◌+◌, ◌-◌, ◌*◌, ◌/◌, ◌%◌, List, [], ◌∷◌, ◌++◌, Option, none, some, length, ltb, leb,
  ◌==◌, if◌then◌else◌, get_elem?, get_or, set, drop, replicate,
}
use goloader.Shared.Outcome.{Outcome, ok, panic, ◌>>=◌}
use goloader.Shared.Word.{u32, u8, sub64}
use goloader.Shared.Bytes.{zeros}

abbrev pub minfunc : ℕ
minfunc = 16

abbrev pub pcbucketsize : ℕ
pcbucketsize = 4096

abbrev pub nsub : ℕ
nsub = 16

-- findfuncbucket
pub record Bucket : Type 0 where
  pub idx : ℕ
  pub subbuckets : List ℕ

abbrev pub fresh : ℕ → Bucket
fresh k = record { idx = u32 k; subbuckets = zeros nsub }

-- `if subbuckets[n] == 0 { subbuckets[n] = byte(k - int(idx)) }`
unfoldable pub mark_sub : ℕ → ℕ → Bucket → Bucket
mark_sub k n b =
    if get_or b.subbuckets n 0 == 0
    then record b { subbuckets = set b.subbuckets n (u8 (sub64 k b.idx)) }
    else b

unfoldable pub mark : ℕ → ℕ → ℕ → List Bucket → Outcome (List Bucket)
mark k lb n bs = elim (get_elem? bs lb) [ none ↦ panic | some b ↦ ok (set bs lb (mark_sub k n b)) ]

-- `for n := li + 1; n <= i; n++`, by the rounds that it makes.
unfoldable pub mark_loop : ℕ → ℕ → ℕ → ℕ → List Bucket → Outcome (List Bucket)
mark_loop k lb zero n bs = ok bs
mark_loop k lb (suc rounds) n bs = mark k lb n bs >>= mark_loop k lb rounds (n + 1)

abbrev pub sub_index : ℕ → ℕ
sub_index pc = pc % pcbucketsize / (pcbucketsize / nsub)

-- One round of the loop over the functions: function `k` starts at `l_entry`, and the next one, or
-- the end of the text, at `entry`.
unfoldable pub fill_func : ℕ → ℕ → ℕ → List Bucket → Outcome (List Bucket)
fill_func k l_entry entry bs =
    let lb = l_entry / pcbucketsize in
    let li = sub_index l_entry in
    let b = entry / pcbucketsize in
    let i = if ltb lb b then nsub - 1 else sub_index entry in
    mark_loop k lb (i - li) (li + 1) (bs ++ replicate (b + 1 - length bs) (fresh k))

abbrev pub next_entry : ℕ → List ℕ → ℕ
next_entry total [] = total
next_entry total (e ∷ es) = e

unfoldable pub fill_buckets : ℕ → ℕ → List ℕ → List Bucket → Outcome (List Bucket)
fill_buckets total k [] bs = ok bs
fill_buckets total k (e ∷ es) bs =
    fill_func k e (next_entry total es) bs >>= fill_buckets total (suc k) es

-- The table of the functions at `entries`, in a text of `total` bytes. Behind the loop the code
-- takes the address of the first bucket, which is out of range where there is no function.
unfoldable pub build_findfunctab : ℕ → List ℕ → Outcome (List Bucket)
build_findfunctab total [] = panic
build_findfunctab total (e ∷ es) = fill_buckets total 0 (e ∷ es) []

-- The entries of `module.ftab`: the start of the text, the functions, and its end.
unfoldable pub ftab_entries : ℕ → List ℕ → List ℕ
ftab_entries total entries = 0 ∷ entries ++ total ∷ []

-- How module.go says that the table is read: the bucket and the subbucket give an index, and
-- from there the function table is scanned.
unfoldable pub scan : ℕ → ℕ → List ℕ → ℕ
scan pc idx [] = idx
scan pc idx (e ∷ es) = let rest = scan pc (suc idx) es in if leb e pc then rest else idx

abbrev pub start_index : Bucket → ℕ → ℕ
start_index b pc = b.idx + get_or b.subbuckets (sub_index pc) 0

unfoldable pub find_index : List Bucket → List ℕ → ℕ → Option ℕ
find_index bs ftab pc = elim (get_elem? bs (pc / pcbucketsize)) [
  | none ↦ none
  | some b ↦ some (scan pc (start_index b pc) (drop (suc (start_index b pc)) ftab))
]
