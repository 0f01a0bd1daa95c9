-- ===== src/FindFunc/Refines.antt =====
-- The table of `buildModule`, read as module.go describes, gives the function that holds a program
-- counter.
use goloader.Shared.{
  ℕ, zero, suc, ◌+◌, ◌-◌, ◌/◌, ◌%◌, ◌≤◌, ◌<◌, ◌≡◌, refl, inl, inr, List, [], ◌∷◌, ◌++◌, some,
  length, get_or, drop, arith, get_elem?-some, ap, le→leb,
}
use goloader.Shared.Outcome.{ok}
use goloader.FindFunc.{
  Bucket, build_findfunctab, ftab_entries, scan, start_index, find_index, next_entry,
}
use goloader.FindFunc.Buckets.{From, Covers, Sound, fill_buckets-Sound}

-- Where function `j` starts; behind the last one, the end of the text.
abbrev pub func_start : ℕ → List ℕ → ℕ → ℕ
func_start total entries j = get_or entries j total

-- The functions lie one behind the other, up to the end of the text.
abbrev pub Ascending : ℕ → List ℕ → Type 0
Ascending total [] = Unit
Ascending total (e ∷ es) = (e ≤ next_entry total es) × Ascending total es

first_le :
    (total e : ℕ) (es : List ℕ) (j : ℕ) → Ascending total (e ∷ es) → e ≤ func_start total (e ∷ es) j
first_le total e es zero a = omega arith
first_le total e [] (suc j) a = a.0
first_le total e (x ∷ es) (suc j) a = omega (arith, first_le total x es j a.1)

entry_of_mono :
    (total : ℕ) (es : List ℕ)
    → Ascending total es
    → (i j : ℕ) → i ≤ j
    → func_start total es i ≤ func_start total es j
entry_of_mono total [] a i j h = omega arith
entry_of_mono total (e ∷ es) a zero j h = first_le total e es j a
entry_of_mono total (e ∷ es) a (suc i) zero h = absurd (omega arith)
entry_of_mono total (e ∷ es) a (suc i) (suc j) h = entry_of_mono total es a.1 i j (omega arith)

func_start-From :
    (total : ℕ) (E : ℕ → ℕ) (mono : (i j : ℕ) → i ≤ j → E i ≤ E j) (k : ℕ) (es : List ℕ)
    → ((i j : ℕ) → i ≡ k + j → E i ≡ func_start total es j)
    → From E mono total k es
func_start-From total E mono k [] h = h k 0 (omega arith)
func_start-From total E mono k (e ∷ es) h = (
  h k 0 (omega arith),
  func_start-From total E mono (suc k) es (λ i j q. h i (suc j) (omega arith)),
)

scan_lem :
    (pc total base n : ℕ) (es : List ℕ)
    → n ≤ length es
    → ((i : ℕ) → i < n → func_start total es i ≤ pc)
    → pc < func_start total es n
    → scan pc base (es ++ total ∷ []) ≡ base + n
unfolding scan
scan_lem pc total base zero [] l h e = ground arith
scan_lem pc total base (suc n) [] l h e = absurd (omega arith)
scan_lem pc total base zero (x ∷ es) l h e = ground arith
scan_lem pc total base (suc n) (x ∷ es) l h e = rw (le→leb x pc (h 0 (omega arith))) (
    omega
      (arith, scan_lem pc total (suc base) n es (omega arith) (λ i q. h (suc i) (omega arith)) e))

drop-append : (s : ℕ) (xs ys : List ℕ) → s ≤ length xs → drop s (xs ++ ys) ≡ drop s xs ++ ys
drop-append zero xs ys h = refl
drop-append (suc s) [] ys h = absurd (omega arith)
drop-append (suc s) (x ∷ xs) ys h = drop-append s xs ys (omega arith)

func_start-drop :
    (total s i t : ℕ) (xs : List ℕ)
    → t ≡ s + i
    → func_start total (drop s xs) i ≡ func_start total xs t
func_start-drop total zero i t xs e = ap (func_start total xs) (omega arith)
func_start-drop total (suc s) i t [] e = refl
func_start-drop total (suc s) i zero (x ∷ xs) e = absurd (omega arith)
func_start-drop total (suc s) i (suc t) (x ∷ xs) e = func_start-drop total s i t xs (omega arith)

length-drop : (s : ℕ) (xs : List ℕ) → s ≤ length xs → length (drop s xs) + s ≡ length xs
length-drop zero xs h = omega arith
length-drop (suc s) [] h = absurd (omega arith)
length-drop (suc s) (x ∷ xs) h = omega (arith, length-drop s xs (omega arith))

-- From an index that is not behind the function, the scan ends at the function.
scan-finds :
    (total pc s j : ℕ) (entries : List ℕ)
    → Ascending total entries
    → s ≤ j
    → j < length entries
    → func_start total entries j ≤ pc
    → pc < func_start total entries (suc j)
    → scan pc s (drop (suc s) (ftab_entries total entries)) ≡ suc j
unfolding ftab_entries
scan-finds total pc s j entries a h l lo hi =
    rw (drop-append s entries (total ∷ []) (omega arith)) (
      omega (
        arith,
        scan_lem pc total s (suc j - s) (drop s entries)
            (omega (arith, length-drop s entries (omega arith)))
            (λ i q. omega (
              arith,
              func_start-drop total s i (s + i) entries refl,
              entry_of_mono total entries a (s + i) j (omega arith),
            ))
            (omega (arith, func_start-drop total s (suc j - s) (suc j) entries (omega arith))),
      ))

-- Where the functions lie one behind the other up to the end of the text, the table is built, and
-- reading it at a program counter inside function `j` gives the entry of `j` in the function
-- table: its index there is `j + 1`, since the table starts with an entry of its own.
pub build_findfunctab-finds :
    (total e : ℕ) (es : List ℕ)
    → Ascending total (e ∷ es)
    → (bs : List Bucket) × (build_findfunctab total (e ∷ es) ≡ ok bs)
      × ((j pc : ℕ)
          → j < length (e ∷ es)
          → func_start total (e ∷ es) j ≤ pc
          → pc < func_start total (e ∷ es) (suc j)
          → find_index bs (ftab_entries total (e ∷ es)) pc ≡ some (suc j))
unfolding build_findfunctab find_index
build_findfunctab-finds total e es a =
    let E = func_start total (e ∷ es) in
    let mono = entry_of_mono total (e ∷ es) a in
    let (bs, run, covers, sound) =
      fill_buckets-Sound E mono total 0 (length (e ∷ es)) (e ∷ es) [] (omega arith)
        (func_start-From total E mono 0 (e ∷ es) (λ i j q. ap E (omega arith))) (inl refl)
        (λ m b h. cc) in
    (bs, run, finds bs covers sound)
  where
    finds :
        (bs : List Bucket)
        → Covers (func_start total (e ∷ es)) (entry_of_mono total (e ∷ es) a) (length (e ∷ es)) bs
        → Sound (func_start total (e ∷ es)) (entry_of_mono total (e ∷ es) a) (length (e ∷ es)) bs
        → (j pc : ℕ) → j < length (e ∷ es)
        → func_start total (e ∷ es) j ≤ pc
        → pc < func_start total (e ∷ es) (suc j)
        → find_index bs (ftab_entries total (e ∷ es)) pc ≡ some (suc j)
    finds bs (inl z) sound j pc l lo hi = absurd (omega arith)
    finds bs (inr c) sound j pc l lo hi =
        let up = entry_of_mono total (e ∷ es) a (suc j) (length (e ∷ es)) (omega arith) in
        let (b, at) = get_elem?-some bs (pc / 4096) (omega arith) in
        let (_, _, subs) = sound (pc / 4096) b at in
        rw (find_index, at)
          (ap some (
            scan-finds total pc (start_index b pc) j (e ∷ es) a
              (subs (pc % 4096 / 256) j (omega arith)) l lo hi))
