-- ===== src/FindFunc/Buckets.antt =====
-- The loop of `buildModule` over the functions: no bucket points behind a function that it serves.
use goloader.Shared.{
  ℕ, zero, suc, ◌+◌, ◌-◌, ◌*◌, ◌/◌, ◌≤◌, ◌<◌, ◌≡◌, refl, ◌⊎◌, inl, inr, List, [], ◌∷◌, ◌++◌, some,
  length, ltb, ◌==◌, if◌then◌else◌, get_elem?, get_or, set, replicate, arith, length-set,
  length-append, length-replicate, get_elem?-some, get_elem?-set_each, get_elem?-replicate_each,
  Bool-cases, subst,
}
use goloader.Shared.Outcome.{ok}
use goloader.Shared.Word.{u8, sub64}
use goloader.Shared.Bytes.{zeros}
use goloader.FindFunc.{
  Bucket, fresh, mark_sub, mark, mark_loop, fill_func, fill_buckets, sub_index, next_entry, nsub,
}

get_or-set :
    (P : ℕ → ℕ → Type 0) (xs : List ℕ) (i v : ℕ)
    → P i v
    → ((n : ℕ) → P n (get_or xs n 0))
    → (n : ℕ) → P n (get_or (set xs i v) n 0)
get_or-set P [] i v p h n = h n
get_or-set P (x ∷ xs) zero v p h zero = p
get_or-set P (x ∷ xs) zero v p h (suc n) = h (suc n)
get_or-set P (x ∷ xs) (suc i) v p h zero = h 0
get_or-set P (x ∷ xs) (suc i) v p h (suc n) =
    get_or-set (λ k. P (suc k)) xs i v p (λ k. h (suc k)) n

get_or-zeros : (n k : ℕ) → get_or (zeros k) n 0 ≡ 0
get_or-zeros n zero = refl
get_or-zeros zero (suc k) = refl
get_or-zeros (suc n) (suc k) = get_or-zeros n k

-- Function `k` starts at `E k`.
module _ (E : ℕ → ℕ) (mono : (i j : ℕ) → i ≤ j → E i ≤ E j) where
  -- No function that ends behind `p` comes before the index `s`.
  abbrev pub Before : ℕ → ℕ → Type 0
  Before p s = (j : ℕ) → p < E (suc j) → s ≤ j

  started : (k p : ℕ) → E k ≤ p → Before p k
  started k p h j l = elim (Bool-cases (ltb j k)) [
    | inl e ↦ absurd (omega (arith, mono (suc j) k (ground arith)))
    | inr e ↦ ground arith
  ]

  abbrev pub Serves : ℕ → ℕ → Bucket → Type 0
  Serves k m b =
      (b.idx ≤ k)
      × Before (4096 * m) b.idx
      × ((n : ℕ) → Before (4096 * m + 256 * n) (b.idx + get_or b.subbuckets n 0))

  abbrev pub Sound : ℕ → List Bucket → Type 0
  Sound k bs = (m : ℕ) (b : Bucket) → get_elem? bs m ≡ some b → Serves k m b

  fresh-Serves : (k m : ℕ) → ((j : ℕ) → 4096 * m < E (suc j) → k ≤ j) → Serves k m (fresh k)
  fresh-Serves k m h = (
    omega arith,
    λ j l. omega (arith, h j l),
    λ n j l. omega (arith, h j (omega arith), get_or-zeros n 16),
  )

  mark_sub-Serves :
      (k m n : ℕ) (b : Bucket)
      → E k ≤ 4096 * m + 256 * n
      → Serves k m b
      → Serves k m (mark_sub k n b)
  unfolding mark_sub
  mark_sub-Serves k m n b h (i, r, s) = elim (Bool-cases (get_or b.subbuckets n 0 == 0)) [
    | inr e ↦ rw e (i, r, s)
    | inl e ↦ rw e (i, r, marked)
  ]
    where
      marked :
          (x : ℕ)
          → Before
              (4096 * m + 256 * x)
              (b.idx + get_or (set b.subbuckets n (u8 (sub64 k b.idx))) x 0)
      marked =
          get_or-set (λ x v. Before (4096 * m + 256 * x) (b.idx + v)) b.subbuckets n
            (u8 (sub64 k b.idx)) (λ j l. omega (arith, started k (4096 * m + 256 * n) h j l)) s

  mark_ok :
      (k lb n : ℕ) (bs : List Bucket) (b : Bucket)
      → get_elem? bs lb ≡ some b
      → mark k lb n bs ≡ ok (set bs lb (mark_sub k n b))
  unfolding mark
  mark_ok k lb n bs b e = rw (mark, e)

  mark_loop-Sound :
      (k lb rounds n : ℕ) (bs : List Bucket)
      → lb < length bs
      → E k ≤ 4096 * lb + 256 * n
      → Sound k bs
      → (out : List Bucket) × (mark_loop k lb rounds n bs ≡ ok out)
        × (length out ≡ length bs)
        × Sound k out
  unfolding mark_loop
  mark_loop-Sound k lb zero n bs l h s = (bs, refl, refl, s)
  mark_loop-Sound k lb (suc rounds) n bs l h s =
      let (b, e) = get_elem?-some bs lb l in
      let bs' = set bs lb (mark_sub k n b) in
      let kept =
        get_elem?-set_each (Serves k) bs lb (mark_sub k n b) s
          (mark_sub-Serves k lb n b h (s lb b e)) in
      let same = length-set bs lb (mark_sub k n b) in
      let (out, run, len, fine) =
        mark_loop-Sound k lb rounds (n + 1) bs' (omega arith) (omega arith) kept in
      (out, rw (mark_loop, mark_ok k lb n bs b e) run, omega arith, fine)

  -- What the loop has when it comes to function `k`: a bucket for each start before it.
  abbrev pub Covers : ℕ → List Bucket → Type 0
  Covers k bs = (k ≡ 0) ⊎ (E k / 4096 < length bs)

  grow-Sound :
      (k b : ℕ) (bs : List Bucket)
      → Covers k bs
      → Sound k bs
      → Sound k (bs ++ replicate (b + 1 - length bs) (fresh k))
  grow-Sound k b bs c s =
      get_elem?-replicate_each (Serves k) bs (b + 1 - length bs) (fresh k) s
        (λ m l. fresh-Serves k m (after m l c))
    where
      after : (m : ℕ) → length bs ≤ m → Covers k bs → (j : ℕ) → 4096 * m < E (suc j) → k ≤ j
      after m l (inl z) j h = omega arith
      after m l (inr h') j h = started k (4096 * m) (omega arith) j h

  Sound-next : (k : ℕ) (bs : List Bucket) → Sound k bs → Sound (suc k) bs
  Sound-next k bs s m b e = let (i, r, t) = s m b e in (omega arith, r, t)

  fill_func-Sound :
      (k : ℕ) (bs : List Bucket)
      → Covers k bs
      → Sound k bs
      → (out : List Bucket) × (fill_func k (E k) (E (suc k)) bs ≡ ok out)
        × (E (suc k) / 4096 < length out)
        × Sound (suc k) out
  unfolding fill_func
  fill_func-Sound k bs c s =
      let lb = E k / 4096 in
      let b = E (suc k) / 4096 in
      let i = if ltb lb b then nsub - 1 else sub_index (E (suc k)) in
      let grown = bs ++ replicate (b + 1 - length bs) (fresh k) in
      let size = length-append bs (replicate (b + 1 - length bs) (fresh k)) in
      let added = length-replicate (b + 1 - length bs) (fresh k) in
      let up = mono k (suc k) (omega arith) in
      let (out, run, len, fine) =
        mark_loop-Sound k lb (i - sub_index (E k)) (sub_index (E k) + 1) grown (omega arith)
          (omega arith) (grow-Sound k b bs c s) in
      (out, run, omega arith, Sound-next k out fine)

  -- `es` are the starts from function `k` on, up to the end of the text.
  abbrev pub From : ℕ → ℕ → List ℕ → Type 0
  From total k [] = E k ≡ total
  From total k (e ∷ es) = (E k ≡ e) × From total (suc k) es

  next_lem : (total k e : ℕ) (es : List ℕ) → From total k (e ∷ es) → E (suc k) ≡ next_entry total es
  next_lem total k e [] f = f.1
  next_lem total k e (x ∷ es) f = f.1.0

  pub fill_buckets-Sound :
      (total k last : ℕ) (es : List ℕ) (bs : List Bucket)
      → k + length es ≡ last
      → From total k es
      → Covers k bs
      → Sound k bs
      → (out : List Bucket) × (fill_buckets total k es bs ≡ ok out)
        × Covers last out
        × Sound last out
  unfolding fill_buckets
  fill_buckets-Sound total k last [] bs n f c s =
      let e : k ≡ last = omega arith in
      (bs, refl, subst (λ t. Covers t bs) e c, subst (λ t. Sound t bs) e s)
  fill_buckets-Sound total k last (e ∷ es) bs n f c s =
      let (mid, run, len, fine) = fill_func-Sound k bs c s in
      let (out, rest, covers, sound) =
        fill_buckets-Sound total (suc k) last es mid (omega arith) f.1 (inr len) fine in
      (out, rw (← f.0, ← next_lem total k e es f, run) rest, covers, sound)
