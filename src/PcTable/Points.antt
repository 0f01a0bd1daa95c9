-- ===== src/PcTable/Points.antt =====
-- A table as the points that it encodes: what the decoder and the lookup compute on an encoding.
use goloader.Shared.{
  ◌%◌, inl, inr, ℕ, zero, suc, ◌+◌, ◌-◌, ◌*◌, ◌^◌, ◌≤◌, ◌<◌, ◌≡◌, ◌≢◌, ◌∙◌, ◌⊎◌, refl, sym, ap,
  Bool, true, false, List, [], ◌∷◌, ◌++◌, none, some, length, ltb, ◌==◌, if◌then◌else◌, arith,
  length-append, ne→==,
}
use native.Mathlib.Nat.{mul-pos}
use goloader.PcTable.Varint.{put_uvarint, read_uvarint, read_uvarint-put, length-put, head-put}
use goloader.PcTable.{Cursor, step, goes_on, read_pcdata, pc_value_loop, add_delta}

-- A table before the deltas are written: each entry is a value delta (in zigzag) and a pc delta.
abbrev pub Entries : Type 0
Entries = List (ℕ × ℕ)

-- The bytes of the entries, and then others.
abbrev pub encode : Entries → List ℕ → List ℕ
encode [] tail = tail
encode ((uv, pd) ∷ es) tail = put_uvarint uv ++ (put_uvarint pd ++ encode es tail)

-- Deltas that the compiler writes, for instructions of `q` bytes: no pc stands still, only the
-- first value may stay, and each delta has 32 bits.
abbrev pub IsRun : ℕ → Bool → Entries → Type 0
IsRun q first [] = Unit
IsRun q first ((uv, pd) ∷ es) =
    (uv < 2 ^ 32) × (0 < pd) × (pd * q < 2 ^ 32) × ((first ≡ true) ⊎ (uv ≢ 0)) × IsRun q false es

-- The pcs and values of the entries from a pc and a value on.
abbrev pub points : ℕ → ℕ → ℕ → Entries → List (ℕ × ℕ)
points q pc val [] = []
points q pc val ((uv, pd) ∷ es) =
    (pc + pd * q, add_delta val uv) ∷ points q (pc + pd * q) (add_delta val uv) es

-- The value at a target, and where its range starts.
abbrev pub value_at : ℕ → ℕ → List (ℕ × ℕ) → ℕ × ℕ
value_at target prev [] = (2 ^ 32 - 1, 2 ^ 64 - 1)
value_at target prev ((pc, val) ∷ ps) = if ltb target pc then (val, prev) else value_at target pc ps

abbrev cursor : List ℕ → ℕ → ℕ → Cursor
cursor rest pc val = record { rest = rest; pc = pc; val = val }

-- An encoding and its tail take a byte for each entry at least.
pub length-encode :
    (es : Entries) (tail : List ℕ) → length es + length tail ≤ length (encode es tail)
length-encode [] tail = omega arith
length-encode ((uv, pd) ∷ es) tail = omega (
  arith,
  length-append (put_uvarint uv) (put_uvarint pd ++ encode es tail),
  length-append (put_uvarint pd) (encode es tail),
  length-put uv,
  length-encode es tail,
)

more_left :
    (rest : List ℕ) (done more : ℕ × ℕ)
    → 0 < length rest
    → elim rest as (λ _. ℕ × ℕ) [ [] ↦ done | x ∷ xs ↦ more ] ≡ more
more_left [] done more h = absurd (omega arith)
more_left (x ∷ xs) done more h = refl

test_lem :
    (b : Bool) (x y : ℕ × ℕ)
    → elim b as (λ _. ℕ × ℕ) [ true ↦ x | false ↦ y ] ≡ (if b then x else y)
test_lem true x y = refl
test_lem false x y = refl

mod_small : (n : ℕ) → n < 2 ^ 32 → n % 2 ^ 32 ≡ n
mod_small n h = omega arith

module _ (q : ℕ) (some_q : 0 < q) where
  starts :
      (first : Bool) (uv : ℕ) (rest : List ℕ)
      → (first ≡ true) ⊎ (uv ≢ 0)
      → goes_on first (put_uvarint uv ++ rest) ≡ true
  starts first uv rest h = let (b, bs, e, n) = head-put uv in rw e (head first b bs h n)
    where
      head :
          (first : Bool) (b : ℕ) (bs : List ℕ)
          → (first ≡ true) ⊎ (uv ≢ 0)
          → ((uv ≢ 0) → b ≢ 0)
          → goes_on first ((b ∷ bs) ++ rest) ≡ true
      head true b bs h n = refl
      head false b bs (inl h) n = cc
      head false b bs (inr h) n = rw (ne→== b 0 (n h))

  small : (pd : ℕ) → pd * q < 2 ^ 32 → pd < 2 ^ 32
  small pd h = grind arith

  step_entry :
      (first : Bool) (uv pd pc val : ℕ) (rest : List ℕ)
      → uv < 2 ^ 32
      → pd * q < 2 ^ 32
      → (first ≡ true) ⊎ (uv ≢ 0)
      → step q first (cursor (put_uvarint uv ++ (put_uvarint pd ++ rest)) pc val)
        ≡ some (cursor rest (pc + pd * q) (add_delta val uv))
  unfolding step
  step_entry first uv pd pc val rest hu hp h = rw (
    starts first uv (put_uvarint pd ++ rest) h,
    read_uvarint-put uv (put_uvarint pd ++ rest) (omega arith),
    read_uvarint-put pd rest (omega (arith, small pd hp)),
    mod_small uv hu,
    mod_small pd (small pd hp),
    mod_small (pd * q) hp,
  )

  read_none : (fuel pc val : ℕ) → read_pcdata fuel q (cursor [] pc val) ≡ []
  unfolding read_pcdata step read_uvarint
  read_none zero pc val = refl
  read_none (suc fuel) pc val = refl

  read_rest :
      (fuel : ℕ) (rest : List ℕ) (pc val : ℕ)
      → elim rest as (λ _. List (ℕ × ℕ)) [
        | [] ↦ []
        | x ∷ xs ↦ read_pcdata fuel q (cursor rest pc val)
      ]
        ≡ read_pcdata fuel q (cursor rest pc val)
  read_rest fuel [] pc val = sym (read_none fuel pc val)
  read_rest fuel (x ∷ xs) pc val = refl

  not_start : (pc pd : ℕ) → 0 < pd → pc + pd * q ≢ 0
  not_start pc pd h e = grind (arith, mul-pos h some_q)

  -- The decoder finds the points.
  pub read_pcdata-encode :
      (fuel pc val : ℕ) (es : Entries)
      → length es ≤ fuel
      → IsRun q (pc == 0) es
      → read_pcdata fuel q (cursor (encode es []) pc val) ≡ points q pc val es
  unfolding read_pcdata
  read_pcdata-encode fuel pc val [] h run = read_none fuel pc val
  read_pcdata-encode zero pc val (e ∷ es) h run = absurd (omega arith)
  read_pcdata-encode (suc fuel) pc val ((uv, pd) ∷ es) h run =
      rw (step_entry (pc == 0) uv pd pc val (encode es []) run.0 run.2 run.3, read_pcdata)
        (ap (◌∷◌ (pc + pd * q, add_delta val uv)) (
          read_rest fuel (encode es []) (pc + pd * q) (add_delta val uv)
          ∙ read_pcdata-encode fuel (pc + pd * q) (add_delta val uv) es (omega arith)
              (rw (ne→== (pc + pd * q) 0 (not_start pc pd run.1)) run.4)))

  abbrev pub Terminated : ℕ → Entries → Type 0
  Terminated pc [] = pc ≢ 0
  Terminated pc (e ∷ es) = Unit

  terminated : (pc : ℕ) (es : Entries) → pc ≢ 0 → Terminated pc es
  terminated pc [] h = h
  terminated pc (e ∷ es) h = tt

  step_end : (pc val : ℕ) → pc ≢ 0 → step q (pc == 0) (cursor (0 ∷ []) pc val) ≡ none
  unfolding step read_uvarint
  step_end pc val h = ground (arith, h)

  -- The lookup finds the value at the points.
  pub loop-encode :
      (fuel target prev pc val : ℕ) (es : Entries)
      → length es < fuel
      → IsRun q (pc == 0) es
      → Terminated pc es
      → pc_value_loop fuel q target prev (cursor (encode es (0 ∷ [])) pc val)
        ≡ value_at target prev (points q pc val es)
  unfolding pc_value_loop
  loop-encode zero target prev pc val es h run term = absurd (omega arith)
  loop-encode (suc fuel) target prev pc val [] h run term = rw (step_end pc val term, pc_value_loop)
  loop-encode (suc fuel) target prev pc val ((uv, pd) ∷ es) h run term =
      rw (step_entry (pc == 0) uv pd pc val (encode es (0 ∷ [])) run.0 run.2 run.3, pc_value_loop)
        (more_left (encode es (0 ∷ [])) _ _ (omega (arith, length-encode es (0 ∷ [])))
          ∙ test_lem (ltb target (pc + pd * q)) _ _
          ∙ ap (λ r. if ltb target (pc + pd * q) then (add_delta val uv, prev) else r)
              (loop-encode fuel target (pc + pd * q) (pc + pd * q) (add_delta val uv) es
                (omega arith) (rw (ne→== (pc + pd * q) 0 (not_start pc pd run.1)) run.4)
                (terminated (pc + pd * q) es (not_start pc pd run.1))))
