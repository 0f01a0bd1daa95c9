-- ===== src/PcTable/Lookup.antt =====
-- Lookups in a table that is made of two parts, and the ends of a table's bytes.
use goloader.Shared.{
  ℕ, ◌+◌, ◌-◌, ◌*◌, ◌^◌, ◌≤◌, ◌<◌, ◌≡◌, ◌∙◌, inl, inr, refl, ap, Bool, true, false, List, [], ◌∷◌,
  ◌++◌, some, length, ltb, arith, Bool-cases,
}
use goloader.PcTable.Varint.{put_uvarint}
use goloader.PcTable.{add_delta, start, pc_value, pc_value_loop, last_pair, split_last}
use goloader.PcTable.Points.{
  Entries, encode, IsRun, points, value_at, length-encode, loop-encode, Terminated,
}

-- Where the table ends: its last pc and value.
abbrev pub end_pc : ℕ → ℕ → Entries → ℕ
end_pc q pc [] = pc
end_pc q pc ((uv, pd) ∷ es) = end_pc q (pc + pd * q) es

abbrev pub end_val : ℕ → Entries → ℕ
end_val val [] = val
end_val val ((uv, pd) ∷ es) = end_val (add_delta val uv) es

pub encode-append :
    (es fs : Entries) (tail : List ℕ) → encode (es ++ fs) tail ≡ encode es (encode fs tail)
encode-append [] fs tail = refl
encode-append ((uv, pd) ∷ es) fs tail =
    ap (λ r. put_uvarint uv ++ (put_uvarint pd ++ r)) (encode-append es fs tail)

pub IsRun-append :
    (q : ℕ) (first : Bool) (es fs : Entries) → IsRun q first (es ++ fs) → IsRun q first es
IsRun-append q first [] fs run = tt
IsRun-append q first ((uv, pd) ∷ es) fs run =
    (run.0, run.1, run.2, run.3, IsRun-append q false es fs run.4)

pub le-end_pc : (q pc : ℕ) (es : Entries) → pc ≤ end_pc q pc es
le-end_pc q pc [] = omega arith
le-end_pc q pc ((uv, pd) ∷ es) = omega (arith, le-end_pc q (pc + pd * q) es)

-- A lookup before the end of the first part does not see the second.
pub value_at-before :
    (q target prev pc val : ℕ) (es fs : Entries)
    → pc ≤ target
    → target < end_pc q pc es
    → value_at target prev (points q pc val (es ++ fs)) ≡ value_at target prev (points q pc val es)
value_at-before q target prev pc val [] fs h lt = absurd (omega arith)
value_at-before q target prev pc val ((uv, pd) ∷ es) fs h lt =
    elim (Bool-cases (ltb target (pc + pd * q))) [
      | inl e ↦ rw e
      | inr e ↦ rw e (
          value_at-before q target (pc + pd * q) (pc + pd * q) (add_delta val uv) es fs
            (ground arith) lt)
    ]

-- A lookup from the end of the first part on sees the second only.
pub value_at-after :
    (q target pc val : ℕ) (es fs : Entries)
    → end_pc q pc es ≤ target
    → value_at target pc (points q pc val (es ++ fs))
      ≡ value_at target (end_pc q pc es) (points q (end_pc q pc es) (end_val val es) fs)
value_at-after q target pc val [] fs h = refl
value_at-after q target pc val ((uv, pd) ∷ es) fs h = elim (Bool-cases (ltb target (pc + pd * q))) [
  | inl e ↦ absurd (ground (arith, le-end_pc q (pc + pd * q) es))
  | inr e ↦ rw e (value_at-after q target (pc + pd * q) (add_delta val uv) es fs h)
]

pub last_pair-points :
    (q pc val uv pd : ℕ) (es : Entries)
    → last_pair pc (points q pc val (es ++ (uv, pd) ∷ []))
      ≡ some (end_pc q pc es, end_pc q pc es + pd * q, add_delta (end_val val es) uv)
unfolding last_pair
last_pair-points q pc val uv pd [] = refl
last_pair-points q pc val uv pd ((u, d) ∷ []) = refl
last_pair-points q pc val uv pd ((u, d) ∷ (e ∷ es)) =
    last_pair-points q (pc + d * q) (add_delta val u) uv pd (e ∷ es)

pub split_last-append : (p : List ℕ) (z : ℕ) → split_last (p ++ z ∷ []) ≡ some (p, z)
unfolding split_last
split_last-append [] z = refl
split_last-append (x ∷ []) z = refl
split_last-append (x ∷ (y ∷ ys)) z = rw (split_last-append (y ∷ ys) z, split_last)

module _ (q : ℕ) (some_q : 0 < q) where
  loop_lem :
      (p : List ℕ) (target : ℕ)
      → 0 < length p
      → pc_value q p target ≡ pc_value_loop (length p) q target 0 (start p)
  unfolding pc_value
  loop_lem [] target h = absurd (omega arith)
  loop_lem (x ∷ xs) target h = refl

  term : (es : Entries) → 0 < length es → Terminated q some_q 0 es
  term [] h = absurd (omega arith)
  term (e ∷ es) h = tt

  -- pcValue on an encoding.
  pub pc_value-encode :
      (es : Entries) (target : ℕ)
      → 0 < length es
      → IsRun q true es
      → pc_value q (encode es (0 ∷ [])) target ≡ value_at target 0 (points q 0 (2 ^ 32 - 1) es)
  pc_value-encode es target h run =
      loop_lem (encode es (0 ∷ [])) target (omega (arith, length-encode es (0 ∷ [])))
      ∙ loop-encode q some_q (length (encode es (0 ∷ []))) target 0 0 (2 ^ 32 - 1) es
          (omega (arith, length-encode es (0 ∷ []))) run (term es h)
