-- ===== src/PcTable/Extends.antt =====
-- The tables that cover more of the text than another table, with the value at one of its pcs.
use mathlib.Core.List.{append_assoc}
use goloader.Shared.{
  ℕ, ◌+◌, ◌-◌, ◌*◌, ◌/◌, ◌%◌, ◌^◌, ◌≤◌, ◌<◌, ◌≡◌, ◌≢◌, ◌∙◌, inl, inr, refl, sym, ap, Bool, true,
  false, List, [], ◌∷◌, ◌++◌, length, ltb, lt→ltb, arith, Bool-cases, ltb→lt,
}
use goloader.Reloc.AsmBytes.{Arch, amd64, arm64}
use goloader.PcTable.Varint.{zigzag}
use goloader.PcTable.{pc_quantum, add_delta, pc_value}
use goloader.PcTable.Points.{Entries, encode, IsRun, points, value_at}
use goloader.PcTable.Lookup.{end_pc, end_val, value_at-before, value_at-after, pc_value-encode}

pub encode-tail : (es : Entries) (tail : List ℕ) → encode es tail ≡ encode es [] ++ tail
encode-tail [] tail = refl
encode-tail ((uv, pd) ∷ es) tail = simp (append_assoc, encode-tail es tail)

-- A value is an `int32` pattern, and its range starts at the target at the latest.
pub value_at-lt :
    (q target prev pc val : ℕ) (es : Entries)
    → prev ≤ target
    → pc ≤ target
    → target < end_pc q pc es
    → ((value_at target prev (points q pc val es)).0 < 2 ^ 32)
      × ((value_at target prev (points q pc val es)).1 ≤ target)
value_at-lt q target prev pc val [] hp h lt = absurd (omega arith)
value_at-lt q target prev pc val ((uv, pd) ∷ es) hp h lt =
    elim (Bool-cases (ltb target (pc + pd * q))) [
      | inl e ↦ rw e (ground arith)
      | inr e ↦ rw e (
          value_at-lt q target (pc + pd * q) (pc + pd * q) (add_delta val uv) es (ground arith)
            (ground arith) lt)
    ]

pub multiple :
    (arch : Arch) (pc : ℕ) (es : Entries)
    → pc % pc_quantum arch ≡ 0
    → end_pc (pc_quantum arch) pc es % pc_quantum arch ≡ 0
multiple arch pc [] h = h
multiple amd64 pc ((uv, pd) ∷ es) h = multiple amd64 (pc + pd * 1) es (omega arith)
multiple arm64 pc ((uv, pd) ∷ es) h = multiple arm64 (pc + pd * 4) es (omega arith)

pub quotient : (arch : Arch) (d : ℕ) → d * pc_quantum arch / pc_quantum arch ≡ d
quotient amd64 d = omega arith
quotient arm64 d = omega arith

pub whole :
    (arch : Arch) (a b : ℕ)
    → a % pc_quantum arch ≡ 0
    → b % pc_quantum arch ≡ 0
    → a ≤ b
    → (b - a) / pc_quantum arch * pc_quantum arch ≡ b - a
whole amd64 a b h k le = omega arith
whole arm64 a b h k le = omega arith

pub some_quantum : (arch : Arch) → 0 < pc_quantum arch
some_quantum amd64 = omega arith
some_quantum arm64 = omega arith

-- The delta that `append_pair` writes leads from one value to the other.
pub delta_lem :
    (a b : ℕ) → a < 2 ^ 32 → b < 2 ^ 32 → add_delta a (zigzag ((b + 2 ^ 32 - a) % 2 ^ 32)) ≡ b
delta_lem a b ha hb = ground arith

pub delta_lt : (a b : ℕ) → zigzag ((b + 2 ^ 32 - a) % 2 ^ 32) < 2 ^ 32
delta_lt a b = ground arith

pub delta-ne : (a b : ℕ) → a < 2 ^ 32 → b < 2 ^ 32 → a ≢ b → zigzag ((b + 2 ^ 32 - a) % 2 ^ 32) ≢ 0
delta-ne a b ha hb ne h = ground (arith, ne)

-- What the table `es'` says after the patch of `es` up to `end`: the lookups in the text that `es`
-- covers stay, those behind it up to `end` give the value at `off`, and the table ends at `end`.
abbrev pub Extends : ℕ → Entries → ℕ → ℕ → Entries → Type 0
Extends q es off end es' =
    IsRun q true es'
    × (end_pc q 0 es' ≡ end)
    × ((x : ℕ)
        → x < end_pc q 0 es
        → pc_value q (encode es' (0 ∷ [])) x ≡ pc_value q (encode es (0 ∷ [])) x)
    × ((x : ℕ)
        → end_pc q 0 es ≤ x
        → x < end
        → (pc_value q (encode es' (0 ∷ [])) x).0 ≡ (pc_value q (encode es (0 ∷ [])) off).0)

abbrev pub minus_one : ℕ
minus_one = 2 ^ 32 - 1

IsRun-last :
    (q : ℕ) (first : Bool) (es : Entries) (uv pd pd' : ℕ)
    → IsRun q first (es ++ (uv, pd) ∷ [])
    → 0 < pd'
    → pd' * q < 2 ^ 32
    → IsRun q first (es ++ (uv, pd') ∷ [])
IsRun-last q first [] uv pd pd' run b c = (run.0, b, c, run.3, tt)
IsRun-last q first ((u, d) ∷ es) uv pd pd' run b c =
    (run.0, run.1, run.2, run.3, IsRun-last q false es uv pd pd' run.4 b c)

IsRun-snoc :
    (q : ℕ) (first : Bool) (es : Entries) (uv pd : ℕ)
    → IsRun q first es
    → uv < 2 ^ 32
    → 0 < pd
    → pd * q < 2 ^ 32
    → uv ≢ 0
    → IsRun q first (es ++ (uv, pd) ∷ [])
IsRun-snoc q first [] uv pd run a b c n = (a, b, c, inr n, tt)
IsRun-snoc q first ((u, d) ∷ es) uv pd run a b c n =
    (run.0, run.1, run.2, run.3, IsRun-snoc q false es uv pd run.4 a b c n)

pub end_pc-append :
    (q pc : ℕ) (es fs : Entries) → end_pc q pc (es ++ fs) ≡ end_pc q (end_pc q pc es) fs
end_pc-append q pc [] fs = refl
end_pc-append q pc ((uv, pd) ∷ es) fs = end_pc-append q (pc + pd * q) es fs

pub end_val-append :
    (val : ℕ) (es fs : Entries) → end_val val (es ++ fs) ≡ end_val (end_val val es) fs
end_val-append val [] fs = refl
end_val-append val ((uv, pd) ∷ es) fs = end_val-append (add_delta val uv) es fs

pub nonempty : (es : Entries) (e : ℕ × ℕ) → 0 < length (es ++ e ∷ [])
nonempty [] e = omega arith
nonempty (x ∷ es) e = omega arith

-- The lookup in the last entry.
last_entry :
    (q x uv pd : ℕ) (init : Entries)
    → end_pc q 0 init ≤ x
    → x < end_pc q 0 init + pd * q
    → value_at x 0 (points q 0 minus_one (init ++ (uv, pd) ∷ []))
      ≡ (add_delta (end_val minus_one init) uv, end_pc q 0 init)
last_entry q x uv pd init h lt =
    value_at-after q x 0 minus_one init ((uv, pd) ∷ []) h
    ∙ rw (lt→ltb x (end_pc q 0 init + pd * q) lt)

module _ (q : ℕ) (some_q : 0 < q) (off end : ℕ) where
  -- A longer last entry.
  pub extended-Extends :
      (init : Entries) (uv pd pd' : ℕ)
      → IsRun q true (init ++ (uv, pd) ∷ [])
      → pd' * q < 2 ^ 32
      → end_pc q 0 init + pd' * q ≡ end
      → end_pc q 0 init + pd * q < end
      → 0 < pd'
      → (value_at off 0 (points q 0 minus_one (init ++ (uv, pd) ∷ []))).0
        ≡ add_delta (end_val minus_one init) uv
      → Extends q (init ++ (uv, pd) ∷ []) off end (init ++ (uv, pd') ∷ [])
  extended-Extends init uv pd pd' run small e lt some_pd same = (
    run',
    end_pc-append q 0 init ((uv, pd') ∷ []) ∙ e,
    λ x h.
        pc_value-encode q some_q es' x (nonempty init (uv, pd')) run'
        ∙ before x (rw (end_pc-append q 0 init ((uv, pd) ∷ [])) at h)
        ∙ sym (pc_value-encode q some_q es x (nonempty init (uv, pd)) run),
    λ x h k.
        ap (λ (r : ℕ × ℕ). r.0)
          (pc_value-encode q some_q es' x (nonempty init (uv, pd')) run'
            ∙ last_entry q x uv pd' init (omega (arith, end_pc-append q 0 init ((uv, pd) ∷ [])))
                (omega arith))
        ∙ sym (
            ap (λ (r : ℕ × ℕ). r.0) (pc_value-encode q some_q es off (nonempty init (uv, pd)) run)
            ∙ same),
  )
    where
      es : Entries
      es = init ++ (uv, pd) ∷ []

      es' : Entries
      es' = init ++ (uv, pd') ∷ []

      run' : IsRun q true (init ++ (uv, pd') ∷ [])
      run' = IsRun-last q true init uv pd pd' run some_pd small

      before :
          (x : ℕ)
          → x < end_pc q 0 init + pd * q
          → value_at x 0 (points q 0 minus_one (init ++ (uv, pd') ∷ []))
            ≡ value_at x 0 (points q 0 minus_one (init ++ (uv, pd) ∷ []))
      before x h = elim (Bool-cases (ltb x (end_pc q 0 init))) [
        | inl l ↦
            value_at-before q x 0 0 minus_one init ((uv, pd') ∷ []) (omega arith) (ltb→lt _ _ l)
            ∙ sym (
                value_at-before q x 0 0 minus_one init ((uv, pd) ∷ []) (omega arith) (ltb→lt _ _ l))
        | inr l ↦
            last_entry q x uv pd' init (ground arith) (omega arith)
            ∙ sym (last_entry q x uv pd init (ground arith) h)
      ]

  -- One more entry, with the value at `off`.
  pub appended-Extends :
      (es : Entries) (uv pd : ℕ)
      → 0 < length es
      → IsRun q true es
      → uv < 2 ^ 32
      → 0 < pd
      → pd * q < 2 ^ 32
      → uv ≢ 0
      → end_pc q 0 es + pd * q ≡ end
      → add_delta (end_val minus_one es) uv ≡ (value_at off 0 (points q 0 minus_one es)).0
      → Extends q es off end (es ++ (uv, pd) ∷ [])
  appended-Extends es uv pd some_es run a b c n e same = (
    run',
    end_pc-append q 0 es ((uv, pd) ∷ []) ∙ e,
    λ x h.
        pc_value-encode q some_q (es ++ (uv, pd) ∷ []) x (nonempty es (uv, pd)) run'
        ∙ value_at-before q x 0 0 minus_one es ((uv, pd) ∷ []) (omega arith) h
        ∙ sym (pc_value-encode q some_q es x some_es run),
    λ x h k.
        ap (λ (r : ℕ × ℕ). r.0)
          (pc_value-encode q some_q (es ++ (uv, pd) ∷ []) x (nonempty es (uv, pd)) run'
            ∙ last_entry q x uv pd es h (omega arith))
        ∙ same
        ∙ sym (ap (λ (r : ℕ × ℕ). r.0) (pc_value-encode q some_q es off some_es run)),
  )
    where
      run' : IsRun q true (es ++ (uv, pd) ∷ [])
      run' = IsRun-snoc q true es uv pd run a b c n
