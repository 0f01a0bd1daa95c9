-- ===== src/PcTable/Patch.antt =====
-- `patchPCValuesForReloc` extends a table over an epilogue.
use mathlib.Core.List.{append_assoc, append-nil}
use goloader.Shared.{
  ℕ, zero, suc, ◌+◌, ◌-◌, ◌*◌, ◌/◌, ◌%◌, ◌^◌, ◌≤◌, ◌<◌, ◌≡◌, ◌≢◌, ◌∙◌, inl, inr, refl, sym, ap,
  true, false, List, [], ◌∷◌, ◌++◌, some, length, ◌==◌, eq→==, ==→eq, if◌then◌else◌, arith,
  Bool-cases, ◌&&◌, ◌||◌, not, take-append_left,
}
use goloader.Shared.Word.{sub64}
use goloader.Shared.Outcome.{Outcome, ok}
use goloader.Reloc.AsmBytes.{Arch, amd64, arm64}
use goloader.PcTable.Varint.{put_uvarint, put_varint, zigzag, length-put}
use goloader.PcTable.{
  pc_quantum, add_delta, pc_value, last_pair, split_last, extend_last, append_pair, patch_pc_values,
  read_pcdata, start,
}
use goloader.PcTable.LastIndex.{last_index-append}
use goloader.PcTable.Points.{
  Entries, encode, IsRun, points, value_at, length-encode, read_pcdata-encode,
}
use goloader.PcTable.Lookup.{
  end_pc, end_val, encode-append, last_pair-points, split_last-append, pc_value-encode,
}
use goloader.PcTable.Extends.{
  Extends, minus_one, encode-tail, value_at-lt, multiple, quotient, whole, some_quantum, delta_lem,
  delta_lt, delta-ne, extended-Extends, appended-Extends, nonempty, end_pc-append, end_val-append,
}

extend_last_lem :
    (q before last end pd : ℕ) (a p : List ℕ)
    → p ≡ a ++ put_uvarint pd
    → (last - before) / q ≡ pd
    → extend_last q p before last end ≡ ok (a ++ put_uvarint (sub64 end before / q))
unfolding extend_last
extend_last_lem q before last end pd a p e d = rw (
  d,
  e,
  last_index-append a (put_uvarint pd) (length-put pd),
  extend_last,
  take-append_left a (put_uvarint pd),
)

append_pair_lem :
    (q last last_val val end : ℕ) (p : List ℕ)
    → last < end
    → append_pair q p last last_val val end
      ≡ ok (
          p
          ++ (put_uvarint (zigzag ((val + 2 ^ 32 - last_val) % 2 ^ 32))
              ++ put_uvarint ((end - last) / q)))
unfolding append_pair put_varint
append_pair_lem q last last_val val end p h = ground arith

zero_multiple : (arch : Arch) → 0 % pc_quantum arch ≡ 0
zero_multiple amd64 = refl
zero_multiple arm64 = refl

cancel : (a b : ℕ) → a + b - a ≡ b
cancel a b = omega arith

module _ (arch : Arch) (init : Entries) (uv pd off epi size : ℕ)
    (run : IsRun (pc_quantum arch) true (init ++ (uv, pd) ∷ []))
    (at : off < end_pc (pc_quantum arch) 0 (init ++ (uv, pd) ∷ []))
    (grows : end_pc (pc_quantum arch) 0 (init ++ (uv, pd) ∷ []) < epi + size)
    (fits : epi + size < 2 ^ 32) (aligned : (epi + size) % pc_quantum arch ≡ 0) where
  abbrev q : ℕ
  q = pc_quantum arch

  abbrev es : Entries
  es = init ++ (uv, pd) ∷ []

  abbrev before : ℕ
  before = end_pc q 0 init

  abbrev last_pc : ℕ
  last_pc = before + pd * q

  abbrev last_val : ℕ
  last_val = add_delta (end_val minus_one init) uv

  abbrev found : ℕ × ℕ
  found = value_at off 0 (points q 0 minus_one es)

  abbrev bytes : List ℕ
  bytes = encode es []

  last_lem : end_pc q 0 es ≡ last_pc
  last_lem = end_pc-append q 0 init ((uv, pd) ∷ [])

  lookup_lem : pc_value q (encode es (0 ∷ [])) off ≡ found
  lookup_lem = pc_value-encode q (some_quantum arch) es off (nonempty init (uv, pd)) run

  split_lem : split_last (encode es (0 ∷ [])) ≡ some (bytes, 0)
  split_lem = ap split_last (encode-tail es (0 ∷ [])) ∙ split_last-append bytes 0

  pair_lem :
      last_pair 0 (read_pcdata (length bytes) q (start bytes)) ≡ some (before, last_pc, last_val)
  pair_lem =
      ap (last_pair 0) (
        read_pcdata-encode q (some_quantum arch) (length bytes) 0 minus_one es
          (omega (arith, length-encode es [])) run)
      ∙ last_pair-points q 0 minus_one uv pd init

  found_bounds : (found.0 < 2 ^ 32) × (found.1 ≤ off)
  found_bounds = value_at-lt q off 0 0 minus_one es (omega arith) (omega arith) at

  -- The two ways in which the patch goes on.
  abbrev goes_on : Outcome (List ℕ)
  goes_on =
      if last_val == found.0
      then extend_last q bytes before last_pc (epi + size)
      else append_pair q bytes last_pc last_val found.0 (epi + size)

  not_missing : (found.1 == 2 ^ 64 - 1) && (found.0 == 2 ^ 32 - 1) || not (◌==◌ 0 0) ≡ false
  not_missing = ground (arith, found_bounds, last_lem)

  runs :
      {p : List ℕ}
      → goes_on ≡ ok p
      → patch_pc_values arch (encode es (0 ∷ [])) off epi size ≡ ok (p ++ 0 ∷ [])
  unfolding patch_pc_values
  runs {p} h = rw (split_lem, patch_pc_values, lookup_lem, not_missing, pair_lem, h)

  prefix : List ℕ
  prefix = encode init [] ++ put_uvarint uv

  bytes_lem :
      (d : ℕ) (tail : List ℕ)
      → encode (init ++ (uv, d) ∷ []) tail
        ≡ (encode init [] ++ put_uvarint uv) ++ (put_uvarint d ++ tail)
  bytes_lem d tail =
      encode-append init ((uv, d) ∷ []) tail
      ∙ encode-tail init (put_uvarint uv ++ (put_uvarint d ++ tail))
      ∙ sym (append_assoc (encode init []) (put_uvarint uv) (put_uvarint d ++ tail))

  abbrev longer : ℕ
  longer = sub64 (epi + size) before / q

  before_multiple : before % q ≡ 0
  before_multiple = multiple arch 0 init (zero_multiple arch)

  last_multiple : last_pc % q ≡ 0
  last_multiple = rw (← last_lem) (multiple arch 0 es (zero_multiple arch))

  longer_lem : longer * q ≡ epi + size - before
  longer_lem =
      ap (λ t. t / q * q) (difference)
      ∙ whole arch before (epi + size) before_multiple aligned (omega (arith, last_lem))
    where
      difference : sub64 (epi + size) before ≡ epi + size - before
      difference = omega (arith, last_lem)

  abbrev more : ℕ
  more = (epi + size - last_pc) / q

  more_lem : more * q ≡ epi + size - last_pc
  more_lem = whole arch last_pc (epi + size) last_multiple aligned (omega (arith, last_lem))

  some_product : (n : ℕ) → 0 < n * q → 0 < n
  some_product zero h = omega arith
  some_product (suc n) h = omega arith

  extended :
      last_val == found.0 ≡ true
      → (es' : Entries) × (patch_pc_values arch (encode es (0 ∷ [])) off epi size
          ≡ ok (encode es' (0 ∷ [])))
        × Extends q es off (epi + size) es'
  extended e = (
    init ++ (uv, longer) ∷ [],
    runs (
          rw e (
            extend_last_lem q before last_pc (epi + size) pd (encode init [] ++ put_uvarint uv)
              bytes
              (bytes_lem pd []
                ∙ ap (λ r. (encode init [] ++ put_uvarint uv) ++ r) (append-nil (put_uvarint pd)))
              (ap (λ t. t / q) (cancel before (pd * q)) ∙ quotient arch pd)))
        ∙ ap ok (
            append_assoc (encode init [] ++ put_uvarint uv) (put_uvarint longer) (0 ∷ [])
            ∙ sym (bytes_lem longer (0 ∷ []))),
    extended-Extends q (some_quantum arch) off (epi + size) init uv pd longer run
        (omega (arith, longer_lem)) (omega (arith, longer_lem, last_lem)) (omega (arith, last_lem))
        (some_product longer (omega (arith, longer_lem, last_lem))) (sym (==→eq _ _ e)),
  )

  value_lt : last_val < 2 ^ 32
  value_lt = ground arith

  appended :
      last_val == found.0 ≡ false
      → (es' : Entries) × (patch_pc_values arch (encode es (0 ∷ [])) off epi size
          ≡ ok (encode es' (0 ∷ [])))
        × Extends q es off (epi + size) es'
  appended e = (
    es ++ (zigzag ((found.0 + 2 ^ 32 - last_val) % 2 ^ 32), more) ∷ [],
    runs (
          rw e (
            append_pair_lem q last_pc last_val found.0 (epi + size) bytes
              (omega (arith, last_lem))))
        ∙ ap ok joined,
    appended-Extends q (some_quantum arch) off (epi + size) es _ more (nonempty init (uv, pd)) run
        (delta_lt last_val found.0) (some_product more (omega (arith, more_lem, last_lem)))
        (omega (arith, more_lem)) (delta-ne last_val found.0 value_lt found_bounds.0 differs)
        (omega (arith, more_lem, last_lem))
        (rw (end_val-append minus_one init ((uv, pd) ∷ []))
          (delta_lem last_val found.0 value_lt found_bounds.0)),
  )
    where
      differs : last_val ≢ found.0
      differs h = ground (arith, eq→== last_val found.0 h)

      joined :
          (bytes
              ++ (put_uvarint (zigzag ((found.0 + 2 ^ 32 - last_val) % 2 ^ 32))
                  ++ put_uvarint more))
            ++ 0 ∷ []
          ≡ encode (es ++ (zigzag ((found.0 + 2 ^ 32 - last_val) % 2 ^ 32), more) ∷ []) (0 ∷ [])
      joined =
          append_assoc bytes
            (put_uvarint (zigzag ((found.0 + 2 ^ 32 - last_val) % 2 ^ 32)) ++ put_uvarint more)
            (0 ∷ [])
          ∙ ap (λ r. bytes ++ r)
              (append_assoc (put_uvarint (zigzag ((found.0 + 2 ^ 32 - last_val) % 2 ^ 32)))
                (put_uvarint more) (0 ∷ []))
          ∙ sym (
              encode-append es ((zigzag ((found.0 + 2 ^ 32 - last_val) % 2 ^ 32), more) ∷ [])
                (0 ∷ [])
              ∙ encode-tail es (
                  put_uvarint (zigzag ((found.0 + 2 ^ 32 - last_val) % 2 ^ 32))
                  ++ (put_uvarint more ++ 0 ∷ [])))

  -- The patch of a table that the compiler wrote (or an earlier patch), with an epilogue behind all
  -- that it covers: it succeeds, and its result is again such a table, which ends with the
  -- epilogue. No lookup in the text before the epilogue changes, and every lookup behind it gives
  -- the value at the relocation.
  pub patch_pc_values-Extends :
      (es' : Entries) × (patch_pc_values arch (encode es (0 ∷ [])) off epi size
        ≡ ok (encode es' (0 ∷ [])))
      × Extends q es off (epi + size) es'
  patch_pc_values-Extends = elim (Bool-cases (last_val == found.0)) [
    | inl e ↦ extended e
    | inr e ↦ appended e
  ]
