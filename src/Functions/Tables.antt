-- ===== src/Functions/Tables.antt =====
-- `readFuncData` extends every pc-value table of a function over the epilogues of its relocations.
use goloader.Shared.{
  ℕ, ◌+◌, ◌%◌, ◌^◌, ◌≤◌, ◌<◌, ◌≡◌, ◌⊎◌, refl, sym, ap, ◌∙◌, inl, inr, true, false, List, [], ◌∷◌,
  ◌++◌, length, ltb, if◌then◌else◌, arith, Bool-cases, ltb→lt, subst,
}
use goloader.Shared.Outcome.{Outcome, ok, ◌>>=◌}
use goloader.Segment.{Reloc}
use goloader.Reloc.AsmBytes.{Arch}
use goloader.PcTable.{pc_quantum, pc_value, patch_pc_values}
use goloader.PcTable.Points.{Entries, encode, IsRun, length-encode}
use goloader.PcTable.Lookup.{end_pc}
use goloader.PcTable.Extends.{Extends}
use goloader.PcTable.Patch.{patch_pc_values-Extends}
use goloader.Functions.{patch_table}

-- Where the text ends behind the epilogue of a relocation, if it has one.
abbrev pub end_behind : Reloc → ℕ → ℕ
end_behind loc end =
    if ltb 0 loc.epilogue_offset then loc.epilogue_offset + loc.epilogue_size else end

-- The relocations lie in the text, and their epilogues follow it one behind the other, in whole
-- instructions.
abbrev pub Epilogues : ℕ → ℕ → ℕ → List Reloc → Type 0
Epilogues q text end [] = Unit
Epilogues q text end (loc ∷ locs) =
    (0 < loc.epilogue_offset
      → (loc.offset < text)
        × (end < loc.epilogue_offset + loc.epilogue_size)
        × (loc.epilogue_offset + loc.epilogue_size < 2 ^ 32)
        × ((loc.epilogue_offset + loc.epilogue_size) % q ≡ 0))
    × Epilogues q text (end_behind loc end) locs

-- In each epilogue the new lookup gives what the old one gives at the relocation.
abbrev pub Carries : (ℕ → ℕ) → (ℕ → ℕ) → ℕ → List Reloc → Type 0
Carries new old end [] = Unit
Carries new old end (loc ∷ locs) =
    ((x : ℕ) → end ≤ x → x < end_behind loc end → new x ≡ old loc.offset)
    × Carries new old (end_behind loc end) locs

-- A table that the compiler wrote for `text` bytes, or none.
abbrev pub IsTable : ℕ → ℕ → List ℕ → Type 0
IsTable q text p =
    (p ≡ [])
    ⊎ ((es : Entries) × (p ≡ encode es (0 ∷ []))
        × IsRun q true es
        × (0 < length es)
        × (end_pc q 0 es ≡ text))

-- The table after the patches: it gives the old values in the text, and carries them on.
abbrev pub Follows : ℕ → ℕ → List Reloc → List ℕ → List ℕ → Type 0
Follows q text locs p p' =
    ((p ≡ []) × (p' ≡ []))
    ⊎ (((x : ℕ) → x < text → pc_value q p' x ≡ pc_value q p x)
        × Carries (λ x. (pc_value q p' x).0) (λ x. (pc_value q p x).0) text locs)

-- What the loop over the relocations does to one table.
abbrev pub patch_if : Arch → Reloc → List ℕ → Outcome (List ℕ)
patch_if arch loc p = if ltb 0 loc.epilogue_offset then patch_table arch p loc else ok p

unfoldable pub patch_one : Arch → List Reloc → List ℕ → Outcome (List ℕ)
patch_one arch [] p = ok p
patch_one arch (loc ∷ locs) p = patch_if arch loc p >>= patch_one arch locs

snoc_view :
    (es : Entries)
    → 0 < length es
    → (init : Entries) × (uv : ℕ) × (pd : ℕ) × (es ≡ init ++ (uv, pd) ∷ [])
snoc_view [] h = absurd (omega arith)
snoc_view ((u, d) ∷ []) h = ([], u, d, refl)
snoc_view (e ∷ (f ∷ es)) h =
    let (init, u, d, s) = snoc_view (f ∷ es) (omega arith) in (e ∷ init, u, d, ap (◌∷◌ e) s)

some_entries : (q end : ℕ) (es : Entries) → end_pc q 0 es ≡ end → 0 < end → 0 < length es
some_entries q end [] e h = absurd (omega arith)
some_entries q end (x ∷ es) e h = omega arith

patch_table_lem :
    (arch : Arch) (es : Entries) (loc : Reloc)
    → patch_table arch (encode es (0 ∷ [])) loc
      ≡ patch_pc_values arch (encode es (0 ∷ [])) loc.offset loc.epilogue_offset loc.epilogue_size
unfolding patch_table
patch_table_lem arch es loc = ground (arith, length-encode es (0 ∷ []))

-- One patch, for any way to write the last entry apart.
extend_lem :
    (arch : Arch) (es : Entries) (loc : Reloc)
    → 0 < length es
    → IsRun (pc_quantum arch) true es
    → loc.offset < end_pc (pc_quantum arch) 0 es
    → end_pc (pc_quantum arch) 0 es < loc.epilogue_offset + loc.epilogue_size
    → loc.epilogue_offset + loc.epilogue_size < 2 ^ 32
    → (loc.epilogue_offset + loc.epilogue_size) % pc_quantum arch ≡ 0
    → (es' : Entries) × (patch_table arch (encode es (0 ∷ [])) loc ≡ ok (encode es' (0 ∷ [])))
      × Extends (pc_quantum arch) es loc.offset (loc.epilogue_offset + loc.epilogue_size) es'
extend_lem arch es loc some run at grows fits aligned =
    let (init, uv, pd, e) = snoc_view es some in
    let (es', done, extends) =
      patch_pc_values-Extends arch init uv pd loc.offset loc.epilogue_offset loc.epilogue_size
        (subst (IsRun (pc_quantum arch) true) e run)
        (subst (λ t. loc.offset < end_pc (pc_quantum arch) 0 t) e at)
        (subst (λ t. end_pc (pc_quantum arch) 0 t < loc.epilogue_offset + loc.epilogue_size) e
          grows)
        fits aligned in
    (
      es',
      patch_table_lem arch es loc
          ∙ subst
              (λ t.
                patch_pc_values arch (encode t (0 ∷ [])) loc.offset loc.epilogue_offset
                  loc.epilogue_size
                ≡ ok (encode es' (0 ∷ [])))
              (sym e) done,
      subst
          (λ t.
            Extends (pc_quantum arch) t loc.offset (loc.epilogue_offset + loc.epilogue_size) es')
          (sym e) extends,
    )

-- The loop over one table: `old` are the values in the text, which every later table keeps.
module _ (arch : Arch) (text : ℕ) (old : ℕ → ℕ) where
  abbrev at_pc : Entries → ℕ → ℕ × ℕ
  at_pc es = pc_value (pc_quantum arch) (encode es (0 ∷ []))

  patch_one-Carries :
      (locs : List Reloc) (end : ℕ) (es : Entries)
      → 0 < length es
      → IsRun (pc_quantum arch) true es
      → end_pc (pc_quantum arch) 0 es ≡ end
      → text ≤ end
      → ((x : ℕ) → x < text → (at_pc es x).0 ≡ old x)
      → Epilogues (pc_quantum arch) text end locs
      → (es' : Entries) × (patch_one arch locs (encode es (0 ∷ [])) ≡ ok (encode es' (0 ∷ [])))
        × ((x : ℕ) → x < end → at_pc es' x ≡ at_pc es x)
        × Carries (λ x. (at_pc es' x).0) old end locs
  unfolding patch_one
  patch_one-Carries [] end es some run e le same h = (es, refl, λ x l. refl, tt)
  patch_one-Carries (loc ∷ locs) end es some run e le same h =
      elim (Bool-cases (ltb 0 loc.epilogue_offset)) [
        | inr skip ↦
            let (es', done, keeps, carries) =
              patch_one-Carries locs end es some run e le same
                (subst (λ t. Epilogues (pc_quantum arch) text t locs) (stays skip) h.1) in
            (es', rw skip done, keeps, rw skip ((λ x l k. absurd (omega arith)), carries))
        | inl patched ↦
            let (at, grows, fits, aligned) = h.0 (ltb→lt _ _ patched) in
            let (mid, first, (run', e', before, behind)) =
              extend_lem arch es loc some run (omega arith) (omega arith) fits aligned in
            let (es', done, keeps, carries) =
              patch_one-Carries locs (loc.epilogue_offset + loc.epilogue_size) mid
                (some_entries (pc_quantum arch) _ mid e' (omega arith)) run' e' (omega arith)
                (λ x l. ap (λ (r : ℕ × ℕ). r.0) (before x (omega arith)) ∙ same x l)
                (subst (λ t. Epilogues (pc_quantum arch) text t locs) (moves patched) h.1) in
            (
              es',
              rw (patched, first) done,
              λ x l. keeps x (omega arith) ∙ before x (omega arith),
              rw patched (
                (λ x l k.
                    ap (λ (r : ℕ × ℕ). r.0) (keeps x k)
                    ∙ behind x (omega arith) k
                    ∙ same loc.offset at),
                carries,
              ),
            )
      ]
    where
      stays : ltb 0 loc.epilogue_offset ≡ false → end_behind loc end ≡ end
      stays skip = rw skip

      moves :
          ltb 0 loc.epilogue_offset ≡ true
          → end_behind loc end ≡ loc.epilogue_offset + loc.epilogue_size
      moves patched = rw patched

pub patch_one-nil : (arch : Arch) (locs : List Reloc) → patch_one arch locs [] ≡ ok []
unfolding patch_one patch_table
patch_one-nil arch [] = refl
patch_one-nil arch (loc ∷ locs) = elim (Bool-cases (ltb 0 loc.epilogue_offset)) [
  | inl e ↦ rw e (patch_one-nil arch locs)
  | inr e ↦ rw e (patch_one-nil arch locs)
]

pub patch_one-Follows :
    (arch : Arch) (text : ℕ) (locs : List Reloc) (p : List ℕ)
    → 0 < text
    → IsTable (pc_quantum arch) text p
    → Epilogues (pc_quantum arch) text text locs
    → (p' : List ℕ) × (patch_one arch locs p ≡ ok p') × Follows (pc_quantum arch) text locs p p'
patch_one-Follows arch text locs p some (inl e) h =
    ([], ap (patch_one arch locs) e ∙ patch_one-nil arch locs, inl (e, refl))
patch_one-Follows arch text locs p some (inr (es, e, run, any, end)) h =
    let (es', done, keeps, carries) =
      patch_one-Carries arch text (λ x. (pc_value (pc_quantum arch) (encode es (0 ∷ [])) x).0) locs
        text es any run end (omega arith) (λ x l. refl) h in
    (
      encode es' (0 ∷ []),
      ap (patch_one arch locs) e ∙ done,
      subst (λ t. Follows (pc_quantum arch) text locs t (encode es' (0 ∷ []))) (sym e)
          (inr (keeps, carries)),
    )
