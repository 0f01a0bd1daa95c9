-- ===== src/Functions/AllTables.antt =====
-- The loop over the relocations, one after the other, against the tables, one after the other.
use goloader.Shared.{
  ℕ, ◌<◌, ◌≡◌, refl, sym, ◌∙◌, inl, inr, List, [], ◌∷◌, ltb, if◌then◌else◌, Bool-cases,
}
use goloader.Shared.Outcome.{Outcome, ok, err, panic, ◌>>=◌}
use goloader.Segment.{Reloc}
use goloader.Reloc.AsmBytes.{Arch}
use goloader.PcTable.{pc_quantum}
use goloader.Functions.{FuncInfo, patch_pcdata, patch_func, patch_tables}
use goloader.Functions.Tables.{Epilogues, IsTable, Follows, patch_if, patch_one, patch_one-Follows}

-- The same for the tables of `PCData`.
abbrev pub AllTables : ℕ → ℕ → List (List ℕ) → Type 0
AllTables q text [] = Unit
AllTables q text (p ∷ ps) = IsTable q text p × AllTables q text ps

abbrev pub AllFollow : ℕ → ℕ → List Reloc → List (List ℕ) → List (List ℕ) → Type 0
AllFollow q text locs [] [] = Unit
AllFollow q text locs (p ∷ ps) (p' ∷ ps') = Follows q text locs p p' × AllFollow q text locs ps ps'
AllFollow q text locs _ _ = ⊥

patch_each : Arch → List Reloc → List (List ℕ) → Outcome (List (List ℕ))
patch_each arch locs [] = ok []
patch_each arch locs (p ∷ ps) =
    patch_one arch locs p >>= λ p'. patch_each arch locs ps >>= λ ps'. ok (p' ∷ ps')

patch_each-Follow :
    (arch : Arch) (text : ℕ) (locs : List Reloc) (ps : List (List ℕ))
    → 0 < text
    → AllTables (pc_quantum arch) text ps
    → Epilogues (pc_quantum arch) text text locs
    → (ps' : List (List ℕ)) × (patch_each arch locs ps ≡ ok ps')
      × AllFollow (pc_quantum arch) text locs ps ps'
unfolding patch_each
patch_each-Follow arch text locs [] some h e = ([], refl, tt)
patch_each-Follow arch text locs (p ∷ ps) some h e =
    let (p', one, f) = patch_one-Follows arch text locs p some h.0 e in
    let (ps', rest, fs) = patch_each-Follow arch text locs ps some h.1 e in
    (p' ∷ ps', rw (one, rest), (f, fs))

>>=-ok :
    {A B : Type 0} (m : Outcome A) (f : A → Outcome B) {b : B}
    → (m >>= f) ≡ ok b
    → (a : A) × (m ≡ ok a) × (f a ≡ ok b)
>>=-ok (ok a) f h = (a, refl, h)
>>=-ok (err e) f h = cc
>>=-ok panic f h = cc

-- One relocation after the other, or one table after the other: PCData.
pcdata_step :
    (arch : Arch) (loc : Reloc) (locs : List Reloc) (ps ps' : List (List ℕ))
    → patch_each arch (loc ∷ locs) ps ≡ ok ps'
    → (mid : List (List ℕ)) × ((if ltb 0 loc.epilogue_offset
          then patch_pcdata arch ps loc
          else ok ps)
        ≡ ok mid)
      × (patch_each arch locs mid ≡ ok ps')
unfolding patch_each patch_one patch_pcdata
pcdata_step arch loc locs [] ps' h = elim (Bool-cases (ltb 0 loc.epilogue_offset)) [
  | inl e ↦ ([], rw e, h)
  | inr e ↦ ([], rw e, h)
]
pcdata_step arch loc locs (p ∷ ps) ps' h =
    let (p', both, h') =
      >>=-ok (patch_if arch loc p >>= patch_one arch locs)
        (λ q. patch_each arch (loc ∷ locs) ps >>= λ qs. ok (q ∷ qs)) h in
    let (m, now, later) = >>=-ok (patch_if arch loc p) (patch_one arch locs) both in
    let (qs, rest, done) = >>=-ok (patch_each arch (loc ∷ locs) ps) (λ qs. ok (p' ∷ qs)) h' in
    let (ms, nows, laters) = pcdata_step arch loc locs ps qs rest in
    (m ∷ ms, joined m ms now nows, rw (later, laters) done)
  where
    joined :
        (m : List ℕ) (ms : List (List ℕ))
        → patch_if arch loc p ≡ ok m
        → (if ltb 0 loc.epilogue_offset then patch_pcdata arch ps loc else ok ps) ≡ ok ms
        → (if ltb 0 loc.epilogue_offset then patch_pcdata arch (p ∷ ps) loc else ok (p ∷ ps))
          ≡ ok (m ∷ ms)
    joined m ms now nows = elim (Bool-cases (ltb 0 loc.epilogue_offset)) [
      | inl e ↦ rw (e, (rw e at now), (rw e at nows))
      | inr e ↦ rw e (cc (rw e at now, rw e at nows))
    ]

patch_each-stays : (arch : Arch) (ps : List (List ℕ)) → patch_each arch [] ps ≡ ok ps
unfolding patch_each patch_one
patch_each-stays arch [] = refl
patch_each-stays arch (p ∷ ps) = rw (patch_each-stays arch ps)

abbrev with_tables : FuncInfo → List ℕ → List ℕ → List ℕ → List (List ℕ) → FuncInfo
with_tables f a b c ds = record f { pcsp = a; pcfile = b; pcline = c; pcdata = ds }

ok_inj : {A : Type 0} {a b : A} → ok a ≡ ok b → a ≡ b
ok_inj h = cc

-- The tables one by one make up the whole.
module _ (arch : Arch) (f : FuncInfo) where
  patch_tables-ok :
      (locs : List Reloc) (a b c sp file line : List ℕ) (ds ps : List (List ℕ))
      → patch_one arch locs a ≡ ok sp
      → patch_one arch locs b ≡ ok file
      → patch_one arch locs c ≡ ok line
      → patch_each arch locs ds ≡ ok ps
      → patch_tables arch locs (with_tables f a b c ds) ≡ ok (with_tables f sp file line ps)
  unfolding patch_one patch_tables patch_func
  patch_tables-ok [] a b c sp file line ds ps ha hb hc hd =
      let d : ds ≡ ps = ok_inj (sym (patch_each-stays arch ds) ∙ hd) in
      let x : a ≡ sp = ok_inj ha in
      let y : b ≡ file = ok_inj hb in let z : c ≡ line = ok_inj hc in rw (x, y, z, d)
  patch_tables-ok (loc ∷ locs) a b c sp file line ds ps ha hb hc hd =
      let (a', now_a, then_a) = >>=-ok (patch_if arch loc a) (patch_one arch locs) ha in
      let (b', now_b, then_b) = >>=-ok (patch_if arch loc b) (patch_one arch locs) hb in
      let (c', now_c, then_c) = >>=-ok (patch_if arch loc c) (patch_one arch locs) hc in
      let (ds', now_d, then_d) = pcdata_step arch loc locs ds ps hd in
      rw (step a' b' c' ds' now_a now_b now_c now_d)
        (patch_tables-ok locs a' b' c' sp file line ds' ps then_a then_b then_c then_d)
    where
      step :
          (a' b' c' : List ℕ) (ds' : List (List ℕ))
          → patch_if arch loc a ≡ ok a'
          → patch_if arch loc b ≡ ok b'
          → patch_if arch loc c ≡ ok c'
          → (if ltb 0 loc.epilogue_offset then patch_pcdata arch ds loc else ok ds) ≡ ok ds'
          → (if ltb 0 loc.epilogue_offset
              then patch_func arch (with_tables f a b c ds) loc
              else ok (with_tables f a b c ds))
            ≡ ok (with_tables f a' b' c' ds')
      step a' b' c' ds' ha hb hc hd = elim (Bool-cases (ltb 0 loc.epilogue_offset)) [
        | inl e ↦ rw (e, (rw e at ha), (rw e at hb), (rw e at hc), (rw e at hd))
        | inr e ↦ rw e (cc (rw e at ha, rw e at hb, rw e at hc, rw e at hd))
      ]

-- A function whose tables cover its text, with relocations in the text whose epilogues follow it
-- one behind the other: patching succeeds, and in every table each pc of an epilogue has the value
-- at the epilogue's relocation, while the values in the text stay. Nothing else changes.
pub patch_tables-Follows :
    (arch : Arch) (text : ℕ) (locs : List Reloc) (f : FuncInfo)
    → 0 < text
    → IsTable (pc_quantum arch) text f.pcsp
    → IsTable (pc_quantum arch) text f.pcfile
    → IsTable (pc_quantum arch) text f.pcline
    → AllTables (pc_quantum arch) text f.pcdata
    → Epilogues (pc_quantum arch) text text locs
    → (sp : List ℕ) × (file : List ℕ) × (line : List ℕ) × (tables : List (List ℕ)) × (patch_tables
          arch locs f
        ≡ ok (record f { pcsp = sp; pcfile = file; pcline = line; pcdata = tables }))
      × Follows (pc_quantum arch) text locs f.pcsp sp
      × Follows (pc_quantum arch) text locs f.pcfile file
      × Follows (pc_quantum arch) text locs f.pcline line
      × AllFollow (pc_quantum arch) text locs f.pcdata tables
patch_tables-Follows arch text locs f some ha hb hc hd e =
    let (sp, one, a) = patch_one-Follows arch text locs f.pcsp some ha e in
    let (file, two, b) = patch_one-Follows arch text locs f.pcfile some hb e in
    let (line, three, c) = patch_one-Follows arch text locs f.pcline some hc e in
    let (tables, four, d) = patch_each-Follow arch text locs f.pcdata some hd e in
    (
      sp,
      file,
      line,
      tables,
      patch_tables-ok arch f locs f.pcsp f.pcfile f.pcline sp file line f.pcdata tables one two
          three four,
      a,
      b,
      c,
      d,
    )
