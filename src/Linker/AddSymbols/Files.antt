-- ===== src/Linker/AddSymbols/Files.antt =====
-- The table of files: each entry of `cutab` leads to the name of its file.
use mathlib.Core.List.{append_assoc, append-nil}
use goloader.Shared.{
  ℕ, ◌^◌, ◌<◌, ◌≡◌, refl, ap, ◌∙◌, sym, subst, inl, inr, List, [], ◌∷◌, ◌++◌, map, some, String,
  length, drop, arith, Option-cases, drop-append_left,
}
use goloader.Shared.Word.{u32}
use goloader.Shared.Prefix.{Prefix, Prefix-refl, Prefix-append, Prefix-trans}
use goloader.Names.{lookup, codes}
use goloader.Names.Maps.{lookup-insert_cases}
use goloader.Functions.{c_string}
use goloader.Functions.NameTab.{Holds, NoZero, Holds-append, Holds-lt, c_string-codes}
use goloader.Linker.AddSymbols.{FileTable, file_text, add_file, add_files, add_units}

-- The files of all units, in order.
abbrev pub all_files : List (List String) → List String
all_files [] = []
all_files (files ∷ units) = files ++ all_files units

module _ (rooted : String → String) where
  -- What the map says of a file is where its name stands.
  abbrev pub IsFiled : FileTable → Type 0
  IsFiled t =
      (name : String) (o : ℕ)
      → lookup name t.offsets ≡ some o
      → Holds t.bytes o (file_text rooted name)

  -- The names stand at the offsets, one for one.
  abbrev AllHold : List ℕ → List ℕ → List String → Type 0
  AllHold b [] [] = Unit
  AllHold b (o ∷ offs) (name ∷ names) = Holds b o (file_text rooted name) × AllHold b offs names
  AllHold b _ _ = ⊥

  AllHold-Prefix :
      (b b' offs : List ℕ) (names : List String)
      → Prefix b b'
      → AllHold b offs names
      → AllHold b' offs names
  AllHold-Prefix b b' [] [] p h = tt
  AllHold-Prefix b b' (o ∷ offs) (name ∷ names) (more, e) (first, others) = (
    subst (λ t. Holds t o (file_text rooted name)) (sym e)
        (Holds-append b more o (file_text rooted name) first),
    AllHold-Prefix b b' offs names (more, e) others,
  )
  AllHold-Prefix b b' [] (name ∷ names) p h = elim h [ ]
  AllHold-Prefix b b' (o ∷ offs) [] p h = elim h [ ]

  AllHold-append :
      (b offs offs' : List ℕ) (names names' : List String)
      → AllHold b offs names
      → AllHold b offs' names'
      → AllHold b (offs ++ offs') (names ++ names')
  AllHold-append b [] offs' [] names' h k = k
  AllHold-append b (o ∷ offs) offs' (name ∷ names) names' (first, others) k =
      (first, AllHold-append b offs offs' names names' others k)
  AllHold-append b [] offs' (name ∷ names) names' h k = elim h [ ]
  AllHold-append b (o ∷ offs) offs' [] names' h k = elim h [ ]

  -- What adding some names does to the table.
  abbrev Files : List String → FileTable → FileTable → Type 0
  Files names t t' =
      (offs : List ℕ) × (t'.cutab ≡ t.cutab ++ map u32 offs)
      × AllHold t'.bytes offs names
      × IsFiled t'
      × Prefix t.bytes t'.bytes

  Files-trans :
      (names names' : List String) (t u v : FileTable)
      → Files names t u
      → Files names' u v
      → Files (names ++ names') t v
  Files-trans names names' t u v (offs, e, h, f, p) (offs', e', h', f', p') = (
    offs ++ offs',
    e'
        ∙ ap (λ x. x ++ map u32 offs') e
        ∙ append_assoc t.cutab (map u32 offs) (map u32 offs')
        ∙ ap (λ x. t.cutab ++ x) (sym (joined offs offs')),
    AllHold-append v.bytes offs offs' names names' (AllHold-Prefix u.bytes v.bytes offs names p' h)
        h',
    f',
    Prefix-trans t.bytes u.bytes v.bytes p p',
  )
    where
      joined : (xs ys : List ℕ) → map u32 (xs ++ ys) ≡ map u32 xs ++ map u32 ys
      joined [] ys = refl
      joined (x ∷ xs) ys = ap (◌∷◌ (u32 x)) (joined xs ys)

  Files-refl : (t : FileTable) → IsFiled t → Files [] t t
  Files-refl t f = ([], sym (append-nil t.cutab), tt, f, Prefix-refl t.bytes)

  add_file-Files :
      (name : String) (t : FileTable) → IsFiled t → Files (name ∷ []) t (add_file rooted name t)
  unfolding add_file
  add_file-Files name t f = elim (Option-cases (lookup name t.offsets)) [
    | inr (o, e) ↦ rw (add_file, e) (o ∷ [], refl, (f name o e, tt), f, Prefix-refl t.bytes)
    | inl e ↦
        rw (add_file, e)
          (
            length t.bytes ∷ [],
            refl,
            (here, tt),
            λ k o q. elim (lookup-insert_cases k name (length t.bytes) o t.offsets q) [
              | inr old ↦ Holds-append t.bytes _ o (file_text rooted k) (f k o old)
              | inl (same, at) ↦
                  subst (λ (n : String). Holds bytes' o (file_text rooted n)) same
                    (subst (λ n. Holds bytes' n (file_text rooted name)) at here)
            ],
            Prefix-append t.bytes _,
          )
  ]
    where
      bytes' : List ℕ
      bytes' = t.bytes ++ (codes (file_text rooted name) ++ 0 ∷ [])

      here : Holds bytes' (length t.bytes) (file_text rooted name)
      here = ([], drop-append_left t.bytes (codes (file_text rooted name) ++ 0 ∷ []))

  add_files-Files :
      (names : List String) (t : FileTable) → IsFiled t → Files names t (add_files rooted names t)
  unfolding add_files
  add_files-Files [] t f = Files-refl t f
  add_files-Files (name ∷ names) t f =
      let first = add_file-Files name t f in
      Files-trans (name ∷ []) names t (add_file rooted name t) _ first
        (add_files-Files names (add_file rooted name t) first.3)

  add_units-Files :
      (units : List (List String)) (t : FileTable)
      → IsFiled t
      → Files (all_files units) t (add_units rooted units t)
  unfolding add_units
  add_units-Files [] t f = Files-refl t f
  add_units-Files (files ∷ units) t f =
      let first = add_files-Files files t f in
      Files-trans files (all_files units) t (add_files rooted files t) _ first
        (add_units-Files units (add_files rooted files t) first.3)

  -- The names that can be read back, and the reading of them.
  abbrev pub NoZeros : List String → Type 0
  NoZeros [] = Unit
  NoZeros (name ∷ names) = NoZero (codes (file_text rooted name)) × NoZeros names

  abbrev pub AllRead : List ℕ → List ℕ → List String → Type 0
  AllRead b [] [] = Unit
  AllRead b (o ∷ offs) (name ∷ names) =
      (c_string (drop o b) ≡ codes (file_text rooted name)) × AllRead b offs names
  AllRead b _ _ = ⊥

  AllHold-AllRead :
      (b offs : List ℕ) (names : List String)
      → length b < 2 ^ 32
      → NoZeros names
      → AllHold b offs names
      → AllRead b (map u32 offs) names
  AllHold-AllRead b [] [] l z h = tt
  AllHold-AllRead b (o ∷ offs) (name ∷ names) l (z, zs) (first, others) =
      let inside = Holds-lt b o (file_text rooted name) first in
      let whole : u32 o ≡ o = omega arith in
      (
        ap (λ t. c_string (drop t b)) whole
            ∙ ap c_string first.1
            ∙ c_string-codes (codes (file_text rooted name)) first.0 z,
        AllHold-AllRead b offs names l zs others,
      )
  AllHold-AllRead b [] (name ∷ names) l z h = elim h [ ]
  AllHold-AllRead b (o ∷ offs) [] l z h = elim h [ ]

  -- From a table whose map is right, such as the empty one, the files of all compilation units get
  -- one entry each, in order, behind those that are there; and where no name has a zero byte and
  -- the table stays below 4 GB, each entry leads to the name of its file, without the symbol's
  -- prefix and with the Go root of the running program.
  pub add_units-AllRead :
      (units : List (List String)) (t : FileTable)
      → IsFiled t
      → NoZeros (all_files units)
      → length (add_units rooted units t).bytes < 2 ^ 32
      → (offs : List ℕ) × ((add_units rooted units t).cutab ≡ t.cutab ++ offs)
        × AllRead (add_units rooted units t).bytes offs (all_files units)
  add_units-AllRead units t f z l =
      let (offs, e, h, _, _) = add_units-Files units t f in
      (
        map u32 offs,
        e,
        AllHold-AllRead (add_units rooted units t).bytes offs (all_files units) l z h,
      )
