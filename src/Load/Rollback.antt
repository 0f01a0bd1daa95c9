-- ===== src/Load/Rollback.antt =====
-- What `Load` leaves behind when it fails, and what `Unload` takes back.
use goloader.Shared.{
  none, sym, Option-cases, ◌⊎◌, inl, inr, ◌∙◌, ℕ, ◌≡◌, ◌≢◌, ap, refl, true, List, [], ◌∷◌, ◌++◌,
  some, arith, eq→==, ne→==,
}
use goloader.Shared.Outcome.{Error, Outcome, ok, err, panic, ◌>>=◌}
use goloader.Segment.{Segment}
use goloader.Load.{
  Sections, World, System, Stages, fill_segment, prepare, finish, finish_load, remove_first,
  add_module, remove_module, load_module, unload_module,
}

abbrev pub NotIn : ℕ → List ℕ → Type 0
NotIn x [] = Unit
NotIn x (y ∷ ys) = (y ≢ x) × NotIn x ys

remove_first-append : (x : ℕ) (ys : List ℕ) → NotIn x ys → remove_first x (ys ++ x ∷ []) ≡ ys
unfolding remove_first
remove_first-append x [] h = rw (eq→== x x refl)
remove_first-append x (y ∷ ys) h = rw (ne→== y x h.0) (ap (◌∷◌ y) (remove_first-append x ys h.1))

-- Giving back the two mappings in the order in which Load does it.
remove_both : (a b : ℕ) (ms : List ℕ) → remove_first b (remove_first a (b ∷ (a ∷ ms))) ≡ ms
unfolding remove_first
remove_both a b ms = ground (arith, eq→== a a, eq→== b b)

module _ (sys : System) (stages : Stages) (cm : ℕ) (x : Sections) (w : World) (code_base : ℕ)
    (code_mem : List ℕ) (data_base : ℕ) (data_mem : List ℕ)
    (gives_code : sys.code_map ≡ some (code_base, code_mem))
    (gives_data : sys.data_map ≡ some (data_base, data_mem))
    (unmaps_code : sys.unmaps code_base ≡ true) (unmaps_data : sys.unmaps data_base ≡ true) where
  abbrev prepared : Outcome Segment
  prepared = fill_segment x code_base code_mem data_base data_mem >>= prepare stages

  unprepared : (e : _) → prepared ≡ err e → load_module sys stages cm x w ≡ (err e, w)
  unfolding load_module
  unprepared e p =
      rw (gives_code, load_module, gives_data, p, unmaps_code, unmaps_data)
        (ap (λ m. (err e, record w { mapped = m })) (remove_both code_base data_base w.mapped))

  unfinished :
      (s : Segment) (e : _)
      → prepared ≡ ok s
      → finish stages s ≡ err e
      → load_module sys stages cm x w ≡ (err e, add_module cm w)
  unfolding load_module add_module
  unfinished s e p f =
      rw (gives_code, load_module, gives_data, p, finish_load, f, unmaps_code, unmaps_data)
        (ap (λ m. (err e, record w { mapped = m; modules = w.modules ++ cm ∷ [] }))
          (remove_both code_base data_base w.mapped))

  finished :
      (s t : Segment)
      → prepared ≡ ok s
      → finish stages s ≡ ok t
      → (load_module sys stages cm x w).0 ≡ ok t
  unfolding load_module
  finished s t p f = rw (gives_code, load_module, gives_data, p, finish_load, f)

  panics_early : prepared ≡ panic → (load_module sys stages cm x w).0 ≡ panic
  unfolding load_module
  panics_early p = rw (gives_code, load_module, gives_data, p)

  panics_late :
      (s : Segment)
      → prepared ≡ ok s
      → finish stages s ≡ panic
      → (load_module sys stages cm x w).0 ≡ panic
  unfolding load_module
  panics_late s p f = rw (gives_code, load_module, gives_data, p, finish_load, f)

  -- Where the system takes back both mappings: unloading a module that was loaded leaves the
  -- mappings and the modules as they were before.
  pub unload_module-load_module :
      (s t : Segment) (n : ℕ)
      → prepared ≡ ok s
      → finish stages s ≡ ok t
      → t.code_base ≡ code_base
      → t.data_base ≡ data_base
      → NotIn cm w.modules
      → ((load_module sys stages cm x w).0 ≡ ok t)
        × (unload_module sys cm t (ok n) (load_module sys stages cm x w).1 ≡ (ok n, w))
  unfolding load_module unload_module add_module remove_module
  unload_module-load_module s t n p f at_code at_data fresh = (
    rw (gives_code, load_module, gives_data, p, finish_load, f),
    rw
        (
          gives_code,
          load_module,
          gives_data,
          p,
          finish_load,
          f,
          at_code,
          at_data,
          unmaps_code,
          unmaps_data,
          remove_first-append cm w.modules fresh,
        )
        (ap (λ m. (ok n, record w { mapped = m })) (remove_both code_base data_base w.mapped)),
  )

-- The stage in which Load failed, and what it leaves: the mappings and the modules that there were;
-- these with the mapping of the code; or these with the module, whose mappings are gone.
abbrev pub NoCode : System → World → World → Type 0
NoCode sys w w' = (sys.code_map ≡ none) × (w' ≡ w)

abbrev pub NoData : System → World → World → Type 0
NoData sys w w' =
    (code_base : ℕ) × (code_mem : List ℕ) × (sys.code_map ≡ some (code_base, code_mem))
    × (sys.data_map ≡ none)
    × (w' ≡ record w { mapped = code_base ∷ w.mapped })

abbrev pub Unprepared : System → Stages → Sections → Error → World → World → Type 0
Unprepared sys stages x e w w' =
    (code_base : ℕ) × (code_mem : List ℕ) × (data_base : ℕ) × (data_mem : List ℕ) × (sys.code_map
      ≡ some (code_base, code_mem))
    × (sys.data_map ≡ some (data_base, data_mem))
    × ((fill_segment x code_base code_mem data_base data_mem >>= prepare stages) ≡ err e)
    × (w' ≡ w)

abbrev pub Unfinished : System → Stages → ℕ → Sections → Error → World → World → Type 0
Unfinished sys stages cm x e w w' =
    (code_base : ℕ) × (code_mem : List ℕ) × (data_base : ℕ) × (data_mem : List ℕ) × (s : Segment)
    × (sys.code_map ≡ some (code_base, code_mem))
    × (sys.data_map ≡ some (data_base, data_mem))
    × ((fill_segment x code_base code_mem data_base data_mem >>= prepare stages) ≡ ok s)
    × (finish stages s ≡ err e)
    × (w' ≡ add_module cm w)

Outcome-cases :
    {A : Type 0} (o : Outcome A)
    → ((a : A) × (o ≡ ok a)) ⊎ (((e : Error) × (o ≡ err e)) ⊎ (o ≡ panic))
Outcome-cases (ok a) = inl (a, refl)
Outcome-cases (err e) = inr (inl (e, refl))
Outcome-cases panic = inr (inr refl)

module _ (sys : System) (stages : Stages) (cm : ℕ) (x : Sections) (w : World)
    (unmaps : (base : ℕ) → sys.unmaps base ≡ true) (e : Error)
    (fails : (load_module sys stages cm x w).0 ≡ err e) where
  abbrev left : World
  left = (load_module sys stages cm x w).1

  mapped_err :
      (code_base : ℕ) (code_mem : List ℕ) (data_base : ℕ) (data_mem : List ℕ)
      → sys.code_map ≡ some (code_base, code_mem)
      → sys.data_map ≡ some (data_base, data_mem)
      → Unprepared sys stages x e w left ⊎ Unfinished sys stages cm x e w left
  mapped_err cb mem db dm gc gd =
      let yes_c = unmaps cb in
      let yes_d = unmaps db in
      elim (Outcome-cases (fill_segment x cb mem db dm >>= prepare stages)) [
        | inl (s, p) ↦ elim (Outcome-cases (finish stages s)) [
          | inl (t, f) ↦
              absurd
                (let run = finished sys stages cm x w cb mem db dm gc gd yes_c yes_d s t p f in cc)
          | inr (inl (e', f)) ↦
              let run = unfinished sys stages cm x w cb mem db dm gc gd yes_c yes_d s e' p f in
              inr (
                cb,
                mem,
                db,
                dm,
                s,
                gc,
                gd,
                p,
                f ∙ sym (ap (λ r. r.0) run) ∙ fails,
                ap (λ r. r.1) run,
              )
          | inr (inr f) ↦
              absurd
                (let run = panics_late sys stages cm x w cb mem db dm gc gd yes_c yes_d s p f in cc)
        ]
        | inr (inl (e', p)) ↦
            let run = unprepared sys stages cm x w cb mem db dm gc gd yes_c yes_d e' p in
            inl (cb, mem, db, dm, gc, gd, p ∙ sym (ap (λ r. r.0) run) ∙ fails, ap (λ r. r.1) run)
        | inr (inr p) ↦
            absurd (let run = panics_early sys stages cm x w cb mem db dm gc gd yes_c yes_d p in cc)
      ]

  -- Where the system takes back every mapping, an error of Load comes from one of four places.
  -- Without a mapping for the code nothing has changed. Without one for the data the mapping of the
  -- code stays. An error in the stages before the module is registered leaves the mappings and the
  -- modules as they were. An error after that, in the deduplication of types or in an initialiser,
  -- leaves the module registered, although its mappings are gone.
  pub load_module-err :
      NoCode sys w left
      ⊎ (NoData sys w left
          ⊎ (Unprepared sys stages x e w left ⊎ Unfinished sys stages cm x e w left))
  unfolding load_module
  load_module-err = elim (Option-cases sys.code_map) [
    | inl c ↦ inl (c, rw (c, load_module) refl)
    | inr ((code_base, code_mem), c) ↦ inr (elim (Option-cases sys.data_map) [
      | inl d ↦ inl (code_base, code_mem, c, d, rw (load_module, c, d) refl)
      | inr ((data_base, data_mem), d) ↦ inr (mapped_err code_base code_mem data_base data_mem c d)
    ])
  ]
