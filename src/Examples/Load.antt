-- ===== src/Examples/Load.antt =====
-- A small module that is loaded and unloaded.
use goloader.Shared.{
  ℕ, ◌+◌, ◌≡◌, ◌⊎◌, refl, Bool, true, false, [], ◌∷◌, Option, none, some, replicate, arith,
  if◌then◌else◌,
}
use goloader.Shared.Outcome.{ok, err, other_failure, map_failed, ◌>>=◌}
use goloader.Shared.Bytes.{slice, copy_from}
use goloader.Segment.{Segment}
use goloader.Load.{
  Sections, segment_of, fill_segment, World, System, Stages, prepare, load_module, unload_module,
  Itab, ItabTable, remove_itabs,
}
use goloader.Load.Layout.{fill_segment-slice}
use goloader.Load.Rollback.{
  NoCode, NoData, Unprepared, Unfinished, load_module-err, unload_module-load_module,
}
use goloader.Load.Itabs.{Cleaned, occupied, remove_itabs-Cleaned}

abbrev sections : Sections
sections = record {
  code = 0x90 ∷ (0xC3 ∷ []);
  data_bytes = 1 ∷ (2 ∷ []);
  noptrdata = 3 ∷ [];
  bss = [];
  noptrbss = 0 ∷ (0 ∷ []);
}

fill_segment-slice_example :
    (s : Segment) × (fill_segment sections 0x10000 (replicate 4 0) 0x20000 (replicate 8 0) ≡ ok s)
    × (slice s.code_byte 0 s.code_len ≡ 0x90 ∷ (0xC3 ∷ []))
    × (slice s.data_byte 0 s.data_len ≡ 1 ∷ (2 ∷ []))
    × (slice s.data_byte s.data_len s.noptrdata_len ≡ 3 ∷ [])
    × (slice s.data_byte (s.data_len + s.noptrdata_len) s.bss_len ≡ [])
    × (slice s.data_byte (s.data_len + s.noptrdata_len + s.bss_len) s.noptrbss_len ≡ 0 ∷ (0 ∷ []))
    × (s.data_off ≡ s.sum_data_len)
fill_segment-slice_example =
    fill_segment-slice sections 0x10000 (replicate 4 0) 0x20000 (replicate 8 0) (omega arith)
      (omega arith)

abbrev host : System
host = record {
  code_map = some (0x10000, replicate 4 0);
  data_map = some (0x20000, replicate 8 0);
  unmaps = λ base. true;
}

-- Stages that leave the segment as it is; the initialisers fail if `fails`.
abbrev plain : Bool → Stages
plain fails = record {
  add_symbol_map = λ s. ok s;
  relocate = λ s. ok s;
  build_module = λ s. ok s;
  deduplicate = λ s. ok s;
  do_initialize = λ s. if fails then err other_failure else ok s;
}

abbrev world : World
world = record { mapped = 0x5000 ∷ []; modules = 1 ∷ [] }

initialiser_fails : (load_module host (plain true) 2 sections world).0 ≡ err other_failure
unfolding load_module fill_segment copy_from
initialiser_fails = refl

load_module-err_example :
    NoCode host world (load_module host (plain true) 2 sections world).1
    ⊎ (NoData host world (load_module host (plain true) 2 sections world).1
        ⊎ (Unprepared host
              (plain true)
              sections
              other_failure
              world
              (load_module host (plain true) 2 sections world).1
            ⊎ Unfinished host
                (plain true)
                2
                sections
                other_failure
                world
                (load_module host (plain true) 2 sections world).1))
load_module-err_example =
    load_module-err host (plain true) 2 sections world (λ base. refl) other_failure
      initialiser_fails

-- Without a mapping for the data, the mapping of the code is not given back.
data_map_fails :
    load_module (record host { data_map = none }) (plain false) 2 sections world
    ≡ (err map_failed, record { mapped = 0x10000 ∷ (0x5000 ∷ []); modules = 1 ∷ [] })
unfolding load_module
data_map_fails = refl

abbrev segment : Segment
segment =
    segment_of sections 0x10000 (0x90 ∷ (0xC3 ∷ (0 ∷ (0 ∷ [])))) 0x20000
      (1 ∷ (2 ∷ (3 ∷ (0 ∷ (0 ∷ (0 ∷ (0 ∷ (0 ∷ [])))))))) 5

segment_ready :
    (fill_segment sections 0x10000 (replicate 4 0) 0x20000 (replicate 8 0)
      >>= prepare (plain false))
    ≡ ok segment
unfolding fill_segment copy_from
segment_ready = refl

unload_module-load_module_example :
    ((load_module host (plain false) 2 sections world).0 ≡ ok segment)
    × (unload_module host 2 segment (ok 0) (load_module host (plain false) 2 sections world).1
        ≡ (ok 0, world))
unload_module-load_module_example =
    unload_module-load_module host (plain false) 2 sections world 0x10000 (replicate 4 0) 0x20000
      (replicate 8 0) refl refl refl refl segment segment 0 segment_ready refl refl refl
      (omega arith, tt)

abbrev itab_at : ℕ → Option Itab
itab_at a = some (record { address = a; inter = 0x9000; type_address = 0x8000 })

abbrev table : ItabTable
table = record { entries = itab_at 0x20008 ∷ (none ∷ (itab_at 0x7000 ∷ [])); count = 2 }

remove_itabs-Cleaned_example :
    Cleaned 0x20000 0x20100 table.entries (remove_itabs 0x20000 0x20100 table).entries
    × ((remove_itabs 0x20000 0x20100 table).count
        ≡ occupied (remove_itabs 0x20000 0x20100 table).entries)
remove_itabs-Cleaned_example = remove_itabs-Cleaned 0x20000 0x20100 table refl
