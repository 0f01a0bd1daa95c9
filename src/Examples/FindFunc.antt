-- ===== src/Examples/FindFunc.antt =====
-- A text of 10,000 bytes with three functions.
use goloader.Shared.{ℕ, suc, ◌≤◌, ◌<◌, ◌≡◌, refl, List, [], ◌∷◌, some, length, arith}
use goloader.Shared.Outcome.{ok, panic}
use goloader.FindFunc.{
  Bucket, build_findfunctab, fill_buckets, fill_func, mark_loop, mark, mark_sub, find_index,
  ftab_entries,
}
use goloader.FindFunc.Refines.{func_start, build_findfunctab-finds}

abbrev others : List ℕ
others = 5000 ∷ (5100 ∷ [])

build_findfunctab-finds_example :
    (bs : List Bucket) × (build_findfunctab 10000 (0 ∷ others) ≡ ok bs)
    × ((j pc : ℕ)
        → j < length (0 ∷ others)
        → func_start 10000 (0 ∷ others) j ≤ pc
        → pc < func_start 10000 (0 ∷ others) (suc j)
        → find_index bs (ftab_entries 10000 (0 ∷ others)) pc ≡ some (suc j))
build_findfunctab-finds_example = build_findfunctab-finds 10000 0 others (omega arith)

-- Three buckets, the second of which starts inside the first function.
built :
    build_findfunctab 10000 (0 ∷ others)
    ≡ ok (
        record {
          idx = 0;
          subbuckets =
              0
              ∷ (0
                  ∷ (0
                      ∷ (0
                          ∷ (0
                              ∷ (0
                                  ∷ (0
                                      ∷ (0
                                          ∷ (0
                                              ∷ (0
                                                  ∷ (0 ∷ (0 ∷ (0 ∷ (0 ∷ (0 ∷ (0 ∷ [])))))))))))))));
        }
        ∷ (record {
          idx = 0;
          subbuckets =
              0
              ∷ (0
                  ∷ (0
                      ∷ (0
                          ∷ (2
                              ∷ (2
                                  ∷ (2
                                      ∷ (2
                                          ∷ (2
                                              ∷ (2
                                                  ∷ (2 ∷ (2 ∷ (2 ∷ (2 ∷ (2 ∷ (2 ∷ [])))))))))))))));
        }
            ∷ (record {
              idx = 2;
              subbuckets =
                  0
                  ∷ (0
                      ∷ (0
                          ∷ (0
                              ∷ (0
                                  ∷ (0
                                      ∷ (0
                                          ∷ (0
                                              ∷ (0
                                                  ∷ (0
                                                      ∷ (0
                                                          ∷ (0
                                                            ∷ (0 ∷ (0 ∷ (0 ∷ (0 ∷ [])))))))))))))));
            }
                ∷ [])))
unfolding build_findfunctab fill_buckets fill_func mark_loop mark mark_sub
built = refl

-- Without a function there is no first bucket.
no_functions : build_findfunctab 10000 [] ≡ panic
unfolding build_findfunctab
no_functions = refl
