-- ===== src/Examples/SymbolMap.antt =====
-- A function and a variable that the host has too.
use goloader.Shared.{ℕ, ◌≡◌, refl, true, false, [], ◌∷◌, none, some, if◌then◌else◌}
use goloader.Shared.Word.{add64}
use goloader.Shared.Outcome.{ok}
use goloader.Segment.{Segment, Sym, stext, sdata}
use goloader.Names.{lookup, contains}
use goloader.Reloc.Dispatch.{Env, resolve, has_prefix_in}
use goloader.SymbolMap.{Host, Maps, map_symbol}
use goloader.SymbolMap.Resolved.{first_name, resolve-map_symbol, resolve-map_known_data}

abbrev host : Host
host = record {
  sym_ptr = ("fmt.Println", 0x480000) ∷ ("os.Args", 0x570000) ∷ [];
  skip_packages = "main" ∷ [];
  reachable_symbols = "fmt.Println" ∷ ("os.Args" ∷ []);
  heap_strings = [];
  linker_address = 0xC000100000;
  variant = λ name. none;
}

abbrev env : Env
env = record {
  force_epilogues = false;
  skip_packages = "main" ∷ [];
  reachable_symbols = "fmt.Println" ∷ ("os.Args" ∷ []);
  tls_offset = 0;
  variant = λ name. none;
}

abbrev segment : Segment
segment = record {
  code_byte = [];
  data_byte = [];
  code_base = 0x10000;
  data_base = 0x20000;
  sum_data_len = 0;
  data_len = 0;
  noptrdata_len = 0;
  bss_len = 0;
  noptrbss_len = 0;
  code_len = 0;
  max_code_length = 0;
  max_data_length = 0;
  code_off = 0;
  data_off = 0;
}

abbrev println : Sym
println = record { name = "fmt.Println"; kind = stext; offset = 64; pkg = "fmt" }

abbrev args : Sym
args = record { name = "os.Args"; kind = sdata; offset = 32; pkg = "os" }

abbrev empty : Maps
empty = record { addresses = []; syms = [] }

println_reachable : contains "fmt.Println" host.reachable_symbols ≡ true
unfolding contains
println_reachable = refl

args_reachable : contains "os.Args" host.reachable_symbols ≡ true
unfolding contains
args_reachable = refl

none_yet : (name : _) → lookup (first_name name) empty.addresses ≡ none
unfolding lookup
none_yet name = refl

resolve-map_symbol_example :
    (m' : Maps) × (map_symbol host segment "fmt.Println" println empty ≡ ok m')
    × (lookup "fmt.Println" host.sym_ptr ≡ none
        → resolve env m'.addresses println ≡ add64 64 0x10000)
    × ((p : ℕ)
        → lookup "fmt.Println" host.sym_ptr ≡ some p
        → resolve env m'.addresses println
          ≡ (if contains "fmt" env.skip_packages then add64 64 0x10000 else p))
resolve-map_symbol_example =
    resolve-map_symbol host segment println empty env println_reachable refl refl refl
      (none_yet "fmt.Println") refl

args_known : lookup "os.Args" host.sym_ptr ≡ some 0x570000
unfolding lookup
args_known = refl

args_prefix : has_prefix_in "os.Args" host.skip_packages ≡ false
unfolding has_prefix_in
args_prefix = refl

args_kept : contains "os" env.skip_packages ≡ false
unfolding contains
args_kept = refl

resolve-map_known_data_example :
    (m' : Maps) × (map_symbol host segment "os.Args" args empty ≡ ok m')
    × (resolve env m'.addresses args ≡ 0x570000)
resolve-map_known_data_example =
    resolve-map_known_data host segment args empty env args_reachable refl refl refl
      (none_yet "os.Args") 0x570000 refl refl args_known args_prefix args_kept
