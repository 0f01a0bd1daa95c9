-- ===== src/Mmap/ProcMaps.antt =====
-- mmap/manager_unix.go: the reader of /proc/self/maps. A text is a list of bytes; `fields` is
-- strings.Fields of ASCII text.
pub mod Text
pub mod Numbers
pub mod Lines
pub mod Parts
pub mod RoundTrip
use goloader.Shared.{
  ℕ, Bool, true, false, ◌||◌, ◌&&◌, List, [], ◌∷◌, ◌++◌, Option, none, some, leb, ◌==◌,
  if◌then◌else◌,
}
use goloader.Shared.Hex.{parse_hex}
use goloader.Shared.Outcome.{
  Outcome, ok, err, panic, few_fields, bad_address_range, bad_number, unexpected_permission, ◌>>=◌,
}

-- mapping.Mapping
pub record ProcMapping : Type 0 where
  pub start_addr : ℕ
  pub end_addr : ℕ
  pub read_perm : Bool
  pub write_perm : Bool
  pub execute_perm : Bool
  pub shared_perm : Bool
  pub private_perm : Bool
  pub offset : ℕ
  pub dev : List ℕ
  pub inode : ℕ
  pub path_name : List ℕ

abbrev pub is_newline : ℕ → Bool
is_newline c = c == b'\n'

-- A blank, or one of the five characters from tab to carriage return.
abbrev pub is_space : ℕ → Bool
is_space c = c == b' ' || (leb 9 c && leb c 13)

abbrev pub emit : List ℕ → List (List ℕ) → List (List ℕ)
emit [] fs = fs
emit (c ∷ cs) fs = (c ∷ cs) ∷ fs

-- strings.Fields, behind the part `current` of a field.
unfoldable pub fields_from : List ℕ → List ℕ → List (List ℕ)
fields_from current [] = emit current []
fields_from current (c ∷ cs) =
    let skip = fields_from [] cs in
    let grow = fields_from (current ++ (c ∷ [])) cs in
    if is_space c then emit current skip else grow

-- bytes.Split and strings.Split at one character, behind the part `current` of a piece.
unfoldable pub split_from : ℕ → List ℕ → List ℕ → List (List ℕ)
split_from sep current [] = current ∷ []
split_from sep current (c ∷ cs) =
    let next = split_from sep [] cs in
    let grow = split_from sep (current ++ (c ∷ [])) cs in if c == sep then current ∷ next else grow

abbrev pub number : List ℕ → Outcome ℕ
number s = elim (parse_hex s) [ none ↦ err bad_number | some n ↦ ok n ]

-- The switch over a character of the permissions.
unfoldable pub add_perm : ℕ → ProcMapping → Outcome ProcMapping
add_perm c m =
    if c == b'r'
    then ok (record m { read_perm = true })
    else if c == b'w'
    then ok (record m { write_perm = true })
    else if c == b'x'
    then ok (record m { execute_perm = true })
    else if c == b's'
    then ok (record m { shared_perm = true })
    else if c == b'p'
    then ok (record m { private_perm = true })
    else if c == b'-'
    then ok m
    else err unexpected_permission

unfoldable pub add_perms : List ℕ → ProcMapping → Outcome ProcMapping
add_perms [] m = ok m
add_perms (c ∷ cs) m = add_perm c m >>= add_perms cs

-- `var mapping mapping.Mapping`
abbrev pub new_mapping : ProcMapping
new_mapping = record {
  start_addr = 0;
  end_addr = 0;
  read_perm = false;
  write_perm = false;
  execute_perm = false;
  shared_perm = false;
  private_perm = false;
  offset = 0;
  dev = [];
  inode = 0;
  path_name = [];
}

unfoldable pub parse_range : List (List ℕ) → ProcMapping → Outcome ProcMapping
parse_range (s ∷ (e ∷ [])) m =
    number s >>= λ start. number e >>= λ end. ok (record m { start_addr = start; end_addr = end })
parse_range _ m = err bad_address_range

-- `mmapFields[4]`, and the path behind it.
unfoldable pub parse_inode : List (List ℕ) → ProcMapping → Outcome ProcMapping
parse_inode [] m = panic
parse_inode (i ∷ []) m = number i >>= λ n. ok (record m { inode = n })
parse_inode (i ∷ (p ∷ _)) m = number i >>= λ n. ok (record m { inode = n; path_name = p })

-- The body of the loop, on the fields of a line; `none` for a line without fields.
unfoldable pub parse_fields : List (List ℕ) → Outcome (Option ProcMapping)
parse_fields [] = ok none
parse_fields (a ∷ (p ∷ (o ∷ (d ∷ rest)))) = parse_range (split_from b'-' [] a) new_mapping >>= λ m.
    add_perms p m >>= λ m'. number o >>= λ offset.
    parse_inode rest (record m' { offset = offset; dev = d }) >>= λ m''. ok (some m'')
parse_fields _ = err few_fields

unfoldable pub parse_lines : List (List ℕ) → Outcome (List ProcMapping)
parse_lines [] = ok []
parse_lines (l ∷ ls) = parse_fields (fields_from [] l) >>= λ o.
    parse_lines ls >>= λ ms. ok (elim o [ none ↦ ms | some m ↦ m ∷ ms ])

-- getCurrentProcMaps, from the bytes of the file
abbrev pub get_current_proc_maps : List ℕ → Outcome (List ProcMapping)
get_current_proc_maps maps_data = parse_lines (split_from b'\n' [] maps_data)
