-- ===== src/Mmap/ProcMaps/RoundTrip.antt =====
-- `getCurrentProcMaps` reads the lines of /proc/self/maps.
use goloader.Shared.{
  ℕ, zero, suc, ◌≡◌, refl, ap, ◌∙◌, true, not, List, [], ◌∷◌, ◌++◌, some, map, arith, replicate,
}
use goloader.Shared.Hex.{parse_hex, digit_char}
use goloader.Shared.Outcome.{ok}
use goloader.Mmap.ProcMaps.{
  ProcMapping, is_space, is_newline, fields_from, split_from, parse_inode, parse_fields,
  parse_lines, number, get_current_proc_maps,
}
use goloader.Mmap.ProcMaps.Text.{
  none_of, none_of-append, fields_from-field, fields_from-last, fields_from-blanks,
  split_from-piece,
}
use goloader.Mmap.ProcMaps.Numbers.{hex, hex-NonEmpty, parse_hex-hex, none_of-hex}
use goloader.Mmap.ProcMaps.Lines.{
  Line, Word, Valid, perms_of, range_of, from_path, from_inode, from_dev, from_offset, from_perms,
  print_line, print_lines, mapping_of, AllValid,
}
use goloader.Mmap.ProcMaps.Parts.{flags, add_perms-perms_of, parse_range_lem}

abbrev path_fields : List ℕ → List (List ℕ)
path_fields [] = []
path_fields (c ∷ p) = (c ∷ p) ∷ []

fields_from-path :
    (k : ℕ) (p : List ℕ)
    → none_of is_space p ≡ true
    → fields_from [] (replicate k b' ' ++ p) ≡ path_fields p
unfolding fields_from
fields_from-path k [] h = fields_from-blanks k []
fields_from-path k (c ∷ p) h =
    fields_from-blanks k (c ∷ p) ∙ fields_from-last (c ∷ p) (c, p, refl) h

perms_of-Word : (l : Line) → Word (perms_of l)
perms_of-Word l = ((_, _, refl), ground arith)

hex-spaceless : (n : ℕ) → none_of is_space (hex n) ≡ true
unfolding digit_char
hex-spaceless n = none_of-hex is_space (λ d h. ground arith) n

range_of-Word : (l : Line) → Word (range_of l)
range_of-Word l =
    let (c, w, e) = hex-NonEmpty l.start_addr in
    (
      (c, w ++ (b'-' ∷ hex l.end_addr), ap (λ t. t ++ (b'-' ∷ hex l.end_addr)) e),
      none_of-append is_space (hex l.start_addr) (b'-' ∷ hex l.end_addr)
          (hex-spaceless l.start_addr) (hex-spaceless l.end_addr),
    )

fields_from-print_line :
    (l : Line)
    → Valid l
    → fields_from [] (print_line l)
      ≡ range_of l ∷ (perms_of l ∷ (hex l.offset ∷ (l.dev ∷ (l.inode_text ∷ path_fields l.path))))
fields_from-print_line l v =
    rw
      (
        fields_from-field (range_of l) _ (range_of-Word l).0 (range_of-Word l).1,
        fields_from-field (perms_of l) _ (perms_of-Word l).0 (perms_of-Word l).1,
        fields_from-field (hex l.offset) _ (hex-NonEmpty l.offset) (hex-spaceless l.offset),
        fields_from-field l.dev _ v.3.0 v.3.1,
        fields_from-field l.inode_text _ v.4.0 v.4.1,
        fields_from-path l.blanks l.path v.6,
      )
      refl

parse_inode_lem :
    (l : Line) (m : ProcMapping)
    → parse_hex l.inode_text ≡ some l.inode
    → m.path_name ≡ []
    → parse_inode (l.inode_text ∷ path_fields l.path) m
      ≡ ok (record m { inode = l.inode; path_name = l.path })
unfolding parse_inode
parse_inode_lem l m h e = by_path l.path
  where
    by_path :
        (p : List ℕ)
        → parse_inode (l.inode_text ∷ path_fields p) m
          ≡ ok (record m { inode = l.inode; path_name = p })
    by_path [] = rw (parse_inode, number, h, e) refl
    by_path (c ∷ p) = rw (parse_inode, number, h) refl

parse_fields-print_line :
    (l : Line) → Valid l → parse_fields (fields_from [] (print_line l)) ≡ ok (some (mapping_of l))
unfolding parse_fields
parse_fields-print_line l v =
    rw
      (
        fields_from-print_line l v,
        parse_fields,
        parse_range_lem l v,
        add_perms-perms_of l.start_addr l.end_addr l,
        number,
        parse_hex-hex l.offset v.2,
        parse_inode_lem l
            (record (flags l.start_addr l.end_addr l.read_perm l.write_perm l.execute_perm
              l.shared_perm (not l.shared_perm)) { offset = l.offset; dev = l.dev })
            v.5 refl,
      )
      refl

-- A word has no newline, and no blank is one.
one_line : (w : List ℕ) → none_of is_space w ≡ true → none_of is_newline w ≡ true
one_line [] h = refl
one_line (c ∷ w) h = ground (arith, h, one_line w (ground (arith, h)))

one_line-append :
    (w rest : List ℕ)
    → none_of is_space w ≡ true
    → none_of is_newline rest ≡ true
    → none_of is_newline (w ++ (b' ' ∷ rest)) ≡ true
one_line-append w rest h k = none_of-append is_newline w (b' ' ∷ rest) (one_line w h) k

blanks_one_line : (k : ℕ) → none_of is_newline (replicate k b' ') ≡ true
blanks_one_line zero = refl
blanks_one_line (suc k) = blanks_one_line k

print_line_one_line : (l : Line) → Valid l → none_of is_newline (print_line l) ≡ true
print_line_one_line l v = one_line-append (range_of l) (from_perms l) (range_of-Word l).1 (
    one_line-append (perms_of l) (from_offset l) (perms_of-Word l).1 (
      one_line-append (hex l.offset) (from_dev l) (hex-spaceless l.offset) (
        one_line-append l.dev (from_inode l) v.3.1 (
          one_line-append l.inode_text (from_path l) v.4.1 (
            none_of-append is_newline (replicate l.blanks b' ') l.path (blanks_one_line l.blanks)
              (one_line l.path v.6))))))

-- Where the addresses and offsets have 64 bits, the devices, inodes and paths have no white space,
-- devices and inodes are not empty, and each inode has the given value to base 16:
-- getCurrentProcMaps reads from lines in the format of proc(5) the mappings that they describe, in
-- their order, whatever number of blanks stands before the paths.
pub get_current_proc_maps-print_lines :
    (ls : List Line) → AllValid ls → get_current_proc_maps (print_lines ls) ≡ ok (map mapping_of ls)
unfolding parse_lines split_from fields_from parse_fields
get_current_proc_maps-print_lines [] v = refl
get_current_proc_maps-print_lines (l ∷ ls) (v, vs) =
    rw
      (
        split_from-piece b'\n' (print_line l) (print_lines ls) (print_line_one_line l v),
        parse_lines,
        parse_fields-print_line l v,
        get_current_proc_maps-print_lines ls vs,
      )
      refl
