-- ===== src/Examples/ProcMaps.antt =====
-- Two lines of /proc/self/maps: a file and a mapping without a path.
use goloader.Shared.{◌≡◌, refl, true, false, [], ◌∷◌, map, arith}
use goloader.Shared.Hex.{parse_hex, parse_digits, hex_digit}
use goloader.Shared.Outcome.{ok, panic, err, few_fields}
use goloader.Names.{codes}
use goloader.Mmap.ProcMaps.{
  get_current_proc_maps, parse_lines, parse_fields, parse_range, parse_inode, add_perms, add_perm,
  fields_from, split_from,
}
use goloader.Mmap.ProcMaps.Lines.{Line, Valid, print_lines, mapping_of}
use goloader.Mmap.ProcMaps.RoundTrip.{get_current_proc_maps-print_lines}

abbrev program : Line
program = record {
  start_addr = 4194304;
  end_addr = 4530176;
  read_perm = true;
  write_perm = false;
  execute_perm = true;
  shared_perm = false;
  offset = 0;
  dev = codes "08:02";
  inode_text = codes "173521";
  inode = 1520929;
  blanks = 20;
  path = codes "/usr/bin/dbus";
}

abbrev heap : Line
heap = record {
  start_addr = 35995648;
  end_addr = 36130816;
  read_perm = true;
  write_perm = true;
  execute_perm = false;
  shared_perm = false;
  offset = 0;
  dev = codes "00:00";
  inode_text = codes "0";
  inode = 0;
  blanks = 0;
  path = [];
}

program-Valid : Valid program
unfolding parse_hex parse_digits hex_digit
program-Valid =
    (omega arith, omega arith, omega arith, ((_, _, refl), refl), ((_, _, refl), refl), refl, refl)

heap-Valid : Valid heap
unfolding parse_hex parse_digits hex_digit
heap-Valid =
    (omega arith, omega arith, omega arith, ((_, _, refl), refl), ((_, _, refl), refl), refl, refl)

get_current_proc_maps-print_lines_example :
    get_current_proc_maps (print_lines (program ∷ (heap ∷ [])))
    ≡ ok (map mapping_of (program ∷ (heap ∷ [])))
get_current_proc_maps-print_lines_example =
    get_current_proc_maps-print_lines (program ∷ (heap ∷ [])) (program-Valid, (heap-Valid, tt))

-- A line of four fields passes the test of their number, and its inode is out of range.
four_fields : get_current_proc_maps (codes "0-1 r--p 0 08:02") ≡ panic
unfolding parse_lines split_from fields_from parse_fields parse_range parse_inode add_perms add_perm
    parse_hex parse_digits hex_digit
four_fields = refl

three_fields : get_current_proc_maps (codes "0-1 r--p 0") ≡ err few_fields
unfolding parse_lines split_from fields_from parse_fields
three_fields = refl
