-- ===== src/Mmap/ProcMaps/Lines.antt =====
-- Lines of /proc/self/maps as proc(5) describes them.
use goloader.Shared.{
  ℕ, ◌^◌, ◌<◌, ◌≡◌, Bool, true, not, List, [], ◌∷◌, ◌++◌, some, if◌then◌else◌, replicate,
}
use goloader.Shared.Hex.{parse_hex}
use goloader.Mmap.ProcMaps.{ProcMapping, is_space}
use goloader.Mmap.ProcMaps.Text.{none_of, NonEmpty}
use goloader.Mmap.ProcMaps.Numbers.{hex}

-- `inode_text` is the inode as the line has it, and `inode` its value to base 16; `blanks` stand
-- between it and the path.
pub record Line : Type 0 where
  pub start_addr : ℕ
  pub end_addr : ℕ
  pub read_perm : Bool
  pub write_perm : Bool
  pub execute_perm : Bool
  pub shared_perm : Bool
  pub offset : ℕ
  pub dev : List ℕ
  pub inode_text : List ℕ
  pub inode : ℕ
  pub blanks : ℕ
  pub path : List ℕ

abbrev pub Word : List ℕ → Type 0
Word w = NonEmpty w × (none_of is_space w ≡ true)

abbrev pub Valid : Line → Type 0
Valid l =
    (l.start_addr < 2 ^ 64)
    × (l.end_addr < 2 ^ 64)
    × (l.offset < 2 ^ 64)
    × Word l.dev
    × Word l.inode_text
    × (parse_hex l.inode_text ≡ some l.inode)
    × (none_of is_space l.path ≡ true)

abbrev pub perm_char : Bool → ℕ → ℕ → ℕ
perm_char b c d = if b then c else d

abbrev pub perms_of : Line → List ℕ
perms_of l =
    perm_char l.read_perm b'r' b'-'
    ∷ (perm_char l.write_perm b'w' b'-'
        ∷ (perm_char l.execute_perm b'x' b'-' ∷ (perm_char l.shared_perm b's' b'p' ∷ [])))

abbrev pub range_of : Line → List ℕ
range_of l = hex l.start_addr ++ (b'-' ∷ hex l.end_addr)

-- The line from a field on.
abbrev pub from_path : Line → List ℕ
from_path l = replicate l.blanks b' ' ++ l.path

abbrev pub from_inode : Line → List ℕ
from_inode l = l.inode_text ++ (b' ' ∷ from_path l)

abbrev pub from_dev : Line → List ℕ
from_dev l = l.dev ++ (b' ' ∷ from_inode l)

abbrev pub from_offset : Line → List ℕ
from_offset l = hex l.offset ++ (b' ' ∷ from_dev l)

abbrev pub from_perms : Line → List ℕ
from_perms l = perms_of l ++ (b' ' ∷ from_offset l)

abbrev pub print_line : Line → List ℕ
print_line l = range_of l ++ (b' ' ∷ from_perms l)

abbrev pub print_lines : List Line → List ℕ
print_lines [] = []
print_lines (l ∷ ls) = print_line l ++ (b'\n' ∷ print_lines ls)

abbrev pub mapping_of : Line → ProcMapping
mapping_of l = record {
  start_addr = l.start_addr;
  end_addr = l.end_addr;
  read_perm = l.read_perm;
  write_perm = l.write_perm;
  execute_perm = l.execute_perm;
  shared_perm = l.shared_perm;
  private_perm = not l.shared_perm;
  offset = l.offset;
  dev = l.dev;
  inode = l.inode;
  path_name = l.path;
}

abbrev pub AllValid : List Line → Type 0
AllValid [] = Unit
AllValid (l ∷ ls) = Valid l × AllValid ls
