-- ===== src/Mmap/ProcMaps/Parts.antt =====
-- The range of addresses and the permissions of a line.
use goloader.Shared.{ℕ, ◌≡◌, refl, Bool, true, false, not, [], arith, ◌==◌}
use goloader.Shared.Hex.{digit_char}
use goloader.Shared.Outcome.{ok}
use goloader.Mmap.ProcMaps.{
  ProcMapping, split_from, add_perm, add_perms, parse_range, new_mapping, number,
}
use goloader.Mmap.ProcMaps.Text.{split_from-piece, split_from-last}
use goloader.Mmap.ProcMaps.Numbers.{hex, parse_hex-hex, none_of-hex}
use goloader.Mmap.ProcMaps.Lines.{Line, Valid, perm_char, perms_of, range_of}

-- The mapping while its permissions are read.
abbrev pub flags : ℕ → ℕ → Bool → Bool → Bool → Bool → Bool → ProcMapping
flags s e r w x shared private = record {
  start_addr = s;
  end_addr = e;
  read_perm = r;
  write_perm = w;
  execute_perm = x;
  shared_perm = shared;
  private_perm = private;
  offset = 0;
  dev = [];
  inode = 0;
  path_name = [];
}

module _ (s e : ℕ) where
  add_read :
      (b : Bool)
      → add_perm (perm_char b b'r' b'-') (flags s e false false false false false)
        ≡ ok (flags s e b false false false false)
  unfolding add_perm
  add_read true = refl
  add_read false = refl

  add_write :
      (r b : Bool)
      → add_perm (perm_char b b'w' b'-') (flags s e r false false false false)
        ≡ ok (flags s e r b false false false)
  unfolding add_perm
  add_write r true = refl
  add_write r false = refl

  add_execute :
      (r w b : Bool)
      → add_perm (perm_char b b'x' b'-') (flags s e r w false false false)
        ≡ ok (flags s e r w b false false)
  unfolding add_perm
  add_execute r w true = refl
  add_execute r w false = refl

  add_shared :
      (r w x b : Bool)
      → add_perm (perm_char b b's' b'p') (flags s e r w x false false)
        ≡ ok (flags s e r w x b (not b))
  unfolding add_perm
  add_shared r w x true = refl
  add_shared r w x false = refl

  pub add_perms-perms_of :
      (l : Line)
      → add_perms (perms_of l) (flags s e false false false false false)
        ≡ ok (flags s e l.read_perm l.write_perm l.execute_perm l.shared_perm (not l.shared_perm))
  unfolding add_perms
  add_perms-perms_of l =
      rw
        (
          add_read l.read_perm,
          add_write l.read_perm l.write_perm,
          add_execute l.read_perm l.write_perm l.execute_perm,
          add_shared l.read_perm l.write_perm l.execute_perm l.shared_perm,
        )
        refl

pub parse_range_lem :
    (l : Line)
    → Valid l
    → parse_range (split_from b'-' [] (range_of l)) new_mapping
      ≡ ok (flags l.start_addr l.end_addr false false false false false)
unfolding parse_range digit_char
parse_range_lem l v =
    rw
      (
        split_from-piece b'-' (hex l.start_addr) (hex l.end_addr)
            (none_of-hex (λ c. c == b'-') (λ d h. ground arith) l.start_addr),
        split_from-last b'-' (hex l.end_addr)
            (none_of-hex (λ c. c == b'-') (λ d h. ground arith) l.end_addr),
        parse_range,
        number,
        parse_hex-hex l.start_addr v.0,
        parse_hex-hex l.end_addr v.1,
      )
      refl
