-- ===== src/Names.antt =====
-- The symbol names that the linker tests: const.go, const_type.1.20.go, and the functions of the
-- package `strings` that it uses on them.
pub mod Maps
use text.Mathlib.Text.{◌==◌ as str_eq, starts_with}
use Prim.Native.String.{len, slice}
use Prim.Native.Char.{code}
use goloader.Shared.{
  ℕ, ◌-◌, Bool, true, false, ◌&&◌, ◌||◌, not, List, [], ◌∷◌, Option, none, some, String, ltb, ◌==◌,
  if◌then◌else◌,
}

abbrev pub tls_name : String
tls_name = "(TLS)"

abbrev pub first_module_prefix : String
first_module_prefix = "firstmodule."

abbrev pub main_pkg_prefix : String
main_pkg_prefix = "main."

abbrev pub type_prefix : String
type_prefix = "type:"

abbrev pub type_double_dot_prefix : String
type_double_dot_prefix = "type:."

abbrev pub type_import_path_prefix : String
type_import_path_prefix = "type:.importpath."

abbrev pub type_string_prefix : String
type_string_prefix = "go:string."

abbrev pub itab_prefix : String
itab_prefix = "go:itab."

-- strings.TrimPrefix
unfoldable pub trim_prefix : String → String → String
trim_prefix s p = if starts_with s p then slice s (len p) (len s) else s

-- strings.TrimLeft(s, "*")
unfoldable pub trim_stars : String → String
trim_stars String.[] = String.[]
trim_stars (String.◌∷◌ c s) =
    let rest = trim_stars s in if code c == b'*' then rest else String.◌∷◌ c s

-- strings.HasSuffix
pub ends_with : String → String → Bool
ends_with s p = not (ltb (len s) (len p)) && str_eq (slice s (len s - len p) (len s)) p

-- A Go map with string keys; the entry that was set last comes first.
abbrev pub StrMap {ℓ} : Type ℓ → Type ℓ
StrMap V = List (String × V)

module _ {ℓ} {V : Type ℓ} where
  unfoldable pub lookup : String → StrMap V → Option V
  lookup k [] = none
  lookup k ((j, v) ∷ m) = if str_eq j k then some v else lookup k m

  abbrev pub insert : String → V → StrMap V → StrMap V
  insert k v m = (k, v) ∷ m

-- `_, ok := m[k]`
abbrev pub is_some {ℓ} : {V : Type ℓ} → Option V → Bool
is_some none = false
is_some (some v) = true

abbrev pub has {ℓ} : {V : Type ℓ} → String → StrMap V → Bool
has k m = is_some (lookup k m)

-- A write through the pointer that the map holds.
unfoldable pub update {ℓ} : {V : Type ℓ} → String → (V → V) → StrMap V → StrMap V
update k f [] = []
update k f ((j, v) ∷ m) =
    let rest = update k f m in if str_eq j k then (j, f v) ∷ m else (j, v) ∷ rest

-- A set of strings.
unfoldable pub contains : String → List String → Bool
contains k [] = false
contains k (j ∷ m) = str_eq j k || contains k m

-- `[]byte(s)`; a character of a name stands for a byte.
abbrev pub codes : String → List ℕ
codes String.[] = []
codes (String.◌∷◌ c s) = code c ∷ codes s
