-- ===== src/Shared/Outcome.antt =====
-- What a Go function with an `error` result does: it returns a value, it returns an error, or it
-- panics (an index out of range, or an explicit `panic`).
use mathlib.Core.Bool.{Bool, true, false}

-- The errors that the modelled functions build with `fmt.Errorf`, one for each message.
pub data Error : Type 0 where
  epilogue_not_available unexpected_src_register unsupported_opcode unexpected_opcode : Error
  got_distance_out_of_range unaligned_load_store not_in_code_segment : Error
  tls_offset_out_of_range offset_overflows unknown_reloc_type : Error
  invalid_symbol size_above_int_size bad_dollar_symbol dollar_symbol_too_large : Error
  unknown_gcobj unresolved_external_symbol nil_string no_free_range : Error
  few_fields bad_address_range bad_number unexpected_permission : Error
  map_failed too_far not_acquired unmap_failed other_failure : Error

pub data Outcome {ℓ} (A : Type ℓ) : Type ℓ where
  ok : A → Outcome A
  err : Error → Outcome A
  panic : Outcome A

infixl 5 ◌>>=◌
abbrev pub ◌>>=◌ {ℓ κ} : {A : Type ℓ} {B : Type κ} → Outcome A → (A → Outcome B) → Outcome B
m >>= f = elim m [ ok a ↦ f a | err e ↦ err e | panic ↦ panic ]

-- A bounds check of the language: past it the run goes on.
abbrev pub checked {ℓ} : {A : Type ℓ} → Bool → A → Outcome A
checked true a = ok a
checked false a = panic
