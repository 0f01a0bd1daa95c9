-- ===== src/Shared/Prefix.antt =====
-- Buffers that only grow at their end, and bytes that stand in them.
use mathlib.Core.List.{append_assoc, append-nil}
use Prim.Native.Nat.{ℕ, zero, suc}
use mathlib.Core.Path.{◌≡◌, refl, ap, ◌∙◌, sym}
use mathlib.Core.List.{List, [], ◌∷◌, ◌++◌}
use goloader.Shared.Lists.{length}
use goloader.Shared.Bytes.{slice}
use goloader.Shared.Outcome.{Outcome, ok, err, panic, ◌>>=◌}

abbrev pub Prefix : List ℕ → List ℕ → Type 0
Prefix b b' = (more : List ℕ) × (b' ≡ b ++ more)

pub Prefix-refl : (b : List ℕ) → Prefix b b
Prefix-refl b = ([], sym (append-nil b))

pub Prefix-append : (b more : List ℕ) → Prefix b (b ++ more)
Prefix-append b more = (more, refl)

pub Prefix-trans : (a b c : List ℕ) → Prefix a b → Prefix b c → Prefix a c
Prefix-trans a b c (m, e) (n, f) = (m ++ n, f ∙ ap (λ t. t ++ n) e ∙ append_assoc a m n)

-- `bytes` at the offset `off` of the buffer.
abbrev pub Stands : List ℕ → ℕ → List ℕ → Type 0
Stands b off bytes =
    (before : List ℕ) × (behind : List ℕ) × (b ≡ before ++ (bytes ++ behind))
    × (length before ≡ off)

pub Stands-Prefix :
    (b b' : List ℕ) (off : ℕ) (bytes : List ℕ)
    → Prefix b b'
    → Stands b off bytes
    → Stands b' off bytes
Stands-Prefix b b' off bytes (more, f) (before, behind, e, l) = (
  before,
  behind ++ more,
  f
      ∙ ap (λ t. t ++ more) e
      ∙ append_assoc before (bytes ++ behind) more
      ∙ ap (λ t. before ++ t) (append_assoc bytes behind more),
  l,
)

pub Stands-end : (b bytes b' : List ℕ) → Prefix (b ++ bytes) b' → Stands b' (length b) bytes
Stands-end b bytes b' (more, e) = (b, more, e ∙ append_assoc b bytes more, refl)

slice_front : (bytes behind : List ℕ) → slice (bytes ++ behind) 0 (length bytes) ≡ bytes
slice_front [] behind = refl
slice_front (x ∷ xs) behind = ap (◌∷◌ x) (slice_front xs behind)

slice_behind :
    (before rest : List ℕ) (n : ℕ) → slice (before ++ rest) (length before) n ≡ slice rest 0 n
slice_behind [] rest n = refl
slice_behind (x ∷ before) rest zero = refl
slice_behind (x ∷ before) rest (suc n) = slice_behind before rest (suc n)

pub slice-Stands :
    (b : List ℕ) (off : ℕ) (bytes : List ℕ)
    → Stands b off bytes
    → slice b off (length bytes) ≡ bytes
slice-Stands b off bytes (before, behind, e, l) =
    ap (λ t. slice t off (length bytes)) e
    ∙ ap (λ t. slice (before ++ (bytes ++ behind)) t (length bytes)) (sym l)
    ∙ slice_behind before (bytes ++ behind) (length bytes)
    ∙ slice_front bytes behind

-- What an outcome returns, if it returns.
abbrev pub Returns {ℓ} : {A : Type ℓ} → (A → Type 0) → Outcome A → Type 0
Returns P (ok a) = P a
Returns P (err e) = Unit
Returns P panic = Unit

pub Returns-bind {ℓ κ} :
    {A : Type ℓ} {B : Type κ} (P : A → Type 0) (Q : B → Type 0) (m : Outcome A) (f : A → Outcome B)
    → Returns P m
    → ((a : A) → P a → Returns Q (f a))
    → Returns Q (m >>= f)
Returns-bind P Q (ok a) f h k = k a h
Returns-bind P Q (err e) f h k = tt
Returns-bind P Q panic f h k = tt

pub Returns-any {ℓ} : {A : Type ℓ} (m : Outcome A) → Returns (λ _. Unit {0}) m
Returns-any (ok a) = tt
Returns-any (err e) = tt
Returns-any panic = tt
