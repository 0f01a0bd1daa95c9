-- ===== src/Shared/Run.antt =====
-- Runs of a recursion on fuel: `none` is a run that had too little of it. The programs' own results
-- are outcomes.
use mathlib.Core.Option.{Option, none, some}
use goloader.Shared.Outcome.{Outcome, ok, err, panic}

abbrev pub Run {ℓ} : Type ℓ → Type ℓ
Run A = Option (Outcome A)

abbrev pub lift {ℓ} : {A : Type ℓ} → Outcome A → Run A
lift m = some m

abbrev pub return {ℓ} : {A : Type ℓ} → A → Run A
return a = some (ok a)

infixl 5 ◌>>=◌
abbrev pub ◌>>=◌ {ℓ κ} : {A : Type ℓ} {B : Type κ} → Run A → (A → Run B) → Run B
m >>= f = elim m [
  | none ↦ none
  | some r ↦ elim r [ ok a ↦ f a | err e ↦ some (err e) | panic ↦ some panic ]
]

-- The run has fuel enough, and what it returns, if it returns, has the property.
abbrev pub Ends {ℓ} : {A : Type ℓ} → (A → Type 0) → Run A → Type 0
Ends P none = ⊥
Ends P (some (ok a)) = P a
Ends P (some (err e)) = Unit
Ends P (some panic) = Unit

pub Ends-bind {ℓ κ} :
    {A : Type ℓ} {B : Type κ} (P : A → Type 0) (Q : B → Type 0) (m : Run A) (f : A → Run B)
    → Ends P m
    → ((a : A) → P a → Ends Q (f a))
    → Ends Q (m >>= f)
Ends-bind P Q none f h k = elim h [ ]
Ends-bind P Q (some (ok a)) f h k = k a h
Ends-bind P Q (some (err e)) f h k = tt
Ends-bind P Q (some panic) f h k = tt

pub Ends-imp {ℓ} :
    {A : Type ℓ} (P : A → Type 0) (Q : A → Type 0) (m : Run A)
    → Ends P m
    → ((a : A) → P a → Q a)
    → Ends Q m
Ends-imp P Q none h k = elim h [ ]
Ends-imp P Q (some (ok a)) h k = k a h
Ends-imp P Q (some (err e)) h k = tt
Ends-imp P Q (some panic) h k = tt
