-- ===== src/Mmap/ProcMaps/Text.antt =====
-- Fields and pieces of a text that is put together from words.
use goloader.Shared.{
  ℕ, zero, suc, ◌≡◌, refl, ap, sym, ◌∙◌, inl, inr, Bool, true, not, ◌&&◌, List, [], ◌∷◌, ◌++◌,
  arith, ◌==◌, Bool-cases, replicate, eq→==,
}
use goloader.Mmap.ProcMaps.{is_space, emit, fields_from, split_from}

abbrev pub none_of : (ℕ → Bool) → List ℕ → Bool
none_of p [] = true
none_of p (c ∷ cs) = not (p c) && none_of p cs

pub none_of-append :
    (p : ℕ → Bool) (xs ys : List ℕ)
    → none_of p xs ≡ true
    → none_of p ys ≡ true
    → none_of p (xs ++ ys) ≡ true
none_of-append p [] ys h k = k
none_of-append p (x ∷ xs) ys h k = ground (arith, h, none_of-append p xs ys (ground (arith, h)) k)

append_nil : (xs : List ℕ) → xs ++ [] ≡ xs
append_nil [] = refl
append_nil (x ∷ xs) = ap (◌∷◌ x) (append_nil xs)

append_assoc : (xs ys zs : List ℕ) → (xs ++ ys) ++ zs ≡ xs ++ (ys ++ zs)
append_assoc [] ys zs = refl
append_assoc (x ∷ xs) ys zs = ap (◌∷◌ x) (append_assoc xs ys zs)

-- A space-free word grows the field.
fields_from-word :
    (w current rest : List ℕ)
    → none_of is_space w ≡ true
    → fields_from current (w ++ rest) ≡ fields_from (current ++ w) rest
unfolding fields_from
fields_from-word [] current rest h = ap (λ t. fields_from t rest) (sym (append_nil current))
fields_from-word (c ∷ w) current rest h = elim (Bool-cases (is_space c)) [
  | inl e ↦ absurd (let k = rw e at h in cc)
  | inr e ↦ rw e (
      fields_from-word w (current ++ (c ∷ [])) rest (rw e at h)
      ∙ ap (λ t. fields_from t rest) (append_assoc current (c ∷ []) w))
]

abbrev pub NonEmpty : List ℕ → Type 0
NonEmpty xs = (c : ℕ) × (w : List ℕ) × (xs ≡ c ∷ w)

emit-nonempty : (xs : List ℕ) (fs : List (List ℕ)) → NonEmpty xs → emit xs fs ≡ xs ∷ fs
emit-nonempty [] fs (c, w, e) = cc
emit-nonempty (c ∷ xs) fs h = refl

-- A word with a blank behind it, and at the end of the line.
pub fields_from-field :
    (w rest : List ℕ)
    → NonEmpty w
    → none_of is_space w ≡ true
    → fields_from [] (w ++ (b' ' ∷ rest)) ≡ w ∷ fields_from [] rest
unfolding fields_from
fields_from-field w rest h k =
    fields_from-word w [] (b' ' ∷ rest) k ∙ emit-nonempty w (fields_from [] rest) h

pub fields_from-last :
    (w : List ℕ) → NonEmpty w → none_of is_space w ≡ true → fields_from [] w ≡ w ∷ []
unfolding fields_from
fields_from-last w h k =
    ap (fields_from []) (sym (append_nil w)) ∙ fields_from-word w [] [] k ∙ emit-nonempty w [] h

pub fields_from-blanks :
    (k : ℕ) (rest : List ℕ) → fields_from [] (replicate k b' ' ++ rest) ≡ fields_from [] rest
unfolding fields_from
fields_from-blanks zero rest = refl
fields_from-blanks (suc k) rest = fields_from-blanks k rest

split_from-word :
    (sep : ℕ) (w current rest : List ℕ)
    → none_of (λ c. c == sep) w ≡ true
    → split_from sep current (w ++ rest) ≡ split_from sep (current ++ w) rest
unfolding split_from
split_from-word sep [] current rest h = ap (λ t. split_from sep t rest) (sym (append_nil current))
split_from-word sep (c ∷ w) current rest h = elim (Bool-cases (c == sep)) [
  | inl e ↦ absurd (let k = rw e at h in cc)
  | inr e ↦ rw e (
      split_from-word sep w (current ++ (c ∷ [])) rest (rw e at h)
      ∙ ap (λ t. split_from sep t rest) (append_assoc current (c ∷ []) w))
]

pub split_from-piece :
    (sep : ℕ) (w rest : List ℕ)
    → none_of (λ c. c == sep) w ≡ true
    → split_from sep [] (w ++ (sep ∷ rest)) ≡ w ∷ split_from sep [] rest
unfolding split_from
split_from-piece sep w rest h =
    split_from-word sep w [] (sep ∷ rest) h ∙ rw (eq→== sep sep refl) refl

pub split_from-last :
    (sep : ℕ) (w : List ℕ) → none_of (λ c. c == sep) w ≡ true → split_from sep [] w ≡ w ∷ []
unfolding split_from
split_from-last sep w h =
    ap (split_from sep []) (sym (append_nil w)) ∙ split_from-word sep w [] [] h
