-- ===== src/Names/Maps.antt =====
-- Laws of the maps with string keys.
use text.Mathlib.Text.{◌==◌ as str_eq}
use text.Mathlib.TextEquality.{eq_iff}
use text.Mathlib.TextPositions.{eq_refl}
use goloader.Shared.{
  ◌≡◌, refl, ap, ◌∙◌, ◌⊎◌, inl, inr, Bool, true, false, [], ◌∷◌, none, some, String, if◌then◌else◌,
  Bool-cases,
}
use goloader.Names.{StrMap, lookup, insert, has, is_some, update}

module _ {V : Type 0} where
  pub has-some : (k : String) (v : V) (m : StrMap V) → lookup k m ≡ some v → has k m ≡ true
  has-some k v m e = ap is_some e

  pub has-none : (k : String) (m : StrMap V) → lookup k m ≡ none → has k m ≡ false
  has-none k m e = ap is_some e

  lookup-insert :
      (k j : String) (v : V) (m : StrMap V)
      → lookup k (insert j v m) ≡ (if str_eq j k then some v else lookup k m)
  unfolding lookup
  lookup-insert k j v m = refl

  pub has-insert_self : (k : String) (v : V) (m : StrMap V) → has k (insert k v m) ≡ true
  has-insert_self k v m = rw (has, lookup-insert k k v m, eq_refl k)

  pub has-insert :
      (k j : String) (v : V) (m : StrMap V) → has k m ≡ true → has k (insert j v m) ≡ true
  has-insert k j v m h = elim (Bool-cases (str_eq j k)) [
    | inl e ↦ rw (has, lookup-insert k j v m, e)
    | inr e ↦ rw (has, lookup-insert k j v m, e) h
  ]

  -- An entry of the longer map is the new one, or one of the others.
  pub lookup-insert_cases :
      (k j : String) (v e : V) (m : StrMap V)
      → lookup k (insert j v m) ≡ some e
      → ((j ≡ k) × (v ≡ e)) ⊎ (lookup k m ≡ some e)
  unfolding lookup
  lookup-insert_cases k j v e m h = elim (Bool-cases (str_eq j k)) [
    | inl same ↦ inl ((eq_iff j k).0 same, cc (rw same at h))
    | inr differs ↦ inr (rw differs at h)
  ]

  -- What an update leaves, by the key.
  pub lookup-update_cases :
      (k j : String) (f : V → V) (e : V) (m : StrMap V)
      → lookup k (update j f m) ≡ some e
      → (lookup k m ≡ some e) ⊎ ((j ≡ k) × ((v : V) × (lookup k m ≡ some v) × (f v ≡ e)))
  unfolding lookup update
  lookup-update_cases k j f e [] h = inl h
  lookup-update_cases k j f e ((i, v) ∷ m) h = elim (Bool-cases (str_eq i j)) [
    | inl same ↦ elim (Bool-cases (str_eq i k)) [
      | inl here ↦
          let ij = (eq_iff i j).0 same in
          let ik = (eq_iff i k).0 here in inr (cc, (v, rw here, cc (rw (same, here) at h)))
      | inr there ↦ inl (rw there (rw (same, there) at h))
    ]
    | inr other ↦ elim (Bool-cases (str_eq i k)) [
      | inl here ↦ inl (rw here (rw (other, here) at h))
      | inr there ↦ rw there (lookup-update_cases k j f e m (rw (other, there) at h))
    ]
  ]

  update-kept :
      (k j : String) (f : V → V) (m : StrMap V)
      → is_some (lookup k (update j f m)) ≡ is_some (lookup k m)
  unfolding lookup update
  update-kept k j f [] = refl
  update-kept k j f ((i, v) ∷ m) = elim (Bool-cases (str_eq i j)) [
    | inl same ↦ rw same (entry (str_eq i k))
    | inr other ↦ rw other (later (str_eq i k) (update-kept k j f m))
  ]
    where
      entry :
          (b : Bool)
          → is_some (if b then some (f v) else lookup k m)
            ≡ is_some (if b then some v else lookup k m)
      entry true = refl
      entry false = refl

      later :
          (b : Bool)
          → is_some (lookup k (update j f m)) ≡ is_some (lookup k m)
          → is_some (if b then some v else lookup k (update j f m))
            ≡ is_some (if b then some v else lookup k m)
      later true h = refl
      later false h = h

  pub has-update :
      (k j : String) (f : V → V) (m : StrMap V) → has k m ≡ true → has k (update j f m) ≡ true
  has-update k j f m h = update-kept k j f m ∙ h
