-- ===== src/Prelude/Sort.antt =====
-- `sorted`, as insertion sort, and `len(xs) != len(set(xs))`.
use mathlib.Core.List.{Perm}
use mathlib.Core.List.Perm
use automation_portfolio.Prelude.{
  Bool, false, ◌||◌, List, [], ◌∷◌, if◌then◌else◌, Bool-cases, inl, inr, All,
}

module _ {ℓ} {A : Type ℓ} (le : A → A → Bool) where
  unfoldable pub insert : A → List A → List A
  insert a [] = a ∷ []
  insert a (x ∷ xs) = let rest = insert a xs in if le a x then a ∷ x ∷ xs else x ∷ rest

  unfoldable pub sort : List A → List A
  unfolding insert
  sort [] = []
  sort (x ∷ xs) = insert x (sort xs)

  insert-perm : (a : A) (xs : List A) → Perm (insert a xs) (a ∷ xs)
  unfolding insert
  insert-perm a [] = Perm.refl (a ∷ [])
  insert-perm a (x ∷ xs) = elim (Bool-cases (le a x)) [
    | inl h ↦ rw h (Perm.refl (a ∷ x ∷ xs))
    | inr h ↦ rw h (Perm.trans (Perm.cons x (insert-perm a xs)) (Perm.swap a x xs))
  ]

  pub sort-perm : (xs : List A) → Perm (sort xs) xs
  unfolding sort
  sort-perm [] = Perm.refl []
  sort-perm (x ∷ xs) = Perm.trans (insert-perm x (sort xs)) (Perm.cons x (sort-perm xs))

module _ {ℓ} {A : Type ℓ} (eq : A → A → Bool) where
  unfoldable pub occurs : A → List A → Bool
  occurs a [] = false
  occurs a (x ∷ xs) = eq a x || occurs a xs

  unfoldable pub has_duplicates : List A → Bool
  unfolding occurs
  has_duplicates [] = false
  has_duplicates (x ∷ xs) = occurs x xs || has_duplicates xs

module _ {ℓ κ} {A : Type ℓ} (le : A → A → Bool) (P : A → Type κ) where
  insert-All : (a : A) (xs : List A) → P a → All P xs → All P (insert le a xs)
  unfolding insert
  insert-All a [] ha h = (ha, tt)
  insert-All a (x ∷ xs) ha h = elim (Bool-cases (le a x)) [
    | inl first ↦ rw first (ha, h)
    | inr later ↦ rw later (h.0, insert-All a xs ha h.1)
  ]

  pub sort-All : (xs : List A) → All P xs → All P (sort le xs)
  unfolding sort
  sort-All [] h = tt
  sort-All (x ∷ xs) h = insert-All x (sort le xs) h.0 (sort-All xs h.1)
