-- ===== src/Store/Change.antt =====
-- How the rows of a table may change, row by row.
use automation_portfolio.Prelude.{
  ℕ, Bool, true, false, List, [], ◌∷◌, Option, some, ◌==◌, ◌≡◌, inl, inr, Bool-cases, arith,
  if◌then◌else◌,
}
use mathlib.Core.Path.{subst}
use automation_portfolio.Store.Rows.{find, update}

module _ {ℓ} {A : Type ℓ} where
  found-here :
      (test : Bool) (x row : A) (rest : Option A)
      → test ≡ true
      → (if test then some x else rest) ≡ some row
      → row ≡ x
  found-here test x row rest here e = ground (arith, here, e)

  found-there :
      (test : Bool) (x row : A) (rest : Option A)
      → test ≡ false
      → (if test then some x else rest) ≡ some row
      → rest ≡ some row
  found-there test x row rest there e = ground (arith, there, e)

module _ {ℓ} {A : Type ℓ} (R : A → A → Type 0) where
  -- As many rows as before, each related to the one that it was.
  abbrev pub Each : List A → List A → Type 0
  Each [] [] = Unit
  Each [] (y ∷ ys) = ⊥
  Each (x ∷ xs) [] = ⊥
  Each (x ∷ xs) (y ∷ ys) = R x y × Each xs ys

  pub Each-refl : ((x : A) → R x x) → (xs : List A) → Each xs xs
  Each-refl r [] = tt
  Each-refl r (x ∷ xs) = (r x, Each-refl r xs)

  pub Each-update :
      (id_of : A → ℕ) (id : ℕ) (change : A → A) (rows : List A) (row : A)
      → ((x : A) → R x x)
      → find id_of id rows ≡ some row
      → R row (change row)
      → Each rows (update id_of id change rows)
  unfolding find update
  Each-update id_of id change [] row r e h = tt
  Each-update id_of id change (x ∷ xs) row r e h =
      let rest = find id_of id xs in
      elim (Bool-cases (id_of x == id)) [
        | inl here ↦ rw here (
          subst (λ z. R z (change z)) (found-here (id_of x == id) x row rest here e) h,
          Each-refl r xs,
        )
        | inr there ↦ rw there (
          r x,
          Each-update id_of id change xs row r (found-there (id_of x == id) x row rest there e) h,
        )
      ]
