-- ===== src/Digest/Positions.antt =====
-- What `_validate_items` lets through: one to seven articles, all different, whose positions are the
-- numbers from 1 on in some order.
use mathlib.Core.Path.{subst}
use mathlib.Core.List.{Perm}
use mathlib.Core.List.Perm
use automation_portfolio.Prelude.{
  ℕ, ◌≤◌, ◌≡◌, refl, ◌≢◌, List, [], ◌∷◌, ◌==◌, arith, length, All, true, false,
}
use automation_portfolio.Prelude.Int.{ℤ, pos, negsuc, leb_ℤ, eqb_ℤ}
use automation_portfolio.Prelude.Sort.{sort, sort-perm, occurs, has_duplicates}
use automation_portfolio.Prelude.Result.{ok}
use automation_portfolio.Digest.Item.{DigestItem}
use automation_portfolio.Digest.Entity.{
  range_from, ints_eq, positions, news_item_ids, validate_items,
}

-- No element stands twice.
abbrev pub Distinct : List ℕ → Type 0
Distinct [] = Unit
Distinct (x ∷ xs) = All (λ y. x ≢ y) xs × Distinct xs

occurs-All : (x : ℕ) (xs : List ℕ) → occurs ◌==◌ x xs ≡ false → All (λ y. x ≢ y) xs
unfolding occurs
occurs-All x [] h = tt
occurs-All x (y ∷ xs) h = (ground arith, occurs-All x xs (ground arith))

has_duplicates-Distinct : (xs : List ℕ) → has_duplicates ◌==◌ xs ≡ false → Distinct xs
unfolding has_duplicates
has_duplicates-Distinct [] h = tt
has_duplicates-Distinct (x ∷ xs) h =
    (occurs-All x xs (ground arith), has_duplicates-Distinct xs (ground arith))

All-occurs : (x : ℕ) (xs : List ℕ) → All (λ y. x ≢ y) xs → occurs ◌==◌ x xs ≡ false
unfolding occurs
All-occurs x [] h = refl
All-occurs x (y ∷ xs) h = ground (arith, All-occurs x xs h.1)

pub Distinct-has_duplicates : (xs : List ℕ) → Distinct xs → has_duplicates ◌==◌ xs ≡ false
unfolding has_duplicates
Distinct-has_duplicates [] h = refl
Distinct-has_duplicates (x ∷ xs) h =
    ground (arith, All-occurs x xs h.0, Distinct-has_duplicates xs h.1)

eqb_ℤ→eq : (a b : ℤ) → eqb_ℤ a b ≡ true → a ≡ b
eqb_ℤ→eq (pos a) (pos b) h = ground arith
eqb_ℤ→eq (pos a) (negsuc b) h = ground arith
eqb_ℤ→eq (negsuc a) (pos b) h = ground arith
eqb_ℤ→eq (negsuc a) (negsuc b) h = ground arith

ints_eq→eq : (xs ys : List ℤ) → ints_eq xs ys ≡ true → xs ≡ ys
unfolding ints_eq
ints_eq→eq [] [] h = refl
ints_eq→eq [] (y ∷ ys) h = ground arith
ints_eq→eq (x ∷ xs) [] h = ground arith
ints_eq→eq (x ∷ xs) (y ∷ ys) h = ground (arith, eqb_ℤ→eq x y, ints_eq→eq xs ys)

-- Items that the check of a digest lets through are one to seven, are of different articles, and
-- their positions are the numbers from 1 on in some order.
pub validate_items_sound :
    (items : List DigestItem)
    → validate_items items ≡ ok tt
    → (1 ≤ length items)
      × (length items ≤ 7)
      × Distinct (news_item_ids items)
      × Perm (positions items) (range_from (length items) 1)
unfolding validate_items
validate_items_sound items h = (
  ground arith,
  ground arith,
  has_duplicates-Distinct (news_item_ids items) (ground arith),
  subst (Perm (positions items))
      (ints_eq→eq (sort leb_ℤ (positions items)) (range_from (length items) 1) (ground arith))
      (Perm.symm (sort-perm leb_ℤ (positions items))),
)
