-- ===== src/Prelude/Text/Laws.antt =====
-- `str.strip`: it is idempotent, and of a text with a part it keeps no less than of the part.
use Prim.Native.Nat.{◌≤◌}
use mathlib.Core.Path.{◌≡◌, refl}
use mathlib.Core.Logic.{inl, inr}
use mathlib.Core.Bool.{true}
use mathlib.Core.List.{List, [], ◌∷◌, ◌++◌}
use mathlib.Core.List.{append_assoc}
use native.Mathlib.Nat.{le_trans}
use native.Mathlib.Omega.{arith}
use automation_portfolio.Prelude.Tests.{Bool-cases}
use automation_portfolio.Prelude.Lists.{length}
use automation_portfolio.Prelude.Text.{Text, is_space, lstrip, rstrip, strip, join, text_eq}

lstrip-rstrip-lstrip : (s : Text) → lstrip (rstrip (lstrip s)) ≡ rstrip (lstrip s)
unfolding lstrip rstrip
lstrip-rstrip-lstrip [] = refl
lstrip-rstrip-lstrip (c ∷ s) = ground (arith, lstrip-rstrip-lstrip s)

rstrip-rstrip : (s : Text) → rstrip (rstrip s) ≡ rstrip s
unfolding rstrip
rstrip-rstrip [] = refl
rstrip-rstrip (c ∷ s) = ground (arith, rstrip-rstrip s)

pub strip-strip : (s : Text) → strip (strip s) ≡ strip s
unfolding strip
strip-strip s = rw (lstrip-rstrip-lstrip s) (rstrip-rstrip (lstrip s))

rstrip-le-prepend : (p t : Text) → length (rstrip t) ≤ length (rstrip (p ++ t))
unfolding rstrip
rstrip-le-prepend [] t = omega arith
rstrip-le-prepend (c ∷ p) t = ground (arith, rstrip-le-prepend p t)

rstrip-le-append : (t p : Text) → length (rstrip t) ≤ length (rstrip (t ++ p))
unfolding rstrip
rstrip-le-append [] p = omega arith
rstrip-le-append (c ∷ t) p = ground (arith, rstrip-le-append t p)

strip-le-rstrip : (s : Text) → length (rstrip (lstrip s)) ≤ length (rstrip s)
unfolding lstrip rstrip
strip-le-rstrip [] = omega arith
strip-le-rstrip (c ∷ s) = ground (arith, strip-le-rstrip s)

pub strip-le-prepend : (p s : Text) → length (strip s) ≤ length (strip (p ++ s))
unfolding strip
strip-le-prepend [] s = omega arith
strip-le-prepend (c ∷ p) s = elim (Bool-cases (is_space c)) [
  | inl space ↦ unfold lstrip in rw space (strip-le-prepend p s)
  | inr visible ↦
      unfold lstrip in rw visible (le_trans (strip-le-rstrip s) (rstrip-le-prepend (c ∷ p) s))
]

pub strip-le-append : (s p : Text) → length (strip s) ≤ length (strip (s ++ p))
unfolding strip
strip-le-append [] p = unfold lstrip rstrip in omega arith
strip-le-append (c ∷ s) p = elim (Bool-cases (is_space c)) [
  | inl space ↦ unfold lstrip in rw space (strip-le-append s p)
  | inr visible ↦ unfold lstrip in rw visible (rstrip-le-append (c ∷ s) p)
]

rstrip-le-insert : (x w z : Text) → length (rstrip (x ++ z)) ≤ length (rstrip (x ++ (w ++ z)))
unfolding rstrip
rstrip-le-insert [] w z = rstrip-le-prepend w z
rstrip-le-insert (c ∷ x) w z = ground (arith, rstrip-le-insert x w z)

-- A text with a piece put in it keeps no less.
pub strip-le-insert : (x w z : Text) → length (strip (x ++ z)) ≤ length (strip (x ++ (w ++ z)))
unfolding strip
strip-le-insert [] w z = strip-le-prepend w z
strip-le-insert (c ∷ x) w z = elim (Bool-cases (is_space c)) [
  | inl space ↦ unfold lstrip in rw space (strip-le-insert x w z)
  | inr visible ↦ unfold lstrip in rw visible (rstrip-le-insert (c ∷ x) w z)
]

pub join-append :
    (sep b : Text) (g : List Text) (d : Text) (h : List Text)
    → join sep ((b ∷ g) ++ (d ∷ h)) ≡ join sep (b ∷ g) ++ (sep ++ join sep (d ∷ h))
unfolding join
join-append sep b [] d h = refl
join-append sep b (c ∷ g) d h = simp (join-append sep c g d h, append_assoc)

pub text_eq→eq : (s t : Text) → text_eq s t ≡ true → s ≡ t
unfolding text_eq
text_eq→eq [] [] h = refl
text_eq→eq [] (d ∷ t) h = ground arith
text_eq→eq (c ∷ s) [] h = ground arith
text_eq→eq (c ∷ s) (d ∷ t) h = ground (arith, text_eq→eq s t)

pub text_eq_refl : (s : Text) → text_eq s s ≡ true
unfolding text_eq
text_eq_refl [] = refl
text_eq_refl (c ∷ s) = ground (arith, text_eq_refl s)
