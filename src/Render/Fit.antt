-- ===== src/Render/Fit.antt =====
-- How long the composed parts are: a part is no longer than its blocks with title and footer, and
-- more blocks make no shorter text.
use automation_portfolio.Prelude.{
  ◌≡◌, refl, ◌≤◌, Bool, true, false, List, [], ◌∷◌, ◌++◌, length, length-append, arith,
}
use mathlib.Core.Path.{subst, sym}
use native.Mathlib.Nat.{le_trans}
use mathlib.Core.List.{append_assoc, append-nil}
use automation_portfolio.Prelude.Text.{Text, strip, join}
use automation_portfolio.Prelude.Text.Laws.{strip-le-insert, join-append}
use automation_portfolio.Render.Compose.{compose_digest_part, item_separator, part_separator}
use automation_portfolio.Render.Split.{probe, part_of}

close :
    (x y : Text)
    → length (strip x) ≤ length (strip y)
    → length (strip x ++ 10 ∷ []) ≤ length (strip y ++ 10 ∷ [])
close x y h = omega (arith, h, length-append (strip x) (10 ∷ []), length-append (strip y) (10 ∷ []))

-- A piece put in, whichever way the texts around it are grouped.
grown :
    (x w z s t : Text)
    → (x ++ z) ≡ s
    → (x ++ (w ++ z)) ≡ t
    → length (strip s ++ 10 ∷ []) ≤ length (strip t ++ 10 ∷ [])
grown x w z s t e₁ e₂ = close s t (
    subst (λ s. length (strip s) ≤ length (strip t)) e₁
      (subst (λ t. length (strip (x ++ z)) ≤ length (strip t)) e₂ (strip-le-insert x w z)))

module _ (t p f : Text) where
  abbrev frame : Text → Text
  frame j = t ++ (p ++ (j ++ (p ++ f)))

  head-le-frame :
      (j : Text) → length (strip (t ++ (p ++ j)) ++ 10 ∷ []) ≤ length (strip (frame j) ++ 10 ∷ [])
  head-le-frame j =
      grown (t ++ (p ++ j)) (p ++ f) [] (t ++ (p ++ j)) (frame j) (append-nil (t ++ (p ++ j)))
        (simp (append_assoc, append-nil))

  tail-le-frame :
      (j : Text) → length (strip (j ++ (p ++ f)) ++ 10 ∷ []) ≤ length (strip (frame j) ++ 10 ∷ [])
  tail-le-frame j =
      grown [] (t ++ p) (j ++ (p ++ f)) (j ++ (p ++ f)) (frame j) refl (simp (append_assoc))

  body-le-frame : (j : Text) → length (strip j ++ 10 ∷ []) ≤ length (strip (frame j) ++ 10 ∷ [])
  body-le-frame j =
      le_trans
        (grown j (p ++ f) [] j (j ++ (p ++ f)) (append-nil j) (simp (append_assoc, append-nil)))
        (tail-le-frame j)

  first-le-frame :
      (j s k : Text)
      → length (strip (frame j) ++ 10 ∷ []) ≤ length (strip (frame (j ++ (s ++ k))) ++ 10 ∷ [])
  first-le-frame j s k =
      grown (t ++ (p ++ j)) (s ++ k) (p ++ f) (frame j) (frame (j ++ (s ++ k)))
        (simp (append_assoc)) (simp (append_assoc))

  last-le-frame :
      (j s k : Text)
      → length (strip (frame k) ++ 10 ∷ []) ≤ length (strip (frame (j ++ (s ++ k))) ++ 10 ∷ [])
  last-le-frame j s k =
      grown (t ++ p) (j ++ s) (k ++ (p ++ f)) (frame k) (frame (j ++ (s ++ k)))
        (simp (append_assoc)) (simp (append_assoc))

module _ (title foot : Text) where
  pub part_of-le-probe :
      (is_first is_last : Bool) (b : Text) (g : List Text)
      → length (part_of title foot is_first is_last (b ∷ g)) ≤ length (probe title foot (b ∷ g))
  unfolding part_of compose_digest_part probe join
  part_of-le-probe true true b g = omega arith
  part_of-le-probe true false b g =
      head-le-frame (strip title) part_separator foot (join item_separator (b ∷ g))
  part_of-le-probe false true b g =
      tail-le-frame (strip title) part_separator foot (join item_separator (b ∷ g))
  part_of-le-probe false false b g =
      body-le-frame (strip title) part_separator foot (join item_separator (b ∷ g))

  pub probe-le-append :
      (b : Text) (g h : List Text)
      → length (probe title foot (b ∷ g)) ≤ length (probe title foot ((b ∷ g) ++ h))
  unfolding probe compose_digest_part join
  probe-le-append b g [] =
      subst (λ h. length (probe title foot (b ∷ g)) ≤ length (probe title foot h))
        (sym (append-nil (b ∷ g))) (omega arith)
  probe-le-append b g (d ∷ h) = rw (join-append item_separator b g d h) (
      first-le-frame (strip title) part_separator foot (join item_separator (b ∷ g)) item_separator
        (join item_separator (d ∷ h)))

  pub probe-le-prepend :
      (g : List Text) (b : Text) (h : List Text)
      → length (probe title foot (b ∷ h)) ≤ length (probe title foot (g ++ (b ∷ h)))
  unfolding probe compose_digest_part join
  probe-le-prepend [] b h = omega arith
  probe-le-prepend (c ∷ g) b h = rw (join-append item_separator c g b h) (
      last-le-frame (strip title) part_separator foot (join item_separator (c ∷ g)) item_separator
        (join item_separator (b ∷ h)))
