-- ===== src/Prelude/Decimal.antt =====
-- `Decimal`: a value that is not finite, or a number divided by a power of ten.
use automation_portfolio.Prelude.{ℕ, ◌*◌, ◌^◌, Bool, false, ◌&&◌}
use automation_portfolio.Prelude.Int.{ℤ, pos, leb_ℤ}

pub data Decimal : Type 0 where
  not_finite : Decimal
  finite : ℤ → ℕ → Decimal

-- `value.is_finite() and Decimal("0") <= value <= Decimal(top)`
unfoldable pub is_within : ℕ → Decimal → Bool
is_within top not_finite = false
is_within top (finite n scale) = leb_ℤ (pos 0) n && leb_ℤ n (pos (top * 10 ^ scale))
