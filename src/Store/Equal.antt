-- ===== src/Store/Equal.antt =====
-- `==` of the values that the columns hold.
use automation_portfolio.Prelude.{Bool, true, false, Option, none, some, ◌==◌}
use automation_portfolio.Prelude.Time.{Datetime, naive, aware}

unfoldable pub datetime_eq : Datetime → Datetime → Bool
datetime_eq (naive a) (naive b) = a == b
datetime_eq (aware a) (aware b) = a == b
datetime_eq _ _ = false

unfoldable pub option_eq : {A : Type 0} → (A → A → Bool) → Option A → Option A → Bool
option_eq eq none none = true
option_eq eq (some a) (some b) = eq a b
option_eq eq _ _ = false
