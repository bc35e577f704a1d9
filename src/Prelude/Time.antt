-- ===== src/Prelude/Time.antt =====
-- `datetime`: microseconds from a fixed origin, with or without a time zone. Of an aware value the
-- model keeps the instant in UTC, which is what Python compares and subtracts.
use Prim.Native.Nat.{ℕ}
use mathlib.Core.Option.{Option, none, some}
use mathlib.Core.Bool.{Bool, true, false}
use automation_portfolio.Prelude.Tests.{ltb}

pub data Datetime : Type 0 where
  naive : ℕ → Datetime
  aware : ℕ → Datetime

abbrev pub is_aware : Datetime → Bool
is_aware (naive n) = false
is_aware (aware n) = true

abbrev pub instant : Datetime → ℕ
instant (naive n) = n
instant (aware n) = n

-- `a < b`, between two values that were both found aware.
abbrev pub before : Datetime → Datetime → Bool
before a b = ltb (instant a) (instant b)

-- `value if value is not None else utc_now()`, at the time `now` of the call.
abbrev pub time_or_now : Option Datetime → ℕ → Datetime
time_or_now (some t) now = t
time_or_now none now = aware now
