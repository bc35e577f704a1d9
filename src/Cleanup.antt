-- ===== src/Cleanup.antt =====
-- app/application/cleanup.py: the removal of old rows of fetches and of delivery attempts.
pub mod Laws
use automation_portfolio.Prelude.{
  ℕ, ◌-◌, ◌*◌, Bool, true, false, not, Option, none, some, List, length, ltb,
}
use automation_portfolio.Prelude.Int.{ℤ, pos, negsuc, ltb_ℤ}
use automation_portfolio.Prelude.Time.{Datetime, aware, before}
use automation_portfolio.Prelude.Result.{Result, ok, raise_if}
use automation_portfolio.Prelude.Result
use automation_portfolio.Prelude.Action.{Action, ◌>>=◌, ◌>>◌, lift, get, modify, pure}
use automation_portfolio.Messages.{value_error, overflow_error, cleanup_age_invalid}
use automation_portfolio.Fetch.{FeedFetch}
use automation_portfolio.Attempt.{Attempt}
use automation_portfolio.Store.{Store, where_rows, transaction}

pub record CleanupResult : Type 0 where
  pub feed_fetches : ℕ
  pub delivery_attempts : ℕ
  pub dry_run : Bool
  pub cutoff : Datetime

abbrev days_of : ℤ → ℕ
days_of (pos n) = n
days_of (negsuc n) = 0

-- `utc_now() - timedelta(days=…)`, which raises OverflowError before the first instant of the year
-- 1, the origin of the instants.
unfoldable pub cutoff_of : ℕ → ℤ → Result Datetime
cutoff_of now older_than_days =
    let span = days_of older_than_days * 86400000000 in
    Result.◌>>◌ (raise_if (ltb_ℤ older_than_days (pos 1)) (value_error cleanup_age_invalid))
      (Result.◌>>◌ (raise_if (ltb now span) overflow_error) (ok (aware (now - span))))

abbrev pub is_old_fetch : Datetime → FeedFetch → Bool
is_old_fetch cutoff fetch = before fetch.finished_at cutoff

-- A comparison with NULL is not true.
abbrev pub is_old_attempt : Datetime → Attempt → Bool
is_old_attempt cutoff attempt = elim attempt.finished_at [
  | none ↦ false
  | some at ↦ before at cutoff
]

-- The two `delete` statements.
unfoldable pub delete_old : Datetime → Bool → Action Store (Unit {0})
unfolding where_rows
delete_old cutoff true = pure tt
delete_old cutoff false = do
  modify (λ s. record s { fetches = where_rows (λ f. not (is_old_fetch cutoff f)) s.fetches })
  modify (λ s. record s { attempts = where_rows (λ a. not (is_old_attempt cutoff a)) s.attempts })

unfoldable pub cleanup_rows : Datetime → Bool → Action Store CleanupResult
unfolding delete_old where_rows
cleanup_rows cutoff dry_run = do
  store ← get
  let feed_count = length (where_rows (is_old_fetch cutoff) store.fetches)
  let delivery_count = length (where_rows (is_old_attempt cutoff) store.attempts)
  delete_old cutoff dry_run
  pure (record {
    feed_fetches = feed_count;
    delivery_attempts = delivery_count;
    dry_run = dry_run;
    cutoff = cutoff;
  })

-- At the time `now` of the call.
unfoldable pub cleanup_operational_records : ℤ → Bool → ℕ → Action Store CleanupResult
unfolding cutoff_of cleanup_rows
cleanup_operational_records older_than_days dry_run now = do
  cutoff ← lift (cutoff_of now older_than_days)
  transaction (cleanup_rows cutoff dry_run)
