-- ===== src/Source/Methods.antt =====
-- `record_fetch_success` and `record_fetch_failure`.
use automation_portfolio.Prelude.{Option, some}
use automation_portfolio.Prelude.Text.{Text}
use automation_portfolio.Prelude.Int.{pos, ◌+ℤ◌}
use automation_portfolio.Prelude.Time.{Datetime}
use automation_portfolio.Prelude.Action.{Action, ◌>>=◌, ◌>>◌, lift, get, modify}
use automation_portfolio.Validators.{ensure_utc_datetime, ensure_non_negative_int}
use automation_portfolio.Source.Entity.{Source, validate_header}

unfoldable pub record_fetch_success :
    Datetime → Option Text → Option Text → Action Source (Unit {0})
unfolding ensure_utc_datetime validate_header
record_fetch_success checked_at etag last_modified = do
  lift (ensure_utc_datetime checked_at)
  validated_etag ← lift (validate_header etag)
  validated_last_modified ← lift (validate_header last_modified)
  modify (λ s. record s {
    last_checked_at = some checked_at;
    last_success_at = some checked_at;
    etag = validated_etag;
    last_modified = validated_last_modified;
    consecutive_failures = pos 0;
    updated_at = checked_at;
  })

unfoldable pub record_fetch_failure : Datetime → Action Source (Unit {0})
unfolding ensure_utc_datetime ensure_non_negative_int
record_fetch_failure checked_at = do
  lift (ensure_utc_datetime checked_at)
  self ← get
  failures ← lift (ensure_non_negative_int self.consecutive_failures)
  modify (λ s. record s {
    last_checked_at = some checked_at;
    consecutive_failures = failures +ℤ pos 1;
    updated_at = checked_at;
  })
