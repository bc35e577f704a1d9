-- ===== src/Attempt/Methods.antt =====
-- `mark_sent` and `mark_failed`. `replace` builds the completed attempt, which runs the checks of
-- the constructor; only then are the result fields assigned.
use automation_portfolio.Prelude.{ℕ, not, Option, none, some}
use automation_portfolio.Prelude.Text.{Text}
use automation_portfolio.Prelude.Int.{ℤ}
use automation_portfolio.Prelude.Time.{Datetime, time_or_now}
use automation_portfolio.Prelude.Result.{raise_if}
use automation_portfolio.Prelude.Action.{Action, ◌>>=◌, ◌>>◌, lift, get, modify}
use automation_portfolio.Messages.{value_error, delivery_pending_required}
use automation_portfolio.Enums.{DeliveryStatus, ErrorCode}
use automation_portfolio.Attempt.Entity.{Attempt, is_pending}
use automation_portfolio.Attempt.Construct.{post_init}

-- `_apply_result`
apply_result : Attempt → Action Attempt (Unit {0})
apply_result result = modify (λ a. record a {
  status = result.status;
  telegram_message_id = result.telegram_message_id;
  http_status = result.http_status;
  retry_after_seconds = result.retry_after_seconds;
  error_code = result.error_code;
  error_summary = result.error_summary;
  finished_at = result.finished_at;
})

-- `_ensure_pending`
ensure_pending : Action Attempt (Unit {0})
ensure_pending = do
  self ← get
  lift (raise_if (not (is_pending self.status)) (value_error delivery_pending_required))

unfoldable pub mark_sent : ℤ → Option Datetime → ℤ → ℕ → Action Attempt (Unit {0})
unfolding apply_result ensure_pending
mark_sent message_id finished_at http_status now = do
  ensure_pending
  self ← get
  result ← lift (
      post_init (record self {
        status = DeliveryStatus.sent;
        telegram_message_id = some message_id;
        http_status = some http_status;
        retry_after_seconds = none;
        error_code = none;
        error_summary = none;
        finished_at = some (time_or_now finished_at now);
      }))
  apply_result result

unfoldable pub mark_failed :
    ErrorCode → Option Text → Option ℤ → Option ℤ → Option Datetime → ℕ → Action Attempt (Unit {0})
unfolding apply_result ensure_pending
mark_failed code summary http_status retry_after finished_at now = do
  ensure_pending
  self ← get
  result ← lift (
      post_init (record self {
        status = DeliveryStatus.failed;
        telegram_message_id = none;
        http_status = http_status;
        retry_after_seconds = retry_after;
        error_code = some code;
        error_summary = summary;
        finished_at = some (time_or_now finished_at now);
      }))
  apply_result result
