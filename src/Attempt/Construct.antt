-- ===== src/Attempt/Construct.antt =====
-- `DeliveryAttempt.__post_init__` and the checks that it calls.
use automation_portfolio.Prelude.{ℕ, Bool, false, not, ◌&&◌, ◌||◌, Option, none, some, is_some}
use automation_portfolio.Prelude.Int.{ℤ, pos, leb_ℤ, eqb_ℤ}
use automation_portfolio.Prelude.Time.{aware, before}
use automation_portfolio.Prelude.Result.{Result, ok, raise, ◌>>=◌, ◌>>◌, raise_if, on_some}
use automation_portfolio.Messages.{
  value_error, delivery_positive_integer_required, delivery_completion_before_start,
  delivery_pending_result_forbidden, delivery_completion_required, delivery_message_id_required,
  delivery_success_http_required, delivery_sent_error_forbidden, delivery_failed_error_required,
  delivery_failed_message_id_forbidden,
}
use automation_portfolio.Enums.{DeliveryStatus}
use automation_portfolio.Validators.{
  ensure_utc_datetime, ensure_non_negative_int, ensure_http_status, normalize_error_code, member,
  normalize_error_summary,
}
use automation_portfolio.Attempt.Entity.{Attempt}

unfoldable pub ensure_positive_int : ℤ → Result (Unit {0})
unfolding ensure_non_negative_int
ensure_positive_int value = do
  _ ← ensure_non_negative_int value
  raise_if (eqb_ℤ value (pos 0)) (value_error delivery_positive_integer_required)

-- `200 <= http_status <= 299`, of a status that is there.
abbrev pub is_success_http : Option ℤ → Bool
is_success_http none = false
is_success_http (some s) = leb_ℤ (pos 200) s && leb_ℤ s (pos 299)

check_pending : Attempt → Result (Unit {0})
check_pending a =
    raise_if
      (is_some a.finished_at
        || is_some a.telegram_message_id
        || is_some a.http_status
        || is_some a.retry_after_seconds
        || is_some a.error_code
        || is_some a.error_summary)
      (value_error delivery_pending_result_forbidden)

check_sent : Attempt → Result (Unit {0})
check_sent a = do
  raise_if (not (is_some a.finished_at)) (value_error delivery_completion_required)
  raise_if (not (is_some a.telegram_message_id)) (value_error delivery_message_id_required)
  raise_if (not (is_success_http a.http_status)) (value_error delivery_success_http_required)
  raise_if (is_some a.retry_after_seconds || is_some a.error_code || is_some a.error_summary)
      (value_error delivery_sent_error_forbidden)

check_failed : Attempt → Result (Unit {0})
check_failed a = do
  raise_if (not (is_some a.finished_at)) (value_error delivery_completion_required)
  raise_if (not (is_some a.error_code)) (value_error delivery_failed_error_required)
  raise_if (is_some a.telegram_message_id) (value_error delivery_failed_message_id_forbidden)

check_status_of : DeliveryStatus → Attempt → Result (Unit {0})
check_status_of DeliveryStatus.pending a = check_pending a
check_status_of DeliveryStatus.sent a = check_sent a
check_status_of DeliveryStatus.failed a = check_failed a

-- `_validate_status_fields`
unfoldable pub validate_status_fields : Attempt → Result (Unit {0})
unfolding check_pending check_sent check_failed check_status_of
validate_status_fields a = check_status_of a.status a

-- The end of `__post_init__`: only a failed attempt has its error fields normalized.
unfoldable pub normalize_failure : DeliveryStatus → Attempt → Result Attempt
unfolding normalize_error_summary
normalize_failure DeliveryStatus.failed a = elim a.error_code [
  | none ↦ raise (value_error delivery_failed_error_required)
  | some c ↦ do
    code ← normalize_error_code (member c)
    summary ← normalize_error_summary a.error_summary
    ok (record a { error_code = some code; error_summary = summary })
]
normalize_failure _ a = ok a

unfoldable pub check_times : Attempt → Result (Unit {0})
unfolding ensure_utc_datetime
check_times a =
    on_some
      (λ finished. do
        ensure_utc_datetime finished
        raise_if (before finished a.started_at) (value_error delivery_completion_before_start))
      a.finished_at

unfoldable pub check_numbers : Attempt → Result (Unit {0})
unfolding ensure_non_negative_int ensure_http_status ensure_positive_int
check_numbers a = do
  on_some (λ s. ensure_http_status s >>= λ _. ok tt) a.http_status
  on_some (λ s. ensure_non_negative_int s >>= λ _. ok tt) a.retry_after_seconds
  on_some ensure_positive_int a.telegram_message_id

unfoldable pub post_init : Attempt → Result Attempt
unfolding validate_status_fields normalize_failure check_times check_numbers ensure_positive_int
    ensure_utc_datetime
post_init a = do
  ensure_positive_int a.part_number
  ensure_positive_int a.attempt_number
  ensure_utc_datetime a.started_at
  check_times a
  check_numbers a
  validate_status_fields a
  normalize_failure a.status a

-- `DeliveryAttempt(digest_id=…, part_number=…, attempt_number=…)`
unfoldable pub new_attempt : ℕ → ℤ → ℤ → ℕ → ℕ → Result Attempt
unfolding post_init
new_attempt digest_id part attempt id now = post_init (record {
  digest_id = digest_id;
  part_number = part;
  attempt_number = attempt;
  id = id;
  status = DeliveryStatus.pending;
  telegram_message_id = none;
  http_status = none;
  retry_after_seconds = none;
  error_code = none;
  error_summary = none;
  started_at = aware now;
  finished_at = none;
})
