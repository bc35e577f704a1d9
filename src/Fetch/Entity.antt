-- ===== src/Fetch/Entity.antt =====
-- The fields of `FeedFetch` and its `__post_init__`. The record is frozen: it has no methods.
use automation_portfolio.Prelude.{ℕ, Bool, false, not, ◌&&◌, ◌||◌, Option, none, some, is_some}
use automation_portfolio.Prelude.Text.{Text}
use automation_portfolio.Prelude.Int.{ℤ, pos, leb_ℤ, eqb_ℤ}
use automation_portfolio.Prelude.Time.{Datetime, before}
use automation_portfolio.Prelude.Result.{Result, ok, raise, ◌>>=◌, ◌>>◌, raise_if, on_some}
use automation_portfolio.Messages.{
  value_error, fetch_completion_before_start, fetch_not_modified_http_required,
  fetch_not_modified_entries_forbidden, fetch_success_http_required, fetch_error_forbidden,
  fetch_error_required,
}
use automation_portfolio.Enums.{FeedFetchStatus, ErrorCode}
use automation_portfolio.Validators.{
  ensure_utc_datetime, ensure_non_negative_int, ensure_http_status, normalize_error_code, member,
  normalize_error_summary,
}

pub record FeedFetch : Type 0 where
  pub run_id : ℕ
  pub source_id : ℕ
  pub status : FeedFetchStatus
  pub started_at : Datetime
  pub finished_at : Datetime
  pub id : ℕ
  pub http_status : Option ℤ
  pub entries_count : ℤ
  pub duration_ms : ℤ
  pub error_code : Option ErrorCode
  pub error_summary : Option Text

-- `self.http_status == code`, of a status that is there.
abbrev pub is_http : ℤ → Option ℤ → Bool
is_http code none = false
is_http code (some s) = eqb_ℤ s code

abbrev pub is_success_http : Option ℤ → Bool
is_success_http none = false
is_success_http (some s) = leb_ℤ (pos 200) s && leb_ℤ s (pos 299)

check_failure : FeedFetch → Result FeedFetch
unfolding normalize_error_summary
check_failure f = elim f.error_code [
  | none ↦ raise (value_error fetch_error_required)
  | some c ↦ do
    code ← normalize_error_code (member c)
    summary ← normalize_error_summary f.error_summary
    ok (record f { error_code = some code; error_summary = summary })
]

forbid_error : FeedFetch → Result (Unit {0})
forbid_error f =
    raise_if (is_some f.error_code || is_some f.error_summary) (value_error fetch_error_forbidden)

unfoldable pub check_outcome : FeedFetchStatus → FeedFetch → Result FeedFetch
unfolding check_failure forbid_error
check_outcome FeedFetchStatus.failed f = check_failure f
check_outcome FeedFetchStatus.not_modified f = do
  forbid_error f
  raise_if (not (is_http (pos 304) f.http_status)) (value_error fetch_not_modified_http_required)
  raise_if (not (eqb_ℤ f.entries_count (pos 0))) (value_error fetch_not_modified_entries_forbidden)
  ok f
check_outcome FeedFetchStatus.success f = do
  forbid_error f
  raise_if (not (is_success_http f.http_status)) (value_error fetch_success_http_required)
  ok f

unfoldable pub post_init : FeedFetch → Result FeedFetch
unfolding check_outcome ensure_utc_datetime ensure_non_negative_int ensure_http_status
post_init f = do
  ensure_utc_datetime f.started_at
  ensure_utc_datetime f.finished_at
  raise_if (before f.finished_at f.started_at) (value_error fetch_completion_before_start)
  _ ← ensure_non_negative_int f.entries_count
  _ ← ensure_non_negative_int f.duration_ms
  on_some (λ s. ensure_http_status s >>= λ _. ok tt) f.http_status
  check_outcome f.status f
