-- ===== src/Run/Construct.antt =====
-- `PipelineRun.__post_init__` and `PipelineRun.create_skipped_locked`.
use automation_portfolio.Prelude.{ℕ, ◌||◌, Option, none, some, if◌then◌else◌, is_some}
use automation_portfolio.Prelude.Text.{Text}
use automation_portfolio.Prelude.Int.{ℤ, pos}
use automation_portfolio.Prelude.Time.{Datetime, aware, before, time_or_now}
use automation_portfolio.Prelude.Result.{Result, ok, raise, ◌>>=◌, ◌>>◌, raise_if}
use automation_portfolio.Messages.{
  value_error, run_running_completion_forbidden, run_completion_required,
  run_completion_before_start,
}
use automation_portfolio.Enums.{TriggerType, PipelineRunStatus}
use automation_portfolio.Validators.{
  ensure_utc_datetime, ensure_non_negative_int, normalize_bounded_string,
}
use automation_portfolio.Run.Entity.{
  PipelineRun, zero_counters, validate_counters, normalize_error_fields, is_running,
}

-- The `else` branch: a run that is not running has its completion data.
check_completed : Datetime → Option Datetime → Option ℤ → Result (Unit {0})
unfolding ensure_utc_datetime ensure_non_negative_int
check_completed started (some finished) (some duration) = do
  ensure_utc_datetime finished
  raise_if (before finished started) (value_error run_completion_before_start)
  _ ← ensure_non_negative_int duration
  ok tt
check_completed started _ _ = raise (value_error run_completion_required)

unfoldable pub check_completion : PipelineRun → Result (Unit {0})
unfolding check_completed
check_completion r =
    if is_running r.status
    then raise_if (is_some r.finished_at || is_some r.duration_ms)
        (value_error run_running_completion_forbidden)
    else check_completed r.started_at r.finished_at r.duration_ms

unfoldable pub post_init : PipelineRun → Result PipelineRun
unfolding check_completion ensure_utc_datetime
post_init r = do
  version ← normalize_bounded_string r.app_version 1 64
  ensure_utc_datetime r.started_at
  validate_counters r.counters
  check_completion r
  (code, summary) ← normalize_error_fields r.status r.error_code r.error_summary
  ok (record r { app_version = version; error_code = code; error_summary = summary })

-- `PipelineRun(trigger_type=…, app_version=…)`, with the drawn id and the time of the call.
unfoldable pub new_run : TriggerType → Text → ℕ → ℕ → Result PipelineRun
unfolding post_init
new_run trigger version id now = post_init (record {
  trigger_type = trigger;
  app_version = version;
  id = id;
  status = PipelineRunStatus.running;
  started_at = aware now;
  finished_at = none;
  counters = zero_counters;
  error_code = none;
  error_summary = none;
  duration_ms = none;
})

unfoldable pub create_skipped_locked :
    TriggerType → Text → Option Datetime → ℕ → ℕ → Result PipelineRun
unfolding post_init ensure_utc_datetime
create_skipped_locked trigger version occurred_at id now = do
  let timestamp = time_or_now occurred_at now
  ensure_utc_datetime timestamp
  post_init (record {
    trigger_type = trigger;
    app_version = version;
    id = id;
    status = PipelineRunStatus.skipped_locked;
    started_at = timestamp;
    finished_at = some timestamp;
    counters = zero_counters;
    error_code = none;
    error_summary = none;
    duration_ms = some (pos 0);
  })
