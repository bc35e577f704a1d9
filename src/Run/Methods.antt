-- ===== src/Run/Methods.antt =====
-- The methods that change a `PipelineRun`. `now` is what `utc_now()` gives.
use automation_portfolio.Prelude.{ℕ, not, ◌-◌, ◌/◌, Option, some}
use automation_portfolio.Prelude.Text.{Text}
use automation_portfolio.Prelude.Int.{ℤ, pos}
use automation_portfolio.Prelude.Time.{Datetime, before, instant, time_or_now}
use automation_portfolio.Prelude.Result.{raise_if}
use automation_portfolio.Prelude.Action.{Action, ◌>>=◌, ◌>>◌, lift, get, modify}
use automation_portfolio.Messages.{value_error, run_not_running, run_completion_before_start}
use automation_portfolio.Enums.{PipelineRunStatus, ErrorCode}
use automation_portfolio.Machine.{ensure_pipeline_run_transition}
use automation_portfolio.Validators.{ensure_utc_datetime, ensure_non_negative_int}
use automation_portfolio.Run.Entity.{
  PipelineRun, CounterName, add_to, validate_counters, normalize_error_fields, is_running,
}

-- Of the snapshot only the named counter differs from the run's, so that assigning the snapshot is
-- the same as `setattr(self, counter_name, counters[counter_name])`.
unfoldable pub record_counter : CounterName → ℤ → Action PipelineRun (Unit {0})
unfolding ensure_non_negative_int
record_counter name count = do
  self ← get
  lift (raise_if (not (is_running self.status)) (value_error run_not_running))
  validated ← lift (ensure_non_negative_int count)
  let snapshot = add_to name validated self.counters
  lift (validate_counters snapshot)
  modify (λ r. record r { counters = snapshot })

abbrev pub record_feed_attempt : Action PipelineRun (Unit {0})
record_feed_attempt = record_counter CounterName.feeds_total (pos 1)

abbrev pub record_feed_success : Action PipelineRun (Unit {0})
record_feed_success = record_counter CounterName.feeds_succeeded (pos 1)

abbrev pub record_items_fetched : ℤ → Action PipelineRun (Unit {0})
record_items_fetched = record_counter CounterName.items_fetched

abbrev pub record_item_inserted : Action PipelineRun (Unit {0})
record_item_inserted = record_counter CounterName.items_inserted (pos 1)

abbrev pub record_item_duplicate : Action PipelineRun (Unit {0})
record_item_duplicate = record_counter CounterName.items_duplicate (pos 1)

abbrev pub record_candidates : ℤ → Action PipelineRun (Unit {0})
record_candidates = record_counter CounterName.candidates_count

abbrev pub record_selected : ℤ → Action PipelineRun (Unit {0})
record_selected = record_counter CounterName.selected_count

-- `completion_time - started_at` is not negative where it is taken, so `-` on ℕ is exact.
unfoldable pub complete :
    PipelineRunStatus
    → Option Datetime
    → Option ErrorCode
    → Option Text
    → ℕ
    → Action PipelineRun (Unit {0})
unfolding ensure_utc_datetime
complete target finished_at code summary now = do
  self ← get
  let time = time_or_now finished_at now
  lift (ensure_utc_datetime time)
  lift (raise_if (before time self.started_at) (value_error run_completion_before_start))
  lift (validate_counters self.counters)
  (normalized_code, normalized_summary) ← lift (normalize_error_fields target code summary)
  lift (ensure_pipeline_run_transition self.status target)
  let duration = (instant time - instant self.started_at) / 1000
  modify (λ r. record r {
    status = target;
    finished_at = some time;
    duration_ms = some (pos duration);
    error_code = normalized_code;
    error_summary = normalized_summary;
  })
