-- ===== src/Tests/Runs.antt =====
-- Runs on concrete inputs.
use automation_portfolio.Prelude.{◌≡◌, refl, none, some, ◌≢◌, ◌≤◌, true, Option}
use automation_portfolio.Prelude.Text.{Text}
use automation_portfolio.Validators.{normalize_bounded_string}
use automation_portfolio.Prelude.Int.{pos}
use automation_portfolio.Prelude.Time.{aware}
use automation_portfolio.Prelude.Result.{ok, raise}
use automation_portfolio.Messages.{value_error, run_not_running}
use automation_portfolio.Enums.{PipelineRunStatus, ErrorCode}
use automation_portfolio.Machine.{ensure_pipeline_run_transition}
use automation_portfolio.Run.{
  CounterName, post_init, record_counter, complete, validate_counters, normalize_error_fields,
}
use automation_portfolio.Run.Invariant.{IsValidRun, post_init-IsValidRun, IsValidRun-post_init}
use automation_portfolio.Run.Preserved.{
  record_counter-IsValidRun, complete-IsValidRun, complete-ok, ended_is_final,
}
use automation_portfolio.Tests.Samples.{started}

pub started-IsValidRun : IsValidRun started
unfolding post_init normalize_bounded_string validate_counters normalize_error_fields
started-IsValidRun = post_init-IsValidRun started refl

post_init-IsValidRun_example : IsValidRun started
unfolding post_init normalize_bounded_string validate_counters normalize_error_fields
post_init-IsValidRun_example = post_init-IsValidRun started refl

IsValidRun-post_init_example : post_init started ≡ ok started
IsValidRun-post_init_example = IsValidRun-post_init started started-IsValidRun

complete-IsValidRun_example :
    IsValidRun (complete PipelineRunStatus.success (some (aware 3000000)) none none 0 started).1
complete-IsValidRun_example =
    complete-IsValidRun PipelineRunStatus.success (some (aware 3000000)) none none 0 started
      started-IsValidRun

-- Twelve fetched feeds, of a run that has counted none: the sum is inconsistent, and it raises.
record_counter-IsValidRun_example :
    IsValidRun (record_counter CounterName.feeds_succeeded (pos 12) started).1
record_counter-IsValidRun_example =
    record_counter-IsValidRun CounterName.feeds_succeeded (pos 12) started started-IsValidRun

complete-ok_example :
    (c : Option ErrorCode) × (s : Option Text) × (normalize_error_fields PipelineRunStatus.success
        none none
      ≡ ok (c, s))
    × (ensure_pipeline_run_transition PipelineRunStatus.running PipelineRunStatus.success ≡ ok tt)
    × (true ≡ true)
    × (1000000 ≤ 3000000)
    × ((complete PipelineRunStatus.success (some (aware 3000000)) none none 0 started).1
        ≡ record started {
          status = PipelineRunStatus.success;
          finished_at = some (aware 3000000);
          duration_ms = some (pos 2000);
          error_code = c;
          error_summary = s;
        })
unfolding complete validate_counters normalize_error_fields ensure_pipeline_run_transition
complete-ok_example =
    complete-ok PipelineRunStatus.success (some (aware 3000000)) none none 0 started refl

ended_is_final_example :
    (record_counter CounterName.feeds_total
        (pos 1)
        (record started { status = PipelineRunStatus.failed })
      ≡ (raise (value_error run_not_running), record started { status = PipelineRunStatus.failed }))
    × ((complete PipelineRunStatus.success none none none 5
          (record started { status = PipelineRunStatus.failed })).0
        ≢ ok tt)
ended_is_final_example =
    ended_is_final CounterName.feeds_total (pos 1) PipelineRunStatus.success none none none 5
      (record started { status = PipelineRunStatus.failed }) failed-ne-running
  where
    failed-ne-running : PipelineRunStatus.failed ≢ PipelineRunStatus.running
    failed-ne-running h = cc

complete_two_seconds :
    (complete PipelineRunStatus.success (some (aware 3000000)) none none 0 started).1.duration_ms
    ≡ some (pos 2000)
unfolding complete validate_counters normalize_error_fields ensure_pipeline_run_transition
complete_two_seconds = refl
