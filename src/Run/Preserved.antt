-- ===== src/Run/Preserved.antt =====
-- The methods of `PipelineRun`: each keeps a run valid, and one that raises changes nothing.
use automation_portfolio.Prelude.{
  ℕ, ◌≤◌, ◌-◌, ◌/◌, ◌≡◌, refl, ◌≢◌, inl, inr, Option, some, arith, true,
}
use automation_portfolio.Prelude.Text.{Text}
use automation_portfolio.Prelude.Int.{ℤ, pos}
use automation_portfolio.Prelude.Time.{Datetime, is_aware, instant, time_or_now}
use automation_portfolio.Prelude.Result.{ok, raise, Result-cases}
use automation_portfolio.Messages.{Exc, value_error, run_not_running}
use automation_portfolio.Enums.{PipelineRunStatus, ErrorCode}
use automation_portfolio.Machine.{ensure_pipeline_run_transition}
use automation_portfolio.Machine.Laws.{
  RunStep, succeed, succeed_partly, find_nothing, fail, allowed-RunStep,
}
use automation_portfolio.Validators.{ensure_utc_datetime}
use automation_portfolio.Run.Entity.{PipelineRun, CounterName, add_to, normalize_error_fields}
use automation_portfolio.Run.Methods.{record_counter, complete}
use automation_portfolio.Run.Invariant.{
  IsValidRun, HasCompletion, validate_counters-IsConsistent, normalize_error_fields-HasErrorFields,
}

-- Adding to any of the seven counters of a valid run leaves a valid run, also where the call
-- raises: no counter gets negative, and the successes, the inserted and duplicate items and the
-- selection stay within their totals.
pub record_counter-IsValidRun :
    (name : CounterName) (n : ℤ) (r : PipelineRun)
    → IsValidRun r
    → IsValidRun (record_counter name n r).1
unfolding record_counter
record_counter-IsValidRun name n r v =
    ground (arith, v, validate_counters-IsConsistent (add_to name n r.counters))

-- A call that raises leaves the run as it was.
pub record_counter_raised :
    (name : CounterName) (n : ℤ) (r : PipelineRun) {e : Exc}
    → (record_counter name n r).0 ≡ raise e
    → (record_counter name n r).1 ≡ r
unfolding record_counter
record_counter_raised name n r h = ground arith

pub complete_raised :
    (target : PipelineRunStatus) (at : Option Datetime) (code : Option ErrorCode)
    (summary : Option Text) (now : ℕ) (r : PipelineRun) {e : Exc}
    → (complete target at code summary now r).0 ≡ raise e
    → (complete target at code summary now r).1 ≡ r
unfolding complete
complete_raised target at code summary now r h = ground arith

RunStep-HasCompletion :
    {a b : PipelineRunStatus} (s t : Datetime) (d : ℕ)
    → RunStep a b
    → is_aware t ≡ true
    → instant s ≤ instant t
    → HasCompletion b s (some t) (some (pos d))
RunStep-HasCompletion s t d succeed h k = (h, k, omega arith)
RunStep-HasCompletion s t d succeed_partly h k = (h, k, omega arith)
RunStep-HasCompletion s t d find_nothing h k = (h, k, omega arith)
RunStep-HasCompletion s t d fail h k = (h, k, omega arith)

RunStep-running : {a b : PipelineRunStatus} → RunStep a b → a ≡ PipelineRunStatus.running
RunStep-running succeed = refl
RunStep-running succeed_partly = refl
RunStep-running find_nothing = refl
RunStep-running fail = refl

-- If complete goes through, the transition is allowed, the error fields are accepted and the time
-- is aware and not before the start; the run then has the target status, that time as its end, the
-- elapsed milliseconds rounded down and the normalized error fields, and is otherwise unchanged.
pub complete-ok :
    (target : PipelineRunStatus) (at : Option Datetime) (code : Option ErrorCode)
    (summary : Option Text) (now : ℕ) (r : PipelineRun)
    → (complete target at code summary now r).0 ≡ ok tt
    → let time = time_or_now at now in
      let d = (instant time - instant r.started_at) / 1000 in
      (c : Option ErrorCode) × (s : Option Text) × (normalize_error_fields target code summary
        ≡ ok (c, s))
      × (ensure_pipeline_run_transition r.status target ≡ ok tt)
      × (is_aware time ≡ true)
      × (instant r.started_at ≤ instant time)
      × ((complete target at code summary now r).1 ≡ record r {
        status = target;
        finished_at = some time;
        duration_ms = some (pos d);
        error_code = c;
        error_summary = s;
      })
unfolding complete ensure_utc_datetime
complete-ok target at code summary now r h =
    elim (Result-cases (normalize_error_fields target code summary)) [
      | inr (_, e) ↦ ground (arith, e)
      | inl ((c, s), e) ↦
          (c, s, e, ground (arith, e), ground (arith, e), ground (arith, e), ground (arith, e))
    ]

-- After any call of PipelineRun.complete on a valid run, whether it raises or not, the run is
-- valid: its counters are consistent, its completion fields fit its status, its end is not before
-- its start, and its error fields fit its status.
pub complete-IsValidRun :
    (target : PipelineRunStatus) (at : Option Datetime) (code : Option ErrorCode)
    (summary : Option Text) (now : ℕ) (r : PipelineRun)
    → IsValidRun r
    → IsValidRun (complete target at code summary now r).1
complete-IsValidRun target at code summary now r v =
    elim (Result-cases (complete target at code summary now r).0) [
      | inr (_, e) ↦ rw (complete_raised target at code summary now r e) v
      | inl (_, e) ↦
          let (c, s, e₁, e₂, e₃, e₄, same) = complete-ok target at code summary now r e in
          rw same (record {
            version = v.version;
            start = v.start;
            consistent = v.consistent;
            completion =
                RunStep-HasCompletion r.started_at (time_or_now at now) _
                  (allowed-RunStep r.status target e₂) e₃ e₄;
            errors = (normalize_error_fields-HasErrorFields target code summary e₁).1;
          })
    ]

-- On a run that is not running, recording any counter raises and changes nothing, and complete
-- does not go through.
pub ended_is_final :
    (name : CounterName) (n : ℤ) (target : PipelineRunStatus) (at : Option Datetime)
    (code : Option ErrorCode) (summary : Option Text) (now : ℕ) (r : PipelineRun)
    → r.status ≢ PipelineRunStatus.running
    → (record_counter name n r ≡ (raise (value_error run_not_running), r))
      × ((complete target at code summary now r).0 ≢ ok tt)
unfolding record_counter
ended_is_final name n target at code summary now r h = (
  ground arith,
  λ e. h (
      RunStep-running
        (allowed-RunStep r.status target (complete-ok target at code summary now r e).3)),
)
