-- ===== src/Pipeline/Recorded.antt =====
-- The completion of a run that failed, and how it is saved.
use automation_portfolio.Prelude.{
  ℕ, ◌≤◌, ◌≡◌, refl, ◌∙◌, ap, true, false, none, some, List, [], ◌∷◌, ◌==◌, inl, inr, Bool-cases,
  arith,
}
use automation_portfolio.Prelude.Text.{Text, codes}
use automation_portfolio.Prelude.Text.Laws.{text_eq_refl}
use automation_portfolio.Prelude.Time.{Datetime, instant, naive, aware}
use automation_portfolio.Prelude.Result.{ok}
use automation_portfolio.Enums.{PipelineRunStatus, ErrorCode, TriggerType}
use automation_portfolio.Machine.{ensure_pipeline_run_transition}
use automation_portfolio.Machine.Laws.{RunStep-allowed, fail}
use automation_portfolio.Validators.{ensure_utc_datetime}
use automation_portfolio.Run.{PipelineRun, complete, post_init, is_running, normalize_error_fields}
use automation_portfolio.Run.Invariant.{
  IsValidRun, IsValidRun-post_init, IsConsistent-validate_counters,
}
use automation_portfolio.Store.{
  Store, find, update, save_run, same_run, with_progress, trigger_eq, save_found_run, save_running,
  run_status_eq,
}
use automation_portfolio.Store.Equal.{datetime_eq}

-- The row of a run that is running.
pub record IsStored (run row : PipelineRun) : Type 0 where
  pub same_id : row.id ≡ run.id
  pub same_trigger : row.trigger_type ≡ run.trigger_type
  pub same_version : row.app_version ≡ run.app_version
  pub same_start : row.started_at ≡ run.started_at
  pub running : row.status ≡ PipelineRunStatus.running

trigger_eq_refl : (t : TriggerType) → trigger_eq t t ≡ true
unfolding trigger_eq
trigger_eq_refl TriggerType.scheduled = refl
trigger_eq_refl TriggerType.manual = refl
trigger_eq_refl TriggerType.dry_run = refl

datetime_eq_refl : (t : Datetime) → datetime_eq t t ≡ true
unfolding datetime_eq
datetime_eq_refl (naive n) = ground arith
datetime_eq_refl (aware n) = ground arith

same_run_refl : (r : PipelineRun) → same_run r r ≡ true
unfolding same_run
same_run_refl r =
    rw (trigger_eq_refl r.trigger_type, text_eq_refl r.app_version, datetime_eq_refl r.started_at)
      refl

pub find-update :
    (id : ℕ) (change : PipelineRun → PipelineRun) (rows : List PipelineRun) (row : PipelineRun)
    → find (λ r. r.id) id rows ≡ some row
    → ((r : PipelineRun) → (change r).id ≡ r.id)
    → find (λ r. r.id) id (update (λ r. r.id) id change rows) ≡ some (change row)
unfolding find update
find-update id change [] row e k = cc
find-update id change (x ∷ xs) row e k = elim (Bool-cases (x.id == id)) [
  | inl here ↦ ground (arith, here, e, k x)
  | inr there ↦ ground (arith, there, e, find-update id change xs row)
]

abbrev pub unexpected : Text
unexpected = codes "Pipeline stopped because of an unexpected internal error."

normalized :
    normalize_error_fields PipelineRunStatus.failed
      (some ErrorCode.unexpected_pipeline_failure)
      (some unexpected)
    ≡ ok (some ErrorCode.unexpected_pipeline_failure, some unexpected)
unfolding normalize_error_fields automation_portfolio.Validators.normalize_error_code
normalized = refl

-- The completion that `except Exception` asks for goes through.
pub complete-through :
    (now : ℕ) (r : PipelineRun)
    → IsValidRun r
    → r.status ≡ PipelineRunStatus.running
    → instant r.started_at ≤ now
    → (complete PipelineRunStatus.failed none
        (some ErrorCode.unexpected_pipeline_failure)
        (some unexpected)
        now
        r).0
      ≡ ok tt
unfolding complete ensure_utc_datetime
complete-through now r v h k = ground (
  arith,
  h,
  k,
  IsConsistent-validate_counters r.counters v.consistent,
  normalized,
  RunStep-allowed fail,
)

with_progress-row :
    (x row : PipelineRun)
    → row.id ≡ x.id
    → row.trigger_type ≡ x.trigger_type
    → row.app_version ≡ x.app_version
    → row.started_at ≡ x.started_at
    → with_progress x row ≡ x
with_progress-row x row h₁ h₂ h₃ h₄ = rw (h₁, h₂, h₃, h₄) refl

same_run-stored : (x row : PipelineRun) → IsStored x row → same_run row x ≡ true
unfolding same_run
same_run-stored x row stored =
    rw (stored.same_trigger, stored.same_version, stored.same_start) (same_run_refl x)

status_differs :
    (a b : PipelineRunStatus)
    → a ≡ PipelineRunStatus.running
    → b ≡ PipelineRunStatus.failed
    → (run_status_eq a b ≡ false) × (ensure_pipeline_run_transition a b ≡ ok tt)
unfolding run_status_eq
status_differs a b h k = (rw (h, k) refl, rw (h, k) (RunStep-allowed fail))

save_running-through :
    (x row : PipelineRun) (s : Store)
    → row.status ≡ PipelineRunStatus.running
    → x.status ≡ PipelineRunStatus.failed
    → save_running x row s ≡ (
      post_init (with_progress x row),
      record s { runs = update (λ r. r.id) x.id (with_progress x) s.runs },
    )
unfolding save_running
save_running-through x row s h k =
    let (differs, allowed) = status_differs row.status x.status h k in rw (differs, allowed) refl

-- A failed run is saved over its row.
pub save_run-through :
    (x row : PipelineRun) (s : Store)
    → IsValidRun x
    → x.status ≡ PipelineRunStatus.failed
    → IsStored x row
    → find (λ r. r.id) x.id s.runs ≡ some row
    → save_run x s ≡ (ok x, record s { runs = update (λ r. r.id) x.id (with_progress x) s.runs })
unfolding save_run save_found_run
save_run-through x row s v h stored found =
    let same : same_run row x ≡ true = same_run-stored x row stored in
    let open_row : is_running row.status ≡ true = ap is_running stored.running in
    let restored =
      ap post_init (
        with_progress-row x row stored.same_id stored.same_trigger stored.same_version
          stored.same_start)
      ∙ IsValidRun-post_init x v in
    rw (IsValidRun-post_init x v, found, same, open_row)
      (save_running-through x row s stored.running h
        ∙ ap (λ r. (r, record s { runs = update (λ r. r.id) x.id (with_progress x) s.runs }))
            restored)
