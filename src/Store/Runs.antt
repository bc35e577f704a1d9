-- ===== src/Store/Runs.antt =====
-- `PipelineRunRepository`.
use automation_portfolio.Prelude.{
  ℕ, Bool, true, false, not, ◌&&◌, ◌||◌, Option, none, some, [], ◌∷◌, ◌++◌, ◌==◌, leb,
  if◌then◌else◌, any,
}
use automation_portfolio.Prelude.Text.{codes, text_eq}
use automation_portfolio.Prelude.Int.{eqb_ℤ}
use automation_portfolio.Prelude.Time.{instant, before}
use automation_portfolio.Prelude.Sort.{sort}
use automation_portfolio.Prelude.Result.{Result, ok, raise, raise_if}
use automation_portfolio.Prelude.Result
use automation_portfolio.Prelude.Action.{Action, ◌>>=◌, ◌>>◌, lift, get, modify}
use automation_portfolio.Messages.{
  value_error, lookup_error, integrity_error, integrity_violated, run_not_found,
  run_identity_mismatch, run_terminal_update_forbidden,
}
use automation_portfolio.Enums.{TriggerType, PipelineRunStatus, error_code_value}
use automation_portfolio.Machine.{ensure_pipeline_run_transition}
use automation_portfolio.Run.{PipelineRun, Counters, post_init, is_running}
use automation_portfolio.Store.Equal.{datetime_eq, option_eq}
use automation_portfolio.Store.Rows.{Store, find, update, first}

unfoldable pub trigger_eq : TriggerType → TriggerType → Bool
trigger_eq TriggerType.scheduled TriggerType.scheduled = true
trigger_eq TriggerType.manual TriggerType.manual = true
trigger_eq TriggerType.dry_run TriggerType.dry_run = true
trigger_eq _ _ = false

unfoldable pub run_status_eq : PipelineRunStatus → PipelineRunStatus → Bool
run_status_eq PipelineRunStatus.running PipelineRunStatus.running = true
run_status_eq PipelineRunStatus.success PipelineRunStatus.success = true
run_status_eq PipelineRunStatus.partial_success PipelineRunStatus.partial_success = true
run_status_eq PipelineRunStatus.no_content PipelineRunStatus.no_content = true
run_status_eq PipelineRunStatus.failed PipelineRunStatus.failed = true
run_status_eq PipelineRunStatus.skipped_locked PipelineRunStatus.skipped_locked = true
run_status_eq _ _ = false

counters_eq : Counters → Counters → Bool
counters_eq a b =
    eqb_ℤ a.feeds_total b.feeds_total
    && eqb_ℤ a.feeds_succeeded b.feeds_succeeded
    && eqb_ℤ a.items_fetched b.items_fetched
    && eqb_ℤ a.items_inserted b.items_inserted
    && eqb_ℤ a.items_duplicate b.items_duplicate
    && eqb_ℤ a.candidates_count b.candidates_count
    && eqb_ℤ a.selected_count b.selected_count

-- `model.trigger_type != validated.trigger_type or …`, negated
unfoldable pub same_run : PipelineRun → PipelineRun → Bool
unfolding trigger_eq datetime_eq text_eq
same_run a b =
    trigger_eq a.trigger_type b.trigger_type
    && text_eq a.app_version b.app_version
    && datetime_eq a.started_at b.started_at

-- `stored == validated`
unfoldable pub run_eq : PipelineRun → PipelineRun → Bool
unfolding same_run option_eq datetime_eq counters_eq run_status_eq text_eq
run_eq a b =
    same_run a b
    && (a.id == b.id)
    && run_status_eq a.status b.status
    && counters_eq a.counters b.counters
    && option_eq datetime_eq a.finished_at b.finished_at
    && option_eq (λ x y. text_eq (codes (error_code_value x)) (codes (error_code_value y)))
        a.error_code b.error_code
    && option_eq text_eq a.error_summary b.error_summary
    && option_eq eqb_ℤ a.duration_ms b.duration_ms

unfoldable pub add_run : PipelineRun → Action Store PipelineRun
add_run run = do
  validated ← lift (post_init run)
  store ← get
  lift (raise_if (any (λ r. r.id == validated.id) store.runs) (integrity_error integrity_violated))
  modify (λ s. record s { runs = s.runs ++ (validated ∷ []) })
  lift (post_init validated)

run_of : Option PipelineRun → Result (Option PipelineRun)
run_of none = ok none
run_of (some row) = Result.◌>>=◌ (post_init row) (λ r. ok (some r))

unfoldable pub get_run : ℕ → Action Store (Option PipelineRun)
unfolding run_of find
get_run run_id = do store ← get; lift (run_of (find (λ r. r.id) run_id store.runs))

-- `order_by(started_at.desc(), id.desc())`
abbrev latest_first : PipelineRun → PipelineRun → Bool
latest_first a b =
    before b.started_at a.started_at
    || ((instant a.started_at == instant b.started_at) && leb b.id a.id)

unfoldable pub get_latest_run : Action Store (Option PipelineRun)
unfolding run_of sort
get_latest_run = do store ← get; lift (run_of (first (sort latest_first store.runs)))

-- The columns that `save` writes.
abbrev pub with_progress : PipelineRun → PipelineRun → PipelineRun
with_progress validated row = record row {
  status = validated.status;
  finished_at = validated.finished_at;
  counters = validated.counters;
  error_code = validated.error_code;
  error_summary = validated.error_summary;
  duration_ms = validated.duration_ms;
}

-- `save`, once its row is found: for a row that is running, and for one that is not.
unfoldable pub save_running : PipelineRun → PipelineRun → Action Store PipelineRun
unfolding update run_status_eq
save_running validated model = do
  lift (
      if run_status_eq model.status validated.status
      then ok tt
      else ensure_pipeline_run_transition model.status validated.status)
  modify (λ s. record s { runs = update (λ r. r.id) validated.id (with_progress validated) s.runs })
  lift (post_init (with_progress validated model))

unfoldable pub save_completed : PipelineRun → PipelineRun → Action Store PipelineRun
unfolding run_eq
save_completed validated model = do
  stored ← lift (post_init model)
  lift (raise_if (not (run_eq stored validated)) (value_error run_terminal_update_forbidden))
  lift (ok stored)

unfoldable pub save_found_run : Bool → PipelineRun → PipelineRun → Action Store PipelineRun
unfolding save_running save_completed
save_found_run true validated model = save_running validated model
save_found_run false validated model = save_completed validated model

unfoldable pub save_run : PipelineRun → Action Store PipelineRun
unfolding find same_run save_found_run
save_run run = do
  validated ← lift (post_init run)
  store ← get
  elim (find (λ r. r.id) validated.id store.runs) [
    | none ↦ lift (raise (lookup_error run_not_found))
    | some model ↦ do
      lift (raise_if (not (same_run model validated)) (value_error run_identity_mismatch))
      save_found_run (is_running model.status) validated model
  ]
