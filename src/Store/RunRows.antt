-- ===== src/Store/RunRows.antt =====
-- What `PipelineRunRepository.save` does to the rows of runs.
use automation_portfolio.Prelude.{
  ◌≡◌, refl, ◌≢◌, ◌⊎◌, inl, inr, Bool-cases, Option-cases, arith, some, true,
}
use automation_portfolio.Prelude.Result.{ok, Result-cases}
use automation_portfolio.Enums.{PipelineRunStatus}
use automation_portfolio.Machine.{ensure_pipeline_run_transition}
use automation_portfolio.Machine.Laws.{RunStep, allowed-RunStep}
use automation_portfolio.Run.{PipelineRun, post_init, is_running}
use automation_portfolio.Store.Rows.{Store, find}
use automation_portfolio.Store.Runs.{
  save_run, save_found_run, save_running, save_completed, same_run, run_status_eq, with_progress,
}
use automation_portfolio.Store.Change.{Each, Each-refl, Each-update}

-- A row keeps its identity, its status moves along an edge of the diagram or not at all, and once
-- the run has ended the row stays as it is.
pub record RunChange (before after : PipelineRun) : Type 0 where
  pub same_id : after.id ≡ before.id
  pub same_trigger : after.trigger_type ≡ before.trigger_type
  pub same_version : after.app_version ≡ before.app_version
  pub same_start : after.started_at ≡ before.started_at
  pub edge : (after.status ≡ before.status) ⊎ RunStep before.status after.status
  pub final : before.status ≢ PipelineRunStatus.running → after ≡ before

RunChange-refl : (r : PipelineRun) → RunChange r r
RunChange-refl r = record {
  same_id = refl;
  same_trigger = refl;
  same_version = refl;
  same_start = refl;
  edge = inl refl;
  final = λ h. refl;
}

run_status_eq_sound : (a b : PipelineRunStatus) → run_status_eq a b ≡ true → b ≡ a
unfolding run_status_eq
run_status_eq_sound PipelineRunStatus.running PipelineRunStatus.running h = refl
run_status_eq_sound PipelineRunStatus.success PipelineRunStatus.success h = refl
run_status_eq_sound PipelineRunStatus.partial_success PipelineRunStatus.partial_success h = refl
run_status_eq_sound PipelineRunStatus.no_content PipelineRunStatus.no_content h = refl
run_status_eq_sound PipelineRunStatus.failed PipelineRunStatus.failed h = refl
run_status_eq_sound PipelineRunStatus.skipped_locked PipelineRunStatus.skipped_locked h = refl
run_status_eq_sound _ _ h = cc

-- What is written to a row that is running.
RunChange-with_progress :
    (v row : PipelineRun)
    → is_running row.status ≡ true
    → (run_status_eq row.status v.status ≡ true)
      ⊎ (ensure_pipeline_run_transition row.status v.status ≡ ok tt)
    → RunChange row (with_progress v row)
RunChange-with_progress v row h k = record {
  same_id = refl;
  same_trigger = refl;
  same_version = refl;
  same_start = refl;
  edge = elim k [
    | inl same ↦ inl (run_status_eq_sound row.status v.status same)
    | inr allowed ↦ inr (allowed-RunStep row.status v.status allowed)
  ];
  final = λ n. absurd (n (ground arith));
}

abbrev Changed : Store → Store → Type 0
Changed before after = Each RunChange before.runs after.runs

save_running-Changed :
    (v model : PipelineRun) (s : Store)
    → find (λ r. r.id) v.id s.runs ≡ some model
    → is_running model.status ≡ true
    → Changed s (save_running v model s).1
unfolding save_running
save_running-Changed v model s e h = elim (Bool-cases (run_status_eq model.status v.status)) [
  | inl same ↦ rw same (
      Each-update RunChange (λ r. r.id) v.id (with_progress v) s.runs model RunChange-refl e
        (RunChange-with_progress v model h (inl same)))
  | inr differs ↦ elim (Result-cases (ensure_pipeline_run_transition model.status v.status)) [
    | inr (_, refused) ↦ rw (differs, refused) (Each-refl RunChange RunChange-refl s.runs)
    | inl (_, allowed) ↦
        rw (differs, allowed)
          (Each-update RunChange (λ r. r.id) v.id (with_progress v) s.runs model RunChange-refl e
            (RunChange-with_progress v model h (inr allowed)))
  ]
]

save_completed-same : (v model : PipelineRun) (s : Store) → (save_completed v model s).1 ≡ s
unfolding save_completed
save_completed-same v model s = elim (Result-cases (post_init model)) [
  | inr (_, e) ↦ ground (arith, e)
  | inl (m, e) ↦ ground (arith, e)
]

-- Saving a run, whether it raises or not, keeps the rows of runs one by one: each keeps its id,
-- trigger, version and start, its status stays or moves along an edge of the diagram, and the row
-- of a run that has ended stays as it is.
pub save_run-Changed : (r : PipelineRun) (s : Store) → Each RunChange s.runs (save_run r s).1.runs
unfolding save_run save_found_run
save_run-Changed r s = elim (Result-cases (post_init r)) [
  | inr (_, e) ↦ rw e (Each-refl RunChange RunChange-refl s.runs)
  | inl (v, e) ↦ elim (Option-cases (find (λ r. r.id) v.id s.runs)) [
    | inl missing ↦ rw (e, missing) (Each-refl RunChange RunChange-refl s.runs)
    | inr (model, found) ↦
        rw (e, found)
          (elim (Bool-cases (same_run model v)) [
            | inr other ↦ rw other (Each-refl RunChange RunChange-refl s.runs)
            | inl same ↦ elim (Bool-cases (is_running model.status)) [
              | inl open_row ↦ rw (same, open_row) (save_running-Changed v model s found open_row)
              | inr ended ↦
                  rw (same, ended, save_completed-same v model s)
                    (Each-refl RunChange RunChange-refl s.runs)
            ]
          ])
  ]
]
