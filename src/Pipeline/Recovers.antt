-- ===== src/Pipeline/Recovers.antt =====
-- An exception in the body of a run leaves a failed run, in memory and in the database.
use automation_portfolio.Prelude.{ℕ, ◌≤◌, ◌≡◌, refl, sym, ◌∙◌, ap, true, Option, none, some, []}
use mathlib.Core.Path.{subst}
use automation_portfolio.Prelude.Time.{instant}
use automation_portfolio.Prelude.Result.{Result, ok, raise}
use automation_portfolio.Messages.{Exc}
use automation_portfolio.Enums.{PipelineRunStatus, ErrorCode}
use automation_portfolio.Run.{PipelineRun, complete, is_running}
use automation_portfolio.Run.Invariant.{IsValidRun}
use automation_portfolio.Run.Preserved.{complete-ok, complete-IsValidRun}
use automation_portfolio.Store.{find, update, save_run, with_progress}
use automation_portfolio.Delivery.{Outside}
use automation_portfolio.Pipeline.Flow.{
  Surroundings, PipelineSettings, FlowState, Flow, ◌>>=◌, return, the_run, on_run, on_store,
  on_world, in_transaction,
}
use automation_portfolio.Pipeline.Service.{
  PipelineRunOutcome, outcome, complete_run, save_current, end_run, handle, guarded,
}
use automation_portfolio.Pipeline.Recorded.{
  IsStored, complete-through, save_run-through, find-update, unexpected,
}

module _ {o : Outside} where
  -- A statement that gave a value, and what follows it.
  >>=-at :
      {A B : Type 0} (m : Flow o A) (k : A → Flow o B) {s t : FlowState o} {a : A}
      → m s ≡ (ok a, t)
      → (m >>= k) s ≡ k a t
  unfolding ◌>>=◌
  >>=-at {B = B} m k h =
      ap
        (λ p. elim p.0 as (λ _. Result B × FlowState o) [
          | ok a ↦ k a p.1
          | raise e ↦ (raise e, p.1)
        ])
        h

  transaction-at :
      {A : Type 0} (m : Flow o A) {s t : FlowState o} {a : A}
      → m s ≡ (ok a, t)
      → in_transaction m s ≡ (ok a, t)
  unfolding in_transaction
  transaction-at {A = A} m {s = s} h =
      ap
        (λ p. elim p.0 as (λ _. Result A × FlowState o) [
          | ok a ↦ (ok a, p.1)
          | raise e ↦ (raise e, record p.1 { store = s.store })
        ])
        h

-- The states after a failure: the outcome says that the run failed, and so does its row.
pub record IsRecovered {o : Outside} (id : ℕ) (p : Result PipelineRunOutcome × FlowState o)
    : Type 0 where
  pub outcome : PipelineRunOutcome
  pub returned : p.0 ≡ ok outcome
  pub failed : outcome.run.status ≡ PipelineRunStatus.failed
  pub row : PipelineRun
  pub stored : find (λ r. r.id) id p.1.store.runs ≡ some row
  pub row_failed : row.status ≡ PipelineRunStatus.failed

module _ {o : Outside} (w : Surroundings o) (settings : PipelineSettings) where
  abbrev code : Option ErrorCode
  code = some ErrorCode.unexpected_pipeline_failure

  complete_run-at :
      (s : FlowState o)
      → let (now, world) = o.utc_now s.world in
        let p = complete PipelineRunStatus.failed none code (some unexpected) now s.run in
        p.0 ≡ ok tt
        → complete_run w settings PipelineRunStatus.failed code (some unexpected) s
          ≡ (ok tt, record s { run = p.1; world = world })
  unfolding complete_run ◌>>=◌ on_run on_world
  complete_run-at s h =
      let (now, world) = o.utc_now s.world in
      let p = complete PipelineRunStatus.failed none code (some unexpected) now s.run in
      ap (λ r. (r, record s { run = p.1; world = world })) h

  save_current-at :
      (s : FlowState o) (row : PipelineRun)
      → IsValidRun s.run
      → s.run.status ≡ PipelineRunStatus.failed
      → IsStored s.run row
      → find (λ r. r.id) s.run.id s.store.runs ≡ some row
      → in_transaction (save_current w settings) s ≡ (
        ok tt,
        record s {
          store = record s.store {
            runs = update (λ r. r.id) s.run.id (with_progress s.run) s.store.runs;
          };
        },
      )
  unfolding save_current the_run on_store return
  save_current-at s row v h stored found =
      let saved = save_run-through s.run row s.store v h stored found in
      let k : PipelineRun → Flow o (Unit {0}) = λ _. return tt in
      transaction-at (save_current w settings) (
        >>=-at the_run (λ run. on_store (save_run run) >>= k) refl
        ∙ >>=-at (on_store (save_run s.run)) k (ap (λ p. (p.0, record s { store = p.1 })) saved))

  -- What is asked of the state in which the exception is caught.
  pub record CanFail (s : FlowState o) : Type 0 where
    pub valid : IsValidRun s.run
    pub running : s.run.status ≡ PipelineRunStatus.running
    pub in_time : instant s.run.started_at ≤ (o.utc_now s.world).0
    pub row : PipelineRun
    pub same_row : IsStored s.run row
    pub found : find (λ r. r.id) s.run.id s.store.runs ≡ some row

  abbrev outcome_of : PipelineRun → PipelineRunOutcome
  outcome_of r = record {
    run = r;
    candidate_ids = [];
    ingest = none;
    lock_acquired = true;
    digest_id = none;
    delivery = none;
  }

  outcome-at :
      (s : FlowState o) → outcome w settings [] none none none s ≡ (ok (outcome_of s.run), s)
  unfolding outcome ◌>>=◌ the_run return
  outcome-at s = refl

  handle-recovers : (s : FlowState o) → CanFail s → IsRecovered s.run.id (handle w settings true s)
  unfolding handle end_run
  handle-recovers s c =
      let (now, world) = o.utc_now s.world in
      let p = complete PipelineRunStatus.failed none code (some unexpected) now s.run in
      let r = p.1 in
      let done : p.0 ≡ ok tt = complete-through now s.run c.valid c.running c.in_time in
      let (_, _, _, _, _, _, same) =
        complete-ok PipelineRunStatus.failed none code (some unexpected) now s.run done in
      let same_id : r.id ≡ s.run.id = ap (λ x. x.id) same in
      let failed : r.status ≡ PipelineRunStatus.failed = ap (λ x. x.status) same in
      let stored : IsStored r c.row = record {
        same_id = c.same_row.same_id ∙ sym same_id;
        same_trigger = c.same_row.same_trigger ∙ sym (ap (λ x. x.trigger_type) same);
        same_version = c.same_row.same_version ∙ sym (ap (λ x. x.app_version) same);
        same_start = c.same_row.same_start ∙ sym (ap (λ x. x.started_at) same);
        running = c.same_row.running;
      } in
      let valid =
        complete-IsValidRun PipelineRunStatus.failed none code (some unexpected) now s.run
          c.valid in
      let found : find (λ x. x.id) r.id s.store.runs ≡ some c.row = rw same_id c.found in
      let s₁ : FlowState o = record s { run = r; world = world } in
      let rows = update (λ x. x.id) r.id (with_progress r) s.store.runs in
      let s₂ : FlowState o = record s₁ { store = record s.store { runs = rows } } in
      let end : Unit {0} → Flow o PipelineRunOutcome = λ _. outcome w settings [] none none none in
      let save : Unit {0} → Flow o PipelineRunOutcome =
        λ _. in_transaction (save_current w settings) >>= end in
      let run_through =
        >>=-at (complete_run w settings PipelineRunStatus.failed code (some unexpected)) save
          (complete_run-at s done)
        ∙ >>=-at (in_transaction (save_current w settings)) end
            (save_current-at s₁ c.row valid failed stored found)
        ∙ outcome-at s₂ in
      subst (IsRecovered s.run.id) (sym run_through) (record {
        outcome = outcome_of r;
        returned = refl;
        failed = failed;
        row = with_progress r c.row;
        stored =
            rw same_id
              (find-update s.run.id (with_progress r) s.store.runs c.row c.found (λ _. refl));
        row_failed = failed;
      })

  guarded-from :
      (p : Result PipelineRunOutcome × FlowState o) {e : Exc}
      → p.0 ≡ raise e
      → CanFail p.1
      → IsRecovered p.1.run.id (guarded w settings (λ _. p) p.1)
  unfolding guarded
  guarded-from (ok x, s) h c = cc
  guarded-from (raise e, s) h c =
      subst (λ failing. IsRecovered s.run.id (handle w settings failing s))
        (sym (ap is_running c.running)) (handle-recovers s c)

  -- If the body raises while its run is valid and running, its row is there and running, and the
  -- clock is not before the start, then the guarded body returns an outcome whose run has failed,
  -- and the row of the run has failed, too.
  pub guarded-IsRecovered :
      (body : Flow o PipelineRunOutcome) (s : FlowState o) {e : Exc}
      → (body s).0 ≡ raise e
      → CanFail (body s).1
      → IsRecovered (body s).1.run.id (guarded w settings body s)
  unfolding guarded
  guarded-IsRecovered body s h c = guarded-from (body s) h c
