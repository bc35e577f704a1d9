-- ===== src/Pipeline/Ends.antt =====
-- A run of the pipeline that returns has ended.
use automation_portfolio.Prelude.{
  ℕ, ◌≡◌, refl, ◌≢◌, Bool, true, false, Option, none, some, List, [], ltb, if◌then◌else◌, inl, inr,
  length,
}
use automation_portfolio.Prelude.Text.{Text}
use automation_portfolio.Prelude.Result.{Result, ok, raise, Result-cases}
use automation_portfolio.Messages.{Exc, llm_error}
use automation_portfolio.Enums.{PipelineRunStatus, TriggerType, ErrorCode}
use automation_portfolio.Run.{PipelineRun, complete, is_running}
use automation_portfolio.Run.Preserved.{complete-ok}
use automation_portfolio.Prelude.Int.{pos}
use automation_portfolio.Run.{record_selected}
use automation_portfolio.Store.{save_run, create_generated}
use automation_portfolio.Delivery.{deliver}
use automation_portfolio.Digest.{Digest}
use automation_portfolio.Source.{Source}
use automation_portfolio.Select.{SelectionProfile}
use automation_portfolio.Ingest.{IngestRunResult}
use automation_portfolio.Delivery.{Outside, DeliveryOutcome}
use automation_portfolio.Pipeline.Flow.{
  Surroundings, PipelineSettings, FlowState, ◌>>=◌, return, from, the_run, on_run, on_store,
  on_world, on_delivery,
}
use automation_portfolio.Pipeline.Service.{
  PipelineRunOutcome, outcome, complete_run, save_current, end_run, deliver_if, store_digest,
  after_generation, with_candidates, after_ingestion, with_sources, run_body, handle, guarded,
}
use automation_portfolio.Pipeline.Leads.{
  OnOk, Leads, Any, Leads-bind, Leads-after, Leads-keep, Leads-transaction,
}

abbrev pub IsEnded : PipelineRun → Type 0
IsEnded r = r.status ≢ PipelineRunStatus.running

running_or_not :
    (status : PipelineRunStatus)
    → status ≡ PipelineRunStatus.running
    → is_running status ≡ false
    → ⊥
running_or_not PipelineRunStatus.running h k = cc
running_or_not _ h k = cc

module _ {o : Outside} where
  abbrev Ended : {A : Type 0} → A → FlowState o → Type 0
  Ended _ s = IsEnded s.run

  abbrev pub EndedOutcome : PipelineRunOutcome → FlowState o → Type 0
  EndedOutcome x s = IsEnded x.run

module _ {o : Outside} (w : Surroundings o) (settings : PipelineSettings) where
  outcome-Ended :
      (ids : List ℕ) (ingest : Option IngestRunResult) (digest_id : Option ℕ)
      (delivery : Option DeliveryOutcome)
      → Leads (λ s. IsEnded s.run) (outcome w settings ids ingest digest_id delivery) EndedOutcome
  unfolding outcome ◌>>=◌ the_run return
  outcome-Ended ids ingest digest_id delivery = record { at = λ s h. h }

  on_run-Ended :
      (target : PipelineRunStatus) (code : Option ErrorCode) (summary : Option Text) (now : ℕ)
      → target ≢ PipelineRunStatus.running
      → Leads {o = o} Any
          (on_run (complete target none code summary now))
          (Ended {o = o} {A = Unit {0}})
  unfolding on_run
  on_run-Ended target code summary now n = record {
    at = λ s _. elim (Result-cases (complete target none code summary now s.run).0) [
      | inr (_, e) ↦ rw e tt
      | inl (_, e) ↦
          let (_, _, _, _, _, _, same) = complete-ok target none code summary now s.run e in
          rw e (rw same n)
    ];
  }

  complete_run-Ended :
      (target : PipelineRunStatus) (code : Option ErrorCode) (summary : Option Text)
      → target ≢ PipelineRunStatus.running
      → Leads Any (complete_run w settings target code summary) (Ended {o = o} {A = Unit {0}})
  unfolding complete_run
  complete_run-Ended target code summary n =
      Leads-after (on_world o.utc_now) (λ now. on_run-Ended target code summary now n)

  save_current-Ended :
      Leads (λ s. IsEnded s.run) (save_current w settings) (Ended {o = o} {A = Unit {0}})
  unfolding save_current the_run on_store return
  save_current-Ended =
      Leads-bind (Ended {o = o} {A = PipelineRun}) (Leads-keep IsEnded the_run (λ s. refl)) (λ run.
        Leads-bind (Ended {o = o} {A = PipelineRun})
          (Leads-keep IsEnded (on_store (save_run run)) (λ s. refl))
          (λ _. Leads-keep IsEnded (return tt) (λ s. refl)))

  end_run-Ended :
      (target : PipelineRunStatus) (code : Option ErrorCode) (summary : Option Text) (ids : List ℕ)
      (ingest : Option IngestRunResult)
      → target ≢ PipelineRunStatus.running
      → Leads Any (end_run w settings target code summary ids ingest) EndedOutcome
  unfolding end_run
  end_run-Ended target code summary ids ingest n =
      Leads-bind (Ended {o = o} {A = Unit {0}}) (complete_run-Ended target code summary n) (λ _.
        Leads-bind (Ended {o = o} {A = Unit {0}}) (Leads-transaction save_current-Ended)
          (λ _. outcome-Ended ids ingest none none))

  deliver_if-Ended :
      (should : Bool) (digest_id : ℕ)
      → Leads
          (λ s. IsEnded s.run)
          (deliver_if w settings should digest_id)
          (Ended {o = o} {A = Option DeliveryOutcome})
  unfolding deliver_if return on_delivery
  deliver_if-Ended false digest_id = Leads-keep IsEnded (return none) (λ s. refl)
  deliver_if-Ended true digest_id =
      Leads-bind (Ended {o = o} {A = DeliveryOutcome})
        (Leads-keep IsEnded (on_delivery (deliver w.library.net settings.telegram digest_id))
          (λ s. refl))
        (λ d. Leads-keep IsEnded (return (some d)) (λ s. refl))

  finished_not_running :
      (failed : Bool)
      → (if failed then PipelineRunStatus.partial_success else PipelineRunStatus.success)
        ≢ PipelineRunStatus.running
  finished_not_running true h = cc
  finished_not_running false h = cc

  store_digest-Ended :
      (digest : Digest) (ingest : IngestRunResult)
      → Leads Any (store_digest w settings digest ingest) (Ended {o = o} {A = Unit {0}})
  unfolding store_digest
  store_digest-Ended digest ingest =
      Leads-after (on_store (create_generated w.library.net digest)) (λ _.
        Leads-after (on_run (record_selected (pos (length digest.items)))) (λ _.
          Leads-bind (Ended {o = o} {A = Unit {0}})
            (complete_run-Ended _ none none (finished_not_running (ltb 0 ingest.feeds_failed)))
            (λ _. save_current-Ended)))

  raised : {A : Type 0} (e : Exc) {Q : A → FlowState o → Type 0} → Leads Any (from (raise e)) Q
  unfolding from
  raised e = record { at = λ s _. tt }

  after_generation-Ended :
      (trigger : TriggerType) (ids : List ℕ) (ingest : IngestRunResult) (digest : Result Digest)
      → Leads Any (after_generation w settings trigger ids ingest digest) EndedOutcome
  unfolding after_generation
  after_generation-Ended trigger ids ingest (raise (llm_error code issues)) =
      end_run-Ended PipelineRunStatus.failed _ _ ids (some ingest) (λ h. cc)
  after_generation-Ended trigger ids ingest (ok digest) =
      Leads-bind (Ended {o = o} {A = Unit {0}})
        (Leads-transaction (store_digest-Ended digest ingest))
        (λ _.
          Leads-bind (Ended {o = o} {A = Option DeliveryOutcome}) (deliver_if-Ended _ digest.id)
            (λ delivery. outcome-Ended ids (some ingest) (some digest.id) delivery))
  after_generation-Ended trigger ids ingest (raise e) = raised e

  with_candidates-Ended :
      (trigger : TriggerType) (sources : List Source) (ingest : IngestRunResult)
      (scored : List (ℕ × w.floats.Float)) (few : Bool)
      → Leads Any (with_candidates w settings trigger sources ingest scored few) EndedOutcome
  unfolding with_candidates
  with_candidates-Ended trigger sources ingest scored true =
      end_run-Ended PipelineRunStatus.no_content none none _ (some ingest) (λ h. cc)
  with_candidates-Ended trigger sources ingest scored false = Leads-after _ (λ items.
      Leads-after _
        (λ contexts. Leads-after _ (λ digest. after_generation-Ended trigger _ ingest digest)))

  after_ingestion-Ended :
      (trigger : TriggerType) (profile : SelectionProfile) (ingest : IngestRunResult)
      → Leads Any (after_ingestion w settings trigger profile ingest) EndedOutcome
  unfolding after_ingestion
  after_ingestion-Ended trigger profile ingest = Leads-after _ (λ _. Leads-after _ (λ now.
      Leads-after _ (λ loaded. Leads-after _ (λ later.
        Leads-after _ (λ scored.
          Leads-after _ (λ _. with_candidates-Ended trigger loaded.0 ingest scored _))))))

  with_sources-Ended :
      (trigger : TriggerType) (profile : SelectionProfile) (limits : List Source → ℕ → Option ℕ)
      (sources : List Source) (empty : Bool)
      → Leads Any (with_sources w settings trigger profile limits sources empty) EndedOutcome
  unfolding with_sources
  with_sources-Ended trigger profile limits sources true =
      end_run-Ended PipelineRunStatus.no_content none none [] none (λ h. cc)
  with_sources-Ended trigger profile limits sources false = Leads-after _ (λ run.
      Leads-after _
        (λ fetching. Leads-after _ (λ ingest. after_ingestion-Ended trigger profile ingest)))

  run_body-Ended : (trigger : TriggerType) → Leads Any (run_body w settings trigger) EndedOutcome
  unfolding run_body
  run_body-Ended trigger = Leads-after _ (λ limits.
      Leads-after _
        (λ profile. Leads-after _ (λ sources. with_sources-Ended trigger profile limits sources _)))

  handle-Ended :
      (failing : Bool) (s : FlowState o)
      → is_running s.run.status ≡ failing
      → OnOk EndedOutcome (handle w settings failing s)
  unfolding handle
  handle-Ended true s h = (end_run-Ended PipelineRunStatus.failed _ _ [] none (λ k. cc)).at s tt
  handle-Ended false s h =
      (outcome-Ended [] none none none).at s (λ e. running_or_not s.run.status e h)

  guarded-from :
      (p : Result PipelineRunOutcome × FlowState o)
      → OnOk EndedOutcome p
      → OnOk EndedOutcome (guarded w settings (λ _. p) p.1)
  unfolding guarded
  guarded-from (ok x, s) h = h
  guarded-from (raise e, s) h = handle-Ended (is_running s.run.status) s refl

  -- A call of the body of _run_locked, from any state and whatever its parts raise or answer: an
  -- outcome that it returns has a run that is not running.
  pub guarded-Ended :
      (trigger : TriggerType) (s : FlowState o)
      → OnOk EndedOutcome (guarded w settings (run_body w settings trigger) s)
  unfolding guarded
  guarded-Ended trigger s =
      guarded-from (run_body w settings trigger s) ((run_body-Ended trigger).at s tt)
