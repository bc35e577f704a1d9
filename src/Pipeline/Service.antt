-- ===== src/Pipeline/Service.antt =====
-- `DigestPipelineService.run` and `_run_locked`. Logging is left out, and so is the warning on feed
-- failures, whose text is not used.
use automation_portfolio.Prelude.{
  ℕ, ◌*◌, ◌/◌, max, Bool, true, false, not, ◌&&◌, Option, none, some, List, [], map, length, is_nil,
  ltb, take, if◌then◌else◌,
}
use automation_portfolio.Prelude.Text.{Text, codes}
use automation_portfolio.Prelude.Int.{pos}
use automation_portfolio.Prelude.Time.{aware}
use automation_portfolio.Prelude.Result.{Result, ok, raise}
use automation_portfolio.Prelude.Action
use automation_portfolio.Prelude.Action.{Action}
use automation_portfolio.Messages.{llm_error}
use automation_portfolio.Enums.{PipelineRunStatus, TriggerType, ErrorCode}
use automation_portfolio.Run.{
  PipelineRun, zero_counters, post_init, create_skipped_locked, complete, is_running,
  record_candidates, record_selected,
}
use automation_portfolio.Digest.{Digest}
use automation_portfolio.News.{NewsItem}
use automation_portfolio.Source.{Source}
use automation_portfolio.Store.{
  Store, add_run, save_run, list_enabled, list_eligible_for_selection, create_generated,
}
use automation_portfolio.Select.{
  SelectionProfile, SelectionResult, select_candidates, max_items_per_source,
}
use automation_portfolio.Ingest.{IngestRunResult, ingest_sources}
use automation_portfolio.Generate.{
  CandidateContext, LlmClient, build_candidate_contexts, generate_validated_digest,
}
use automation_portfolio.Delivery
use automation_portfolio.Delivery.{Outside, DeliveryOutcome, State, Step, deliver}
use automation_portfolio.Pipeline.Counters.{apply_ingest_counters}
use automation_portfolio.Pipeline.Flow.{
  Surroundings, PipelineSettings, Flow, ◌>>=◌, ◌>>◌, return, from, the_run, on_run, on_store,
  on_world, try_world, on_delivery, in_transaction,
}
use automation_portfolio.Pipeline.Select.{
  source_by_id, mark_ignored, mark_candidates, load_candidates, score_of,
}

pub record PipelineRunOutcome : Type 0 where
  pub run : PipelineRun
  pub candidate_ids : List ℕ
  pub ingest : Option IngestRunResult
  pub lock_acquired : Bool
  pub digest_id : Option ℕ
  pub delivery : Option DeliveryOutcome

abbrev is_dry_run : TriggerType → Bool
is_dry_run TriggerType.dry_run = true
is_dry_run _ = false

module _ {o : Outside} (w : Surroundings o) (settings : PipelineSettings) where
  open w.library use {net}

  abbrev utc_now : Flow o ℕ
  utc_now = on_world o.utc_now

  -- `PipelineRunOutcome(run=run, …)`: the run as it is at the end.
  unfoldable pub outcome :
      List ℕ
      → Option IngestRunResult
      → Option ℕ
      → Option DeliveryOutcome
      → Flow o PipelineRunOutcome
  outcome ids ingest digest_id delivery = do
    run ← the_run
    return (record {
      run = run;
      candidate_ids = ids;
      ingest = ingest;
      lock_acquired = true;
      digest_id = digest_id;
      delivery = delivery;
    })

  -- `run.complete(…)` at the time of the call.
  unfoldable pub complete_run :
      PipelineRunStatus → Option ErrorCode → Option Text → Flow o (Unit {0})
  complete_run target code summary = do
    now ← utc_now
    on_run (complete target none code summary now)

  unfoldable pub save_current : Flow o (Unit {0})
  save_current = do run ← the_run; _ ← on_store (save_run run); return tt

  -- A run that ends early, and what it returns.
  unfoldable pub end_run :
      PipelineRunStatus
      → Option ErrorCode
      → Option Text
      → List ℕ
      → Option IngestRunResult
      → Flow o PipelineRunOutcome
  unfolding complete_run save_current outcome
  end_run target code summary ids ingest = do
    complete_run target code summary
    in_transaction save_current
    outcome ids ingest none none

  unfoldable pub deliver_if : Bool → ℕ → Flow o (Option DeliveryOutcome)
  deliver_if false digest_id = return none
  deliver_if true digest_id = do
    delivered ← on_delivery (deliver net settings.telegram digest_id)
    return (some delivered)

  -- The transaction that stores the digest and ends the run.
  unfoldable pub store_digest : Digest → IngestRunResult → Flow o (Unit {0})
  unfolding complete_run save_current
  store_digest digest ingest = do
    _ ← on_store (create_generated net digest)
    on_run (record_selected (pos (length digest.items)))
    complete_run
        (if ltb 0 ingest.feeds_failed
          then PipelineRunStatus.partial_success
          else PipelineRunStatus.success)
        none none
    save_current

  unfoldable pub after_generation :
      TriggerType → List ℕ → IngestRunResult → Result Digest → Flow o PipelineRunOutcome
  unfolding end_run store_digest deliver_if outcome
  after_generation trigger ids ingest (raise (llm_error code issues)) =
      end_run PipelineRunStatus.failed (some code) (some (take 500 (w.llm_summary code issues))) ids
        (some ingest)
  after_generation trigger ids ingest (raise e) = from (raise e)
  after_generation trigger ids ingest (ok digest) = do
    in_transaction (store_digest digest ingest)
    delivery ← deliver_if (settings.telegram_enabled && not (is_dry_run trigger)) digest.id
    outcome ids (some ingest) (some digest.id) delivery

  abbrev client : LlmClient w.floats.Float
  client = record { World = o.World; generate_digest = w.generate_digest }

  -- The call of `generate_validated_digest`, whose exception is looked at. The id and the time of the
  -- digest are drawn as it begins.
  unfoldable pub generate : List (Text × CandidateContext w.floats.Float) → Flow o (Result Digest)
  generate contexts = do
    run ← the_run
    today ← utc_now
    id ← on_world o.uuid4
    now ← utc_now
    on_world (
        generate_validated_digest net client settings.generation run.id (today / 86400000000) id now
          contexts)

  unfoldable pub with_candidates :
      TriggerType
      → List Source
      → IngestRunResult
      → List (ℕ × w.floats.Float)
      → Bool
      → Flow o PipelineRunOutcome
  unfolding end_run generate after_generation source_by_id score_of
  with_candidates trigger sources ingest scored true =
      end_run PipelineRunStatus.no_content none none (map (λ p. p.0) scored) (some ingest)
  with_candidates trigger sources ingest scored false = do
    let ids = map (λ p. p.0) scored
    items ← in_transaction (on_store (load_candidates net ids))
    contexts ←
        from (build_candidate_contexts w.float_zero items (source_by_id sources) (score_of scored))
    digest ← generate contexts
    after_generation trigger ids ingest digest

  -- The two loops over the selection.
  unfoldable pub mark_selection :
      SelectionResult w.floats → Action Store (List (ℕ × w.floats.Float))
  unfolding mark_ignored mark_candidates
  mark_selection selection =
      Action.◌>>◌ (mark_ignored net selection.ignored) (mark_candidates net selection.candidates)

  unfoldable pub count_candidates : ℕ → Bool → Flow o (Unit {0})
  count_candidates count true = return tt
  count_candidates count false = on_run (record_candidates (pos count))

  unfoldable pub load_eligible : ℕ → Action Store (List Source × List NewsItem)
  load_eligible now = Action.◌>>=◌ (list_enabled net w.collates) (λ sources.
      Action.◌>>=◌
        (list_eligible_for_selection net now settings.max_item_age_hours
          (max (settings.ingest.max_new_items_per_run * 2) 200))
        (λ eligible. Action.pure (sources, eligible)))

  -- From the ingestion on.
  unfoldable pub after_ingestion :
      TriggerType → SelectionProfile → IngestRunResult → Flow o PipelineRunOutcome
  unfolding load_eligible mark_selection count_candidates with_candidates source_by_id
  after_ingestion trigger profile ingest = do
    on_run (apply_ingest_counters ingest.sources)
    now ← utc_now
    (sources, eligible) ← in_transaction (on_store (load_eligible now))
    later ← utc_now
    let selection =
        select_candidates w.floats net.lower (source_by_id sources) profile (aware later)
          settings.max_item_age_hours eligible settings.max_llm_candidates max_items_per_source
    scored ← in_transaction (on_store (mark_selection selection))
    count_candidates (length scored) (is_nil scored)
    with_candidates trigger sources ingest scored
        (ltb (length scored) settings.generation.min_digest_items)

  unfoldable pub with_sources :
      TriggerType
      → SelectionProfile
      → (List Source → ℕ → Option ℕ)
      → List Source
      → Bool
      → Flow o PipelineRunOutcome
  unfolding end_run after_ingestion
  with_sources trigger profile limits sources true =
      end_run PipelineRunStatus.no_content none none [] none
  with_sources trigger profile limits sources false = do
    run ← the_run
    fetching ← on_world (w.fetch_feeds sources)
    ingest ←
        on_store (ingest_sources w.library settings.ingest fetching run.id sources (limits sources))
    after_ingestion trigger profile ingest

  -- The body of the `try`.
  unfoldable pub run_body : TriggerType → Flow o PipelineRunOutcome
  unfolding with_sources
  run_body trigger = do
    limits ← try_world w.load_feed_configuration
    profile ← try_world w.load_topic_profile
    sources ← in_transaction (on_store (list_enabled net w.collates))
    with_sources trigger profile limits sources (is_nil sources)

  -- `except Exception`, for a run that is still running, and for one that has ended.
  unfoldable pub handle : Bool → Flow o PipelineRunOutcome
  unfolding end_run outcome
  handle true =
      end_run PipelineRunStatus.failed (some ErrorCode.unexpected_pipeline_failure)
        (some (codes "Pipeline stopped because of an unexpected internal error.")) [] none
  handle false = outcome [] none none none

  unfoldable pub guarded : Flow o PipelineRunOutcome → Flow o PipelineRunOutcome
  unfolding handle
  guarded body s =
      let (r, after) = body s in
      elim r [ ok a ↦ (ok a, after) | raise e ↦ handle (is_running after.run.status) after ]

  -- The body on a run that is stored, started from the state of the caller.
  unfoldable pub with_run : PipelineRun → Flow o PipelineRunOutcome → Step o PipelineRunOutcome
  with_run run flow s =
      let (r, after) = flow (record { run = run; store = s.store; world = s.world }) in
      (r, record { store = after.store; world = after.world })

  unfoldable pub run_locked : TriggerType → Text → Step o PipelineRunOutcome
  unfolding with_run guarded run_body
  run_locked trigger version = Delivery.◌>>=◌ Delivery.uuid4 (λ id.
      Delivery.◌>>=◌ Delivery.utc_now (λ now.
        Delivery.◌>>=◌
          (Delivery.from (
            post_init (record {
              trigger_type = trigger;
              app_version = version;
              id = id;
              status = PipelineRunStatus.running;
              started_at = aware now;
              finished_at = none;
              counters = zero_counters;
              error_code = none;
              error_summary = none;
              duration_ms = none;
            })))
          (λ run.
            Delivery.◌>>=◌ (Delivery.in_transaction (add_run run))
              (λ _. with_run run (guarded (run_body trigger))))))

  unfoldable pub run_skipped : TriggerType → Text → Step o PipelineRunOutcome
  run_skipped trigger version = Delivery.◌>>=◌ Delivery.uuid4 (λ id.
      Delivery.◌>>=◌ Delivery.utc_now (λ now.
        Delivery.◌>>=◌ (Delivery.from (create_skipped_locked trigger version none id now))
          (λ skipped. Delivery.◌>>=◌ (Delivery.in_transaction (add_run skipped)) (λ _.
            Delivery.return (record {
              run = skipped;
              candidate_ids = [];
              ingest = none;
              lock_acquired = false;
              digest_id = none;
              delivery = none;
            })))))

  unfoldable pub run_or_skip : Bool → TriggerType → Text → Step o PipelineRunOutcome
  unfolding run_locked run_skipped
  run_or_skip true trigger version = run_locked trigger version
  run_or_skip false trigger version = run_skipped trigger version

  -- `finally: await lock.release()`
  unfoldable pub releasing : Step o PipelineRunOutcome → Step o PipelineRunOutcome
  releasing m s = let (r, after) = m s in (r, record after { world = w.release after.world })

  unfoldable pub run_pipeline : TriggerType → Text → Step o PipelineRunOutcome
  unfolding releasing run_or_skip
  run_pipeline trigger version =
      Delivery.◌>>=◌ (Delivery.call_world w.acquire)
        (λ acquired. releasing (run_or_skip acquired trigger version))
