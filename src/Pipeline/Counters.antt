-- ===== src/Pipeline/Counters.antt =====
-- `_apply_ingest_counters`.
use automation_portfolio.Prelude.{ℕ, zero, suc, ◌+◌, Bool, true, false, not, ◌==◌, List, [], ◌∷◌}
use automation_portfolio.Prelude.Int.{pos}
use automation_portfolio.Prelude.Action.{Action, ◌>>◌, pure}
use automation_portfolio.Run.{
  PipelineRun, record_feed_attempt, record_feed_success, record_items_fetched, record_item_inserted,
  record_item_duplicate,
}
use automation_portfolio.Ingest.{IngestSourceResult, is_failure}

abbrev pub when : Bool → Action PipelineRun (Unit {0}) → Action PipelineRun (Unit {0})
when true action = action
when false action = pure tt

-- `for _ in range(n): action`
unfoldable pub repeat : ℕ → Action PipelineRun (Unit {0}) → Action PipelineRun (Unit {0})
repeat zero action = pure tt
repeat (suc n) action = action >> repeat n action

-- One pass of the loop.
unfoldable pub apply_source : IngestSourceResult → Action PipelineRun (Unit {0})
unfolding repeat
apply_source source_result = do
  record_feed_attempt
  when (not (is_failure status)) record_feed_success
  when (not (items_inserted + items_duplicate == 0))
      (record_items_fetched (pos (items_inserted + items_duplicate)))
  repeat items_inserted record_item_inserted
  repeat items_duplicate record_item_duplicate
  where
    open source_result use {status, items_inserted, items_duplicate}

unfoldable pub apply_ingest_counters : List IngestSourceResult → Action PipelineRun (Unit {0})
unfolding apply_source
apply_ingest_counters [] = pure tt
apply_ingest_counters (r ∷ results) = apply_source r >> apply_ingest_counters results
