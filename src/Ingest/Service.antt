-- ===== src/Ingest/Service.antt =====
-- `FeedIngestionService.ingest_sources`. What the client answers for a source, the times and the
-- drawn ids are arguments; how the fetches overlap has no part in the result.
use automation_portfolio.Prelude.{
  ℕ, ◌+◌, Bool, true, false, Option, none, some, List, [], ◌∷◌, if◌then◌else◌,
}
use automation_portfolio.Prelude.Text.{codes}
use automation_portfolio.Prelude.Time.{Datetime}
use automation_portfolio.Prelude.Action.{Action, ◌>>=◌, lift, pure}
use automation_portfolio.Prelude.Result.{Result, ok, raise}
use automation_portfolio.Prelude.Result
use automation_portfolio.Messages.{key_error}
use automation_portfolio.Enums.{FeedFetchStatus, ErrorCode}
use automation_portfolio.Source.{Source}
use automation_portfolio.Store.{Store, where_rows}
use automation_portfolio.Ingest.Libraries.{Library}
use automation_portfolio.Ingest.Persist.{
  FeedHttpResponse, FeedHttpError, FetchOutcome, answered, refused, FetchedSource, DrawnIds,
  persist_fetched,
}
use automation_portfolio.Ingest.Results.{IngestSourceResult, IngestRunResult}

pub record IngestSettings : Type 0 where
  pub article_max_length : ℕ
  pub max_new_items_per_run : ℕ

-- What the call of the client comes to: a response, its own error, or another exception.
pub data FetchAnswer : Type 0 where
  response : FeedHttpResponse → FetchAnswer
  feed_http_error : FeedHttpError → FetchAnswer
  other_exception : FetchAnswer

unfoldable pub outcome_of_answer : FetchAnswer → FetchOutcome
outcome_of_answer (response r) = answered r
outcome_of_answer (feed_http_error e) = refused e
outcome_of_answer other_exception = refused (record {
  error_code = ErrorCode.unexpected_pipeline_failure;
  summary = codes "Feed request could not be completed.";
})

-- What is outside while the sources are fetched.
pub record Fetching : Type 0 where
  pub answer : Source → FetchAnswer
  pub started_at : Source → Datetime
  pub finished_at : Source → Datetime
  pub ids : Source → DrawnIds

-- With `limits_by_source_id[source.id]` looked up.
unfoldable pub fetch_one : Fetching → Source → ℕ → FetchedSource
unfolding outcome_of_answer
fetch_one outside source max_entries = record {
  source = source;
  max_entries = max_entries;
  started_at = outside.started_at source;
  finished_at = outside.finished_at source;
  outcome = outcome_of_answer (outside.answer source);
}

-- `gather` of the fetches. A source without limits raises KeyError, which leaves it.
unfoldable pub fetch_all : Fetching → (ℕ → Option ℕ) → List Source → Result (List FetchedSource)
unfolding fetch_one
fetch_all outside max_entries_by_source_id [] = ok []
fetch_all outside max_entries_by_source_id (source ∷ sources) =
    let rest = fetch_all outside max_entries_by_source_id sources in
    elim (max_entries_by_source_id source.id) [
      | none ↦ raise key_error
      | some max_entries ↦
          Result.◌>>=◌ rest (λ fetched. ok (fetch_one outside source max_entries ∷ fetched))
    ]

abbrev pub is_failure : FeedFetchStatus → Bool
is_failure FeedFetchStatus.failed = true
is_failure _ = false

-- The totals of the loop with one more result before the others.
unfoldable pub add_result : IngestSourceResult → IngestRunResult → IngestRunResult
add_result r totals = record {
  feeds_succeeded = (if is_failure r.status then 0 else 1) + totals.feeds_succeeded;
  feeds_failed = (if is_failure r.status then 1 else 0) + totals.feeds_failed;
  items_fetched = r.items_fetched + totals.items_fetched;
  items_inserted = r.items_inserted + totals.items_inserted;
  items_duplicate = r.items_duplicate + totals.items_duplicate;
  sources = r ∷ totals.sources;
}

abbrev pub no_results : IngestRunResult
no_results = record {
  feeds_succeeded = 0;
  feeds_failed = 0;
  items_fetched = 0;
  items_inserted = 0;
  items_duplicate = 0;
  sources = [];
}

module _ (library : Library) (settings : IngestSettings) (outside : Fetching) (run_id : ℕ) where
  unfoldable pub persist_all : List FetchedSource → ℕ → Action Store IngestRunResult
  unfolding persist_fetched add_result
  persist_all [] remaining = pure no_results
  persist_all (f ∷ fetched) remaining = do
    (result, left) ←
        persist_fetched library run_id settings.article_max_length f (outside.ids f.source)
          remaining
    totals ← persist_all fetched left
    pure (add_result result totals)

  unfoldable pub ingest_sources : List Source → (ℕ → Option ℕ) → Action Store IngestRunResult
  unfolding persist_all fetch_all where_rows
  ingest_sources sources max_entries_by_source_id = do
    fetched ←
        lift (fetch_all outside max_entries_by_source_id (where_rows (λ s. s.enabled) sources))
    persist_all fetched settings.max_new_items_per_run
