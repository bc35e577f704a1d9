-- ===== src/Ingest/Results.antt =====
-- `IngestSourceResult` and `IngestRunResult`. The counts start at 0 and only grow.
use automation_portfolio.Prelude.{ℕ, Option, List}
use automation_portfolio.Prelude.Text.{Text}
use automation_portfolio.Enums.{FeedFetchStatus, ErrorCode}

pub record IngestSourceResult : Type 0 where
  pub source_id : ℕ
  pub status : FeedFetchStatus
  pub items_fetched : ℕ
  pub items_inserted : ℕ
  pub items_duplicate : ℕ
  pub items_skipped : ℕ
  pub error_code : Option ErrorCode
  pub error_summary : Option Text

pub record IngestRunResult : Type 0 where
  pub feeds_succeeded : ℕ
  pub feeds_failed : ℕ
  pub items_fetched : ℕ
  pub items_inserted : ℕ
  pub items_duplicate : ℕ
  pub sources : List IngestSourceResult
