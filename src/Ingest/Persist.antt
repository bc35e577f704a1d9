-- ===== src/Ingest/Persist.antt =====
-- `_persist_fetched`.
use automation_portfolio.Prelude.{
  ℕ, zero, suc, ◌-◌, max, Bool, true, false, Option, none, some, List, [], ◌∷◌, if◌then◌else◌,
}
use automation_portfolio.Prelude.Text.{Text, codes}
use automation_portfolio.Prelude.Int.{ℤ, pos, eqb_ℤ}
use automation_portfolio.Prelude.Time.{Datetime, instant, before}
use automation_portfolio.Prelude.Result.{Result}
use automation_portfolio.Prelude.Action.{Action, ◌>>=◌, ◌>>◌, lift, pure}
use automation_portfolio.Enums.{FeedFetchStatus, ErrorCode}
use automation_portfolio.Source.{Source, record_fetch_success, record_fetch_failure}
use automation_portfolio.Fetch
use automation_portfolio.Fetch.{FeedFetch}
use automation_portfolio.News.{NewsItem}
use automation_portfolio.Store.{
  Store, transaction, save_source, add_fetch, add_if_new, NewsInsertResult,
}
use automation_portfolio.Ingest.Libraries.{Library}
use automation_portfolio.Ingest.Parser.{ParsedFeedEntry, parse_feed_bytes}
use automation_portfolio.Ingest.Normalize.{news_item_from_entry}
use automation_portfolio.Ingest.Results.{IngestSourceResult}

pub record FeedHttpResponse : Type 0 where
  pub status_code : ℤ
  pub body : Option Text
  pub etag : Option Text
  pub last_modified : Option Text
  pub duration_ms : ℕ

pub record FeedHttpError : Type 0 where
  pub error_code : ErrorCode
  pub summary : Text

-- What is set of `response` and `error`.
pub data FetchOutcome : Type 0 where
  answered : FeedHttpResponse → FetchOutcome
  refused : FeedHttpError → FetchOutcome

pub record FetchedSource : Type 0 where
  pub source : Source
  pub max_entries : ℕ
  pub started_at : Datetime
  pub finished_at : Datetime
  pub outcome : FetchOutcome

-- The ids that `uuid4` gives while a source is stored: that of its fetch, and those of its articles.
pub record DrawnIds : Type 0 where
  pub fetch_id : ℕ
  pub item_ids : ℕ → ℕ

-- The local variables of the loop over the entries.
pub record Counts : Type 0 where
  pub inserted : ℕ
  pub duplicate : ℕ
  pub skipped : ℕ
  pub fetched_count : ℕ
  pub remaining_inserts : ℕ

-- `max(0, int((f.finished_at - f.started_at).total_seconds() * 1000))`: a negative product is at most
-- 0 after `int`.
unfoldable pub elapsed_ms : Library → FetchedSource → ℕ
elapsed_ms library f =
    if before f.finished_at f.started_at
    then 0
    else library.float_milliseconds (instant f.finished_at - instant f.started_at)

abbrev or_stored : Option Text → Option Text → Option Text
or_stored (some h) stored = some h
or_stored none stored = stored

-- `response.body or b""`
abbrev pub body_of : Option Text → Text
body_of none = []
body_of (some body) = body

unfoldable pub count_insert : NewsInsertResult → Counts → Counts
count_insert r c =
    if r.inserted
    then record c {
      inserted = suc c.inserted;
      fetched_count = suc c.fetched_count;
      remaining_inserts = c.remaining_inserts - 1;
    }
    else record c { duplicate = suc c.duplicate; fetched_count = suc c.fetched_count }

abbrev pub outcome_of :
    FetchedSource → FeedFetchStatus → Counts → Option ErrorCode → Option Text → IngestSourceResult
outcome_of f status c code summary = record {
  source_id = f.source.id;
  status = status;
  items_fetched = c.fetched_count;
  items_inserted = c.inserted;
  items_duplicate = c.duplicate;
  items_skipped = c.skipped;
  error_code = code;
  error_summary = summary;
}

abbrev pub no_counts : ℕ → Counts
no_counts remaining = record {
  inserted = 0;
  duplicate = 0;
  skipped = 0;
  fetched_count = 0;
  remaining_inserts = remaining;
}

module _ (library : Library) (run_id : ℕ) where
  open library use {net}

  -- One pass of the loop, from the test of `remaining_inserts` on, and from the normalized entry on.
  unfoldable pub store_item : ℕ → NewsItem → Counts → Action Store Counts
  unfolding count_insert
  store_item zero item c = pure (record c { fetched_count = suc c.fetched_count })
  store_item (suc n) item c = do result ← add_if_new net item; pure (count_insert result c)

  unfoldable pub store_entry : Option NewsItem → Counts → Action Store Counts
  unfolding store_item
  store_entry none c = pure (record c { skipped = suc c.skipped })
  store_entry (some item) c = store_item c.remaining_inserts item c

  unfoldable pub store_entries :
      ℕ → FetchedSource → DrawnIds → List ParsedFeedEntry → ℕ → Counts → Action Store Counts
  unfolding store_entry news_item_from_entry
  store_entries article_max_length f ids [] n c = pure c
  store_entries article_max_length f ids (entry ∷ entries) n c = do
    normalized ← lift (
        news_item_from_entry library entry f.source.id f.finished_at article_max_length
          f.source.allowed_host (ids.item_ids n))
    next ← store_entry normalized c
    store_entries article_max_length f ids entries (suc n) next

  -- The new source and the result of the fetch are written.
  unfoldable pub store_fetch : Result (Unit {0}) × Source → FeedFetch → Action Store (Unit {0})
  store_fetch (checked, source) fetch = do
    lift checked
    _ ← save_source net source
    built ← lift (Fetch.post_init fetch)
    _ ← add_fetch built
    pure tt

  abbrev pub fetch_of : FetchedSource → DrawnIds → ℕ → FeedFetchStatus → Option ℤ → ℕ → FeedFetch
  fetch_of f ids duration status http_status entries_count = record {
    run_id = run_id;
    source_id = f.source.id;
    status = status;
    started_at = f.started_at;
    finished_at = f.finished_at;
    id = ids.fetch_id;
    http_status = http_status;
    entries_count = pos entries_count;
    duration_ms = pos duration;
    error_code = none;
    error_summary = none;
  }

  -- The two branches of a failure: the client's error, and a body that is no feed.
  unfoldable pub persist_failure :
      FetchedSource
      → DrawnIds
      → ℕ
      → Option ℤ
      → FeedHttpError
      → ℕ
      → Action Store (IngestSourceResult × ℕ)
  unfolding store_fetch record_fetch_failure
  persist_failure f ids duration http_status error remaining = do
    let fetch = fetch_of f ids duration FeedFetchStatus.failed http_status 0
    transaction (
        store_fetch (record_fetch_failure f.finished_at f.source)
          (record fetch { error_code = some error.error_code; error_summary = some error.summary }))
    pure (
      outcome_of f FeedFetchStatus.failed (no_counts remaining) (some error.error_code)
          (some error.summary),
      remaining,
    )

  unfoldable pub succeeded_source : FetchedSource → FeedHttpResponse → Result (Unit {0}) × Source
  unfolding record_fetch_success
  succeeded_source f response =
      record_fetch_success f.finished_at (or_stored response.etag f.source.etag)
        (or_stored response.last_modified f.source.last_modified) f.source

  unfoldable pub persist_not_modified :
      FetchedSource → DrawnIds → ℕ → FeedHttpResponse → ℕ → Action Store (IngestSourceResult × ℕ)
  unfolding store_fetch succeeded_source
  persist_not_modified f ids duration response remaining = do
    transaction (
        store_fetch (succeeded_source f response)
          (fetch_of f ids duration FeedFetchStatus.not_modified (some (pos 304)) 0))
    pure (outcome_of f FeedFetchStatus.not_modified (no_counts remaining) none none, remaining)

  unfoldable pub persist_entries :
      ℕ
      → FetchedSource
      → DrawnIds
      → ℕ
      → FeedHttpResponse
      → List ParsedFeedEntry
      → ℕ
      → Action Store (IngestSourceResult × ℕ)
  unfolding store_entries store_fetch succeeded_source
  persist_entries article_max_length f ids duration response entries remaining = do
    counts ← transaction (do
      c ← store_entries article_max_length f ids entries 0 (no_counts remaining)
      store_fetch (succeeded_source f response) (
          fetch_of f ids duration FeedFetchStatus.success (some response.status_code)
            c.fetched_count)
      pure c)
    pure (outcome_of f FeedFetchStatus.success counts none none, counts.remaining_inserts)

  unfoldable pub persist_parsed :
      ℕ
      → FetchedSource
      → DrawnIds
      → ℕ
      → FeedHttpResponse
      → Option (List ParsedFeedEntry)
      → ℕ
      → Action Store (IngestSourceResult × ℕ)
  unfolding persist_failure persist_entries
  persist_parsed article_max_length f ids duration response none remaining =
      persist_failure f ids duration (some response.status_code)
        (record {
          error_code = ErrorCode.feed_parse_failed;
          summary = codes "Feed content could not be parsed into usable entries.";
        })
        remaining
  persist_parsed article_max_length f ids duration response (some entries) remaining =
      persist_entries article_max_length f ids duration response entries remaining

  unfoldable pub persist_answer :
      ℕ
      → FetchedSource
      → DrawnIds
      → FeedHttpResponse
      → ℕ
      → Bool
      → Action Store (IngestSourceResult × ℕ)
  unfolding persist_not_modified persist_parsed parse_feed_bytes elapsed_ms
  persist_answer article_max_length f ids response remaining true =
      persist_not_modified f ids (max (elapsed_ms library f) response.duration_ms) response
        remaining
  persist_answer article_max_length f ids response remaining false =
      persist_parsed article_max_length f ids (max (elapsed_ms library f) response.duration_ms)
        response (parse_feed_bytes library (body_of response.body) f.max_entries) remaining

  unfoldable pub persist_outcome :
      ℕ → FetchedSource → DrawnIds → ℕ → FetchOutcome → Action Store (IngestSourceResult × ℕ)
  unfolding persist_failure persist_answer elapsed_ms
  persist_outcome article_max_length f ids remaining (refused error) =
      persist_failure f ids (elapsed_ms library f) none error remaining
  persist_outcome article_max_length f ids remaining (answered response) =
      persist_answer article_max_length f ids response remaining
        (eqb_ℤ response.status_code (pos 304))

  unfoldable pub persist_fetched :
      ℕ → FetchedSource → DrawnIds → ℕ → Action Store (IngestSourceResult × ℕ)
  unfolding persist_outcome
  persist_fetched article_max_length f ids remaining =
      persist_outcome article_max_length f ids remaining f.outcome
