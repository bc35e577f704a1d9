-- ===== src/Tests/Ingestion.antt =====
-- The ingestion of one feed on concrete inputs.
use automation_portfolio.Prelude.{◌/◌, ◌+◌, ◌≡◌, refl, none, some, [], ◌∷◌, length}
use automation_portfolio.Prelude.Text.{codes}
use automation_portfolio.Prelude.Int.{pos}
use automation_portfolio.Prelude.Time.{aware}
use automation_portfolio.Prelude.Result.{ok}
use automation_portfolio.Enums.{FeedFetchStatus}
use automation_portfolio.Store.{Store, add_if_new, where_rows}
use automation_portfolio.Store.Post.{Post}
use automation_portfolio.Ingest.{
  Library, FeedEntry, IngestSettings, Fetching, FetchAnswer, response, IngestSourceResult,
  IngestRunResult, ingest_sources,
}
use automation_portfolio.Ingest.Counted.{Deduplicated}
use automation_portfolio.Ingest.Totals.{Totalled, ingest_sources-Totalled}
use automation_portfolio.Pipeline.{apply_ingest_counters}
use automation_portfolio.Pipeline.Sums.{with_counts}
use automation_portfolio.Pipeline.Ingested.{counts_of-ingest_sources}
use automation_portfolio.Tests.Samples.{started, article, feed, one_url}

abbrev entry : FeedEntry
entry = record {
  title = some (codes "Title");
  id = none;
  guid = none;
  author = none;
  link = some (codes "https://a.org/x");
  hrefs = [];
  summary = some (codes "Summary");
  description = none;
  contents = [];
  published_parsed = some 80;
  updated_parsed = none;
  published = none;
  updated = none;
}

-- Every URL is the same, so that the second entry is a duplicate of the first.
abbrev pub library : Library
library = record {
  net = one_url;
  url_path = λ _. codes "/x";
  url_query = λ _. [];
  parse_qsl = λ _. [];
  urlencode = λ _. [];
  urlunsplit = λ scheme netloc path query. codes "https://a.org/x";
  idna = λ host. some host;
  sha256_hex = λ _. article.url_hash;
  nh3_clean = λ s. s;
  unescape = λ s. s;
  feedparser = λ _. entry ∷ entry ∷ record entry { title = none } ∷ [];
  parsedate = λ _. none;
  float_milliseconds = λ n. n / 1000;
}

abbrev pub limits : IngestSettings
limits = record { article_max_length = 100; max_new_items_per_run = 5 }

abbrev one_answer : FetchAnswer
one_answer = response (record {
  status_code = pos 200;
  body = some (codes "feed");
  etag = none;
  last_modified = none;
  duration_ms = 3;
})

abbrev pub outside : Fetching
outside = record {
  answer = λ _. one_answer;
  started_at = λ _. aware 1000;
  finished_at = λ _. aware 2000;
  ids = λ _. record { fetch_id = 400; item_ids = λ n. 500 + n };
}

abbrev pub empty : Store
empty = record {
  runs = started ∷ [];
  fetches = [];
  attempts = [];
  digests = [];
  news_items = [];
  sources = feed ∷ [];
}

abbrev one_feed : IngestSourceResult
one_feed = record {
  source_id = 5;
  status = FeedFetchStatus.success;
  items_fetched = 2;
  items_inserted = 1;
  items_duplicate = 1;
  items_skipped = 1;
  error_code = none;
  error_summary = none;
}

abbrev totals : IngestRunResult
totals = record {
  feeds_succeeded = 1;
  feeds_failed = 0;
  items_fetched = 2;
  items_inserted = 1;
  items_duplicate = 1;
  sources = one_feed ∷ [];
}

ingested : (ingest_sources library limits outside 1 (feed ∷ []) (λ _. some 10) empty).0 ≡ ok totals
unfolding ingest_sources automation_portfolio.News.post_init
    automation_portfolio.Net.Hosts.ensure_https_url
    automation_portfolio.Validators.normalize_bounded_string add_if_new
    automation_portfolio.Store.save_source automation_portfolio.Source.post_init
    automation_portfolio.Net.Policy.ensure_feed_url automation_portfolio.Fetch.post_init
    automation_portfolio.Store.add_fetch
ingested = refl

ingest_sources-Totalled_example :
    Post
      (Totalled 1 5 0)
      Deduplicated
      (ingest_sources library limits outside 1 (feed ∷ []) (λ _. some 10) empty)
unfolding where_rows
ingest_sources-Totalled_example =
    ingest_sources-Totalled library limits outside 1 (feed ∷ []) (λ _. some 10) empty tt

counts_of-ingest_sources_example :
    (apply_ingest_counters totals.sources started ≡ (ok tt, with_counts 1 1 2 1 1 started))
    × (length
          (ingest_sources library limits outside 1 (feed ∷ []) (λ _. some 10) empty).1.news_items
        ≡ 1)
counts_of-ingest_sources_example =
    counts_of-ingest_sources library limits outside (feed ∷ []) (λ _. some 10) empty started tt refl
      refl ingested
