-- ===== src/Tests/Others.antt =====
-- Articles, sources, fetches and feed URLs on concrete inputs.
use automation_portfolio.Prelude.{◌≡◌, refl, ◌↔◌, ◌≢◌, ◌∷◌, [], some, none}
use automation_portfolio.Prelude.Text.{Text, codes}
use automation_portfolio.Prelude.Int.{pos}
use automation_portfolio.Prelude.Time.{aware}
use automation_portfolio.Prelude.Result.{ok}
use automation_portfolio.Enums.{NewsItemStatus, PipelineRunStatus, FeedFetchStatus}
use automation_portfolio.Machine.{ensure_pipeline_run_transition}
use automation_portfolio.Machine.Laws.{RunStep, NewsStep, ensure_pipeline_run_transition_lem}
use automation_portfolio.News.{transition_to}
use automation_portfolio.News.Invariant.{HasReason, transition_to_lem}
use automation_portfolio.Fetch.{FeedFetch, post_init}
use automation_portfolio.Fetch.Invariant.{IsBuilt, HasOutcome, post_init-not_failed}
use automation_portfolio.Source.{record_fetch_success}
use automation_portfolio.Source.Laws.{fail_at, fail_at-success}
use automation_portfolio.Net.{SplitUrl}
use automation_portfolio.Net.Hosts.{ensure_https_url}
use automation_portfolio.Net.Policy.{ensure_feed_url}
use automation_portfolio.Net.Policy.Laws.{IsSafeFeedUrl, ensure_feed_url-IsSafeFeedUrl}
use automation_portfolio.Tests.Samples.{article, feed, one_url, feed_split}

transition_to_lem_example :
    (transition_to NewsItemStatus.candidate none article
      ≡ (ok tt, record article { status = NewsItemStatus.candidate; ignore_reason = none }))
    ↔ (NewsStep NewsItemStatus.collected NewsItemStatus.candidate
        × HasReason NewsItemStatus.candidate none)
transition_to_lem_example = transition_to_lem NewsItemStatus.candidate none article

ensure_pipeline_run_transition_lem_example :
    (ensure_pipeline_run_transition PipelineRunStatus.running PipelineRunStatus.success ≡ ok tt)
    ↔ RunStep PipelineRunStatus.running PipelineRunStatus.success
ensure_pipeline_run_transition_lem_example =
    ensure_pipeline_run_transition_lem PipelineRunStatus.running PipelineRunStatus.success

abbrev unchanged : FeedFetch
unchanged = record {
  run_id = 1;
  source_id = 5;
  status = FeedFetchStatus.not_modified;
  started_at = aware 10;
  finished_at = aware 20;
  id = 9;
  http_status = some (pos 304);
  entries_count = pos 0;
  duration_ms = pos 0;
  error_code = none;
  error_summary = none;
}

post_init-not_failed_example :
    (post_init unchanged ≡ ok unchanged)
    ↔ (IsBuilt unchanged × HasOutcome FeedFetchStatus.not_modified unchanged)
post_init-not_failed_example = post_init-not_failed unchanged not_modified-ne-failed
  where
    not_modified-ne-failed : FeedFetchStatus.not_modified ≢ FeedFetchStatus.failed
    not_modified-ne-failed h = cc

ensure_feed_url-IsSafeFeedUrl_example :
    (url : SplitUrl) × (host : Text) × (some feed_split ≡ some url)
    × IsSafeFeedUrl one_url (codes "a.org") url host
unfolding ensure_feed_url ensure_https_url
ensure_feed_url-IsSafeFeedUrl_example =
    ensure_feed_url-IsSafeFeedUrl one_url (codes "a.org") (codes "https://a.org/feed") refl

fail_at-success_example :
    let s' =
      fail_at
        (aware 30 ∷ aware 40 ∷ [])
        (record_fetch_success (aware 20) (some (codes "v1")) none feed).1 in
    (s'.consecutive_failures ≡ pos 2)
    × (s'.etag ≡ some (codes "v1"))
    × (s'.last_modified ≡ none)
    × (s'.last_success_at ≡ some (aware 20))
    × (s'.feed_url ≡ codes "https://a.org/feed")
unfolding record_fetch_success
fail_at-success_example =
    fail_at-success (aware 20) (some (codes "v1")) none (aware 30 ∷ aware 40 ∷ []) feed refl
      (refl, (refl, tt))
