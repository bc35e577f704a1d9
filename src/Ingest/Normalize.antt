-- ===== src/Ingest/Normalize.antt =====
-- `news_item_from_entry` of app/infrastructure/feeds/normalize.py.
use automation_portfolio.Prelude.{
  ℕ, Bool, not, ◌||◌, Option, none, some, [], ◌∷◌, if◌then◌else◌, is_nil, take,
}
use automation_portfolio.Prelude.Text.{Text, codes, strip, text_eq}
use automation_portfolio.Prelude.Time.{Datetime}
use automation_portfolio.Prelude.Result.{Result, ok, raise, ◌>>=◌}
use automation_portfolio.Messages.{value_error}
use automation_portfolio.Enums.{NewsItemStatus}
use automation_portfolio.Net.Hosts.{normalize_hostname}
use automation_portfolio.Net.{SplitUrl}
use automation_portfolio.News.{NewsItem, post_init}
use automation_portfolio.Ingest.Libraries.{Library}
use automation_portfolio.Ingest.Url.{canonicalize_url, starts_with}
use automation_portfolio.Ingest.Clean.{sanitize_feed_text, normalize_title, url_hash, content_hash}
use automation_portfolio.Ingest.Parser.{ParsedFeedEntry}

abbrev or_empty : Option Text → Text
or_empty none = []
or_empty (some s) = s

-- `except ValueError`
unfoldable pub catch_value_error : {A : Type 0} → Result A → Result (Option A)
catch_value_error (ok a) = ok (some a)
catch_value_error (raise (value_error m)) = ok none
catch_value_error (raise e) = raise e

-- `entry.author[:255] if entry.author else None`
abbrev bounded_author : Option Text → Option Text
bounded_author none = none
bounded_author (some []) = none
bounded_author (some (c ∷ s)) = some (take 255 (c ∷ s))

module _ (library : Library) where
  open library use {net}

  abbrev hostname_of : Option SplitUrl → Text
  hostname_of none = []
  hostname_of (some parsed) = or_empty parsed.hostname

  -- The block of the `try`: the canonical URL, and whether the two hosts agree.
  unfoldable pub canonical_link : Text → Text → Result (Text × Bool)
  unfolding canonicalize_url normalize_hostname text_eq
  canonical_link link allowed_host = do
    canonical ← canonicalize_url library link
    article_host ← normalize_hostname net (hostname_of (net.urlsplit canonical))
    expected_host ← normalize_hostname net allowed_host
    ok (canonical, text_eq article_host expected_host)

  -- The summary as it is stored, and the title in its place where nothing is left of it.
  unfoldable pub sanitized_summary_of : Option Text → Text → ℕ → Text
  unfolding sanitize_feed_text
  sanitized_summary_of raw_summary title maximum_length =
      let raw = or_empty raw_summary in
      let sanitized =
        sanitize_feed_text library (if is_nil raw then title else raw) maximum_length in
      if is_nil sanitized then sanitize_feed_text library title maximum_length else sanitized

  -- The call of `NewsItem(...)`, with the id that `uuid4` gives.
  unfoldable pub build_item :
      ParsedFeedEntry → ℕ → Datetime → Text → Text → Text → Text → ℕ → Result NewsItem
  unfolding normalize_title starts_with
  build_item entry source_id collected_at link canonical title sanitized id =
      let normalized = normalize_title library title in
      post_init net (record {
        source_id = source_id;
        original_url = if starts_with (codes "https://") (net.lower link) then link else canonical;
        canonical_url = canonical;
        url_hash = url_hash library canonical;
        title = take 500 title;
        normalized_title = take 500 normalized;
        sanitized_summary = sanitized;
        content_hash = content_hash library (take 500 normalized) sanitized;
        id = id;
        external_id = entry.external_id;
        raw_summary = entry.summary;
        author = bounded_author entry.author;
        published_at = entry.published_at;
        collected_at = collected_at;
        status = NewsItemStatus.collected;
        ignore_reason = none;
      })

  -- From the link on: none is a skipped entry.
  unfoldable pub item_at :
      ParsedFeedEntry
      → ℕ
      → Datetime
      → ℕ
      → Text
      → Text
      → ℕ
      → Option (Text × Bool)
      → Result (Option NewsItem)
  unfolding sanitized_summary_of build_item normalize_title
  item_at entry source_id collected_at maximum_length title link id none = ok none
  item_at entry source_id collected_at maximum_length title link id (some (canonical, same_host)) =
      let sanitized = sanitized_summary_of entry.summary title maximum_length in
      let item = build_item entry source_id collected_at link canonical title sanitized id in
      if not same_host || is_nil sanitized || is_nil (normalize_title library title)
      then ok none
      else item >>= λ i. ok (some i)

  unfoldable pub news_item_from_entry :
      ParsedFeedEntry → ℕ → Datetime → ℕ → Text → ℕ → Result (Option NewsItem)
  unfolding item_at canonical_link catch_value_error strip
  news_item_from_entry entry source_id collected_at article_max_length allowed_host id =
      let title = strip (or_empty entry.title) in
      let link = strip (or_empty entry.link) in
      let found = catch_value_error (canonical_link link allowed_host) >>= λ canonical.
      item_at entry source_id collected_at article_max_length title link id canonical in
      if is_nil title || is_nil link then ok none else found
