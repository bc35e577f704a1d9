-- ===== src/News/Construct.antt =====
-- `NewsItem.__post_init__`.
use automation_portfolio.Prelude.{none, ltb, length, is_nil}
use automation_portfolio.Prelude.Text.{strip}
use automation_portfolio.Prelude.Result.{Result, ok, ◌>>=◌, ◌>>◌, raise_if, on_some}
use automation_portfolio.Messages.{
  value_error, news_title_required, news_title_too_long, news_summary_required,
}
use automation_portfolio.Validators.{ensure_utc_datetime, ensure_sha256, normalize_bounded_string}
use automation_portfolio.Net.{Net}
use automation_portfolio.Net.Hosts.{ensure_https_url}
use automation_portfolio.News.Entity.{NewsItem, validate_ignore_reason}

unfoldable pub post_init : Net → NewsItem → Result NewsItem
unfolding ensure_utc_datetime ensure_sha256 strip validate_ignore_reason
post_init net i = do
  ensure_https_url net i.original_url none
  ensure_https_url net i.canonical_url none
  ensure_sha256 i.url_hash
  ensure_sha256 i.content_hash
  ensure_utc_datetime i.collected_at
  on_some ensure_utc_datetime i.published_at
  let title = strip i.title
  raise_if (is_nil title) (value_error news_title_required)
  raise_if (ltb 500 (length title)) (value_error news_title_too_long)
  normalized_title ← normalize_bounded_string i.normalized_title 1 500
  let summary = strip i.sanitized_summary
  raise_if (is_nil summary) (value_error news_summary_required)
  validate_ignore_reason i.status i.ignore_reason
  ok (record i { title = title; normalized_title = normalized_title; sanitized_summary = summary })
