-- ===== src/News/Entity.antt =====
-- The fields of `NewsItem`, and `_validate_ignore_reason`.
use automation_portfolio.Prelude.{ℕ, not, Option, is_some}
use automation_portfolio.Prelude.Text.{Text}
use automation_portfolio.Prelude.Time.{Datetime}
use automation_portfolio.Prelude.Result.{Result, raise_if}
use automation_portfolio.Messages.{
  value_error, news_ignore_reason_required, news_ignore_reason_forbidden,
}
use automation_portfolio.Enums.{NewsItemStatus, IgnoreReason}

pub record NewsItem : Type 0 where
  pub source_id : ℕ
  pub original_url : Text
  pub canonical_url : Text
  pub url_hash : Text
  pub title : Text
  pub normalized_title : Text
  pub sanitized_summary : Text
  pub content_hash : Text
  pub id : ℕ
  pub external_id : Option Text
  pub raw_summary : Option Text
  pub author : Option Text
  pub published_at : Option Datetime
  pub collected_at : Datetime
  pub status : NewsItemStatus
  pub ignore_reason : Option IgnoreReason

unfoldable pub validate_ignore_reason : NewsItemStatus → Option IgnoreReason → Result (Unit {0})
validate_ignore_reason NewsItemStatus.ignored reason =
    raise_if (not (is_some reason)) (value_error news_ignore_reason_required)
validate_ignore_reason _ reason =
    raise_if (is_some reason) (value_error news_ignore_reason_forbidden)
