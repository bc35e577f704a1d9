-- ===== src/Generate/Output.antt =====
-- The model's answer, and the local data of a candidate.
use automation_portfolio.Prelude.{Option, List}
use automation_portfolio.Prelude.Text.{Text}
use automation_portfolio.Prelude.Int.{ℤ}
use automation_portfolio.Prelude.Decimal.{Decimal}
use automation_portfolio.Enums.{DigestTag}
use automation_portfolio.News.{NewsItem}
use automation_portfolio.Source.{Source}

-- `relevance_score` is the decimal that `Decimal(str(score))` gives.
pub record DigestModelItem : Type 0 where
  pub candidate_id : Text
  pub summary : Text
  pub tag : DigestTag
  pub relevance_score : Decimal
  pub selection_reason : Text

pub record DigestModelOutput : Type 0 where
  pub digest_title : Text
  pub items : List DigestModelItem

pub record LlmDigestResult : Type 0 where
  pub output : DigestModelOutput
  pub response_id : Option Text
  pub input_tokens : Option ℤ
  pub output_tokens : Option ℤ

-- The score is used in the prompt only; it is of the type of the machine's floats.
pub record CandidateContext (Float : Type 0) : Type 0 where
  pub candidate_id : Text
  pub news_item : NewsItem
  pub source : Source
  pub pre_score : Float
