-- ===== src/Tests/Samples.antt =====
-- The values that the tests run on.
use automation_portfolio.Prelude.{ℕ, ◌+◌, ◌-◌, ◌==◌, ltb, none, some, [], ◌∷◌, true}
use automation_portfolio.Prelude.Text.{codes}
use automation_portfolio.Prelude.Int.{pos}
use automation_portfolio.Prelude.Time.{aware}
use automation_portfolio.Prelude.Decimal.{finite}
use automation_portfolio.Enums.{
  PipelineRunStatus, TriggerType, DeliveryStatus, DigestStatus, NewsItemStatus,
}
use automation_portfolio.Run.{PipelineRun, zero_counters}
use automation_portfolio.Attempt.{Attempt}
use automation_portfolio.Digest.{Digest, DigestItem}
use automation_portfolio.News.{NewsItem}
use automation_portfolio.Source.{Source}
use automation_portfolio.Net.{Net, SplitUrl}
use automation_portfolio.Render.{RenderedDigestLine}
use automation_portfolio.Select.{Floats, SelectionProfile}

abbrev pub started : PipelineRun
started = record {
  trigger_type = TriggerType.manual;
  app_version = codes "1.2.0";
  id = 1;
  status = PipelineRunStatus.running;
  started_at = aware 1000000;
  finished_at = none;
  counters = zero_counters;
  error_code = none;
  error_summary = none;
  duration_ms = none;
}

abbrev pub pending : Attempt
pending = record {
  digest_id = 7;
  part_number = pos 1;
  attempt_number = pos 2;
  id = 3;
  status = DeliveryStatus.pending;
  telegram_message_id = none;
  http_status = none;
  retry_after_seconds = none;
  error_code = none;
  error_summary = none;
  started_at = aware 50;
  finished_at = none;
}

abbrev pub first_item : DigestItem
first_item = record {
  news_item_id = 11;
  position = pos 1;
  summary = codes "A short summary";
  tag = codes "AI_MODELS";
  relevance_score = finite (pos 9) 1;
  selection_reason = codes "New";
}

abbrev pub second_item : DigestItem
second_item = record first_item { news_item_id = 12; position = pos 2 }

abbrev pub generated : Digest
generated = record {
  run_id = 1;
  digest_date = 20000;
  title = codes "News";
  rendered_text = codes "Text";
  prompt_version = codes "v1";
  items = second_item ∷ first_item ∷ [];
  model = codes "gpt-4o-mini";
  id = 7;
  status = DigestStatus.generated;
  provider_response_id = none;
  input_tokens = none;
  output_tokens = some (pos 10);
  created_at = aware 100;
  sent_at = none;
  error_code = none;
  error_summary = none;
}

abbrev pub article : NewsItem
article = record {
  source_id = 5;
  original_url = codes "https://a.org/x";
  canonical_url = codes "https://a.org/x";
  url_hash = codes "aaaaaaaaaaaaaaaaaaaaaaaaaaaaaaaaaaaaaaaaaaaaaaaaaaaaaaaaaaaaaaaa";
  title = codes "Title";
  normalized_title = codes "title";
  sanitized_summary = codes "Summary";
  content_hash = codes "aaaaaaaaaaaaaaaaaaaaaaaaaaaaaaaaaaaaaaaaaaaaaaaaaaaaaaaaaaaaaaaa";
  id = 11;
  external_id = none;
  raw_summary = none;
  author = none;
  published_at = none;
  collected_at = aware 90;
  status = NewsItemStatus.collected;
  ignore_reason = none;
}

abbrev pub feed : Source
feed = record {
  key = codes "a";
  name = codes "A";
  feed_url = codes "https://a.org/feed";
  allowed_host = codes "a.org";
  category = codes "tech";
  language = codes "en";
  enabled = true;
  priority = finite (pos 5) 0;
  id = 5;
  etag = none;
  last_modified = none;
  last_checked_at = none;
  last_success_at = none;
  consecutive_failures = pos 2;
  created_at = aware 1;
  updated_at = aware 1;
}

abbrev pub first_line : RenderedDigestLine
first_line = record { item = first_item; news_item = article; source = feed }

abbrev pub second_line : RenderedDigestLine
second_line = record { item = second_item; news_item = article; source = feed }

-- A net whose only URL is `https://a.org/feed`.
abbrev pub feed_split : SplitUrl
feed_split = record {
  scheme = codes "https";
  netloc = codes "a.org";
  hostname = some (codes "a.org");
  username = none;
  password = none;
  port = some none;
}

abbrev pub one_url : Net
one_url = record {
  urlsplit = λ _. some feed_split;
  ip_address = λ _. none;
  lower = λ s. s;
  upper = λ s. s;
}

-- Scores in whole points, in place of floating-point numbers.
abbrev pub points : Floats
points = record {
  Float = ℕ;
  of_decimal = λ _. 1;
  true_div = λ a b. a;
  add = λ a b. a + b;
  sub = λ a b. a - b;
  mul = λ a b. a;
  div = λ a b. a;
  neg = λ a. 1000 - a;
  lt = λ a b. ltb a b;
  eq = λ a b. a == b;
}

abbrev pub lenient : SelectionProfile
lenient = record {
  include_keywords = [];
  exclude_keywords = codes "advert" ∷ [];
  min_title_length = 3;
  min_summary_length = 3;
}
