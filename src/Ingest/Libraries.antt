-- ===== src/Ingest/Libraries.antt =====
-- The functions of Python's standard library, of nh3 and of feedparser that the ingestion calls.
use automation_portfolio.Prelude.{ℕ, Option, List}
use automation_portfolio.Prelude.Text.{Text}
use automation_portfolio.Prelude.Time.{Datetime}
use automation_portfolio.Net.{Net}

-- An entry as feedparser gives it: none where an attribute is missing or is no string. A
-- `struct_time` is the instant that it stands for in UTC.
pub record FeedEntry : Type 0 where
  pub title : Option Text
  pub id : Option Text
  pub guid : Option Text
  pub author : Option Text
  pub link : Option Text
  pub hrefs : List (Option Text)
  pub summary : Option Text
  pub description : Option Text
  pub contents : List (Option Text)
  pub published_parsed : Option ℕ
  pub updated_parsed : Option ℕ
  pub published : Option Text
  pub updated : Option Text

-- `url_path` and `url_query` are parts of what `urlsplit` gives. `idna` is none where encoding raises
-- UnicodeError, and `parsedate` where `parsedate_to_datetime` raises.
-- `float_milliseconds` is `int(span.total_seconds() * 1000)`, in floating-point arithmetic, of a span
-- that is not negative, given in microseconds.
pub record Library : Type 0 where
  pub net : Net
  pub url_path : Text → Text
  pub url_query : Text → Text
  pub parse_qsl : Text → List (Text × Text)
  pub urlencode : List (Text × Text) → Text
  pub urlunsplit : Text → Text → Text → Text → Text
  pub idna : Text → Option Text
  pub sha256_hex : Text → Text
  pub nh3_clean : Text → Text
  pub unescape : Text → Text
  pub feedparser : Text → List FeedEntry
  pub parsedate : Text → Option Datetime
  pub float_milliseconds : ℕ → ℕ
