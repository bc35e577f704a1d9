-- ===== src/Source/Entity.antt =====
-- The fields of `Source` and its `__post_init__`.
use automation_portfolio.Prelude.{
  ℕ, Bool, true, not, ◌&&◌, ◌||◌, Option, none, some, [], ◌∷◌, ltb, leb, ◌==◌, length, any,
  if◌then◌else◌,
}
use automation_portfolio.Prelude.Text.{Text, strip}
use automation_portfolio.Prelude.Int.{ℤ}
use automation_portfolio.Prelude.Time.{Datetime}
use automation_portfolio.Prelude.Decimal.{Decimal, is_within}
use automation_portfolio.Prelude.Result.{Result, ok, raise, ◌>>=◌, ◌>>◌, raise_if, on_some}
use automation_portfolio.Messages.{
  value_error, source_key_invalid, source_language_invalid, source_priority_invalid,
  source_header_invalid,
}
use automation_portfolio.Validators.{
  ensure_utc_datetime, ensure_non_negative_int, normalize_bounded_string,
}
use automation_portfolio.Net.{Net}
use automation_portfolio.Net.Hosts.{normalize_hostname}
use automation_portfolio.Net.Policy.{ensure_feed_url}

pub record Source : Type 0 where
  pub key : Text
  pub name : Text
  pub feed_url : Text
  pub allowed_host : Text
  pub category : Text
  pub language : Text
  pub enabled : Bool
  pub priority : Decimal
  pub id : ℕ
  pub etag : Option Text
  pub last_modified : Option Text
  pub last_checked_at : Option Datetime
  pub last_success_at : Option Datetime
  pub consecutive_failures : ℤ
  pub created_at : Datetime
  pub updated_at : Datetime

abbrev is_key_char : ℕ → Bool
is_key_char c = (leb b'a' c && leb c b'z') || (leb b'0' c && leb c b'9')

-- The expression `[a-z0-9]+(?:-[a-z0-9]+)*`: `fresh` is set where a run of letters has to begin.
is_key : Bool → Text → Bool
is_key fresh [] = not fresh
is_key fresh (c ∷ s) =
    (is_key_char c || ((c == b'-') && not fresh)) && is_key (not (is_key_char c)) s

abbrev is_ascii_letter : ℕ → Bool
is_ascii_letter c = (leb b'a' c && leb c b'z') || (leb b'A' c && leb c b'Z')

-- `_validate_header`
unfoldable pub validate_header : Option Text → Result (Option Text)
validate_header none = ok none
validate_header (some value) =
    if any (λ c. ltb c 32 || (c == 127)) value
    then raise (value_error source_header_invalid)
    else ok (some value)

unfoldable pub post_init : Net → Source → Result Source
unfolding is_key strip is_within ensure_non_negative_int ensure_utc_datetime validate_header
post_init net s = do
  trimmed_key ← normalize_bounded_string s.key 1 64
  let key = net.lower trimmed_key
  raise_if (not (is_key true key)) (value_error source_key_invalid)
  allowed_host ← normalize_hostname net s.allowed_host
  ensure_feed_url net s.feed_url allowed_host
  name ← normalize_bounded_string s.name 1 160
  category ← normalize_bounded_string s.category 1 64
  let language = net.lower (strip s.language)
  raise_if (not (length language == 2) || any (λ c. not (is_ascii_letter c)) language)
      (value_error source_language_invalid)
  raise_if (not (is_within 10 s.priority)) (value_error source_priority_invalid)
  _ ← ensure_non_negative_int s.consecutive_failures
  ensure_utc_datetime s.created_at
  ensure_utc_datetime s.updated_at
  on_some ensure_utc_datetime s.last_checked_at
  on_some ensure_utc_datetime s.last_success_at
  etag ← validate_header s.etag
  last_modified ← validate_header s.last_modified
  ok (record s {
    key = key;
    allowed_host = allowed_host;
    name = name;
    category = category;
    language = language;
    etag = etag;
    last_modified = last_modified;
  })
