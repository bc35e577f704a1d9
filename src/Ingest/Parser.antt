-- ===== src/Ingest/Parser.antt =====
-- app/infrastructure/feeds/parser.py.
use automation_portfolio.Prelude.{
  ℕ, ◌||◌, Option, none, some, List, [], ◌∷◌, map, ltb, if◌then◌else◌, is_nil, take,
}
use automation_portfolio.Prelude.Text.{Text, strip}
use automation_portfolio.Prelude.Time.{Datetime, aware, instant}
use automation_portfolio.Ingest.Libraries.{Library, FeedEntry}

pub record ParsedFeedEntry : Type 0 where
  pub external_id : Option Text
  pub link : Option Text
  pub title : Option Text
  pub summary : Option Text
  pub author : Option Text
  pub published_at : Option Datetime

-- `a or b` of two attributes that may be missing or empty.
abbrev or_else : Option Text → Option Text → Option Text
or_else none b = b
or_else (some []) b = b
or_else (some (c ∷ s)) b = some (c ∷ s)

abbrev or_time : Option ℕ → Option ℕ → Option ℕ
or_time none b = b
or_time (some t) b = some t

-- `_coerce_datetime` of a `struct_time`, and of a string.
abbrev coerce_struct : Option ℕ → Option Datetime
coerce_struct none = none
coerce_struct (some t) = some (aware t)

-- A text that is there and that is not blank, stripped.
stripped : Option Text → Option Text
unfolding strip
stripped none = none
stripped (some value) = if is_nil (strip value) then none else some (strip value)

-- The first `href` of the list that is not blank.
first_href : List (Option Text) → Option Text
unfolding stripped
first_href [] = none
first_href (href ∷ hrefs) =
    let rest = first_href hrefs in elim (stripped href) [ none ↦ rest | some link ↦ some link ]

unfoldable pub entry_link : FeedEntry → Option Text
unfolding stripped first_href
entry_link entry = elim (stripped entry.link) [
  | none ↦ first_href entry.hrefs
  | some link ↦ some link
]

-- The value itself, if it is not blank.
not_blank : Option Text → Option Text → Option Text
unfolding strip
not_blank none rest = rest
not_blank (some value) rest = if is_nil (strip value) then rest else some value

abbrev first_content : List (Option Text) → Option Text
first_content [] = none
first_content (value ∷ values) = value

unfoldable pub entry_summary : FeedEntry → Option Text
unfolding not_blank
entry_summary entry =
    not_blank entry.summary
      (not_blank entry.description (not_blank (first_content entry.contents) none))

abbrev strip_some : Option Text → Option Text
strip_some none = none
strip_some (some value) = some (strip value)

module _ (library : Library) where
  unfoldable pub coerce_text : Option Text → Option Datetime
  coerce_text none = none
  coerce_text (some value) = elim (library.parsedate value) [
    | none ↦ none
    | some t ↦ some (aware (instant t))
  ]

  unfoldable pub published_of : FeedEntry → Option Datetime
  unfolding coerce_text
  published_of entry = elim (coerce_struct (or_time entry.published_parsed entry.updated_parsed)) [
    | none ↦ coerce_text (or_else entry.published entry.updated)
    | some t ↦ some t
  ]

  unfoldable pub parse_entry : FeedEntry → ParsedFeedEntry
  unfolding entry_link entry_summary published_of strip
  parse_entry entry = record {
    external_id = strip_some (or_else entry.id entry.guid);
    link = entry_link entry;
    title = strip_some entry.title;
    summary = entry_summary entry;
    author = strip_some entry.author;
    published_at = published_of entry;
  }

  -- `parse_feed_bytes`: none where it raises FeedParseError.
  unfoldable pub parse_feed_bytes : Text → ℕ → Option (List ParsedFeedEntry)
  unfolding parse_entry
  parse_feed_bytes body max_entries =
      let results = map parse_entry (take max_entries (library.feedparser body)) in
      if ltb max_entries 1 || is_nil (library.feedparser body) || is_nil results
      then none
      else some results
