-- ===== src/Select/Score.antt =====
-- `score_item` and the parts of a score.
use automation_portfolio.Prelude.{
  ℕ, suc, ◌+◌, ◌-◌, ◌*◌, max, Bool, true, false, ◌||◌, ◌&&◌, Option, none, some, List, [], ◌∷◌,
  ◌++◌, ◌==◌, leb, ltb, if◌then◌else◌, any, is_nil, length,
}
use automation_portfolio.Prelude.Text.{Text, strip}
use automation_portfolio.Prelude.Int.{pos}
use automation_portfolio.Prelude.Time.{Datetime, instant}
use automation_portfolio.Prelude.Decimal.{Decimal, finite}
use automation_portfolio.Enums.{NewsItemStatus, IgnoreReason}
use automation_portfolio.News.{NewsItem}
use automation_portfolio.Source.{Source}

-- `float`: `of_decimal` is also the value of a literal, and `true_div` is `/` of two integers.
pub record Floats : Type 1 where
  pub Float : Type 0
  pub of_decimal : Decimal → Float
  pub true_div : ℕ → ℕ → Float
  pub add : Float → Float → Float
  pub sub : Float → Float → Float
  pub mul : Float → Float → Float
  pub div : Float → Float → Float
  pub neg : Float → Float
  pub lt : Float → Float → Bool
  pub eq : Float → Float → Bool

pub record SelectionProfile : Type 0 where
  pub include_keywords : List Text
  pub exclude_keywords : List Text
  pub min_title_length : ℕ
  pub min_summary_length : ℕ

starts_with : Text → Text → Bool
starts_with [] s = true
starts_with (c ∷ p) [] = false
starts_with (c ∷ p) (d ∷ s) = (c == d) && starts_with p s

-- `part in text`
unfoldable pub is_in : Text → Text → Bool
unfolding starts_with
is_in part [] = is_nil part
is_in part (c ∷ s) = starts_with part (c ∷ s) || is_in part s

-- `_item_age_anchor`
abbrev pub item_age_anchor : NewsItem → Datetime
item_age_anchor item = elim item.published_at [ some t ↦ t | none ↦ item.collected_at ]

-- `sum(1 for keyword in keywords if keyword in text)`
hits : Text → List Text → ℕ
unfolding is_in
hits text [] = 0
hits text (k ∷ ks) = let rest = hits text ks in if is_in k text then suc rest else rest

-- `timedelta(hours=hours)`, in microseconds
abbrev pub hours : ℕ → ℕ
hours h = h * 3600000000

module _ (f : Floats) where
  literal : ℕ → ℕ → f.Float
  literal n scale = f.of_decimal (finite (pos n) scale)

  -- `_keyword_score`
  keyword_score : Text → List Text → f.Float
  unfolding hits literal
  keyword_score text keywords =
      if is_nil keywords
      then literal 0 1
      else let share = f.true_div (hits text keywords) (max 1 (length keywords)) in
        if f.lt share (literal 10 1) then share else literal 10 1

  -- `_freshness_score`, of two aware times
  freshness_score : Datetime → Datetime → ℕ → f.Float
  unfolding literal
  freshness_score anchor now max_age_hours =
      if ltb (instant now) (instant anchor)
      then literal 10 1
      else if leb (hours max_age_hours) (instant now - instant anchor)
      then literal 0 1
      else f.sub (literal 10 1) (f.true_div (instant now - instant anchor) (hours max_age_hours))

  -- `_source_weight`
  source_weight : Decimal → f.Float
  unfolding literal
  source_weight priority = f.div (f.of_decimal priority) (literal 100 1)

  weighted : Text → NewsItem → Source → SelectionProfile → Datetime → ℕ → f.Float
  unfolding keyword_score freshness_score source_weight literal
  weighted haystack item source profile now max_age_hours =
      f.add
        (f.add (f.mul (literal 45 2) (keyword_score haystack profile.include_keywords))
          (f.mul (literal 30 2) (freshness_score (item_age_anchor item) now max_age_hours)))
        (f.mul (literal 25 2) (source_weight source.priority))

  abbrev is_done : NewsItemStatus → Bool
  is_done NewsItemStatus.used = true
  is_done NewsItemStatus.ignored = true
  is_done _ = false

  -- `lower` is `str.lower`.
  unfoldable pub score_item :
      (Text → Text)
      → NewsItem
      → Source
      → SelectionProfile
      → Datetime
      → ℕ
      → Option f.Float × Option IgnoreReason
  unfolding is_in strip weighted
  score_item lower item source profile now max_age_hours =
      let title = strip item.title in
      let summary = strip item.sanitized_summary in
      let haystack = lower title ++ (32 ∷ lower summary) in
      if is_done item.status
      then (none, some IgnoreReason.irrelevant)
      else if ltb (instant (item_age_anchor item) + hours max_age_hours) (instant now)
      then (none, some IgnoreReason.too_old)
      else if ltb (length title) profile.min_title_length
      then (none, some IgnoreReason.missing_title)
      else if ltb (length summary) profile.min_summary_length
      then (none, some IgnoreReason.missing_content)
      else if any (λ k. is_in k haystack) profile.exclude_keywords
      then (none, some IgnoreReason.irrelevant)
      else (some (weighted haystack item source profile now max_age_hours), none)
