-- ===== src/Select/Choose.antt =====
-- `select_candidates`.
use automation_portfolio.Prelude.{
  ℕ, suc, Bool, not, Option, none, some, List, [], ◌∷◌, ◌==◌, leb, ltb, if◌then◌else◌,
}
use automation_portfolio.Prelude.Text.{Text}
use automation_portfolio.Prelude.Time.{Datetime}
use automation_portfolio.Prelude.Sort.{sort}
use automation_portfolio.Enums.{IgnoreReason}
use automation_portfolio.News.{NewsItem}
use automation_portfolio.Source.{Source}
use automation_portfolio.Select.Score.{Floats, SelectionProfile, score_item}

abbrev pub max_items_per_source : ℕ
max_items_per_source = 3

pub record IgnoredItem : Type 0 where
  pub news_item_id : ℕ
  pub reason : IgnoreReason

pub record ScoredCandidate (f : Floats) : Type 0 where
  pub item : NewsItem
  pub score : f.Float

pub record SelectionResult (f : Floats) : Type 0 where
  pub candidates : List (ScoredCandidate f)
  pub ignored : List IgnoredItem

-- `per_source[source_id] = n`
abbrev pub put : (ℕ → ℕ) → ℕ → ℕ → ℕ → ℕ
put per_source source_id n s = if s == source_id then n else per_source s

module _ (f : Floats) where
  -- The comparison of the keys `(-row.score, row.item.id.hex)`. An id is the number that its
  -- digits, 32 of them in each, write.
  unfoldable pub key_lt : ScoredCandidate f → ScoredCandidate f → Bool
  key_lt a b =
      if f.eq (f.neg a.score) (f.neg b.score)
      then ltb a.item.id b.item.id
      else f.lt (f.neg a.score) (f.neg b.score)

  -- The second loop: `count` is `len(selected)`.
  unfoldable pub take_capped :
      ℕ → ℕ → (ℕ → ℕ) → ℕ → List (ScoredCandidate f) → List (ScoredCandidate f)
  take_capped max_candidates max_per_source per_source count [] = []
  take_capped max_candidates max_per_source per_source count (c ∷ cs) =
      let source_id = c.item.source_id in
      let taken = per_source source_id in
      let skipped = take_capped max_candidates max_per_source per_source count cs in
      let rest =
        take_capped max_candidates max_per_source (put per_source source_id (suc taken)) (suc count)
          cs in
      if leb max_per_source taken
      then skipped
      else c ∷ (if leb max_candidates (suc count) then [] else rest)

  -- `if reason is not None or score is None`
  abbrev pub add_judged :
      NewsItem
      → Option f.Float × Option IgnoreReason
      → List (ScoredCandidate f) × List IgnoredItem
      → List (ScoredCandidate f) × List IgnoredItem
  add_judged item (some score, none) (scored, ignored) =
      (record { item = item; score = score } ∷ scored, ignored)
  add_judged item (_, some reason) (scored, ignored) =
      (scored, record { news_item_id = item.id; reason = reason } ∷ ignored)
  add_judged item (none, none) (scored, ignored) =
      (scored, record { news_item_id = item.id; reason = IgnoreReason.irrelevant } ∷ ignored)

  module _ (lower : Text → Text) (sources_by_id : ℕ → Option Source) (profile : SelectionProfile)
      (now : Datetime) (max_age_hours : ℕ) where
    -- The body of the first loop: an item is scored, or ignored for a reason.
    unfoldable pub judge : NewsItem → Option f.Float × Option IgnoreReason
    unfolding score_item
    judge item = elim (sources_by_id item.source_id) [
      | none ↦ (none, some IgnoreReason.irrelevant)
      | some source ↦ score_item f lower item source profile now max_age_hours
    ]

    -- The first loop.
    unfoldable pub judge_all : List NewsItem → List (ScoredCandidate f) × List IgnoredItem
    unfolding judge
    judge_all [] = ([], [])
    judge_all (item ∷ items) = add_judged item (judge item) (judge_all items)

    unfoldable pub select_candidates : List NewsItem → ℕ → ℕ → SelectionResult f
    unfolding judge_all key_lt take_capped sort
    select_candidates items max_candidates max_per_source =
        let judged = judge_all items in
        record {
          candidates =
              take_capped max_candidates max_per_source (λ _. 0) 0
                (sort (λ a b. not (key_lt b a)) judged.0);
          ignored = judged.1;
        }
