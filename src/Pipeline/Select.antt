-- ===== src/Pipeline/Select.antt =====
-- The parts of `_run_locked` that read and mark the articles.
use automation_portfolio.Prelude.{
  ℕ, Bool, true, false, Option, none, some, List, [], ◌∷◌, ◌==◌, if◌then◌else◌,
}
use automation_portfolio.Prelude.Action.{Action, ◌>>=◌, ◌>>◌, pure}
use automation_portfolio.Enums.{NewsItemStatus}
use automation_portfolio.Net.{Net}
use automation_portfolio.News.{NewsItem}
use automation_portfolio.Source.{Source}
use automation_portfolio.Store.{Store, get_news, transition_news}
use automation_portfolio.Select.{Floats, IgnoredItem, ScoredCandidate}

abbrev is_collected : NewsItemStatus → Bool
is_collected NewsItemStatus.collected = true
is_collected _ = false

-- `{source.id: source for source in sources}`: of two of one id the later one stays.
unfoldable pub source_by_id : List Source → ℕ → Option Source
source_by_id [] id = none
source_by_id (s ∷ sources) id =
    let rest = source_by_id sources id in
    elim rest [ some later ↦ some later | none ↦ if s.id == id then some s else none ]

module _ (net : Net) where
  unfoldable pub mark_current : IgnoredItem → Option NewsItem → Action Store (Unit {0})
  mark_current ignored none = pure tt
  mark_current ignored (some current) = elim (is_collected current.status) [
    | false ↦ pure tt
    | true ↦ do
      _ ← transition_news net ignored.news_item_id NewsItemStatus.ignored (some ignored.reason)
      pure tt
  ]

  unfoldable pub mark_ignored : List IgnoredItem → Action Store (Unit {0})
  unfolding mark_current
  mark_ignored [] = pure tt
  mark_ignored (i ∷ ignored) = do
    current ← get_news net i.news_item_id
    mark_current i current
    mark_ignored ignored

  unfoldable pub mark_candidate : NewsItem → Action Store NewsItem
  mark_candidate item = elim (is_collected item.status) [
    | false ↦ pure item
    | true ↦ transition_news net item.id NewsItemStatus.candidate none
  ]

  -- The ids of the candidates, with their scores.
  unfoldable pub mark_candidates :
      {f : Floats} → List (ScoredCandidate f) → Action Store (List (ℕ × f.Float))
  unfolding mark_candidate
  mark_candidates [] = pure []
  mark_candidates (c ∷ candidates) = do
    item ← mark_candidate c.item
    rest ← mark_candidates candidates
    pure ((item.id, c.score) ∷ rest)

  unfoldable pub load_candidates : List ℕ → Action Store (List NewsItem)
  load_candidates [] = pure []
  load_candidates (id ∷ ids) = do
    loaded ← get_news net id
    rest ← load_candidates ids
    pure (elim loaded [ none ↦ rest | some item ↦ item ∷ rest ])

-- `scores_by_id.get(id)`: of two scores of one id the later one stays.
unfoldable pub score_of {ℓ} : {F : Type ℓ} → List (ℕ × F) → ℕ → Option F
score_of [] id = none
score_of ((k, score) ∷ scores) id =
    let rest = score_of scores id in
    elim rest [ some later ↦ some later | none ↦ if k == id then some score else none ]
