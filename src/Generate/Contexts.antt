-- ===== src/Generate/Contexts.antt =====
-- `build_candidate_contexts`, and the look-up by article.
use automation_portfolio.Prelude.{
  ℕ, suc, Option, none, some, List, [], ◌∷◌, ◌++◌, ltb, ◌==◌, if◌then◌else◌,
}
use automation_portfolio.Prelude.Text.{Text, codes}
use automation_portfolio.Prelude.Show.{show_nat}
use automation_portfolio.Prelude.Result.{Result, ok, raise, ◌>>=◌}
use automation_portfolio.Messages.{key_error}
use automation_portfolio.News.{NewsItem}
use automation_portfolio.Source.{Source}
use automation_portfolio.Digest.{DigestItem}
use automation_portfolio.Render.{RenderedDigestLine}
use automation_portfolio.Generate.Output.{CandidateContext}

-- `f"c_{index:02d}"`
unfoldable pub candidate_id_of : ℕ → Text
unfolding show_nat
candidate_id_of index =
    codes "c_" ++ (if ltb index 10 then b'0' ∷ show_nat index else show_nat index)

-- `d[key]`
abbrev or_key_error : {A : Type 0} → Option A → Result A
or_key_error none = raise key_error
or_key_error (some a) = ok a

abbrev or_zero : {F : Type 0} → F → Option F → F
or_zero zero none = zero
or_zero zero (some score) = score

module _ {F : Type 0} (zero : F) where
  unfoldable pub contexts_from :
      ℕ
      → List NewsItem
      → (ℕ → Option Source)
      → (ℕ → Option F)
      → Result (List (Text × CandidateContext F))
  unfolding candidate_id_of
  contexts_from index [] sources_by_id scores_by_id = ok []
  contexts_from index (item ∷ items) sources_by_id scores_by_id = do
    source ← or_key_error (sources_by_id item.source_id)
    rest ← contexts_from (suc index) items sources_by_id scores_by_id
    let candidate_id = candidate_id_of index
    ok (
        (
          candidate_id,
          record {
            candidate_id = candidate_id;
            news_item = item;
            source = source;
            pre_score = or_zero zero (scores_by_id item.id);
          },
        )
        ∷ rest)

  abbrev pub build_candidate_contexts :
      List NewsItem
      → (ℕ → Option Source)
      → (ℕ → Option F)
      → Result (List (Text × CandidateContext F))
  build_candidate_contexts = contexts_from 1

module _ {F : Type 0} where
  -- `_context_by_news_id`: of two contexts of one article the later one stays.
  unfoldable pub context_by_news_id :
      ℕ → List (Text × CandidateContext F) → Option (CandidateContext F)
  context_by_news_id id [] = none
  context_by_news_id id ((k, context) ∷ contexts) =
      let rest = context_by_news_id id contexts in
      elim rest [
        | some later ↦ some later
        | none ↦ if context.news_item.id == id then some context else none
      ]

  unfoldable pub lines_of :
      List (Text × CandidateContext F) → List DigestItem → Result (List RenderedDigestLine)
  unfolding context_by_news_id
  lines_of contexts [] = ok []
  lines_of contexts (item ∷ items) = do
    context ← or_key_error (context_by_news_id item.news_item_id contexts)
    rest ← lines_of contexts items
    ok (record { item = item; news_item = context.news_item; source = context.source } ∷ rest)
