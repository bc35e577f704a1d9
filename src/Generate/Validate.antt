-- ===== src/Generate/Validate.antt =====
-- `validate_model_output`. `DigestTag(item.tag)` cannot fail on a tag.
use automation_portfolio.Prelude.{
  ℕ, suc, not, ◌&&◌, Option, none, some, List, [], ◌∷◌, ◌++◌, leb, any, length, is_nil,
  if◌then◌else◌,
}
use automation_portfolio.Prelude.Text.{Text, codes, text_eq}
use automation_portfolio.Prelude.Int.{pos}
use automation_portfolio.Prelude.Result.{Result, ok, ◌>>=◌, ◌>>◌, raise_if}
use automation_portfolio.Messages.{
  Issue, item_count_issue, duplicate_candidate, unknown_candidate, used_candidate, not_a_candidate,
  post_validation_error,
}
use automation_portfolio.Enums.{NewsItemStatus, tag_value}
use automation_portfolio.Net.{Net}
use automation_portfolio.News.{NewsItem}
use automation_portfolio.Digest.{DigestItem, item_post_init}
use automation_portfolio.Generate.Output.{DigestModelItem, DigestModelOutput, CandidateContext}
use automation_portfolio.Generate.Markup.{summary_clean}

-- The local variables of the loop.
pub record Progress : Type 0 where
  pub errors : List Issue
  pub seen : List Text
  pub digest_items : List DigestItem

unfoldable pub status_issues : Text → NewsItemStatus → List Issue
status_issues id NewsItemStatus.used = used_candidate id ∷ []
status_issues id NewsItemStatus.candidate = []
status_issues id _ = not_a_candidate id ∷ []

-- `dict.get`
unfoldable pub get_context {ℓ} : {A : Type ℓ} → Text → List (Text × A) → Option A
unfolding text_eq
get_context id [] = none
get_context id ((k, v) ∷ contexts) =
    let rest = get_context id contexts in if text_eq k id then some v else rest

-- The test of `seen`, before the id is added to it.
abbrev pub duplicate_issues : Text → List Text → List Issue
duplicate_issues id seen = if any (text_eq id) seen then duplicate_candidate id ∷ [] else []

module _ (net : Net) where
  -- The end of a pass: the item is built unless an error was found so far.
  unfoldable pub add_item : ℕ → DigestModelItem → NewsItem → Progress → Result Progress
  add_item position item news p =
      let built = item_post_init net (record {
        news_item_id = news.id;
        position = pos position;
        summary = item.summary;
        tag = codes (tag_value item.tag);
        relevance_score = item.relevance_score;
        selection_reason = item.selection_reason;
      }) in
      let added = built >>= (λ i. ok (record p { digest_items = p.digest_items ++ (i ∷ []) })) in
      if is_nil p.errors then added else ok p

  -- A pass from the lookup of the context on.
  unfoldable pub check_item :
      {F : Type 0} → ℕ → DigestModelItem → Option (CandidateContext F) → Progress → Result Progress
  unfolding add_item status_issues summary_clean
  check_item position item none p =
      ok (record p { errors = p.errors ++ (unknown_candidate item.candidate_id ∷ []) })
  check_item position item (some context) p =
      let news = context.news_item in
      add_item position item news (record p {
        errors =
            p.errors ++ (status_issues item.candidate_id news.status ++ summary_clean item.summary);
      })

  unfoldable pub check_items :
      {F : Type 0}
      → List (Text × CandidateContext F)
      → ℕ
      → List DigestModelItem
      → Progress
      → Result Progress
  unfolding check_item get_context text_eq
  check_items contexts position [] p = ok p
  check_items contexts position (item ∷ items) p = do
    let id = item.candidate_id
    let marked = record p { errors = p.errors ++ duplicate_issues id p.seen; seen = id ∷ p.seen }
    next ← check_item position item (get_context id contexts) marked
    check_items contexts (suc position) items next

  unfoldable pub validate_model_output :
      {F : Type 0}
      → DigestModelOutput
      → List (Text × CandidateContext F)
      → ℕ
      → ℕ
      → Result (List DigestItem)
  unfolding check_items
  validate_model_output output contexts min_items max_items = do
    let count = length output.items
    let in_range = leb min_items count && leb count max_items
    p ← check_items contexts 1 output.items (record {
      errors = if in_range then [] else item_count_issue ∷ [];
      seen = [];
      digest_items = [];
    })
    raise_if (not (is_nil p.errors)) (post_validation_error p.errors)
    ok p.digest_items
