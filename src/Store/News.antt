-- ===== src/Store/News.antt =====
-- `NewsItemRepository`.
use automation_portfolio.Prelude.{
  ℕ, ◌+◌, ◌*◌, Bool, true, false, not, ◌&&◌, ◌||◌, Option, none, some, List, [], ◌∷◌, ◌++◌, ◌==◌,
  ltb, leb, if◌then◌else◌, any, take,
}
use automation_portfolio.Prelude.Text.{Text, text_eq}
use automation_portfolio.Prelude.Time.{instant}
use automation_portfolio.Prelude.Sort.{sort}
use automation_portfolio.Prelude.Result.{Result, ok, raise, raise_if}
use automation_portfolio.Prelude.Result
use automation_portfolio.Prelude.Action.{Action, ◌>>=◌, ◌>>◌, lift, get, modify}
use automation_portfolio.Messages.{
  value_error, lookup_error, news_duplicate_conflict, news_id_conflict, news_not_found,
}
use automation_portfolio.Enums.{NewsItemStatus, IgnoreReason}
use automation_portfolio.Net.{Net}
use automation_portfolio.News.{NewsItem, post_init, transition_to}
use automation_portfolio.Store.Rows.{Store, find, update, where_rows}

pub record NewsInsertResult : Type 0 where
  pub news_item_id : ℕ
  pub inserted : Bool

-- `item.external_id is not None` and the row has it, too.
abbrev same_text : Option Text → Option Text → Bool
same_text (some a) (some b) = text_eq a b
same_text _ _ = false

unfoldable pub same_external_id : NewsItem → NewsItem → Bool
same_external_id item row =
    (row.source_id == item.source_id) && same_text row.external_id item.external_id

-- A row that the `or_` of the predicates finds. The unique indexes of the table have the same keys.
unfoldable pub is_duplicate : NewsItem → NewsItem → Bool
unfolding same_external_id
is_duplicate item row =
    (row.id == item.id) || text_eq row.url_hash item.url_hash || same_external_id item row

unfoldable pub resolve_models : NewsItem → List NewsItem → Result NewsInsertResult
unfolding same_external_id
resolve_models item (model ∷ []) =
    if not (text_eq model.url_hash item.url_hash) && not (same_external_id item model)
    then raise (value_error news_id_conflict)
    else ok (record { news_item_id = model.id; inserted = false })
resolve_models item _ = raise (value_error news_duplicate_conflict)

unfoldable pub resolve_duplicate : NewsItem → Action Store NewsInsertResult
unfolding resolve_models where_rows is_duplicate
resolve_duplicate item = do
  store ← get
  lift (resolve_models item (where_rows (is_duplicate item) store.news_items))

-- What `on_conflict_do_nothing` leaves: an insert, or the search for what was in its way.
unfoldable pub insert_or_resolve : Bool → NewsItem → Action Store NewsInsertResult
unfolding resolve_duplicate
insert_or_resolve false validated = do
  modify (λ s. record s { news_items = s.news_items ++ (validated ∷ []) })
  lift (ok (record { news_item_id = validated.id; inserted = true }))
insert_or_resolve true validated = resolve_duplicate validated

module _ (net : Net) where
  unfoldable pub add_if_new : NewsItem → Action Store NewsInsertResult
  unfolding insert_or_resolve is_duplicate
  add_if_new item = do
    validated ← lift (post_init net item)
    store ← get
    insert_or_resolve (any (is_duplicate validated) store.news_items) validated

  news_of : Option NewsItem → Result (Option NewsItem)
  news_of none = ok none
  news_of (some row) = Result.◌>>=◌ (post_init net row) (λ n. ok (some n))

  unfoldable pub get_news : ℕ → Action Store (Option NewsItem)
  unfolding news_of find
  get_news id = do store ← get; lift (news_of (find (λ n. n.id) id store.news_items))

  unfoldable pub news_of_all : List NewsItem → Result (List NewsItem)
  news_of_all [] = ok []
  news_of_all (row ∷ rows) =
      Result.◌>>=◌ (post_init net row)
        (λ n. Result.◌>>=◌ (news_of_all rows) (λ rest. ok (n ∷ rest)))

  -- `coalesce(published_at, collected_at)`
  abbrev age_anchor : NewsItem → ℕ
  age_anchor row = elim row.published_at [ none ↦ instant row.collected_at | some t ↦ instant t ]

  abbrev is_open : NewsItemStatus → Bool
  is_open NewsItemStatus.collected = true
  is_open NewsItemStatus.candidate = true
  is_open _ = false

  -- An anchor is within the window if it is not before `now` less the hours.
  unfoldable pub is_in_window : ℕ → ℕ → NewsItem → Bool
  is_in_window now max_age_hours row =
      is_open row.status && leb now (age_anchor row + max_age_hours * 3600000000)

  abbrev newer_first : NewsItem → NewsItem → Bool
  newer_first a b =
      ltb (age_anchor b) (age_anchor a) || ((age_anchor a == age_anchor b) && leb a.id b.id)

  unfoldable pub list_eligible_for_selection : ℕ → ℕ → ℕ → Action Store (List NewsItem)
  unfolding news_of_all is_in_window where_rows sort
  list_eligible_for_selection now max_age_hours limit = do
    store ← get
    lift (
        news_of_all (
          take limit
            (sort newer_first (where_rows (is_in_window now max_age_hours) store.news_items))))

  unfoldable pub transition_news : ℕ → NewsItemStatus → Option IgnoreReason → Action Store NewsItem
  unfolding find update transition_to
  transition_news news_item_id target ignore_reason = do
    store ← get
    elim (find (λ n. n.id) news_item_id store.news_items) [
      | none ↦ lift (raise (lookup_error news_not_found))
      | some row ↦ do
        item ← lift (post_init net row)
        let moved = transition_to target ignore_reason item
        lift moved.0
        modify (λ s. record s {
          news_items =
              update (λ n. n.id) news_item_id
                (λ n. record n { status = moved.1.status; ignore_reason = moved.1.ignore_reason })
                s.news_items;
        })
        lift (
            post_init net
              (record row { status = moved.1.status; ignore_reason = moved.1.ignore_reason }))
    ]
