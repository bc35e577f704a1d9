-- ===== src/Store/Creation.antt =====
-- `DigestRepository.create_generated`.
use automation_portfolio.Prelude.{
  Bool, true, false, not, ◌||◌, none, List, [], ◌∷◌, ◌++◌, map, ◌==◌, if◌then◌else◌, any, length,
  contains,
}
use automation_portfolio.Prelude.Int.{ltb_ℤ}
use automation_portfolio.Prelude.Sort.{sort}
use automation_portfolio.Prelude.Result.{Result, ok, raise_if}
use automation_portfolio.Prelude.Result
use automation_portfolio.Prelude.Action.{Action, ◌>>=◌, ◌>>◌, lift, get, modify}
use automation_portfolio.Messages.{
  value_error, lookup_error, integrity_error, integrity_violated, digest_generated_required,
  digest_news_missing, digest_candidates_required,
}
use automation_portfolio.Enums.{DigestStatus, NewsItemStatus}
use automation_portfolio.Net.{Net}
use automation_portfolio.News.{NewsItem}
use automation_portfolio.Digest.{Digest, post_init}
use automation_portfolio.Store.Rows.{Store, where_rows, transaction}
use automation_portfolio.Store.Digests.{restore_items}

abbrev pub is_generated : DigestStatus → Bool
is_generated DigestStatus.generated = true
is_generated _ = false

abbrev pub is_candidate : NewsItemStatus → Bool
is_candidate NewsItemStatus.candidate = true
is_candidate _ = false

abbrev pub is_selected : Digest → NewsItem → Bool
is_selected digest row = contains row.id (map (λ i. i.news_item_id) digest.items)

unfoldable pub mark_used : Digest → List NewsItem → List NewsItem
mark_used digest [] = []
mark_used digest (row ∷ rows) =
    let rest = mark_used digest rows in
    if is_selected digest row
    then record row { status = NewsItemStatus.used; ignore_reason = none } ∷ rest
    else row ∷ rest

-- The block of `begin_nested`. The order in which the rows are locked does not matter to it.
unfoldable pub consume_candidates : Digest → Action Store (Unit {0})
unfolding where_rows mark_used
consume_candidates validated = do
  store ← get
  let news_models = where_rows (is_selected validated) store.news_items
  lift (
      raise_if (not (length news_models == length validated.items))
        (lookup_error digest_news_missing))
  lift (
      raise_if (any (λ m. not (is_candidate m.status)) news_models)
        (value_error digest_candidates_required))
  lift (
      raise_if (any (λ d. (d.id == validated.id) || (d.run_id == validated.run_id)) store.digests)
        (integrity_error integrity_violated))
  modify (λ s. record s { digests = s.digests ++ (validated ∷ []) })
  modify (λ s. record s { news_items = mark_used validated s.news_items })

module _ (net : Net) where
  unfoldable pub validated_digest : Digest → Result Digest
  unfolding sort
  validated_digest digest = Result.◌>>=◌ (restore_items net digest.items) (λ items.
      post_init (record digest { items = sort (λ a b. not (ltb_ℤ b.position a.position)) items }))

  unfoldable pub create_generated : Digest → Action Store Digest
  unfolding validated_digest consume_candidates
  create_generated digest = do
    validated ← lift (validated_digest digest)
    lift (raise_if (not (is_generated validated.status)) (value_error digest_generated_required))
    transaction (consume_candidates validated)
    lift (ok validated)
