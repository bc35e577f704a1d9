-- ===== src/Store/Fetches.antt =====
-- `FeedFetchRepository`.
use automation_portfolio.Prelude.{
  ℕ, Bool, ◌&&◌, ◌||◌, Option, none, some, List, [], ◌∷◌, ◌++◌, ◌==◌, leb, any,
}
use automation_portfolio.Prelude.Time.{instant, before}
use automation_portfolio.Prelude.Sort.{sort}
use automation_portfolio.Prelude.Result.{Result, ok, raise_if}
use automation_portfolio.Prelude.Result
use automation_portfolio.Prelude.Action.{Action, ◌>>=◌, ◌>>◌, lift, get, modify}
use automation_portfolio.Messages.{integrity_error, integrity_violated}
use automation_portfolio.Fetch.{FeedFetch, post_init}
use automation_portfolio.Store.Rows.{Store, find, where_rows}

-- The primary key, and the one result of a source in a run.
unfoldable pub fetch_clashes : FeedFetch → FeedFetch → Bool
fetch_clashes a b = (a.id == b.id) || ((a.run_id == b.run_id) && (a.source_id == b.source_id))

unfoldable pub add_fetch : FeedFetch → Action Store FeedFetch
unfolding fetch_clashes
add_fetch fetch = do
  validated ← lift (post_init fetch)
  store ← get
  lift (raise_if (any (fetch_clashes validated) store.fetches) (integrity_error integrity_violated))
  modify (λ s. record s { fetches = s.fetches ++ (validated ∷ []) })
  lift (post_init validated)

fetch_of : Option FeedFetch → Result (Option FeedFetch)
fetch_of none = ok none
fetch_of (some row) = Result.◌>>=◌ (post_init row) (λ f. ok (some f))

unfoldable pub get_fetch : ℕ → Action Store (Option FeedFetch)
unfolding fetch_of find
get_fetch fetch_id = do store ← get; lift (fetch_of (find (λ f. f.id) fetch_id store.fetches))

fetches_of : List FeedFetch → Result (List FeedFetch)
fetches_of [] = ok []
fetches_of (row ∷ rows) =
    Result.◌>>=◌ (post_init row) (λ f. Result.◌>>=◌ (fetches_of rows) (λ rest. ok (f ∷ rest)))

-- `order_by(started_at.asc(), id.asc())`
abbrev started_before : FeedFetch → FeedFetch → Bool
started_before a b =
    before a.started_at b.started_at
    || ((instant a.started_at == instant b.started_at) && leb a.id b.id)

unfoldable pub list_for_run : ℕ → Action Store (List FeedFetch)
unfolding fetches_of where_rows sort
list_for_run run_id = do
  store ← get
  lift (fetches_of (sort started_before (where_rows (λ f. f.run_id == run_id) store.fetches)))
