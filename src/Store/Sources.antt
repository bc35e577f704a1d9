-- ===== src/Store/Sources.antt =====
-- `SourceRepository`. `collates` is the order of the keys under the collation of the database.
use automation_portfolio.Prelude.{
  ℕ, suc, ◌-◌, ◌*◌, ◌^◌, Bool, false, not, ◌&&◌, ◌||◌, Option, none, some, List, [], ◌∷◌, ◌++◌,
  ◌==◌, any,
}
use automation_portfolio.Prelude.Text.{Text, text_eq, strip}
use automation_portfolio.Prelude.Int.{ℤ, pos, negsuc, ltb_ℤ}
use automation_portfolio.Prelude.Decimal.{Decimal, finite}
use automation_portfolio.Prelude.Sort.{sort}
use automation_portfolio.Prelude.Result.{Result, ok, raise, raise_if}
use automation_portfolio.Prelude.Result
use automation_portfolio.Prelude.Action.{Action, ◌>>=◌, ◌>>◌, lift, get, modify}
use automation_portfolio.Messages.{
  value_error, lookup_error, integrity_error, integrity_violated, source_not_found,
  source_identity_mismatch,
}
use automation_portfolio.Net.{Net}
use automation_portfolio.Source.{Source, post_init}
use automation_portfolio.Store.Equal.{datetime_eq}
use automation_portfolio.Store.Rows.{Store, find, update, where_rows, first}

-- `a > b` of two priorities, which are numbers from 0 to 10.
abbrev scaled : ℤ → ℕ → ℤ
scaled (pos n) k = pos (n * k)
scaled (negsuc n) k = negsuc (suc n * k - 1)

unfoldable pub decimal_gt : Decimal → Decimal → Bool
decimal_gt (finite a s) (finite b t) = ltb_ℤ (scaled b (10 ^ s)) (scaled a (10 ^ t))
decimal_gt _ _ = false

unfoldable pub same_source : Source → Source → Bool
unfolding datetime_eq text_eq
same_source a b =
    text_eq a.key b.key
    && text_eq a.feed_url b.feed_url
    && text_eq a.allowed_host b.allowed_host
    && datetime_eq a.created_at b.created_at

-- The columns that `save` writes.
abbrev pub with_settings : Source → Source → Source
with_settings validated row = record row {
  name = validated.name;
  category = validated.category;
  language = validated.language;
  enabled = validated.enabled;
  priority = validated.priority;
  etag = validated.etag;
  last_modified = validated.last_modified;
  last_checked_at = validated.last_checked_at;
  last_success_at = validated.last_success_at;
  consecutive_failures = validated.consecutive_failures;
  updated_at = validated.updated_at;
}

module _ (net : Net) where
  unfoldable pub add_source : Source → Action Store Source
  unfolding text_eq
  add_source source = do
    validated ← lift (post_init net source)
    store ← get
    lift (
        raise_if
          (any (λ row. (row.id == validated.id) || text_eq row.key validated.key) store.sources)
          (integrity_error integrity_violated))
    modify (λ s. record s { sources = s.sources ++ (validated ∷ []) })
    lift (post_init net validated)

  source_of : Option Source → Result (Option Source)
  source_of none = ok none
  source_of (some row) = Result.◌>>=◌ (post_init net row) (λ s. ok (some s))

  unfoldable pub get_source : ℕ → Action Store (Option Source)
  unfolding source_of find
  get_source id = do store ← get; lift (source_of (find (λ s. s.id) id store.sources))

  unfoldable pub get_by_key : Text → Action Store (Option Source)
  unfolding source_of where_rows strip text_eq
  get_by_key key = do
    store ← get
    lift (source_of (first (where_rows (λ s. text_eq s.key (net.lower (strip key))) store.sources)))

  unfoldable pub sources_of : List Source → Result (List Source)
  sources_of [] = ok []
  sources_of (row ∷ rows) =
      Result.◌>>=◌ (post_init net row) (λ s. Result.◌>>=◌ (sources_of rows) (λ rest. ok (s ∷ rest)))

  unfoldable pub save_source : Source → Action Store Source
  unfolding find update same_source
  save_source source = do
    validated ← lift (post_init net source)
    store ← get
    elim (find (λ s. s.id) validated.id store.sources) [
      | none ↦ lift (raise (lookup_error source_not_found))
      | some model ↦ do
        lift (raise_if (not (same_source model validated)) (value_error source_identity_mismatch))
        modify (λ s. record s {
          sources = update (λ r. r.id) validated.id (with_settings validated) s.sources;
        })
        lift (post_init net (with_settings validated model))
    ]

  module _ (collates : Text → Text → Bool) where
    -- `order_by(priority.desc(), key.asc())`
    abbrev ranks_before : Source → Source → Bool
    ranks_before a b =
        decimal_gt a.priority b.priority
        || (not (decimal_gt b.priority a.priority) && collates a.key b.key)

    unfoldable pub list_enabled : Action Store (List Source)
    unfolding sources_of where_rows sort decimal_gt
    list_enabled = do
      store ← get
      lift (sources_of (sort ranks_before (where_rows (λ s. s.enabled) store.sources)))

    unfoldable pub list_all : Action Store (List Source)
    unfolding sources_of sort
    list_all = do store ← get; lift (sources_of (sort (λ a b. collates a.key b.key) store.sources))
