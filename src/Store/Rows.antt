-- ===== src/Store/Rows.antt =====
-- The tables, and `transaction_scope`.
use automation_portfolio.Prelude.{ℕ, Bool, Option, none, some, List, [], ◌∷◌, ◌==◌, if◌then◌else◌}
use automation_portfolio.Prelude.Result.{ok, raise}
use automation_portfolio.Prelude.Action.{Action}
use automation_portfolio.Run.{PipelineRun}
use automation_portfolio.Fetch.{FeedFetch}
use automation_portfolio.Attempt.{Attempt}
use automation_portfolio.Digest.{Digest}
use automation_portfolio.News.{NewsItem}
use automation_portfolio.Source.{Source}

pub record Store : Type 0 where
  pub runs : List PipelineRun
  pub fetches : List FeedFetch
  pub attempts : List Attempt
  pub digests : List Digest
  pub news_items : List NewsItem
  pub sources : List Source

-- `session.get(Model, id)`, or a select by the primary key.
unfoldable pub find {ℓ} : {A : Type ℓ} → (A → ℕ) → ℕ → List A → Option A
find id_of id [] = none
find id_of id (x ∷ xs) = let rest = find id_of id xs in if id_of x == id then some x else rest

-- The rows that a `where` clause lets through, and `limit(1)`.
unfoldable pub where_rows {ℓ} : {A : Type ℓ} → (A → Bool) → List A → List A
where_rows test [] = []
where_rows test (x ∷ xs) = let rest = where_rows test xs in if test x then x ∷ rest else rest

abbrev pub first {ℓ} : {A : Type ℓ} → List A → Option A
first [] = none
first (x ∷ xs) = some x

-- An update of the row of a primary key.
unfoldable pub update {ℓ} : {A : Type ℓ} → (A → ℕ) → ℕ → (A → A) → List A → List A
update id_of id change [] = []
update id_of id change (x ∷ xs) =
    let rest = update id_of id change xs in if id_of x == id then change x ∷ xs else x ∷ rest

-- `transaction_scope`: what was written is taken back when an exception leaves the block.
abbrev pub transaction : {A : Type 0} → Action Store A → Action Store A
transaction block store =
    let (result, after) = block store in
    elim result [ ok a ↦ (ok a, after) | raise e ↦ (raise e, store) ]
