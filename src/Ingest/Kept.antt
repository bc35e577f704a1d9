-- ===== src/Ingest/Kept.antt =====
-- What the writes of one source leave of the articles.
use automation_portfolio.Prelude.{ℕ, ◌≡◌, refl, ◌∙◌, Bool-cases, inl, inr, Option-cases, List, any}
use automation_portfolio.Prelude.Result.{Result, Result-cases}
use automation_portfolio.Prelude.Action.{Action, ◌>>=◌, lift, pure}
use automation_portfolio.News.{NewsItem}
use automation_portfolio.Store.Post.{Post, Post-bind, Post-same}
use automation_portfolio.Net.{Net}
use automation_portfolio.Source
use automation_portfolio.Source.{Source}
use automation_portfolio.Fetch
use automation_portfolio.Fetch.{FeedFetch}
use automation_portfolio.Store.{Store, find, save_source, same_source, add_fetch, fetch_clashes}
use automation_portfolio.Ingest.Libraries.{Library}
use automation_portfolio.Ingest.Persist.{store_fetch}

save_source-news :
    (net : Net) (x : Source) (s : Store) → (save_source net x s).1.news_items ≡ s.news_items
unfolding save_source
save_source-news net x s = elim (Result-cases (Source.post_init net x)) [
  | inr (_, e) ↦ rw e refl
  | inl (v, e) ↦ elim (Option-cases (find (λ r. r.id) v.id s.sources)) [
    | inl missing ↦ rw (e, missing) refl
    | inr (model, found) ↦ elim (Bool-cases (same_source model v)) [
      | inl same ↦ rw (e, found, same) refl
      | inr other ↦ rw (e, found, other) refl
    ]
  ]
]

add_fetch-news : (x : FeedFetch) (s : Store) → (add_fetch x s).1.news_items ≡ s.news_items
unfolding add_fetch
add_fetch-news x s = elim (Result-cases (Fetch.post_init x)) [
  | inr (_, e) ↦ rw e refl
  | inl (v, e) ↦ elim (Bool-cases (any (fetch_clashes v) s.fetches)) [
    | inl clash ↦ rw (e, clash) refl
    | inr free ↦ rw (e, free) refl
  ]
]

-- The articles are these, whether the action raises or not.
abbrev pub Articles : {A : Type 0} → List NewsItem → Result A × Store → Type 0
Articles rows = Post (λ _ t. t.news_items ≡ rows) (λ t. t.news_items ≡ rows)

then-Articles :
    {A B : Type 0} (rows : List NewsItem) (m : Action Store A) (f : A → Action Store B) (s : Store)
    → (m s).1.news_items ≡ rows
    → ((a : A) (t : Store) → t.news_items ≡ rows → Articles rows (f a t))
    → Articles rows ((m >>= f) s)
then-Articles rows m f s h k =
    Post-bind (λ _ t. t.news_items ≡ rows) (λ _ t. t.news_items ≡ rows) (λ t. t.news_items ≡ rows) m
      f s (Post-same (λ t. t.news_items) rows (m s) h) k

pub store_fetch-Articles :
    (library : Library) (run_id : ℕ) (p : Result (Unit {0}) × Source) (x : FeedFetch) (s : Store)
    → Articles s.news_items (store_fetch library run_id p x s)
unfolding store_fetch
store_fetch-Articles library run_id (checked, source) x s =
    let end : FeedFetch → Action Store (Unit {0}) = λ _. pure tt in
    let add : FeedFetch → Action Store (Unit {0}) = λ built. add_fetch built >>= end in
    let build : Source → Action Store (Unit {0}) = λ _. lift (Fetch.post_init x) >>= add in
    let save : Unit {0} → Action Store (Unit {0}) = λ _. save_source library.net source >>= build in
    then-Articles s.news_items (lift checked) save s refl (λ _ t₁ h₁.
      then-Articles s.news_items (save_source library.net source) build t₁
        (save_source-news library.net source t₁ ∙ h₁)
        (λ _ t₂ h₂. then-Articles s.news_items (lift (Fetch.post_init x)) add t₂ h₂ (λ built t₃ h₃.
          then-Articles s.news_items (add_fetch built) end t₃ (add_fetch-news built t₃ ∙ h₃)
            (λ _ t₄ h₄. h₄))))
