-- ===== src/Store/Insertion.antt =====
-- What `NewsItemRepository.add_if_new` answers.
use automation_portfolio.Prelude.{◌≡◌, refl, inl, inr, Bool, arith, false, List, [], ◌∷◌, any}
use automation_portfolio.Prelude.Result.{ok, Result-cases, raise-ne-ok}
use automation_portfolio.Net.{Net}
use automation_portfolio.News.{NewsItem, post_init}
use automation_portfolio.Store.Rows.{Store, where_rows}
use automation_portfolio.Store.News.{
  NewsInsertResult, is_duplicate, resolve_models, insert_or_resolve, add_if_new,
}

module _ {ℓ} {A : Type ℓ} (test : A → Bool) where
  where_rows-none : (xs : List A) → any test xs ≡ false → where_rows test xs ≡ []
  unfolding where_rows
  where_rows-none [] h = refl
  where_rows-none (x ∷ xs) h = ground (arith, h, where_rows-none xs)

pub resolve_models-not_inserted :
    (v : NewsItem) (rows : List NewsItem) {r : NewsInsertResult}
    → resolve_models v rows ≡ ok r
    → r.inserted ≡ false
unfolding resolve_models
resolve_models-not_inserted v [] h = absurd (raise-ne-ok h)
resolve_models-not_inserted v (x ∷ []) h = ground (arith, h)
resolve_models-not_inserted v (x ∷ y ∷ rows) h = absurd (raise-ne-ok h)

module _ (net : Net) (item : NewsItem) where
  pub add_if_new-at :
      (s : Store) {v : NewsItem}
      → post_init net item ≡ ok v
      → add_if_new net item s ≡ insert_or_resolve (any (is_duplicate v) s.news_items) v s
  unfolding add_if_new
  add_if_new-at s e = rw e refl

  pub add_if_new-checked :
      (s : Store) {r : NewsInsertResult}
      → (add_if_new net item s).0 ≡ ok r
      → (v : NewsItem) × (post_init net item ≡ ok v)
  unfolding add_if_new
  add_if_new-checked s h = elim (Result-cases (post_init net item)) [
    | inl p ↦ p
    | inr (_, e) ↦ ground (arith, e, h)
  ]
