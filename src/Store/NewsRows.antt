-- ===== src/Store/NewsRows.antt =====
-- The articles stay free of duplicates, and what `NewsItemRepository.add_if_new` answers.
use automation_portfolio.Prelude.{
  ◌≡◌, refl, inl, inr, Bool, arith, true, false, List, [], ◌∷◌, ◌++◌, All, any, All-append,
}
use automation_portfolio.Prelude.Result.{Result-cases}
use automation_portfolio.Net.{Net}
use automation_portfolio.News.{NewsItem, post_init}
use automation_portfolio.Store.Rows.{Store}
use automation_portfolio.Store.News.{is_duplicate, resolve_duplicate, insert_or_resolve, add_if_new}

-- No row has the id, the URL hash or the external id at its source of an earlier one.
abbrev pub IsDeduplicated : List NewsItem → Type 0
IsDeduplicated [] = Unit
IsDeduplicated (x ∷ xs) = All (λ y. is_duplicate y x ≡ false) xs × IsDeduplicated xs

IsDeduplicated-append :
    (v : NewsItem) (rows : List NewsItem)
    → any (is_duplicate v) rows ≡ false
    → IsDeduplicated rows
    → IsDeduplicated (rows ++ (v ∷ []))
IsDeduplicated-append v [] h d = (tt, tt)
IsDeduplicated-append v (x ∷ xs) h d = (
  All-append (λ y. is_duplicate y x ≡ false) xs (v ∷ []) d.0 (ground (arith, h), tt),
  IsDeduplicated-append v xs (ground (arith, h)) d.1,
)

resolve_duplicate-same : (v : NewsItem) (s : Store) → (resolve_duplicate v s).1 ≡ s
unfolding resolve_duplicate
resolve_duplicate-same v s = refl

insert_or_resolve-IsDeduplicated :
    (found : Bool) (v : NewsItem) (s : Store)
    → any (is_duplicate v) s.news_items ≡ found
    → IsDeduplicated s.news_items
    → IsDeduplicated (insert_or_resolve found v s).1.news_items
unfolding insert_or_resolve resolve_duplicate
insert_or_resolve-IsDeduplicated false v s h d = IsDeduplicated-append v s.news_items h d
insert_or_resolve-IsDeduplicated true v s h d = d

-- Adding an article, whether it raises or not, keeps the articles free of duplicates: no two have the
-- same id, the same URL hash, or the same external id at the same source.
pub add_if_new-IsDeduplicated :
    (net : Net) (item : NewsItem) (s : Store)
    → IsDeduplicated s.news_items
    → IsDeduplicated (add_if_new net item s).1.news_items
unfolding add_if_new
add_if_new-IsDeduplicated net item s d = elim (Result-cases (post_init net item)) [
  | inr (_, e) ↦ rw e d
  | inl (v, e) ↦
      rw e (insert_or_resolve-IsDeduplicated (any (is_duplicate v) s.news_items) v s refl d)
]
