-- ===== src/Ingest/Counted.antt =====
-- The counts of the loop over the entries of a feed, and the articles that it stores.
use automation_portfolio.Prelude.{
  ℕ, zero, suc, ◌+◌, ◌≤◌, ◌≡◌, refl, sym, ◌∙◌, ap, Bool, true, false, Bool-cases, inl, inr, arith,
  Option, none, some, List, [], ◌∷◌, length, any, length-append,
}
use automation_portfolio.Prelude.Result.{Result, ok, raise, ok-injective}
use automation_portfolio.Prelude.Action.{Action, ◌>>=◌, lift, pure}
use automation_portfolio.Net.{Net}
use automation_portfolio.News.{NewsItem}
use automation_portfolio.Store.{
  Store, add_if_new, insert_or_resolve, resolve_duplicate, is_duplicate, NewsInsertResult,
  where_rows,
}
use automation_portfolio.Store.NewsRows.{IsDeduplicated, add_if_new-IsDeduplicated}
use automation_portfolio.Store.Insertion.{
  resolve_models-not_inserted, add_if_new-at, add_if_new-checked,
}
use automation_portfolio.Store.Post.{Post, Post-bind, Post-lift}
use automation_portfolio.Ingest.Libraries.{Library}
use automation_portfolio.Ingest.Parser.{ParsedFeedEntry}
use automation_portfolio.Ingest.Normalize.{news_item_from_entry}
use automation_portfolio.Ingest.Persist.{
  Counts, FetchedSource, DrawnIds, count_insert, store_item, store_entry, store_entries,
}

-- After `n` entries, with `limit` articles allowed and `before` of them stored at the start.
pub record Counted (limit before n : ℕ) (c : Counts) (s : Store) : Type 0 where
  pub capped : c.inserted + c.remaining_inserts ≡ limit
  pub known : c.inserted + c.duplicate ≤ c.fetched_count
  pub seen : c.fetched_count + c.skipped ≡ n
  pub stored : length s.news_items ≡ before + c.inserted
  pub deduplicated : IsDeduplicated s.news_items

abbrev one_if : Bool → ℕ
one_if true = 1
one_if false = 0

-- A call that gives a result has stored as many articles as it says.
insert_or_resolve-stored :
    (found : Bool) (v : NewsItem) (s : Store) {r : NewsInsertResult}
    → (insert_or_resolve found v s).0 ≡ ok r
    → length (insert_or_resolve found v s).1.news_items ≡ length s.news_items + one_if r.inserted
unfolding insert_or_resolve resolve_duplicate
insert_or_resolve-stored false v s h =
    rw (sym (ok-injective h)) (length-append s.news_items (v ∷ []))
insert_or_resolve-stored true v s h =
    rw (resolve_models-not_inserted v (where_rows (is_duplicate v) s.news_items) h) (omega arith)

abbrev pub Deduplicated : Store → Type 0
Deduplicated s = IsDeduplicated s.news_items

-- A result with its state, split.
abbrev Stored : ℕ → NewsInsertResult → Store → Type 0
Stored before r t = (length t.news_items ≡ before + one_if r.inserted) × Deduplicated t

Post-Stored :
    (before : ℕ) (p : Result NewsInsertResult × Store)
    → ((r : NewsInsertResult) → p.0 ≡ ok r → length p.1.news_items ≡ before + one_if r.inserted)
    → Deduplicated p.1
    → Post (Stored before) Deduplicated p
Post-Stored before (ok r, t) h d = (h r refl, d)
Post-Stored before (raise e, t) h d = d

add_if_new-stored :
    (net : Net) (item : NewsItem) (s : Store) {r : NewsInsertResult}
    → (add_if_new net item s).0 ≡ ok r
    → length (add_if_new net item s).1.news_items ≡ length s.news_items + one_if r.inserted
add_if_new-stored net item s h =
    let (v, e) = add_if_new-checked net item s h in
    let at = add_if_new-at net item s e in
    rw at (
      insert_or_resolve-stored (any (is_duplicate v) s.news_items) v s (sym (ap (λ p. p.0) at) ∙ h))

add_if_new-Stored :
    (net : Net) (item : NewsItem) (s : Store)
    → Deduplicated s
    → Post (Stored (length s.news_items)) Deduplicated (add_if_new net item s)
add_if_new-Stored net item s d =
    Post-Stored (length s.news_items) (add_if_new net item s)
      (λ r h. add_if_new-stored net item s h) (add_if_new-IsDeduplicated net item s d)

count_insert-Counted :
    (limit before n m : ℕ) (c : Counts) (s t : Store) (r : NewsInsertResult)
    → Counted limit before n c s
    → c.remaining_inserts ≡ suc m
    → Stored (length s.news_items) r t
    → Counted limit before (suc n) (count_insert r c) t
unfolding count_insert
count_insert-Counted limit before n m c s t r b e h = elim (Bool-cases r.inserted) [
  | inl new ↦ rw new (record {
    capped = omega (arith, b.capped, e);
    known = omega (arith, b.known);
    seen = omega (arith, b.seen);
    stored = ground (arith, h, new, b.stored);
    deduplicated = h.1;
  })
  | inr old ↦ rw old (record {
    capped = b.capped;
    known = omega (arith, b.known);
    seen = omega (arith, b.seen);
    stored = ground (arith, h, old, b.stored);
    deduplicated = h.1;
  })
]

module _ (library : Library) (run_id : ℕ) where
  store_item-Counted :
      (m : ℕ) (item : NewsItem) (limit before n : ℕ) (c : Counts) (s : Store)
      → c.remaining_inserts ≡ m
      → Counted limit before n c s
      → Post (Counted limit before (suc n)) Deduplicated (store_item library run_id m item c s)
  unfolding store_item
  store_item-Counted zero item limit before n c s e b = record {
    capped = b.capped;
    known = omega (arith, b.known);
    seen = omega (arith, b.seen);
    stored = b.stored;
    deduplicated = b.deduplicated;
  }
  store_item-Counted (suc m) item limit before n c s e b =
      Post-bind (Stored (length s.news_items)) (Counted limit before (suc n)) Deduplicated
        (add_if_new library.net item) (λ r. pure (count_insert r c)) s
        (add_if_new-Stored library.net item s b.deduplicated)
        (λ r t h. count_insert-Counted limit before n m c s t r b e h)

  store_entry-Counted :
      (o : Option NewsItem) (limit before n : ℕ) (c : Counts) (s : Store)
      → Counted limit before n c s
      → Post (Counted limit before (suc n)) Deduplicated (store_entry library run_id o c s)
  unfolding store_entry
  store_entry-Counted none limit before n c s b = record {
    capped = b.capped;
    known = b.known;
    seen = omega (arith, b.seen);
    stored = b.stored;
    deduplicated = b.deduplicated;
  }
  store_entry-Counted (some item) limit before n c s b =
      store_item-Counted c.remaining_inserts item limit before n c s refl b

  pub store_entries-Counted :
      (max_length : ℕ) (f : FetchedSource) (ids : DrawnIds) (entries : List ParsedFeedEntry)
      (i limit before n : ℕ) (c : Counts) (s : Store)
      → Counted limit before n c s
      → Post
          (Counted limit before (n + length entries))
          Deduplicated
          (store_entries library run_id max_length f ids entries i c s)
  unfolding store_entries
  store_entries-Counted max_length f ids [] i limit before n c s b = record {
    capped = b.capped;
    known = b.known;
    seen = omega (arith, b.seen);
    stored = b.stored;
    deduplicated = b.deduplicated;
  }
  store_entries-Counted max_length f ids (entry ∷ entries) i limit before n c s b =
      let item =
        news_item_from_entry library entry f.source.id f.finished_at max_length
          f.source.allowed_host (ids.item_ids i) in
      let rest : Counts → Action Store Counts =
        λ next. store_entries library run_id max_length f ids entries (suc i) next in
      let Done = Counted limit before (n + suc (length entries)) in
      Post-bind (λ o t. (item ≡ ok o) × (t ≡ s)) Done Deduplicated (lift item)
        (λ o. store_entry library run_id o c >>= rest) s
        (Post-lift Deduplicated item s b.deduplicated)
        (λ o t h.
          Post-bind (Counted limit before (suc n)) Done Deduplicated
            (store_entry library run_id o c) rest t
            (store_entry-Counted o limit before n c t (rw h.1 b))
            (λ next u k.
              let shift : n + suc (length entries) ≡ suc n + length entries = omega arith in
              rw shift (
                store_entries-Counted max_length f ids entries (suc i) limit before (suc n) next u
                  k)))
