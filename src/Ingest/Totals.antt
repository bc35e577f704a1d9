-- ===== src/Ingest/Totals.antt =====
-- What `ingest_sources` answers and stores.
use automation_portfolio.Prelude.{
  ℕ, suc, ◌+◌, ◌≤◌, ◌≡◌, refl, sym, ap, ◌∙◌, arith, Option, List, [], ◌∷◌, length, if◌then◌else◌,
  inl, inr, Option-cases,
}
use automation_portfolio.Prelude.Action.{Action, ◌>>=◌, lift, pure}
use automation_portfolio.Prelude.Result.{Result, ok, raise, >>=-eq-ok, ok-injective}
use automation_portfolio.Source.{Source}
use automation_portfolio.Store.{Store, where_rows}
use automation_portfolio.Store.NewsRows.{IsDeduplicated}
use automation_portfolio.Store.Post.{Post, Post-bind}
use automation_portfolio.Ingest.Libraries.{Library}
use automation_portfolio.Ingest.Results.{IngestSourceResult, IngestRunResult}
use automation_portfolio.Ingest.Persist.{FetchedSource, persist_fetched}
use automation_portfolio.Ingest.Service.{
  IngestSettings, Fetching, fetch_one, fetch_all, is_failure, add_result, persist_all,
  ingest_sources,
}
use automation_portfolio.Ingest.Counted.{Deduplicated}
use automation_portfolio.Ingest.Recorded.{Recorded, persist_fetched-Recorded}

-- The sum of a number over the results.
abbrev pub total : (IngestSourceResult → ℕ) → List IngestSourceResult → ℕ
total f [] = 0
total f (r ∷ results) = f r + total f results

abbrev pub one_if_ok : IngestSourceResult → ℕ
one_if_ok r = if is_failure r.status then 0 else 1

-- Of `count` sources, when `remaining` articles may still be stored and `before` are there.
pub record Totalled (count remaining before : ℕ) (r : IngestRunResult) (t : Store) : Type 0 where
  pub all_sources : length r.sources ≡ count
  pub both_ends : r.feeds_succeeded + r.feeds_failed ≡ count
  pub succeeded_sum : r.feeds_succeeded ≡ total one_if_ok r.sources
  pub inserted_sum : r.items_inserted ≡ total (λ x. x.items_inserted) r.sources
  pub duplicate_sum : r.items_duplicate ≡ total (λ x. x.items_duplicate) r.sources
  pub capped : r.items_inserted ≤ remaining
  pub known : r.items_inserted + r.items_duplicate ≤ r.items_fetched
  pub stored : length t.news_items ≡ before + r.items_inserted
  pub deduplicated : IsDeduplicated t.news_items

add_result-Totalled :
    (limit count remaining before : ℕ) (p : IngestSourceResult × ℕ) (r : IngestRunResult)
    (t u : Store)
    → Recorded limit remaining before p t
    → Totalled count p.1 (length t.news_items) r u
    → Totalled (suc count) remaining before (add_result p.0 r) u
unfolding add_result
add_result-Totalled limit count remaining before p r t u h k = record {
  all_sources = omega (arith, k.all_sources);
  both_ends = ground (arith, k.both_ends);
  succeeded_sum = ap (λ n. one_if_ok p.0 + n) k.succeeded_sum;
  inserted_sum = ap (λ n. p.0.items_inserted + n) k.inserted_sum;
  duplicate_sum = ap (λ n. p.0.items_duplicate + n) k.duplicate_sum;
  capped = omega (arith, k.capped, h.capped);
  known = omega (arith, k.known, h.known);
  stored = omega (arith, k.stored, h.stored);
  deduplicated = k.deduplicated;
}

module _ (library : Library) (settings : IngestSettings) (outside : Fetching) (run_id : ℕ) where
  persist_all-Totalled :
      (fetched : List FetchedSource) (remaining : ℕ) (s : Store)
      → IsDeduplicated s.news_items
      → Post
          (Totalled (length fetched) remaining (length s.news_items))
          Deduplicated
          (persist_all library settings outside run_id fetched remaining s)
  unfolding persist_all
  persist_all-Totalled [] remaining s d = record {
    all_sources = refl;
    both_ends = refl;
    succeeded_sum = refl;
    inserted_sum = refl;
    duplicate_sum = refl;
    capped = omega arith;
    known = omega arith;
    stored = omega arith;
    deduplicated = d;
  }
  persist_all-Totalled (f ∷ fetched) remaining s d =
      let Done = Totalled (suc (length fetched)) remaining (length s.news_items) in
      let first =
        persist_fetched library run_id settings.article_max_length f (outside.ids f.source)
          remaining in
      let others : ℕ → Action Store IngestRunResult =
        λ left. persist_all library settings outside run_id fetched left in
      let rest : IngestSourceResult × ℕ → Action Store IngestRunResult =
        λ p. others p.1 >>= λ totals. pure (add_result p.0 totals) in
      Post-bind (Recorded f.max_entries remaining (length s.news_items)) Done Deduplicated first
        rest s
        (persist_fetched-Recorded library run_id settings.article_max_length f
          (outside.ids f.source) remaining s d)
        (λ p t h.
          Post-bind (Totalled (length fetched) p.1 (length t.news_items)) Done Deduplicated
            (others p.1) (λ totals. pure (add_result p.0 totals)) t
            (persist_all-Totalled fetched p.1 t h.deduplicated)
            (λ r u k.
              add_result-Totalled f.max_entries (length fetched) remaining (length s.news_items) p r
                t u h k))

  -- One source is fetched for each of those asked for.
  fetch_all-length :
      (max_entries : ℕ → Option ℕ) (sources : List Source) {fetched : List FetchedSource}
      → fetch_all outside max_entries sources ≡ ok fetched
      → length fetched ≡ length sources
  unfolding fetch_all
  fetch_all-length max_entries [] h = ap length (sym (ok-injective h))
  fetch_all-length max_entries (source ∷ sources) h = elim (Option-cases (max_entries source.id)) [
    | inl e ↦ ground (arith, e, h)
    | inr (limit, e) ↦
        let (rest, e₁, e₂) =
          >>=-eq-ok (fetch_all outside max_entries sources)
            (λ rest. ok (fetch_one outside source limit ∷ rest)) (ground (arith, e, h)) in
        ap length (sym (ok-injective e₂)) ∙ ap suc (fetch_all-length max_entries sources e₁)
  ]

  persist_fetches-Totalled :
      (count : ℕ) (fetched : Result (List FetchedSource)) (s : Store)
      → ((fs : List FetchedSource) → fetched ≡ ok fs → length fs ≡ count)
      → IsDeduplicated s.news_items
      → Post (Totalled count settings.max_new_items_per_run (length s.news_items)) Deduplicated (
          (lift fetched >>= λ fs.
          persist_all library settings outside run_id fs settings.max_new_items_per_run)
            s)
  persist_fetches-Totalled count (raise e) s h d = d
  persist_fetches-Totalled count (ok fetched) s h d =
      rw (sym (h fetched refl)) (persist_all-Totalled fetched settings.max_new_items_per_run s d)

  -- Over articles that are free of duplicates, an ingestion that gives a result has one result for
  -- each enabled source, and its totals of feeds and of inserted and duplicate items are sums over
  -- these; it has stored as many articles as it says were inserted, no more than the settings
  -- allow, and the inserted and the duplicate ones are at most as many as were fetched. Whether it
  -- raises or not, the articles are free of duplicates.
  pub ingest_sources-Totalled :
      (sources : List Source) (max_entries : ℕ → Option ℕ) (s : Store)
      → IsDeduplicated s.news_items
      → Post
          (Totalled
            (length (where_rows (λ x. x.enabled) sources))
            settings.max_new_items_per_run
            (length s.news_items))
          Deduplicated
          (ingest_sources library settings outside run_id sources max_entries s)
  unfolding ingest_sources
  ingest_sources-Totalled sources max_entries s d =
      let enabled = where_rows (λ x. x.enabled) sources in
      persist_fetches-Totalled (length enabled) (fetch_all outside max_entries enabled) s
        (λ fs. fetch_all-length max_entries enabled) d
