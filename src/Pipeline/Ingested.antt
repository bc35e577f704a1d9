-- ===== src/Pipeline/Ingested.antt =====
-- The counters of a run after an ingestion.
use automation_portfolio.Prelude.{
  Option, ℕ, ◌+◌, ◌≡◌, refl, sym, ◌∙◌, ap, List, [], ◌∷◌, length, arith,
}
use automation_portfolio.Prelude.Result.{ok}
use automation_portfolio.Enums.{PipelineRunStatus}
use automation_portfolio.Run.{PipelineRun, zero_counters}
use automation_portfolio.Source.{Source}
use automation_portfolio.Store.{Store, where_rows}
use automation_portfolio.Store.NewsRows.{IsDeduplicated}
use automation_portfolio.Store.Post.{Post-ok}
use automation_portfolio.Ingest.{
  Library, IngestSettings, Fetching, IngestSourceResult, IngestRunResult, ingest_sources,
}
use automation_portfolio.Ingest.Counted.{Deduplicated}
use automation_portfolio.Ingest.Totals.{Totalled, total, ingest_sources-Totalled}
use automation_portfolio.Pipeline.Counters.{apply_ingest_counters}
use automation_portfolio.Pipeline.Sums.{
  with_counts, with_counts-eq, counts, IsOpen, apply_ingest_counters-sums,
}

total-add :
    (f g : IngestSourceResult → ℕ) (rs : List IngestSourceResult)
    → total (λ x. f x + g x) rs ≡ total f rs + total g rs
total-add f g [] = refl
total-add f g (r ∷ rs) = omega (arith, total-add f g rs)

counts_of-Totalled :
    (count remaining before : ℕ) (x : IngestRunResult) (t : Store) (r : PipelineRun)
    → Totalled count remaining before x t
    → r.status ≡ PipelineRunStatus.running
    → r.counters ≡ zero_counters
    → apply_ingest_counters x.sources r ≡ (
      ok tt,
      with_counts
          (x.feeds_succeeded + x.feeds_failed)
          x.feeds_succeeded
          (x.items_inserted + x.items_duplicate)
          x.items_inserted
          x.items_duplicate
          r,
    )
counts_of-Totalled count remaining before x t r k h z =
    let at_zero : counts 0 0 0 0 0 r.counters ≡ r.counters = rw z refl in
    let open_run : IsOpen r = record {
      running = h;
      candidates_nonneg = rw z (omega arith);
      selected_nonneg = rw z (omega arith);
      selection_consistent = rw z (omega arith);
    } in
    ap (λ c. apply_ingest_counters x.sources (record r { counters = c })) (sym at_zero)
    ∙ apply_ingest_counters-sums r open_run x.sources 0 0 0 0 0 (omega arith) (omega arith)
    ∙ with_counts-eq r open_run (omega (arith, k.all_sources, k.both_ends))
        (omega (arith, k.succeeded_sum))
        (omega (
          arith,
          k.inserted_sum,
          k.duplicate_sum,
          total-add (λ y. y.items_inserted) (λ y. y.items_duplicate) x.sources,
        ))
        (omega (arith, k.inserted_sum)) (omega (arith, k.duplicate_sum))

-- After an ingestion that gives a result over articles free of duplicates, its counters are added
-- to a running run with zero counters without an exception: the feeds are those that succeeded and
-- those that failed, the items fetched are the inserted and the duplicate ones, these are the
-- totals of the ingestion, and as many articles were stored as were inserted.
pub counts_of-ingest_sources :
    (library : Library) (settings : IngestSettings) (outside : Fetching) (sources : List Source)
    (max_entries : ℕ → Option ℕ) (s : Store) (r : PipelineRun) {x : IngestRunResult}
    → IsDeduplicated s.news_items
    → r.status ≡ PipelineRunStatus.running
    → r.counters ≡ zero_counters
    → (ingest_sources library settings outside r.id sources max_entries s).0 ≡ ok x
    → (apply_ingest_counters x.sources r ≡ (
      ok tt,
      with_counts
          (x.feeds_succeeded + x.feeds_failed)
          x.feeds_succeeded
          (x.items_inserted + x.items_duplicate)
          x.items_inserted
          x.items_duplicate
          r,
    ))
      × (length (ingest_sources library settings outside r.id sources max_entries s).1.news_items
          ≡ length s.news_items + x.items_inserted)
counts_of-ingest_sources library settings outside sources max_entries s r {x = x} d h z e =
    let count = length (where_rows (λ y. y.enabled) sources) in
    let after = ingest_sources library settings outside r.id sources max_entries s in
    let k =
      Post-ok (Totalled count settings.max_new_items_per_run (length s.news_items)) Deduplicated
        after (ingest_sources-Totalled library settings outside r.id sources max_entries s d) e in
    (
      counts_of-Totalled count settings.max_new_items_per_run (length s.news_items) x after.1 r k h
          z,
      k.stored,
    )
