-- ===== src/Pipeline/Sums.antt =====
-- What `_apply_ingest_counters` leaves in the counters of a run.
use automation_portfolio.Prelude.{
  ℕ, zero, suc, ◌+◌, ◌≤◌, ◌≡◌, refl, ◌∙◌, ap, List, [], ◌∷◌, length, arith, not, if◌then◌else◌, inl,
  inr, Bool-cases, ◌==◌,
}
use automation_portfolio.Prelude.Int.{pos, ◌≤ℤ◌, ◌+ℤ◌}
use automation_portfolio.Validators.{ensure_non_negative_int}
use automation_portfolio.Prelude.Result.{Result, ok}
use automation_portfolio.Prelude.Action.{◌>>◌, >>=-ok}
use automation_portfolio.Enums.{PipelineRunStatus, FeedFetchStatus}
use automation_portfolio.Run.{
  PipelineRun, Counters, CounterName, add_to, record_counter, record_feed_attempt,
  record_feed_success, record_items_fetched, record_item_inserted, record_item_duplicate,
}
use automation_portfolio.Run.Invariant.{IsConsistent, IsConsistent-validate_counters}
use automation_portfolio.Ingest.{IngestSourceResult, is_failure}
use automation_portfolio.Ingest.Totals.{total, one_if_ok}
use automation_portfolio.Pipeline.Counters.{repeat, apply_source, apply_ingest_counters, when}

abbrev pub counts : ℕ → ℕ → ℕ → ℕ → ℕ → Counters → Counters
counts total succeeded fetched inserted duplicate c = record c {
  feeds_total = pos total;
  feeds_succeeded = pos succeeded;
  items_fetched = pos fetched;
  items_inserted = pos inserted;
  items_duplicate = pos duplicate;
}

abbrev pub with_counts : ℕ → ℕ → ℕ → ℕ → ℕ → PipelineRun → PipelineRun
with_counts total succeeded fetched inserted duplicate r = record r {
  counters = counts total succeeded fetched inserted duplicate r.counters;
}

-- A run to which counts can be added.
pub record IsOpen (r : PipelineRun) : Type 0 where
  pub running : r.status ≡ PipelineRunStatus.running
  pub candidates_nonneg : pos 0 ≤ℤ r.counters.candidates_count
  pub selected_nonneg : pos 0 ≤ℤ r.counters.selected_count
  pub selection_consistent : r.counters.selected_count ≤ℤ r.counters.candidates_count

add-pos : (a b : ℕ) → pos a +ℤ pos b ≡ pos (a + b)
add-pos a b = ground arith

record_counter-ok :
    (name : CounterName) (n : ℕ) (r : PipelineRun)
    → r.status ≡ PipelineRunStatus.running
    → IsConsistent (add_to name (pos n) r.counters)
    → record_counter name (pos n) r
      ≡ (ok tt, record r { counters = add_to name (pos n) r.counters })
unfolding record_counter ensure_non_negative_int
record_counter-ok name n r h c =
    ground (arith, h, IsConsistent-validate_counters (add_to name (pos n) r.counters) c)

one_if_ok_le : (x : IngestSourceResult) → one_if_ok x ≤ 1
one_if_ok_le x = ground arith

module _ (r : PipelineRun) (o : IsOpen r) where
  counts-IsConsistent :
      (a b c d e : ℕ) → b ≤ a → d + e ≤ c → IsConsistent (counts a b c d e r.counters)
  counts-IsConsistent a b c d e h k = record {
    total_nonneg = omega arith;
    succeeded_nonneg = omega arith;
    fetched_nonneg = omega arith;
    inserted_nonneg = omega arith;
    duplicate_nonneg = omega arith;
    candidates_nonneg = o.candidates_nonneg;
    selected_nonneg = o.selected_nonneg;
    feeds_consistent = omega (arith, h);
    items_consistent = rw (add-pos d e) (omega (arith, k));
    selection_consistent = o.selection_consistent;
  }

  -- A counter is added to where the counts stay consistent.
  add_count :
      (name : CounterName) (n a b c d e a' b' c' d' e' : ℕ)
      → add_to name (pos n) (counts a b c d e r.counters) ≡ counts a' b' c' d' e' r.counters
      → b' ≤ a'
      → d' + e' ≤ c'
      → record_counter name (pos n) (with_counts a b c d e r)
        ≡ (ok tt, with_counts a' b' c' d' e' r)
  add_count name n a b c d e a' b' c' d' e' same h k =
      record_counter-ok name n (with_counts a b c d e r) o.running
        (rw same (counts-IsConsistent a' b' c' d' e' h k))
      ∙ ap (λ x. (ok tt, record r { counters = x })) same

  pub with_counts-eq :
      {a b c d e a' b' c' d' e' : ℕ}
      → a ≡ a'
      → b ≡ b'
      → c ≡ c'
      → d ≡ d'
      → e ≡ e'
      → Path
          (Result (Unit {0}) × PipelineRun)
          (ok tt, with_counts a b c d e r)
          (ok tt, with_counts a' b' c' d' e' r)
  with_counts-eq h₁ h₂ h₃ h₄ h₅ = rw (h₁, h₂, h₃, h₄, h₅) refl

  add_feed :
      (a b c d e : ℕ)
      → b ≤ a
      → d + e ≤ c
      → record_feed_attempt (with_counts a b c d e r) ≡ (ok tt, with_counts (a + 1) b c d e r)
  unfolding add_to
  add_feed a b c d e h k =
      add_count CounterName.feeds_total 1 a b c d e (a + 1) b c d e (rw (add-pos a 1) refl)
        (omega (arith, h)) k

  add_success :
      (a b c d e : ℕ)
      → b + 1 ≤ a
      → d + e ≤ c
      → record_feed_success (with_counts a b c d e r) ≡ (ok tt, with_counts a (b + 1) c d e r)
  unfolding add_to
  add_success a b c d e h k =
      add_count CounterName.feeds_succeeded 1 a b c d e a (b + 1) c d e (rw (add-pos b 1) refl) h k

  add_fetched :
      (n a b c d e : ℕ)
      → b ≤ a
      → d + e ≤ c
      → record_items_fetched (pos n) (with_counts a b c d e r)
        ≡ (ok tt, with_counts a b (c + n) d e r)
  unfolding add_to
  add_fetched n a b c d e h k =
      add_count CounterName.items_fetched n a b c d e a b (c + n) d e (rw (add-pos c n) refl) h
        (omega (arith, k))

  repeat_inserted :
      (n a b c d e : ℕ)
      → b ≤ a
      → d + n + e ≤ c
      → repeat n record_item_inserted (with_counts a b c d e r)
        ≡ (ok tt, with_counts a b c (d + n) e r)
  unfolding add_to repeat
  repeat_inserted zero a b c d e h k = ap (λ x. (ok tt, with_counts a b c x e r)) (omega arith)
  repeat_inserted (suc n) a b c d e h k =
      >>=-ok record_item_inserted (λ _. repeat n record_item_inserted)
        (add_count CounterName.items_inserted 1 a b c d e a b c (d + 1) e (rw (add-pos d 1) refl) h
          (omega (arith, k)))
      ∙ repeat_inserted n a b c (d + 1) e h (omega (arith, k))
      ∙ (ap (λ x. (ok tt, with_counts a b c x e r)) (omega arith))

  repeat_duplicate :
      (n a b c d e : ℕ)
      → b ≤ a
      → d + e + n ≤ c
      → repeat n record_item_duplicate (with_counts a b c d e r)
        ≡ (ok tt, with_counts a b c d (e + n) r)
  unfolding add_to repeat
  repeat_duplicate zero a b c d e h k = ap (λ x. (ok tt, with_counts a b c d x r)) (omega arith)
  repeat_duplicate (suc n) a b c d e h k =
      >>=-ok record_item_duplicate (λ _. repeat n record_item_duplicate)
        (add_count CounterName.items_duplicate 1 a b c d e a b c d (e + 1) (rw (add-pos e 1) refl) h
          (omega (arith, k)))
      ∙ repeat_duplicate n a b c d (e + 1) h (omega (arith, k))
      ∙ (ap (λ x. (ok tt, with_counts a b c d x r)) (omega arith))

  when_success :
      (x : FeedFetchStatus) (a b c d e : ℕ)
      → b + 1 ≤ a
      → d + e ≤ c
      → when (not (is_failure x)) record_feed_success (with_counts a b c d e r)
        ≡ (ok tt, with_counts a (b + (if is_failure x then 0 else 1)) c d e r)
  when_success FeedFetchStatus.failed a b c d e h k =
      ap (λ x. (ok tt, with_counts a x c d e r)) (omega arith)
  when_success _ a b c d e h k = add_success a b c d e h k

  when_fetched :
      (n a b c d e : ℕ)
      → b ≤ a
      → d + e ≤ c
      → when (not (n == 0)) (record_items_fetched (pos n)) (with_counts a b c d e r)
        ≡ (ok tt, with_counts a b (c + n) d e r)
  when_fetched zero a b c d e h k = ap (λ x. (ok tt, with_counts a b x d e r)) (omega arith)
  when_fetched (suc n) a b c d e h k = elim (Bool-cases (suc n == 0)) [
    | inl absent ↦ ground (arith, absent)
    | inr t ↦ rw t (add_fetched (suc n) a b c d e h k)
  ]

  apply_source-counts :
      (x : IngestSourceResult) (a b c d e : ℕ)
      → b ≤ a
      → d + e ≤ c
      → let i = x.items_inserted in
        let j = x.items_duplicate in
        apply_source x (with_counts a b c d e r)
        ≡ (ok tt, with_counts (a + 1) (b + one_if_ok x) (c + (i + j)) (d + i) (e + j) r)
  unfolding apply_source
  apply_source-counts x a b c d e h k =
      let i = x.items_inserted in
      let j = x.items_duplicate in
      let b' = b + one_if_ok x in
      let s : b' ≤ a + 1 = omega (arith, h, one_if_ok_le x) in
      let k₃ = repeat j record_item_duplicate in
      let k₂ = repeat i record_item_inserted >> k₃ in
      let fetched = when (not (i + j == 0)) (record_items_fetched (pos (i + j))) in
      let k₁ = fetched >> k₂ in
      let success = when (not (is_failure x.status)) record_feed_success in
      >>=-ok record_feed_attempt (λ _. success >> k₁) (add_feed a b c d e h k)
      ∙ >>=-ok success (λ _. k₁) (when_success x.status (a + 1) b c d e (omega arith) k)
      ∙ >>=-ok fetched (λ _. k₂) (when_fetched (i + j) (a + 1) b' c d e s k)
      ∙ >>=-ok (repeat i record_item_inserted) (λ _. k₃)
          (repeat_inserted i (a + 1) b' (c + (i + j)) d e s (omega (arith, k)))
      ∙ repeat_duplicate j (a + 1) b' (c + (i + j)) (d + i) e s (omega (arith, k))

  -- On a running run whose counts are consistent, no call raises, and each count grows by its sum over
  -- the results.
  pub apply_ingest_counters-sums :
      (results : List IngestSourceResult) (a b c d e : ℕ)
      → b ≤ a
      → d + e ≤ c
      → apply_ingest_counters results (with_counts a b c d e r) ≡ (
        ok tt,
        with_counts
            (a + length results)
            (b + total one_if_ok results)
            (c + total (λ x. x.items_inserted + x.items_duplicate) results)
            (d + total (λ x. x.items_inserted) results)
            (e + total (λ x. x.items_duplicate) results)
            r,
      )
  unfolding apply_ingest_counters
  apply_ingest_counters-sums [] a b c d e h k =
      with_counts-eq (omega arith) (omega arith) (omega arith) (omega arith) (omega arith)
  apply_ingest_counters-sums (x ∷ results) a b c d e h k =
      let i = x.items_inserted in
      let j = x.items_duplicate in
      >>=-ok (apply_source x) (λ _. apply_ingest_counters results)
        (apply_source-counts x a b c d e h k)
      ∙ apply_ingest_counters-sums results (a + 1) (b + one_if_ok x) (c + (i + j)) (d + i) (e + j)
          (omega (arith, h, one_if_ok_le x)) (omega (arith, k))
      ∙ with_counts-eq (omega arith) (omega arith) (omega arith) (omega arith) (omega arith)
