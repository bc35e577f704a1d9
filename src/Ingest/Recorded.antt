-- ===== src/Ingest/Recorded.antt =====
-- What `_persist_fetched` answers and stores.
use automation_portfolio.Prelude.{
  ℕ, suc, ◌+◌, ◌≤◌, ◌≡◌, refl, ap, Bool, true, false, arith, Option, none, some, List, [], ◌∷◌, map,
  length, take, length-take, OnSome, if◌then◌else◌, ltb, is_nil, ◌||◌,
}
use automation_portfolio.Prelude.Text.{Text}
use automation_portfolio.Prelude.Int.{ℤ, pos, eqb_ℤ}
use automation_portfolio.Prelude.Result.{Result}
use automation_portfolio.Prelude.Action.{Action, ◌>>=◌, ◌>>◌, pure}
use automation_portfolio.Enums.{FeedFetchStatus, ErrorCode}
use automation_portfolio.Fetch.{FeedFetch}
use automation_portfolio.Source.{Source, record_fetch_failure}
use automation_portfolio.Store.{Store, transaction}
use automation_portfolio.Store.NewsRows.{IsDeduplicated}
use automation_portfolio.Store.Post.{Post, Post-bind, Post-imp, Post-transaction}
use automation_portfolio.Ingest.Libraries.{Library}
use automation_portfolio.Ingest.Parser.{ParsedFeedEntry, parse_feed_bytes, parse_entry}
use automation_portfolio.Ingest.Results.{IngestSourceResult}
use automation_portfolio.Ingest.Persist.{
  Counts, FetchedSource, DrawnIds, FeedHttpError, FeedHttpResponse, FetchOutcome, answered, refused,
  no_counts, outcome_of, fetch_of, body_of, store_entries, store_fetch, persist_failure,
  persist_not_modified, persist_entries, persist_parsed, persist_answer, persist_outcome,
  persist_fetched, succeeded_source,
}
use automation_portfolio.Ingest.Kept.{Articles, store_fetch-Articles}
use automation_portfolio.Ingest.Counted.{Counted, Deduplicated, store_entries-Counted}

-- Of one source with at most `limit` entries, when `remaining` articles may still be stored and
-- `before` are there.
pub record Recorded (limit remaining before : ℕ) (p : IngestSourceResult × ℕ) (t : Store)
    : Type 0 where
  pub capped : p.0.items_inserted + p.1 ≡ remaining
  pub known : p.0.items_inserted + p.0.items_duplicate ≤ p.0.items_fetched
  pub bounded : p.0.items_fetched + p.0.items_skipped ≤ limit
  pub stored : length t.news_items ≡ before + p.0.items_inserted
  pub deduplicated : IsDeduplicated t.news_items

pub length-map {ℓ κ} :
    {A : Type ℓ} {B : Type κ} (f : A → B) (xs : List A) → length (map f xs) ≡ length xs
length-map f [] = refl
length-map f (x ∷ xs) = ap suc (length-map f xs)

OnSome-if {ℓ κ} :
    {A : Type ℓ} (P : A → Type κ) (test : Bool) (x : A)
    → P x
    → OnSome P (if test then none else some x)
OnSome-if P true x h = tt
OnSome-if P false x h = h

parse_feed_bytes-bounded :
    (library : Library) (body : Text) (limit : ℕ)
    → OnSome (λ entries. length entries ≤ limit) (parse_feed_bytes library body limit)
unfolding parse_feed_bytes
parse_feed_bytes-bounded library body limit =
    let results = map (parse_entry library) (take limit (library.feedparser body)) in
    OnSome-if (λ entries. length entries ≤ limit)
      (ltb limit 1 || is_nil (library.feedparser body) || is_nil results) results
      (rw (length-map (parse_entry library) (take limit (library.feedparser body)))
        (length-take limit (library.feedparser body)))

keep-Deduplicated :
    {A : Type 0} (s : Store) (p : Result A × Store)
    → IsDeduplicated s.news_items
    → Articles s.news_items p
    → Post (λ _ t. t.news_items ≡ s.news_items) Deduplicated p
keep-Deduplicated s p d h =
    Post-imp (λ _ t. t.news_items ≡ s.news_items) (λ _ t. t.news_items ≡ s.news_items)
      (λ t. t.news_items ≡ s.news_items) Deduplicated p (λ _ t e. e) (λ t e. rw e d) h

module _ (library : Library) (run_id : ℕ) where
  -- A transaction that stores no article, and then a result without counts.
  no_articles :
      (f : FetchedSource) (status : FeedFetchStatus) (code : Option ErrorCode)
      (summary : Option Text) (remaining : ℕ) (p : Result (Unit {0}) × Source) (fetch : FeedFetch)
      (s : Store)
      → IsDeduplicated s.news_items
      → Post (Recorded f.max_entries remaining (length s.news_items)) Deduplicated (
          (transaction (store_fetch library run_id p fetch)
              >> pure (outcome_of f status (no_counts remaining) code summary, remaining))
            s)
  no_articles f status code summary remaining p fetch s d =
      let m = store_fetch library run_id p fetch in
      let h = store_fetch-Articles library run_id p fetch s in
      Post-bind (λ _ t. t.news_items ≡ s.news_items)
        (Recorded f.max_entries remaining (length s.news_items)) Deduplicated (transaction m)
        (λ _. pure (outcome_of f status (no_counts remaining) code summary, remaining)) s
        (Post-transaction (λ _ t. t.news_items ≡ s.news_items) Deduplicated m s
          (keep-Deduplicated s (m s) d h) d)
        (λ _ t e. record {
          capped = omega arith;
          known = omega arith;
          bounded = omega arith;
          stored = rw e (omega arith);
          deduplicated = rw e d;
        })

  persist_failure-Recorded :
      (f : FetchedSource) (ids : DrawnIds) (duration : ℕ) (http : Option ℤ) (error : FeedHttpError)
      (remaining : ℕ) (s : Store)
      → IsDeduplicated s.news_items
      → Post
          (Recorded f.max_entries remaining (length s.news_items))
          Deduplicated
          (persist_failure library run_id f ids duration http error remaining s)
  unfolding persist_failure
  persist_failure-Recorded f ids duration http error remaining s d =
      let fetch = fetch_of library run_id f ids duration FeedFetchStatus.failed http 0 in
      no_articles f FeedFetchStatus.failed (some error.error_code) (some error.summary) remaining
        (record_fetch_failure f.finished_at f.source)
        (record fetch { error_code = some error.error_code; error_summary = some error.summary }) s
        d

  persist_not_modified-Recorded :
      (f : FetchedSource) (ids : DrawnIds) (duration : ℕ) (response : FeedHttpResponse)
      (remaining : ℕ) (s : Store)
      → IsDeduplicated s.news_items
      → Post
          (Recorded f.max_entries remaining (length s.news_items))
          Deduplicated
          (persist_not_modified library run_id f ids duration response remaining s)
  unfolding persist_not_modified
  persist_not_modified-Recorded f ids duration response remaining s d =
      no_articles f FeedFetchStatus.not_modified none none remaining
        (succeeded_source library run_id f response)
        (fetch_of library run_id f ids duration FeedFetchStatus.not_modified (some (pos 304)) 0) s d

  start :
      (remaining : ℕ) (s : Store)
      → IsDeduplicated s.news_items
      → Counted remaining (length s.news_items) 0 (no_counts remaining) s
  start remaining s d = record {
    capped = omega arith;
    known = omega arith;
    seen = omega arith;
    stored = omega arith;
    deduplicated = d;
  }

  -- The source and the fetch are written after the loop, and the counts come back.
  write-Counted :
      (p : Result (Unit {0}) × Source) (fetch : FeedFetch) (limit before n : ℕ) (c : Counts)
      (t : Store)
      → Counted limit before n c t
      → Post
          (Counted limit before n)
          Deduplicated
          ((store_fetch library run_id p fetch >> pure c) t)
  write-Counted p fetch limit before n c t k =
      Post-bind (λ _ u. u.news_items ≡ t.news_items) (Counted limit before n) Deduplicated
        (store_fetch library run_id p fetch) (λ _. pure c) t
        (keep-Deduplicated t (store_fetch library run_id p fetch t) k.deduplicated
          (store_fetch-Articles library run_id p fetch t))
        (λ _ u e. record {
          capped = k.capped;
          known = k.known;
          seen = k.seen;
          stored = rw e k.stored;
          deduplicated = rw e k.deduplicated;
        })

  persist_entries-Recorded :
      (max_length : ℕ) (f : FetchedSource) (ids : DrawnIds) (duration : ℕ)
      (response : FeedHttpResponse) (entries : List ParsedFeedEntry) (remaining : ℕ) (s : Store)
      → length entries ≤ f.max_entries
      → IsDeduplicated s.news_items
      → Post
          (Recorded f.max_entries remaining (length s.news_items))
          Deduplicated
          (persist_entries library run_id max_length f ids duration response entries remaining s)
  unfolding persist_entries
  persist_entries-Recorded max_length f ids duration response entries remaining s b d =
      let Counted_here = Counted remaining (length s.news_items) (0 + length entries) in
      let fetch : Counts → FeedFetch = λ c.
        fetch_of library run_id f ids duration FeedFetchStatus.success (some response.status_code)
          c.fetched_count in
      let write : Counts → Action Store (Unit {0}) =
        λ c. store_fetch library run_id (succeeded_source library run_id f response) (fetch c) in
      let loop = store_entries library run_id max_length f ids entries 0 (no_counts remaining) in
      let block = loop >>= (λ c. write c >> pure c) in
      let answer : Counts → Action Store (IngestSourceResult × ℕ) =
        λ c. pure (outcome_of f FeedFetchStatus.success c none none, c.remaining_inserts) in
      Post-bind Counted_here (Recorded f.max_entries remaining (length s.news_items)) Deduplicated
        (transaction block) answer s
        (Post-transaction Counted_here Deduplicated block s
          (Post-bind Counted_here Counted_here Deduplicated loop (λ c. write c >> pure c) s
            (store_entries-Counted library run_id max_length f ids entries 0 remaining
              (length s.news_items) 0 (no_counts remaining) s (start remaining s d))
            (λ c t k.
              write-Counted (succeeded_source library run_id f response) (fetch c) remaining
                (length s.news_items) (0 + length entries) c t k))
          d)
        (λ c t k. record {
          capped = k.capped;
          known = k.known;
          bounded = omega (arith, k.seen, b);
          stored = k.stored;
          deduplicated = k.deduplicated;
        })

  persist_parsed-Recorded :
      (max_length : ℕ) (f : FetchedSource) (ids : DrawnIds) (duration : ℕ)
      (response : FeedHttpResponse) (parsed : Option (List ParsedFeedEntry)) (remaining : ℕ)
      (s : Store)
      → OnSome (λ entries. length entries ≤ f.max_entries) parsed
      → IsDeduplicated s.news_items
      → Post
          (Recorded f.max_entries remaining (length s.news_items))
          Deduplicated
          (persist_parsed library run_id max_length f ids duration response parsed remaining s)
  unfolding persist_parsed
  persist_parsed-Recorded max_length f ids duration response none remaining s b d =
      persist_failure-Recorded f ids duration (some response.status_code) _ remaining s d
  persist_parsed-Recorded max_length f ids duration response (some entries) remaining s b d =
      persist_entries-Recorded max_length f ids duration response entries remaining s b d

  persist_answer-Recorded :
      (max_length : ℕ) (f : FetchedSource) (ids : DrawnIds) (response : FeedHttpResponse)
      (remaining : ℕ) (unchanged : Bool) (s : Store)
      → IsDeduplicated s.news_items
      → Post
          (Recorded f.max_entries remaining (length s.news_items))
          Deduplicated
          (persist_answer library run_id max_length f ids response remaining unchanged s)
  unfolding persist_answer
  persist_answer-Recorded max_length f ids response remaining true s d =
      persist_not_modified-Recorded f ids _ response remaining s d
  persist_answer-Recorded max_length f ids response remaining false s d =
      persist_parsed-Recorded max_length f ids _ response _ remaining s
        (parse_feed_bytes-bounded library (body_of response.body) f.max_entries) d

  persist_outcome-Recorded :
      (max_length : ℕ) (f : FetchedSource) (ids : DrawnIds) (remaining : ℕ) (outcome : FetchOutcome)
      (s : Store)
      → IsDeduplicated s.news_items
      → Post
          (Recorded f.max_entries remaining (length s.news_items))
          Deduplicated
          (persist_outcome library run_id max_length f ids remaining outcome s)
  unfolding persist_outcome
  persist_outcome-Recorded max_length f ids remaining (refused error) s d =
      persist_failure-Recorded f ids _ none error remaining s d
  persist_outcome-Recorded max_length f ids remaining (answered response) s d =
      persist_answer-Recorded max_length f ids response remaining
        (eqb_ℤ response.status_code (pos 304)) s d

  pub persist_fetched-Recorded :
      (max_length : ℕ) (f : FetchedSource) (ids : DrawnIds) (remaining : ℕ) (s : Store)
      → IsDeduplicated s.news_items
      → Post
          (Recorded f.max_entries remaining (length s.news_items))
          Deduplicated
          (persist_fetched library run_id max_length f ids remaining s)
  unfolding persist_fetched
  persist_fetched-Recorded max_length f ids remaining s d =
      persist_outcome-Recorded max_length f ids remaining f.outcome s d
