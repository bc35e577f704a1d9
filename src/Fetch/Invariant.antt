-- ===== src/Fetch/Invariant.antt =====
-- When a `FeedFetch` can be built.
use automation_portfolio.Prelude.{
  ◌≤◌, ◌≡◌, refl, sym, ◌∙◌, ◌≢◌, ◌↔◌, none, some, arith, true, OnSome,
}
use automation_portfolio.Prelude.Int.{pos, ◌≤ℤ◌}
use automation_portfolio.Prelude.Time.{is_aware, instant, before}
use automation_portfolio.Prelude.Result.{ok, raise_if, on_some, ◌>>=◌, >>=-eq-ok}
use automation_portfolio.Messages.{value_error, fetch_completion_before_start}
use automation_portfolio.Validators.{
  ensure_utc_datetime, ensure_non_negative_int, ensure_http_status,
}
use automation_portfolio.Enums.{FeedFetchStatus}
use automation_portfolio.Fetch.Entity.{FeedFetch, post_init, check_outcome}

-- A fetch that brought nothing new or that succeeded has no error, and the HTTP status that says so.
abbrev pub HasOutcome : FeedFetchStatus → FeedFetch → Type 0
HasOutcome FeedFetchStatus.not_modified f =
    (f.error_code ≡ none)
    × (f.error_summary ≡ none)
    × (f.http_status ≡ some (pos 304))
    × (f.entries_count ≡ pos 0)
HasOutcome FeedFetchStatus.success f =
    (f.error_code ≡ none)
    × (f.error_summary ≡ none)
    × (f.http_status ≢ none)
    × OnSome (λ s. (pos 200 ≤ℤ s) × (s ≤ℤ pos 299)) f.http_status
HasOutcome FeedFetchStatus.failed f = f.error_code ≢ none

pub record IsBuilt (f : FeedFetch) : Type 0 where
  pub start : is_aware f.started_at ≡ true
  pub end : is_aware f.finished_at ≡ true
  pub in_order : instant f.started_at ≤ instant f.finished_at
  pub entries : pos 0 ≤ℤ f.entries_count
  pub duration : pos 0 ≤ℤ f.duration_ms
  pub http : OnSome (λ s. (pos 100 ≤ℤ s) × (s ≤ℤ pos 599)) f.http_status

checks-IsBuilt : (f : FeedFetch) {g : FeedFetch} → post_init f ≡ ok g → IsBuilt f
unfolding post_init
checks-IsBuilt f h =
    let (_, e₁, h₁) = >>=-eq-ok (ensure_utc_datetime f.started_at) _ h in
    let (_, e₂, h₂) = >>=-eq-ok (ensure_utc_datetime f.finished_at) _ h₁ in
    let (_, e₃, h₃) =
      >>=-eq-ok
        (raise_if (before f.finished_at f.started_at) (value_error fetch_completion_before_start)) _
        h₂ in
    let (_, e₄, h₄) = >>=-eq-ok (ensure_non_negative_int f.entries_count) _ h₃ in
    let (_, e₅, h₅) = >>=-eq-ok (ensure_non_negative_int f.duration_ms) _ h₄ in
    let (_, e₆, h₆) =
      >>=-eq-ok (on_some (λ s. ensure_http_status s >>= λ _. ok tt) f.http_status) _ h₅ in
    record {
      start = ground (arith, e₁);
      end = ground (arith, e₂);
      in_order = ground (arith, e₃);
      entries = ground (arith, e₄);
      duration = ground (arith, e₅);
      http = ground (arith, e₆);
    }

IsBuilt-checks : (f : FeedFetch) → IsBuilt f → post_init f ≡ check_outcome f.status f
unfolding post_init
IsBuilt-checks f b =
    let t : on_some (λ s. ensure_http_status s >>= λ _. ok tt) f.http_status ≡ ok tt =
      ground (arith, b.http) in
    rw (b.start, b.end, t) (ground (arith, b))

check_outcome-HasOutcome :
    (status : FeedFetchStatus) (f : FeedFetch)
    → status ≢ FeedFetchStatus.failed
    → (check_outcome status f ≡ ok f) ↔ HasOutcome status f
unfolding check_outcome
check_outcome-HasOutcome FeedFetchStatus.failed f n = absurd (n refl)
check_outcome-HasOutcome FeedFetchStatus.not_modified f n = (λ h. ground arith, λ h. ground arith)
check_outcome-HasOutcome FeedFetchStatus.success f n = (λ h. ground arith, λ h. ground arith)

-- A fetch whose status is not failed is constructed, unchanged, exactly when its times are aware
-- and in order, its numbers are in range, and its HTTP status, entries and missing error fields
-- fit its status.
pub post_init-not_failed :
    (f : FeedFetch)
    → f.status ≢ FeedFetchStatus.failed
    → (post_init f ≡ ok f) ↔ (IsBuilt f × HasOutcome f.status f)
post_init-not_failed f n = (
  λ h.
      let b = checks-IsBuilt f h in
      (b, (check_outcome-HasOutcome f.status f n).0 (sym (IsBuilt-checks f b) ∙ h)),
  λ p. IsBuilt-checks f p.0 ∙ (check_outcome-HasOutcome f.status f n).1 p.1,
)
