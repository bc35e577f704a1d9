-- ===== src/Attempt/Invariant.antt =====
-- What a constructed `DeliveryAttempt` satisfies, and that construction checks exactly that.
use automation_portfolio.Prelude.{
  ◌≤◌, ◌≡◌, refl, sym, ◌≢◌, ◌⊎◌, inl, inr, Option, none, some, arith, true, OnSome,
}
use automation_portfolio.Prelude.Text.{Text}
use automation_portfolio.Prelude.Int.{ℤ, pos, ◌≤ℤ◌}
use automation_portfolio.Prelude.Time.{is_aware, instant}
use automation_portfolio.Prelude.Result.{ok, ok-injective, >>=-eq-ok, Result-cases}
use automation_portfolio.Enums.{DeliveryStatus, ErrorCode}
use automation_portfolio.Validators.{
  ensure_utc_datetime, normalize_error_summary, normalize_error_code, member,
}
use automation_portfolio.Validators.Laws.{
  IsSummary, normalize_error_code-member, normalize_error_summary-IsSummary,
  IsSummary-normalize_error_summary,
}
use automation_portfolio.Attempt.Entity.{Attempt}
use automation_portfolio.Attempt.Construct.{
  post_init, ensure_positive_int, check_times, check_numbers, validate_status_fields,
  normalize_failure,
}

-- The result fields that go with a status.
abbrev pub HasResult : DeliveryStatus → Attempt → Type 0
HasResult DeliveryStatus.pending a =
    (a.finished_at ≡ none)
    × (a.telegram_message_id ≡ none)
    × (a.http_status ≡ none)
    × (a.retry_after_seconds ≡ none)
    × (a.error_code ≡ none)
    × (a.error_summary ≡ none)
HasResult DeliveryStatus.sent a =
    (a.finished_at ≢ none)
    × (a.telegram_message_id ≢ none)
    × (a.http_status ≢ none)
    × OnSome (λ s. (pos 200 ≤ℤ s) × (s ≤ℤ pos 299)) a.http_status
    × (a.retry_after_seconds ≡ none)
    × (a.error_code ≡ none)
    × (a.error_summary ≡ none)
HasResult DeliveryStatus.failed a =
    (a.finished_at ≢ none)
    × (a.telegram_message_id ≡ none)
    × (a.error_code ≢ none)
    × IsSummary a.error_summary

pub record IsValidAttempt (a : Attempt) : Type 0 where
  pub part : pos 1 ≤ℤ a.part_number
  pub attempt : pos 1 ≤ℤ a.attempt_number
  pub start : is_aware a.started_at ≡ true
  pub times : OnSome (λ t. (is_aware t ≡ true) × (instant a.started_at ≤ instant t)) a.finished_at
  pub http : OnSome (λ s. (pos 100 ≤ℤ s) × (s ≤ℤ pos 599)) a.http_status
  pub retry : OnSome (λ s. pos 0 ≤ℤ s) a.retry_after_seconds
  pub message : OnSome (λ m. pos 1 ≤ℤ m) a.telegram_message_id
  pub result : HasResult a.status a

positive : (v : ℤ) → ensure_positive_int v ≡ ok tt → pos 1 ≤ℤ v
unfolding ensure_positive_int
positive v h = ground arith

ensure_positive : (v : ℤ) → pos 1 ≤ℤ v → ensure_positive_int v ≡ ok tt
unfolding ensure_positive_int
ensure_positive v h = ground arith

module _ (a : Attempt) where
  times_of :
      check_times a ≡ ok tt
      → OnSome (λ t. (is_aware t ≡ true) × (instant a.started_at ≤ instant t)) a.finished_at
  unfolding check_times
  times_of h = ground arith

  http_of : check_numbers a ≡ ok tt → OnSome (λ s. (pos 100 ≤ℤ s) × (s ≤ℤ pos 599)) a.http_status
  unfolding check_numbers
  http_of h = ground arith

  retry_of : check_numbers a ≡ ok tt → OnSome (λ s. pos 0 ≤ℤ s) a.retry_after_seconds
  unfolding check_numbers
  retry_of h = ground arith

  message_of : check_numbers a ≡ ok tt → OnSome (λ m. pos 1 ≤ℤ m) a.telegram_message_id
  unfolding check_numbers
  message_of h = ground arith

-- The status-specific part of the invariant, before the error fields are normalized.
abbrev HasRawResult : DeliveryStatus → Attempt → Type 0
HasRawResult DeliveryStatus.failed a =
    (a.finished_at ≢ none) × (a.telegram_message_id ≡ none) × (a.error_code ≢ none)
HasRawResult s a = HasResult s a

validate_status_fields-HasRawResult :
    (a : Attempt) → validate_status_fields a ≡ ok tt → HasRawResult a.status a
unfolding validate_status_fields
validate_status_fields-HasRawResult a h = ground arith

failed_code :
    (c : Option ErrorCode)
    → (c ≡ none) ⊎ ((d : ErrorCode) × (c ≡ some d) × (normalize_error_code (member d) ≡ ok d))
failed_code none = inl refl
failed_code (some d) = inr (d, refl, normalize_error_code-member d)

normalize_failure-HasResult :
    (status : DeliveryStatus) (a b : Attempt)
    → HasRawResult status a
    → normalize_failure status a ≡ ok b
    → (c : Option ErrorCode) × (s : Option Text) × (b
        ≡ record a { error_code = c; error_summary = s })
      × HasResult status (record a { error_code = c; error_summary = s })
unfolding normalize_failure
normalize_failure-HasResult DeliveryStatus.pending a b h e =
    (a.error_code, a.error_summary, sym (ok-injective e), h)
normalize_failure-HasResult DeliveryStatus.sent a b h e =
    (a.error_code, a.error_summary, sym (ok-injective e), h)
normalize_failure-HasResult DeliveryStatus.failed a b h e =
    elim (Result-cases (normalize_error_summary a.error_summary)) [
      | inl (s, e') ↦ (
        a.error_code,
        s,
        ground (arith, e', failed_code a.error_code),
        (h.0, h.1, h.2, normalize_error_summary-IsSummary a.error_summary e'),
      )
      | inr (_, e') ↦ ground (arith, e', failed_code a.error_code)
    ]

-- A delivery attempt that is constructed without an error is valid, and is the given one but for
-- its error fields.
pub post_init-IsValidAttempt :
    (a : Attempt) {b : Attempt}
    → post_init a ≡ ok b
    → (c : Option ErrorCode) × (s : Option Text) × (b
        ≡ record a { error_code = c; error_summary = s })
      × IsValidAttempt b
unfolding post_init ensure_utc_datetime
post_init-IsValidAttempt a {b} h =
    let (_, e₁, h₁) = >>=-eq-ok (ensure_positive_int a.part_number) _ h in
    let (_, e₂, h₂) = >>=-eq-ok (ensure_positive_int a.attempt_number) _ h₁ in
    let (_, e₃, h₃) = >>=-eq-ok (ensure_utc_datetime a.started_at) _ h₂ in
    let (_, e₄, h₄) = >>=-eq-ok (check_times a) _ h₃ in
    let (_, e₅, h₅) = >>=-eq-ok (check_numbers a) _ h₄ in
    let (_, e₆, h₆) = >>=-eq-ok (validate_status_fields a) _ h₅ in
    let (c, s, same, result) =
      normalize_failure-HasResult a.status a b (validate_status_fields-HasRawResult a e₆) h₆ in
    (
      c,
      s,
      same,
      rw same (record {
        part = positive a.part_number e₁;
        attempt = positive a.attempt_number e₂;
        start = ground (arith, e₃);
        times = times_of a e₄;
        http = http_of a e₅;
        retry = retry_of a e₅;
        message = message_of a e₅;
        result = result;
      }),
    )

check_times-ok :
    (a : Attempt)
    → OnSome (λ t. (is_aware t ≡ true) × (instant a.started_at ≤ instant t)) a.finished_at
    → check_times a ≡ ok tt
unfolding check_times
check_times-ok a h = ground arith

check_numbers-ok :
    (a : Attempt)
    → OnSome (λ s. (pos 100 ≤ℤ s) × (s ≤ℤ pos 599)) a.http_status
    → OnSome (λ s. pos 0 ≤ℤ s) a.retry_after_seconds
    → OnSome (λ m. pos 1 ≤ℤ m) a.telegram_message_id
    → check_numbers a ≡ ok tt
unfolding check_numbers
check_numbers-ok a h r m = ground arith

validate_status_fields-ok :
    (a : Attempt) → HasRawResult a.status a → validate_status_fields a ≡ ok tt
unfolding validate_status_fields
validate_status_fields-ok a h = ground arith

HasResult-HasRawResult :
    (status : DeliveryStatus) (a : Attempt) → HasResult status a → HasRawResult status a
HasResult-HasRawResult DeliveryStatus.pending a h = h
HasResult-HasRawResult DeliveryStatus.sent a h = h
HasResult-HasRawResult DeliveryStatus.failed a h = (h.0, h.1, h.2)

normalize_failure-ok :
    (status : DeliveryStatus) (a : Attempt) → HasResult status a → normalize_failure status a ≡ ok a
unfolding normalize_failure
normalize_failure-ok DeliveryStatus.pending a h = refl
normalize_failure-ok DeliveryStatus.sent a h = refl
normalize_failure-ok DeliveryStatus.failed a h =
    ground (arith, failed_code a.error_code, IsSummary-normalize_error_summary a.error_summary h.3)

-- A valid delivery attempt passes the checks of its constructor and comes back as it is.
pub IsValidAttempt-post_init : (a : Attempt) → IsValidAttempt a → post_init a ≡ ok a
unfolding post_init ensure_utc_datetime
IsValidAttempt-post_init a v =
    let raw = HasResult-HasRawResult a.status a v.result in
    rw (
      ensure_positive a.part_number v.part,
      ensure_positive a.attempt_number v.attempt,
      v.start,
      check_times-ok a v.times,
      check_numbers-ok a v.http v.retry v.message,
      validate_status_fields-ok a raw,
      normalize_failure-ok a.status a v.result,
    )
