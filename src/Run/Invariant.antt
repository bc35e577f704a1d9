-- ===== src/Run/Invariant.antt =====
-- What a constructed `PipelineRun` satisfies, and that construction checks exactly that.
use automation_portfolio.Prelude.{◌≤◌, ◌≡◌, refl, ◌≢◌, inl, inr, Option, none, some, arith, true}
use mathlib.Core.Path.{subst}
use automation_portfolio.Prelude.Text.{Text}
use automation_portfolio.Prelude.Int.{ℤ, pos, ◌+ℤ◌, ◌≤ℤ◌}
use automation_portfolio.Prelude.Time.{Datetime, is_aware, instant}
use automation_portfolio.Prelude.Result.{ok, raise-ne-ok, ok-injective, >>=-eq-ok, Result-cases}
use automation_portfolio.Enums.{PipelineRunStatus, ErrorCode}
use automation_portfolio.Run.Entity.{
  PipelineRun, Counters, validate_counters, normalize_error_fields,
}
use automation_portfolio.Run.Construct.{post_init, check_completion}
use automation_portfolio.Validators.{
  ensure_utc_datetime, ensure_non_negative_int, normalize_bounded_string, normalize_error_summary,
}
use automation_portfolio.Validators.Laws.{
  IsBounded, normalize_bounded_string-IsBounded, IsBounded-normalize_bounded_string, IsSummary,
  normalize_error_code-member, normalize_error_summary-IsSummary, IsSummary-normalize_error_summary,
}

pub record IsConsistent (c : Counters) : Type 0 where
  pub total_nonneg : pos 0 ≤ℤ c.feeds_total
  pub succeeded_nonneg : pos 0 ≤ℤ c.feeds_succeeded
  pub fetched_nonneg : pos 0 ≤ℤ c.items_fetched
  pub inserted_nonneg : pos 0 ≤ℤ c.items_inserted
  pub duplicate_nonneg : pos 0 ≤ℤ c.items_duplicate
  pub candidates_nonneg : pos 0 ≤ℤ c.candidates_count
  pub selected_nonneg : pos 0 ≤ℤ c.selected_count
  pub feeds_consistent : c.feeds_succeeded ≤ℤ c.feeds_total
  pub items_consistent : c.items_inserted +ℤ c.items_duplicate ≤ℤ c.items_fetched
  pub selection_consistent : c.selected_count ≤ℤ c.candidates_count

abbrev of_fields : ℤ → ℤ → ℤ → ℤ → ℤ → ℤ → ℤ → Counters
of_fields a b c d e f g = record {
  feeds_total = a;
  feeds_succeeded = b;
  items_fetched = c;
  items_inserted = d;
  items_duplicate = e;
  candidates_count = f;
  selected_count = g;
}

of_fields-IsConsistent :
    (a b c d e f g : ℤ)
    → validate_counters (of_fields a b c d e f g) ≡ ok tt
    → IsConsistent (of_fields a b c d e f g)
unfolding validate_counters
of_fields-IsConsistent (pos a) (pos b) (pos c) (pos d) (pos e) (pos f) (pos g) h = ground arith
of_fields-IsConsistent _ _ _ _ _ _ _ h = ground arith

pub validate_counters-IsConsistent : (c : Counters) → validate_counters c ≡ ok tt → IsConsistent c
validate_counters-IsConsistent c h = of_fields-IsConsistent _ _ _ _ _ _ _ h

pub IsConsistent-validate_counters : (c : Counters) → IsConsistent c → validate_counters c ≡ ok tt
unfolding validate_counters
IsConsistent-validate_counters c h = ground arith

-- The error fields of a run, by its status.
abbrev pub HasErrorFields : PipelineRunStatus → Option ErrorCode → Option Text → Type 0
HasErrorFields PipelineRunStatus.failed code summary = (code ≢ none) × IsSummary summary
HasErrorFields _ code summary = (code ≡ none) × (summary ≡ none)

pub normalize_error_fields-HasErrorFields :
    (status : PipelineRunStatus) (code : Option ErrorCode) (summary : Option Text)
    {c : Option ErrorCode} {s : Option Text}
    → normalize_error_fields status code summary ≡ ok (c, s)
    → (c ≡ code) × HasErrorFields status c s
unfolding normalize_error_fields
normalize_error_fields-HasErrorFields PipelineRunStatus.failed none summary h =
    absurd (raise-ne-ok h)
normalize_error_fields-HasErrorFields PipelineRunStatus.failed (some code) summary h =
    elim (Result-cases (normalize_error_summary summary)) [
      | inl (s', e) ↦
          ground (
            arith,
            e,
            normalize_error_code-member code,
            normalize_error_summary-IsSummary summary e,
          )
      | inr (_, e) ↦ ground (arith, e, normalize_error_code-member code)
    ]
normalize_error_fields-HasErrorFields _ code summary h = ground arith

pub HasErrorFields-normalize_error_fields :
    (status : PipelineRunStatus) (code : Option ErrorCode) (summary : Option Text)
    → HasErrorFields status code summary
    → normalize_error_fields status code summary ≡ ok (code, summary)
unfolding normalize_error_fields
HasErrorFields-normalize_error_fields PipelineRunStatus.failed none summary h = absurd (h.0 refl)
HasErrorFields-normalize_error_fields PipelineRunStatus.failed (some code) summary h =
    rw (normalize_error_code-member code, IsSummary-normalize_error_summary summary h.1)
HasErrorFields-normalize_error_fields _ code summary h = ground arith

-- A run that is not running has ended, at or after its start.
abbrev pub HasEnded : Datetime → Option Datetime → Option ℤ → Type 0
HasEnded started (some finished) (some duration) =
    (is_aware finished ≡ true) × (instant started ≤ instant finished) × (pos 0 ≤ℤ duration)
HasEnded started _ _ = ⊥

abbrev pub HasCompletion : PipelineRunStatus → Datetime → Option Datetime → Option ℤ → Type 0
HasCompletion PipelineRunStatus.running started finished duration =
    (finished ≡ none) × (duration ≡ none)
HasCompletion _ started finished duration = HasEnded started finished duration

-- What holds of every constructed run.
pub record IsValidRun (r : PipelineRun) : Type 0 where
  pub version : IsBounded 1 64 r.app_version
  pub start : is_aware r.started_at ≡ true
  pub consistent : IsConsistent r.counters
  pub completion : HasCompletion r.status r.started_at r.finished_at r.duration_ms
  pub errors : HasErrorFields r.status r.error_code r.error_summary

check_completion-HasCompletion :
    (r : PipelineRun)
    → check_completion r ≡ ok tt
    → HasCompletion r.status r.started_at r.finished_at r.duration_ms
unfolding check_completion ensure_utc_datetime ensure_non_negative_int
check_completion-HasCompletion r h = ground arith

HasCompletion-check_completion :
    (r : PipelineRun)
    → HasCompletion r.status r.started_at r.finished_at r.duration_ms
    → check_completion r ≡ ok tt
unfolding check_completion ensure_utc_datetime ensure_non_negative_int
HasCompletion-check_completion r h = ground arith

-- A run that is constructed without an error is valid.
pub post_init-IsValidRun : (r : PipelineRun) {t : PipelineRun} → post_init r ≡ ok t → IsValidRun t
unfolding post_init ensure_utc_datetime
post_init-IsValidRun r h =
    let (version, e₁, h₁) = >>=-eq-ok (normalize_bounded_string r.app_version 1 64) _ h in
    let (_, e₂, h₂) = >>=-eq-ok (ensure_utc_datetime r.started_at) _ h₁ in
    let (_, e₃, h₃) = >>=-eq-ok (validate_counters r.counters) _ h₂ in
    let (_, e₄, h₄) = >>=-eq-ok (check_completion r) _ h₃ in
    let (fields, e₅, h₅) =
      >>=-eq-ok (normalize_error_fields r.status r.error_code r.error_summary) _ h₄ in
    subst IsValidRun (ok-injective h₅) (record {
      version = normalize_bounded_string-IsBounded r.app_version 1 64 e₁;
      start = ground (arith, e₂);
      consistent = validate_counters-IsConsistent r.counters e₃;
      completion = check_completion-HasCompletion r e₄;
      errors = (normalize_error_fields-HasErrorFields r.status r.error_code r.error_summary e₅).1;
    })

-- A valid run passes the checks of its constructor and comes back as it is.
pub IsValidRun-post_init : (r : PipelineRun) → IsValidRun r → post_init r ≡ ok r
unfolding post_init
IsValidRun-post_init r v =
    rw
      (
        IsBounded-normalize_bounded_string 1 64 r.app_version v.version,
        IsConsistent-validate_counters r.counters v.consistent,
        HasCompletion-check_completion r v.completion,
        HasErrorFields-normalize_error_fields r.status r.error_code r.error_summary v.errors,
      )
      (ground arith)
