-- ===== src/Validators/Laws.antt =====
-- What the shared checks of app/domain/validators.py let through.
use automation_portfolio.Prelude.{
  ℕ, ◌≤◌, ◌≡◌, refl, Option, none, some, arith, length, is_nil, false,
}
use automation_portfolio.Prelude.Text.{Text, strip}
use automation_portfolio.Prelude.Text.Laws.{strip-strip}
use automation_portfolio.Prelude.Int.{ℤ, pos, ◌≤ℤ◌}
use automation_portfolio.Prelude.Result.{ok}
use automation_portfolio.Enums.{ErrorCode}
use automation_portfolio.Validators.{
  normalize_bounded_string, normalize_error_code, member, normalize_error_summary,
  ensure_non_negative_int,
}

-- Every member of ErrorCode survives the round trip through its string.
pub normalize_error_code-member : (c : ErrorCode) → normalize_error_code (member c) ≡ ok c
unfolding normalize_error_code
normalize_error_code-member ErrorCode.feed_timeout = refl
normalize_error_code-member _ = refl

-- A text that was trimmed and found to be of a length from `lo` to `hi`.
pub record IsBounded (lo hi : ℕ) (t : Text) : Type 0 where
  pub trimmed : strip t ≡ t
  pub nonempty : is_nil t ≡ false
  pub long_enough : lo ≤ length t
  pub short_enough : length t ≤ hi

pub normalize_bounded_string-IsBounded :
    (value : Text) (lo hi : ℕ) {t : Text}
    → normalize_bounded_string value lo hi ≡ ok t
    → IsBounded lo hi t
unfolding normalize_bounded_string
normalize_bounded_string-IsBounded value lo hi h = ground (arith, strip-strip value)

pub IsBounded-normalize_bounded_string :
    (lo hi : ℕ) (t : Text) → IsBounded lo hi t → normalize_bounded_string t lo hi ≡ ok t
unfolding normalize_bounded_string
IsBounded-normalize_bounded_string lo hi t h = rw h.trimmed (ground arith)

-- A stored error summary: none, or trimmed, not empty and of at most 500 characters.
abbrev pub IsSummary : Option Text → Type 0
IsSummary none = Unit
IsSummary (some t) = IsBounded 1 500 t

pub normalize_error_summary-IsSummary :
    (value : Option Text) {s : Option Text} → normalize_error_summary value ≡ ok s → IsSummary s
unfolding normalize_error_summary
normalize_error_summary-IsSummary none {s = none} h = tt
normalize_error_summary-IsSummary none {s = some t} h = ground arith
normalize_error_summary-IsSummary (some v) {s = none} h = tt
normalize_error_summary-IsSummary (some v) {s = some t} h = ground (arith, strip-strip v)

pub IsSummary-normalize_error_summary :
    (s : Option Text) → IsSummary s → normalize_error_summary s ≡ ok s
unfolding normalize_error_summary
IsSummary-normalize_error_summary none h = refl
IsSummary-normalize_error_summary (some t) h = rw h.trimmed (ground arith)

pub ensure_non_negative_int_lem :
    (v : ℤ) {w : ℤ} → ensure_non_negative_int v ≡ ok w → (w ≡ v) × (pos 0 ≤ℤ v)
unfolding ensure_non_negative_int
ensure_non_negative_int_lem v h = ground arith
