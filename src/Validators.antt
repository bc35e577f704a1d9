-- ===== src/Validators.antt =====
-- app/domain/validators.py: the checks that the entities share. Values have the annotated types of
-- the source, so the checks that raise TypeError have nothing to reject and are left out.
pub mod Laws
use text.Mathlib.Text.{◌==◌ as str_eq}
use Prim.Native.String.{String}
use automation_portfolio.Prelude.{
  ℕ, Bool, true, false, not, ◌&&◌, ◌||◌, Option, none, some, List, [], ◌∷◌, ltb, ◌==◌,
  if◌then◌else◌, length, any, is_nil, contains,
}
use automation_portfolio.Prelude.Text.{Text, codes, strip, text_eq}
use automation_portfolio.Prelude.Int.{ℤ, pos, ltb_ℤ, leb_ℤ}
use automation_portfolio.Prelude.Time.{Datetime, is_aware}
use automation_portfolio.Prelude.Result.{Result, ok, raise, ◌>>=◌, ◌>>◌, raise_if}
use automation_portfolio.Messages.{
  value_error, datetime_timezone_required, sha256_required, bounded_string_required,
  bounded_string_too_short, bounded_string_too_long, non_negative_integer_required,
  http_status_out_of_range, error_code_required, error_code_too_long, error_code_unsupported,
  error_summary_too_long,
}
use automation_portfolio.Enums.{ErrorCode, error_code_value, error_codes}

unfoldable pub ensure_utc_datetime : Datetime → Result (Unit {0})
ensure_utc_datetime value = raise_if (not (is_aware value)) (value_error datetime_timezone_required)

unfoldable pub ensure_sha256 : Text → Result (Unit {0})
ensure_sha256 value =
    raise_if
      (not (length value == 64)
        || any (λ character. not (contains character (codes "0123456789abcdef"))) value)
      (value_error sha256_required)

unfoldable pub normalize_bounded_string : Text → ℕ → ℕ → Result Text
unfolding strip
normalize_bounded_string value minimum maximum = do
  let normalized = strip value
  raise_if (is_nil normalized) (value_error bounded_string_required)
  raise_if (ltb (length normalized) minimum) (value_error bounded_string_too_short)
  raise_if (ltb maximum (length normalized)) (value_error bounded_string_too_long)
  ok normalized

unfoldable pub ensure_non_negative_int : ℤ → Result ℤ
ensure_non_negative_int value =
    if ltb_ℤ value (pos 0) then raise (value_error non_negative_integer_required) else ok value

unfoldable pub ensure_http_status : ℤ → Result ℤ
ensure_http_status value =
    if leb_ℤ (pos 100) value && leb_ℤ value (pos 599)
    then ok value
    else raise (value_error http_status_out_of_range)

-- What `normalize_error_code` takes: a member, or a string from outside.
pub data CodeInput : Type 0 where
  member : ErrorCode → CodeInput
  raw : Text → CodeInput

-- `ErrorCode(text)`: the member with that value.
find_code : Text → List ErrorCode → Result ErrorCode
unfolding text_eq error_code_value
find_code text [] = raise (value_error error_code_unsupported)
find_code text (c ∷ cs) =
    if text_eq text (codes (error_code_value c)) then ok c else find_code text cs

raw_value : CodeInput → Text
unfolding error_code_value strip
raw_value (member c) = codes (error_code_value c)
raw_value (raw text) = strip text

unfoldable pub normalize_error_code : CodeInput → Result ErrorCode
unfolding find_code raw_value
normalize_error_code value = do
  let text = raw_value value
  raise_if (is_nil text) (value_error error_code_required)
  raise_if (ltb 64 (length text)) (value_error error_code_too_long)
  find_code text error_codes

unfoldable pub normalize_error_summary : Option Text → Result (Option Text)
unfolding strip
normalize_error_summary none = ok none
normalize_error_summary (some value) = do
  let normalized = strip value
  if is_nil normalized
      then ok none
      else (if ltb 500 (length normalized)
          then raise (value_error error_summary_too_long)
          else ok (some normalized))
