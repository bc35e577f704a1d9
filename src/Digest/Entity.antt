-- ===== src/Digest/Entity.antt =====
-- The fields of `Digest`, and the checks that its constructor and `transition_to` share.
use automation_portfolio.Prelude.{
  ℕ, suc, zero, ◌+◌, Bool, true, false, not, ◌&&◌, ◌||◌, Option, none, some, List, [], ◌∷◌, map,
  leb, ◌==◌, if◌then◌else◌, length, is_some,
}
use automation_portfolio.Prelude.Text.{Text}
use automation_portfolio.Prelude.Int.{ℤ, pos, leb_ℤ, eqb_ℤ}
use automation_portfolio.Prelude.Time.{Datetime, before}
use automation_portfolio.Prelude.Sort.{sort, has_duplicates}
use automation_portfolio.Prelude.Result.{Result, ok, raise, ◌>>=◌, ◌>>◌, raise_if}
use automation_portfolio.Messages.{
  value_error, digest_items_invalid, digest_positions_duplicate, digest_news_duplicate,
  digest_positions_invalid, digest_time_before_creation, digest_error_forbidden,
  digest_error_required,
}
use automation_portfolio.Enums.{DigestStatus, ErrorCode}
use automation_portfolio.Validators.{
  ensure_utc_datetime, normalize_error_code, member, normalize_error_summary,
}
use automation_portfolio.Digest.Item.{DigestItem}

-- `digest_date` is a number of days; ids are numbers.
pub record Digest : Type 0 where
  pub run_id : ℕ
  pub digest_date : ℕ
  pub title : Text
  pub rendered_text : Text
  pub prompt_version : Text
  pub items : List DigestItem
  pub model : Text
  pub id : ℕ
  pub status : DigestStatus
  pub provider_response_id : Option Text
  pub input_tokens : Option ℤ
  pub output_tokens : Option ℤ
  pub created_at : Datetime
  pub sent_at : Option Datetime
  pub error_code : Option ErrorCode
  pub error_summary : Option Text

-- `list(range(start, start + n))`
unfoldable pub range_from : ℕ → ℕ → List ℤ
range_from zero start = []
range_from (suc n) start = pos start ∷ range_from n (start + 1)

-- `xs == ys` for lists of integers
unfoldable pub ints_eq : List ℤ → List ℤ → Bool
ints_eq [] [] = true
ints_eq [] (_ ∷ _) = false
ints_eq (_ ∷ _) [] = false
ints_eq (x ∷ xs) (y ∷ ys) = eqb_ℤ x y && ints_eq xs ys

abbrev pub positions : List DigestItem → List ℤ
positions = map (λ i. i.position)

abbrev pub news_item_ids : List DigestItem → List ℕ
news_item_ids = map (λ i. i.news_item_id)

-- `_validate_items`
unfoldable pub validate_items : List DigestItem → Result (Unit {0})
unfolding has_duplicates sort range_from ints_eq
validate_items items = do
  let n = length items
  raise_if (not (leb 1 n && leb n 7)) (value_error digest_items_invalid)
  raise_if (has_duplicates eqb_ℤ (positions items)) (value_error digest_positions_duplicate)
  raise_if (has_duplicates ◌==◌ (news_item_ids items)) (value_error digest_news_duplicate)
  raise_if (not (ints_eq (sort leb_ℤ (positions items)) (range_from n 1)))
      (value_error digest_positions_invalid)

-- `_validate_timestamp`
unfoldable pub validate_timestamp : Datetime → Datetime → Result (Unit {0})
unfolding ensure_utc_datetime
validate_timestamp created_at value = do
  ensure_utc_datetime value
  raise_if (before value created_at) (value_error digest_time_before_creation)

no_error_fields : Option ErrorCode → Option Text → Result (Option ErrorCode × Option Text)
no_error_fields code summary =
    if is_some code || is_some summary
    then raise (value_error digest_error_forbidden)
    else ok (none, none)

failed_error_fields : Option ErrorCode → Option Text → Result (Option ErrorCode × Option Text)
unfolding normalize_error_summary
failed_error_fields none summary = raise (value_error digest_error_required)
failed_error_fields (some code) summary = do
  c ← normalize_error_code (member code)
  s ← normalize_error_summary summary
  ok (some c, s)

-- `_normalize_error_fields`
unfoldable pub normalize_error_fields :
    DigestStatus → Option ErrorCode → Option Text → Result (Option ErrorCode × Option Text)
unfolding no_error_fields failed_error_fields
normalize_error_fields DigestStatus.failed code summary = failed_error_fields code summary
normalize_error_fields _ code summary = no_error_fields code summary
