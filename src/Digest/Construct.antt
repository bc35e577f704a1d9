-- ===== src/Digest/Construct.antt =====
-- `Digest.__post_init__`.
use automation_portfolio.Prelude.{not, Option, none, some, is_nil, is_some}
use automation_portfolio.Prelude.Text.{Text, codes, strip, text_eq}
use automation_portfolio.Prelude.Time.{Datetime}
use automation_portfolio.Prelude.Result.{Result, ok, raise, ◌>>=◌, ◌>>◌, raise_if, on_some}
use automation_portfolio.Messages.{
  value_error, digest_text_required, digest_model_invalid, digest_sent_time_required,
  digest_sent_time_forbidden,
}
use automation_portfolio.Enums.{DigestStatus}
use automation_portfolio.Validators.{
  ensure_utc_datetime, ensure_non_negative_int, normalize_bounded_string,
}
use automation_portfolio.Digest.Entity.{
  Digest, validate_items, validate_timestamp, normalize_error_fields,
}

unfoldable pub normalize_response_id : Option Text → Result (Option Text)
normalize_response_id none = ok none
normalize_response_id (some v) = normalize_bounded_string v 1 160 >>= λ t. ok (some t)

check_sent : Datetime → Option Datetime → Result (Unit {0})
unfolding validate_timestamp
check_sent created none = raise (value_error digest_sent_time_required)
check_sent created (some t) = validate_timestamp created t

unfoldable pub check_sent_at : DigestStatus → Datetime → Option Datetime → Result (Unit {0})
unfolding check_sent
check_sent_at DigestStatus.sent created at = check_sent created at
check_sent_at _ created at = raise_if (is_some at) (value_error digest_sent_time_forbidden)

unfoldable pub check_tokens : Digest → Result (Unit {0})
unfolding ensure_non_negative_int
check_tokens d = do
  on_some (λ n. ensure_non_negative_int n >>= λ _. ok tt) d.input_tokens
  on_some (λ n. ensure_non_negative_int n >>= λ _. ok tt) d.output_tokens

unfoldable pub post_init : Digest → Result Digest
unfolding ensure_utc_datetime normalize_response_id check_sent_at check_tokens strip text_eq
post_init d = do
  title ← normalize_bounded_string d.title 1 200
  version ← normalize_bounded_string d.prompt_version 1 32
  let text = strip d.rendered_text
  let model = strip d.model
  raise_if (is_nil text) (value_error digest_text_required)
  raise_if (not (text_eq model (codes "gpt-4o-mini"))) (value_error digest_model_invalid)
  ensure_utc_datetime d.created_at
  validate_items d.items
  response_id ← normalize_response_id d.provider_response_id
  check_tokens d
  check_sent_at d.status d.created_at d.sent_at
  (code, summary) ← normalize_error_fields d.status d.error_code d.error_summary
  ok (record d {
    title = title;
    rendered_text = text;
    prompt_version = version;
    model = model;
    provider_response_id = response_id;
    error_code = code;
    error_summary = summary;
  })
