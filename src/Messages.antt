-- ===== src/Messages.antt =====
-- The exceptions of the program, and the message constants of app/texts that they carry. The field
-- name or number that a template is filled with is left out: the program never reads it back.
use Prim.Native.Nat.{ℕ}
use Prim.Native.String.{String}
use mathlib.Core.List.{List}
use automation_portfolio.Enums.{ErrorCode}

pub data Message : Type 0 where
  datetime_timezone_required https_required url_hostname_required : Message
  url_credentials_forbidden url_hostname_mismatch unsafe_ip_host_forbidden : Message
  hostname_required hostname_too_long hostname_invalid url_port_invalid : Message
  sha256_required bounded_string_required bounded_string_too_short : Message
  bounded_string_too_long non_negative_integer_required : Message
  http_status_out_of_range error_code_required error_code_too_long : Message
  error_code_unsupported error_summary_too_long : Message
  source_key_invalid source_language_invalid source_priority_invalid : Message
  source_header_invalid : Message
  news_title_required news_title_too_long news_summary_required : Message
  news_ignore_reason_required news_ignore_reason_forbidden : Message
  run_not_running run_running_completion_forbidden run_completion_required : Message
  run_completion_before_start run_failed_error_required run_error_forbidden : Message
  feed_counters_inconsistent item_counters_inconsistent : Message
  selection_counters_inconsistent : Message
  item_position_invalid item_relevance_invalid digest_tag_invalid : Message
  digest_model_invalid digest_items_invalid digest_positions_duplicate : Message
  digest_news_duplicate digest_positions_invalid digest_text_required : Message
  digest_time_before_creation digest_sent_time_required : Message
  digest_sent_time_forbidden digest_error_required digest_error_forbidden : Message
  delivery_positive_integer_required delivery_completion_before_start : Message
  delivery_pending_required delivery_pending_result_forbidden : Message
  delivery_completion_required delivery_message_id_required : Message
  delivery_success_http_required delivery_sent_error_forbidden : Message
  delivery_failed_error_required delivery_failed_message_id_forbidden : Message
  fetch_completion_before_start fetch_not_modified_http_required : Message
  fetch_not_modified_entries_forbidden fetch_success_http_required : Message
  fetch_error_forbidden fetch_error_required : Message
  feed_port_forbidden feed_localhost_forbidden feed_ip_invalid feed_ip_not_public : Message
  feed_dns_resolution_failed feed_dns_result_empty cleanup_age_invalid : Message
  split_no_items split_item_too_large split_part_too_large : Message
  digest_not_found digest_generated_required digest_news_missing : Message
  digest_candidates_required news_not_found : Message
  attempt_not_found attempt_identity_mismatch attempt_terminal_update_forbidden : Message
  run_not_found run_identity_mismatch run_terminal_update_forbidden : Message
  url_canonicalize_failed url_scheme_unsupported : Message
  source_not_found source_identity_mismatch : Message
  news_duplicate_conflict news_id_conflict : Message
  telegram_digest_not_found telegram_digest_not_deliverable : Message
  telegram_split_failed telegram_chat_id_required : Message
  feed_connection_failed feed_parse_failed pipeline_unexpected : Message
  integrity_violated : Message

-- What post-validation of the model's answer finds, without the numbers that a text is filled with.
pub data Issue : Type 0 where
  item_count_issue summary_length_issue summary_markup_issue split_issue : Issue
  duplicate_candidate unknown_candidate used_candidate not_a_candidate : List ℕ → Issue

-- `telegram_refused` is a TelegramError of the client, whose summary is left out.
-- `invalid_transition` is InvalidStateTransitionError with its entity and both status values.
pub data Exc : Type 0 where
  value_error : Message → Exc
  lookup_error : Message → Exc
  split_error : Message → Exc
  telegram_error : ErrorCode → Message → Exc
  telegram_refused : ErrorCode → Exc
  integrity_error : Message → Exc
  dns_error : Message → Exc
  overflow_error : Exc
  key_error : Exc
  post_validation_error : List Issue → Exc
  llm_error : ErrorCode → List Issue → Exc
  invalid_transition : String → String → String → Exc
