-- ===== src/Enums.antt =====
-- The enumerations of app/domain/enums.py, with the strings that they stand for.
use Prim.Native.String.{String}
use mathlib.Core.List.{List, [], ◌∷◌}

pub data TriggerType : Type 0 where
  scheduled manual dry_run : TriggerType

pub data PipelineRunStatus : Type 0 where
  running success partial_success no_content failed skipped_locked : PipelineRunStatus

pub data FeedFetchStatus : Type 0 where
  not_modified success failed : FeedFetchStatus

pub data NewsItemStatus : Type 0 where
  collected candidate used ignored : NewsItemStatus

pub data DigestStatus : Type 0 where
  generated sending sent failed : DigestStatus

pub data DigestTag : Type 0 where
  ai_models automation developer_tools product security research business other : DigestTag

pub data DeliveryStatus : Type 0 where
  pending sent failed : DeliveryStatus

pub data IgnoreReason : Type 0 where
  too_old missing_title missing_content invalid_url irrelevant duplicate_content : IgnoreReason

pub data ErrorCode : Type 0 where
  feed_timeout feed_connection_failed unsafe_feed_url feed_response_too_large : ErrorCode
  feed_parse_failed openai_timeout openai_rate_limited invalid_structured_output : ErrorCode
  output_post_validation_failed telegram_timeout telegram_rate_limited : ErrorCode
  telegram_permanent_failure unexpected_pipeline_failure : ErrorCode

unfoldable pub run_status_value : PipelineRunStatus → String
run_status_value PipelineRunStatus.running = "running"
run_status_value PipelineRunStatus.success = "success"
run_status_value PipelineRunStatus.partial_success = "partial_success"
run_status_value PipelineRunStatus.no_content = "no_content"
run_status_value PipelineRunStatus.failed = "failed"
run_status_value PipelineRunStatus.skipped_locked = "skipped_locked"

unfoldable pub news_status_value : NewsItemStatus → String
news_status_value NewsItemStatus.collected = "collected"
news_status_value NewsItemStatus.candidate = "candidate"
news_status_value NewsItemStatus.used = "used"
news_status_value NewsItemStatus.ignored = "ignored"

unfoldable pub digest_status_value : DigestStatus → String
digest_status_value DigestStatus.generated = "generated"
digest_status_value DigestStatus.sending = "sending"
digest_status_value DigestStatus.sent = "sent"
digest_status_value DigestStatus.failed = "failed"

unfoldable pub tag_value : DigestTag → String
tag_value DigestTag.ai_models = "AI_MODELS"
tag_value DigestTag.automation = "AUTOMATION"
tag_value DigestTag.developer_tools = "DEVELOPER_TOOLS"
tag_value DigestTag.product = "PRODUCT"
tag_value DigestTag.security = "SECURITY"
tag_value DigestTag.research = "RESEARCH"
tag_value DigestTag.business = "BUSINESS"
tag_value DigestTag.other = "OTHER"

unfoldable pub error_code_value : ErrorCode → String
error_code_value ErrorCode.feed_timeout = "FEED_TIMEOUT"
error_code_value ErrorCode.feed_connection_failed = "FEED_CONNECTION_FAILED"
error_code_value ErrorCode.unsafe_feed_url = "UNSAFE_FEED_URL"
error_code_value ErrorCode.feed_response_too_large = "FEED_RESPONSE_TOO_LARGE"
error_code_value ErrorCode.feed_parse_failed = "FEED_PARSE_FAILED"
error_code_value ErrorCode.openai_timeout = "OPENAI_TIMEOUT"
error_code_value ErrorCode.openai_rate_limited = "OPENAI_RATE_LIMITED"
error_code_value ErrorCode.invalid_structured_output = "INVALID_STRUCTURED_OUTPUT"
error_code_value ErrorCode.output_post_validation_failed = "OUTPUT_POST_VALIDATION_FAILED"
error_code_value ErrorCode.telegram_timeout = "TELEGRAM_TIMEOUT"
error_code_value ErrorCode.telegram_rate_limited = "TELEGRAM_RATE_LIMITED"
error_code_value ErrorCode.telegram_permanent_failure = "TELEGRAM_PERMANENT_FAILURE"
error_code_value ErrorCode.unexpected_pipeline_failure = "UNEXPECTED_PIPELINE_FAILURE"

-- The members in the order of the class, which is what `DigestTag(text)` searches.
abbrev pub digest_tags : List DigestTag
digest_tags =
    DigestTag.ai_models ∷ DigestTag.automation ∷ DigestTag.developer_tools ∷ DigestTag.product
    ∷ DigestTag.security ∷ DigestTag.research ∷ DigestTag.business ∷ DigestTag.other ∷ []

abbrev pub error_codes : List ErrorCode
error_codes =
    ErrorCode.feed_timeout ∷ ErrorCode.feed_connection_failed ∷ ErrorCode.unsafe_feed_url
    ∷ ErrorCode.feed_response_too_large ∷ ErrorCode.feed_parse_failed ∷ ErrorCode.openai_timeout
    ∷ ErrorCode.openai_rate_limited ∷ ErrorCode.invalid_structured_output
    ∷ ErrorCode.output_post_validation_failed ∷ ErrorCode.telegram_timeout
    ∷ ErrorCode.telegram_rate_limited ∷ ErrorCode.telegram_permanent_failure
    ∷ ErrorCode.unexpected_pipeline_failure ∷ []
