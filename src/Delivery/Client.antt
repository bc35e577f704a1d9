-- ===== src/Delivery/Client.antt =====
-- What the service calls: the Telegram client (the protocol of app/application/ports.py), the clock,
-- `uuid4` and `asyncio.sleep`. They are parameters, on a world of their own.
use automation_portfolio.Prelude.{ℕ, Bool, true, false, Option}
use automation_portfolio.Prelude.Text.{Text}
use automation_portfolio.Prelude.Int.{ℤ}
use automation_portfolio.Enums.{ErrorCode}

pub record TelegramError : Type 0 where
  pub error_code : ErrorCode
  pub summary : Text
  pub http_status : Option ℤ
  pub retry_after_seconds : Option ℤ

abbrev pub is_retryable : ErrorCode → Bool
is_retryable ErrorCode.telegram_timeout = true
is_retryable ErrorCode.telegram_rate_limited = true
is_retryable _ = false

-- `accepted` is TelegramSendResult, and `refused` is a raised TelegramError.
pub data SendResult : Type 0 where
  accepted : ℤ → ℤ → SendResult
  refused : TelegramError → SendResult

pub record Outside : Type 1 where
  pub World : Type 0
  pub send_message : Text → Text → World → SendResult × World
  pub utc_now : World → ℕ × World
  pub uuid4 : World → ℕ × World
  pub sleep : ℕ → World → World

-- The settings that the service reads.
pub record Settings : Type 0 where
  pub is_live : Bool
  pub telegram_chat_id : Option Text
  pub telegram_max_retries : ℕ
