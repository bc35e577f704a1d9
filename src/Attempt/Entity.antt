-- ===== src/Attempt/Entity.antt =====
-- The fields of `DeliveryAttempt`.
use automation_portfolio.Prelude.{ℕ, Bool, true, false, Option}
use automation_portfolio.Prelude.Text.{Text}
use automation_portfolio.Prelude.Int.{ℤ}
use automation_portfolio.Prelude.Time.{Datetime}
use automation_portfolio.Enums.{DeliveryStatus, ErrorCode}

pub record Attempt : Type 0 where
  pub digest_id : ℕ
  pub part_number : ℤ
  pub attempt_number : ℤ
  pub id : ℕ
  pub status : DeliveryStatus
  pub telegram_message_id : Option ℤ
  pub http_status : Option ℤ
  pub retry_after_seconds : Option ℤ
  pub error_code : Option ErrorCode
  pub error_summary : Option Text
  pub started_at : Datetime
  pub finished_at : Option Datetime

abbrev pub is_pending : DeliveryStatus → Bool
is_pending DeliveryStatus.pending = true
is_pending _ = false
