-- ===== src/Digest/Methods.antt =====
-- `Digest.transition_to`.
use automation_portfolio.Prelude.{ℕ, Option, none, some}
use automation_portfolio.Prelude.Text.{Text}
use automation_portfolio.Prelude.Time.{Datetime, time_or_now}
use automation_portfolio.Prelude.Action.{Action, ◌>>=◌, ◌>>◌, lift, get, modify}
use automation_portfolio.Enums.{DigestStatus, ErrorCode}
use automation_portfolio.Machine.{ensure_digest_transition}
use automation_portfolio.Digest.Entity.{Digest, validate_timestamp, normalize_error_fields}

-- `timestamp if target_status is DigestStatus.SENT else None`
abbrev pub sent_time : DigestStatus → Datetime → Option Datetime
sent_time DigestStatus.sent t = some t
sent_time _ t = none

unfoldable pub transition_to :
    DigestStatus → Option Datetime → Option ErrorCode → Option Text → ℕ → Action Digest (Unit {0})
unfolding validate_timestamp
transition_to target occurred_at code summary now = do
  self ← get
  let time = time_or_now occurred_at now
  lift (validate_timestamp self.created_at time)
  (normalized_code, normalized_summary) ← lift (normalize_error_fields target code summary)
  lift (ensure_digest_transition self.status target)
  modify (λ d. record d {
    status = target;
    sent_at = sent_time target time;
    error_code = normalized_code;
    error_summary = normalized_summary;
  })
