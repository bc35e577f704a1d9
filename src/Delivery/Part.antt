-- ===== src/Delivery/Part.antt =====
-- `_fail_digest` and `_deliver_part`.
use automation_portfolio.Prelude.{
  ℕ, zero, suc, ◌+◌, ◌^◌, min, Bool, true, false, not, ◌||◌, Option, none, some, ◌==◌,
  if◌then◌else◌, take, is_nil,
}
use automation_portfolio.Prelude.Text.{Text, codes}
use automation_portfolio.Prelude.Int.{ℤ, pos}
use automation_portfolio.Prelude.Result.{raise}
use automation_portfolio.Prelude.Action.{Action}
use automation_portfolio.Prelude.Action
use automation_portfolio.Messages.{telegram_refused, lookup_error, telegram_digest_not_found}
use automation_portfolio.Enums.{DigestStatus, ErrorCode}
use automation_portfolio.Net.{Net}
use automation_portfolio.Digest.{Digest}
use automation_portfolio.Attempt.{Attempt, new_attempt, mark_sent, mark_failed}
use automation_portfolio.Store.{
  Store, add_attempt, get_attempt, save_attempt, get_digest, transition_digest,
}
use automation_portfolio.Delivery.Client.{
  Outside, SendResult, accepted, refused, TelegramError, is_retryable,
}
use automation_portfolio.Delivery.Monad.{
  Step, ◌>>=◌, ◌>>◌, return, from, in_transaction, utc_now, uuid4, send_message, sleep,
}

-- `TELEGRAM_DELIVERY_EXHAUSTED`
abbrev pub delivery_exhausted : Text
delivery_exhausted = codes "Telegram delivery retries exhausted."

-- `text or default`
abbrev pub or_else : Text → Text → Text
or_else text default = if is_nil text then default else text

-- `retry_after_seconds`, or where it is missing or not positive the power of two of the trial, at
-- most 8.
abbrev pub delay_of : Option ℤ → ℕ → ℕ
delay_of (some (pos (suc n))) trial = suc n
delay_of _ trial = min (2 ^ trial) 8

-- What is done with the stored attempt: it is marked, and saved if that does not raise.
unfoldable pub complete_found :
    Action Store Attempt → Action Attempt (Unit {0}) → Option Attempt → Action Store Attempt
complete_found on_missing mark none = on_missing
complete_found on_missing mark (some stored) =
    let (result, marked) = mark stored in
    Action.◌>>=◌ (Action.lift result) (λ _. save_attempt marked)

-- The steps of a transaction that completes the stored attempt.
unfoldable pub complete_attempt :
    ℕ → Action Store Attempt → Action Attempt (Unit {0}) → Action Store Attempt
unfolding complete_found
complete_attempt id on_missing mark = Action.◌>>=◌ (get_attempt id) (complete_found on_missing mark)

module _ (net : Net) where
  -- The branches of `_fail_digest` on the status.
  unfoldable pub fail_as : ℕ → ErrorCode → Text → ℕ → ℕ → DigestStatus → Action Store (Unit {0})
  fail_as digest_id code summary first second DigestStatus.sending =
      Action.◌>>=◌
        (transition_digest net digest_id DigestStatus.failed none (some code)
          (some (take 500 summary)) first)
        (λ _. Action.pure tt)
  fail_as digest_id code summary first second DigestStatus.generated =
      Action.◌>>=◌ (transition_digest net digest_id DigestStatus.sending none none none first) (λ _.
        Action.◌>>=◌
          (transition_digest net digest_id DigestStatus.failed none (some code)
            (some (take 500 summary)) second)
          (λ _. Action.pure tt))
  fail_as digest_id code summary first second _ = Action.pure tt

  unfoldable pub fail_found : ℕ → ErrorCode → Text → ℕ → ℕ → Option Digest → Action Store (Unit {0})
  unfolding fail_as
  fail_found digest_id code summary first second none = Action.pure tt
  fail_found digest_id code summary first second (some digest) =
      fail_as digest_id code summary first second digest.status

  -- `_fail_digest`: the times that its transitions take are read as its transaction begins.
  unfoldable pub fail_digest : {o : Outside} → ℕ → ErrorCode → Text → Step o (Unit {0})
  unfolding fail_found
  fail_digest digest_id code summary = do
    first ← utc_now
    second ← utc_now
    in_transaction
        (Action.◌>>=◌ (get_digest net digest_id) (fail_found digest_id code summary first second))

  module _ {o : Outside} (max_retries : ℕ) (digest_id : ℕ) (part : ℕ) (text chat_id : Text) where
    -- One trial, up to the answer of the client, with the id of its attempt.
    unfoldable pub send_trial : ℕ → Step o (SendResult × ℕ)
    send_trial attempt_number = do
      attempt_id ← uuid4
      started ← utc_now
      attempt ← from (new_attempt digest_id (pos part) (pos attempt_number) attempt_id started)
      _ ← in_transaction (add_attempt attempt)
      result ← send_message chat_id text
      return (result, attempt_id)

    unfoldable pub store_sent : ℕ → ℤ → ℤ → Step o (Unit {0})
    store_sent attempt_id message_id http_status = do
      now ← utc_now
      _ ← in_transaction (
          complete_attempt attempt_id (Action.lift (raise (lookup_error telegram_digest_not_found)))
            (mark_sent message_id none http_status now))
      return tt

    unfoldable pub store_failed : ℕ → TelegramError → Step o (Unit {0})
    store_failed attempt_id error = do
      now ← utc_now
      _ ← in_transaction (
          complete_attempt attempt_id (Action.lift (raise (telegram_refused error.error_code))) (
            mark_failed error.error_code (some (take 500 error.summary)) error.http_status
              error.retry_after_seconds none now))
      return tt

    -- After a stored failure: the loop ends with a failed digest, or sleeps and goes on.
    unfoldable pub end_or_retry : TelegramError → ℕ → Step o Bool → Bool → Step o Bool
    end_or_retry error trial again true = do
      fail_digest digest_id error.error_code (or_else (take 500 error.summary) delivery_exhausted)
      return false
    end_or_retry error trial again false = do
      sleep (delay_of error.retry_after_seconds trial)
      again

    -- What follows the answer to a trial; `again` is the rest of the loop.
    unfoldable pub after_send : ℕ → ℕ → Step o Bool → SendResult → ℕ → Step o Bool
    unfolding end_or_retry
    after_send remaining trial again (accepted message_id http_status) attempt_id = do
      store_sent attempt_id message_id http_status
      return true
    after_send remaining trial again (refused error) attempt_id = do
      store_failed attempt_id error
      end_or_retry error trial again (not (is_retryable error.error_code) || (remaining == 0))

    -- `_deliver_part` from trial number `trial` on, with `remaining` of `max_retries` left.
    unfoldable pub deliver_trials : ℕ → ℕ → ℕ → Step o Bool
    unfolding fail_digest send_trial store_sent store_failed after_send
    deliver_trials zero trial prior_attempts = do
      fail_digest digest_id ErrorCode.telegram_timeout delivery_exhausted
      return false
    deliver_trials (suc remaining) trial prior_attempts = do
      (result, attempt_id) ← send_trial (prior_attempts + trial + 1)
      after_send remaining trial (deliver_trials remaining (suc trial) prior_attempts) result
          attempt_id

    -- `_deliver_part`
    unfoldable pub deliver_part : ℕ → Step o Bool
    unfolding deliver_trials
    deliver_part prior_attempts = deliver_trials max_retries 0 prior_attempts
