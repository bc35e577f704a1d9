-- ===== src/Tests/Attempts.antt =====
-- Delivery attempts on concrete inputs.
use automation_portfolio.Prelude.{ℕ, ◌⊎◌, ◌≡◌, refl, none, some, ◌≢◌, arith, Option}
use automation_portfolio.Prelude.Text.{Text}
use automation_portfolio.Prelude.Int.{ℤ, pos}
use automation_portfolio.Prelude.Time.{Datetime, aware}
use automation_portfolio.Prelude.Result.{ok}
use automation_portfolio.Enums.{DeliveryStatus, ErrorCode}
use automation_portfolio.Attempt.{Attempt, post_init, mark_sent, mark_failed}
use automation_portfolio.Attempt.Invariant.{
  IsValidAttempt, post_init-IsValidAttempt, IsValidAttempt-post_init,
}
use automation_portfolio.Attempt.Preserved.{
  sent_of, mark_sent-ok, completion-IsValidAttempt, Calls-completed_once, here, call_sent,
  call_failed,
}
use automation_portfolio.Tests.Samples.{pending}

pending-IsValidAttempt : IsValidAttempt pending
unfolding post_init
pending-IsValidAttempt = (post_init-IsValidAttempt pending refl).3

post_init-IsValidAttempt_example :
    (c : Option ErrorCode) × (s : Option Text) × (pending
      ≡ record pending { error_code = c; error_summary = s })
    × IsValidAttempt pending
unfolding post_init
post_init-IsValidAttempt_example = post_init-IsValidAttempt pending refl

IsValidAttempt-post_init_example : post_init pending ≡ ok pending
IsValidAttempt-post_init_example = IsValidAttempt-post_init pending pending-IsValidAttempt

completion-IsValidAttempt_example :
    ((m : ℤ) (at : Option Datetime) (http : ℤ) (now : ℕ)
      → IsValidAttempt (mark_sent m at http now pending).1)
    × ((code : ErrorCode) (summary : Option Text) (http retry : Option ℤ) (at : Option Datetime)
          (now : ℕ)
        → IsValidAttempt (mark_failed code summary http retry at now pending).1)
completion-IsValidAttempt_example = completion-IsValidAttempt pending pending-IsValidAttempt

mark_sent-ok_example :
    mark_sent (pos 77) (some (aware 60)) (pos 200) 0 pending
    ≡ (ok tt, sent_of pending (pos 77) (aware 60) (pos 200))
mark_sent-ok_example =
    mark_sent-ok (pos 77) (some (aware 60)) (pos 200) 0 pending pending-IsValidAttempt refl
      (omega arith) (omega arith) (omega arith) refl (omega arith)

abbrev sent : Attempt
sent = (mark_sent (pos 77) (some (aware 60)) (pos 200) 0 pending).1

-- Sent first, and then a trial to set it to failed.
Calls-completed_once_example :
    IsValidAttempt (mark_failed ErrorCode.telegram_timeout none none none none 90 sent).1
    × ((sent ≡ pending) ⊎ (sent.status ≢ DeliveryStatus.pending))
    × ((sent.status ≡ DeliveryStatus.pending)
        ⊎ ((mark_failed ErrorCode.telegram_timeout none none none none 90 sent).1 ≡ sent))
Calls-completed_once_example =
    Calls-completed_once pending-IsValidAttempt
      (call_sent (pos 77) (some (aware 60)) (pos 200) 0 here)
      (call_failed ErrorCode.telegram_timeout none none none none 90 here)
