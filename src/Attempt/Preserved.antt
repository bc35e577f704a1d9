-- ===== src/Attempt/Preserved.antt =====
-- The completions of a `DeliveryAttempt`.
use automation_portfolio.Prelude.{
  ℕ, ◌≤◌, ◌≡◌, ◌≢◌, refl, sym, ap, ◌∙◌, ◌⊎◌, inl, inr, Bool-cases, Option, none, some, arith, true,
}
use automation_portfolio.Prelude.Text.{Text}
use automation_portfolio.Prelude.Int.{ℤ, pos, ◌≤ℤ◌}
use automation_portfolio.Prelude.Time.{Datetime, is_aware, instant, time_or_now}
use automation_portfolio.Prelude.Result.{ok, Result-cases}
use automation_portfolio.Enums.{DeliveryStatus, ErrorCode}
use automation_portfolio.Attempt.Entity.{Attempt, is_pending}
use automation_portfolio.Attempt.Construct.{post_init}
use automation_portfolio.Attempt.Methods.{mark_sent, mark_failed}
use automation_portfolio.Attempt.Invariant.{
  IsValidAttempt, post_init-IsValidAttempt, IsValidAttempt-post_init,
}

-- The attempt that `mark_sent` builds by `replace`.
abbrev pub sent_of : Attempt → ℤ → Datetime → ℤ → Attempt
sent_of a message_id finished http_status = record a {
  status = DeliveryStatus.sent;
  telegram_message_id = some message_id;
  http_status = some http_status;
  retry_after_seconds = none;
  error_code = none;
  error_summary = none;
  finished_at = some finished;
}

-- After any call of mark_sent on a valid delivery attempt, whether it raises or not, the attempt
-- is valid.
mark_sent-IsValidAttempt :
    (m : ℤ) (at : Option Datetime) (http : ℤ) (now : ℕ) (a : Attempt)
    → IsValidAttempt a
    → IsValidAttempt (mark_sent m at http now a).1
unfolding mark_sent
mark_sent-IsValidAttempt m at http now a v =
    elim (Result-cases (post_init (sent_of a m (time_or_now at now) http))) [
      | inr (_, e) ↦ ground (arith, e)
      | inl (b, e) ↦
          let (c, s, same, valid) =
            post_init-IsValidAttempt (sent_of a m (time_or_now at now) http) e in
          ground (arith, e, same, valid)
    ]

-- The attempt that `mark_failed` builds by `replace`.
abbrev pub failed_of : Attempt → ErrorCode → Option Text → Option ℤ → Option ℤ → Datetime → Attempt
failed_of a code summary http_status retry_after finished = record a {
  status = DeliveryStatus.failed;
  telegram_message_id = none;
  http_status = http_status;
  retry_after_seconds = retry_after;
  error_code = some code;
  error_summary = summary;
  finished_at = some finished;
}

-- After any call of mark_failed on a valid delivery attempt, whether it raises or not, the attempt
-- is valid.
mark_failed-IsValidAttempt :
    (code : ErrorCode) (summary : Option Text) (http retry : Option ℤ) (at : Option Datetime)
    (now : ℕ) (a : Attempt)
    → IsValidAttempt a
    → IsValidAttempt (mark_failed code summary http retry at now a).1
unfolding mark_failed
mark_failed-IsValidAttempt code summary http retry at now a v =
    let built = failed_of a code summary http retry (time_or_now at now) in
    elim (Result-cases (post_init built)) [
      | inr (_, e) ↦ ground (arith, e)
      | inl (b, e) ↦
          let (c, s, same, valid) = post_init-IsValidAttempt built e in
          ground (arith, e, same, valid)
    ]

-- After any call of mark_sent and after any call of mark_failed on a valid delivery attempt,
-- whether they raise or not, the attempt is valid.
pub completion-IsValidAttempt :
    (a : Attempt)
    → IsValidAttempt a
    → ((m : ℤ) (at : Option Datetime) (http : ℤ) (now : ℕ)
        → IsValidAttempt (mark_sent m at http now a).1)
      × ((code : ErrorCode) (summary : Option Text) (http retry : Option ℤ) (at : Option Datetime)
            (now : ℕ)
          → IsValidAttempt (mark_failed code summary http retry at now a).1)
completion-IsValidAttempt a v = (
  λ m at http now. mark_sent-IsValidAttempt m at http now a v,
  λ code summary http retry at now. mark_failed-IsValidAttempt code summary http retry at now a v,
)

-- An attempt that is not pending stays as it is.
mark_sent_completed :
    (m : ℤ) (at : Option Datetime) (http : ℤ) (now : ℕ) (a : Attempt)
    → a.status ≢ DeliveryStatus.pending
    → (mark_sent m at http now a).1 ≡ a
unfolding mark_sent
mark_sent_completed m at http now a h = ground arith

mark_failed_completed :
    (code : ErrorCode) (summary : Option Text) (http retry : Option ℤ) (at : Option Datetime)
    (now : ℕ) (a : Attempt)
    → a.status ≢ DeliveryStatus.pending
    → (mark_failed code summary http retry at now a).1 ≡ a
unfolding mark_failed
mark_failed_completed code summary http retry at now a h = ground arith

-- The attempts that any sequence of calls of `mark_sent` and `mark_failed` makes of one.
pub data Calls (a : Attempt) : Attempt → Type 0 where
  here : Calls a a
  call_sent :
      {b : Attempt} (m : ℤ) (at : Option Datetime) (http : ℤ) (now : ℕ)
      → Calls a b
      → Calls a (mark_sent m at http now b).1
  call_failed :
      {b : Attempt} (code : ErrorCode) (summary : Option Text) (http retry : Option ℤ)
      (at : Option Datetime) (now : ℕ)
      → Calls a b
      → Calls a (mark_failed code summary http retry at now b).1

-- One call leaves the attempt as it is or completes it.
mark_sent-completes :
    (m : ℤ) (at : Option Datetime) (http : ℤ) (now : ℕ) (a : Attempt)
    → ((mark_sent m at http now a).1 ≡ a)
      ⊎ ((mark_sent m at http now a).1.status ≡ DeliveryStatus.sent)
unfolding mark_sent
mark_sent-completes m at http now a =
    let built = sent_of a m (time_or_now at now) http in
    elim (Result-cases (post_init built)) [
      | inr (_, e) ↦ inl (ground (arith, e))
      | inl (b, e) ↦
          let (c, s, same, valid) = post_init-IsValidAttempt built e in
          elim (Bool-cases (is_pending a.status)) [
            | inl pending ↦ inr (ground (arith, e, pending, same))
            | inr completed ↦ inl (ground (arith, completed))
          ]
    ]

mark_failed-completes :
    (code : ErrorCode) (summary : Option Text) (http retry : Option ℤ) (at : Option Datetime)
    (now : ℕ) (a : Attempt)
    → ((mark_failed code summary http retry at now a).1 ≡ a)
      ⊎ ((mark_failed code summary http retry at now a).1.status ≡ DeliveryStatus.failed)
unfolding mark_failed
mark_failed-completes code summary http retry at now a =
    let built = failed_of a code summary http retry (time_or_now at now) in
    elim (Result-cases (post_init built)) [
      | inr (_, e) ↦ inl (ground (arith, e))
      | inl (b, e) ↦
          let (c, s, same, valid) = post_init-IsValidAttempt built e in
          elim (Bool-cases (is_pending a.status)) [
            | inl pending ↦ inr (ground (arith, e, pending, same))
            | inr completed ↦ inl (ground (arith, completed))
          ]
    ]

Calls-completes : {a b : Attempt} → Calls a b → (b ≡ a) ⊎ (b.status ≢ DeliveryStatus.pending)
Calls-completes here = inl refl
Calls-completes (call_sent {b = b} m at http now c) = elim (mark_sent-completes m at http now b) [
  | inr done ↦ inr (λ pending. ground (arith, done, pending))
  | inl same ↦ elim (Calls-completes c) [
    | inl start ↦ inl (same ∙ start)
    | inr done ↦ inr (λ pending. done (ap (λ x. x.status) (sym same) ∙ pending))
  ]
]
Calls-completes (call_failed {b = b} code summary http retry at now c) =
    elim (mark_failed-completes code summary http retry at now b) [
      | inr done ↦ inr (λ pending. ground (arith, done, pending))
      | inl same ↦ elim (Calls-completes c) [
        | inl start ↦ inl (same ∙ start)
        | inr done ↦ inr (λ pending. done (ap (λ x. x.status) (sym same) ∙ pending))
      ]
    ]

Calls-IsValidAttempt : {a b : Attempt} → IsValidAttempt a → Calls a b → IsValidAttempt b
Calls-IsValidAttempt v here = v
Calls-IsValidAttempt v (call_sent {b = b} m at http now c) =
    mark_sent-IsValidAttempt m at http now b (Calls-IsValidAttempt v c)
Calls-IsValidAttempt v (call_failed {b = b} code summary http retry at now c) =
    mark_failed-IsValidAttempt code summary http retry at now b (Calls-IsValidAttempt v c)

Calls-eq_of_completed : {a b : Attempt} → a.status ≢ DeliveryStatus.pending → Calls a b → b ≡ a
Calls-eq_of_completed h here = refl
Calls-eq_of_completed h (call_sent {b = b} m at http now c) =
    let same = Calls-eq_of_completed h c in
    let done : b.status ≢ DeliveryStatus.pending =
      λ pending. h (ap (λ x. x.status) (sym same) ∙ pending) in
    mark_sent_completed m at http now b done ∙ same
Calls-eq_of_completed h (call_failed {b = b} code summary http retry at now c) =
    let same = Calls-eq_of_completed h c in
    let done : b.status ≢ DeliveryStatus.pending =
      λ pending. h (ap (λ x. x.status) (sym same) ∙ pending) in
    mark_failed_completed code summary http retry at now b done ∙ same

status_or_not :
    (status : DeliveryStatus)
    → (status ≡ DeliveryStatus.pending) ⊎ (status ≢ DeliveryStatus.pending)
status_or_not DeliveryStatus.pending = inl refl
status_or_not _ = inr (λ h. cc)

-- A valid delivery attempt is completed at most once: after any sequence of calls of mark_sent and
-- mark_failed, with any arguments and whether they raise or not, it is as it was at the beginning
-- or no longer pending; and after any further such sequence it is valid, and the same as after the
-- first one unless it was still pending there.
pub Calls-completed_once :
    {a b c : Attempt}
    → IsValidAttempt a
    → Calls a b
    → Calls b c
    → IsValidAttempt c
      × ((b ≡ a) ⊎ (b.status ≢ DeliveryStatus.pending))
      × ((b.status ≡ DeliveryStatus.pending) ⊎ (c ≡ b))
Calls-completed_once {b = b} v first further = (
  Calls-IsValidAttempt (Calls-IsValidAttempt v first) further,
  Calls-completes first,
  elim (status_or_not b.status) [
    | inl pending ↦ inl pending
    | inr done ↦ inr (Calls-eq_of_completed done further)
  ],
)

-- A valid pending attempt is completed by a positive message id, an HTTP status from 200 to 299
-- and an aware time that is not before its start; it is then the attempt with just these results
-- and no error.
pub mark_sent-ok :
    (m : ℤ) (at : Option Datetime) (http : ℤ) (now : ℕ) (a : Attempt)
    → IsValidAttempt a
    → a.status ≡ DeliveryStatus.pending
    → pos 1 ≤ℤ m
    → pos 200 ≤ℤ http
    → http ≤ℤ pos 299
    → is_aware (time_or_now at now) ≡ true
    → instant a.started_at ≤ instant (time_or_now at now)
    → mark_sent m at http now a ≡ (ok tt, sent_of a m (time_or_now at now) http)
unfolding mark_sent
mark_sent-ok m at http now a v pending hm lo hi zone later =
    ground (arith, IsValidAttempt-post_init (sent_of a m (time_or_now at now) http) built)
  where
    built : IsValidAttempt (sent_of a m (time_or_now at now) http)
    built = record {
      part = v.part;
      attempt = v.attempt;
      start = v.start;
      times = (zone, later);
      http = ground arith;
      retry = tt;
      message = hm;
      result = ground arith;
    }
