-- ===== src/Digest/Preserved.antt =====
-- `Digest.transition_to`: it keeps a digest valid, follows the diagram, and changes nothing when it
-- raises.
use automation_portfolio.Prelude.{ℕ, ◌≤◌, ◌≡◌, refl, ap, ◌∙◌, ◌≢◌, inl, inr, Option, arith, true}
use automation_portfolio.Prelude.Text.{Text}
use automation_portfolio.Prelude.Time.{Datetime, is_aware, instant, time_or_now}
use automation_portfolio.Prelude.Result.{ok, raise, Result-cases}
use automation_portfolio.Messages.{Exc}
use automation_portfolio.Enums.{DigestStatus, ErrorCode}
use automation_portfolio.Machine.{ensure_digest_transition}
use automation_portfolio.Machine.Laws.{
  DigestStep, start, deliver, break_off, retry, allowed-DigestStep,
}
use automation_portfolio.Digest.Entity.{Digest, normalize_error_fields}
use automation_portfolio.Digest.Methods.{transition_to, sent_time}
use automation_portfolio.Digest.Invariant.{
  IsValidDigest, HasSentAt, normalize_error_fields-HasErrorFields,
}

pub transition_to_raised :
    (target : DigestStatus) (at : Option Datetime) (code : Option ErrorCode) (summary : Option Text)
    (now : ℕ) (d : Digest) {e : Exc}
    → (transition_to target at code summary now d).0 ≡ raise e
    → (transition_to target at code summary now d).1 ≡ d
unfolding transition_to
transition_to_raised target at code summary now d h = ground arith

-- What has held when `transition_to` goes through, and what it then sets.
pub transition_to-ok :
    (target : DigestStatus) (at : Option Datetime) (code : Option ErrorCode) (summary : Option Text)
    (now : ℕ) (d : Digest)
    → (transition_to target at code summary now d).0 ≡ ok tt
    → let time = time_or_now at now in
      (c : Option ErrorCode) × (s : Option Text) × (normalize_error_fields target code summary
        ≡ ok (c, s))
      × (ensure_digest_transition d.status target ≡ ok tt)
      × (is_aware time ≡ true)
      × (instant d.created_at ≤ instant time)
      × ((transition_to target at code summary now d).1 ≡ record d {
        status = target;
        sent_at = sent_time target time;
        error_code = c;
        error_summary = s;
      })
unfolding transition_to
transition_to-ok target at code summary now d h =
    elim (Result-cases (normalize_error_fields target code summary)) [
      | inr (_, e) ↦ ground (arith, e)
      | inl ((c, s), e) ↦
          (c, s, e, ground (arith, e), ground (arith, e), ground (arith, e), ground (arith, e))
    ]

sent_time-HasSentAt :
    (target : DigestStatus) (created time : Datetime)
    → is_aware time ≡ true
    → instant created ≤ instant time
    → HasSentAt target created (sent_time target time)
sent_time-HasSentAt DigestStatus.sent created time zone later = (λ h. cc, (zone, later))
sent_time-HasSentAt _ created time zone later = refl

-- After any call of Digest.transition_to on a valid digest, whether it raises or not, the digest
-- is valid: a sent digest has a time of sending that is not before its creation, a failed one has
-- an error code and a clean summary, and no other has either.
pub transition_to-IsValidDigest :
    (target : DigestStatus) (at : Option Datetime) (code : Option ErrorCode) (summary : Option Text)
    (now : ℕ) (d : Digest)
    → IsValidDigest d
    → IsValidDigest (transition_to target at code summary now d).1
transition_to-IsValidDigest target at code summary now d v =
    elim (Result-cases (transition_to target at code summary now d).0) [
      | inr (_, e) ↦ rw (transition_to_raised target at code summary now d e) v
      | inl (_, e) ↦
          let (c, s, e₁, e₂, zone, later, same) = transition_to-ok target at code summary now d e in
          rw same (record {
            title = v.title;
            version = v.version;
            text = v.text;
            model = v.model;
            created = v.created;
            items = v.items;
            response_id = v.response_id;
            input = v.input;
            output = v.output;
            sent_at = sent_time-HasSentAt target d.created_at (time_or_now at now) zone later;
            errors = normalize_error_fields-HasErrorFields target code summary e₁;
          })
    ]

-- The digests that any sequence of calls of `transition_to` makes of one.
pub data Calls (d : Digest) : Digest → Type 0 where
  here : Calls d d
  call :
      {e : Digest} (target : DigestStatus) (at : Option Datetime) (code : Option ErrorCode)
      (summary : Option Text) (now : ℕ)
      → Calls d e
      → Calls d (transition_to target at code summary now e).1

not-DigestStep-sent : {a b : DigestStatus} → DigestStep a b → a ≢ DigestStatus.sent
not-DigestStep-sent start h = cc
not-DigestStep-sent deliver h = cc
not-DigestStep-sent break_off h = cc
not-DigestStep-sent retry h = cc

sent_unchanged :
    (target : DigestStatus) (at : Option Datetime) (code : Option ErrorCode) (summary : Option Text)
    (now : ℕ) (d : Digest)
    → d.status ≡ DigestStatus.sent
    → (transition_to target at code summary now d).1 ≡ d
sent_unchanged target at code summary now d h =
    elim (Result-cases (transition_to target at code summary now d).0) [
      | inr (_, e) ↦ transition_to_raised target at code summary now d e
      | inl (_, e) ↦
          let (c, s, e₁, e₂, zone, later, same) = transition_to-ok target at code summary now d e in
          absurd (not-DigestStep-sent (allowed-DigestStep d.status target e₂) h)
    ]

-- Any sequence of calls of transition_to leaves a sent digest exactly as it is.
pub Calls-eq_of_sent : {d e : Digest} → d.status ≡ DigestStatus.sent → Calls d e → e ≡ d
Calls-eq_of_sent h here = refl
Calls-eq_of_sent {d} h (call {e = e} target at code summary now c) =
    let same = Calls-eq_of_sent h c in
    sent_unchanged target at code summary now e (ap (λ x. x.status) same ∙ h) ∙ same
