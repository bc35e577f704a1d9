-- ===== src/Digest/Invariant.antt =====
-- What a constructed `Digest` satisfies, and that construction checks exactly that.
use mathlib.Core.Path.{subst}
use automation_portfolio.Prelude.{
  ◌≤◌, ◌≡◌, refl, ◌≢◌, not, Option, none, some, arith, false, true, OnSome, is_nil, inl, inr,
}
use automation_portfolio.Prelude.Text.{Text, codes, strip, text_eq}
use automation_portfolio.Prelude.Text.Laws.{strip-strip, text_eq→eq, text_eq_refl}
use automation_portfolio.Prelude.Int.{pos, ◌≤ℤ◌}
use automation_portfolio.Prelude.Time.{Datetime, is_aware, instant}
use automation_portfolio.Prelude.Result.{
  ok, raise-ne-ok, ok-injective, >>=-eq-ok, Result-cases, raise_if,
}
use automation_portfolio.Messages.{value_error, digest_text_required, digest_model_invalid}
use automation_portfolio.Enums.{DigestStatus, ErrorCode}
use automation_portfolio.Validators.{
  ensure_utc_datetime, normalize_bounded_string, normalize_error_summary,
}
use automation_portfolio.Validators.Laws.{
  IsBounded, normalize_bounded_string-IsBounded, IsBounded-normalize_bounded_string, IsSummary,
  normalize_error_code-member, normalize_error_summary-IsSummary, IsSummary-normalize_error_summary,
}
use automation_portfolio.Digest.Entity.{Digest, validate_items, normalize_error_fields}
use automation_portfolio.Digest.Construct.{
  post_init, normalize_response_id, check_tokens, check_sent_at,
}

abbrev pub HasErrorFields : DigestStatus → Option ErrorCode → Option Text → Type 0
HasErrorFields DigestStatus.failed code summary = (code ≢ none) × IsSummary summary
HasErrorFields _ code summary = (code ≡ none) × (summary ≡ none)

-- Only a sent digest has a time of sending, which is aware and not before its creation.
abbrev pub HasSentAt : DigestStatus → Datetime → Option Datetime → Type 0
HasSentAt DigestStatus.sent created at =
    (at ≢ none) × OnSome (λ t. (is_aware t ≡ true) × (instant created ≤ instant t)) at
HasSentAt _ created at = at ≡ none

pub record IsValidDigest (d : Digest) : Type 0 where
  pub title : IsBounded 1 200 d.title
  pub version : IsBounded 1 32 d.prompt_version
  pub text : (strip d.rendered_text ≡ d.rendered_text) × (is_nil d.rendered_text ≡ false)
  pub model : d.model ≡ codes "gpt-4o-mini"
  pub created : is_aware d.created_at ≡ true
  pub items : validate_items d.items ≡ ok tt
  pub response_id : OnSome (IsBounded 1 160) d.provider_response_id
  pub input : OnSome (λ n. pos 0 ≤ℤ n) d.input_tokens
  pub output : OnSome (λ n. pos 0 ≤ℤ n) d.output_tokens
  pub sent_at : HasSentAt d.status d.created_at d.sent_at
  pub errors : HasErrorFields d.status d.error_code d.error_summary

pub normalize_error_fields-HasErrorFields :
    (status : DigestStatus) (code : Option ErrorCode) (summary : Option Text) {c : Option ErrorCode}
    {s : Option Text}
    → normalize_error_fields status code summary ≡ ok (c, s)
    → HasErrorFields status c s
unfolding normalize_error_fields
normalize_error_fields-HasErrorFields DigestStatus.failed none summary h = absurd (raise-ne-ok h)
normalize_error_fields-HasErrorFields DigestStatus.failed (some code) summary h =
    elim (Result-cases (normalize_error_summary summary)) [
      | inl (s', e) ↦
          ground (
            arith,
            e,
            normalize_error_code-member code,
            normalize_error_summary-IsSummary summary e,
          )
      | inr (_, e) ↦ ground (arith, e, normalize_error_code-member code)
    ]
normalize_error_fields-HasErrorFields _ code summary h = ground arith

pub HasErrorFields-normalize_error_fields :
    (status : DigestStatus) (code : Option ErrorCode) (summary : Option Text)
    → HasErrorFields status code summary
    → normalize_error_fields status code summary ≡ ok (code, summary)
unfolding normalize_error_fields
HasErrorFields-normalize_error_fields DigestStatus.failed none summary h = absurd (h.0 refl)
HasErrorFields-normalize_error_fields DigestStatus.failed (some code) summary h =
    rw (normalize_error_code-member code, IsSummary-normalize_error_summary summary h.1)
HasErrorFields-normalize_error_fields _ code summary h = ground arith

response_id_of :
    (v : Option Text) {t : Option Text}
    → normalize_response_id v ≡ ok t
    → OnSome (IsBounded 1 160) t
unfolding normalize_response_id
response_id_of none {t = none} h = tt
response_id_of none {t = some t} h = ground arith
response_id_of (some v) {t = t} h =
    let (w, e, h₁) = >>=-eq-ok (normalize_bounded_string v 1 160) _ h in
    subst (OnSome (IsBounded 1 160)) (ok-injective h₁)
      (normalize_bounded_string-IsBounded v 1 160 e)

response_id-ok : (v : Option Text) → OnSome (IsBounded 1 160) v → normalize_response_id v ≡ ok v
unfolding normalize_response_id
response_id-ok none h = refl
response_id-ok (some v) h = rw (IsBounded-normalize_bounded_string 1 160 v h)

tokens_of :
    (d : Digest)
    → check_tokens d ≡ ok tt
    → OnSome (λ n. pos 0 ≤ℤ n) d.input_tokens × OnSome (λ n. pos 0 ≤ℤ n) d.output_tokens
unfolding check_tokens
tokens_of d h = ground arith

tokens-ok :
    (d : Digest)
    → OnSome (λ n. pos 0 ≤ℤ n) d.input_tokens
    → OnSome (λ n. pos 0 ≤ℤ n) d.output_tokens
    → check_tokens d ≡ ok tt
unfolding check_tokens
tokens-ok d h k = ground arith

sent_at_of :
    (status : DigestStatus) (created : Datetime) (at : Option Datetime)
    → check_sent_at status created at ≡ ok tt
    → HasSentAt status created at
unfolding check_sent_at
sent_at_of DigestStatus.sent created at h = ground arith
sent_at_of _ created at h = ground arith

sent_at-ok :
    (status : DigestStatus) (created : Datetime) (at : Option Datetime)
    → HasSentAt status created at
    → check_sent_at status created at ≡ ok tt
unfolding check_sent_at
sent_at-ok DigestStatus.sent created at h = ground arith
sent_at-ok _ created at h = ground arith

-- A digest that is constructed without an error is valid.
pub post_init-IsValidDigest : (d : Digest) {t : Digest} → post_init d ≡ ok t → IsValidDigest t
unfolding post_init
post_init-IsValidDigest d h =
    let (title, e₁, h₁) = >>=-eq-ok (normalize_bounded_string d.title 1 200) _ h in
    let (version, e₂, h₂) = >>=-eq-ok (normalize_bounded_string d.prompt_version 1 32) _ h₁ in
    let (_, e₃, h₃) =
      >>=-eq-ok (raise_if (is_nil (strip d.rendered_text)) (value_error digest_text_required)) _
        h₂ in
    let (_, e₄, h₄) =
      >>=-eq-ok
        (raise_if (not (text_eq (strip d.model) (codes "gpt-4o-mini")))
          (value_error digest_model_invalid))
        _ h₃ in
    let (_, e₅, h₅) = >>=-eq-ok (ensure_utc_datetime d.created_at) _ h₄ in
    let (_, e₆, h₆) = >>=-eq-ok (validate_items d.items) _ h₅ in
    let (response_id, e₇, h₇) = >>=-eq-ok (normalize_response_id d.provider_response_id) _ h₆ in
    let (_, e₈, h₈) = >>=-eq-ok (check_tokens d) _ h₇ in
    let (_, e₉, h₉) = >>=-eq-ok (check_sent_at d.status d.created_at d.sent_at) _ h₈ in
    let (fields, e, done) =
      >>=-eq-ok (normalize_error_fields d.status d.error_code d.error_summary) _ h₉ in
    subst IsValidDigest (ok-injective done) (record {
      title = normalize_bounded_string-IsBounded d.title 1 200 e₁;
      version = normalize_bounded_string-IsBounded d.prompt_version 1 32 e₂;
      text = (strip-strip d.rendered_text, ground (arith, e₃));
      model = text_eq→eq (strip d.model) (codes "gpt-4o-mini") (ground (arith, e₄));
      created = unfold ensure_utc_datetime in ground (arith, e₅);
      items = e₆;
      response_id = response_id_of d.provider_response_id e₇;
      input = (tokens_of d e₈).0;
      output = (tokens_of d e₈).1;
      sent_at = sent_at_of d.status d.created_at d.sent_at e₉;
      errors = normalize_error_fields-HasErrorFields d.status d.error_code d.error_summary e;
    })

model-ok : (m : Text) → m ≡ codes "gpt-4o-mini" → strip m ≡ m
unfolding strip
model-ok m h = rw h

-- A valid digest passes the checks of its constructor and comes back as it is.
pub IsValidDigest-post_init : (d : Digest) → IsValidDigest d → post_init d ≡ ok d
unfolding post_init ensure_utc_datetime
IsValidDigest-post_init d v =
    let named : text_eq d.model (codes "gpt-4o-mini") ≡ true =
      rw v.model (text_eq_refl (codes "gpt-4o-mini")) in
    rw (
      IsBounded-normalize_bounded_string 1 200 d.title v.title,
      IsBounded-normalize_bounded_string 1 32 d.prompt_version v.version,
      v.text.0,
      v.text.1,
      model-ok d.model v.model,
      named,
      v.created,
      v.items,
      response_id-ok d.provider_response_id v.response_id,
      tokens-ok d v.input v.output,
      sent_at-ok d.status d.created_at d.sent_at v.sent_at,
      HasErrorFields-normalize_error_fields d.status d.error_code d.error_summary v.errors,
    )
