-- ===== src/Tests/Digests.antt =====
-- Digests on concrete inputs.
use mathlib.Core.List.{Perm}
use automation_portfolio.Prelude.{◌≡◌, refl, none, some, ◌≤◌, ◌∷◌, []}
use automation_portfolio.Prelude.Int.{pos}
use automation_portfolio.Prelude.Time.{aware}
use automation_portfolio.Prelude.Result.{ok}
use automation_portfolio.Enums.{DigestStatus}
use automation_portfolio.Validators.{normalize_bounded_string}
use automation_portfolio.Digest.{
  post_init, normalize_error_fields, transition_to, validate_items, range_from,
}
use automation_portfolio.Digest.Invariant.{
  IsValidDigest, post_init-IsValidDigest, IsValidDigest-post_init,
}
use automation_portfolio.Digest.Positions.{Distinct, validate_items_sound}
use automation_portfolio.Digest.Preserved.{
  transition_to-IsValidDigest, here, call, Calls-eq_of_sent,
}
use automation_portfolio.Tests.Samples.{generated}

generated-IsValidDigest : IsValidDigest generated
unfolding post_init normalize_bounded_string validate_items normalize_error_fields
generated-IsValidDigest = post_init-IsValidDigest generated refl

post_init-IsValidDigest_example : IsValidDigest generated
unfolding post_init normalize_bounded_string validate_items normalize_error_fields
post_init-IsValidDigest_example = post_init-IsValidDigest generated refl

IsValidDigest-post_init_example : post_init generated ≡ ok generated
IsValidDigest-post_init_example = IsValidDigest-post_init generated generated-IsValidDigest

transition_to-IsValidDigest_example :
    IsValidDigest (transition_to DigestStatus.sending none none none 200 generated).1
transition_to-IsValidDigest_example =
    transition_to-IsValidDigest DigestStatus.sending none none none 200 generated
      generated-IsValidDigest

Calls-eq_of_sent_example :
    (transition_to DigestStatus.sending none none none 300
      (record generated { status = DigestStatus.sent; sent_at = some (aware 200) })).1
    ≡ record generated { status = DigestStatus.sent; sent_at = some (aware 200) }
Calls-eq_of_sent_example = Calls-eq_of_sent refl (call DigestStatus.sending none none none 300 here)

validate_items_sound_example :
    (1 ≤ 2) × (2 ≤ 7) × Distinct (12 ∷ 11 ∷ []) × Perm (pos 2 ∷ pos 1 ∷ []) (range_from 2 1)
unfolding validate_items
validate_items_sound_example = validate_items_sound generated.items refl
