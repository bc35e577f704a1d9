-- ===== src/Source/Laws.antt =====
-- The failure count of a `Source`.
use automation_portfolio.Prelude.{
  ℕ, ◌+◌, ◌≡◌, refl, ap, ◌∙◌, Option, some, List, [], ◌∷◌, arith, length, All, true,
}
use automation_portfolio.Prelude.Text.{Text}
use automation_portfolio.Prelude.Int.{pos}
use automation_portfolio.Prelude.Time.{Datetime, is_aware}
use automation_portfolio.Prelude.Result.{ok}
use automation_portfolio.Source.Entity.{Source}
use automation_portfolio.Source.Methods.{record_fetch_success, record_fetch_failure}

-- The source after a failed fetch at each of the times.
unfoldable pub fail_at : List Datetime → Source → Source
unfolding record_fetch_failure
fail_at [] s = s
fail_at (t ∷ ts) s = fail_at ts (record_fetch_failure t s).1

fail_at-count :
    (ts : List Datetime) (s : Source) (n : ℕ)
    → All (λ t. is_aware t ≡ true) ts
    → s.consecutive_failures ≡ pos n
    → (fail_at ts s).consecutive_failures ≡ pos (n + length ts)
unfolding fail_at
fail_at-count [] s n h e = ground arith
fail_at-count (t ∷ ts) s n h e =
    fail_at-count ts (record_fetch_failure t s).1 (n + 1) h.1 (ground arith) ∙ ap pos (omega arith)

fail_at-keeps :
    (ts : List Datetime) (s : Source)
    → let s' = fail_at ts s in
      (s'.etag ≡ s.etag)
      × (s'.last_modified ≡ s.last_modified)
      × (s'.last_success_at ≡ s.last_success_at)
      × (s'.feed_url ≡ s.feed_url)
unfolding fail_at
fail_at-keeps [] s = (refl, refl, refl, refl)
fail_at-keeps (t ∷ ts) s = ground (arith, fail_at-keeps ts (record_fetch_failure t s).1)

record_fetch_success-ok :
    (at : Datetime) (e m : Option Text) (s : Source)
    → (record_fetch_success at e m s).0 ≡ ok tt
    → let s' = (record_fetch_success at e m s).1 in
      (s'.consecutive_failures ≡ pos 0)
      × (s'.etag ≡ e)
      × (s'.last_modified ≡ m)
      × (s'.last_success_at ≡ some at)
      × (s'.feed_url ≡ s.feed_url)
unfolding record_fetch_success
record_fetch_success-ok at e m s h = ground arith

-- After a recorded success and then failures at aware times, the failure count is the number of
-- these failures, the headers and the time of the last success are those of the success, and the
-- feed URL is unchanged.
pub fail_at-success :
    (at : Datetime) (e m : Option Text) (ts : List Datetime) (s : Source)
    → (record_fetch_success at e m s).0 ≡ ok tt
    → All (λ t. is_aware t ≡ true) ts
    → let s' = fail_at ts (record_fetch_success at e m s).1 in
      (s'.consecutive_failures ≡ pos (length ts))
      × (s'.etag ≡ e)
      × (s'.last_modified ≡ m)
      × (s'.last_success_at ≡ some at)
      × (s'.feed_url ≡ s.feed_url)
fail_at-success at e m ts s h zones =
    let after = (record_fetch_success at e m s).1 in
    ground (
      arith,
      record_fetch_success-ok at e m s h,
      fail_at-keeps ts after,
      fail_at-count ts after 0 zones (record_fetch_success-ok at e m s h).0,
    )
