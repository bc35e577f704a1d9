-- ===== src/Cleanup/Laws.antt =====
-- What `cleanup_operational_records` removes, and what it leaves.
use automation_portfolio.Prelude.{
  ℕ, suc, ◌+◌, ◌*◌, ◌≤◌, ◌<◌, ◌≡◌, refl, sym, Bool, true, false, not, Option, none, some, List, [],
  ◌∷◌, inl, inr, arith, length, Bool-cases, if◌then◌else◌,
}
use mathlib.Core.Path.{subst}
use automation_portfolio.Prelude.Int.{ℤ, pos, negsuc}
use automation_portfolio.Prelude.Time.{Datetime, instant, before}
use automation_portfolio.Prelude.Result.{Result, ok, raise}
use automation_portfolio.Prelude.Action.{◌>>=◌, lift}
use automation_portfolio.Messages.{Exc}
use automation_portfolio.Fetch.{FeedFetch}
use automation_portfolio.Attempt.{Attempt}
use automation_portfolio.Store.{Store, where_rows, transaction}
use automation_portfolio.Cleanup.{
  CleanupResult, cutoff_of, is_old_fetch, is_old_attempt, delete_old, cleanup_rows,
  cleanup_operational_records,
}

-- `ys` is `xs` without those of which `Old` holds, in their order, and `n` of these there were.
pub data Purged {A : Type 0} (Old : A → Type 0) : List A → ℕ → List A → Type 0 where
  done : Purged Old [] 0 []
  gone :
      {x : A} {xs ys : List A} {n : ℕ} → Old x → Purged Old xs n ys → Purged Old (x ∷ xs) (suc n) ys
  kept :
      {x : A} {xs ys : List A} {n : ℕ}
      → (Old x → ⊥)
      → Purged Old xs n ys
      → Purged Old (x ∷ xs) n (x ∷ ys)

where_rows-Purged :
    {A : Type 0} (test : A → Bool) (Old : A → Type 0)
    → ((x : A) → test x ≡ true → Old x)
    → ((x : A) → test x ≡ false → Old x → ⊥)
    → (xs : List A)
    → Purged Old xs (length (where_rows test xs)) (where_rows (λ x. not (test x)) xs)
unfolding where_rows
where_rows-Purged test Old old young [] = done
where_rows-Purged test Old old young (x ∷ xs) = elim (Bool-cases (test x)) [
  | inl e ↦ rw e (gone (old x e) (where_rows-Purged test Old old young xs))
  | inr e ↦ rw e (kept (young x e) (where_rows-Purged test Old old young xs))
]

-- More than so many days before `now`.
abbrev pub IsOlder : ℕ → ℕ → Datetime → Type 0
IsOlder days now at = instant at + days * 86400000000 < now

abbrev pub IsOldFetch : ℕ → ℕ → FeedFetch → Type 0
IsOldFetch days now fetch = IsOlder days now fetch.finished_at

abbrev pub IsOldAttempt : ℕ → ℕ → Attempt → Type 0
IsOldAttempt days now attempt =
    (at : Datetime) × (attempt.finished_at ≡ some at) × IsOlder days now at

-- `t` is what a cleanup of rows older than so many days made of `s`.
pub record IsCleaned (days now : ℕ) (dry_run : Bool) (s : Store) (result : CleanupResult)
    (t : Store) : Type 0 where
  pub asked : result.dry_run ≡ dry_run
  pub cutoff_at : instant result.cutoff + days * 86400000000 ≡ now
  pub fetches_left : List FeedFetch
  pub fetches : Purged (IsOldFetch days now) s.fetches result.feed_fetches fetches_left
  pub attempts_left : List Attempt
  pub attempts : Purged (IsOldAttempt days now) s.attempts result.delivery_attempts attempts_left
  pub after :
      t ≡ (if dry_run then s else record s { fetches = fetches_left; attempts = attempts_left })

abbrev pub CleanupOutcome : ℤ → Bool → ℕ → Store → Result CleanupResult × Store → Type 0
CleanupOutcome older_than_days dry_run now s (ok result, t) =
    (days : ℕ) × (older_than_days ≡ pos days) × (1 ≤ days) × IsCleaned days now dry_run s result t
CleanupOutcome older_than_days dry_run now s (raise e, t) =
    (t ≡ s)
    × (¬ ((days : ℕ) × (older_than_days ≡ pos days) × (1 ≤ days) × (days * 86400000000 ≤ now)))

cutoff_of-ok :
    (now : ℕ) (older_than_days : ℤ) {cutoff : Datetime}
    → cutoff_of now older_than_days ≡ ok cutoff
    → (days : ℕ) × (older_than_days ≡ pos days)
      × (1 ≤ days)
      × (instant cutoff + days * 86400000000 ≡ now)
unfolding cutoff_of
cutoff_of-ok now (pos days) h = (days, refl, ground arith, ground arith)
cutoff_of-ok now (negsuc days) h = ground arith

cutoff_of-raise :
    (now days : ℕ) {e : Exc}
    → cutoff_of now (pos days) ≡ raise e
    → 1 ≤ days
    → days * 86400000000 ≤ now
    → ⊥
unfolding cutoff_of
cutoff_of-raise now days h k l = ground arith

module _ (days now : ℕ) (cutoff : Datetime) (at : instant cutoff + days * 86400000000 ≡ now) where
  before-IsOlder : (t : Datetime) → before t cutoff ≡ true → IsOlder days now t
  before-IsOlder t h = ground (arith, at)

  not_before-IsOlder : (t : Datetime) → before t cutoff ≡ false → IsOlder days now t → ⊥
  not_before-IsOlder t h k = ground (arith, at)

  is_old_attempt-IsOldAttempt :
      (a : Attempt) → is_old_attempt cutoff a ≡ true → IsOldAttempt days now a
  is_old_attempt-IsOldAttempt a h = go a.finished_at h
    where
      go :
          (end : Option Datetime)
          → (elim end as (λ _. Bool) [ none ↦ false | some t ↦ before t cutoff ]) ≡ true
          → (t : Datetime) × (end ≡ some t) × IsOlder days now t
      go none h = cc
      go (some t) h = (t, refl, before-IsOlder t h)

  not_old-IsOldAttempt :
      (a : Attempt) → is_old_attempt cutoff a ≡ false → IsOldAttempt days now a → ⊥
  not_old-IsOldAttempt a h (t, e, older) = not_before-IsOlder t (ground (arith, e, h)) older

  fetches-Purged :
      (s : Store)
      → Purged
          (IsOldFetch days now)
          s.fetches
          (length (where_rows (is_old_fetch cutoff) s.fetches))
          (where_rows (λ f. not (is_old_fetch cutoff f)) s.fetches)
  fetches-Purged s =
      where_rows-Purged (is_old_fetch cutoff) (IsOldFetch days now)
        (λ f. before-IsOlder f.finished_at) (λ f. not_before-IsOlder f.finished_at) s.fetches

  attempts-Purged :
      (s : Store)
      → Purged
          (IsOldAttempt days now)
          s.attempts
          (length (where_rows (is_old_attempt cutoff) s.attempts))
          (where_rows (λ a. not (is_old_attempt cutoff a)) s.attempts)
  attempts-Purged s =
      where_rows-Purged (is_old_attempt cutoff) (IsOldAttempt days now) is_old_attempt-IsOldAttempt
        not_old-IsOldAttempt s.attempts

  cleanup_rows-CleanupOutcome :
      (dry_run : Bool) (s : Store)
      → 1 ≤ days
      → CleanupOutcome (pos days) dry_run now s (transaction (cleanup_rows cutoff dry_run) s)
  unfolding cleanup_rows delete_old
  cleanup_rows-CleanupOutcome true s h = (
    days,
    refl,
    h,
    record {
      asked = refl;
      cutoff_at = at;
      fetches_left = where_rows (λ f. not (is_old_fetch cutoff f)) s.fetches;
      fetches = fetches-Purged s;
      attempts_left = where_rows (λ a. not (is_old_attempt cutoff a)) s.attempts;
      attempts = attempts-Purged s;
      after = refl;
    },
  )
  cleanup_rows-CleanupOutcome false s h = (
    days,
    refl,
    h,
    record {
      asked = refl;
      cutoff_at = at;
      fetches_left = where_rows (λ f. not (is_old_fetch cutoff f)) s.fetches;
      fetches = fetches-Purged s;
      attempts_left = where_rows (λ a. not (is_old_attempt cutoff a)) s.attempts;
      attempts = attempts-Purged s;
      after = refl;
    },
  )

after_cutoff :
    (older_than_days : ℤ) (cutoff : Result Datetime) (dry_run : Bool) (now : ℕ) (s : Store)
    → cutoff_of now older_than_days ≡ cutoff
    → CleanupOutcome older_than_days dry_run now s
        ((lift cutoff >>= λ c. transaction (cleanup_rows c dry_run)) s)
after_cutoff older_than_days (raise e) dry_run now s h = (
  refl,
  λ (days, same, positive, reached).
      cutoff_of-raise now days (subst (λ z. cutoff_of now z ≡ raise e) same h) positive reached,
)
after_cutoff older_than_days (ok cutoff) dry_run now s h =
    let (days, same, positive, at) = cutoff_of-ok now older_than_days h in
    subst (λ z. CleanupOutcome z dry_run now s (transaction (cleanup_rows cutoff dry_run) s))
      (sym same) (cleanup_rows-CleanupOutcome days now cutoff at dry_run s positive)

-- A cleanup gives a result for a positive number of days that do not reach back before the origin
-- of time, and else raises and leaves the store as it was. The result has the cutoff that lies so
-- many days back, and counts the fetches and the attempts that ended before it. A dry run changes
-- nothing; another one takes away exactly these rows, keeps all others in their order, those of
-- unfinished attempts among them, and changes nothing else.
pub cleanup_operational_records-CleanupOutcome :
    (older_than_days : ℤ) (dry_run : Bool) (now : ℕ) (s : Store)
    → CleanupOutcome older_than_days dry_run now s
        (cleanup_operational_records older_than_days dry_run now s)
unfolding cleanup_operational_records
cleanup_operational_records-CleanupOutcome older_than_days dry_run now s =
    after_cutoff older_than_days (cutoff_of now older_than_days) dry_run now s refl
