-- ===== src/Store/Kept.antt =====
-- What the repositories leave of the rows of delivery attempts.
use automation_portfolio.Prelude.{
  ◌≡◌, ℕ, [], ◌∷◌, Option, some, inl, inr, Bool-cases, arith, Option-cases,
}
use automation_portfolio.Prelude.Text.{Text}
use automation_portfolio.Prelude.Time.{Datetime}
use automation_portfolio.Prelude.Result.{Result, ok, raise, Result-cases}
use automation_portfolio.Prelude.Action.{Action}
use automation_portfolio.Enums.{DigestStatus, ErrorCode}
use automation_portfolio.Net.{Net}
use automation_portfolio.Attempt.{Attempt, post_init, is_pending}
use automation_portfolio.Store.Rows.{Store, find, transaction}
use automation_portfolio.Store.Attempts.{
  add_attempt, get_attempt, list_for_digest, save_attempt, save_found, same_identity,
}
use automation_portfolio.Store.Digests.{get_digest, transition_digest, restore}
use automation_portfolio.Store.News.{get_news}
use automation_portfolio.Store.Sources.{get_source}
use automation_portfolio.Store.Grown.{Grown, Grown-refl, Grown-append, Grown-update}

-- An action on the store keeps what the rows of attempts say, whether it raises or not.
abbrev pub Keeps : {A : Type 0} → Action Store A → Type 0
Keeps m = (s : Store) → Grown s.attempts (m s).1.attempts

keeps_or_rolls_back :
    {A : Type 0} (s : Store) (r : Result A × Store)
    → Grown s.attempts r.1.attempts
    → Grown s.attempts (transaction (λ _. r) s).1.attempts
keeps_or_rolls_back s (ok a, after) h = h
keeps_or_rolls_back s (raise e, after) h = Grown-refl s.attempts

pub Keeps-transaction : {A : Type 0} (m : Action Store A) → Keeps m → Keeps (transaction m)
Keeps-transaction m h s = keeps_or_rolls_back s (m s) (h s)

pub add_attempt-Keeps : (a : Attempt) → Keeps (add_attempt a)
unfolding add_attempt
add_attempt-Keeps a s = elim (Result-cases (post_init a)) [
  | inr (_, e) ↦ ground (arith, e, Grown-refl s.attempts)
  | inl (v, e) ↦ ground (arith, e, Grown-refl s.attempts, Grown-append s.attempts (v ∷ []))
]

pub get_attempt-Keeps : (id : ℕ) → Keeps (get_attempt id)
unfolding get_attempt
get_attempt-Keeps id s = Grown-refl s.attempts

pub list_for_digest-Keeps : (id : ℕ) → Keeps (list_for_digest id)
unfolding list_for_digest
list_for_digest-Keeps id s = Grown-refl s.attempts

save_found-Grown :
    (v model : Attempt) (s : Store)
    → find (λ a. a.id) v.id s.attempts ≡ some model
    → Grown s.attempts (save_found v model s).1.attempts
unfolding save_found
save_found-Grown v model s e = elim (Bool-cases (is_pending model.status)) [
  | inl open_row ↦ ground (arith, open_row, Grown-update v v.id s.attempts model e open_row)
  | inr completed ↦ ground (arith, completed, Grown-refl s.attempts)
]

pub save_attempt-Keeps : (a : Attempt) → Keeps (save_attempt a)
unfolding save_attempt
save_attempt-Keeps a s = elim (Result-cases (post_init a)) [
  | inr (_, e) ↦ rw e (Grown-refl s.attempts)
  | inl (v, e) ↦ elim (Option-cases (find (λ a. a.id) v.id s.attempts)) [
    | inl missing ↦ rw (e, missing) (Grown-refl s.attempts)
    | inr (model, found) ↦
        rw (e, found)
          (elim (Bool-cases (same_identity model v)) [
            | inl same ↦ rw same (save_found-Grown v model s found)
            | inr other ↦ rw other (Grown-refl s.attempts)
          ])
  ]
]

module _ (net : Net) where
  pub get_digest-Keeps : (id : ℕ) → Keeps (get_digest net id)
  unfolding get_digest
  get_digest-Keeps id s = Grown-refl s.attempts

  pub get_news-Keeps : (id : ℕ) → Keeps (get_news net id)
  unfolding get_news
  get_news-Keeps id s = Grown-refl s.attempts

  pub get_source-Keeps : (id : ℕ) → Keeps (get_source net id)
  unfolding get_source
  get_source-Keeps id s = Grown-refl s.attempts

  pub transition_digest-Keeps :
      (id : ℕ) (target : DigestStatus) (at : Option Datetime) (code : Option ErrorCode)
      (summary : Option Text) (now : ℕ)
      → Keeps (transition_digest net id target at code summary now)
  unfolding transition_digest
  transition_digest-Keeps id target at code summary now s =
      elim (Option-cases (find (λ d. d.id) id s.digests)) [
        | inl missing ↦ ground (arith, missing, Grown-refl s.attempts)
        | inr (row, found) ↦ elim (Result-cases (restore net row)) [
          | inl (d, e) ↦ ground (arith, found, e, Grown-refl s.attempts)
          | inr (_, e) ↦ ground (arith, found, e, Grown-refl s.attempts)
        ]
      ]
