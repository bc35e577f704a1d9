-- ===== src/Store/Attempts.antt =====
-- `DeliveryAttemptRepository`.
use automation_portfolio.Prelude.{
  ℕ, Bool, true, false, not, ◌&&◌, ◌||◌, Option, none, some, List, [], ◌∷◌, ◌++◌, ◌==◌,
  if◌then◌else◌, any,
}
use automation_portfolio.Prelude.Text.{codes, text_eq}
use automation_portfolio.Prelude.Int.{ltb_ℤ, eqb_ℤ}
use automation_portfolio.Prelude.Sort.{sort}
use automation_portfolio.Prelude.Result.{Result, ok, raise, raise_if}
use automation_portfolio.Prelude.Result
use automation_portfolio.Prelude.Action.{Action, ◌>>=◌, ◌>>◌, lift, get, modify}
use automation_portfolio.Messages.{
  value_error, lookup_error, integrity_error, integrity_violated, attempt_not_found,
  attempt_identity_mismatch, attempt_terminal_update_forbidden,
}
use automation_portfolio.Enums.{DeliveryStatus, error_code_value}
use automation_portfolio.Attempt.{Attempt, post_init, is_pending}
use automation_portfolio.Store.Equal.{datetime_eq, option_eq}
use automation_portfolio.Store.Rows.{Store, find, update}

status_eq : DeliveryStatus → DeliveryStatus → Bool
status_eq DeliveryStatus.pending DeliveryStatus.pending = true
status_eq DeliveryStatus.sent DeliveryStatus.sent = true
status_eq DeliveryStatus.failed DeliveryStatus.failed = true
status_eq _ _ = false

-- `model.digest_id != validated.digest_id or …`, negated
unfoldable pub same_identity : Attempt → Attempt → Bool
unfolding datetime_eq
same_identity a b =
    (a.digest_id == b.digest_id)
    && eqb_ℤ a.part_number b.part_number
    && eqb_ℤ a.attempt_number b.attempt_number
    && datetime_eq a.started_at b.started_at

-- `stored == validated`
unfoldable pub attempt_eq : Attempt → Attempt → Bool
unfolding same_identity option_eq status_eq datetime_eq
attempt_eq a b =
    same_identity a b
    && (a.id == b.id)
    && status_eq a.status b.status
    && option_eq eqb_ℤ a.telegram_message_id b.telegram_message_id
    && option_eq eqb_ℤ a.http_status b.http_status
    && option_eq eqb_ℤ a.retry_after_seconds b.retry_after_seconds
    && option_eq (λ x y. text_eq (codes (error_code_value x)) (codes (error_code_value y)))
        a.error_code b.error_code
    && option_eq text_eq a.error_summary b.error_summary
    && option_eq datetime_eq a.finished_at b.finished_at

-- The primary key, and the unique numbering of a digest's attempts.
unfoldable pub clashes : Attempt → Attempt → Bool
clashes a b =
    (a.id == b.id)
    || ((a.digest_id == b.digest_id)
        && eqb_ℤ a.part_number b.part_number
        && eqb_ℤ a.attempt_number b.attempt_number)

unfoldable pub add_attempt : Attempt → Action Store Attempt
unfolding clashes
add_attempt attempt = do
  validated ← lift (post_init attempt)
  store ← get
  lift (raise_if (any (clashes validated) store.attempts) (integrity_error integrity_violated))
  modify (λ s. record s { attempts = s.attempts ++ (validated ∷ []) })
  lift (post_init validated)

-- `_to_domain` of a row that may be missing.
unfoldable pub to_domain : Option Attempt → Result (Option Attempt)
to_domain none = ok none
to_domain (some row) = Result.◌>>=◌ (post_init row) (λ a. ok (some a))

unfoldable pub get_attempt : ℕ → Action Store (Option Attempt)
unfolding to_domain find
get_attempt attempt_id = do
  store ← get
  lift (to_domain (find (λ a. a.id) attempt_id store.attempts))

-- `order_by(part_number.asc(), attempt_number.asc())`
abbrev numbered_before : Attempt → Attempt → Bool
numbered_before a b =
    ltb_ℤ a.part_number b.part_number
    || (eqb_ℤ a.part_number b.part_number && not (ltb_ℤ b.attempt_number a.attempt_number))

rows_of : ℕ → List Attempt → List Attempt
rows_of digest_id [] = []
rows_of digest_id (a ∷ rows) =
    let rest = rows_of digest_id rows in if a.digest_id == digest_id then a ∷ rest else rest

to_domain_all : List Attempt → Result (List Attempt)
to_domain_all [] = ok []
to_domain_all (row ∷ rows) =
    Result.◌>>=◌ (post_init row) (λ a. Result.◌>>=◌ (to_domain_all rows) (λ rest. ok (a ∷ rest)))

unfoldable pub list_for_digest : ℕ → Action Store (List Attempt)
unfolding rows_of to_domain_all sort
list_for_digest digest_id = do
  store ← get
  lift (to_domain_all (sort numbered_before (rows_of digest_id store.attempts)))

-- The columns that `save` writes.
abbrev pub with_result : Attempt → Attempt → Attempt
with_result validated row = record row {
  status = validated.status;
  telegram_message_id = validated.telegram_message_id;
  http_status = validated.http_status;
  retry_after_seconds = validated.retry_after_seconds;
  error_code = validated.error_code;
  error_summary = validated.error_summary;
  finished_at = validated.finished_at;
}

-- `save`, once its row is found: the end of the method for a completed row, and for a pending one.
unfoldable pub save_found : Attempt → Attempt → Action Store Attempt
unfolding attempt_eq update
save_found validated model = elim (is_pending model.status) [
  | false ↦ do
    stored ← lift (post_init model)
    lift (
        raise_if (not (attempt_eq stored validated))
          (value_error attempt_terminal_update_forbidden))
    lift (ok stored)
  | true ↦ do
    modify (λ s. record s {
      attempts = update (λ a. a.id) validated.id (with_result validated) s.attempts;
    })
    lift (post_init (with_result validated model))
]

unfoldable pub save_attempt : Attempt → Action Store Attempt
unfolding find same_identity save_found
save_attempt attempt = do
  validated ← lift (post_init attempt)
  store ← get
  elim (find (λ a. a.id) validated.id store.attempts) [
    | none ↦ lift (raise (lookup_error attempt_not_found))
    | some model ↦ do
      lift (raise_if (not (same_identity model validated)) (value_error attempt_identity_mismatch))
      save_found validated model
  ]
