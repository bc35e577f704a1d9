-- ===== src/Store/Digests.antt =====
-- `DigestRepository`: what reads digests, and `transition_to`.
use automation_portfolio.Prelude.{
  ℕ, Bool, true, false, not, ◌&&◌, ◌||◌, Option, none, some, List, [], ◌∷◌, ◌==◌, ltb, leb,
}
use automation_portfolio.Prelude.Text.{Text}
use automation_portfolio.Prelude.Int.{ltb_ℤ}
use automation_portfolio.Prelude.Time.{Datetime, instant, before}
use automation_portfolio.Prelude.Sort.{sort}
use automation_portfolio.Prelude.Result.{Result, ok, raise}
use automation_portfolio.Prelude.Result
use automation_portfolio.Prelude.Action.{Action, ◌>>=◌, ◌>>◌, lift, get, modify}
use automation_portfolio.Messages.{lookup_error, digest_not_found}
use automation_portfolio.Enums.{DigestStatus, ErrorCode}
use automation_portfolio.Net.{Net}
use automation_portfolio.Digest
use automation_portfolio.Digest.{Digest, DigestItem, item_post_init}
use automation_portfolio.Store.Rows.{Store, find, update, where_rows, first}

module _ (net : Net) where
  unfoldable pub restore_items : List DigestItem → Result (List DigestItem)
  restore_items [] = ok []
  restore_items (i ∷ items) =
      Result.◌>>=◌ (item_post_init net i)
        (λ item. Result.◌>>=◌ (restore_items items) (λ rest. ok (item ∷ rest)))

  -- `_restore`: the items are read in the order of their positions.
  unfoldable pub restore : Digest → Result Digest
  unfolding restore_items sort
  restore row =
      Result.◌>>=◌ (restore_items (sort (λ a b. not (ltb_ℤ b.position a.position)) row.items))
        (λ items. Digest.post_init (record row { items = items }))

  unfoldable pub restore_found : Option Digest → Result (Option Digest)
  unfolding restore
  restore_found none = ok none
  restore_found (some row) = Result.◌>>=◌ (restore row) (λ d. ok (some d))

  unfoldable pub get_digest : ℕ → Action Store (Option Digest)
  unfolding restore_found find
  get_digest digest_id = do
    store ← get
    lift (restore_found (find (λ d. d.id) digest_id store.digests))

  -- `transition_to`, at the time `now` of the call.
  unfoldable pub transition_digest :
      ℕ → DigestStatus → Option Datetime → Option ErrorCode → Option Text → ℕ → Action Store Digest
  unfolding find update restore
  transition_digest digest_id target occurred_at code summary now = do
    store ← get
    elim (find (λ d. d.id) digest_id store.digests) [
      | none ↦ lift (raise (lookup_error digest_not_found))
      | some row ↦ do
        digest ← lift (restore row)
        let moved = Digest.transition_to target occurred_at code summary now digest
        lift moved.0
        modify (λ s. record s {
          digests =
              update (λ d. d.id) digest_id
                (λ d. record d {
                  status = moved.1.status;
                  sent_at = moved.1.sent_at;
                  error_code = moved.1.error_code;
                  error_summary = moved.1.error_summary;
                })
                s.digests;
        })
        lift (ok moved.1)
    ]

  unfoldable pub get_by_run : ℕ → Action Store (Option Digest)
  unfolding restore_found where_rows
  get_by_run run_id = do
    store ← get
    lift (restore_found (first (where_rows (λ d. d.run_id == run_id) store.digests)))

  -- `order_by(digest_date.desc(), created_at.desc(), id.desc())`
  abbrev latest_first : Digest → Digest → Bool
  latest_first a b =
      ltb b.digest_date a.digest_date
      || ((a.digest_date == b.digest_date)
          && (before b.created_at a.created_at
              || ((instant a.created_at == instant b.created_at) && leb b.id a.id)))

  unfoldable pub get_latest : Action Store (Option Digest)
  unfolding restore_found sort
  get_latest = do store ← get; lift (restore_found (first (sort latest_first store.digests)))

  abbrev is_sent : DigestStatus → Bool
  is_sent DigestStatus.sent = true
  is_sent _ = false

  -- `sent_at.desc().nullslast()`: later times first, and rows without a time last.
  abbrev later_sent : Option Datetime → Option Datetime → Bool
  later_sent (some a) (some b) = before b a
  later_sent (some a) none = true
  later_sent none _ = false

  abbrev last_sent_first : Digest → Digest → Bool
  last_sent_first a b =
      later_sent a.sent_at b.sent_at
      || (not (later_sent b.sent_at a.sent_at)
          && (ltb b.digest_date a.digest_date
              || ((a.digest_date == b.digest_date) && leb b.id a.id)))

  unfoldable pub get_latest_sent : Action Store (Option Digest)
  unfolding restore_found where_rows sort
  get_latest_sent = do
    store ← get
    lift (
        restore_found
          (first (sort last_sent_first (where_rows (λ d. is_sent d.status) store.digests))))
