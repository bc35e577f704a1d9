-- ===== src/Delivery/Deliver.antt =====
-- `deliver` and `_load_lines`.
use automation_portfolio.Prelude.{
  ℕ, suc, Bool, true, false, ◌&&◌, Option, none, some, List, [], ◌∷◌, if◌then◌else◌, length, is_nil,
  ltb,
}
use automation_portfolio.Prelude.Text.{Text, codes, strip}
use automation_portfolio.Prelude.Int.{ℤ, pos, negsuc, eqb_ℤ}
use automation_portfolio.Prelude.Sort.{occurs}
use automation_portfolio.Prelude.Result.{Result, ok, raise}
use automation_portfolio.Prelude.Action.{Action}
use automation_portfolio.Prelude.Action
use automation_portfolio.Messages.{
  Exc, value_error, lookup_error, telegram_error, telegram_digest_not_found,
  telegram_digest_not_deliverable, telegram_split_failed, telegram_chat_id_required,
}
use automation_portfolio.Enums.{DigestStatus, DeliveryStatus, ErrorCode}
use automation_portfolio.Net.{Net}
use automation_portfolio.Digest.{Digest, DigestItem}
use automation_portfolio.Attempt.{Attempt}
use automation_portfolio.News.{NewsItem}
use automation_portfolio.Source.{Source}
use automation_portfolio.Render.{RenderedDigestLine, split_digest_messages, telegram_message_limit}
use automation_portfolio.Store.{
  Store, list_for_digest, get_digest, transition_digest, get_news, get_source,
}
use automation_portfolio.Delivery.Client.{Outside, Settings}
use automation_portfolio.Delivery.Monad.{Step, ◌>>=◌, ◌>>◌, return, throw, in_transaction, utc_now}
use automation_portfolio.Delivery.Part.{or_else, fail_digest, deliver_part}

pub record DeliveryOutcome : Type 0 where
  pub digest_id : ℕ
  pub status : DigestStatus
  pub parts_total : ℕ
  pub parts_sent : ℕ
  pub skipped : Bool

-- What the first transaction finds.
pub data Loaded : Type 0 where
  already_sent : Loaded
  ready : Digest → List RenderedDigestLine → List Attempt → Loaded

-- `{attempt.part_number for attempt in attempts if attempt.status is DeliveryStatus.SENT}`
unfoldable pub sent_parts : List Attempt → List ℤ
unfolding occurs
sent_parts [] = []
sent_parts (a ∷ attempts) =
    let rest = sent_parts attempts in
    elim a.status [
      | DeliveryStatus.sent ↦ if occurs eqb_ℤ a.part_number rest then rest else a.part_number ∷ rest
      | _ ↦ rest
    ]

abbrev larger : ℤ → ℕ → ℕ
larger (pos n) current = if ltb current n then n else current
larger (negsuc n) current = current

-- `max_attempts_by_part.get(part, 0)`
unfoldable pub max_attempt : ℕ → ℕ → List Attempt → ℕ
max_attempt part current [] = current
max_attempt part current (a ∷ attempts) =
    max_attempt part
      (if eqb_ℤ a.part_number (pos part) then larger a.attempt_number current else current) attempts

-- `telegram_chat_id or ""`
abbrev pub chat_of : Settings → Text
chat_of settings = elim settings.telegram_chat_id [ none ↦ [] | some id ↦ id ]

module _ (net : Net) where
  -- `_load_lines`: the line of an item whose article and source are found; `rest` loads the others.
  unfoldable pub line_of :
      DigestItem
      → NewsItem
      → Action Store (List RenderedDigestLine)
      → Option Source
      → Action Store (List RenderedDigestLine)
  line_of item news rest none = Action.lift (raise (lookup_error telegram_split_failed))
  line_of item news rest (some source) =
      Action.◌>>=◌ rest
        (λ lines. Action.pure (record { item = item; news_item = news; source = source } ∷ lines))

  unfoldable pub lines_with :
      DigestItem
      → Action Store (List RenderedDigestLine)
      → Option NewsItem
      → Action Store (List RenderedDigestLine)
  unfolding line_of
  lines_with item rest none = Action.lift (raise (lookup_error telegram_split_failed))
  lines_with item rest (some news) =
      Action.◌>>=◌ (get_source net news.source_id) (line_of item news rest)

  unfoldable pub load_lines : List DigestItem → Action Store (List RenderedDigestLine)
  unfolding lines_with
  load_lines [] = Action.pure []
  load_lines (item ∷ items) =
      Action.◌>>=◌ (get_news net item.news_item_id) (lines_with item (load_lines items))

  unfoldable pub load_by_status : ℕ → Digest → DigestStatus → Action Store Loaded
  unfolding load_lines
  load_by_status digest_id digest DigestStatus.sent = Action.pure already_sent
  load_by_status digest_id digest DigestStatus.sending =
      Action.lift (raise (value_error telegram_digest_not_deliverable))
  load_by_status digest_id digest _ = Action.◌>>=◌ (load_lines digest.items) (λ lines.
      Action.◌>>=◌ (list_for_digest digest_id)
        (λ attempts. Action.pure (ready digest lines attempts)))

  unfoldable pub load_found : ℕ → Option Digest → Action Store Loaded
  unfolding load_by_status
  load_found digest_id none = Action.lift (raise (lookup_error telegram_digest_not_found))
  load_found digest_id (some digest) = load_by_status digest_id digest digest.status

  -- The first transaction of `deliver`.
  unfoldable pub load : ℕ → Action Store Loaded
  unfolding load_found
  load digest_id = Action.◌>>=◌ (get_digest net digest_id) (load_found digest_id)

  module _ {o : Outside} (settings : Settings) (digest_id : ℕ) where
    -- `_fail_digest(…)` and `raise TelegramError(…)`
    unfoldable pub give_up : Text → Exc → Step o DeliveryOutcome
    give_up summary error = do
      fail_digest net digest_id ErrorCode.telegram_permanent_failure summary
      throw error

    -- A part: skipped where it has been sent, and else delivered; `rest` is the rest of the loop.
    unfoldable pub after_part : ℕ → (ℕ → Step o (Bool × ℕ)) → Bool → Step o (Bool × ℕ)
    after_part count rest false = return (false, count)
    after_part count rest true = rest (suc count)

    unfoldable pub part_step :
        List Attempt → Text → ℕ → ℕ → (ℕ → Step o (Bool × ℕ)) → Bool → Step o (Bool × ℕ)
    unfolding after_part max_attempt
    part_step attempts text part count rest true = rest count
    part_step attempts text part count rest false = do
      delivered ←
          deliver_part net settings.telegram_max_retries digest_id part text
            (or_else (chat_of settings) (codes "demo-chat")) (max_attempt part 0 attempts)
      after_part count rest delivered

    -- The loop over the parts, from number `part` on; whether all were delivered, and `parts_sent`.
    unfoldable pub deliver_parts : List Attempt → List Text → ℕ → ℕ → Step o (Bool × ℕ)
    unfolding sent_parts part_step occurs
    deliver_parts attempts [] part count = return (true, count)
    deliver_parts attempts (text ∷ texts) part count =
        part_step attempts text part count (deliver_parts attempts texts (suc part))
          (occurs eqb_ℤ (pos part) (sent_parts attempts))

    -- After the loop.
    unfoldable pub finish : ℕ → Bool → ℕ → Step o DeliveryOutcome
    finish total false count = do
      found ← in_transaction (get_digest net digest_id)
      return (record {
        digest_id = digest_id;
        status = elim found [ some digest ↦ digest.status | none ↦ DigestStatus.failed ];
        parts_total = total;
        parts_sent = count;
        skipped = false;
      })
    finish total true count = do
      now ← utc_now
      digest ← in_transaction (transition_digest net digest_id DigestStatus.sent none none none now)
      return (record {
        digest_id = digest_id;
        status = digest.status;
        parts_total = total;
        parts_sent = count;
        skipped = false;
      })

    -- From the transition to SENDING on.
    unfoldable pub send_all : List Attempt → List Text → Step o DeliveryOutcome
    unfolding deliver_parts finish sent_parts
    send_all attempts parts = do
      now ← utc_now
      _ ← in_transaction (transition_digest net digest_id DigestStatus.sending none none none now)
      (all_delivered, count) ← deliver_parts attempts parts 1 (length (sent_parts attempts))
      finish (length parts) all_delivered count

    -- Once the parts are made.
    unfoldable pub deliver_split : List Attempt → Result (List Text) → Bool → Step o DeliveryOutcome
    unfolding give_up send_all
    deliver_split attempts (raise _) lacks_chat =
        give_up (codes "Stored digest cannot be split for Telegram delivery.")
          (telegram_error ErrorCode.telegram_permanent_failure telegram_split_failed)
    deliver_split attempts (ok parts) true =
        give_up (codes "TELEGRAM_CHAT_ID is required when delivery is enabled.")
          (telegram_error ErrorCode.telegram_permanent_failure telegram_chat_id_required)
    deliver_split attempts (ok parts) false = send_all attempts parts

    -- The rest of `deliver` after its first transaction.
    unfoldable pub deliver_loaded : Loaded → Step o DeliveryOutcome
    unfolding deliver_split strip
    deliver_loaded already_sent = return (record {
      digest_id = digest_id;
      status = DigestStatus.sent;
      parts_total = 0;
      parts_sent = 0;
      skipped = true;
    })
    deliver_loaded (ready digest lines attempts) =
        deliver_split attempts (split_digest_messages digest.title lines telegram_message_limit)
          (settings.is_live && is_nil (strip (chat_of settings)))

    unfoldable pub deliver : Step o DeliveryOutcome
    unfolding load deliver_loaded
    deliver = do loaded ← in_transaction (load digest_id); deliver_loaded loaded
