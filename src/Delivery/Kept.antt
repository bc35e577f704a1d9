-- ===== src/Delivery/Kept.antt =====
-- What delivery leaves of the rows of delivery attempts.
use automation_portfolio.Prelude.{ℕ, suc, Bool, true, false, List, [], ◌∷◌, Option, none, some}
use automation_portfolio.Prelude.Text.{Text}
use automation_portfolio.Prelude.Result.{Result, ok, raise}
use automation_portfolio.Prelude.Action.{Action}
use automation_portfolio.Prelude.Action
use automation_portfolio.Messages.{
  Exc, lookup_error, value_error, telegram_digest_not_deliverable, telegram_split_failed,
  telegram_digest_not_found,
}
use automation_portfolio.Enums.{DigestStatus, ErrorCode}
use automation_portfolio.Net.{Net}
use automation_portfolio.Digest.{Digest, DigestItem}
use automation_portfolio.Attempt.{Attempt}
use automation_portfolio.News.{NewsItem}
use automation_portfolio.Source.{Source}
use automation_portfolio.Render.{RenderedDigestLine}
use automation_portfolio.Store.{Store, list_for_digest, get_news, get_source, get_digest}
use automation_portfolio.Store.Grown.{Grown}
use automation_portfolio.Store.Kept.{
  Keeps, list_for_digest-Keeps, get_digest-Keeps, get_news-Keeps, get_source-Keeps,
  transition_digest-Keeps,
}
use automation_portfolio.Delivery.Client.{Outside, Settings}
use automation_portfolio.Delivery.Monad.{State, Step}
use automation_portfolio.Delivery.Deliver.{
  Loaded, already_sent, ready, line_of, lines_with, load_lines, load_by_status, load_found, load,
  give_up, after_part, part_step, deliver_parts, finish, send_all, deliver_split, deliver_loaded,
  deliver,
}
use automation_portfolio.Delivery.Parts.{
  Keeps-chain, Keeps-lift, StepKeeps, StepKeeps-bind, StepKeeps-return, StepKeeps-throw,
  StepKeeps-world, StepKeeps-transaction, fail_digest-Keeps, deliver_part-Keeps,
}

module _ (net : Net) where
  line_of-Keeps :
      (item : DigestItem) (news : NewsItem) (rest : Action Store (List RenderedDigestLine))
      (source : Option Source)
      → Keeps rest
      → Keeps (line_of net item news rest source)
  unfolding line_of
  line_of-Keeps item news rest none h =
      Keeps-lift {A = List RenderedDigestLine} (raise (lookup_error telegram_split_failed))
  line_of-Keeps item news rest (some source) h =
      Keeps-chain rest
        (λ lines. Action.pure (record { item = item; news_item = news; source = source } ∷ lines)) h
        (λ lines.
          Keeps-lift (ok (record { item = item; news_item = news; source = source } ∷ lines)))

  lines_with-Keeps :
      (item : DigestItem) (rest : Action Store (List RenderedDigestLine)) (news : Option NewsItem)
      → Keeps rest
      → Keeps (lines_with net item rest news)
  unfolding lines_with
  lines_with-Keeps item rest none h =
      Keeps-lift {A = List RenderedDigestLine} (raise (lookup_error telegram_split_failed))
  lines_with-Keeps item rest (some news) h =
      Keeps-chain (get_source net news.source_id) (line_of net item news rest)
        (get_source-Keeps net news.source_id) (λ source. line_of-Keeps item news rest source h)

  load_lines-Keeps : (items : List DigestItem) → Keeps (load_lines net items)
  unfolding load_lines
  load_lines-Keeps [] = Keeps-lift {A = List RenderedDigestLine} (ok [])
  load_lines-Keeps (item ∷ items) =
      Keeps-chain (get_news net item.news_item_id) (lines_with net item (load_lines net items))
        (get_news-Keeps net item.news_item_id)
        (λ news. lines_with-Keeps item (load_lines net items) news (load_lines-Keeps items))

  load_ready-Keeps :
      (id : ℕ) (digest : Digest)
      → Keeps (
          Action.◌>>=◌ (load_lines net digest.items) (λ lines.
            Action.◌>>=◌
              (list_for_digest id)
              (λ attempts. Action.pure (ready digest lines attempts))))
  load_ready-Keeps id digest =
      Keeps-chain (load_lines net digest.items)
        (λ lines.
          Action.◌>>=◌ (list_for_digest id) (λ attempts. Action.pure (ready digest lines attempts)))
        (load_lines-Keeps digest.items)
        (λ lines.
          Keeps-chain (list_for_digest id) (λ attempts. Action.pure (ready digest lines attempts))
            (list_for_digest-Keeps id) (λ attempts. Keeps-lift (ok (ready digest lines attempts))))

  load_by_status-Keeps :
      (id : ℕ) (digest : Digest) (status : DigestStatus)
      → Keeps (load_by_status net id digest status)
  unfolding load_by_status
  load_by_status-Keeps id digest DigestStatus.sent = Keeps-lift (ok already_sent)
  load_by_status-Keeps id digest DigestStatus.sending =
      Keeps-lift {A = Loaded} (raise (value_error telegram_digest_not_deliverable))
  load_by_status-Keeps id digest DigestStatus.generated = load_ready-Keeps id digest
  load_by_status-Keeps id digest DigestStatus.failed = load_ready-Keeps id digest

  load_found-Keeps : (id : ℕ) (found : Option Digest) → Keeps (load_found net id found)
  unfolding load_found
  load_found-Keeps id none =
      Keeps-lift {A = Loaded} (raise (lookup_error telegram_digest_not_found))
  load_found-Keeps id (some digest) = load_by_status-Keeps id digest digest.status

  load-Keeps : (id : ℕ) → Keeps (load net id)
  unfolding load
  load-Keeps id =
      Keeps-chain (get_digest net id) (load_found net id) (get_digest-Keeps net id)
        (load_found-Keeps id)

  module _ {o : Outside} (settings : Settings) (id : ℕ) where
    give_up-Keeps :
        (summary : Text) (e : Exc) → StepKeeps {o = o} (give_up net settings id summary e)
    unfolding give_up
    give_up-Keeps summary e =
        StepKeeps-bind (fail_digest-Keeps net id ErrorCode.telegram_permanent_failure summary)
          (λ _. StepKeeps-throw _)

    after_part-Keeps :
        (count : ℕ) (rest : ℕ → Step o (Bool × ℕ)) (delivered : Bool)
        → ((n : ℕ) → StepKeeps (rest n))
        → StepKeeps (after_part net settings id count rest delivered)
    unfolding after_part
    after_part-Keeps count rest false h = StepKeeps-return _
    after_part-Keeps count rest true h = h (suc count)

    part_step-Keeps :
        (attempts : List Attempt) (text : Text) (part count : ℕ) (rest : ℕ → Step o (Bool × ℕ))
        (was_sent : Bool)
        → ((n : ℕ) → StepKeeps (rest n))
        → StepKeeps (part_step net settings id attempts text part count rest was_sent)
    unfolding part_step
    part_step-Keeps attempts text part count rest true h = h count
    part_step-Keeps attempts text part count rest false h =
        StepKeeps-bind (deliver_part-Keeps net settings.telegram_max_retries id part text _ _)
          (λ d. after_part-Keeps count rest d h)

    deliver_parts-Keeps :
        (attempts : List Attempt) (texts : List Text) (part count : ℕ)
        → StepKeeps {o = o} (deliver_parts net settings id attempts texts part count)
    unfolding deliver_parts
    deliver_parts-Keeps attempts [] part count = StepKeeps-return _
    deliver_parts-Keeps attempts (text ∷ texts) part count =
        part_step-Keeps attempts text part count _ _ (deliver_parts-Keeps attempts texts (suc part))

    finish-Keeps :
        (total : ℕ) (all : Bool) (count : ℕ)
        → StepKeeps {o = o} (finish net settings id total all count)
    unfolding finish
    finish-Keeps total false count =
        StepKeeps-bind (StepKeeps-transaction _ (get_digest-Keeps net id)) (λ _. StepKeeps-return _)
    finish-Keeps total true count = StepKeeps-bind (StepKeeps-world _) (λ now.
        StepKeeps-bind (StepKeeps-transaction _ (transition_digest-Keeps net id _ _ _ _ now))
          (λ _. StepKeeps-return _))

    send_all-Keeps :
        (attempts : List Attempt) (parts : List Text)
        → StepKeeps {o = o} (send_all net settings id attempts parts)
    unfolding send_all
    send_all-Keeps attempts parts = StepKeeps-bind (StepKeeps-world _) (λ now.
        StepKeeps-bind (StepKeeps-transaction _ (transition_digest-Keeps net id _ _ _ _ now)) (λ _.
          StepKeeps-bind (deliver_parts-Keeps attempts parts 1 _) (λ r. finish-Keeps _ r.0 r.1)))

    deliver_split-Keeps :
        (attempts : List Attempt) (parts : Result (List Text)) (lacks_chat : Bool)
        → StepKeeps {o = o} (deliver_split net settings id attempts parts lacks_chat)
    unfolding deliver_split
    deliver_split-Keeps attempts (raise _) lacks_chat = give_up-Keeps _ _
    deliver_split-Keeps attempts (ok parts) true = give_up-Keeps _ _
    deliver_split-Keeps attempts (ok parts) false = send_all-Keeps attempts parts

    deliver_loaded-Keeps :
        (loaded : Loaded) → StepKeeps {o = o} (deliver_loaded net settings id loaded)
    unfolding deliver_loaded
    deliver_loaded-Keeps already_sent = StepKeeps-return _
    deliver_loaded-Keeps (ready digest lines attempts) = deliver_split-Keeps attempts _ _

    deliver-Keeps : StepKeeps {o = o} (deliver net settings id)
    unfolding deliver
    deliver-Keeps = StepKeeps-bind (StepKeeps-transaction _ (load-Keeps id)) deliver_loaded-Keeps

    -- Whatever the client answers and wherever an exception leaves it, deliver removes no row of a
    -- delivery attempt, changes no identity of one, changes nothing of a completed one, and puts
    -- new rows after the old ones.
    pub deliver-Grown :
        (s : State o) → Grown s.store.attempts (deliver net settings id s).1.store.attempts
    deliver-Grown s = deliver-Keeps.keeps s
