-- ===== src/Delivery/Parts.antt =====
-- What the delivery of one part leaves of the rows of delivery attempts.
use automation_portfolio.Prelude.{ℕ, zero, suc, Bool, true, false, Option, none, some, take}
use automation_portfolio.Prelude.Text.{Text}
use automation_portfolio.Prelude.Int.{ℤ}
use automation_portfolio.Prelude.Result.{Result, ok, raise}
use automation_portfolio.Prelude.Action.{Action}
use automation_portfolio.Prelude.Action
use automation_portfolio.Messages.{Exc, lookup_error, telegram_digest_not_found, telegram_refused}
use automation_portfolio.Enums.{DigestStatus, ErrorCode}
use automation_portfolio.Net.{Net}
use automation_portfolio.Digest.{Digest}
use automation_portfolio.Attempt.{Attempt}
use automation_portfolio.Store.{Store, save_attempt, get_attempt, transition_digest}
use automation_portfolio.Store.Grown.{Grown, Grown-refl, Grown-trans}
use automation_portfolio.Store.Kept.{
  Keeps, Keeps-transaction, add_attempt-Keeps, get_attempt-Keeps, save_attempt-Keeps,
  get_digest-Keeps, transition_digest-Keeps,
}
use automation_portfolio.Delivery.Client.{Outside, SendResult, accepted, refused, TelegramError}
use automation_portfolio.Delivery.Monad.{
  State, Step, ◌>>=◌, return, throw, from, in_transaction, call_world,
}
use automation_portfolio.Delivery.Part.{
  delivery_exhausted, complete_attempt, complete_found, fail_as, fail_found, fail_digest,
  send_trial, store_sent, store_failed, deliver_trials, end_or_retry, after_send, deliver_part,
}

-- A chain of two actions on the store keeps what both keep.
after_action :
    {A B : Type 0} (s : Store) (r : Result A × Store) (k : A → Action Store B)
    → Grown s.attempts r.1.attempts
    → ((a : A) → Keeps (k a))
    → Grown s.attempts (Action.◌>>=◌ (λ _. r) k s).1.attempts
after_action s (ok a, after) k h hk = Grown-trans s.attempts after.attempts _ h (hk a after)
after_action s (raise e, after) k h hk = h

pub Keeps-chain :
    {A B : Type 0} (m : Action Store A) (k : A → Action Store B)
    → Keeps m
    → ((a : A) → Keeps (k a))
    → Keeps (Action.◌>>=◌ m k)
Keeps-chain m k hm hk s = after_action s (m s) k (hm s) hk

pub Keeps-lift : {A : Type 0} (r : Result A) → Keeps (Action.lift r)
Keeps-lift r s = Grown-refl s.attempts

complete_found-Keeps :
    (on_missing : Action Store Attempt) (mark : Action Attempt (Unit {0})) (found : Option Attempt)
    → Keeps on_missing
    → Keeps (complete_found on_missing mark found)
unfolding complete_found
complete_found-Keeps on_missing mark none h = h
complete_found-Keeps on_missing mark (some stored) h =
    Keeps-chain (Action.lift (mark stored).0) (λ _. save_attempt (mark stored).1)
      (Keeps-lift (mark stored).0) (λ _. save_attempt-Keeps (mark stored).1)

complete_attempt-Keeps :
    (id : ℕ) (on_missing : Action Store Attempt) (mark : Action Attempt (Unit {0}))
    → Keeps on_missing
    → Keeps (complete_attempt id on_missing mark)
unfolding complete_attempt
complete_attempt-Keeps id on_missing mark h =
    Keeps-chain (get_attempt id) (complete_found on_missing mark) (get_attempt-Keeps id)
      (λ found. complete_found-Keeps on_missing mark found h)

-- A step of the service keeps what the rows of attempts say, whether it raises or not.
pub record StepKeeps {o : Outside} {A : Type 0} (m : Step o A) : Type 0 where
  pub keeps : (s : State o) → Grown s.store.attempts (m s).1.store.attempts

module _ {o : Outside} where
  after_step :
      {A B : Type 0} (s : State o) (r : Result A × State o) (k : A → Step o B)
      → Grown s.store.attempts r.1.store.attempts
      → ((a : A) → StepKeeps (k a))
      → Grown s.store.attempts (◌>>=◌ (λ _. r) k s).1.store.attempts
  unfolding ◌>>=◌
  after_step s (ok a, after) k h hk =
      Grown-trans s.store.attempts after.store.attempts _ h ((hk a).keeps after)
  after_step s (raise e, after) k h hk = h

  pub StepKeeps-bind :
      {A B : Type 0} {m : Step o A} {k : A → Step o B}
      → StepKeeps m
      → ((a : A) → StepKeeps (k a))
      → StepKeeps (m >>= k)
  unfolding ◌>>=◌
  StepKeeps-bind {m} {k} hm hk = record { keeps = λ s. after_step s (m s) k (hm.keeps s) hk }

  pub StepKeeps-return : {A : Type 0} (a : A) → StepKeeps (return {o = o} a)
  unfolding return
  StepKeeps-return a = record { keeps = λ s. Grown-refl s.store.attempts }

  pub StepKeeps-throw : {A : Type 0} (e : Exc) → StepKeeps (throw {o = o} {A = A} e)
  unfolding throw
  StepKeeps-throw e = record { keeps = λ s. Grown-refl s.store.attempts }

  StepKeeps-from : {A : Type 0} (r : Result A) → StepKeeps (from {o = o} r)
  unfolding from
  StepKeeps-from r = record { keeps = λ s. Grown-refl s.store.attempts }

  pub StepKeeps-world : {A : Type 0} (f : o.World → A × o.World) → StepKeeps (call_world {o = o} f)
  unfolding call_world
  StepKeeps-world f = record { keeps = λ s. Grown-refl s.store.attempts }

  pub StepKeeps-transaction :
      {A : Type 0} (m : Action Store A) → Keeps m → StepKeeps (in_transaction {o = o} m)
  unfolding in_transaction
  StepKeeps-transaction m h = record { keeps = λ s. Keeps-transaction m h s.store }

module _ (net : Net) where
  fail_as-Keeps :
      (id : ℕ) (code : ErrorCode) (summary : Text) (first second : ℕ) (status : DigestStatus)
      → Keeps (fail_as net id code summary first second status)
  unfolding fail_as
  fail_as-Keeps id code summary first second DigestStatus.sending =
      Keeps-chain
        (transition_digest net id DigestStatus.failed none (some code) (some (take 500 summary))
          first)
        (λ _. Action.pure tt) (transition_digest-Keeps net id _ _ _ _ first)
        (λ _. Keeps-lift (ok tt))
  fail_as-Keeps id code summary first second DigestStatus.generated =
      Keeps-chain (transition_digest net id DigestStatus.sending none none none first)
        (λ _.
          Action.◌>>=◌
            (transition_digest net id DigestStatus.failed none (some code) (some (take 500 summary))
              second)
            (λ _. Action.pure tt))
        (transition_digest-Keeps net id _ _ _ _ first)
        (λ _.
          Keeps-chain
            (transition_digest net id DigestStatus.failed none (some code) (some (take 500 summary))
              second)
            (λ _. Action.pure tt) (transition_digest-Keeps net id _ _ _ _ second)
            (λ _. Keeps-lift (ok tt)))
  fail_as-Keeps id code summary first second _ = Keeps-lift (ok tt)

  fail_found-Keeps :
      (id : ℕ) (code : ErrorCode) (summary : Text) (first second : ℕ) (found : Option Digest)
      → Keeps (fail_found net id code summary first second found)
  unfolding fail_found
  fail_found-Keeps id code summary first second none = Keeps-lift (ok tt)
  fail_found-Keeps id code summary first second (some digest) =
      fail_as-Keeps id code summary first second digest.status

  pub fail_digest-Keeps :
      {o : Outside} (id : ℕ) (code : ErrorCode) (summary : Text)
      → StepKeeps (fail_digest net {o = o} id code summary)
  unfolding fail_digest
  fail_digest-Keeps id code summary = StepKeeps-bind (StepKeeps-world _) (λ first.
      StepKeeps-bind (StepKeeps-world _) (λ second. StepKeeps-transaction _ (
        Keeps-chain _ (fail_found net id code summary first second) (get_digest-Keeps net id)
          (fail_found-Keeps id code summary first second))))

  module _ {o : Outside} (retries : ℕ) (id : ℕ) (part : ℕ) (text chat_id : Text) where
    send_trial-Keeps : (n : ℕ) → StepKeeps {o = o} (send_trial net retries id part text chat_id n)
    unfolding send_trial
    send_trial-Keeps n = StepKeeps-bind (StepKeeps-world _) (λ attempt_id.
        StepKeeps-bind (StepKeeps-world _) (λ started. StepKeeps-bind (StepKeeps-from _) (λ attempt.
          StepKeeps-bind (StepKeeps-transaction _ (add_attempt-Keeps attempt))
            (λ _. StepKeeps-bind (StepKeeps-world _) (λ _. (StepKeeps-return _))))))

    store_sent-Keeps :
        (n : ℕ) (m h : ℤ) → StepKeeps {o = o} (store_sent net retries id part text chat_id n m h)
    unfolding store_sent
    store_sent-Keeps n m h = StepKeeps-bind (StepKeeps-world _) (λ now.
        StepKeeps-bind
          (StepKeeps-transaction _ (
            complete_attempt-Keeps n _ _
              (Keeps-lift {A = Attempt} (raise (lookup_error telegram_digest_not_found)))))
          (λ _. (StepKeeps-return _)))

    store_failed-Keeps :
        (n : ℕ) (e : TelegramError)
        → StepKeeps {o = o} (store_failed net retries id part text chat_id n e)
    unfolding store_failed
    store_failed-Keeps n e = StepKeeps-bind (StepKeeps-world _) (λ now.
        StepKeeps-bind
          (StepKeeps-transaction _ (
            complete_attempt-Keeps n _ _
              (Keeps-lift {A = Attempt} (raise (telegram_refused e.error_code)))))
          (λ _. (StepKeeps-return _)))

    end_or_retry-Keeps :
        (e : TelegramError) (trial : ℕ) (again : Step o Bool) (ends : Bool)
        → StepKeeps again
        → StepKeeps (end_or_retry net retries id part text chat_id e trial again ends)
    unfolding end_or_retry
    end_or_retry-Keeps e trial again true h =
        StepKeeps-bind (fail_digest-Keeps id _ _) (λ _. StepKeeps-return _)
    end_or_retry-Keeps e trial again false h = StepKeeps-bind (StepKeeps-world _) (λ _. h)

    after_send-Keeps :
        (remaining trial : ℕ) (again : Step o Bool) (result : SendResult) (n : ℕ)
        → StepKeeps again
        → StepKeeps (after_send net retries id part text chat_id remaining trial again result n)
    unfolding after_send
    after_send-Keeps remaining trial again (accepted m h) n k =
        StepKeeps-bind (store_sent-Keeps n m h) (λ _. StepKeeps-return _)
    after_send-Keeps remaining trial again (refused e) n k =
        StepKeeps-bind (store_failed-Keeps n e) (λ _. end_or_retry-Keeps e trial again _ k)

    deliver_trials-Keeps :
        (remaining trial prior : ℕ)
        → StepKeeps {o = o} (deliver_trials net retries id part text chat_id remaining trial prior)
    unfolding deliver_trials
    deliver_trials-Keeps zero trial prior =
        StepKeeps-bind (fail_digest-Keeps id ErrorCode.telegram_timeout delivery_exhausted)
          (λ _. StepKeeps-return _)
    deliver_trials-Keeps (suc remaining) trial prior =
        StepKeeps-bind (send_trial-Keeps _) (λ answer.
          after_send-Keeps remaining trial _ answer.0 answer.1
            (deliver_trials-Keeps remaining (suc trial) prior))

    pub deliver_part-Keeps :
        (prior : ℕ) → StepKeeps {o = o} (deliver_part net retries id part text chat_id prior)
    unfolding deliver_part
    deliver_part-Keeps prior = deliver_trials-Keeps retries 0 prior
