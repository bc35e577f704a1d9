-- ===== src/Tests/Deliveries.antt =====
-- Deliveries on concrete inputs.
use automation_portfolio.Prelude.{◌≡◌, refl, none, ◌∷◌, [], false, ℕ, ◌+◌}
use automation_portfolio.Prelude.Text.{Text, codes}
use automation_portfolio.Prelude.Int.{pos}
use automation_portfolio.Prelude.Time.{aware}
use automation_portfolio.Prelude.Decimal.{finite}
use automation_portfolio.Prelude.Result.{ok}
use automation_portfolio.Enums.{DigestStatus}
use automation_portfolio.Attempt.{Attempt}
use automation_portfolio.Attempt.Preserved.{sent_of}
use automation_portfolio.Store.Grown.{Grown}
use automation_portfolio.Delivery.{Outside, Settings, State, accepted, deliver, deliver_parts}
use mathlib.Core.List.{Memᴰ}
use automation_portfolio.Delivery.Kept.{deliver-Grown}
use automation_portfolio.Delivery.Resumed.{
  FirstUnsent, IsSent-occurs, resumed, deliver_parts-AllSent,
}
use automation_portfolio.Tests.Samples.{pending, generated, article, feed, one_url}

-- A client that takes every message; the world counts the calls, which are also the times and ids.
abbrev pub willing : Outside
willing = record {
  World = ℕ;
  send_message = λ chat text w. (accepted (pos 900) (pos 200), w + 1);
  utc_now = λ w. (w, w + 1);
  uuid4 = λ w. (w, w + 1);
  sleep = λ seconds w. w + 1;
}

abbrev pub settings : Settings
settings = record { is_live = false; telegram_chat_id = none; telegram_max_retries = 3 }

abbrev sent_once : Attempt
sent_once = sent_of pending (pos 77) (aware 60) (pos 200)

abbrev long_summary : Text
long_summary =
    codes
      "A summary that is long enough for a digest, since it has more than eighty characters in it."

abbrev stored : State willing
stored = record {
  store = record {
    runs = [];
    fetches = [];
    attempts = record sent_once { part_number = pos 2 } ∷ [];
    digests =
        record generated {
          items =
              record {
                news_item_id = 11;
                position = pos 1;
                summary = long_summary;
                tag = codes "AI_MODELS";
                relevance_score = finite (pos 9) 1;
                selection_reason = codes "New";
              }
              ∷ [];
        }
        ∷ [];
    news_items = article ∷ [];
    sources = feed ∷ [];
  };
  world = 1000;
}

deliver-Grown_example :
    Grown stored.store.attempts (deliver one_url settings 7 stored).1.store.attempts
deliver-Grown_example = deliver-Grown one_url settings 7 stored

-- Of two parts the first has been sent.
second-FirstUnsent : FirstUnsent (sent_once ∷ []) (codes "Part two" ∷ []) 2
unfolding automation_portfolio.Delivery.sent_parts
second-FirstUnsent h =
    let found = IsSent-occurs (sent_once ∷ []) h.attempt 2 h.among h.sent h.of_part in cc

deliver_parts-AllSent_example :
    deliver_parts one_url settings 7
      (sent_once ∷ [])
      (codes "Part one" ∷ codes "Part two" ∷ [])
      1
      1
      stored
    ≡ resumed one_url settings 7 (sent_once ∷ []) (codes "Part two" ∷ []) 2 1 stored
deliver_parts-AllSent_example =
    deliver_parts-AllSent one_url settings 7 (sent_once ∷ []) (codes "Part one" ∷ [])
      (codes "Part two" ∷ []) 1 1 stored
      (record { attempt = sent_once; among = Memᴰ.head refl; sent = refl; of_part = refl }, tt)
      second-FirstUnsent

-- The one message is sent, and the digest is then sent.
one_message_sent :
    (deliver one_url settings 7 stored).0
    ≡ ok (record {
      digest_id = 7;
      status = DigestStatus.sent;
      parts_total = 1;
      parts_sent = 2;
      skipped = false;
    })
unfolding deliver automation_portfolio.Delivery.◌>>=◌ automation_portfolio.Delivery.in_transaction
    automation_portfolio.Store.get_digest automation_portfolio.Digest.item_post_init
    automation_portfolio.Validators.normalize_bounded_string automation_portfolio.Digest.post_init
    automation_portfolio.Digest.validate_items automation_portfolio.Digest.normalize_error_fields
    automation_portfolio.Store.get_news automation_portfolio.News.post_init
    automation_portfolio.Net.Hosts.ensure_https_url automation_portfolio.Store.get_source
    automation_portfolio.Source.post_init automation_portfolio.Net.Policy.ensure_feed_url
    automation_portfolio.Store.list_for_digest automation_portfolio.Attempt.post_init
    automation_portfolio.Render.split_digest_messages automation_portfolio.Delivery.call_world
    automation_portfolio.Store.transition_digest automation_portfolio.Digest.transition_to
    automation_portfolio.Machine.ensure_digest_transition automation_portfolio.Delivery.deliver_part
    automation_portfolio.Attempt.new_attempt automation_portfolio.Delivery.from
    automation_portfolio.Delivery.return automation_portfolio.Store.add_attempt
    automation_portfolio.Delivery.complete_attempt automation_portfolio.Store.get_attempt
    automation_portfolio.Store.save_attempt automation_portfolio.Attempt.mark_sent
one_message_sent = refl
