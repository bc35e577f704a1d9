-- ===== src/News/Methods.antt =====
-- `NewsItem.transition_to`.
use automation_portfolio.Prelude.{Option}
use automation_portfolio.Prelude.Action.{Action, ◌>>=◌, ◌>>◌, lift, get, modify}
use automation_portfolio.Enums.{NewsItemStatus, IgnoreReason}
use automation_portfolio.Machine.{ensure_news_item_transition}
use automation_portfolio.News.Entity.{NewsItem, validate_ignore_reason}

unfoldable pub transition_to : NewsItemStatus → Option IgnoreReason → Action NewsItem (Unit {0})
unfolding validate_ignore_reason
transition_to target reason = do
  self ← get
  lift (validate_ignore_reason target reason)
  lift (ensure_news_item_transition self.status target)
  modify (λ i. record i { status = target; ignore_reason = reason })
