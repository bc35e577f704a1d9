-- ===== src/News/Invariant.antt =====
-- The life of a `NewsItem` under `transition_to`.
use automation_portfolio.Prelude.{◌≡◌, ◌≢◌, ◌↔◌, Option, none, arith}
use automation_portfolio.Prelude.Result.{ok, raise}
use automation_portfolio.Messages.{Exc}
use automation_portfolio.Enums.{NewsItemStatus, IgnoreReason}
use automation_portfolio.Machine.Laws.{NewsStep, allowed-NewsStep, NewsStep-allowed}
use automation_portfolio.News.Entity.{NewsItem, validate_ignore_reason}
use automation_portfolio.News.Methods.{transition_to}

-- Only an ignored article has a reason.
abbrev pub HasReason : NewsItemStatus → Option IgnoreReason → Type 0
HasReason NewsItemStatus.ignored reason = reason ≢ none
HasReason _ reason = reason ≡ none

pub validate_ignore_reason_lem :
    (status : NewsItemStatus) (reason : Option IgnoreReason)
    → (validate_ignore_reason status reason ≡ ok tt) ↔ HasReason status reason
unfolding validate_ignore_reason
validate_ignore_reason_lem NewsItemStatus.ignored reason = ground arith
validate_ignore_reason_lem _ reason = ground arith

pub transition_to_raised :
    (target : NewsItemStatus) (reason : Option IgnoreReason) (i : NewsItem) {e : Exc}
    → (transition_to target reason i).0 ≡ raise e
    → (transition_to target reason i).1 ≡ i
unfolding transition_to
transition_to_raised target reason i h = ground arith

-- NewsItem.transition_to goes through, and sets the status and the reason and nothing else,
-- exactly when the diagram has the edge and a reason is given for an ignored article and for no
-- other.
pub transition_to_lem :
    (target : NewsItemStatus) (reason : Option IgnoreReason) (i : NewsItem)
    → (transition_to target reason i
        ≡ (ok tt, record i { status = target; ignore_reason = reason }))
      ↔ (NewsStep i.status target × HasReason target reason)
unfolding transition_to
transition_to_lem target reason i = (
  λ h. (
    allowed-NewsStep i.status target (ground arith),
    (validate_ignore_reason_lem target reason).0 (ground arith),
  ),
  λ h. rw ((validate_ignore_reason_lem target reason).1 h.1, NewsStep-allowed h.0),
)
