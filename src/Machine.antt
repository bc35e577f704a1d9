-- ===== src/Machine.antt =====
-- app/domain/state_machine.py: the transition tables, and the checks against them.
pub mod Laws
use Prim.Native.String.{String}
use text.Mathlib.Text.{◌==◌ as str_eq}
use automation_portfolio.Prelude.{Bool, true, false, ◌||◌, List, [], ◌∷◌, if◌then◌else◌}
use automation_portfolio.Prelude.Result.{Result, ok, raise}
use automation_portfolio.Messages.{invalid_transition}
use automation_portfolio.Enums.{
  PipelineRunStatus, NewsItemStatus, DigestStatus, run_status_value, news_status_value,
  digest_status_value,
}

-- A transition table, in the order in which the source writes it.
abbrev Transitions : Type 0 → Type 0
Transitions S = List (S × List S)

abbrev pipeline_run_transitions : Transitions PipelineRunStatus
pipeline_run_transitions =
    (
      PipelineRunStatus.running,
      PipelineRunStatus.success ∷ PipelineRunStatus.partial_success ∷ PipelineRunStatus.no_content
          ∷ PipelineRunStatus.failed ∷ [],
    )
    ∷ []

abbrev news_item_transitions : Transitions NewsItemStatus
news_item_transitions =
    (NewsItemStatus.collected, NewsItemStatus.candidate ∷ NewsItemStatus.ignored ∷ [])
    ∷ (NewsItemStatus.candidate, NewsItemStatus.used ∷ NewsItemStatus.collected ∷ [])
    ∷ []

abbrev digest_transitions : Transitions DigestStatus
digest_transitions =
    (DigestStatus.generated, DigestStatus.sending ∷ [])
    ∷ (DigestStatus.sending, DigestStatus.sent ∷ DigestStatus.failed ∷ [])
    ∷ (DigestStatus.failed, DigestStatus.sending ∷ [])
    ∷ []

-- Members of a StrEnum are compared, and hashed, as their strings.
module _ {S : Type 0} (value : S → String) where
  -- `target in targets`
  has_target : S → List S → Bool
  has_target target [] = false
  has_target target (s ∷ targets) = str_eq (value target) (value s) || has_target target targets

  -- `allowed_transitions.get(current, frozenset())`
  targets_of : S → Transitions S → List S
  targets_of current [] = []
  targets_of current ((s, targets) ∷ table) =
      if str_eq (value current) (value s) then targets else targets_of current table

  ensure_transition_allowed : String → S → S → Transitions S → Result (Unit {0})
  unfolding has_target targets_of
  ensure_transition_allowed entity current target table =
      if has_target target (targets_of current table)
      then ok tt
      else raise (invalid_transition entity (value current) (value target))

unfoldable pub ensure_pipeline_run_transition :
    PipelineRunStatus → PipelineRunStatus → Result (Unit {0})
unfolding ensure_transition_allowed run_status_value
ensure_pipeline_run_transition current target =
    ensure_transition_allowed run_status_value "pipeline run" current target
      pipeline_run_transitions

unfoldable pub ensure_news_item_transition : NewsItemStatus → NewsItemStatus → Result (Unit {0})
unfolding ensure_transition_allowed news_status_value
ensure_news_item_transition current target =
    ensure_transition_allowed news_status_value "news item" current target news_item_transitions

unfoldable pub ensure_digest_transition : DigestStatus → DigestStatus → Result (Unit {0})
unfolding ensure_transition_allowed digest_status_value
ensure_digest_transition current target =
    ensure_transition_allowed digest_status_value "digest" current target digest_transitions
