-- ===== src/Machine/Laws.antt =====
-- The checks of app/domain/state_machine.py decide the transition diagrams.
use automation_portfolio.Prelude.{◌≡◌, refl, ◌↔◌}
use automation_portfolio.Prelude.Result.{ok}
use automation_portfolio.Enums.{PipelineRunStatus, NewsItemStatus, DigestStatus}
use automation_portfolio.Machine.{
  ensure_pipeline_run_transition, ensure_news_item_transition, ensure_digest_transition,
}

-- A run ends once, in one of four outcomes.
pub data RunStep : PipelineRunStatus → PipelineRunStatus → Type 0 where
  succeed : RunStep PipelineRunStatus.running PipelineRunStatus.success
  succeed_partly : RunStep PipelineRunStatus.running PipelineRunStatus.partial_success
  find_nothing : RunStep PipelineRunStatus.running PipelineRunStatus.no_content
  fail : RunStep PipelineRunStatus.running PipelineRunStatus.failed

pub data NewsStep : NewsItemStatus → NewsItemStatus → Type 0 where
  pick : NewsStep NewsItemStatus.collected NewsItemStatus.candidate
  ignore : NewsStep NewsItemStatus.collected NewsItemStatus.ignored
  use_up : NewsStep NewsItemStatus.candidate NewsItemStatus.used
  give_back : NewsStep NewsItemStatus.candidate NewsItemStatus.collected

pub data DigestStep : DigestStatus → DigestStatus → Type 0 where
  start : DigestStep DigestStatus.generated DigestStatus.sending
  deliver : DigestStep DigestStatus.sending DigestStatus.sent
  break_off : DigestStep DigestStatus.sending DigestStatus.failed
  retry : DigestStep DigestStatus.failed DigestStatus.sending

-- What the check of a transition does: it passes along an edge, and raises
-- InvalidStateTransitionError with the two status values elsewhere.
pub RunStep-allowed :
    {a b : PipelineRunStatus} → RunStep a b → ensure_pipeline_run_transition a b ≡ ok tt
unfolding ensure_pipeline_run_transition
RunStep-allowed succeed = refl
RunStep-allowed succeed_partly = refl
RunStep-allowed find_nothing = refl
RunStep-allowed fail = refl

pub allowed-RunStep :
    (a b : PipelineRunStatus) → ensure_pipeline_run_transition a b ≡ ok tt → RunStep a b
unfolding ensure_pipeline_run_transition
allowed-RunStep PipelineRunStatus.running PipelineRunStatus.success h = succeed
allowed-RunStep PipelineRunStatus.running PipelineRunStatus.partial_success h = succeed_partly
allowed-RunStep PipelineRunStatus.running PipelineRunStatus.no_content h = find_nothing
allowed-RunStep PipelineRunStatus.running PipelineRunStatus.failed h = fail
allowed-RunStep a b h = cc

-- The check of a run transition passes exactly along the edges of the diagram, from running to one
-- of the four outcomes.
pub ensure_pipeline_run_transition_lem :
    (a b : PipelineRunStatus) → (ensure_pipeline_run_transition a b ≡ ok tt) ↔ RunStep a b
ensure_pipeline_run_transition_lem a b = (allowed-RunStep a b, RunStep-allowed)

pub NewsStep-allowed :
    {a b : NewsItemStatus} → NewsStep a b → ensure_news_item_transition a b ≡ ok tt
unfolding ensure_news_item_transition
NewsStep-allowed pick = refl
NewsStep-allowed ignore = refl
NewsStep-allowed use_up = refl
NewsStep-allowed give_back = refl

pub allowed-NewsStep :
    (a b : NewsItemStatus) → ensure_news_item_transition a b ≡ ok tt → NewsStep a b
unfolding ensure_news_item_transition
allowed-NewsStep NewsItemStatus.collected NewsItemStatus.candidate h = pick
allowed-NewsStep NewsItemStatus.collected NewsItemStatus.ignored h = ignore
allowed-NewsStep NewsItemStatus.candidate NewsItemStatus.used h = use_up
allowed-NewsStep NewsItemStatus.candidate NewsItemStatus.collected h = give_back
allowed-NewsStep a b h = cc

pub DigestStep-allowed :
    {a b : DigestStatus} → DigestStep a b → ensure_digest_transition a b ≡ ok tt
unfolding ensure_digest_transition
DigestStep-allowed start = refl
DigestStep-allowed deliver = refl
DigestStep-allowed break_off = refl
DigestStep-allowed retry = refl

pub allowed-DigestStep :
    (a b : DigestStatus) → ensure_digest_transition a b ≡ ok tt → DigestStep a b
unfolding ensure_digest_transition
allowed-DigestStep DigestStatus.generated DigestStatus.sending h = start
allowed-DigestStep DigestStatus.sending DigestStatus.sent h = deliver
allowed-DigestStep DigestStatus.sending DigestStatus.failed h = break_off
allowed-DigestStep DigestStatus.failed DigestStatus.sending h = retry
allowed-DigestStep a b h = cc
