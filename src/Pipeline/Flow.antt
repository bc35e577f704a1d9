-- ===== src/Pipeline/Flow.antt =====
-- The statements of `_run_locked`: on the run object, the store and the world.
use automation_portfolio.Prelude.{ℕ, Bool, Option, List}
use automation_portfolio.Prelude.Text.{Text}
use automation_portfolio.Prelude.Result.{Result, ok, raise}
use automation_portfolio.Prelude.Action.{Action}
use automation_portfolio.Messages.{Issue}
use automation_portfolio.Enums.{ErrorCode}
use automation_portfolio.Run.{PipelineRun}
use automation_portfolio.Source.{Source}
use automation_portfolio.Store.{Store}
use automation_portfolio.Select.{Floats, SelectionProfile}
use automation_portfolio.Ingest.{Library, IngestSettings, Fetching}
use automation_portfolio.Generate.{CandidateContext, LlmDigestResult, GenerationSettings}
use automation_portfolio.Delivery.{Outside, Settings, Step}

-- What the service calls besides the Telegram client and the clock of the delivery: the advisory
-- lock, the files of the configuration, the feed client, and the client of the language model.
-- Loading the feed configuration gives `resolve_source_limits` with it and the settings;
-- `llm_summary` is the text of an LlmError.
pub record Surroundings (o : Outside) : Type 1 where
  pub library : Library
  pub floats : Floats
  pub float_zero : floats.Float
  pub collates : Text → Text → Bool
  pub acquire : o.World → Bool × o.World
  pub release : o.World → o.World
  pub load_feed_configuration : o.World → Result (List Source → ℕ → Option ℕ) × o.World
  pub load_topic_profile : o.World → Result SelectionProfile × o.World
  pub fetch_feeds : List Source → o.World → Fetching × o.World
  pub llm_summary : ErrorCode → List Issue → Text
  pub generate_digest :
      List (Text × CandidateContext floats.Float)
      → Option (List Issue)
      → o.World
      → Result LlmDigestResult × o.World

pub record PipelineSettings : Type 0 where
  pub ingest : IngestSettings
  pub generation : GenerationSettings
  pub telegram : Settings
  pub telegram_enabled : Bool
  pub max_item_age_hours : ℕ
  pub max_llm_candidates : ℕ

pub record FlowState (o : Outside) : Type 0 where
  pub run : PipelineRun
  pub store : Store
  pub world : o.World

abbrev pub Flow : Outside → Type 0 → Type 0
Flow o A = FlowState o → Result A × FlowState o

module _ {o : Outside} where
  infixl 5 ◌>>=◌
  unfoldable pub ◌>>=◌ : {A B : Type 0} → Flow o A → (A → Flow o B) → Flow o B
  ◌>>=◌ m rest s =
      let (r, after) = m s in elim r [ ok a ↦ rest a after | raise e ↦ (raise e, after) ]

  infixl 5 ◌>>◌
  abbrev pub ◌>>◌ : {B : Type 0} → Flow o (Unit {0}) → Flow o B → Flow o B
  m >> rest = m >>= λ _. rest

  unfoldable pub return : {A : Type 0} → A → Flow o A
  return a s = (ok a, s)

  unfoldable pub from : {A : Type 0} → Result A → Flow o A
  from r s = (r, s)

  unfoldable pub the_run : Flow o PipelineRun
  the_run s = (ok s.run, s)

  unfoldable pub on_run : {A : Type 0} → Action PipelineRun A → Flow o A
  on_run m s = let (r, after) = m s.run in (r, record s { run = after })

  -- A call of a repository.
  unfoldable pub on_store : {A : Type 0} → Action Store A → Flow o A
  on_store m s = let (r, after) = m s.store in (r, record s { store = after })

  unfoldable pub on_world : {A : Type 0} → (o.World → A × o.World) → Flow o A
  on_world f s = let (a, after) = f s.world in (ok a, record s { world = after })

  -- A call of the world that may raise.
  unfoldable pub try_world : {A : Type 0} → (o.World → Result A × o.World) → Flow o A
  try_world f s = let (r, after) = f s.world in (r, record s { world = after })

  unfoldable pub on_delivery : {A : Type 0} → Step o A → Flow o A
  on_delivery m s =
      let (r, after) = m (record { store = s.store; world = s.world }) in
      (r, record s { store = after.store; world = after.world })

  -- `async with transaction_scope(…)`: what was assigned to the run stays assigned.
  unfoldable pub in_transaction : {A : Type 0} → Flow o A → Flow o A
  in_transaction m s =
      let (r, after) = m s in
      elim r [ ok a ↦ (ok a, after) | raise e ↦ (raise e, record after { store = s.store }) ]
