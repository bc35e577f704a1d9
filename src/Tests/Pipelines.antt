-- ===== src/Tests/Pipelines.antt =====
-- Runs of the pipeline on concrete inputs.
use automation_portfolio.Prelude.{◌+◌, refl, some, true, false, [], arith}
use automation_portfolio.Prelude.Text.{codes}
use automation_portfolio.Prelude.Result.{ok, raise}
use automation_portfolio.Messages.{value_error, llm_error, run_not_found}
use automation_portfolio.Enums.{TriggerType, ErrorCode}
use automation_portfolio.Pipeline.{Surroundings, PipelineSettings, FlowState, run_body, guarded}
use automation_portfolio.Pipeline.Leads.{OnOk}
use automation_portfolio.Pipeline.Ends.{EndedOutcome, guarded-Ended}
use automation_portfolio.Pipeline.Recovers.{CanFail, IsRecovered, guarded-IsRecovered}
use automation_portfolio.Tests.Samples.{started, points, lenient}
use automation_portfolio.Tests.Ingestion.{library, limits, outside, empty}
use automation_portfolio.Tests.Deliveries
use automation_portfolio.Tests.Deliveries.{willing}
use automation_portfolio.Tests.Runs.{started-IsValidRun}

-- The feed configuration cannot be read.
abbrev unreadable : Surroundings willing
unreadable = record {
  library = library;
  floats = points;
  float_zero = 0;
  collates = λ a b. true;
  acquire = λ w. (true, w);
  release = λ w. w;
  load_feed_configuration = λ w. (raise (value_error run_not_found), w + 1);
  load_topic_profile = λ w. (ok lenient, w + 1);
  fetch_feeds = λ sources w. (outside, w + 1);
  llm_summary = λ code issues. codes "The model failed.";
  generate_digest = λ contexts repair w. (raise (llm_error ErrorCode.openai_timeout []), w + 1);
}

abbrev readable : Surroundings willing
readable = record unreadable { load_feed_configuration = λ w. (ok (λ sources id. some 10), w + 1) }

abbrev pipeline_settings : PipelineSettings
pipeline_settings = record {
  ingest = limits;
  generation = record {
    digest_top_articles = 7;
    max_digest_items = 7;
    min_digest_items = 1;
    openai_model = codes "gpt-4o-mini";
  };
  telegram = Deliveries.settings;
  telegram_enabled = false;
  max_item_age_hours = 24;
  max_llm_candidates = 7;
}

abbrev at_start : FlowState willing
at_start = record { run = started; store = empty; world = 2000000 }

guarded-Ended_example : OnOk EndedOutcome (
    guarded readable pipeline_settings
      (run_body readable pipeline_settings TriggerType.manual)
      at_start)
guarded-Ended_example = guarded-Ended readable pipeline_settings TriggerType.manual at_start

-- The exception is caught one tick after the start.
can_fail :
    CanFail unreadable pipeline_settings
      (run_body unreadable pipeline_settings TriggerType.manual at_start).1
unfolding run_body automation_portfolio.Pipeline.◌>>=◌ automation_portfolio.Pipeline.try_world
    automation_portfolio.Store.find
can_fail = record {
  valid = started-IsValidRun;
  running = refl;
  in_time = omega arith;
  row = started;
  same_row = record {
    same_id = refl;
    same_trigger = refl;
    same_version = refl;
    same_start = refl;
    running = refl;
  };
  found = refl;
}

guarded-IsRecovered_example : IsRecovered 1 (
    guarded unreadable pipeline_settings
      (run_body unreadable pipeline_settings TriggerType.manual)
      at_start)
unfolding run_body automation_portfolio.Pipeline.◌>>=◌ automation_portfolio.Pipeline.try_world
guarded-IsRecovered_example =
    guarded-IsRecovered unreadable pipeline_settings
      (run_body unreadable pipeline_settings TriggerType.manual) at_start refl can_fail
