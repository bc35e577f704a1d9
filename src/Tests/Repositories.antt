-- ===== src/Tests/Repositories.antt =====
-- Repositories and generation on concrete inputs.
use automation_portfolio.Prelude.{ℕ, suc, ◌≤◌, ◌≡◌, refl, List, [], ◌∷◌}
use automation_portfolio.Prelude.Text.{Text, codes}
use automation_portfolio.Prelude.Int.{pos}
use automation_portfolio.Prelude.Decimal.{finite}
use automation_portfolio.Prelude.Result.{ok, raise}
use automation_portfolio.Enums.{NewsItemStatus, ErrorCode, DigestTag}
use automation_portfolio.Digest.{DigestItem}
use automation_portfolio.Store.{Store, save_run, create_generated}
use automation_portfolio.Store.Change.{Each}
use automation_portfolio.Store.RunRows.{RunChange, save_run-Changed}
use automation_portfolio.Store.Consumed.{CreationOutcome, create_generated-CreationOutcome}
use automation_portfolio.Generate.{
  DigestModelOutput, DigestModelItem, CandidateContext, LlmClient, GenerationSettings,
  validate_model_output, generate_validated_digest,
}
use automation_portfolio.Generate.Sound.{IsSelection, validate_model_output-IsSelection}
use automation_portfolio.Generate.Calls.{counted, generate_validated_digest-calls}
use automation_portfolio.Messages.{llm_error}
use automation_portfolio.Tests.Samples.{started, article, feed, one_url, generated}

abbrev tables : Store
tables = record {
  runs = started ∷ [];
  fetches = [];
  attempts = [];
  digests = [];
  news_items = record article { status = NewsItemStatus.candidate } ∷ [];
  sources = feed ∷ [];
}

save_run-Changed_example : Each RunChange tables.runs (save_run started tables).1.runs
save_run-Changed_example = save_run-Changed started tables

abbrev summary_text : Text
summary_text =
    codes
      "A summary that is long enough for a digest, since it has more than eighty characters in it."

abbrev chosen : DigestModelItem
chosen = record {
  candidate_id = codes "c_01";
  summary = summary_text;
  tag = DigestTag.ai_models;
  relevance_score = finite (pos 9) 1;
  selection_reason = codes "New";
}

abbrev answer : DigestModelOutput
answer = record { digest_title = codes "News"; items = chosen ∷ [] }

abbrev contexts : List (Text × CandidateContext ℕ)
contexts =
    (
      codes "c_01",
      record {
        candidate_id = codes "c_01";
        news_item = record article { status = NewsItemStatus.candidate };
        source = feed;
        pre_score = 3;
      },
    )
    ∷ []

abbrev built : DigestItem
built = record {
  news_item_id = 11;
  position = pos 1;
  summary = summary_text;
  tag = codes "AI_MODELS";
  relevance_score = finite (pos 9) 1;
  selection_reason = codes "New";
}

create_generated-CreationOutcome_example :
    CreationOutcome tables
      (create_generated one_url (record generated { items = built ∷ [] }) tables)
create_generated-CreationOutcome_example =
    create_generated-CreationOutcome one_url (record generated { items = built ∷ [] }) tables

accepted : validate_model_output one_url answer contexts 1 7 ≡ ok (built ∷ [])
unfolding validate_model_output automation_portfolio.Digest.item_post_init
    automation_portfolio.Validators.normalize_bounded_string
accepted = refl

validate_model_output-IsSelection_example : IsSelection one_url contexts answer 1 7 (built ∷ [])
validate_model_output-IsSelection_example =
    validate_model_output-IsSelection one_url contexts answer 1 7 accepted

-- A client that always fails.
abbrev refusing : LlmClient ℕ
refusing = record {
  World = ℕ;
  generate_digest = λ contexts repair w. (raise (llm_error ErrorCode.openai_timeout []), suc w);
}

abbrev settings : GenerationSettings
settings = record {
  digest_top_articles = 7;
  max_digest_items = 7;
  min_digest_items = 1;
  openai_model = codes "gpt-4o-mini";
}

generate_validated_digest-calls_example :
    (generate_validated_digest one_url
      (counted refusing)
      settings
      1
      20000
      7
      100
      contexts
      (0, 0)).1.0
    ≤ 2
generate_validated_digest-calls_example =
    generate_validated_digest-calls one_url refusing settings 1 20000 7 100 contexts (0, 0)
