-- ===== src/Generate/Service.antt =====
-- `generate_validated_digest`. The text of a repair prompt is a function of the errors, which the
-- client is given in its place, as it is given the contexts in place of the articles' JSON.
use automation_portfolio.Prelude.{ℕ, min, Option, none, some, List, [], ◌∷◌, length}
use automation_portfolio.Prelude.Text.{Text, codes, strip}
use automation_portfolio.Prelude.Time.{aware}
use automation_portfolio.Prelude.Result.{Result, ok, raise}
use automation_portfolio.Prelude.Result
use automation_portfolio.Prelude.Action.{Action, ◌>>=◌, lift, pure}
use automation_portfolio.Messages.{
  Issue, Exc, split_error, split_issue, llm_error, post_validation_error,
}
use automation_portfolio.Enums.{ErrorCode, DigestStatus}
use automation_portfolio.Net.{Net}
use automation_portfolio.Digest.{Digest, DigestItem, post_init}
use automation_portfolio.Render.{
  RenderedDigestLine, split_digest_messages, render_digest_text, telegram_message_limit,
}
use automation_portfolio.Generate.Output.{LlmDigestResult, CandidateContext}
use automation_portfolio.Generate.Validate.{validate_model_output}
use automation_portfolio.Generate.Contexts.{lines_of}

-- The client of the language model: a result, or an LlmError.
pub record LlmClient (F : Type 0) : Type 1 where
  pub World : Type 0
  pub generate_digest :
      List (Text × CandidateContext F)
      → Option (List Issue)
      → World
      → Result LlmDigestResult × World

pub record GenerationSettings : Type 0 where
  pub digest_top_articles : ℕ
  pub max_digest_items : ℕ
  pub min_digest_items : ℕ
  pub openai_model : Text

-- `ensure_telegram_splittable`
unfoldable pub as_post_validation : Result (List Text) → Result (List Text)
as_post_validation (raise (split_error m)) = raise (post_validation_error (split_issue ∷ []))
as_post_validation r = r

unfoldable pub ensure_telegram_splittable : Text → List RenderedDigestLine → Result (List Text)
unfolding as_post_validation split_digest_messages
ensure_telegram_splittable title lines =
    as_post_validation (split_digest_messages title lines telegram_message_limit)

-- `except DigestPostValidationError`: the errors, where it is that exception.
unfoldable pub errors_of : Exc → Option (List Issue)
errors_of (post_validation_error errors) = some errors
errors_of _ = none

module _ {F : Type 0} (net : Net) (client : LlmClient F) where
  open client use {World, generate_digest}

  module _ (min_items desired : ℕ) (contexts : List (Text × CandidateContext F)) where
    abbrev pub validate : LlmDigestResult → Result (List DigestItem)
    validate result = validate_model_output net result.output contexts min_items desired

    -- The second `except`.
    unfoldable pub after_repair :
        LlmDigestResult → Result (List DigestItem) → Result (LlmDigestResult × List DigestItem)
    unfolding errors_of
    after_repair repair (ok items) = ok (repair, items)
    after_repair repair (raise e) = elim (errors_of e) [
      | none ↦ raise e
      | some errors ↦ raise (llm_error ErrorCode.output_post_validation_failed errors)
    ]

    unfoldable pub repair_turn :
        Exc → Option (List Issue) → Action World (LlmDigestResult × List DigestItem)
    unfolding after_repair
    repair_turn e none = lift (raise e)
    repair_turn e (some errors) = do
      repair ← generate_digest contexts (some errors)
      lift (after_repair repair (validate repair))

    unfoldable pub after_first :
        LlmDigestResult
        → Result (List DigestItem)
        → Action World (LlmDigestResult × List DigestItem)
    unfolding repair_turn errors_of
    after_first result (ok items) = pure (result, items)
    after_first result (raise e) = repair_turn e (errors_of e)

    unfoldable pub ask : Action World (LlmDigestResult × List DigestItem)
    unfolding after_first
    ask = do result ← generate_digest contexts none; after_first result (validate result)

  -- `build_digest`, with the id and the time of the new digest.
  unfoldable pub build_digest :
      GenerationSettings → ℕ → ℕ → ℕ → ℕ → LlmDigestResult → List DigestItem → Text → Result Digest
  unfolding strip
  build_digest settings run_id digest_date id now result items rendered = post_init (record {
    run_id = run_id;
    digest_date = digest_date;
    title = strip result.output.digest_title;
    rendered_text = rendered;
    prompt_version = codes "v1";
    items = items;
    model = settings.openai_model;
    id = id;
    status = DigestStatus.generated;
    provider_response_id = result.response_id;
    input_tokens = result.input_tokens;
    output_tokens = result.output_tokens;
    created_at = aware now;
    sent_at = none;
    error_code = none;
    error_summary = none;
  })

  -- The end of the function, which makes no call.
  unfoldable pub finish_digest :
      GenerationSettings
      → ℕ
      → ℕ
      → ℕ
      → ℕ
      → List (Text × CandidateContext F)
      → LlmDigestResult × List DigestItem
      → Result Digest
  unfolding lines_of ensure_telegram_splittable build_digest render_digest_text
  finish_digest settings run_id digest_date id now contexts (result, items) =
      let title = result.output.digest_title in
      Result.◌>>=◌ (lines_of contexts items) (λ lines.
        Result.◌>>=◌ (ensure_telegram_splittable title lines) (λ _.
          build_digest settings run_id digest_date id now result items
            (render_digest_text title lines)))

  unfoldable pub generate_validated_digest :
      GenerationSettings → ℕ → ℕ → ℕ → ℕ → List (Text × CandidateContext F) → Action World Digest
  unfolding ask finish_digest
  generate_validated_digest settings run_id digest_date id now contexts = do
    let desired = min (min settings.digest_top_articles settings.max_digest_items) (length contexts)
    let min_items = min settings.min_digest_items desired
    answered ← ask min_items desired contexts
    lift (finish_digest settings run_id digest_date id now contexts answered)
