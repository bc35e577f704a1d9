-- ===== src/Generate/Calls.antt =====
-- How often `generate_validated_digest` calls the language model.
use automation_portfolio.Prelude.{
  ℕ, suc, ◌+◌, ◌≤◌, min, Option, none, some, List, length, arith, inl, inr,
}
use automation_portfolio.Prelude.Text.{Text}
use automation_portfolio.Prelude.Result.{Result, ok, raise, Result-cases}
use automation_portfolio.Prelude.Action.{Action, ◌>>=◌, >>=-lift}
use automation_portfolio.Messages.{Issue, Exc}
use automation_portfolio.Net.{Net}
use automation_portfolio.Digest.{DigestItem}
use automation_portfolio.Generate.Output.{LlmDigestResult, CandidateContext}
use automation_portfolio.Generate.Service.{
  LlmClient, GenerationSettings, errors_of, after_first, repair_turn, ask, validate,
  generate_validated_digest, finish_digest,
}

-- A client with a count of its calls.
abbrev pub counted : {F : Type 0} → LlmClient F → LlmClient F
counted client = record {
  World = ℕ × client.World;
  generate_digest = λ contexts repair w.
      let (answer, after) = client.generate_digest contexts repair w.1 in
      (answer, (suc w.0, after));
}

bind_calls :
    {A B W : Type 0} (f : A → Action (ℕ × W) B) (p : Result A × (ℕ × W)) (n : ℕ)
    → p.1.0 ≤ n
    → ((a : A) → (f a p.1).1.0 ≤ n)
    → (◌>>=◌ (λ _. p) f p.1).1.0 ≤ n
bind_calls f (ok a, w) n h k = k a
bind_calls f (raise e, w) n h k = h

module _ {F : Type 0} (net : Net) (client : LlmClient F) where
  repair_turn-calls :
      (min_items desired : ℕ) (contexts : List (Text × CandidateContext F)) (e : Exc)
      (errors : Option (List Issue)) (w : ℕ × client.World)
      → (repair_turn net (counted client) min_items desired contexts e errors w).1.0 ≤ w.0 + 1
  unfolding repair_turn
  repair_turn-calls min_items desired contexts e none w = omega arith
  repair_turn-calls min_items desired contexts e (some errors) w =
      elim (Result-cases (client.generate_digest contexts (some errors) w.1).0) [
        | inl (_, h) ↦ ground (arith, h)
        | inr (_, h) ↦ ground (arith, h)
      ]

  after_first-calls :
      (min_items desired : ℕ) (contexts : List (Text × CandidateContext F))
      (result : LlmDigestResult) (items : Result (List DigestItem)) (w : ℕ × client.World)
      → (after_first net (counted client) min_items desired contexts result items w).1.0 ≤ w.0 + 1
  unfolding after_first
  after_first-calls min_items desired contexts result (ok items) w = omega arith
  after_first-calls min_items desired contexts result (raise e) w =
      repair_turn-calls min_items desired contexts e (errors_of e) w

  ask-calls :
      (min_items desired : ℕ) (contexts : List (Text × CandidateContext F)) (w : ℕ × client.World)
      → (ask net (counted client) min_items desired contexts w).1.0 ≤ w.0 + 2
  unfolding ask
  ask-calls min_items desired contexts w =
      let validated : LlmDigestResult → Result (List DigestItem) =
        λ result. validate net (counted client) min_items desired contexts result in
      let answered = (counted client).generate_digest contexts none w in
      bind_calls
        (λ result.
          after_first net (counted client) min_items desired contexts result (validated result))
        answered (w.0 + 2) (omega arith)
        (λ result.
          let k =
            after_first-calls min_items desired contexts result (validated result) answered.1 in
          omega (arith, k))

  -- generate_validated_digest calls the language model at most twice, whatever the model answers.
  pub generate_validated_digest-calls :
      (settings : GenerationSettings) (run_id digest_date id now : ℕ)
      (contexts : List (Text × CandidateContext F)) (w : ℕ × client.World)
      → (generate_validated_digest net
          (counted client)
          settings
          run_id
          digest_date
          id
          now
          contexts
          w).1.0
        ≤ w.0 + 2
  unfolding generate_validated_digest
  generate_validated_digest-calls settings run_id digest_date id now contexts w =
      let desired =
        min (min settings.digest_top_articles settings.max_digest_items) (length contexts) in
      let min_items = min settings.min_digest_items desired in
      rw
        (>>=-lift (ask net (counted client) min_items desired contexts)
          (finish_digest net (counted client) settings run_id digest_date id now contexts) w)
        (ask-calls min_items desired contexts w)
