-- ===== src/Run/Entity.antt =====
-- The fields of `PipelineRun`, and the checks that its constructor and its methods share.
use automation_portfolio.Prelude.{
  ℕ, Bool, true, false, ◌||◌, Option, none, some, List, [], ◌∷◌, if◌then◌else◌, is_some,
}
use automation_portfolio.Prelude.Text.{Text}
use automation_portfolio.Prelude.Int.{ℤ, pos, ◌+ℤ◌, ltb_ℤ}
use automation_portfolio.Prelude.Time.{Datetime}
use automation_portfolio.Prelude.Result.{Result, ok, raise, ◌>>=◌, ◌>>◌, raise_if}
use automation_portfolio.Messages.{
  value_error, feed_counters_inconsistent, item_counters_inconsistent,
  selection_counters_inconsistent, run_error_forbidden, run_failed_error_required,
}
use automation_portfolio.Enums.{TriggerType, PipelineRunStatus, ErrorCode}
use automation_portfolio.Validators.{
  ensure_non_negative_int, normalize_error_code, member, normalize_error_summary,
}

pub record Counters : Type 0 where
  pub feeds_total : ℤ
  pub feeds_succeeded : ℤ
  pub items_fetched : ℤ
  pub items_inserted : ℤ
  pub items_duplicate : ℤ
  pub candidates_count : ℤ
  pub selected_count : ℤ

pub record PipelineRun : Type 0 where
  pub trigger_type : TriggerType
  pub app_version : Text
  pub id : ℕ
  pub status : PipelineRunStatus
  pub started_at : Datetime
  pub finished_at : Option Datetime
  pub counters : Counters
  pub error_code : Option ErrorCode
  pub error_summary : Option Text
  pub duration_ms : Option ℤ

abbrev pub zero_counters : Counters
zero_counters = record {
  feeds_total = pos 0;
  feeds_succeeded = pos 0;
  items_fetched = pos 0;
  items_inserted = pos 0;
  items_duplicate = pos 0;
  candidates_count = pos 0;
  selected_count = pos 0;
}

-- The keys of the dict of `_counter_values`.
pub data CounterName : Type 0 where
  feeds_total feeds_succeeded items_fetched items_inserted items_duplicate : CounterName
  candidates_count selected_count : CounterName

unfoldable pub add_to : CounterName → ℤ → Counters → Counters
add_to feeds_total n c = record c { feeds_total = c.feeds_total +ℤ n }
add_to feeds_succeeded n c = record c { feeds_succeeded = c.feeds_succeeded +ℤ n }
add_to items_fetched n c = record c { items_fetched = c.items_fetched +ℤ n }
add_to items_inserted n c = record c { items_inserted = c.items_inserted +ℤ n }
add_to items_duplicate n c = record c { items_duplicate = c.items_duplicate +ℤ n }
add_to candidates_count n c = record c { candidates_count = c.candidates_count +ℤ n }
add_to selected_count n c = record c { selected_count = c.selected_count +ℤ n }

ensure_all_non_negative : List ℤ → Result (Unit {0})
unfolding ensure_non_negative_int
ensure_all_non_negative [] = ok tt
ensure_all_non_negative (v ∷ values) =
    ensure_non_negative_int v >>= λ _. ensure_all_non_negative values

unfoldable pub validate_counters : Counters → Result (Unit {0})
unfolding ensure_all_non_negative
validate_counters c = do
  ensure_all_non_negative (
      feeds_total ∷ feeds_succeeded ∷ items_fetched ∷ items_inserted ∷ items_duplicate
      ∷ candidates_count ∷ selected_count ∷ [])
  raise_if (ltb_ℤ feeds_total feeds_succeeded) (value_error feed_counters_inconsistent)
  raise_if (ltb_ℤ items_fetched (items_inserted +ℤ items_duplicate))
      (value_error item_counters_inconsistent)
  raise_if (ltb_ℤ candidates_count selected_count) (value_error selection_counters_inconsistent)
  where
    open c use {
      feeds_total, feeds_succeeded, items_fetched, items_inserted, items_duplicate,
      candidates_count, selected_count,
    }

-- `status is not PipelineRunStatus.FAILED`, and the two outcomes of that test.
no_error_fields : Option ErrorCode → Option Text → Result (Option ErrorCode × Option Text)
no_error_fields code summary =
    if is_some code || is_some summary
    then raise (value_error run_error_forbidden)
    else ok (none, none)

failed_error_fields : Option ErrorCode → Option Text → Result (Option ErrorCode × Option Text)
unfolding normalize_error_summary
failed_error_fields none summary = raise (value_error run_failed_error_required)
failed_error_fields (some code) summary = do
  c ← normalize_error_code (member code)
  s ← normalize_error_summary summary
  ok (some c, s)

unfoldable pub normalize_error_fields :
    PipelineRunStatus → Option ErrorCode → Option Text → Result (Option ErrorCode × Option Text)
unfolding no_error_fields failed_error_fields
normalize_error_fields PipelineRunStatus.failed code summary = failed_error_fields code summary
normalize_error_fields _ code summary = no_error_fields code summary

abbrev pub is_running : PipelineRunStatus → Bool
is_running PipelineRunStatus.running = true
is_running _ = false
