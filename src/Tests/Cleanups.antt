-- ===== src/Tests/Cleanups.antt =====
-- A cleanup of concrete rows.
use automation_portfolio.Prelude.{false, [], ◌∷◌}
use automation_portfolio.Prelude.Int.{pos}
use automation_portfolio.Prelude.Time.{aware}
use automation_portfolio.Store.{Store}
use automation_portfolio.Attempt.Preserved.{sent_of}
use automation_portfolio.Cleanup.{cleanup_operational_records}
use automation_portfolio.Cleanup.Laws.{CleanupOutcome, cleanup_operational_records-CleanupOutcome}
use automation_portfolio.Tests.Samples.{pending}
use automation_portfolio.Tests.Ingestion.{empty}

-- Two attempts, of which one ended in the first minute.
abbrev attempted : Store
attempted = record empty { attempts = sent_of pending (pos 77) (aware 60) (pos 200) ∷ pending ∷ [] }

-- Two days later, what is older than one day is removed.
cleanup_operational_records-CleanupOutcome_example :
    CleanupOutcome
      (pos 1)
      false
      172800000000
      attempted
      (cleanup_operational_records (pos 1) false 172800000000 attempted)
cleanup_operational_records-CleanupOutcome_example =
    cleanup_operational_records-CleanupOutcome (pos 1) false 172800000000 attempted
